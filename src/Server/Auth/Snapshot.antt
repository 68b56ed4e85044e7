-- ===== src/Server/Auth/Snapshot.antt =====
-- server/src/auth_store.rs: `save` and `load`.
use memoria_mcp.Prelude.{ℕ, ◌≡◌, refl, String, Option, none, some, List, [], ok, err}
use memoria_mcp.Prelude.Exec.{Exec}
use memoria_mcp.Server.Auth.{AuthStore, User, ApiKey, RefreshTokenRecord}
use memoria_mcp.Snapshot.{Disk, write_atomically}
use memoria_mcp.Snapshot.Files.{IsFaithful, read-write_atomically}

pub record AuthSnapshot : Type 0 where
  pub users : List User
  pub api_keys : List ApiKey
  pub refresh_tokens : List RefreshTokenRecord

-- What serde writes and reads.
pub record AuthFormat (T : Type 0) : Type 0 where
  pub print : AuthSnapshot → T
  pub parse : T → Option AuthSnapshot

abbrev no_accounts : AuthSnapshot
no_accounts = record { users = []; api_keys = []; refresh_tokens = [] }

abbrev pub snapshot_of : AuthStore → AuthSnapshot
snapshot_of s = record { users = s.users; api_keys = s.api_keys; refresh_tokens = s.refresh_tokens }

-- A store with the accounts of a file, and the counters of a process that starts.
abbrev pub started : AuthSnapshot → AuthStore
started a = record {
  users = a.users;
  api_keys = a.api_keys;
  refresh_tokens = a.refresh_tokens;
  ticket = 0;
  readings = 0;
}

module _ {D T : Type 0} (disk : Disk D T) (serde : AuthFormat T) where
  unfoldable pub save : ℕ → String → AuthStore → Exec String D (Unit {0})
  unfolding write_atomically
  save pid path s = write_atomically disk pid path (serde.print (snapshot_of s))

  unfoldable pub load : String → D → AuthStore
  load path d = elim (disk.read_to_string path d) [
    | err e ↦ started no_accounts
    | ok text ↦ elim (serde.parse text) [
      | none ↦ started no_accounts
      | some snapshot ↦ started snapshot
    ]
  ]

  -- After a restart on a file that was written without an error, the accounts, the keys and the refresh
  -- tokens, the revoked ones too, are those that were saved. The file system and serde do as documented.
  pub load-save :
      IsFaithful disk
      → ((a : AuthSnapshot) → serde.parse (serde.print a) ≡ some a)
      → (pid : ℕ) (path : String) (d d' : D) (s : AuthStore) → save pid path s d ≡ (ok tt, d')
      → load path d' ≡ record s { ticket = 0; readings = 0 }
  unfolding save load
  load-save files parse-print pid path d d' s e =
      let written = read-write_atomically disk files pid path _ d d' e in
      rw (load, written, parse-print (snapshot_of s)) refl
