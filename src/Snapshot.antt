-- ===== src/Snapshot.antt =====
-- server/src/main.rs: the files that a restart reads, as cli/src/main.rs and mcp/src/main.rs write them too.
-- The file system with the counter of temporary files, of type `D`, the contents of a file, of type `T`, and
-- serde are parameters.
pub mod Files
pub mod RoundTrip
use memoria_mcp.Prelude.{
  ℕ, String, true, Option, none, some, List, [], ◌∷◌, Result, ok, err, format, decimal,
}
use memoria_mcp.Prelude.Exec.{Exec, pure, ◌>>=◌, ◌>>◌}
use memoria_mcp.Map.{Map}
use memoria_mcp.Store.{VectorRecord, usize_max}
use memoria_mcp.Store.InMemory
use memoria_mcp.Store.InMemory.{Records}
use memoria_mcp.Memory.{World, Env, HistoryEntry}
use memoria_mcp.Memory.Records.{list_all, get_record, history_snapshot}

-- The calls of `std::fs` and `std::path`.
pub record Disk (D T : Type 0) : Type 0 where
  pub create_dir_all : String → Exec String D (Unit {0})
  -- `COUNTER.fetch_add(1, ..)`
  pub next_unique : Exec String D ℕ
  pub write : String → T → Exec String D (Unit {0})
  pub rename : String → String → Exec String D (Unit {0})
  pub read_to_string : String → D → Result String T
  pub parent : String → Option String
  pub with_extension : String → String → String
  pub with_file_name : String → String → String

-- What serde writes and reads.
pub record Format (F T : Type 0) : Type 0 where
  pub print_records : List (VectorRecord F) → T
  pub parse_records : T → Option (List (VectorRecord F))
  pub print_history : Map (List HistoryEntry) → T
  pub parse_history : T → Option (Map (List HistoryEntry))

module _ {D T : Type 0} (disk : Disk D T) where
  abbrev make_parent : Option String → Exec String D (Unit {0})
  make_parent none = pure tt
  make_parent (some parent) = disk.create_dir_all parent

  unfoldable pub write_atomically : ℕ → String → T → Exec String D (Unit {0})
  write_atomically pid path text = do
    make_parent (disk.parent path)
    unique ← disk.next_unique
    let temp_path =
        disk.with_extension path (format ("json.tmp." ∷ decimal pid ∷ "." ∷ decimal unique ∷ []))
    disk.write temp_path text
    disk.rename temp_path path

  unfoldable pub resolve_history_path : String → String
  resolve_history_path store_path = disk.with_file_name store_path "history.json"

-- `unwrap_or_default()` of a listing.
abbrev pub or_empty {ℓ} : {E : Type 0} {A : Type ℓ} → Result E (List A) → List A
or_empty (ok xs) = xs
or_empty (err e) = []

-- `ids.iter().filter_map(|id| memory.get(id).ok().flatten())`
unfoldable pub records_of :
    {F G S : Type 0} → Env F G S → List String → World S → List (VectorRecord F)
records_of env [] w = []
records_of env (id ∷ ids) w =
    let rest = records_of env ids w in
    elim (get_record env id w).0 [
      | err e ↦ rest
      | ok found ↦ elim found [ none ↦ rest | some r ↦ r ∷ rest ]
    ]

module _ {F G S D T : Type 0} (env : Env F G S) (disk : Disk D T) (serde : Format F T) where
  unfoldable pub save_store : String → World S → Exec String D (Unit {0})
  unfolding write_atomically records_of
  save_store path w =
      let ids = or_empty (list_all env 0 usize_max true none w).0 in
      write_atomically disk env.pid path (serde.print_records (records_of env ids w))

  unfoldable pub save_history : String → World S → Exec String D (Unit {0})
  unfolding write_atomically
  save_history path w = write_atomically disk env.pid path (serde.print_history w.history)

-- `let _ = store.insert(record);` for each record.
unfoldable pub insert_all : {F : Type 0} → List (VectorRecord F) → Records F → Records F
insert_all [] store = store
insert_all (r ∷ rs) store = insert_all rs (InMemory.insert r store).1

module _ {F D T : Type 0} (disk : Disk D T) (serde : Format F T) where
  unfoldable pub load_store : String → D → Records F
  unfolding insert_all
  load_store path d = elim (disk.read_to_string path d) [
    | err e ↦ []
    | ok text ↦ elim (serde.parse_records text) [ none ↦ [] | some records ↦ insert_all records [] ]
  ]

  unfoldable pub load_history : String → D → Map (List HistoryEntry)
  load_history path d = elim (disk.read_to_string path d) [
    | err e ↦ []
    | ok text ↦ elim (serde.parse_history text) [ none ↦ [] | some history ↦ history ]
  ]
