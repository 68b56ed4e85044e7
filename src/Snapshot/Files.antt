-- ===== src/Snapshot/Files.antt =====
-- server/src/main.rs: what is relied on of the file system and serde, and that `write_atomically` writes.
use memoria_mcp.Prelude.{All, ℕ, ◌≡◌, String, some, List, [], ◌∷◌, ok, format, decimal}
use memoria_mcp.Prelude.Exec.{>>=-eq-ok, run_lem}
use memoria_mcp.Map.{Map}
use memoria_mcp.Store.{VectorRecord}
use memoria_mcp.Memory.{HistoryEntry}
use memoria_mcp.Snapshot.{Disk, Format, write_atomically, make_parent}

-- What is documented of `std::fs`: a file that was written reads as its text, and a renamed file as the one
-- that it was.
pub record IsFaithful {D T : Type 0} (disk : Disk D T) : Type 0 where
  pub read-write :
      (path : String) (text : T) (d d' : D)
      → disk.write path text d ≡ (ok tt, d')
      → disk.read_to_string path d' ≡ ok text
  pub read-rename :
      (old new : String) (text : T) (d d' : D)
      → disk.read_to_string old d ≡ ok text
      → disk.rename old new d ≡ (ok tt, d')
      → disk.read_to_string new d' ≡ ok text

-- The numbers of a record's vector are finite.
abbrev pub IsFiniteRecord : {F : Type 0} → (F → Type 0) → VectorRecord F → Type 0
IsFiniteRecord IsFinite r = All IsFinite r.vector

-- What is documented of the file system and of serde: a text that was printed parses to the value. JSON has
-- no infinite number and no NaN, so that records read back only where their numbers are finite.
pub record IsReliable {F D T : Type 0} (IsFinite : F → Type 0) (disk : Disk D T)
    (serde : Format F T) : Type 0 where
  pub files : IsFaithful disk
  pub parse-print :
      (rs : List (VectorRecord F))
      → All (IsFiniteRecord IsFinite) rs
      → serde.parse_records (serde.print_records rs) ≡ some rs
  pub parse-print_history :
      (h : Map (List HistoryEntry)) → serde.parse_history (serde.print_history h) ≡ some h

module _ {D T : Type 0} (disk : Disk D T) (files : IsFaithful disk) where
  pub read-write_atomically :
      (pid : ℕ) (path : String) (text : T) (d d' : D)
      → write_atomically disk pid path text d ≡ (ok tt, d')
      → disk.read_to_string path d' ≡ ok text
  unfolding write_atomically
  read-write_atomically pid path text d d' e =
      let (u₁, made, e₁) = >>=-eq-ok (make_parent disk (disk.parent path)) _ d e in
      let d₁ = (make_parent disk (disk.parent path) d).1 in
      let (unique, drawn, e₂) = >>=-eq-ok disk.next_unique _ d₁ e₁ in
      let d₂ = (disk.next_unique d₁).1 in
      let temp =
        disk.with_extension path (format ("json.tmp." ∷ decimal pid ∷ "." ∷ decimal unique ∷ [])) in
      let (u₂, wrote, e₃) = >>=-eq-ok (disk.write temp text) _ d₂ e₂ in
      files.read-rename temp path text (disk.write temp text d₂).1 d'
        (files.read-write temp text d₂ (disk.write temp text d₂).1
          (run_lem (disk.write temp text) d₂ {r = ok tt} wrote))
        e₃
