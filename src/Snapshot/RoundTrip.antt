-- ===== src/Snapshot/RoundTrip.antt =====
-- server/src/main.rs: what a restart finds of the records and the history that were saved.
use memoria_mcp.Prelude.{
  ℕ, ◌≡◌, refl, ap, ◌∙◌, subst, String, Bool, true, false, not, ◌&&◌, ◌||◌, Option, none, some,
  List, [], ◌∷◌, All, any, retain, length, take, take_of_length-le, length-retain-le, if◌then◌else◌,
  ok, Bool-cases, Option-cases, inl, inr, arith, ◌==◌, eq_iff,
}
use memoria_mcp.Map
use memoria_mcp.Map.{Map, get, keys, contains_key}
use memoria_mcp.Map.Laws.{get-insert, any-keys, contains_key_of_get, length-keys}
use memoria_mcp.Store.{VectorRecord, usize_max}
use memoria_mcp.Store.InMemory
use memoria_mcp.Store.InMemory.{Records, in_memory}
use memoria_mcp.Store.InMemory.Meets.{IsValid, Fits, in_memory-Contract}
use memoria_mcp.Memory.{World, Env, is_entity_record, store_read}
use memoria_mcp.Memory.Records.{list_all, list_ids, survives, get_record}
use memoria_mcp.Snapshot.{
  Disk, Format, or_empty, records_of, save_store, save_history, insert_all, load_store,
  load_history,
}
use memoria_mcp.Snapshot.Files.{IsFiniteRecord, IsReliable, read-write_atomically}

any-retain :
    (p : String → Bool) (j : String) (xs : List String)
    → any (λ i. i == j) (retain p xs) ≡ (any (λ i. i == j) xs && p j)
any-retain p j [] = refl
any-retain p j (x ∷ xs) = ground (arith, eq_iff x j, any-retain p j xs)

module _ {F : Type 0} where
  -- The vectors all have n numbers.
  abbrev pub IsUniform : ℕ → Records F → Type 0
  IsUniform n m = All (λ e. length e.1.vector ≡ n) m

  insert-IsUniform :
      (n : ℕ) (r : VectorRecord F) (m : Records F)
      → length r.vector ≡ n
      → IsUniform n m
      → IsUniform n (Map.insert r.id r m)
  unfolding Map.insert
  insert-IsUniform n r [] h hs = (h, tt)
  insert-IsUniform n r ((k, v) ∷ m) h hs = ground (arith, insert-IsUniform n r m h hs.1)

  -- An insert among vectors of the same length stores the record.
  insert_lem :
      (n : ℕ) (r : VectorRecord F) (m : Records F)
      → length r.vector ≡ n
      → IsUniform n m
      → (InMemory.insert r m).1 ≡ Map.insert r.id r m
  unfolding InMemory.insert
  insert_lem n r [] h hs = refl
  insert_lem n r ((k, v) ∷ m) h hs = ground (arith, h, hs.0)

  length-get :
      (n : ℕ) (j : String) (r : VectorRecord F) (m : Records F)
      → IsUniform n m
      → get j m ≡ some r
      → length r.vector ≡ n
  unfolding get
  length-get n j r [] hs e = ground arith
  length-get n j r ((k, v) ∷ m) hs e = ground (arith, hs.0, length-get n j r m hs.1)

get-All :
    {F : Type 0} (P : VectorRecord F → Type 0) (j : String) (r : VectorRecord F) (m : Records F)
    → All (λ e. P e.1) m
    → get j m ≡ some r
    → P r
unfolding get
get-All P j r [] h e = absurd (cc e)
get-All P j r ((k, v) ∷ m) h e = elim (Bool-cases (k == j)) [
  | inl here ↦ subst P {x = v} {y = r} (cc (rw here at e)) h.0
  | inr other ↦ get-All P j r m h.1 (rw other at e)
]

-- What survives: the record, unless it is one of an entity.
abbrev pub unless_entity : {F : Type 0} → Option (VectorRecord F) → Option (VectorRecord F)
unless_entity none = none
unless_entity (some r) = if is_entity_record r.payload then none else some r

module _ {F G : Type 0} (base : Env F G (Records F)) where
  -- The engine over the in-memory store.
  abbrev pub env : Env F G (Records F)
  env = record base { vector_store = in_memory base.f32 }

  abbrev or_old : Option (VectorRecord F) → Option (VectorRecord F) → Option (VectorRecord F)
  or_old none old = old
  or_old (some r) old = some r

  skipped :
      (b c : Bool) (g a : Option (VectorRecord F))
      → (b ≡ true → g ≡ none)
      → (if c then or_old g a else a) ≡ (if b || c then or_old g a else a)
  skipped true true g a h = refl
  skipped true false g a h = rw (h refl) refl
  skipped false c g a h = refl

  taken :
      (b c : Bool) (g a a' : Option (VectorRecord F)) (r : VectorRecord F)
      → a' ≡ (if b then some r else a)
      → (b ≡ true → g ≡ some r)
      → (if c then or_old g a' else a') ≡ (if b || c then or_old g a else a)
  taken true true g a a' r h k = rw (k refl) refl
  taken true false g a a' r h k = rw (k refl) h
  taken false true g a a' r h k = ap (or_old g) h
  taken false false g a a' r h k = h

  module _ (w : World (Records F)) (n : ℕ) (valid : IsValid w.store)
      (uniform : IsUniform n w.store) where
    -- The records read under some ids, inserted one after the other.
    get-insert_all :
        (j : String) (ids : List String) (acc : Records F)
        → IsUniform n acc
        → get j (insert_all (records_of env ids w) acc)
          ≡ (if any (λ i. i == j) ids then or_old (get j w.store) (get j acc) else get j acc)
    unfolding insert_all records_of get_record store_read InMemory.get
    get-insert_all j [] acc hs = refl
    get-insert_all j (id ∷ ids) acc hs = elim (Option-cases (get id w.store)) [
      | inl absent ↦
          rw (insert_all, absent)
            (get-insert_all j ids acc hs
              ∙ skipped (id == j) (any (λ i. i == j) ids) (get j w.store) (get j acc)
                  (λ e. cc (absent, (eq_iff id j).0 e)))
      | inr (r, present) ↦
          let own = (in_memory-Contract base.f32).get_own_id w.store id r valid (ap ok present) in
          let fits = length-get n id r w.store uniform present in
          let stored : (InMemory.insert r acc).1 ≡ Map.insert r.id r acc =
            insert_lem n r acc fits hs in
          let new : get j (Map.insert r.id r acc) ≡ (if id == j then some r else get j acc) =
            subst (λ k. get j (Map.insert r.id r acc) ≡ (if k == j then some r else get j acc)) own
              (get-insert r.id j r acc) in
          rw (insert_all, present, stored)
            (get-insert_all j ids (Map.insert r.id r acc) (insert-IsUniform n r acc fits hs)
              ∙ taken (id == j) (any (λ i. i == j) ids) (get j w.store) (get j acc) _ r new
                  (λ e. cc (present, (eq_iff id j).0 e)))
    ]

    listed : List String
    listed = or_empty (list_all env 0 usize_max true none w).0

    listed-eq : Fits w.store → listed ≡ retain (survives env w.store none true none) (keys w.store)
    unfolding listed list_all list_ids store_read InMemory.list
    listed-eq fits =
        let kept = survives env w.store none true none in
        let all : take usize_max (keys w.store) ≡ keys w.store =
          take_of_length-le usize_max (keys w.store) (omega (arith, fits, length-keys w.store)) in
        let few = length-retain-le kept (keys w.store) in
        ap (λ ids. take usize_max (retain kept ids)) all
        ∙ take_of_length-le usize_max (retain kept (keys w.store))
            (omega (arith, fits, few, length-keys w.store))

    any-listed :
        (j : String)
        → Fits w.store
        → any (λ i. i == j) listed
          ≡ (contains_key j w.store && survives env w.store none true none j)
    any-listed j fits =
        ap (any (λ i. i == j)) (listed-eq fits)
        ∙ any-retain (survives env w.store none true none) j (keys w.store)
        ∙ ap (λ b. b && survives env w.store none true none j) (any-keys j w.store)

    survives-eq :
        (j : String) (r : VectorRecord F)
        → get j w.store ≡ some r
        → survives env w.store none true none j ≡ not (is_entity_record r.payload)
    unfolding survives InMemory.get
    survives-eq j r present = rw (survives, present) (ground arith)

    loaded :
        (j : String)
        → Fits w.store
        → get j (insert_all (records_of env listed w) []) ≡ unless_entity (get j w.store)
    unfolding get
    loaded j fits =
        let whole = get-insert_all j listed [] tt in
        elim (Option-cases (get j w.store)) [
          | inl absent ↦ whole ∙ nothing (any (λ i. i == j) listed) (get j w.store) absent
          | inr (r, present) ↦
              let known = contains_key_of_get j w.store r present in
              let kept = survives-eq j r present in
              let among : any (λ i. i == j) listed ≡ not (is_entity_record r.payload) =
                ground (arith, any-listed j fits, known, kept) in
              whole ∙ found (any (λ i. i == j) listed) (get j w.store) r among present
        ]
      where
        nothing :
            (b : Bool) (g : Option (VectorRecord F))
            → g ≡ none
            → (if b then or_old g none else none) ≡ unless_entity g
        nothing true g h = rw h refl
        nothing false g h = rw h refl

        found :
            (b : Bool) (g : Option (VectorRecord F)) (r : VectorRecord F)
            → b ≡ not (is_entity_record r.payload)
            → g ≡ some r
            → (if b then or_old g none else none) ≡ unless_entity g
        found b g r h k = elim (Bool-cases (is_entity_record r.payload)) [
          | inl entity ↦ rw (k, h, entity) refl
          | inr plain ↦ rw (k, h, plain) refl
        ]

    All-records_of :
        (P : VectorRecord F → Type 0) (ids : List String)
        → All (λ e. P e.1) w.store
        → All P (records_of env ids w)
    unfolding records_of get_record store_read InMemory.get
    All-records_of P [] h = tt
    All-records_of P (id ∷ ids) h = elim (Option-cases (get id w.store)) [
      | inl absent ↦ rw (records_of, absent) (All-records_of P ids h)
      | inr (r, present) ↦
          rw (records_of, present) (get-All P id r w.store h present, All-records_of P ids h)
    ]

    -- After a restart on a snapshot that was written without an error, the store holds every record that it
    -- held, with the same vector and payload, but those of entities: `save_store` takes its ids from a
    -- listing, and listings leave them out. The store had its vectors of one length, all their numbers
    -- finite, fitted into a listing, and held each record under its own id; the file system and serde do as documented.
    pub load-save_store :
        {D T : Type 0} (IsFinite : F → Type 0) (disk : Disk D T) (serde : Format F T)
        → IsReliable IsFinite disk serde
        → (path : String) (d d' : D) (j : String) → Fits w.store
        → All (λ e. IsFiniteRecord IsFinite e.1) w.store
        → save_store env disk serde path w d ≡ (ok tt, d')
        → get j (load_store disk serde path d') ≡ unless_entity (get j w.store)
    unfolding load_store save_store listed
    load-save_store IsFinite disk serde reliable path d d' j fits finite e =
        let written = read-write_atomically disk reliable.files env.pid path _ d d' e in
        let numbers = All-records_of (IsFiniteRecord IsFinite) listed finite in
        rw (load_store, written, reliable.parse-print (records_of env listed w) numbers)
          (loaded j fits)

  -- After a restart on a history that was written without an error, the history is the one that was saved.
  pub load-save_history :
      {D T : Type 0} (IsFinite : F → Type 0) (disk : Disk D T) (serde : Format F T)
      → IsReliable IsFinite disk serde
      → (path : String) (d d' : D) (w : World (Records F))
      → save_history env disk serde path w d ≡ (ok tt, d')
      → load_history disk serde path d' ≡ w.history
  unfolding load_history save_history
  load-save_history IsFinite disk serde reliable path d d' w e =
      let written = read-write_atomically disk reliable.files env.pid path _ d d' e in
      rw (load_history, written, reliable.parse-print_history w.history) refl
