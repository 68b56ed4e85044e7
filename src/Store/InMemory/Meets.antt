-- ===== src/Store/InMemory/Meets.antt =====
-- `InMemoryVectorStore` of core/src/vector_store.rs keeps the store contract.
use memoria_mcp.Prelude.{
  ℕ, String, true, ◌≡◌, ◌≢◌, ◌≤◌, ◌↔◌, refl, ap, Option, none, some, List, [], ◌∷◌, take, drop, any,
  All, All-mono, All-take, All-retain, All-map, length, length-take, eqb, eq_iff, ◌==◌,
  if◌then◌else◌, Option-cases, ok, err, arith, Bool-cases, take_of_length-le, inl, inr,
}
use memoria_mcp.Prelude.Sort.{sort_by, All-sort_by}
use memoria_mcp.Map
use memoria_mcp.Map.{Map, keys, values, contains_key}
use memoria_mcp.Map.Laws.{
  get-insert, get-remove, contains_key_of_get, contains_key_of_none, length-keys, any-keys,
  IsDistinct, insert-IsDistinct, remove-IsDistinct,
}
use memoria_mcp.Float.{Float, le}
use memoria_mcp.Store.{VectorRecord, SearchResult, matches, usize_max, not_found}
use memoria_mcp.Store.Contract.{Contract, IsMatch}
use memoria_mcp.Store.InMemory.{
  Records, insert, get, update, delete, list, reset, search, scored, score_record, within, above,
  in_memory,
}

module _ {F : Type 0} where
  -- Each record stands under its own id, once.
  pub record IsValid (m : Records F) : Type 0 where
    pub distinct : IsDistinct m
    pub own_id : All (λ e. e.0 ≡ e.1.id) m

  abbrev pub Fits : Records F → Type 0
  Fits m = length m ≤ usize_max

  own_id-insert :
      (r : VectorRecord F) (m : Records F)
      → All (λ e. e.0 ≡ e.1.id) m
      → All (λ e. e.0 ≡ e.1.id) (Map.insert r.id r m)
  unfolding Map.insert
  own_id-insert r [] h = (refl, tt)
  own_id-insert r ((k, v) ∷ m) h = ground (arith, own_id-insert r m h.1)

  own_id-remove :
      (id : String) (m : Records F)
      → All (λ e. e.0 ≡ e.1.id) m
      → All (λ e. e.0 ≡ e.1.id) (Map.remove id m)
  unfolding Map.remove
  own_id-remove id [] h = tt
  own_id-remove id ((k, v) ∷ m) h = ground (arith, own_id-remove id m h.1)

  put-IsValid : (r : VectorRecord F) (m : Records F) → IsValid m → IsValid (Map.insert r.id r m)
  put-IsValid r m h = record {
    distinct = insert-IsDistinct r.id r m h.distinct;
    own_id = own_id-insert r m h.own_id;
  }

  pub insert-IsValid : (r : VectorRecord F) (m : Records F) → IsValid m → IsValid (insert r m).1
  unfolding insert
  insert-IsValid r [] h = put-IsValid r [] h
  insert-IsValid r ((k, v) ∷ m) h = elim (Bool-cases (eqb (length v.vector) (length r.vector))) [
    | inl e ↦ rw e (put-IsValid r ((k, v) ∷ m) h)
    | inr e ↦ rw e h
  ]

  pub update-IsValid : (r : VectorRecord F) (m : Records F) → IsValid m → IsValid (update r m).1
  unfolding update
  update-IsValid r m h = elim (Bool-cases (contains_key r.id m)) [
    | inl e ↦ rw e (put-IsValid r m h)
    | inr e ↦ rw e h
  ]

  pub delete-IsValid : (id : String) (m : Records F) → IsValid m → IsValid (delete id m).1
  unfolding delete
  delete-IsValid id m h = record {
    distinct = remove-IsDistinct id m h.distinct;
    own_id = own_id-remove id m h.own_id;
  }

  get_own_id_lem :
      (m : Records F) (j : String) (r : VectorRecord F)
      → All (λ e. e.0 ≡ e.1.id) m
      → Map.get j m ≡ some r
      → r.id ≡ j
  unfolding Map.get
  get_own_id_lem [] j r h e = ground arith
  get_own_id_lem ((k, v) ∷ m) j r h e = ground (arith, eq_iff k j, h.0, get_own_id_lem m j r h.1)

  get-insert_lem :
      (r : VectorRecord F) (m : Records F) (j : String)
      → (insert r m).0 ≡ ok tt
      → get j (insert r m).1 ≡ (if r.id == j then ok (some r) else get j m)
  unfolding insert get
  get-insert_lem r [] j h = ground (arith, get-insert r.id j r [])
  get-insert_lem r ((k, v) ∷ m) j h = ground (arith, get-insert r.id j r ((k, v) ∷ m))

  get-update_lem :
      (r : VectorRecord F) (m : Records F) (j : String)
      → (update r m).0 ≡ ok tt
      → get j (update r m).1 ≡ (if r.id == j then ok (some r) else get j m)
  unfolding update get
  get-update_lem r m j h = ground (arith, get-insert r.id j r m)

  update_missing_lem :
      (r : VectorRecord F) (m : Records F) → get r.id m ≡ ok none → (update r m).0 ≡ err not_found
  unfolding update get
  update_missing_lem r m h = ground (arith, contains_key_of_none r.id m)

  get-delete_lem :
      (id : String) (m : Records F) (j : String)
      → get j (delete id m).1 ≡ (if id == j then ok none else get j m)
  unfolding delete get
  get-delete_lem id m j = ground (arith, get-remove id j m)

  list_complete_lem :
      (m : Records F) (ids : List String) (j : String)
      → Fits m
      → list 0 usize_max m ≡ ok ids
      → (any (λ i. i == j) ids ≡ true) ↔ (get j m ≢ ok none)
  unfolding list get
  list_complete_lem m ids j fits h =
      let shown : ids ≡ keys m =
        ground (arith, take_of_length-le usize_max (keys m) (omega (arith, length-keys m))) in
      rw (shown, any-keys j m)
        (
          (λ present none_there. ground (arith, contains_key_of_none j m)),
          (λ there. elim (Option-cases (Map.get j m)) [
            | inl absent ↦ absurd (there (ap ok absent))
            | inr (v, found) ↦ contains_key_of_get j m v found
          ]),
        )

  -- Each value of a valid map is what its id reads.
  values_lem : (m : Records F) → IsValid m → All (λ v. Map.get v.id m ≡ some v) (values m)
  unfolding Map.get contains_key
  values_lem [] h = tt
  values_lem ((k, v) ∷ m) h = (
    ground (arith, eq_iff k v.id, h.own_id.0),
    All-mono (λ w. Map.get w.id m ≡ some w) (λ w. Map.get w.id ((k, v) ∷ m) ≡ some w) (values m)
        (λ w found. ground (arith, contains_key_of_get w.id m w found, eq_iff k w.id, h.distinct.0))
        (values_lem m (record { distinct = h.distinct.1; own_id = h.own_id.1 })),
  )

module _ {F : Type 0} (fl : Float F) where
  scored-IsMatch :
      (v : List F) (filters : Map String) (threshold : Option F) (m : Records F)
      → IsValid m
      → All
          (λ r. IsMatch (in_memory fl) m filters r × (within fl threshold r ≡ true))
          (scored fl v filters threshold m)
  unfolding scored score_record get
  scored-IsMatch v filters threshold m h =
      All-retain (IsMatch (in_memory fl) m filters) (within fl threshold) _ (
        All-map (IsMatch (in_memory fl) m filters) (score_record fl v) _ (
          All-mono (λ w. (Map.get w.id m ≡ some w) × (matches filters w.payload ≡ true)) _ _
            (λ w k. (w, ap ok k.0, refl, k.1))
            (All-retain _ (λ w. matches filters w.payload) (values m) (values_lem m h))))

  search-IsMatch :
      (v : List F) (top_k : ℕ) (filters : Map String) (threshold : Option F) (m : Records F)
      (rs : List (SearchResult F))
      → IsValid m
      → search fl v top_k filters threshold m ≡ ok rs
      → All (λ r. IsMatch (in_memory fl) m filters r × (within fl threshold r ≡ true)) rs
  unfolding search
  search-IsMatch v top_k filters threshold m rs h e =
      let shown : take top_k (sort_by (above fl) (scored fl v filters threshold m)) ≡ rs = cc in
      rw (← shown)
        (All-take _ top_k _ (All-sort_by (above fl) _ _ (scored-IsMatch v filters threshold m h)))

  search_bounded_lem :
      (v : List F) (top_k : ℕ) (filters : Map String) (threshold : Option F) (m : Records F)
      (rs : List (SearchResult F))
      → search fl v top_k filters threshold m ≡ ok rs
      → length rs ≤ top_k
  unfolding search
  search_bounded_lem v top_k filters threshold m rs e =
      ground (arith, length-take top_k (sort_by (above fl) (scored fl v filters threshold m)))

  -- With a threshold, a search of the in-memory store returns at most `top_k` results; each shows the id
  -- and the payload of a stored record that matches the filters, and none has a score above the threshold.
  -- Every record of the store must stand under its own id, once.
  pub search-within :
      (v : List F) (top_k : ℕ) (filters : Map String) (t : F) (m : Records F)
      (rs : List (SearchResult F))
      → IsValid m
      → search fl v top_k filters (some t) m ≡ ok rs
      → (length rs ≤ top_k)
        × All (λ r. IsMatch (in_memory fl) m filters r × (le fl r.score t ≡ true)) rs
  search-within v top_k filters t m rs h e = (
    search_bounded_lem v top_k filters (some t) m rs e,
    search-IsMatch v top_k filters (some t) m rs h e,
  )

  list_bounded_lem :
      (offset limit : ℕ) (m : Records F) (ids : List String)
      → list offset limit m ≡ ok ids
      → length ids ≤ limit
  unfolding list
  list_bounded_lem offset limit m ids e = ground (arith, length-take limit (drop offset (keys m)))

  -- The in-memory store keeps every law of the store contract: what a write stores is what the next
  -- read finds, an update of a missing record is `NotFound`, a
  -- delete removes its record and no other, and succeeds where there is none, a listing names at most as
  -- many ids as its limit, a full one exactly the readable ids, and a
  -- search returns at most `top_k` stored records, each of which matches the filters.
  pub in_memory-Contract : Contract (in_memory fl) IsValid Fits
  unfolding get reset delete Map.get
  in_memory-Contract = record {
    get_own_id = λ s j r h e. get_own_id_lem s j r h.own_id (ground arith);
    get-insert = λ r s j h e. get-insert_lem r s j e;
    insert-Holds = insert-IsValid;
    get-update = λ r s j h e. get-update_lem r s j e;
    update_missing = λ r s h e. update_missing_lem r s e;
    update-Holds = update-IsValid;
    get-delete = λ id s j h e. get-delete_lem id s j;
    delete_missing = λ id s h e. refl;
    delete-Holds = delete-IsValid;
    get-reset = λ s j e. refl;
    search_matches =
        λ v k fs t s rs h e. All-mono _ _ rs (λ r p. p.0) (search-IsMatch v k fs t s rs h e);
    search_bounded = search_bounded_lem;
    list_bounded = list_bounded_lem;
    list_complete = λ s ids j h fits e. list_complete_lem s ids j fits e;
  }
