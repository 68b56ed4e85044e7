-- ===== src/Store/Contract.antt =====
-- What `VectorStoreContractTests` of core/src/vector_store.rs asks of a store, as laws that the
-- engine relies on. A store may fail at any call: each law is about the calls that succeed.
use memoria_mcp.Prelude.{
  ℕ, String, true, ◌≡◌, ◌≢◌, ◌≤◌, ◌↔◌, Option, none, some, List, any, All, length, ◌==◌,
  if◌then◌else◌, ok, err,
}
use memoria_mcp.Map.{Map}
use memoria_mcp.Store.{VectorRecord, SearchResult, VectorStore, not_found, usize_max, matches}

module _ {F S : Type 0} (vs : VectorStore F S) where
  open vs use {insert, search, get, update, delete, list, reset}

  -- A search result shows the id and the payload of a stored record that matches the filters.
  abbrev pub IsMatch : S → Map String → SearchResult F → Type 0
  IsMatch s filters r =
      (v : VectorRecord F) × (get r.id s ≡ ok (some v))
      × (v.payload ≡ r.payload)
      × (matches filters r.payload ≡ true)

  -- `Holds` is the store's invariant; a store that `Fits` has at most `usize::MAX` records.
  pub record Contract (Holds Fits : S → Type 0) : Type 0 where
    pub get_own_id :
        (s : S) (j : String) (r : VectorRecord F) → Holds s → get j s ≡ ok (some r) → r.id ≡ j
    pub get-insert :
        (r : VectorRecord F) (s : S) (j : String)
        → Holds s
        → (insert r s).0 ≡ ok tt
        → get j (insert r s).1 ≡ (if r.id == j then ok (some r) else get j s)
    pub insert-Holds : (r : VectorRecord F) (s : S) → Holds s → Holds (insert r s).1
    pub get-update :
        (r : VectorRecord F) (s : S) (j : String)
        → Holds s
        → (update r s).0 ≡ ok tt
        → get j (update r s).1 ≡ (if r.id == j then ok (some r) else get j s)
    pub update_missing :
        (r : VectorRecord F) (s : S)
        → Holds s
        → get r.id s ≡ ok none
        → (update r s).0 ≡ err not_found
    pub update-Holds : (r : VectorRecord F) (s : S) → Holds s → Holds (update r s).1
    pub get-delete :
        (id : String) (s : S) (j : String)
        → Holds s
        → (delete id s).0 ≡ ok tt
        → get j (delete id s).1 ≡ (if id == j then ok none else get j s)
    pub delete_missing :
        (id : String) (s : S) → Holds s → get id s ≡ ok none → (delete id s).0 ≡ ok tt
    pub delete-Holds : (id : String) (s : S) → Holds s → Holds (delete id s).1
    pub get-reset : (s : S) (j : String) → (reset s).0 ≡ ok tt → get j (reset s).1 ≡ ok none
    pub search_matches :
        (v : List F) (top_k : ℕ) (filters : Map String) (threshold : Option F) (s : S)
        (rs : List (SearchResult F))
        → Holds s
        → search v top_k filters threshold s ≡ ok rs
        → All (IsMatch s filters) rs
    pub search_bounded :
        (v : List F) (top_k : ℕ) (filters : Map String) (threshold : Option F) (s : S)
        (rs : List (SearchResult F))
        → search v top_k filters threshold s ≡ ok rs
        → length rs ≤ top_k
    pub list_bounded :
        (offset limit : ℕ) (s : S) (ids : List String)
        → list offset limit s ≡ ok ids
        → length ids ≤ limit
    -- A full listing names exactly the ids whose records can be read.
    pub list_complete :
        (s : S) (ids : List String) (j : String)
        → Holds s
        → Fits s
        → list 0 usize_max s ≡ ok ids
        → (any (λ i. i == j) ids ≡ true) ↔ (get j s ≢ ok none)
