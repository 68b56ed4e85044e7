-- ===== src/Store/InMemory.antt =====
-- core/src/vector_store.rs: `InMemoryVectorStore`. The state is the map behind the lock.
pub mod Meets
pub mod Best
use memoria_mcp.Prelude.{
  ℕ, String, Bool, true, false, Option, none, some, List, [], ◌∷◌, map, retain, take, drop, length,
  eqb, if◌then◌else◌, Result, ok, err,
}
use memoria_mcp.Prelude.Exec.{Exec}
use memoria_mcp.Prelude.Sort.{sort_by}
use memoria_mcp.Map
use memoria_mcp.Map.{Map}
use memoria_mcp.Float.{Float, gt, le}
use memoria_mcp.Store.{
  VectorRecord, SearchResult, VectorStoreError, VectorStore, not_found, dimension_mismatch, matches,
}

abbrev pub Records : Type 0 → Type 0
Records F = Map (VectorRecord F)

module _ {F : Type 0} where
  abbrev put : VectorRecord F → Records F → Records F
  put r records = Map.insert r.id r records

  -- `records.values().next()` is the first record of the map, if there is one.
  unfoldable pub insert : VectorRecord F → Exec VectorStoreError (Records F) (Unit {0})
  insert r [] = (ok tt, put r [])
  insert r ((k, existing) ∷ records) =
      let all = (k, existing) ∷ records in
      let expected = length existing.vector in
      let actual = length r.vector in
      if eqb expected actual
      then (ok tt, put r all)
      else (err (dimension_mismatch expected actual), all)

  unfoldable pub get : String → Records F → Result VectorStoreError (Option (VectorRecord F))
  get id records = ok (Map.get id records)

  unfoldable pub update : VectorRecord F → Exec VectorStoreError (Records F) (Unit {0})
  update r records =
      if Map.contains_key r.id records
      then (ok tt, Map.insert r.id r records)
      else (err not_found, records)

  unfoldable pub delete : String → Exec VectorStoreError (Records F) (Unit {0})
  delete id records = (ok tt, Map.remove id records)

  unfoldable pub list : ℕ → ℕ → Records F → Result VectorStoreError (List String)
  list offset limit records = ok (take limit (drop offset (Map.keys records)))

  unfoldable pub reset : Exec VectorStoreError (Records F) (Unit {0})
  reset records = (ok tt, Map.empty)

  -- The trait's default method: no full-text engine.
  unfoldable pub keyword_search :
      String → ℕ → Map String → Records F → Result VectorStoreError (Option (List (SearchResult F)))
  keyword_search query top_k filters records = ok none

module _ {F : Type 0} (fl : Float F) where
  -- `zip`, `map` and `fold` of the score: the sum of |a - b|, from the left.
  unfoldable pub distance_from : F → List F → List F → F
  distance_from acc (a ∷ as') (b ∷ bs) = distance_from (fl.add acc (fl.abs (fl.sub a b))) as' bs
  distance_from acc _ _ = acc

  unfoldable pub distance : List F → List F → F
  unfolding distance_from
  distance = distance_from (fl.literal 0 0)

  unfoldable pub score_record : List F → VectorRecord F → SearchResult F
  score_record vector r = record {
    id = r.id;
    score = distance r.vector vector;
    payload = r.payload;
    score_details = none;
  }

  -- `result.score <= threshold`, where there is a threshold
  abbrev pub within : Option F → SearchResult F → Bool
  within none r = true
  within (some t) r = le fl r.score t

  abbrev pub above : SearchResult F → SearchResult F → Bool
  above a b = gt fl a.score b.score

  -- What is scored and passes the threshold, before sorting.
  unfoldable pub scored : List F → Map String → Option F → Records F → List (SearchResult F)
  scored vector filters threshold records =
      retain (within threshold)
        (map (score_record vector) (retain (λ r. matches filters r.payload) (Map.values records)))

  unfoldable pub search :
      List F
      → ℕ
      → Map String
      → Option F
      → Records F
      → Result VectorStoreError (List (SearchResult F))
  search vector top_k filters threshold records =
      ok (take top_k (sort_by above (scored vector filters threshold records)))

  abbrev pub in_memory : VectorStore F (Records F)
  in_memory = record {
    insert = insert;
    search = search;
    get = get;
    update = update;
    delete = delete;
    list = list;
    reset = reset;
    keyword_search = keyword_search;
  }
