-- ===== src/Store.antt =====
-- core/src/vector_store.rs: records, search results, and the `VectorStore` trait as an interface.
pub mod Contract
pub mod InMemory
use memoria_mcp.Prelude.{
  ℕ, String, Option, List, Bool, all, ◌==◌, Result, ok, err, none, some, ◌^◌, ◌-◌, true, false,
}
use memoria_mcp.Prelude.Exec.{Exec}
use memoria_mcp.Map.{Map, get}

pub record VectorRecord (F : Type 0) : Type 0 where
  pub id : String
  pub vector : List F
  pub payload : Map String

pub record ScoreDetails (F : Type 0) : Type 0 where
  pub semantic_score : F
  pub bm25_score : Option F
  pub entity_boost : Option F
  pub raw_score : F
  pub final_score : F

pub record SearchResult (F : Type 0) : Type 0 where
  pub id : String
  pub score : F
  pub payload : Map String
  pub score_details : Option (ScoreDetails F)

pub data VectorStoreError : Type 0 where
  not_found : VectorStoreError
  -- expected, actual
  dimension_mismatch : ℕ → ℕ → VectorStoreError
  backend : String → VectorStoreError

-- A store whose state is an `S`. The methods that write return the state beside their result; what a
-- failing write leaves behind is the store's own affair.
pub record VectorStore (F S : Type 0) : Type 0 where
  pub insert : VectorRecord F → Exec VectorStoreError S (Unit {0})
  pub search :
      List F → ℕ → Map String → Option F → S → Result VectorStoreError (List (SearchResult F))
  pub get : String → S → Result VectorStoreError (Option (VectorRecord F))
  pub update : VectorRecord F → Exec VectorStoreError S (Unit {0})
  pub delete : String → Exec VectorStoreError S (Unit {0})
  pub list : ℕ → ℕ → S → Result VectorStoreError (List String)
  pub reset : Exec VectorStoreError S (Unit {0})
  pub keyword_search :
      String → ℕ → Map String → S → Result VectorStoreError (Option (List (SearchResult F)))

-- `usize::MAX` of a 64-bit target.
abbrev pub usize_max : ℕ
usize_max = 2 ^ 64 - 1

abbrev pub is_value : String → Option String → Bool
is_value v none = false
is_value v (some w) = w == v

-- `filters.iter().all(|(k, v)| payload.get(k) == Some(v))`
unfoldable pub matches : Map String → Map String → Bool
matches filters payload = all (λ e. is_value e.1 (get e.0 payload)) filters
