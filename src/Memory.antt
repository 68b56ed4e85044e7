-- ===== src/Memory.antt =====
-- core/src/memory.rs: the engine. `World` is what the methods change: the store, the history behind
-- its lock and the counter of record ids. `Env` is what they only use: the providers, the limits, the
-- clock and the process.
pub mod Search
pub mod Records
pub mod Add
pub mod Entities
pub mod Update
pub mod Delete
pub mod Reset
pub mod Checked
pub mod Refused
pub mod Unchanged
pub mod Listing
pub mod Visible
use memoria_mcp.Prelude.{
  ℕ, ◌+◌, ◌*◌, ◌^◌, ◌%◌, String, Bool, true, false, not, ◌&&◌, ◌||◌, Option, none, some, List, [],
  ◌∷◌, ◌==◌, any, if◌then◌else◌, Result, ok, err, map_err, format, decimal, ltb,
}
use Prim.Native.Nat.{min, max}
use Prim.Native.String.{compare}
use text.Mathlib.Text.{is_lt}
use memoria_mcp.Prelude.Exec.{Exec}
use memoria_mcp.Map.{Map, get, contains_key, keys}
use memoria_mcp.Float.{Float}
use memoria_mcp.Store.{VectorStore, VectorStoreError, SearchResult, is_value, usize_max}
use memoria_mcp.Llm.{Complete, EmbeddingError}
use memoria_mcp.Error.{CoreError, RerankError, from_store}
use memoria_mcp.Entity.{CharClass}
use memoria_mcp.Date.{unix_seconds_to_ymd_string}

pub data HistoryEvent : Type 0 where
  added deleted : HistoryEvent

pub record HistoryEntry : Type 0 where
  pub event : HistoryEvent
  pub content : String

pub record World (S : Type 0) : Type 0 where
  pub store : S
  pub history : Map (List HistoryEntry)
  pub ticket : ℕ

-- `F` is `f32`, `G` is `f64`, and `S` the state of the vector store.
pub record Env (F G S : Type 0) : Type 0 where
  pub f32 : Float F
  pub f64 : Float G
  pub complete : Complete
  pub embed : String → Result EmbeddingError (List F)
  pub embed_batch : List String → Result EmbeddingError (List (List F))
  pub vector_store : VectorStore F S
  pub reranker :
      Option (String → List (SearchResult F) → Result RerankError (List (SearchResult F)))
  pub max_metadata_bytes : Option ℕ
  pub max_content_length : Option ℕ
  pub max_top_k : Option ℕ
  pub chars : CharClass
  pub to_lowercase : String → String
  -- The clock in nanoseconds when the n-th id is drawn, and the process id.
  pub nanos : ℕ → ℕ
  pub pid : ℕ
  -- The clock in seconds.
  pub now : ℕ

abbrev pub entity_record_kind_key : String
entity_record_kind_key = "__memoria_record_kind"

abbrev pub entity_record_kind_value : String
entity_record_kind_value = "entity"

abbrev pub entity_type_key : String
entity_type_key = "entity_type"

abbrev pub entity_text_key : String
entity_text_key = "entity_text"

abbrev pub linked_memory_ids_key : String
linked_memory_ids_key = "linked_memory_ids"

-- `saturating_mul(20).max(500)`
unfoldable pub search_candidate_limit : ℕ → ℕ
search_candidate_limit top_k = max (min (top_k * 20) usize_max) 500

unfoldable pub is_entity_record : Map String → Bool
is_entity_record payload = is_value entity_record_kind_value (get entity_record_kind_key payload)

abbrev pub is_scope_field : String → Bool
is_scope_field k = k == "user_id" || (k == "agent_id" || k == "run_id")

unfoldable pub has_scope_id : Map String → Bool
has_scope_id scope = any is_scope_field (keys scope)

-- Texts are compared as Rust compares `str`, by their bytes.
unfoldable pub is_expired : Map String → String → Bool
is_expired payload today = elim (get "expiration_date" payload) [
  | none ↦ false
  | some expiration_date ↦ is_lt (compare expiration_date today)
]

abbrev pub scope_required : CoreError
scope_required = CoreError.validation "scope must contain user_id, agent_id, or run_id"

abbrev pub Op : Type 0 → Type 0 → Type 0
Op S A = Exec CoreError (World S) A

module _ {F G S : Type 0} (env : Env F G S) where
  abbrev pub today : String
  today = unix_seconds_to_ymd_string env.now

  -- `fetch_add(1)` of the 64-bit counter.
  unfoldable pub draw_id : String → Op S String
  draw_id prefix w = (
    ok (
        format (
          prefix
          ∷ "-"
          ∷ decimal (env.nanos w.ticket)
          ∷ "-"
          ∷ decimal env.pid
          ∷ "-"
          ∷ decimal w.ticket
          ∷ [])),
    record w { ticket = (w.ticket + 1) % 2 ^ 64 },
  )

  unfoldable pub next_record_id : Op S String
  unfolding draw_id
  next_record_id = draw_id "rec"

  unfoldable pub next_entity_record_id : Op S String
  unfolding draw_id
  next_entity_record_id = draw_id "entity"

module _ {S A : Type 0} where
  -- A call of the store with `?`.
  unfoldable pub store_read : (S → Result VectorStoreError A) → Op S A
  store_read f w = (map_err from_store (f w.store), w)

  unfoldable pub store_write : Exec VectorStoreError S A → Op S A
  store_write m w = let (r, s) = m w.store in (map_err from_store r, record w { store = s })

abbrev pub entries_of : String → Map (List HistoryEntry) → List HistoryEntry
entries_of id history = elim (get id history) [ none ↦ [] | some es ↦ es ]
