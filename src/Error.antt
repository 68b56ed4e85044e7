-- ===== src/Error.antt =====
-- core/src/error.rs: `CoreError`, and what each provider's error becomes. The boxed source of a
-- `Provider` error is kept as a value.
use memoria_mcp.Prelude.{String, [], ◌∷◌, format, decimal, Option, none, some}
use memoria_mcp.Store.{VectorStoreError, dimension_mismatch}
use memoria_mcp.Llm.{LlmError, EmbeddingError, show_llm_error, show_embedding_error}

pub data RerankError : Type 0 where
  backend : String → RerankError

pub data Source : Type 0 where
  of_store : VectorStoreError → Source
  of_llm : LlmError → Source
  of_embedding : EmbeddingError → Source
  of_rerank : RerankError → Source

pub data CoreError : Type 0 where
  not_found validation config : String → CoreError
  provider : String → Source → CoreError

-- `Display`
unfoldable pub show_error : CoreError → String
show_error (not_found message) = format ("not found: " ∷ message ∷ [])
show_error (validation message) = format ("validation error: " ∷ message ∷ [])
show_error (config message) = format ("config error: " ∷ message ∷ [])
show_error (provider message source) = format ("provider error: " ∷ message ∷ [])

-- `std::error::Error::source`
unfoldable pub error_source : CoreError → Option Source
error_source (provider message source) = some source
error_source (not_found message) = none
error_source (validation message) = none
error_source (config message) = none

unfoldable pub show_store_error : VectorStoreError → String
show_store_error VectorStoreError.not_found = "record not found"
show_store_error (dimension_mismatch expected actual) =
    format
      ("vector dimension mismatch: expected " ∷ decimal expected ∷ ", got " ∷ decimal actual ∷ [])
show_store_error (VectorStoreError.backend reason) = format ("backend error: " ∷ reason ∷ [])

-- `impl From<VectorStoreError> for CoreError`
unfoldable pub from_store : VectorStoreError → CoreError
from_store VectorStoreError.not_found = CoreError.not_found "vector store record"
from_store (dimension_mismatch expected actual) =
    provider
      (format (
        "vector dimension mismatch: expected " ∷ decimal expected ∷ ", got " ∷ decimal actual ∷ []))
      (of_store (dimension_mismatch expected actual))
from_store (VectorStoreError.backend reason) =
    provider (show_store_error (VectorStoreError.backend reason))
      (of_store (VectorStoreError.backend reason))

unfoldable pub from_llm : LlmError → CoreError
from_llm e = provider (show_llm_error e) (of_llm e)

unfoldable pub from_embedding : EmbeddingError → CoreError
from_embedding e = provider (show_embedding_error e) (of_embedding e)

unfoldable pub from_rerank : RerankError → CoreError
from_rerank (RerankError.backend reason) =
    provider (format ("backend error: " ∷ reason ∷ [])) (of_rerank (RerankError.backend reason))
