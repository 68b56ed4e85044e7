-- ===== src/Server/Http/Configure.antt =====
-- server/src/main.rs: `handle_get_configure`, `handle_get_configure_providers` and
-- `handle_generate_instructions`, by the values that serde writes.
use memoria_mcp.Prelude.{ℕ, String, Bool, Option, none, some, List, [], ◌∷◌, if◌then◌else◌, format}

pub record ConfigureResponse : Type 0 where
  pub llm_provider : String
  pub embedding_provider : String
  pub reranker : Option String

pub record ConfigureProvidersResponse : Type 0 where
  pub llm_providers : List String
  pub embedding_providers : List String
  pub rerankers : List String

unfoldable pub handle_get_configure : String → String → Option String → ℕ × ConfigureResponse
handle_get_configure llm_label embedding_label reranker_label = (
  200,
  record {
    llm_provider = llm_label;
    embedding_provider = embedding_label;
    reranker = reranker_label;
  },
)

unfoldable pub handle_get_configure_providers : ℕ × ConfigureProvidersResponse
handle_get_configure_providers = (
  200,
  record {
    llm_providers = "local" ∷ "ollama" ∷ [];
    embedding_providers = "local" ∷ "ollama" ∷ [];
    rerankers = "local" ∷ "llm" ∷ [];
  },
)

abbrev reranker_line : Option String → String
reranker_line none = ""
reranker_line (some label) = format ("\nReranker: " ∷ label ∷ [])

abbrev auth_line : Bool → String
auth_line auth_required =
    if auth_required
    then "This server requires authentication: register the first account with POST /auth/register, then log in with POST /auth/login."
    else "This server has no authentication configured (MEMORIA_ALLOW_NO_AUTH=1) -- every route is open."

unfoldable pub handle_generate_instructions : String → String → Option String → Bool → ℕ × String
handle_generate_instructions llm_label embedding_label reranker_label auth_required = (
  200,
  format (
      "Welcome to memoria.\n\nLLM provider: "
      ∷ llm_label
      ∷ "\nEmbedding provider: "
      ∷ embedding_label
      ∷ reranker_line reranker_label
      ∷ "\n\n"
      ∷ auth_line auth_required
      ∷ "\n\nCreate a memory with POST /memories, search with POST /search, and see docs/overview.md for the full API surface."
      ∷ []),
)
