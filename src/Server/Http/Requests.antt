-- ===== src/Server/Http/Requests.antt =====
-- server/src/main.rs: what the handlers over the engine read and answer, and the helpers they share.
use memoria_mcp.Prelude.{
  ℕ, String, Bool, false, ◌&&◌, Option, none, some, List, [], ◌∷◌, all, leb, eqb, if◌then◌else◌,
  Result, ok, err, ◌==◌, format,
}
use memoria_mcp.Map.{Map, insert, empty}
use memoria_mcp.Store.{VectorRecord, SearchResult}
use memoria_mcp.Filter.Parse.{Value}
use memoria_mcp.Llm.{Role, system, user, assistant}
use memoria_mcp.Error.{CoreError, validation, not_found, show_error}
use memoria_mcp.Memory.{World, Op, HistoryEntry}
use memoria_mcp.Memory.Entities.{EntitySummary}
use memoria_mcp.Server.RequestLog.{Log}

unfoldable pub parse_message_role : String → Option Role
parse_message_role role =
    if role == "system"
    then some system
    else if role == "user"
    then some user
    else if role == "assistant"
    then some assistant
    else none

abbrev is_ascii_digit : ℕ → Bool
is_ascii_digit b = leb 48 b && leb b 57

-- `YYYY-MM-DD` by its bytes.
unfoldable pub is_valid_ymd_format : List ℕ → Bool
is_valid_ymd_format (y₁ ∷ y₂ ∷ y₃ ∷ y₄ ∷ d₁ ∷ m₁ ∷ m₂ ∷ d₂ ∷ a ∷ b ∷ []) =
    eqb d₁ 45
    && (eqb d₂ 45
        && (all is_ascii_digit (y₁ ∷ y₂ ∷ y₃ ∷ y₄ ∷ [])
            && (all is_ascii_digit (m₁ ∷ m₂ ∷ []) && all is_ascii_digit (a ∷ b ∷ []))))
is_valid_ymd_format _ = false

abbrev pub with_field : String → Option String → Map String → Map String
with_field name none scope = scope
with_field name (some v) scope = insert name v scope

unfoldable pub scope_from_optional : Option String → Option String → Option String → Map String
scope_from_optional user_id agent_id run_id =
    with_field "run_id" run_id (with_field "agent_id" agent_id (with_field "user_id" user_id empty))

pub record MessageInput : Type 0 where
  pub role : String
  pub content : String
  pub images : List String

pub record CreateMemoryRequest : Type 0 where
  pub content : Option String
  pub messages : Option (List MessageInput)
  pub user_id : Option String
  pub agent_id : Option String
  pub run_id : Option String
  pub infer : Option Bool
  pub memory_type : Option String
  pub expiration_date : Option String
  pub images : List String

pub record SearchMemoryRequest (F N : Type 0) : Type 0 where
  pub query : String
  pub user_id : Option String
  pub agent_id : Option String
  pub run_id : Option String
  pub top_k : ℕ
  pub threshold : Option F
  pub show_expired : Option Bool
  pub filters : Option (Value N)
  pub rerank : Option Bool
  pub explain : Option Bool

pub record UpdateMemoryRequest : Type 0 where
  pub content : Option String
  pub metadata : Option (Map String)

pub record DeleteAllRequest (N : Type 0) : Type 0 where
  pub user_id : Option String
  pub agent_id : Option String
  pub run_id : Option String
  pub filters : Option (Value N)

-- What serde writes into the body.
pub data Body (F : Type 0) : Type 0 where
  empty_body : Body F
  error_body : String → Body F
  ids : List String → Body F
  stored : VectorRecord F → Body F
  results : List (SearchResult F) → Body F
  entries : List HistoryEntry → Body F
  deleted : ℕ → Body F
  entities : List EntitySummary → Body F
  message : String → Body F
  -- `{"status": ..}`
  service : String → Body F
  requests : Log → Body F

pub record Response (F : Type 0) : Type 0 where
  pub status : ℕ
  pub body : Body F

module _ {F : Type 0} where
  abbrev pub reply : ℕ → Body F → Response F
  reply status body = record { status = status; body = body }

  abbrev pub failure : ℕ → String → Response F
  failure status text = reply status (error_body text)

  unfoldable pub error_response : CoreError → Response F
  error_response (validation msg) = failure 400 msg
  error_response (not_found msg) = failure 404 msg
  error_response other = failure 500 (show_error other)

  -- `match memory.call(..) { Ok(x) => .., Err(err) => error_response(&err) }`
  abbrev pub answer : {S A : Type 0} → Op S A → (A → Response F) → World S → Response F × World S
  answer call to_response w =
      let (r, w') = call w in (elim r [ ok x ↦ to_response x | err e ↦ error_response e ], w')

  abbrev pub malformed : String → Response F
  malformed e = failure 400 (format ("malformed request body: " ∷ e ∷ []))

  -- An error is an early return.
  abbrev pub refuse_or :
      {S A : Type 0}
      → Result (Response F) A
      → (A → World S → Response F × World S)
      → World S
      → Response F × World S
  refuse_or (err response) rest w = (response, w)
  refuse_or (ok a) rest w = rest a w

  abbrev pub parsed_body : {A : Type 0} → Result String A → Result (Response F) A
  parsed_body (ok a) = ok a
  parsed_body (err e) = err (malformed e)
