-- ===== src/Llm.antt =====
-- core/src/llm.rs and core/src/embedding.rs: messages, provider errors and the prompts around a
-- provider. `LlmProvider::complete` is a function of the messages, and a parameter.
use Prim.Native.Char.{Char}
use memoria_mcp.Prelude.{
  String, Bool, not, List, [], ◌∷◌, map, retain, Result, ok, ◌>>=◌, format, if◌then◌else◌,
}
use memoria_mcp.Prelude.Text.{is_char, is_empty, join, split, trim_matches}

pub data Role : Type 0 where
  system user assistant : Role

unfoldable pub as_str : Role → String
as_str system = "system"
as_str user = "user"
as_str assistant = "assistant"

-- `{:?}`
unfoldable pub debug_role : Role → String
debug_role system = "System"
debug_role user = "User"
debug_role assistant = "Assistant"

pub record Message : Type 0 where
  pub role : Role
  pub content : String
  pub images : List String

abbrev pub new_message : Role → String → Message
new_message role content = record { role = role; content = content; images = [] }

abbrev pub with_images : Role → String → List String → Message
with_images role content images = record { role = role; content = content; images = images }

pub data LlmError : Type 0 where
  empty_messages : LlmError
  backend : String → LlmError
  timeout : LlmError
  malformed : String → LlmError
  auth_failure : LlmError

unfoldable pub show_llm_error : LlmError → String
show_llm_error empty_messages = "no messages provided"
show_llm_error (backend reason) = format ("backend error: " ∷ reason ∷ [])
show_llm_error timeout = "backend timed out before responding"
show_llm_error (malformed reason) = format ("malformed backend response: " ∷ reason ∷ [])
show_llm_error auth_failure = "backend rejected credentials"

pub data EmbeddingError : Type 0 where
  empty_input : EmbeddingError
  backend : String → EmbeddingError
  timeout : EmbeddingError

unfoldable pub show_embedding_error : EmbeddingError → String
show_embedding_error empty_input = "no text provided"
show_embedding_error (backend reason) = format ("backend error: " ∷ reason ∷ [])
show_embedding_error timeout = "backend timed out before responding"

-- The content of the completion.
abbrev pub Complete : Type 0
Complete = List Message → Result LlmError String

-- `lines()`: no line after a final line break, and a `\r` before a break goes with it.
drop_last_empty : List String → List String
drop_last_empty [] = []
drop_last_empty (s ∷ []) = if is_empty s then [] else s ∷ []
drop_last_empty (s ∷ s' ∷ ss) = s ∷ drop_last_empty (s' ∷ ss)

strip_return : String → String
strip_return String.[] = ""
strip_return (String.◌∷◌ c s) =
    let rest = String.◌∷◌ c (strip_return s) in
    if is_empty s then (if is_char 13 c then "" else String.◌∷◌ c s) else rest

strip_returns : List String → List String
strip_returns [] = []
strip_returns (s ∷ []) = s ∷ []
strip_returns (s ∷ s' ∷ ss) = strip_return s ∷ strip_returns (s' ∷ ss)

unfoldable pub lines : String → List String
unfolding drop_last_empty strip_returns strip_return
lines s = drop_last_empty (strip_returns (split (is_char 10) s))

module _ (is_whitespace : Char → Bool) where
  unfoldable pub parse_facts : String → List String
  parse_facts response =
      retain (λ line. not (is_empty line)) (map (trim_matches is_whitespace) (lines response))

module _ (complete : Complete) (is_whitespace : Char → Bool) where
  -- `{:?}: {}` of each message, a line each.
  unfoldable pub transcript : List Message → String
  transcript conversation =
      join "\n" (map (λ m. format (debug_role m.role ∷ ": " ∷ m.content ∷ [])) conversation)

  unfoldable pub extract_facts : List Message → Result LlmError (List String)
  unfolding transcript parse_facts
  extract_facts conversation = do
    let prompt =
        new_message system
          "Extract discrete factual statements from the conversation. Output one fact per line. Do not number them. Do not add blank lines."
    let request = new_message user (format ("Conversation:\n" ∷ transcript conversation ∷ []))
    completion ← complete (prompt ∷ request ∷ [])
    ok (parse_facts is_whitespace completion)

  unfoldable pub summarize_procedure : List Message → Result LlmError String
  unfolding transcript
  summarize_procedure conversation = do
    let prompt =
        new_message system
          "You are a memory summarization system that records the complete interaction history of an agent carrying out a task. Produce one comprehensive summary that preserves every detail needed to continue the task without ambiguity: the overall objective, progress so far, and each action taken together with its exact, unaltered result (data returned, errors encountered, decisions made). Do not paraphrase or drop any action's result. Number the steps in chronological order."
    let request = new_message user (
        format (
          "Conversation:\n"
          ∷ transcript conversation
          ∷ "\n\nCreate a procedural memory of the above conversation."
          ∷ []))
    completion ← complete (prompt ∷ request ∷ [])
    ok (trim_matches is_whitespace completion)

  unfoldable pub describe_image : List String → Result LlmError String
  describe_image images = do
    let message =
        with_images user
          "A user is providing an image. Provide a high level description of the image and do not include any additional text."
          images
    completion ← complete (message ∷ [])
    ok (trim_matches is_whitespace completion)
