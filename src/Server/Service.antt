-- ===== src/Server/Service.antt =====
-- server/src/main.rs, `ServerState` to `wrap_handler`: what the service keeps between requests, and the frame
-- around every handler.
pub mod Endpoints
pub mod Router
pub mod Admins
pub mod Refused
pub mod Sound
use memoria_mcp.Prelude.{
  ℕ, ◌+◌, ◌-◌, ◌^◌, String, Bool, ◌&&◌, Option, none, some, List, [], ◌∷◌, eqb, if◌then◌else◌,
  Result, ok, err,
}
use Prim.Native.Nat.{min}
use memoria_mcp.Map.{Map}
use memoria_mcp.Filter.Parse.{Value}
use memoria_mcp.Memory.{World, Env}
use memoria_mcp.Snapshot.{Disk, Format, save_store, save_history}
use memoria_mcp.Server.Crypto.{Primitives}
use memoria_mcp.Server.Auth.{AuthStore, Host}
use memoria_mcp.Server.Auth.Snapshot.{AuthFormat, save}
use memoria_mcp.Server.RateLimiter.{RateLimiter, check_and_consume}
use memoria_mcp.Server.RequestLog.{Log, append, classify_auth_kind}
use memoria_mcp.Server.Http.{Headers}
use memoria_mcp.Server.Http.Handlers
use memoria_mcp.Server.Http.Handlers.{
  Handler, RegisterRequest, LoginRequest, UpdateProfileRequest, ChangePasswordRequest,
}
use memoria_mcp.Server.Http.Requests
use memoria_mcp.Server.Http.Requests.{
  CreateMemoryRequest, SearchMemoryRequest, UpdateMemoryRequest, DeleteAllRequest,
}
use memoria_mcp.Server.Http.Configure.{ConfigureResponse, ConfigureProvidersResponse}

pub data Payload (F : Type 0) : Type 0 where
  memory_body : Requests.Body F → Payload F
  account_body : Handlers.Body → Payload F
  configure : ConfigureResponse → Payload F
  providers : ConfigureProvidersResponse → Payload F
  instructions : String → Payload F
  no_content : Payload F

pub record HttpResponse (F : Type 0) : Type 0 where
  pub status : ℕ
  pub headers : Headers
  pub body : Payload F

-- How serde reads the bytes of a body.
pub record Parsers (F N B : Type 0) : Type 0 where
  pub create : B → Result String CreateMemoryRequest
  pub update : B → Result String UpdateMemoryRequest
  pub search : B → Result String (SearchMemoryRequest F N)
  pub delete_all : B → Result String (DeleteAllRequest N)
  pub register : B → Result String RegisterRequest
  pub login : B → Result String LoginRequest
  pub refresh : B → Result String String
  pub profile : B → Result String UpdateProfileRequest
  pub password : B → Result String ChangePasswordRequest
  pub key_label : B → Result String String

-- What stays the same while the service runs, with the packages that it calls.
pub record Service (F G N S D T B : Type 0) : Type 0 where
  pub env : Env F G S
  pub token : Option String
  pub cors_origin : Option String
  pub llm_label : String
  pub embedding_label : String
  pub reranker_label : Option String
  pub store_path : String
  pub history_path : String
  pub persist_json_snapshot : Bool
  pub auth_store_path : String
  pub jwt_secret : List ℕ
  pub host : Host
  pub crypto : Primitives
  pub files : Disk D T
  pub serde : Format F T
  pub auth_serde : AuthFormat T
  pub parsers : Parsers F N B
  pub as_f64 : N → Option G
  pub show_number : N → String
  pub show_value : Value N → String
  pub debug : String → String
  pub as_secs_f64 : ℕ → G
  -- Whether a text can be the value of a header.
  pub is_header_value : String → Bool
  pub length_of : B → ℕ

-- What changes. `draws` counts the passwords hashed and the keys drawn.
pub record State (G S D : Type 0) : Type 0 where
  pub world : World S
  pub auth_store : AuthStore
  pub rate_limiter : RateLimiter G
  pub request_log : Log
  pub disk : D
  pub draws : ℕ

-- Where a request comes from, and what the clocks read while it is answered.
pub record Arrival : Type 0 where
  pub peer_ip : String
  pub instant : ℕ
  pub gate_now : ℕ
  pub now : ℕ
  pub latency_ms : ℕ
  pub created_at : ℕ

-- A status and the value of a body.
abbrev pub Reply : Type 0 → Type 0
Reply F = ℕ × Payload F

abbrev pub error_reply : {F : Type 0} → ℕ → String → Reply F
error_reply status text = (status, memory_body (Requests.error_body text))

abbrev pub json_header : String × String
json_header = ("content-type", "application/json")

unfoldable pub to_axum_response : {F : Type 0} → Reply F → HttpResponse F
to_axum_response (status, body) = record {
  status = status;
  headers = json_header ∷ [];
  body = body;
}

module _ {F G N S D T B : Type 0} (service : Service F G N S D T B) where
  abbrev pub Inner : Type 0
  Inner = State G S D → Reply F × State G S D

  abbrev pub Outer : Type 0
  Outer = State G S D → HttpResponse F × State G S D

  -- A handler over the engine, and one over the accounts.
  abbrev pub on_memory : (World S → Requests.Response F × World S) → Inner
  on_memory handler st =
      let (r, w) = handler st.world in ((r.status, memory_body r.body), record st { world = w })

  abbrev pub response_in : Result Handlers.Response Handlers.Response → Handlers.Response
  response_in (ok r) = r
  response_in (err r) = r

  abbrev pub on_accounts : Handler Handlers.Response → Inner
  on_accounts handler st =
      let (r, s) = handler st.auth_store in
      (((response_in r).status, account_body (response_in r).body), record st { auth_store = s })

  -- A handler that hashes a password or draws a key.
  abbrev pub drawing : (ℕ → Inner) → Inner
  drawing handler st =
      let (r, st') = handler st.draws st in (r, record st' { draws = st'.draws + 1 })

  -- `let _ = save_store(..)`, `let _ = save_history(..)`, `let _ = state.auth_store.save(..)`
  abbrev pub keep_store : State G S D → State G S D
  keep_store st = record st {
    disk =
        (save_store service.env service.files service.serde service.store_path st.world st.disk).1;
  }

  abbrev pub keep_history : State G S D → State G S D
  keep_history st = record st {
    disk =
        (save_history service.env service.files service.serde service.history_path st.world
          st.disk).1;
  }

  abbrev pub keep_accounts : State G S D → State G S D
  keep_accounts st = record st {
    disk =
        (save service.files service.auth_serde service.env.pid service.auth_store_path st.auth_store
          st.disk).1;
  }

  -- `if result.0 == status { .. }`, with the saving in the branch.
  abbrev pub then_if : (ℕ → Bool) → (State G S D → State G S D) → Inner → Inner
  then_if when saving handler st =
      let (r, st') = handler st in (r, if when r.0 then saving st' else st')

  unfoldable pub saving_accounts : ℕ → Inner → Inner
  saving_accounts status = then_if (eqb status) keep_accounts

  unfoldable pub saving_store : ℕ → Inner → Inner
  saving_store status =
      then_if (λ answered. service.persist_json_snapshot && eqb status answered) keep_store

  unfoldable pub saving_all : ℕ → Inner → Inner
  saving_all status =
      then_if (λ answered. service.persist_json_snapshot && eqb status answered)
        (λ st. keep_history (keep_store st))

  abbrev pub too_many : HttpResponse F
  too_many = to_axum_response (error_reply 429 "rate limit exceeded")

  -- A handler that runs, with its entry in the log.
  unfoldable pub run_logged : Arrival → String → String → Headers → Inner → Outer
  unfolding append classify_auth_kind
  run_logged at method path headers handler st =
      let (r, st') = handler st in
      (
        to_axum_response r,
        record st' {
          request_log =
              append
                (record {
                  method = method;
                  path = path;
                  status = r.0;
                  latency_ms = min at.latency_ms (2 ^ 64 - 1);
                  auth_kind = classify_auth_kind headers;
                  created_at = at.created_at;
                })
                st'.request_log;
        },
      )

  unfoldable pub wrap_handler : Arrival → String → String → Headers → Inner → Outer
  unfolding check_and_consume run_logged
  wrap_handler at method path headers handler st =
      let (allowed, limiter) =
        check_and_consume service.env.f64 service.as_secs_f64 at.peer_ip at.instant
          st.rate_limiter in
      let st₁ = record st { rate_limiter = limiter } in
      if allowed then run_logged at method path headers handler st₁ else (too_many, st₁)
