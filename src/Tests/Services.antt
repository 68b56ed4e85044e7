-- ===== src/Tests/Services.antt =====
-- The service over the in-memory store, and requests to its router.
use memoria_mcp.Prelude.{
  ℕ, ◌≡◌, ◌≤◌, refl, String, true, false, none, some, Option, List, [], ◌∷◌, err, length, ◌==◌,
  arith,
}
use memoria_mcp.Store.InMemory.{Records}
use memoria_mcp.Filter.Parse.{Value}
use memoria_mcp.Server.Crypto.{Primitives, invalid_signature}
use memoria_mcp.Server.Auth.{new}
use memoria_mcp.Server.RequestLog.{max_entries}
use memoria_mcp.Server.Http.{
  find_header, bearer_token, is_authorized, caller_is_admin, current_user_from_headers,
}
use memoria_mcp.Server.Service.Admins.{reset_all, asked, IsForbidden, serve-IsForbidden}
use memoria_mcp.Server.Service.{no_content, Service, State, Parsers, Arrival, HttpResponse}
use memoria_mcp.Server.Service.Router.{HttpRequest, open_routes, serve, serve_all}
use memoria_mcp.Server.Service.Refused.{IsStranger, IsDenied, serve-IsDenied}
use memoria_mcp.Server.Service.Sound.{Outcome, HasBounds}
use memoria_mcp.Server.Service.Sound.Serve.{serve_lem, serve_all-IsBounded}
use memoria_mcp.Tests.Bytes.{bytes_of}
use memoria_mcp.Tests.Samples.{sample_env, sample_world, counts, limiter, limiter-IsBounded}
use memoria_mcp.Tests.Disks.{File, Files, in_map, values, account_values}

-- Tokens never decode.
abbrev pub no_tokens : Primitives
no_tokens = record {
  as_bytes = bytes_of;
  sha256 = λ bs. bs;
  hmac_sha256 = λ k m. m;
  base64_decode = λ s. none;
  random_key = λ n len. "key";
  argon2_hash = λ n password. password;
  argon2_verify = λ password stored. some (password == stored);
  jwt_encode = λ claims secret. "token";
  jwt_decode = λ token secret. err invalid_signature;
}

-- JSON numbers are in hundredths.
abbrev pub as_f64 : ℕ → Option ℕ
as_f64 n = some n

abbrev pub text_of : ℕ → String
text_of n = "1"

abbrev pub show : Value ℕ → String
show v = "value"

-- Bodies never parse.
abbrev no_bodies : Parsers ℕ ℕ String
no_bodies = record {
  create = λ b. err b;
  update = λ b. err b;
  search = λ b. err b;
  delete_all = λ b. err b;
  register = λ b. err b;
  login = λ b. err b;
  refresh = λ b. err b;
  profile = λ b. err b;
  password = λ b. err b;
  key_label = λ b. err b;
}

abbrev sample_service : Service ℕ ℕ ℕ (Records ℕ) Files File String
sample_service = record {
  env = record sample_env { f64 = counts };
  token = some "1";
  cors_origin = none;
  llm_label = "local";
  embedding_label = "local";
  reranker_label = none;
  store_path = "store.json";
  history_path = "history.json";
  persist_json_snapshot = true;
  auth_store_path = "auth.json";
  jwt_secret = [];
  host = record { seconds = λ n. n; nanos = λ n. n; pid = 7 };
  crypto = no_tokens;
  files = in_map;
  serde = values;
  auth_serde = account_values;
  parsers = no_bodies;
  as_f64 = as_f64;
  show_number = text_of;
  show_value = show;
  debug = λ s. s;
  as_secs_f64 = λ n. n;
  is_header_value = λ s. true;
  length_of = λ b. 0;
}

abbrev started : State ℕ (Records ℕ) Files
started = record {
  world = sample_world;
  auth_store = new;
  rate_limiter = limiter;
  request_log = [];
  disk = record { drawn = 0; contents = [] };
  draws = 0;
}

abbrev not_allowed : HttpRequest String → HttpResponse ℕ
not_allowed request = record { status = 405; headers = []; body = no_content }

abbrev arrival : Arrival
arrival = record {
  peer_ip = "10.0.0.1";
  instant = 9;
  gate_now = 1000;
  now = 1000;
  latency_ms = 3;
  created_at = 1000;
}

-- A deletion of everything, without a header.
abbrev reset_request : HttpRequest String
reset_request = record {
  method = "POST";
  path = "reset" ∷ [];
  path_and_query = "/reset";
  query = [];
  headers = [];
  body = "";
}

stranger : IsStranger sample_service not_allowed arrival reset_request started
unfolding is_authorized bearer_token find_header
stranger = (refl, refl)

reset-is_closed : open_routes sample_service not_allowed arrival reset_request ("reset" ∷ []) ≡ []
unfolding open_routes
reset-is_closed = refl

serve-IsDenied_example :
    IsDenied started (serve sample_service not_allowed arrival reset_request started)
serve-IsDenied_example =
    serve-IsDenied sample_service not_allowed arrival reset_request started stranger reset-is_closed

-- A service without an admin key lets every request pass its gate.
no_admin :
    caller_is_admin sample_service.crypto sample_service.jwt_secret none started.auth_store
      arrival.now reset_request.headers
    ≡ false
unfolding caller_is_admin current_user_from_headers bearer_token find_header
no_admin = refl

serve-IsForbidden_example : IsForbidden started (
    serve
      (record sample_service { token = none })
      not_allowed
      arrival
      (asked (record sample_service { token = none }) reset_all reset_request)
      started)
serve-IsForbidden_example =
    serve-IsForbidden (record sample_service { token = none }) not_allowed arrival reset_request
      started no_admin reset_all

-- With the admin key.
abbrev list_request : HttpRequest String
list_request = record {
  method = "GET";
  path = "entities" ∷ [];
  path_and_query = "/entities";
  query = [];
  headers = ("Authorization", "Bearer 1") ∷ [];
  body = "";
}

serve_lem_example :
    Outcome started
      (serve sample_service not_allowed arrival list_request started).1
      (serve sample_service not_allowed arrival list_request started).0
serve_lem_example =
    serve_lem sample_service not_allowed (λ a b. ground arith) (λ a b h. ground arith)
      (λ request. refl) arrival list_request started

abbrev two_requests : List (Arrival × HttpRequest String)
two_requests = (arrival, list_request) ∷ (arrival, reset_request) ∷ []

serve_all-IsBounded_example :
    HasBounds sample_service (serve_all sample_service not_allowed two_requests started)
    × (length (serve_all sample_service not_allowed two_requests started).request_log ≤ max_entries)
serve_all-IsBounded_example =
    serve_all-IsBounded sample_service not_allowed (λ a b. ground arith) (λ a b h. ground arith)
      (λ request. refl) two_requests started limiter-IsBounded (omega arith)
