-- ===== src/Mcp/Remote.antt =====
-- mcp/src/main.rs: `RemoteClient`, which asks a memoria service. Sending a request is a parameter, as are the
-- texts of a status and of a body; a body is the value that serde writes or reads.
use memoria_mcp.Prelude.{
  ℕ, String, Bool, ◌&&◌, Option, none, some, List, [], ◌∷◌, ◌++◌, leb, ltb, eqb, if◌then◌else◌,
  Result, ok, err, format, decimal,
}
use memoria_mcp.Prelude.Text.{is_char, trim_end}
use memoria_mcp.Prelude.Exec.{Exec, throw, ◌>>=◌}
use memoria_mcp.Map.{Map}
use memoria_mcp.Store.{VectorRecord, SearchResult}
use memoria_mcp.Memory.{HistoryEntry}
use memoria_mcp.Memory.Entities.{EntitySummary}
use memoria_mcp.Server.Http.Requests.{
  CreateMemoryRequest, SearchMemoryRequest, UpdateMemoryRequest, DeleteAllRequest, Body, error_body,
  ids, stored, results, entries, deleted, entities, Response,
}

pub data Method : Type 0 where
  get post put delete : Method

pub data RequestBody (F N : Type 0) : Type 0 where
  no_body : RequestBody F N
  search_body : SearchMemoryRequest F N → RequestBody F N
  create_body : CreateMemoryRequest → RequestBody F N
  update_body : UpdateMemoryRequest → RequestBody F N
  scope_body : DeleteAllRequest N → RequestBody F N

pub record Request (F N : Type 0) : Type 0 where
  pub method : Method
  pub url : String
  -- What `query_pairs_mut` appends.
  pub query : List (String × String)
  pub bearer : Option String
  pub body : RequestBody F N

-- `W` is the state of the service and of the way to it.
pub record Http (F N W : Type 0) : Type 0 where
  pub send : Request F N → Exec String W (Response F)
  -- An error if the base URL does not parse.
  pub parse_url : String → Result String String
  pub show_status : ℕ → String
  pub show_body : Body F → String
  pub show_parse_error : Body F → String

pub record RemoteClient : Type 0 where
  pub base_url : String
  pub api_key : Option String

unfoldable pub new_client : String → Option String → RemoteClient
new_client base_url api_key = record {
  base_url = trim_end (is_char 47) base_url;
  api_key = api_key;
}

abbrev pub is_success : ℕ → Bool
is_success status = leb 200 status && ltb status 300

-- The values that the client parses out of a body.
abbrev pub ids_in : {F : Type 0} → Body F → Option (List String)
ids_in (ids new_ids) = some new_ids
ids_in other = none

abbrev pub results_in : {F : Type 0} → Body F → Option (List (SearchResult F))
results_in (results rs) = some rs
results_in other = none

abbrev pub record_in : {F : Type 0} → Body F → Option (Option (VectorRecord F))
record_in (stored r) = some (some r)
record_in other = none

abbrev pub entries_in : {F : Type 0} → Body F → Option (List HistoryEntry)
entries_in (entries es) = some es
entries_in other = none

abbrev pub deleted_in : {F : Type 0} → Body F → Option ℕ
deleted_in (deleted n) = some n
deleted_in other = none

abbrev pub entities_in : {F : Type 0} → Body F → Option (List EntitySummary)
entities_in (entities es) = some es
entities_in other = none

module _ {F N W : Type 0} (http : Http F N W) (client : RemoteClient) where
  abbrev pub message_of : Body F → String
  message_of (error_body message) = message
  message_of other = http.show_body other

  unfoldable pub error_message : Response F → String
  error_message response =
      format (
        "server returned "
        ∷ http.show_status response.status
        ∷ ": "
        ∷ message_of response.body
        ∷ [])

  abbrev pub to : Method → List String → RequestBody F N → Request F N
  to method path body = record {
    method = method;
    url = format (client.base_url ∷ path);
    query = [];
    bearer = client.api_key;
    body = body;
  }

  -- `send().await.map_err(..)`
  abbrev pub exchange : Request F N → Exec String W (Response F)
  exchange request w =
      let (r, w') = http.send request w in
      (
        elim r [
          | ok response ↦ ok response
          | err e ↦ err (format ("request to server failed: " ∷ e ∷ []))
        ],
        w',
      )

  abbrev pub parsed : {A : Type 0} → Option A → Body F → Result String A
  parsed (some a) body = ok a
  parsed none body =
      err (format ("malformed response from server: " ∷ http.show_parse_error body ∷ []))

  abbrev pub accepted : {A : Type 0} → (Body F → Option A) → Response F → Result String A
  accepted parse response =
      if is_success response.status
      then parsed (parse response.body) response.body
      else err (error_message response)

  unfoldable pub send : {A : Type 0} → (Body F → Option A) → Request F N → Exec String W A
  unfolding error_message
  send parse request = do response ← exchange request; λ w. (accepted parse response, w)

  unfoldable pub ensure_success : Request F N → Exec String W (Unit {0})
  unfolding error_message
  ensure_success request = do
    response ← exchange request
    λ w. (if is_success response.status then ok tt else err (error_message response), w)

  unfoldable pub found_at : Request F N → Exec String W (Option (VectorRecord F))
  unfolding error_message
  found_at request = do
    response ← exchange request
    λ w. (if eqb response.status 404 then ok none else accepted record_in response, w)

  unfoldable pub get_record : String → Exec String W (Option (VectorRecord F))
  unfolding found_at
  get_record id = found_at (to get ("/memories/" ∷ id ∷ []) no_body)

  unfoldable pub search : SearchMemoryRequest F N → Exec String W (List (SearchResult F))
  unfolding send
  search request = send results_in (to post ("/search" ∷ []) (search_body request))

  abbrev pub pair_of : String → Option String → List (String × String)
  pair_of name none = []
  pair_of name (some v) = (name, v) ∷ []

  abbrev pub expired_pair : Bool → List (String × String)
  expired_pair show_expired = if show_expired then ("show_expired", "true") ∷ [] else []

  unfoldable pub list_ids :
      Option String → Option String → Option String → ℕ → ℕ → Bool → Exec String W (List String)
  unfolding send
  list_ids user_id agent_id run_id offset limit show_expired =
      elim (http.parse_url (format (client.base_url ∷ "/memories" ∷ []))) [
        | err e ↦ throw (format ("invalid server URL: " ∷ e ∷ []))
        | ok url ↦ send ids_in (record {
          method = get;
          url = url;
          query =
              ("offset", decimal offset)
              ∷ ("limit", decimal limit)
              ∷ (pair_of "user_id" user_id
                  ++ (pair_of "agent_id" agent_id
                      ++ (pair_of "run_id" run_id ++ expired_pair show_expired)));
          bearer = client.api_key;
          body = no_body;
        })
      ]

  unfoldable pub history : String → ℕ → ℕ → Exec String W (List HistoryEntry)
  unfolding send
  history id offset limit = send entries_in (
      to get
        ("/memories/" ∷ id ∷ "/history?offset=" ∷ decimal offset ∷ "&limit=" ∷ decimal limit ∷ [])
        no_body)

  unfoldable pub add : CreateMemoryRequest → Exec String W (List String)
  unfolding send
  add request = send ids_in (to post ("/memories" ∷ []) (create_body request))

  unfoldable pub update : String → Option String → Option (Map String) → Exec String W (Unit {0})
  unfolding ensure_success
  update id content metadata = ensure_success (
      to put ("/memories/" ∷ id ∷ [])
        (update_body (record { content = content; metadata = metadata })))

  unfoldable pub delete_memory : String → Exec String W (Unit {0})
  unfolding ensure_success
  delete_memory id = ensure_success (to delete ("/memories/" ∷ id ∷ []) no_body)

  unfoldable pub delete_all : Option String → Option String → Option String → Exec String W ℕ
  unfolding send
  delete_all user_id agent_id run_id = send deleted_in (
      to delete ("/memories" ∷ []) (
        scope_body
          (record { user_id = user_id; agent_id = agent_id; run_id = run_id; filters = none })))

  unfoldable pub list_entities : Exec String W (List EntitySummary)
  unfolding send
  list_entities = send entities_in (to get ("/entities" ∷ []) no_body)
