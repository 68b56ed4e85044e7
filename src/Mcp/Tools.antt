-- ===== src/Mcp/Tools.antt =====
-- mcp/src/main.rs: the tools of `MemoriaMcpServer`, over a local engine or a remote service, and the files
-- that a local one is saved to. A tool takes what serde makes of its arguments.
pub mod Secret
pub mod Scope
pub mod Agreement
use memoria_mcp.Prelude.{
  ℕ, String, Bool, true, false, not, ◌&&◌, Option, none, some, List, [], ◌∷◌, map, is_some_and,
  if◌then◌else◌, Result, ok, err, map_err, map_ok, format,
}
use memoria_mcp.Prelude.Exec.{Exec, pure, throw, lift, ◌>>=◌, ◌>>◌}
use memoria_mcp.Map.{Map}
use memoria_mcp.Store.{VectorRecord, SearchResult, ScoreDetails}
use memoria_mcp.Llm.{user, with_images}
use memoria_mcp.Error.{CoreError, show_error}
use memoria_mcp.Memory.{World, Env, Op, HistoryEntry, added, deleted}
use memoria_mcp.Memory.Search.{search}
use memoria_mcp.Memory.Add.{add}
use memoria_mcp.Memory.Records.{update, get_record, list, delete, reset, history}
use memoria_mcp.Memory.Entities.{EntitySummary, list_entities}
use memoria_mcp.Server.Bytes.{constant_time_eq}
use memoria_mcp.Server.Http.Requests.{CreateMemoryRequest, SearchMemoryRequest, scope_from_optional}
use memoria_mcp.Snapshot.{Disk, Format, records_of, save_store, save_history}
use memoria_mcp.Mcp.Remote
use memoria_mcp.Mcp.Remote.{Http, RemoteClient}

abbrev pub wrong_secret : String
wrong_secret =
    "missing or incorrect secret (MEMORIA_MCP_SECRET is configured on this server; see ADR-38)"

unfoldable pub check_secret :
    (String → List ℕ) → Option String → Option String → Result String (Unit {0})
check_secret as_bytes none provided = ok tt
check_secret as_bytes (some expected) provided =
    if is_some_and provided (λ value. constant_time_eq (as_bytes value) (as_bytes expected))
    then ok tt
    else err wrong_secret

pub record SearchMemoriesRequest (F : Type 0) : Type 0 where
  pub query : String
  pub user_id : Option String
  pub agent_id : Option String
  pub run_id : Option String
  pub top_k : ℕ
  pub threshold : Option F
  pub show_expired : Bool
  pub explain : Bool

pub record GetMemoriesRequest : Type 0 where
  pub user_id : Option String
  pub agent_id : Option String
  pub run_id : Option String
  pub offset : ℕ
  pub limit : ℕ
  pub show_expired : Bool

pub record AddMemoryRequest : Type 0 where
  pub content : String
  pub user_id : Option String
  pub agent_id : Option String
  pub run_id : Option String
  pub infer : Bool
  pub images : List String

-- A call of a tool, beside its secret.
pub data Call (F : Type 0) : Type 0 where
  search_memories : SearchMemoriesRequest F → Call F
  get_memory : String → Call F
  get_memories : GetMemoriesRequest → Call F
  memory_history : String → ℕ → ℕ → Call F
  add_memory : AddMemoryRequest → Call F
  update_memory : String → Option String → Option (Map String) → Call F
  delete_memory : String → Call F
  delete_all_memories : Option String → Option String → Option String → Call F
  list_memory_entities : Call F

pub record MemoryRecord : Type 0 where
  pub id : String
  pub payload : Map String

abbrev pub record_of : {F : Type 0} → VectorRecord F → MemoryRecord
record_of r = record { id = r.id; payload = r.payload }

abbrev pub event_name : HistoryEntry → String × String
event_name e = (elim e.event [ added ↦ "added" | deleted ↦ "deleted" ], e.content)

-- What a tool answers with.
pub data Answer (F : Type 0) : Type 0 where
  results : List (SearchResult F) → Answer F
  memory : MemoryRecord → Answer F
  memories : List MemoryRecord → Answer F
  -- The name of the event, and the content.
  entries : List (String × String) → Answer F
  ids : List String → Answer F
  deleted_one : Bool → Answer F
  deleted_count : ℕ → Answer F
  entities : List EntitySummary → Answer F

-- `W` is the engine's state, or that of the service and the way to it.
pub data Backend (F G N S : Type 0) : Type 0 where
  local : Env F G S → Backend F G N S
  remote : Http F N (World S) → RemoteClient → Backend F G N S

pub record Server (F G N S : Type 0) : Type 0 where
  pub backend : Backend F G N S
  pub mcp_secret : Option String
  pub store_path : String
  pub history_path : String
  pub persist_json_snapshot : Bool
  pub persist_history : Bool

abbrev pub no_such_memory : String → String
no_such_memory id = format ("no memory found with id " ∷ id ∷ [])

abbrev pub needs_scope : String
needs_scope =
    "delete_all_memories requires at least one of user_id, agent_id, or run_id -- server has no separate admin tier to gate an unscoped wipe the way the REST API does"

abbrev pub is_none : Option String → Bool
is_none none = true
is_none (some s) = false

-- `.map_err(|err| err.to_string())` of a call of the engine.
abbrev pub shown : {S A : Type 0} → Op S A → Exec String (World S) A
shown call w = let (r, w') = call w in (map_err show_error r, w')

-- What the backend gives: an answer, or a record that must exist.
pub data Outcome (F : Type 0) : Type 0 where
  answer : Answer F → Outcome F
  found : String → Option (VectorRecord F) → Outcome F

unfoldable pub respond : {F : Type 0} → Outcome F → Result String (Answer F)
respond (answer a) = ok a
respond (found id none) = err (no_such_memory id)
respond (found id (some r)) = ok (memory (record_of r))

abbrev pub search_body : {F N : Type 0} → SearchMemoriesRequest F → SearchMemoryRequest F N
search_body q = record {
  query = q.query;
  user_id = q.user_id;
  agent_id = q.agent_id;
  run_id = q.run_id;
  top_k = q.top_k;
  threshold = q.threshold;
  show_expired = some q.show_expired;
  filters = none;
  rerank = none;
  explain = some q.explain;
}

abbrev pub create_body : AddMemoryRequest → CreateMemoryRequest
create_body q = record {
  content = some q.content;
  messages = none;
  user_id = q.user_id;
  agent_id = q.agent_id;
  run_id = q.run_id;
  infer = some q.infer;
  memory_type = none;
  expiration_date = none;
  images = q.images;
}

module _ {F G S : Type 0} (env : Env F G S) where
  -- The arms `Backend::Local(memory) => ..` of the tools.
  unfoldable pub call_local : Call F → Exec String (World S) (Outcome F)
  unfolding records_of
  call_local (search_memories q) = do
    rs ← shown (λ w. (
      search env q.query q.top_k (scope_from_optional q.user_id q.agent_id q.run_id) q.threshold
          q.show_expired none false q.explain w.store,
      w,
    ))
    pure (answer (results rs))
  call_local (get_memory id) = do r ← shown (get_record env id); pure (found id r)
  call_local (get_memories q) = do
    listed ← shown (
        list env (scope_from_optional q.user_id q.agent_id q.run_id) q.offset q.limit q.show_expired
          none)
    λ w. (ok (answer (memories (map record_of (records_of env listed w)))), w)
  call_local (memory_history id offset limit) = do
    es ← shown (history env id offset limit)
    pure (answer (entries (map event_name es)))
  call_local (add_memory q) = do
    new_ids ← shown (
        add env (with_images user q.content q.images ∷ [])
          (scope_from_optional q.user_id q.agent_id q.run_id) q.infer)
    pure (answer (ids new_ids))
  call_local (update_memory id content metadata) = do
    _ ← shown (update env id content metadata)
    r ← shown (get_record env id)
    pure (found id r)
  call_local (delete_memory id) = do _ ← shown (delete env id); pure (answer (deleted_one true))
  call_local (delete_all_memories user_id agent_id run_id) = do
    n ← shown (reset env (scope_from_optional user_id agent_id run_id) none)
    pure (answer (deleted_count n))
  call_local list_memory_entities = do es ← shown (list_entities env); pure (answer (entities es))

-- The results in order: the first error ends the loop, and absent records are left out.
unfoldable pub records_in :
    {F : Type 0}
    → List (Result String (Option (VectorRecord F)))
    → Result String (List MemoryRecord)
records_in [] = ok []
records_in (err e ∷ rs) = err e
records_in (ok none ∷ rs) = records_in rs
records_in (ok (some r) ∷ rs) = map_ok (λ ms. record_of r ∷ ms) (records_in rs)

module _ {F N S : Type 0} (http : Http F N (World S)) (client : RemoteClient) where
  -- The fetches of the `JoinSet`, which are sorted by their index: one after the other here.
  unfoldable pub fetch_all :
      List String → World S → List (Result String (Option (VectorRecord F))) × World S
  fetch_all [] w = ([], w)
  fetch_all (id ∷ later) w =
      let (r, w') = Remote.get_record http client id w in
      let (rs, w'') = fetch_all later w' in (r ∷ rs, w'')

  -- The arms `Backend::Remote(client) => ..`.
  unfoldable pub call_remote : Call F → Exec String (World S) (Outcome F)
  unfolding fetch_all records_in
  call_remote (search_memories q) = do
    rs ← Remote.search http client (search_body q)
    pure (answer (results rs))
  call_remote (get_memory id) = do r ← Remote.get_record http client id; pure (found id r)
  call_remote (get_memories q) = do
    listed ←
        Remote.list_ids http client q.user_id q.agent_id q.run_id q.offset q.limit q.show_expired
    λ w.
        let (fetched, w') = fetch_all listed w in
        (map_ok (λ ms. answer (memories ms)) (records_in fetched), w')
  call_remote (memory_history id offset limit) = do
    es ← Remote.history http client id offset limit
    pure (answer (entries (map event_name es)))
  call_remote (add_memory q) = do
    new_ids ← Remote.add http client (create_body q)
    pure (answer (ids new_ids))
  call_remote (update_memory id content metadata) = do
    _ ← Remote.update http client id content metadata
    r ← Remote.get_record http client id
    pure (found id r)
  call_remote (delete_memory id) = do
    _ ← Remote.delete_memory http client id
    pure (answer (deleted_one true))
  call_remote (delete_all_memories user_id agent_id run_id) = do
    n ← Remote.delete_all http client user_id agent_id run_id
    pure (answer (deleted_count n))
  call_remote list_memory_entities = do
    es ← Remote.list_entities http client
    pure (answer (entities es))

pub record State (S D : Type 0) : Type 0 where
  pub world : World S
  pub disk : D

abbrev pub on_world : {S D A : Type 0} → Exec String (World S) A → Exec String (State S D) A
on_world call st = let (r, w) = call st.world in (r, record st { world = w })

abbrev pub call_backend :
    {F G N S : Type 0} → Backend F G N S → Call F → Exec String (World S) (Outcome F)
call_backend (local env) = call_local env
call_backend (remote http client) = call_remote http client

-- The check that comes before the backend.
unfoldable pub check_call : {F : Type 0} → Call F → Result String (Unit {0})
check_call (delete_all_memories user_id agent_id run_id) =
    if is_none user_id && (is_none agent_id && is_none run_id) then err needs_scope else ok tt
check_call other = ok tt

abbrev pub mutates : {F : Type 0} → Call F → Bool
mutates (add_memory q) = true
mutates (update_memory id content metadata) = true
mutates (delete_memory id) = true
mutates (delete_all_memories user_id agent_id run_id) = true
mutates other = false

module _ {F G N S D T : Type 0} (files : Disk D T) (serde : Format F T) (as_bytes : String → List ℕ)
    (server : Server F G N S) where
  -- `let _ = save_..(..)`
  abbrev pub saved : (World S → Exec String D (Unit {0})) → State S D → State S D
  saved save st = record st { disk = (save st.world st.disk).1 }

  unfoldable pub persist_after_mutation : State S D → State S D
  persist_after_mutation st = elim server.backend [
    | remote http client ↦ st
    | local env ↦
        let st₁ =
          if server.persist_json_snapshot
          then saved (save_store env files serde server.store_path) st
          else st in
        if server.persist_history
        then saved (save_history env files serde server.history_path) st₁
        else st₁
  ]

  unfoldable pub run_tool : Call F → Option String → Exec String (State S D) (Answer F)
  unfolding check_secret check_call persist_after_mutation respond
  run_tool call secret = do
    lift (check_secret as_bytes server.mcp_secret secret)
    lift (check_call call)
    outcome ← on_world (call_backend server.backend call)
    λ st. (respond outcome, if mutates call then persist_after_mutation st else st)
