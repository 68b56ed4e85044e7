-- ===== src/Mcp/Json.antt =====
-- mcp/src/install.rs: the edits of JSON configurations. Reading and printing JSON, and the equality of
-- its values, are parameters; the fields of an object are met as the entries of a map.
use Prim.Native.Char.{Char}
use memoria_mcp.Prelude.{
  String, Bool, true, Option, none, some, [], ◌∷◌, if◌then◌else◌, Result, ok, err, ◌>>=◌, map_ok,
  format,
}
use memoria_mcp.Prelude.Text.{is_empty, trim_matches}
use memoria_mcp.Map.{Map, get, contains_key, insert, remove}
use memoria_mcp.Filter.Parse.{Value, bool, string, array, object, end, item, Fields, close, entry}
use memoria_mcp.Mcp.Clients.{
  Client, claude_code, opencode, ServerEntry, Edit, added, updated, removed, unchanged, absent,
}

abbrev pub server_name : String
server_name = "memoria"

-- `const fn json_container_key`
unfoldable pub json_container_key : Client → String
json_container_key opencode = "mcp"
json_container_key other = "mcpServers"

unfoldable pub json_env_key : Client → String
json_env_key opencode = "environment"
json_env_key other = "env"

-- `merged.env.entry(key).or_insert_with(..)`
abbrev pub or_insert : String → String → Map String → Map String
or_insert k v env = if contains_key k env then env else insert k v env

abbrev pub not_an_object : String → String
not_an_object key = format ("`" ∷ key ∷ "` is not a JSON object" ∷ [])

module _ {N : Type 0} where
  abbrev pub entries_in : Fields N → Map (Value N)
  entries_in close = []
  entries_in (entry k v fs) = (k, v) ∷ entries_in fs

  abbrev pub fields_of : Map (Value N) → Fields N
  fields_of [] = close
  fields_of ((k, v) ∷ m) = entry k v (fields_of m)

  abbrev pub strings : Map String → Map (Value N)
  strings [] = []
  strings ((k, v) ∷ env) = (k, string v) ∷ strings env

  unfoldable pub env_object : Map String → Value N
  env_object env = object (fields_of (strings env))

  unfoldable pub json_entry : Client → ServerEntry → Value N
  json_entry opencode e = object (
      fields_of (
        ("type", string "local")
        ∷ ("command", array (item (string e.command) end))
        ∷ ("enabled", bool true)
        ∷ ("environment", env_object e.env)
        ∷ []))
  json_entry claude_code e = object (
      fields_of (
        ("type", string "stdio")
        ∷ ("command", string e.command)
        ∷ ("args", array end)
        ∷ ("env", env_object e.env)
        ∷ []))
  json_entry other e = object (
      fields_of
        (("command", string e.command) ∷ ("args", array end) ∷ ("env", env_object e.env) ∷ []))

  -- The loop over the former variables.
  unfoldable pub merge_env : Map (Value N) → Map String → Map String
  merge_env [] env = env
  merge_env ((k, string text) ∷ old) env = merge_env old (or_insert k text env)
  merge_env ((k, other) ∷ old) env = merge_env old env

  -- `old.get(key)`, where it is an object.
  unfoldable pub old_env : Client → Option (Value N) → Map (Value N)
  unfolding json_env_key
  old_env client (some (object fs)) = elim (get (json_env_key client) (entries_in fs)) [
    | some (object vars) ↦ entries_in vars
    | _ ↦ []
  ]
  old_env client _ = []

  unfoldable pub with_previous_json_env : Client → Option (Value N) → ServerEntry → ServerEntry
  unfolding merge_env old_env
  with_previous_json_env client previous e = record e {
    env = merge_env (old_env client previous) e.env;
  }

  -- `root.entry(key).or_insert_with(..)`, which must be an object.
  unfoldable pub servers_of : String → Map (Value N) → Result String (Map (Value N))
  servers_of key root = elim (get key root) [
    | none ↦ ok []
    | some (object fs) ↦ ok (entries_in fs)
    | some _ ↦ err (not_an_object key)
  ]

  -- The entry written, and the configuration with it.
  unfoldable pub upsert_servers :
      Client → Map (Value N) → ServerEntry → Map (Value N) → Value N × Map (Value N)
  unfolding json_entry with_previous_json_env json_container_key
  upsert_servers client root e servers =
      let desired = json_entry client (with_previous_json_env client (get server_name servers) e) in
      (
        desired,
        insert (json_container_key client) (object (fields_of (insert server_name desired servers)))
            root,
      )

  -- `servers.remove(..)` in place.
  unfoldable pub remove_servers : Client → Map (Value N) → Map (Value N) → Map (Value N)
  unfolding json_container_key
  remove_servers client root servers =
      insert (json_container_key client) (object (fields_of (remove server_name servers))) root

  module _ (parse : String → Result String (Value N)) (print : Value N → Result String String)
      (same : Value N → Value N → Bool) (is_whitespace : Char → Bool) where
    unfoldable pub parse_json_root : Option String → Result String (Map (Value N))
    parse_json_root none = ok []
    parse_json_root (some text) =
        if is_empty (trim_matches is_whitespace text) then ok [] else elim (parse text) [
          | ok (object root) ↦ ok (entries_in root)
          | ok _ ↦ err "top-level value is not a JSON object"
          | err error ↦ err (format ("not valid JSON (" ∷ error ∷ ")" ∷ []))
        ]

    unfoldable pub render_json : Map (Value N) → Result String String
    render_json root = map_ok (λ text. format (text ∷ "\n" ∷ [])) (print (object (fields_of root)))

    -- `match previous`
    abbrev pub edit_with : Option (Value N) → Value N → Map (Value N) → Result String Edit
    edit_with none desired root = map_ok added (render_json root)
    edit_with (some old) desired root =
        if same old desired then ok unchanged else map_ok updated (render_json root)

    unfoldable pub upsert_json : Client → Option String → ServerEntry → Result String Edit
    unfolding parse_json_root servers_of upsert_servers render_json
    upsert_json client existing e = do
      root ← parse_json_root existing
      servers ← servers_of (json_container_key client) root
      let (desired, root') = upsert_servers client root e servers
      edit_with (get server_name servers) desired root'

    unfoldable pub remove_json : Client → Option String → Result String Edit
    unfolding parse_json_root servers_of remove_servers render_json
    remove_json client existing = do
      root ← parse_json_root existing
      servers ← servers_of (json_container_key client) root
      if contains_key server_name servers
          then map_ok removed (render_json (remove_servers client root servers))
          else ok absent
