-- ===== src/Tests/Installer.antt =====
-- An install of the server over a former entry, and its removal.
use memoria_mcp.Prelude.{
  ℕ, ◌≡◌, refl, String, [], ◌∷◌, Result, ok, if◌then◌else◌, ◌==◌, List, All, any, length, ◌↔◌,
  false,
}
use memoria_mcp.Prelude.Text.{trim_matches, trim_start}
use memoria_mcp.Map.{Map, get}
use memoria_mcp.Filter.Parse.{Value, object, string, close, entry}
use memoria_mcp.Mcp.Clients.{cursor, ServerEntry, absent}
use memoria_mcp.Mcp.Json.{json_container_key, fields_of, servers_of, upsert_servers}
use memoria_mcp.Mcp.RoundTrip.{IsUndone, uninstall_lem}
use memoria_mcp.Llm.{lines}
use memoria_mcp.Server.Ascii.{strip_prefix}
use memoria_mcp.Mcp.Toml.{
  memoria_toml_ranges, ranges_from, trim_range, toml_table_name, is_memoria_table,
  is_blank_or_comment, before, is_header,
}
use memoria_mcp.Mcp.Toml.Edits.{remove_toml}
use memoria_mcp.Mcp.Toml.Ranges.{IsWithin, memoria_toml_ranges-IsWithin, remove_toml-eq-absent}
use memoria_mcp.Tests.Samples.{ascii}

abbrev former : Map (Value ℕ)
former =
    ("memoria", object (entry "env" (object (entry "MEMORIA_API_KEY" (string "key") close)) close))
    ∷ ("other", string "kept")
    ∷ []

abbrev config : Map (Value ℕ)
config = ("theme", string "dark") ∷ ("mcpServers", object (fields_of former)) ∷ []

abbrev server : ServerEntry
server = record { command = "/usr/bin/memoria-mcp"; env = ("MEMORIA_LLM", "local") ∷ [] }

finds : servers_of (json_container_key cursor) config ≡ ok former
unfolding servers_of json_container_key get
finds = refl

uninstall_lem_example : IsUndone cursor config former (upsert_servers cursor config server former).1
uninstall_lem_example = uninstall_lem cursor config former server finds

-- One text reads as the configuration before, every other as the one after.
abbrev parse : String → Result String (Value ℕ)
parse text =
    if text == "before"
    then ok (object (fields_of config))
    else ok (object (fields_of (upsert_servers cursor config server former).1))

abbrev toml : List String
toml =
    "[tui]" ∷ "[mcp_servers.memoria]" ∷ "command = \"memoria-mcp\"" ∷ "[mcp_servers.memoria.env]"
    ∷ "# none" ∷ "[mcp_servers.other]" ∷ []

memoria_toml_ranges-IsWithin_example :
    All (IsWithin ascii.is_whitespace (length toml)) (memoria_toml_ranges ascii.is_whitespace toml)
memoria_toml_ranges-IsWithin_example = memoria_toml_ranges-IsWithin ascii.is_whitespace toml

remove_toml-eq-absent_example :
    (remove_toml ascii.is_whitespace "[tui]\n[mcp_servers.memoria]\nargs = []\n" ≡ absent) ↔ (
      any (is_header ascii.is_whitespace) (lines "[tui]\n[mcp_servers.memoria]\nargs = []\n")
      ≡ false)
remove_toml-eq-absent_example =
    remove_toml-eq-absent ascii.is_whitespace "[tui]\n[mcp_servers.memoria]\nargs = []\n"

-- The tables of the server are one range, without the comment at its end.
one_range : memoria_toml_ranges ascii.is_whitespace toml ≡ (1, 4) ∷ []
unfolding memoria_toml_ranges ranges_from trim_range toml_table_name is_memoria_table
    is_blank_or_comment before strip_prefix trim_start trim_matches
one_range = refl
