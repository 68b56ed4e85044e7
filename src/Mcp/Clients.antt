-- ===== src/Mcp/Clients.antt =====
-- mcp/src/install.rs: the clients, where their configuration is, and what an edit of it is. A path is a
-- text, and `join` is a parameter.
use memoria_mcp.Prelude.{String, Bool, not, ◌&&◌, Option, none, some, if◌then◌else◌}
use memoria_mcp.Map.{Map}

pub data Client : Type 0 where
  claude_code claude_desktop cursor opencode codex : Client

unfoldable pub name : Client → String
name claude_code = "claude-code"
name claude_desktop = "claude-desktop"
name cursor = "cursor"
name opencode = "opencode"
name codex = "codex"

pub record Environment : Type 0 where
  pub home : String
  pub xdg_config_home : Option String
  pub claude_config_dir : Option String
  pub codex_home : Option String
  pub macos : Bool

abbrev pub unwrap_or : String → Option String → String
unwrap_or d none = d
unwrap_or d (some s) = s

module _ (join : String → String → String) (exists : String → Bool) where
  unfoldable pub config_home : Environment → String
  config_home e = unwrap_or (join e.home ".config") e.xdg_config_home

  unfoldable pub config_dir : Client → Environment → String
  unfolding config_home
  config_dir claude_code e = unwrap_or (join e.home ".claude") e.claude_config_dir
  config_dir claude_desktop e =
      if e.macos
      then join (join (join e.home "Library") "Application Support") "Claude"
      else join (config_home e) "Claude"
  config_dir cursor e = join e.home ".cursor"
  config_dir opencode e = join (config_home e) "opencode"
  config_dir codex e = unwrap_or (join e.home ".codex") e.codex_home

  unfoldable pub config_path : Client → Environment → String
  unfolding config_dir
  config_path claude_code e = join (unwrap_or e.home e.claude_config_dir) ".claude.json"
  config_path claude_desktop e = join (config_dir claude_desktop e) "claude_desktop_config.json"
  config_path cursor e = join (config_dir cursor e) "mcp.json"
  config_path opencode e =
      let json = join (config_dir opencode e) "opencode.json" in
      let jsonc = join (config_dir opencode e) "opencode.jsonc" in
      if not (exists json) && exists jsonc then jsonc else json
  config_path codex e = join (config_dir codex e) "config.toml"

pub record ServerEntry : Type 0 where
  pub command : String
  pub env : Map String

pub data Edit : Type 0 where
  added updated removed : String → Edit
  unchanged absent : Edit

unfoldable pub action : Edit → String
action (added text) = "added"
action (updated text) = "updated"
action (removed text) = "removed"
action unchanged = "unchanged"
action absent = "absent"

unfoldable pub new_contents : Edit → Option String
new_contents (added text) = some text
new_contents (updated text) = some text
new_contents (removed text) = some text
new_contents unchanged = none
new_contents absent = none
