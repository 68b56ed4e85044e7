-- ===== src/Mcp/RoundTrip.antt =====
-- mcp/src/install.rs: what a second install and an uninstall make of an installed configuration.
use Prim.Native.Char.{Char}
use memoria_mcp.Prelude.{
  ◌≡◌, ◌⊎◌, refl, ap, String, Bool, true, false, Option, none, some, [], ◌∷◌, if◌then◌else◌, Result,
  ok, ◌==◌, arith, eq_iff, map_ok,
}
use memoria_mcp.Map.{Map, get, insert, remove}
use memoria_mcp.Map.Laws.{get-insert, get-remove}
use memoria_mcp.Filter.Parse.{Value, object}
use memoria_mcp.Mcp.Clients.{Client, ServerEntry, Edit, added, updated, unchanged}
use memoria_mcp.Mcp.Json.{
  server_name, json_container_key, entries_in, fields_of, json_entry, with_previous_json_env,
  servers_of, upsert_servers, remove_servers, render_json,
}

module _ {N : Type 0} where
  entries_in-fields_of : (m : Map (Value N)) → entries_in (fields_of m) ≡ m
  entries_in-fields_of [] = refl
  entries_in-fields_of ((k, v) ∷ m) = ap (◌∷◌ (k, v)) (entries_in-fields_of m)

  get-insert_self : (k : String) (v : Value N) (m : Map (Value N)) → get k (insert k v m) ≡ some v
  get-insert_self k v m = ground (arith, get-insert k k v m, eq_iff k k)

  -- The servers of a configuration whose container was written.
  servers_of-insert :
      (key : String) (servers root : Map (Value N))
      → servers_of key (insert key (object (fields_of servers)) root) ≡ ok servers
  unfolding servers_of
  servers_of-insert key servers root =
      rw (servers_of, get-insert_self key (object (fields_of servers)) root)
        (ap ok (entries_in-fields_of servers))

  abbrev pub IsUndone : Client → Map (Value N) → Map (Value N) → Map (Value N) → Type 0
  IsUndone client root servers root' =
      let key = json_container_key client in
      (servers₁ : Map (Value N)) × (servers_of key root' ≡ ok servers₁)
      × (servers₂ : Map (Value N)) × (servers_of key (remove_servers client root' servers₁)
          ≡ ok servers₂)
      × ((j : String) → get j servers₂ ≡ (if server_name == j then none else get j servers))
      × ((k : String)
          → get k (remove_servers client root' servers₁)
            ≡ (if key == k then some (object (fields_of servers₂)) else get k root))

  -- After an install, an uninstall leaves every other server and every other setting of the configuration
  -- as it was before both, and the server itself absent. Where the container was missing, it is there,
  -- and empty.
  pub uninstall_lem :
      (client : Client) (root servers : Map (Value N)) (e : ServerEntry)
      → servers_of (json_container_key client) root ≡ ok servers
      → IsUndone client root servers (upsert_servers client root e servers).1
  unfolding upsert_servers remove_servers
  uninstall_lem client root servers e found =
      let desired = (upsert_servers client root e servers).0 in
      let key = json_container_key client in
      let installed = insert server_name desired servers in
      let root' = insert key (object (fields_of installed)) root in
      (
        installed,
        servers_of-insert key installed root,
        remove server_name installed,
        servers_of-insert key (remove server_name installed) root',
        (λ j.
            ground (
              arith,
              get-remove server_name j installed,
              get-insert server_name j desired servers,
            )),
        λ k. ground (
          arith,
          eq_iff key k,
          get-insert key k (object (fields_of (remove server_name installed))) root',
          get-insert key k (object (fields_of installed)) root,
        ),
      )

  module _ (parse : String → Result String (Value N)) (print : Value N → Result String String)
      (same : Value N → Value N → Bool) (is_whitespace : Char → Bool) where
    -- What an install makes of a configuration with these servers: the configuration `root` holds the entry
    -- of the server, with the variables of the former entry. A configuration without an entry gets it, one
    -- with another entry is updated, and one with the same entry is not written.
    abbrev pub IsInstall :
        Client → Map (Value N) → ServerEntry → Map (Value N) → Result String Edit → Type 0
    IsInstall client servers e root edit =
        let previous = get server_name servers in
        let desired = json_entry client (with_previous_json_env client previous e) in
        let text = render_json parse print same is_whitespace root in
        (servers' : Map (Value N)) × (servers_of (json_container_key client) root ≡ ok servers')
        × (get server_name servers' ≡ some desired)
        × (((previous ≡ none) × (edit ≡ map_ok added text))
            ⊎ ((old : Value N) × (previous ≡ some old)
                × (((same old desired ≡ true) × (edit ≡ ok unchanged))
                    ⊎ ((same old desired ≡ false) × (edit ≡ map_ok updated text)))))

    -- What an edit answers with, by the entry that it finds.
    abbrev IsEdit : Option (Value N) → Value N → Map (Value N) → Result String Edit → Type 0
    IsEdit previous desired root edit =
        let text = render_json parse print same is_whitespace root in
        ((previous ≡ none) × (edit ≡ map_ok added text))
        ⊎ ((old : Value N) × (previous ≡ some old)
            × (((same old desired ≡ true) × (edit ≡ ok unchanged))
                ⊎ ((same old desired ≡ false) × (edit ≡ map_ok updated text))))
