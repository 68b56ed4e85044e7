-- ===== src/Memory/Entities.antt =====
-- core/src/memory.rs: `list_entities`, which counts the records of each user, agent and run.
use Prim.Native.String.{compare}
use text.Mathlib.Text.{is_lt}
use memoria_mcp.Prelude.{
  ℕ, ◌+◌, String, Bool, true, ◌&&◌, ◌||◌, none, some, List, [], ◌∷◌, ◌==◌, if◌then◌else◌,
}
use memoria_mcp.Prelude.Exec.{pure, ◌>>=◌}
use memoria_mcp.Prelude.Sort.{sort_by}
use memoria_mcp.Map.{Map, get}
use memoria_mcp.Store.{usize_max}
use memoria_mcp.Memory.{Env, Op}
use memoria_mcp.Memory.Records.{get_record, list_all}

pub record EntitySummary : Type 0 where
  pub entity_type : String
  pub entity_id : String
  pub memory_count : ℕ

abbrev pub is_summary_of : String → String → EntitySummary → Bool
is_summary_of entity_type entity_id e = e.entity_type == entity_type && e.entity_id == entity_id

-- `*counts.entry((type, id)).or_insert(0) += 1`
unfoldable pub count_one : String → String → List EntitySummary → List EntitySummary
count_one entity_type entity_id [] =
    record { entity_type = entity_type; entity_id = entity_id; memory_count = 1 } ∷ []
count_one entity_type entity_id (e ∷ es) =
    let later = e ∷ count_one entity_type entity_id es in
    if is_summary_of entity_type entity_id e
    then record e { memory_count = e.memory_count + 1 } ∷ es
    else later

unfoldable pub count_field : String → Map String → List EntitySummary → List EntitySummary
count_field field payload counts = elim (get field payload) [
  | none ↦ counts
  | some value ↦ count_one field value counts
]

-- `for field in ENTITY_SCOPE_FIELDS`
unfoldable pub count_record : Map String → List EntitySummary → List EntitySummary
unfolding count_field
count_record payload counts =
    count_field "run_id" payload
      (count_field "agent_id" payload (count_field "user_id" payload counts))

-- The order of the pairs of type and id.
abbrev pub after : EntitySummary → EntitySummary → Bool
after a b =
    is_lt (compare b.entity_type a.entity_type)
    || (a.entity_type == b.entity_type && is_lt (compare b.entity_id a.entity_id))

module _ {F G S : Type 0} (env : Env F G S) where
  unfoldable pub count_from : List String → List EntitySummary → Op S (List EntitySummary)
  unfolding count_record
  count_from [] counts = pure counts
  count_from (id ∷ ids) counts = do
    found ← get_record env id
    elim found [
      | none ↦ count_from ids counts
      | some r ↦ count_from ids (count_record r.payload counts)
    ]

  unfoldable pub list_entities : Op S (List EntitySummary)
  unfolding count_from
  list_entities = do
    ids ← list_all env 0 usize_max true none
    counts ← count_from ids []
    pure (sort_by after counts)
