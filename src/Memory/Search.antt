-- ===== src/Memory/Search.antt =====
-- core/src/memory.rs: `search`, with the keyword pass and the entity boost. It changes nothing, so it
-- is a function of the store's state.
use memoria_mcp.Prelude.{
  ℕ, String, Bool, true, false, not, ◌&&◌, Option, none, some, List, [], ◌∷◌, ◌++◌, ◌==◌, any, map,
  retain, take, if◌then◌else◌, Result, ok, map_err, ensure, ◌>>=◌, format, decimal, ltb, eqb,
}
use memoria_mcp.Prelude.Sort.{sort_by}
use memoria_mcp.Prelude.Text.{split, is_char}
use memoria_mcp.Map.{Map, get, insert}
use memoria_mcp.Float.{Float, gt, lt}
use memoria_mcp.Store.{SearchResult, ScoreDetails}
use memoria_mcp.Filter.{FilterExpr, evaluate}
use memoria_mcp.Error.{CoreError, from_store, from_embedding, from_rerank}
use memoria_mcp.Entity.{EntityType, Span, proper, quoted, extract_entities}
use memoria_mcp.Reranker.{normalize_distance, lowest, highest}
use memoria_mcp.Memory.{
  Env, entity_record_kind_key, entity_record_kind_value, entity_type_key, linked_memory_ids_key,
  search_candidate_limit, is_entity_record, has_scope_id, is_expired, today, scope_required,
}

abbrev pub entity_type_name : EntityType → String
entity_type_name proper = "proper"
entity_type_name quoted = "quoted"

abbrev pub is_some {ℓ} : {A : Type ℓ} → Option A → Bool
is_some none = false
is_some (some a) = true

-- `linked.split(',')`
abbrev pub linked_ids : String → List String
linked_ids = split (is_char b',')

module _ {F : Type 0} (fl : Float F) where
  abbrev pub further : SearchResult F → SearchResult F → Bool
  further a b = gt fl a.score b.score

  -- The scores by id, where the last of two equal ids wins.
  unfoldable pub keyword_scores : List (SearchResult F) → Map F → Map F
  keyword_scores [] m = m
  keyword_scores (r ∷ rs) m = keyword_scores rs (insert r.id r.score m)

  abbrev pub explain_keyword : Option F → F → ScoreDetails F → ScoreDetails F
  explain_keyword raw combined d = record d {
    bm25_score = raw;
    raw_score = combined;
    final_score = combined;
  }

  abbrev pub map_details :
      Bool → (ScoreDetails F → ScoreDetails F) → Option (ScoreDetails F) → Option (ScoreDetails F)
  map_details false f o = o
  map_details true f none = none
  map_details true f (some d) = some (f d)

  -- The body of the loop over the results.
  unfoldable pub combine_one : F → F → F → F → Map F → Bool → SearchResult F → SearchResult F
  combine_one semantic_min semantic_max keyword_min keyword_max scores explain result =
      let normalized_semantic = normalize_distance fl result.score semantic_min semantic_max in
      let raw_keyword = get result.id scores in
      let normalized_keyword : F = elim raw_keyword [
        | none ↦ fl.literal 1 0
        | some score ↦ normalize_distance fl score keyword_min keyword_max
      ] in
      let combined = fl.midpoint normalized_semantic normalized_keyword in
      record result {
        score = combined;
        score_details =
            map_details explain (explain_keyword raw_keyword combined) result.score_details;
      }

  unfoldable pub combine_with_keyword_scores :
      List (SearchResult F) → List (SearchResult F) → Bool → List (SearchResult F)
  combine_with_keyword_scores results keyword_results explain = sort_by further (
      map
        (combine_one (lowest fl results) (highest fl results) (lowest fl keyword_results)
          (highest fl keyword_results) (keyword_scores keyword_results []) explain)
        results)

  -- `1.0 - ENTITY_BOOST_FRACTION`
  unfoldable pub boost_factor : F
  boost_factor = fl.sub (fl.literal 1 0) (fl.literal 15 2)

  unfoldable pub boost_one : List String → Bool → SearchResult F → SearchResult F
  unfolding boost_factor
  boost_one boosted explain result =
      let new_score = fl.mul result.score boost_factor in
      if any (λ i. i == result.id) boosted
      then record result {
        score = new_score;
        score_details =
            map_details explain
              (λ d. record d { entity_boost = some boost_factor; final_score = new_score })
              result.score_details;
      }
      else result

  abbrev pub boosts_any : List String → List (SearchResult F) → Bool
  boosts_any boosted results = any (λ (r : SearchResult F). any (λ i. i == r.id) boosted) results

  abbrev pub start_details : SearchResult F → SearchResult F
  start_details r = record r {
    score_details = some (record {
      semantic_score = r.score;
      bm25_score = none;
      entity_boost = none;
      raw_score = r.score;
      final_score = r.score;
    });
  }

module _ {F G S : Type 0} (env : Env F G S) where
  -- The ids that the matched entity records link to.
  unfoldable pub links_of : List (SearchResult F) → List String
  links_of [] = []
  links_of (r ∷ rs) = elim (get linked_memory_ids_key r.payload) [
    | none ↦ links_of rs
    | some linked ↦ linked_ids linked ++ links_of rs
  ]

  -- The filters of the search for the stored records of a query's entity.
  unfoldable pub entity_filters : Map String → EntityType → Map String
  entity_filters scope entity_type =
      insert entity_type_key (entity_type_name entity_type)
        (insert entity_record_kind_key entity_record_kind_value scope)

  -- The loop over the query's entities.
  unfoldable pub boosted_ids : List Span → Map String → S → Result CoreError (List String)
  unfolding entity_filters links_of
  boosted_ids [] scope s = ok []
  boosted_ids ((entity_type, entity_text) ∷ spans) scope s = do
    vector ← map_err from_embedding (env.embed entity_text)
    found ←
        map_err from_store
          (env.vector_store.search vector 5 (entity_filters scope entity_type) none s)
    rest ← boosted_ids spans scope s
    ok (links_of found ++ rest)

  unfoldable pub apply_entity_boost :
      String
      → Map String
      → List (SearchResult F)
      → Bool
      → S
      → Result CoreError (List (SearchResult F))
  unfolding boosted_ids boost_one
  apply_entity_boost query scope [] explain s = ok []
  apply_entity_boost query scope (r ∷ rs) explain s = do
    boosted ← boosted_ids (extract_entities env.chars query) scope s
    ok (
        if boosts_any env.f32 boosted (r ∷ rs)
        then sort_by (further env.f32) (map (boost_one env.f32 boosted explain) (r ∷ rs))
        else r ∷ rs)

  abbrev pub exceeds : ℕ → Option ℕ → Bool
  exceeds n none = false
  exceeds n (some limit) = ltb limit n

  abbrev pub is_negative : Option F → Bool
  is_negative none = false
  is_negative (some t) = lt env.f32 t (env.f32.literal 0 0)

  abbrev pub shown : Option ℕ → String
  shown none = ""
  shown (some n) = decimal n

  abbrev pub shown_float : Option F → String
  shown_float none = ""
  shown_float (some t) = env.f32.to_string t

  -- The early returns of `search`, in their order.
  unfoldable pub check_search : ℕ → Map String → Option F → Bool → Result CoreError (Unit {0})
  check_search top_k scope threshold rerank = do
    _ ←
        ensure (not (rerank && not (is_some env.reranker)))
          (CoreError.validation "rerank was requested but no reranker is configured")
    _ ← ensure (not (eqb top_k 0)) (CoreError.validation "top_k must be greater than zero")
    _ ← ensure (not (exceeds top_k env.max_top_k)) (
        CoreError.validation (
          format (
            "top_k of "
            ∷ decimal top_k
            ∷ " exceeds the configured ceiling of "
            ∷ shown env.max_top_k
            ∷ [])))
    _ ← ensure (has_scope_id scope) scope_required
    ensure (not (is_negative threshold)) (
        CoreError.validation
          (format ("threshold must not be negative, got " ∷ shown_float threshold ∷ [])))

  abbrev pub passes_filters : Option (FilterExpr G) → Map String → Bool
  passes_filters none payload = true
  passes_filters (some f) payload = evaluate env.f64 env.to_lowercase f payload

  -- The `retain` calls of `search`.
  unfoldable pub visible :
      Bool → Option (FilterExpr G) → List (SearchResult F) → List (SearchResult F)
  visible show_expired filters results =
      retain (λ r. passes_filters filters r.payload)
        (retain (λ r. if show_expired then true else not (is_expired r.payload (today env)))
          (retain (λ r. not (is_entity_record r.payload)) results))

  abbrev pub keyword_pass :
      Option (List (SearchResult F)) → Bool → List (SearchResult F) → List (SearchResult F)
  keyword_pass none explain results = results
  keyword_pass (some []) explain results = results
  keyword_pass (some (k ∷ ks)) explain results =
      combine_with_keyword_scores env.f32 results (k ∷ ks) explain

  abbrev pub rerank_pass :
      Bool → String → List (SearchResult F) → Result CoreError (List (SearchResult F))
  rerank_pass false query results = ok results
  rerank_pass true query results = elim env.reranker [
    | none ↦ ok results
    | some rerank ↦ map_err from_rerank (rerank query results)
  ]

  unfoldable pub search :
      String
      → ℕ
      → Map String
      → Option F
      → Bool
      → Option (FilterExpr G)
      → Bool
      → Bool
      → S
      → Result CoreError (List (SearchResult F))
  unfolding check_search visible
  search query top_k scope threshold show_expired filters rerank explain s = do
    _ ← check_search top_k scope threshold rerank
    vector ← map_err from_embedding (env.embed query)
    let candidate_limit = search_candidate_limit top_k
    found ← map_err from_store (env.vector_store.search vector candidate_limit scope threshold s)
    let kept = visible show_expired filters found
    let detailed = if explain then map (start_details env.f32) kept else kept
    keywords ← map_err from_store (env.vector_store.keyword_search query candidate_limit scope s)
    let combined = keyword_pass keywords explain detailed
    boosted ← apply_entity_boost query scope combined explain s
    rerank_pass rerank query (take top_k boosted)
