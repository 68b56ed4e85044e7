-- ===== src/Memory/Visible.antt =====
-- What a caller of `search` (core/src/memory.rs) may see.
use memoria_mcp.Prelude.{
  ℕ, ◌≤◌, ◌≡◌, ap, String, Bool, true, false, not, Option, none, some, List, [], ◌∷◌, any, map,
  take, All, All-mono, All-take, All-retain, All-map, if◌then◌else◌, Result, ok, map_err,
  map_err-eq-ok, >>=-eq-ok, Bool-cases, Option-cases, inl, inr, arith, length, length-take, ◌==◌,
}
use memoria_mcp.Prelude.Sort.{sort_by, All-sort_by}
use memoria_mcp.Map.{Map}
use memoria_mcp.Float.{Float}
use memoria_mcp.Reranker.{Of, Reorders}
use memoria_mcp.Store.{SearchResult}
use memoria_mcp.Store.Contract.{Contract, IsMatch}
use memoria_mcp.Filter.{FilterExpr}
use memoria_mcp.Error.{RerankError, from_store, from_embedding, from_rerank}
use memoria_mcp.Entity.{extract_entities}
use memoria_mcp.Memory.{Env, is_entity_record, is_expired, today, search_candidate_limit}
use memoria_mcp.Memory.Search.{
  further, combine_one, combine_with_keyword_scores, boost_one, boosts_any, boosted_ids,
  start_details, apply_entity_boost, check_search, passes_filters, visible, keyword_pass,
  rerank_pass, search,
}

module _ {F : Type 0} (fl : Float F) (P : String → Map String → Type 0) where
  All-combine :
      (rs ks : List (SearchResult F)) (explain : Bool)
      → All (Of P) rs
      → All (Of P) (combine_with_keyword_scores fl rs ks explain)
  unfolding combine_with_keyword_scores combine_one
  All-combine rs ks explain h = All-sort_by (further fl) (Of P) _ (All-map (Of P) _ rs h)

  Of-boost_one :
      (boosted : List String) (explain : Bool) (r : SearchResult F)
      → Of P r
      → Of P (boost_one fl boosted explain r)
  unfolding boost_one
  Of-boost_one boosted explain r h = elim (Bool-cases (any (λ i. i == r.id) boosted)) [
    | inl e ↦ rw e h
    | inr e ↦ rw e h
  ]

  All-boost :
      (boosted : List String) (explain : Bool) (rs : List (SearchResult F))
      → All (Of P) rs
      → All (Of P) (sort_by (further fl) (map (boost_one fl boosted explain) rs))
  All-boost boosted explain rs h = All-sort_by (further fl) (Of P) _ (
      All-map (Of P) (boost_one fl boosted explain) rs
        (All-mono (Of P) _ rs (Of-boost_one boosted explain) h))

module _ {F G S : Type 0} (env : Env F G S) where
  -- A stored record of the scope, that is no entity record, has not expired (unless expired records
  -- were asked for) and passes the filters.
  abbrev pub IsVisible :
      Map String → Bool → Option (FilterExpr G) → S → String → Map String → Type 0
  IsVisible scope show_expired filters s id payload =
      IsMatch env.vector_store s scope
        (record { id = id; score = env.f32.literal 0 0; payload = payload; score_details = none })
      × (is_entity_record payload ≡ false)
      × (show_expired ≡ false → is_expired payload (today env) ≡ false)
      × (passes_filters env filters payload ≡ true)

  visible-IsVisible :
      (scope : Map String) (show_expired : Bool) (filters : Option (FilterExpr G)) (s : S)
      (rs : List (SearchResult F))
      → All (IsMatch env.vector_store s scope) rs
      → All (Of (IsVisible scope show_expired filters s)) (visible env show_expired filters rs)
  unfolding visible
  visible-IsVisible scope show_expired filters s rs h =
      All-mono _ _ _ (λ r k. (k.0.0.0, ground arith, λ e. ground arith, k.1))
        (All-retain _ (λ (r : SearchResult F). passes_filters env filters r.payload) _
          (All-retain _
            (λ (r : SearchResult F).
              if show_expired then true else not (is_expired r.payload (today env)))
            _ (All-retain _ (λ (r : SearchResult F). not (is_entity_record r.payload)) rs h)))

  module _ (P : String → Map String → Type 0) where
    All-keyword_pass :
        (keywords : Option (List (SearchResult F))) (explain : Bool) (rs : List (SearchResult F))
        → All (Of P) rs
        → All (Of P) (keyword_pass env keywords explain rs)
    All-keyword_pass none explain rs h = h
    All-keyword_pass (some []) explain rs h = h
    All-keyword_pass (some (k ∷ ks)) explain rs h = All-combine env.f32 P rs (k ∷ ks) explain h

    All-apply_entity_boost :
        (query : String) (scope : Map String) (rs : List (SearchResult F)) (explain : Bool) (s : S)
        (out : List (SearchResult F))
        → apply_entity_boost env query scope rs explain s ≡ ok out
        → All (Of P) rs
        → All (Of P) out
    unfolding apply_entity_boost
    All-apply_entity_boost query scope [] explain s out e h =
        let shown : [] ≡ out = cc in rw (← shown) tt
    All-apply_entity_boost query scope (r ∷ rs) explain s out e h =
        let (boosted, found, e') =
          >>=-eq-ok (boosted_ids env (extract_entities env.chars query) scope s) _ e in
        elim (Bool-cases (boosts_any env.f32 boosted (r ∷ rs))) [
          | inl b ↦
              let shown : sort_by (further env.f32)
                    (map (boost_one env.f32 boosted explain) (r ∷ rs))
                  ≡ out =
                ground (arith, b, e') in
              rw (← shown) (All-boost env.f32 P boosted explain (r ∷ rs) h)
          | inr b ↦ let shown : r ∷ rs ≡ out = ground (arith, b, e') in rw (← shown) h
        ]

    All-start :
        (explain : Bool) (rs : List (SearchResult F))
        → All (Of P) rs
        → All (Of P) (if explain then map (start_details env.f32) rs else rs)
    All-start true rs h = All-map (Of P) (start_details env.f32) rs h
    All-start false rs h = h

  All-rerank_pass :
      (P : String → Map String → Type 0)
      → ((rerank : String → List (SearchResult F) → Result RerankError (List (SearchResult F)))
          → env.reranker ≡ some rerank
          → Reorders rerank)
      → (wanted : Bool) (query : String) (rs out : List (SearchResult F))
      → rerank_pass env wanted query rs ≡ ok out
      → All (Of P) rs
      → All (Of P) out
  All-rerank_pass P reorders false query rs out e h = let shown : rs ≡ out = cc in rw (← shown) h
  All-rerank_pass P reorders true query rs out e h = elim (Option-cases env.reranker) [
    | inl absent ↦ let shown : rs ≡ out = ground (arith, absent, e) in rw (← shown) h
    | inr (rerank, present) ↦
        (reorders rerank present).keeps P query rs out
          (map_err-eq-ok from_rerank (rerank query rs) (rw present at e)) h
  ]

  length-rerank_pass :
      ((rerank : String → List (SearchResult F) → Result RerankError (List (SearchResult F)))
        → env.reranker ≡ some rerank
        → Reorders rerank)
      → (wanted : Bool) (query : String) (rs out : List (SearchResult F))
      → rerank_pass env wanted query rs ≡ ok out
      → length out ≡ length rs
  length-rerank_pass reorders false query rs out e = let shown : out ≡ rs = cc in ap length shown
  length-rerank_pass reorders true query rs out e = elim (Option-cases env.reranker) [
    | inl absent ↦ let shown : out ≡ rs = ground (arith, absent, e) in ap length shown
    | inr (rerank, present) ↦
        (reorders rerank present).same_length query rs out
          (map_err-eq-ok from_rerank (rerank query rs) (rw present at e))
  ]

  module _ (Holds Fits : S → Type 0) (contract : Contract env.vector_store Holds Fits)
      (reorders : (rerank : String
          → List (SearchResult F)
          → Result RerankError (List (SearchResult F)))
        → env.reranker ≡ some rerank
        → Reorders rerank) where
    -- Over any store that keeps the contract, with any reranker that only reorders and rescores: a
    -- search that succeeds returns at most `top_k` results, and each of them shows the id and payload
    -- of a stored record that matches the whole scope, is no entity record, has not expired unless
    -- expired records were asked for, and passes the filters.
    pub search-IsVisible :
        (query : String) (top_k : ℕ) (scope : Map String) (threshold : Option F)
        (show_expired : Bool) (filters : Option (FilterExpr G)) (rerank explain : Bool) (s : S)
        (out : List (SearchResult F))
        → Holds s
        → search env query top_k scope threshold show_expired filters rerank explain s ≡ ok out
        → All (Of (IsVisible scope show_expired filters s)) out × (length out ≤ top_k)
    unfolding search
    search-IsVisible query top_k scope threshold show_expired filters rerank explain s out h e =
        let P = IsVisible scope show_expired filters s in
        let (u, checked, e₁) = >>=-eq-ok (check_search env top_k scope threshold rerank) _ e in
        let (v, embedded, e₂) = >>=-eq-ok (map_err from_embedding (env.embed query)) _ e₁ in
        let limit = search_candidate_limit top_k in
        let (found, searched, e₃) =
          >>=-eq-ok (map_err from_store (env.vector_store.search v limit scope threshold s)) _ e₂ in
        let (keywords, read, e₄) =
          >>=-eq-ok (map_err from_store (env.vector_store.keyword_search query limit scope s)) _
            e₃ in
        let kept = visible env show_expired filters found in
        let detailed = if explain then map (start_details env.f32) kept else kept in
        let combined = keyword_pass env keywords explain detailed in
        let (boosted, pass, e₅) =
          >>=-eq-ok (apply_entity_boost env query scope combined explain s) _ e₄ in
        let stored : All (IsMatch env.vector_store s scope) found =
          contract.search_matches v limit scope threshold s found h
            (map_err-eq-ok from_store _ searched) in
        let all_boosted : All (Of P) boosted =
          All-apply_entity_boost P query scope combined explain s boosted pass (
            All-keyword_pass P keywords explain detailed (
              All-start P explain kept
                (visible-IsVisible scope show_expired filters s found stored))) in
        (
          All-rerank_pass P reorders rerank query (take top_k boosted) out e₅
              (All-take (Of P) top_k boosted all_boosted),
          omega (
            arith,
            length-rerank_pass reorders rerank query (take top_k boosted) out e₅,
            length-take top_k boosted,
          ),
        )
