-- ===== src/Memory/Update.antt =====
-- core/src/memory.rs: what `update` changes, and what it refuses.
use memoria_mcp.Prelude.{
  ◌⊎◌, ◌||◌, Bool, List, ◌≡◌, ap, ◌∙◌, refl, sym, subst, String, true, false, Option, none, some,
  [], ◌∷◌, any, if◌then◌else◌, Result, ok, err, map_err-eq-ok, Bool-cases, Option-cases,
  Result-cases, inl, inr, arith, ◌==◌, eq_iff, format,
}
use memoria_mcp.Prelude.Exec.{>>=-eq-ok, lift}
use memoria_mcp.Map
use memoria_mcp.Map.{Map, keys, contains_key}
use memoria_mcp.Map.Laws.{get-insert}
use memoria_mcp.Store.{VectorRecord}
use memoria_mcp.Store.Contract.{Contract}
use memoria_mcp.Error.{CoreError, from_store}
use memoria_mcp.Memory.{World, Env, is_scope_field, store_read, store_write}
use memoria_mcp.Memory.Records.{changes_scope, extend_payload, set_content, set_metadata, update}

-- Metadata without scope fields leaves the scope fields alone.
get-extend_payload :
    (metadata payload : Map String) (k : String)
    → any is_scope_field (keys metadata) ≡ false
    → is_scope_field k ≡ true
    → Map.get k (extend_payload metadata payload) ≡ Map.get k payload
unfolding extend_payload
get-extend_payload [] payload k h s = refl
get-extend_payload ((j, v) ∷ metadata) payload k h s = ground (
  arith,
  get-extend_payload metadata (Map.insert j v payload) k,
  get-insert j k v payload,
  eq_iff j k,
)

content_ne : (k : String) → is_scope_field k ≡ true → ("content" == k) ≡ false
content_ne k h = elim (Bool-cases ("content" == k)) [
  | inl e ↦ absurd (cc (subst (λ x. is_scope_field x ≡ true) (sym ((eq_iff "content" k).0 e)) h))
  | inr f ↦ f
]

-- The metadata has a value for a field of the scope.
abbrev pub touches_scope : Option (Map String) → Bool
touches_scope none = false
touches_scope (some m) =
    contains_key "user_id" m || (contains_key "agent_id" m || contains_key "run_id" m)

scope_keys : (m : Map String) → any is_scope_field (keys m) ≡ touches_scope (some m)
unfolding contains_key
scope_keys [] = refl
scope_keys ((k, v) ∷ m) = ground (arith, scope_keys m)

abbrev pub or_else : Option String → Option String → Option String
or_else (some v) later = some v
or_else none later = later

-- The last value of a list of entries under a key.
abbrev pub last_in : String → Map String → Option String
last_in k [] = none
last_in k ((j, v) ∷ m) = or_else (last_in k m) (if j == k then some v else none)

abbrev pub named_in : String → Option (Map String) → Option String
named_in k none = none
named_in k (some m) = last_in k m

abbrev pub content_at : String → Option String → Option String
content_at k none = none
content_at k (some c) = if "content" == k then some c else none

last-extend_payload :
    (metadata payload : Map String) (k : String)
    → Map.get k (extend_payload metadata payload) ≡ or_else (last_in k metadata) (Map.get k payload)
unfolding extend_payload
last-extend_payload [] payload k = refl
last-extend_payload ((j, v) ∷ metadata) payload k =
    last-extend_payload metadata (Map.insert j v payload) k
    ∙ ap (or_else (last_in k metadata)) (get-insert j k v payload)
    ∙ chained (last_in k metadata) (j == k)
  where
    chained :
        (o : Option String) (b : Bool)
        → or_else o (if b then some v else Map.get k payload)
          ≡ or_else (or_else o (if b then some v else none)) (Map.get k payload)
    chained (some x) b = refl
    chained none true = refl
    chained none false = refl

module _ {F G S : Type 0} (env : Env F G S) where
  abbrev pub HasVector : Option String → List F → List F → Type 0
  HasVector none old new = new ≡ old
  HasVector (some c) old new = env.embed c ≡ ok new

  -- The record with the new content and its vector, and then with every entry of the metadata.
  pub record IsUpdated (content : Option String) (metadata : Option (Map String))
      (old new : VectorRecord F) : Type 0 where
    pub id : new.id ≡ old.id
    pub vector : HasVector content old.vector new.vector
    pub payload :
        (k : String)
        → Map.get k new.payload
          ≡ or_else (named_in k metadata) (or_else (content_at k content) (Map.get k old.payload))

  the_record :
      (a b : VectorRecord F) → ◌≡◌ {A = Result CoreError (VectorRecord F)} (ok a) (ok b) → a ≡ b
  the_record a b e = cc

  placed :
      (b : Bool) (c : String) (o : Option String)
      → (if b then some c else o) ≡ or_else (if b then some c else none) o
  placed true c o = refl
  placed false c o = refl

  set_content-vector :
      (content : Option String) (r r' : VectorRecord F)
      → set_content env content r ≡ ok r'
      → HasVector content r.vector r'.vector
        × ((k : String)
            → Map.get k r'.payload ≡ or_else (content_at k content) (Map.get k r.payload))
  unfolding set_content
  set_content-vector none r r' e =
      let same : r ≡ r' = the_record r r' e in
      (
        ap (λ (x : VectorRecord F). x.vector) (sym same),
        λ k. ap (λ (x : VectorRecord F). Map.get k x.payload) (sym same),
      )
  set_content-vector (some c) r r' e = elim (Result-cases (env.embed c)) [
    | inr (error, failed) ↦ absurd (cc (rw (set_content, failed) at e))
    | inl (vector, embedded) ↦
        let same : record r { vector = vector; payload = Map.insert "content" c r.payload } ≡ r' =
          the_record _ r' (rw (set_content, embedded) at e) in
        (
          embedded ∙ ap (λ (x : VectorRecord F). ok x.vector) same,
          λ k.
              ap (λ (x : VectorRecord F). Map.get k x.payload) (sym same)
              ∙ get-insert "content" k c r.payload
              ∙ placed ("content" == k) c (Map.get k r.payload),
        )
  ]

  get-set_content :
      (content : Option String) (r r' : VectorRecord F) (k : String)
      → set_content env content r ≡ ok r'
      → is_scope_field k ≡ true
      → Map.get k r'.payload ≡ Map.get k r.payload
  unfolding set_content
  get-set_content none r r' k h s = ground arith
  get-set_content (some c) r r' k h s =
      ground (arith, get-insert "content" k c r.payload, content_ne k s)

  get-set_metadata :
      (metadata : Option (Map String)) (r : VectorRecord F) (k : String)
      → changes_scope env metadata ≡ false
      → is_scope_field k ≡ true
      → Map.get k (set_metadata env metadata r).payload ≡ Map.get k r.payload
  unfolding set_metadata
  get-set_metadata none r k h s = refl
  get-set_metadata (some m) r k h s = get-extend_payload m r.payload k h s

  set_metadata-payload :
      (metadata : Option (Map String)) (r : VectorRecord F)
      → ((set_metadata env metadata r).vector ≡ r.vector)
        × ((k : String)
            → Map.get k (set_metadata env metadata r).payload
              ≡ or_else (named_in k metadata) (Map.get k r.payload))
  unfolding set_metadata
  set_metadata-payload none r = (refl, λ k. refl)
  set_metadata-payload (some m) r = (refl, λ k. last-extend_payload m r.payload k)

  id-set_content :
      (content : Option String) (r r' : VectorRecord F)
      → set_content env content r ≡ ok r'
      → r'.id ≡ r.id
  unfolding set_content
  id-set_content none r r' h = ground arith
  id-set_content (some c) r r' h = ground arith

  id-set_metadata :
      (metadata : Option (Map String)) (r : VectorRecord F)
      → (set_metadata env metadata r).id ≡ r.id
  unfolding set_metadata
  id-set_metadata none r = refl
  id-set_metadata (some m) r = refl

  changes_scope-eq-touches :
      (metadata : Option (Map String)) → changes_scope env metadata ≡ touches_scope metadata
  changes_scope-eq-touches none = refl
  changes_scope-eq-touches (some m) = scope_keys m

  -- An update whose metadata has a value for `user_id`, `agent_id` or `run_id` is refused as invalid, whether
  -- the record is there or not; any other update of an id without a record is `NotFound`. Nothing changes.
  pub update_refused :
      (id : String) (content : Option String) (metadata : Option (Map String)) (w : World S)
      → (touches_scope metadata ≡ true) ⊎ (env.vector_store.get id w.store ≡ ok none)
      → update env id content metadata w ≡ (
          if touches_scope metadata
          then (
            err (
                CoreError.validation
                  "metadata update must not change scope fields (user_id, agent_id, run_id)"),
            w,
          )
          else (err (CoreError.not_found (format ("record " ∷ id ∷ " not found" ∷ []))), w))
  unfolding update store_read
  update_refused id content metadata w h =
      let same = changes_scope-eq-touches metadata in
      elim (Bool-cases (touches_scope metadata)) [
        | inl named ↦ rw (same, named)
        | inr clean ↦ elim h [
          | inl named ↦ absurd (ground (arith, named, clean))
          | inr absent ↦ rw (same, clean, absent)
        ]
      ]

  -- The steps of an update that succeeds.
  update-eq-ok :
      (id : String) (content : Option String) (metadata : Option (Map String)) (w w' : World S)
      → update env id content metadata w ≡ (ok tt, w')
      → (r r' : VectorRecord F) × (changes_scope env metadata ≡ false)
        × (env.vector_store.get id w.store ≡ ok (some r))
        × (set_content env content r ≡ ok r')
        × ((env.vector_store.update (set_metadata env metadata r') w.store).0 ≡ ok tt)
        × (w' ≡ record w {
          store = (env.vector_store.update (set_metadata env metadata r') w.store).1;
        })
  unfolding update store_read store_write
  update-eq-ok id content metadata w w' e = elim (Bool-cases (changes_scope env metadata)) [
    | inl refused ↦
        absurd (cc (ap (λ (t : Result CoreError (Unit {0}) × World S). t.0) (rw refused at e)))
    | inr clean ↦
        let (found, got, e₁) =
          >>=-eq-ok (store_read (env.vector_store.get id)) _ w (rw clean at e) in
        let read : env.vector_store.get id w.store ≡ ok found = map_err-eq-ok from_store _ got in
        elim (Option-cases found) [
          | inl absent ↦
              absurd
                (cc (ap (λ (t : Result CoreError (Unit {0}) × World S). t.0) (rw absent at e₁)))
          | inr (r, present) ↦
              let (r', set, e₂) =
                >>=-eq-ok (lift (set_content env content r)) _ w (rw present at e₁) in
              (
                r,
                r',
                clean,
                read ∙ ap ok present,
                set,
                map_err-eq-ok from_store _
                    (ap (λ (t : Result CoreError (Unit {0}) × World S). t.0) e₂),
                sym (ap (λ (t : Result CoreError (Unit {0}) × World S). t.1) e₂),
              )
        ]
  ]

  module _ (Holds Fits : S → Type 0) (contract : Contract env.vector_store Holds Fits) where
    -- An update that succeeds found a record under its id, and stores under the same id that record, with
    -- the embedding of the new content as its vector, the content in its payload, and then every entry of the
    -- metadata; what neither names stays. It never changes `user_id`, `agent_id` or `run_id` of the
    -- record, no other record, no history, and it keeps the store's invariant.
    pub update_lem :
        (id : String) (content : Option String) (metadata : Option (Map String)) (w w' : World S)
        → Holds w.store
        → update env id content metadata w ≡ (ok tt, w')
        → (old new : VectorRecord F) × (env.vector_store.get id w.store ≡ ok (some old))
          × IsUpdated content metadata old new
          × ((j : String)
              → env.vector_store.get j w'.store
                ≡ (if id == j then ok (some new) else env.vector_store.get j w.store))
          × ((k : String) → is_scope_field k ≡ true → Map.get k new.payload ≡ Map.get k old.payload)
          × (w'.history ≡ w.history)
          × Holds w'.store
    unfolding set_metadata
    update_lem id content metadata w w' h e =
        let (r, r', clean, read, set, done, shown) = update-eq-ok id content metadata w w' e in
        let new = set_metadata env metadata r' in
        let same_id : new.id ≡ r.id =
          id-set_metadata metadata r' ∙ id-set_content content r r' set in
        let own : new.id ≡ id = same_id ∙ contract.get_own_id w.store id r h read in
        let stored : w'.store ≡ (env.vector_store.update new w.store).1 =
          ap (λ (x : World S). x.store) shown in
        let (embedded, placed) = set_content-vector content r r' set in
        let (same_vector, named) = set_metadata-payload metadata r' in
        (
          r,
          new,
          read,
          record {
            id = same_id;
            vector = subst (HasVector content r.vector) (sym same_vector) embedded;
            payload = λ k. named k ∙ ap (or_else (named_in k metadata)) (placed k);
          },
          (λ j.
              ap (env.vector_store.get j) stored
              ∙ rw own at (contract.get-update new w.store j h done)),
          (λ k s. get-set_metadata metadata r' k clean s ∙ get-set_content content r r' k set s),
          ap (λ (x : World S). x.history) shown,
          subst Holds (sym stored) (contract.update-Holds new w.store h),
        )
