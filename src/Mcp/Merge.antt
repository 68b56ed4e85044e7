-- ===== src/Mcp/Merge.antt =====
-- mcp/src/install.rs: the variables that an update takes over from the former entry.
use mathlib.Core.List.{append_assoc, append-nil}
use memoria_mcp.Prelude.{
  ◌≡◌, refl, sym, ap, ◌∙◌, subst, String, true, false, [], ◌∷◌, ◌++◌, Bool-cases, inl, inr, arith,
  eq_iff,
}
use memoria_mcp.Map.{Map, contains_key, insert}
use memoria_mcp.Filter.Parse.{Value, null, bool, number, string, array, object}
use memoria_mcp.Mcp.Json.{strings, merge_env}

-- The keys of `t` are new to `e`, and each stands once.
abbrev IsFresh : Map String → Map String → Type 0
IsFresh e [] = Unit
IsFresh e ((k, v) ∷ t) = (contains_key k e ≡ false) × IsFresh (e ++ (k, v) ∷ []) t

insert-new :
    (k v : String) (e : Map String) → contains_key k e ≡ false → insert k v e ≡ e ++ (k, v) ∷ []
unfolding insert contains_key
insert-new k v [] h = refl
insert-new k v ((j, w) ∷ e) h = ground (arith, insert-new k v e)

contains_key-middle : (k v : String) (e t : Map String) → contains_key k (e ++ (k, v) ∷ t) ≡ true
unfolding contains_key
contains_key-middle k v [] t = ground (arith, eq_iff k k)
contains_key-middle k v ((j, w) ∷ e) t = ground (arith, contains_key-middle k v e t)

merge_env-IsFresh :
    (N : Type 0) (t e : Map String) → IsFresh e t → merge_env (strings {N = N} t) e ≡ e ++ t
unfolding merge_env
merge_env-IsFresh N [] e h = sym (append-nil e)
merge_env-IsFresh N ((k, v) ∷ t) e h =
    rw (merge_env, h.0, insert-new k v e h.0)
      (merge_env-IsFresh N t (e ++ (k, v) ∷ []) h.1 ∙ append_assoc e ((k, v) ∷ []) t)

-- The given variables, merged into themselves after others, change nothing.
merge_env_known :
    (N : Type 0) (before x t : Map String)
    → merge_env (strings {N = N} (x ++ t)) (before ++ x)
      ≡ merge_env (strings {N = N} t) (before ++ x)
unfolding merge_env
merge_env_known N before [] t = refl
merge_env_known N before ((k, v) ∷ x) t =
    rw (merge_env, contains_key-middle k v before x)
      (subst (λ e. merge_env (strings {N = N} (x ++ t)) e ≡ merge_env (strings {N = N} t) e)
        (append_assoc before ((k, v) ∷ []) x) (merge_env_known N (before ++ (k, v) ∷ []) x t))

module _ {N : Type 0} where
  abbrev IsExtension : Map (Value N) → Map String → Type 0
  IsExtension old e = (t : Map String) × (merge_env old e ≡ e ++ t) × IsFresh e t

  -- A merge puts new variables behind the given ones.
  merge_env-eq-append : (old : Map (Value N)) (e : Map String) → IsExtension old e
  unfolding merge_env
  merge_env-eq-append [] e = ([], sym (append-nil e), tt)
  merge_env-eq-append ((k, string text) ∷ old) e = elim (Bool-cases (contains_key k e)) [
    | inl known ↦ rw known (merge_env-eq-append old e)
    | inr new ↦
        let (t, merged, fresh) = merge_env-eq-append old (e ++ (k, text) ∷ []) in
        (
          (k, text) ∷ t,
          rw (new, insert-new k text e new) (merged ∙ append_assoc e ((k, text) ∷ []) t),
          (new, fresh),
        )
  ]
  merge_env-eq-append ((k, null) ∷ old) e = merge_env-eq-append old e
  merge_env-eq-append ((k, bool b) ∷ old) e = merge_env-eq-append old e
  merge_env-eq-append ((k, number n) ∷ old) e = merge_env-eq-append old e
  merge_env-eq-append ((k, array vs) ∷ old) e = merge_env-eq-append old e
  merge_env-eq-append ((k, object fs) ∷ old) e = merge_env-eq-append old e

  pub merge_env_twice :
      (old : Map (Value N)) (e : Map String)
      → merge_env (strings {N = N} (merge_env old e)) e ≡ merge_env old e
  merge_env_twice old e =
      let (t, merged, fresh) = merge_env-eq-append old e in
      ap (λ x. merge_env (strings {N = N} x) e) merged
      ∙ merge_env_known N [] e t
      ∙ merge_env-IsFresh N t e fresh
      ∙ sym merged
