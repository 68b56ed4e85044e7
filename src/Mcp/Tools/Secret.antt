-- ===== src/Mcp/Tools/Secret.antt =====
-- mcp/src/main.rs: what stands before the tools, the secret and the scope of a deletion.
use memoria_mcp.Prelude.{
  ℕ, ◌≡◌, refl, sym, ap, String, Bool, true, false, Option, none, some, List, All, is_some_and,
  if◌then◌else◌, ok, err, Bool-cases, inl, inr, arith, ◌==◌, eq_iff,
}
use memoria_mcp.Server.Bytes.{constant_time_eq, constant_time_eq_lem, IsByte}
use memoria_mcp.Snapshot.{Disk, Format}
use memoria_mcp.Mcp.Tools.{
  Server, State, Call, wrong_secret, check_secret, run_tool, persist_after_mutation,
}

bool_ext : (a b : Bool) → (a ≡ true → b ≡ true) → (b ≡ true → a ≡ true) → a ≡ b
bool_ext true b h k = sym (h refl)
bool_ext false b h k = ground (arith, k)

module _ (as_bytes : String → List ℕ)
    (as_bytes_inj : (s t : String) → as_bytes s ≡ as_bytes t → s ≡ t)
    (as_bytes-IsByte : (s : String) → All IsByte (as_bytes s)) where
  same_text : (s t : String) → constant_time_eq (as_bytes s) (as_bytes t) ≡ (s == t)
  same_text s t =
      let (there, back) =
        constant_time_eq_lem (as_bytes s) (as_bytes t) (as_bytes-IsByte s) (as_bytes-IsByte t) in
      bool_ext (constant_time_eq (as_bytes s) (as_bytes t)) (s == t)
        (λ e. (eq_iff s t).1 (as_bytes_inj s t (there e)))
        (λ e. back (ap as_bytes ((eq_iff s t).0 e)))

  check_secret_lem :
      (expected : String) (provided : Option String)
      → check_secret as_bytes (some expected) provided
        ≡ (if is_some_and provided (λ v. v == expected) then ok tt else err wrong_secret)
  unfolding check_secret
  check_secret_lem expected none = refl
  check_secret_lem expected (some v) =
      ap (λ b. if b then ok tt else err wrong_secret) (same_text v expected)

  module _ {F G N S D T : Type 0} (files : Disk D T) (serde : Format F T) where
    -- A secret that is configured guards every tool: a call with that very secret does what it does where none
    -- is configured, and any other call is refused before anything is read or changed. Of the
    -- encoding of texts as bytes: it is injective, and gives bytes.
    pub run_tool-guarded :
        (server : Server F G N S) (expected : String) (call : Call F) (provided : Option String)
        (st : State S D)
        → run_tool files serde as_bytes
            (record server { mcp_secret = some expected })
            call
            provided
            st
          ≡ (if is_some_and provided (λ v. v == expected)
              then run_tool files serde as_bytes
                  (record server { mcp_secret = none })
                  call
                  provided
                  st
              else (err wrong_secret, st))
    unfolding run_tool check_secret persist_after_mutation
    run_tool-guarded server expected call provided st =
        let checked = check_secret_lem expected provided in
        elim (Bool-cases (is_some_and provided (λ v. v == expected))) [
          | inl same ↦ rw (checked, same) refl
          | inr other ↦ rw (checked, other) refl
        ]
