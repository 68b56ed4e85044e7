-- ===== src/Server/RequestLog.antt =====
-- server/src/request_log.rs: the log of requests, which keeps the last 1000.
use Prim.Native.String.{String}
use text.Mathlib.Text.{starts_with}
use memoria_mcp.Prelude.{
  ℕ, zero, suc, ◌+◌, ◌-◌, ◌≤◌, ◌≡◌, refl, sym, ap, ◌∙◌, false, ◌&&◌, List, [], ◌∷◌, ◌++◌, length,
  drop, any, ltb, if◌then◌else◌, arith, length-append, length-drop, Bool-cases, inl, inr,
}
use mathlib.Core.List.{append_assoc, append-nil}
use memoria_mcp.Server.Ascii.{eq_ignore_ascii_case}

pub record RequestLogEntry : Type 0 where
  pub method : String
  pub path : String
  pub status : ℕ
  pub latency_ms : ℕ
  pub auth_kind : String
  pub created_at : ℕ

abbrev pub max_entries : ℕ
max_entries = 1000

abbrev pub Log : Type 0
Log = List RequestLogEntry

unfoldable pub append : RequestLogEntry → Log → Log
append entry entries =
    let pushed = entries ++ entry ∷ [] in
    if ltb max_entries (length pushed) then drop (length pushed - max_entries) pushed else pushed

unfoldable pub classify_auth_kind : List (String × String) → String
classify_auth_kind headers =
    if any (λ h. eq_ignore_ascii_case h.0 "authorization" && starts_with h.1 "Bearer ") headers
    then "bearer"
    else if any (λ h. eq_ignore_ascii_case h.0 "x-api-key") headers
    then "api_key"
    else "none"

-- A run of the service: the entries are appended one after the other.
abbrev pub append_all : List RequestLogEntry → Log → Log
append_all [] log = log
append_all (e ∷ es) log = append_all es (append e log)

-- The last `max_entries` of a list.
abbrev pub latest : List RequestLogEntry → Log
latest es = drop (length es - max_entries) es

drop-append {ℓ} :
    {A : Type ℓ} (n : ℕ) (xs ys : List A) → n ≤ length xs → drop n (xs ++ ys) ≡ drop n xs ++ ys
drop-append zero xs ys h = refl
drop-append (suc n) [] ys h = absurd (omega arith)
drop-append (suc n) (x ∷ xs) ys h = drop-append n xs ys (omega arith)

drop-nil {ℓ} : {A : Type ℓ} (n : ℕ) → drop {A = A} n [] ≡ []
drop-nil zero = refl
drop-nil (suc n) = refl

drop-drop {ℓ} : {A : Type ℓ} (m n : ℕ) (xs : List A) → drop m (drop n xs) ≡ drop (n + m) xs
drop-drop m n [] = ap (drop m) (drop-nil n) ∙ drop-nil m ∙ sym (drop-nil (n + m))
drop-drop m zero (x ∷ xs) = ap (λ k. drop k (x ∷ xs)) (omega arith)
drop-drop m (suc n) (x ∷ xs) =
    drop-drop m n xs ∙ ap (λ k. drop k (x ∷ xs)) {x = suc (n + m)} (omega arith)

append-eq-latest :
    (e : RequestLogEntry) (es : List RequestLogEntry) → append e es ≡ latest (es ++ e ∷ [])
unfolding append
append-eq-latest e es = elim (Bool-cases (ltb max_entries (length (es ++ e ∷ [])))) [
  | inl full ↦ rw full refl
  | inr room ↦ rw room (ap (λ k. drop k (es ++ e ∷ [])) (sym (keeps_all room)))
]
  where
    keeps_all :
        ltb max_entries (length (es ++ e ∷ [])) ≡ false → length (es ++ e ∷ []) - max_entries ≡ 0
    keeps_all room = ground arith

append-latest :
    (e : RequestLogEntry) (es : List RequestLogEntry) → append e (latest es) ≡ latest (es ++ e ∷ [])
append-latest e es =
    let all = es ++ e ∷ [] in
    let k = length es - max_entries in
    let size : length all ≡ length es + 1 = length-append es (e ∷ []) in
    append-eq-latest e (latest es)
    ∙ ap latest (sym (drop-append k es (e ∷ []) (omega arith)))
    ∙ drop-drop (length (drop k all) - max_entries) k all
    ∙ ap (λ n. drop n all) (omega (arith, size, length-drop k all))

append_all-latest :
    (es before : List RequestLogEntry) → append_all es (latest before) ≡ latest (before ++ es)
append_all-latest [] before = ap latest (sym (append-nil before))
append_all-latest (e ∷ es) before =
    ap (append_all es) (append-latest e before)
    ∙ append_all-latest es (before ++ e ∷ [])
    ∙ ap latest (append_assoc before (e ∷ []) es)

-- However many requests were logged, the log holds the last 1000 of them in their order, or all of them
-- while there are fewer, and never more.
pub append_all_lem :
    (es : List RequestLogEntry)
    → (append_all es [] ≡ latest es) × (length (append_all es []) ≤ max_entries)
append_all_lem es =
    let whole : append_all es [] ≡ latest es = append_all-latest es [] in
    (whole, omega (arith, ap length whole, length-drop (length es - max_entries) es))

pub length-append-le : (e : RequestLogEntry) (es : Log) → length (append e es) ≤ max_entries
length-append-le e es = omega (
  arith,
  ap length (append-eq-latest e es),
  length-drop (length (es ++ e ∷ []) - max_entries) (es ++ e ∷ []),
)
