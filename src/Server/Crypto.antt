-- ===== src/Server/Crypto.antt =====
-- server/src/crypto.rs: digests as text, PBKDF2, the stored passwords and the bearer tokens. The hash
-- functions, base64, argon2 and the token format are packages: they are the fields of `Primitives`.
pub mod Length
use memoria_mcp.Prelude.{
  ℕ, zero, suc, ◌+◌, ◌-◌, ◌/◌, ◌%◌, ◌^◌, String, Bool, false, Option, none, some, List, [], ◌∷◌,
  ◌++◌, take, length, ltb, eqb, if◌then◌else◌, Result, ok, err, ◌==◌, format,
}
use memoria_mcp.Prelude.Text.{split, is_char}
use Prim.Native.Nat.{min}
use memoria_mcp.Server.Ascii.{parse_unsigned, strip_prefix}
use memoria_mcp.Server.Bytes.{bit_xor, constant_time_eq}

pub data JwtError : Type 0 where
  malformed unsupported_algorithm bad_signature expired : JwtError

-- The kinds of error of `jsonwebtoken` that `map_jwt_error` tells apart.
pub data TokenErrorKind : Type 0 where
  invalid_signature invalid_algorithm json other : TokenErrorKind

-- What a decoded token holds, as far as the service reads it: `sub`, and `exp` where it is a number.
pub record Claims : Type 0 where
  pub sub : Option String
  pub role : Option String
  pub iat : Option ℕ
  pub exp : Option ℕ

pub record Primitives : Type 0 where
  pub as_bytes : String → List ℕ
  pub sha256 : List ℕ → List ℕ
  pub hmac_sha256 : List ℕ → List ℕ → List ℕ
  pub base64_decode : String → Option (List ℕ)
  -- The n-th value drawn from the system's random source, as text.
  pub random_key : ℕ → ℕ → String
  -- A password's argon2 hash with the n-th salt drawn, and the check of a stored one: none if it does
  -- not parse.
  pub argon2_hash : ℕ → String → String
  pub argon2_verify : String → String → Option Bool
  pub jwt_encode : Claims → List ℕ → String
  pub jwt_decode : String → List ℕ → Result TokenErrorKind Claims

hex_digit : ℕ → String
hex_digit n =
    if eqb n 0
    then "0"
    else if eqb n 1
    then "1"
    else if eqb n 2
    then "2"
    else if eqb n 3
    then "3"
    else if eqb n 4
    then "4"
    else if eqb n 5
    then "5"
    else if eqb n 6
    then "6"
    else if eqb n 7
    then "7"
    else if eqb n 8
    then "8"
    else if eqb n 9
    then "9"
    else if eqb n 10
    then "a"
    else if eqb n 11
    then "b"
    else if eqb n 12
    then "c"
    else if eqb n 13
    then "d"
    else if eqb n 14
    then "e"
    else "f"

unfoldable pub hex : List ℕ → String
unfolding hex_digit
hex [] = ""
hex (b ∷ bs) = format (hex_digit (b / 16) ∷ hex_digit (b % 16) ∷ hex bs ∷ [])

-- `u32::to_be_bytes`
abbrev pub to_be_bytes : ℕ → List ℕ
to_be_bytes n = n / 2 ^ 24 % 256 ∷ n / 2 ^ 16 % 256 ∷ n / 2 ^ 8 % 256 ∷ n % 256 ∷ []

-- `for (r, b) in result.iter_mut().zip(next)`
unfoldable pub xor_into : List ℕ → List ℕ → List ℕ
xor_into [] next = []
xor_into (r ∷ rs) [] = r ∷ rs
xor_into (r ∷ rs) (b ∷ bs) = bit_xor 8 r b ∷ xor_into rs bs

module _ (crypto : Primitives) where
  unfoldable pub sha256_hex : List ℕ → String
  sha256_hex input = hex (crypto.sha256 input)

  -- The rounds after the first.
  unfoldable pub pbkdf2_rounds : ℕ → List ℕ → List ℕ → List ℕ → List ℕ
  pbkdf2_rounds zero password result previous = result
  pbkdf2_rounds (suc n) password result previous =
      let next = crypto.hmac_sha256 password previous in
      pbkdf2_rounds n password (xor_into result next) next

  unfoldable pub pbkdf2_block : List ℕ → List ℕ → ℕ → ℕ → List ℕ
  unfolding pbkdf2_rounds
  pbkdf2_block password salt iterations block_index =
      let result = crypto.hmac_sha256 password (salt ++ to_be_bytes block_index) in
      pbkdf2_rounds (iterations - 1) password result result

  -- `while output.len() < output_len`: the fuel bounds the number of blocks.
  unfoldable pub pbkdf2_from : ℕ → List ℕ → List ℕ → ℕ → ℕ → ℕ → List ℕ → List ℕ
  pbkdf2_from zero password salt iterations output_len block_index output = output
  pbkdf2_from (suc fuel) password salt iterations output_len block_index output =
      let block = pbkdf2_block password salt iterations block_index in
      let taken = min (output_len - length output) 32 in
      let more =
        pbkdf2_from fuel password salt iterations output_len (block_index + 1)
          (output ++ take taken block) in
      if ltb (length output) output_len then more else output

  -- A block is 32 bytes, so there are no more rounds than bytes.
  unfoldable pub pbkdf2_hmac_sha256 : List ℕ → List ℕ → ℕ → ℕ → List ℕ
  unfolding pbkdf2_from
  pbkdf2_hmac_sha256 password salt iterations output_len =
      pbkdf2_from output_len password salt iterations output_len 1 []

  abbrev u32_max : ℕ
  u32_max = 2 ^ 32 - 1

  check_legacy : String → List String → Bool
  check_legacy password (scheme ∷ iterations_str ∷ salt_b64 ∷ hash_b64 ∷ []) =
      if scheme == "pbkdf2-sha256"
      then elim (parse_unsigned u32_max iterations_str) [
        | none ↦ false
        | some iterations ↦ elim (crypto.base64_decode salt_b64) [
          | none ↦ false
          | some salt ↦ elim (crypto.base64_decode hash_b64) [
            | none ↦ false
            | some expected_hash ↦
                constant_time_eq
                  (pbkdf2_hmac_sha256 (crypto.as_bytes password) salt iterations
                    (length expected_hash))
                  expected_hash
          ]
        ]
      ]
      else false
  check_legacy password _ = false

  unfoldable pub verify_legacy_pbkdf2_password : String → String → Bool
  unfolding check_legacy
  verify_legacy_pbkdf2_password password stored = check_legacy password (split (is_char 36) stored)

  unfoldable pub verify_password : String → String → Bool
  verify_password password stored = elim (strip_prefix "pbkdf2-sha256$" stored) [
    | some _ ↦ verify_legacy_pbkdf2_password password stored
    | none ↦ elim (crypto.argon2_verify password stored) [ none ↦ false | some valid ↦ valid ]
  ]

  unfoldable pub decode_jwt : String → List ℕ → ℕ → Result JwtError Claims
  decode_jwt token secret now_unix = elim (crypto.jwt_decode token secret) [
    | err kind ↦ elim kind [
      | invalid_signature ↦ err bad_signature
      | invalid_algorithm ↦ err unsupported_algorithm
      | json ↦ err unsupported_algorithm
      | other ↦ err malformed
    ]
    | ok claims ↦ elim claims.exp [
      | none ↦ ok claims
      | some exp ↦ if ltb exp now_unix then err expired else ok claims
    ]
  ]
