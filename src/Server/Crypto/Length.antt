-- ===== src/Server/Crypto/Length.antt =====
-- server/src/crypto.rs: the loop of `pbkdf2_hmac_sha256` ends with the bytes that were asked for.
use Prim.Native.Nat.{min}
use memoria_mcp.Prelude.{
  ℕ, zero, suc, ◌+◌, ◌-◌, ◌≤◌, ◌≡◌, refl, ◌∙◌, List, [], ◌∷◌, ◌++◌, length, take, ltb, Bool-cases,
  inl, inr, arith, length-append, length-take,
}
use memoria_mcp.Server.Crypto.{
  Primitives, to_be_bytes, xor_into, pbkdf2_rounds, pbkdf2_block, pbkdf2_from, pbkdf2_hmac_sha256,
}

length-xor_into : (result next : List ℕ) → length (xor_into result next) ≡ length result
unfolding xor_into
length-xor_into [] next = refl
length-xor_into (r ∷ rs) [] = refl
length-xor_into (r ∷ rs) (b ∷ bs) = ground (arith, length-xor_into rs bs)

module _ (crypto : Primitives)
    (digest : (key text : List ℕ) → length (crypto.hmac_sha256 key text) ≡ 32) where
  length-pbkdf2_rounds :
      (n : ℕ) (password result previous : List ℕ)
      → length (pbkdf2_rounds crypto n password result previous) ≡ length result
  unfolding pbkdf2_rounds
  length-pbkdf2_rounds zero password result previous = refl
  length-pbkdf2_rounds (suc n) password result previous =
      let next = crypto.hmac_sha256 password previous in
      length-pbkdf2_rounds n password (xor_into result next) next ∙ length-xor_into result next

  length-pbkdf2_block :
      (password salt : List ℕ) (iterations index : ℕ)
      → length (pbkdf2_block crypto password salt iterations index) ≡ 32
  unfolding pbkdf2_block
  length-pbkdf2_block password salt iterations index =
      length-pbkdf2_rounds (iterations - 1) password _ _
      ∙ digest password (salt ++ to_be_bytes index)

  length-pbkdf2_from :
      (fuel : ℕ) (password salt : List ℕ) (iterations output_len index : ℕ) (output : List ℕ)
      → length output ≤ output_len
      → output_len ≤ length output + fuel
      → length (pbkdf2_from crypto fuel password salt iterations output_len index output)
        ≡ output_len
  unfolding pbkdf2_from
  length-pbkdf2_from zero password salt iterations output_len index output h k = omega arith
  length-pbkdf2_from (suc fuel) password salt iterations output_len index output h k =
      let block = pbkdf2_block crypto password salt iterations index in
      let taken = min (output_len - length output) 32 in
      let size : length (take taken block) ≡ taken =
        omega
          (arith, length-take taken block, length-pbkdf2_block password salt iterations index) in
      let longer = length-append output (take taken block) in
      elim (Bool-cases (ltb (length output) output_len)) [
        | inl short ↦ rw short (
            length-pbkdf2_from fuel password salt iterations output_len (index + 1)
              (output ++ take taken block) (omega (arith, size, longer))
              (ground (arith, size, longer)))
        | inr full ↦ rw full (ground arith)
      ]

  -- Whatever the password, the salt and the number of rounds, the derived key has exactly the length that was
  -- asked for: the loop runs as often as it must, and the bytes wanted are fuel enough. HMAC-SHA256 gives 32 bytes.
  pub length-pbkdf2_hmac_sha256 :
      (password salt : List ℕ) (iterations output_len : ℕ)
      → length (pbkdf2_hmac_sha256 crypto password salt iterations output_len) ≡ output_len
  unfolding pbkdf2_hmac_sha256
  length-pbkdf2_hmac_sha256 password salt iterations output_len =
      length-pbkdf2_from output_len password salt iterations output_len 1 [] (omega arith)
        (omega arith)
