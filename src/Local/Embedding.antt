-- ===== src/Local/Embedding.antt =====
-- core/src/embedding.rs: `LocalHashEmbeddingProvider`, with the wrap-around of `u32` and `u8` written out.
use memoria_mcp.Prelude.{
  ℕ, zero, suc, ◌+◌, ◌*◌, ◌%◌, ◌^◌, ◌≤◌, ◌<◌, ◌≡◌, refl, ap, ◌∙◌, String, List, [], ◌∷◌, map, All,
  length, if◌then◌else◌, Result, ok, err, arith,
}
use memoria_mcp.Prelude.Text.{is_empty}
use memoria_mcp.Llm.{EmbeddingError, empty_input}

abbrev modulus : ℕ
modulus = 1000003

abbrev u32_mod : ℕ
u32_mod = 2 ^ 32

abbrev weight : ℕ → ℕ
weight idx = idx % 8 + 1

-- The loop over the bytes, from the accumulator and the index.
unfoldable pub hash_from : ℕ → ℕ → List ℕ → ℕ
hash_from acc idx [] = acc
hash_from acc idx (b ∷ bytes) =
    hash_from ((acc * (b + 1) % u32_mod + weight idx) % u32_mod % modulus) ((idx + 1) % 2 ^ 8) bytes

-- The same hash in unbounded arithmetic.
abbrev exact_from : ℕ → ℕ → List ℕ → ℕ
exact_from acc idx [] = acc
exact_from acc idx (b ∷ bytes) =
    exact_from ((acc * (b + 1) + weight idx) % modulus) ((idx + 1) % 2 ^ 8) bytes

-- `for d in 0..DIM`
unfoldable pub hashes : ℕ → ℕ → List ℕ → List ℕ
hashes zero d bytes = []
hashes (suc n) d bytes = hash_from d 0 bytes ∷ hashes n (d + 1) bytes

module _ {F : Type 0} (as_bytes : String → List ℕ) (as_f32 : ℕ → F) where
  unfoldable pub embed : String → Result EmbeddingError (List F)
  unfolding hashes hash_from
  embed text =
      if is_empty text then err empty_input else ok (map as_f32 (hashes 8 0 (as_bytes text)))

product-le : (acc b : ℕ) → acc < modulus → b < 256 → acc * (b + 1) ≤ 1000002 * 256
product-le acc b h k = grind arith

hash_from_lem :
    (acc idx : ℕ) (bytes : List ℕ)
    → acc < modulus
    → All (λ b. b < 256) bytes
    → (hash_from acc idx bytes ≡ exact_from acc idx bytes) × (hash_from acc idx bytes < modulus)
unfolding hash_from
hash_from_lem acc idx [] h bs = (refl, h)
hash_from_lem acc idx (b ∷ bytes) h bs =
    let small = product-le acc b h bs.0 in
    let same : (acc * (b + 1) % u32_mod + weight idx) % u32_mod % modulus
        ≡ (acc * (b + 1) + weight idx) % modulus =
      no_wrap (acc * (b + 1)) idx small in
    let (rest, low) =
      hash_from_lem ((acc * (b + 1) % u32_mod + weight idx) % u32_mod % modulus) ((idx + 1) % 2 ^ 8)
        bytes (omega arith) bs.1 in
    (rest ∙ ap (λ a. exact_from a ((idx + 1) % 2 ^ 8) bytes) same, low)
  where
    no_wrap :
        (p i : ℕ)
        → p ≤ 1000002 * 256
        → (p % u32_mod + weight i) % u32_mod % modulus ≡ (p + weight i) % modulus
    no_wrap p i h = omega arith

abbrev pub exact : ℕ → ℕ → List ℕ → List ℕ
exact zero d bytes = []
exact (suc n) d bytes = exact_from d 0 bytes ∷ exact n (d + 1) bytes

-- On bytes, the hash of a text never wraps: its eight numbers are those of unbounded arithmetic. Each is
-- below 1,000,003, so below 2 ^ 24, up to which `f32` holds every whole number.
pub hashes-exact :
    (n d : ℕ) (bytes : List ℕ)
    → d + n ≤ 8
    → All (λ b. b < 256) bytes
    → (hashes n d bytes ≡ exact n d bytes)
      × All (λ h. h < 2 ^ 24) (hashes n d bytes)
      × (length (hashes n d bytes) ≡ n)
unfolding hashes
hashes-exact zero d bytes h bs = (refl, tt, refl)
hashes-exact (suc n) d bytes h bs =
    let (same, low) = hash_from_lem d 0 bytes (omega arith) bs in
    let (rest, all_low, size) = hashes-exact n (d + 1) bytes (omega arith) bs in
    (cc (same, rest), (omega (arith, low), all_low), omega (arith, size))
