-- ===== src/Mcp/Toml/Ranges.antt =====
-- mcp/src/install.rs: the ranges of lines that `memoria_toml_ranges` finds.
use Prim.Native.Char.{Char}
use memoria_mcp.Prelude.{
  ℕ, zero, suc, ◌+◌, ◌≤◌, ◌<◌, ◌≡◌, ◌↔◌, refl, String, Bool, true, false, ◌&&◌, Option, none, some,
  List, [], ◌∷◌, All, any, length, ltb, Bool-cases, ◌⊎◌, inl, inr, arith,
}
use memoria_mcp.Llm.{lines}
use memoria_mcp.Mcp.Clients.{absent}
use memoria_mcp.Mcp.Toml.{
  Range, is_header, ends_table, trim_range, ranges_from, memoria_toml_ranges, is_comment_at,
}
use memoria_mcp.Mcp.Toml.Edits.{remove_toml}

module _ (is_whitespace : Char → Bool) where
  -- The range has a line, and ends within a text of `size` lines.
  abbrev pub IsWithin : ℕ → Range → Type 0
  IsWithin size r = (r.0 < r.1) × (r.1 ≤ size)

  trim_range-bounds :
      (all : List String) (start end : ℕ)
      → start < end
      → (start < trim_range is_whitespace all start end)
        × (trim_range is_whitespace all start end ≤ end)
  unfolding trim_range
  trim_range-bounds all start zero h = absurd (omega arith)
  trim_range-bounds all start (suc end) h =
      elim (Bool-cases (ltb (start + 1) (suc end) && is_comment_at is_whitespace all end)) [
        | inl trims ↦
            let longer : start < end = ground (arith, trims) in
            let (above, below) = trim_range-bounds all start end longer in
            rw trims (above, omega (arith, below))
        | inr stays ↦ rw stays (h, omega arith)
      ]

  -- The start of the range that is open, if one is, lies before the line met.
  abbrev IsOpen : Option ℕ → ℕ → Type 0
  IsOpen none index = Unit
  IsOpen (some start) index = start < index

  ranges_from-IsWithin :
      (all : List String) (from : Option ℕ) (index size : ℕ) (ls : List String)
      → IsOpen from index
      → index + length ls ≡ size
      → All (IsWithin size) (ranges_from is_whitespace all from index ls)
  unfolding ranges_from
  ranges_from-IsWithin all none index size [] h n = tt
  ranges_from-IsWithin all (some start) index size [] h n =
      let (above, below) = trim_range-bounds all start index h in
      ((above, omega (arith, below, n)), tt)
  ranges_from-IsWithin all none index size (l ∷ ls) h n =
      elim (Bool-cases (is_header is_whitespace l)) [
        | inl header ↦ rw header (
            ranges_from-IsWithin all (some index) (index + 1) size ls (omega arith)
              (omega (arith, n)))
        | inr other ↦
            rw other (ranges_from-IsWithin all none (index + 1) size ls tt (omega (arith, n)))
      ]
  ranges_from-IsWithin all (some start) index size (l ∷ ls) h n =
      elim (Bool-cases (ends_table is_whitespace l)) [
        | inl ends ↦
            let (above, below) = trim_range-bounds all start index h in
            rw ends (
              (above, omega (arith, below, n)),
              ranges_from-IsWithin all none (index + 1) size ls tt (omega (arith, n)),
            )
        | inr goes_on ↦ rw goes_on (
            ranges_from-IsWithin all (some start) (index + 1) size ls (omega arith)
              (omega (arith, n)))
      ]

  -- Every range found has at least one line and ends within the text, so that no slice of the lines by it
  -- is out of bounds, whatever the text.
  pub memoria_toml_ranges-IsWithin :
      (ls : List String) → All (IsWithin (length ls)) (memoria_toml_ranges is_whitespace ls)
  unfolding memoria_toml_ranges
  memoria_toml_ranges-IsWithin ls = ranges_from-IsWithin ls none 0 (length ls) ls tt (omega arith)

  ranges_from-inside :
      (all : List String) (start index : ℕ) (ls : List String)
      → (r : Range) × (rs : List Range) × (ranges_from is_whitespace all (some start) index ls
          ≡ r ∷ rs)
  unfolding ranges_from
  ranges_from-inside all start index [] =
      ((start, trim_range is_whitespace all start index), [], refl)
  ranges_from-inside all start index (l ∷ ls) = elim (Bool-cases (ends_table is_whitespace l)) [
    | inl ends ↦ (
      (start, trim_range is_whitespace all start index),
      ranges_from is_whitespace all none (index + 1) ls,
      rw ends refl,
    )
    | inr goes_on ↦ rw goes_on (ranges_from-inside all start (index + 1) ls)
  ]

  -- Outside of a table, ranges are found exactly where a header follows.
  ranges_from-outside :
      (all : List String) (index : ℕ) (ls : List String)
      → ((any (is_header is_whitespace) ls ≡ false)
          × (ranges_from is_whitespace all none index ls ≡ []))
        ⊎ ((any (is_header is_whitespace) ls ≡ true)
            × ((r : Range) × (rs : List Range) × (ranges_from is_whitespace all none index ls
                  ≡ r ∷ rs)))
  unfolding ranges_from
  ranges_from-outside all index [] = inl (refl, refl)
  ranges_from-outside all index (l ∷ ls) = elim (Bool-cases (is_header is_whitespace l)) [
    | inl header ↦ inr (rw header refl, rw header (ranges_from-inside all index (index + 1) ls))
    | inr other ↦ elim (ranges_from-outside all (index + 1) ls) [
      | inl (without, nothing) ↦ inl (rw other without, rw other nothing)
      | inr (later, found) ↦ inr (rw other later, rw other found)
    ]
  ]

  -- An uninstall answers that the server is absent exactly when no line of the text is the header of one of
  -- its tables; otherwise it rewrites the text.
  pub remove_toml-eq-absent :
      (existing : String)
      → (remove_toml is_whitespace existing ≡ absent)
        ↔ (any (is_header is_whitespace) (lines existing) ≡ false)
  unfolding remove_toml memoria_toml_ranges
  remove_toml-eq-absent existing = elim (ranges_from-outside (lines existing) 0 (lines existing)) [
    | inl (without, nothing) ↦ (λ e. without, λ e. rw (remove_toml, nothing) refl)
    | inr (later, (r, rs, found)) ↦
        (λ e. absurd (cc (rw (found, remove_toml) at e)), λ e. absurd (cc (later, e)))
  ]
