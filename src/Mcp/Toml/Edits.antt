-- ===== src/Mcp/Toml/Edits.antt =====
-- mcp/src/install.rs: what an install and an uninstall make of a TOML configuration.
use Prim.Native.Char.{Char}
use memoria_mcp.Prelude.{
  ℕ, zero, suc, ◌+◌, String, Bool, true, false, ◌&&◌, none, some, List, [], ◌∷◌, ◌++◌, find, take,
  drop, leb, ltb, eqb, if◌then◌else◌, ◌==◌,
}
use memoria_mcp.Prelude.Text.{is_empty, trim_matches}
use memoria_mcp.Llm.{lines}
use memoria_mcp.Mcp.Clients.{ServerEntry, Edit, added, updated, removed, unchanged, absent}
use memoria_mcp.Mcp.Toml.{
  Range, memoria_toml_ranges, preserved_toml_env, render_toml_block, join_toml, trim_lines,
}

abbrev covers : ℕ → Range → Bool
covers index r = leb r.0 index && ltb index r.1

-- The lines outside of the ranges, and where in them each range stood.
unfoldable pub without_from : List Range → ℕ → ℕ → List String → List String × List ℕ
without_from ranges index kept [] = ([], [])
without_from ranges index kept (l ∷ ls) = elim (find (covers index) ranges) [
  | some r ↦
      let (lines, seams) = without_from ranges (index + 1) kept ls in
      (lines, if eqb index r.0 then kept ∷ seams else seams)
  | none ↦ let (lines, seams) = without_from ranges (index + 1) (kept + 1) ls in (l ∷ lines, seams)
]

unfoldable pub without_ranges : List String → List Range → List String × List ℕ
unfolding without_from
without_ranges ls ranges = without_from ranges 0 0 ls

module _ (is_whitespace : Char → Bool) where
  abbrev is_blank : String → Bool
  is_blank line = is_empty (trim_matches is_whitespace line)

  -- A line in between, if there is a text.
  abbrev spaced : List String → List String → List String
  spaced [] block = block
  spaced (l ∷ ls) block = (l ∷ ls) ++ "" ∷ block

  -- The block in the place of the first range, or at the end.
  abbrev with_block : List String → List ℕ → List String → List String
  with_block kept [] block = spaced (trim_lines is_whitespace kept) block
  with_block kept (position ∷ seams) block = take position kept ++ (block ++ drop position kept)

  abbrev upsert_edit : String → List Range → String → Edit
  upsert_edit updated_text ranges existing =
      if updated_text == existing
      then unchanged
      else elim ranges [ [] ↦ added updated_text | _ ∷ _ ↦ updated updated_text ]

  unfoldable pub upsert_toml :
      (Char → Bool) → (Char → String) → (Char → Bool) → String → ServerEntry → Edit
  unfolding without_ranges
  upsert_toml is_control unicode_escape is_ascii_alphanumeric existing e =
      let ls = lines existing in
      let ranges = memoria_toml_ranges is_whitespace ls in
      let (kept, seams) = without_ranges ls ranges in
      let block =
        render_toml_block is_control unicode_escape is_ascii_alphanumeric e
          (preserved_toml_env is_whitespace ls ranges e) in
      upsert_edit (join_toml is_whitespace (with_block kept seams block)) ranges existing

  -- A blank line, or the start of the text.
  abbrev open_at : ℕ → List String → Bool
  open_at zero kept = true
  open_at (suc n) [] = false
  open_at (suc zero) (l ∷ kept) = is_blank l
  open_at (suc (suc n)) (l ∷ kept) = open_at (suc n) kept

  abbrev drop_blank : List String → List String
  drop_blank [] = []
  drop_blank (l ∷ ls) = let rest = drop_blank ls in if is_blank l then rest else l ∷ ls

  -- The `while` of one seam: the lines before the seam stay, so its condition on them is tested once.
  unfoldable pub close_seam : ℕ → List String → List String
  close_seam seam kept =
      if open_at seam kept then take seam kept ++ drop_blank (drop seam kept) else kept

  -- `for &seam in seams.iter().rev()`
  unfoldable pub close_seams : List ℕ → List String → List String
  unfolding close_seam
  close_seams [] kept = kept
  close_seams (seam ∷ seams) kept = close_seam seam (close_seams seams kept)

  unfoldable pub remove_toml : String → Edit
  unfolding without_ranges close_seams
  remove_toml existing =
      let ls = lines existing in
      let ranges = memoria_toml_ranges is_whitespace ls in
      let (kept, seams) = without_ranges ls ranges in
      elim ranges [
        | [] ↦ absent
        | _ ∷ _ ↦ removed (join_toml is_whitespace (close_seams seams kept))
      ]
