-- ===== src/Local/Config.antt =====
-- The `validate` methods of `LlmConfig` (core/src/llm.rs), `EmbeddingConfig` (core/src/embedding.rs),
-- `VectorStoreConfig` (core/src/vector_store.rs) and `MemoryConfig` (core/src/memory.rs).
use Prim.Native.Char.{Char}
use memoria_mcp.Prelude.{
  ℕ, if◌then◌else◌, zero, suc, ◌≢◌, refl, sym, ◌∙◌, inl, inr, Bool-cases, ap, eq_iff, String, Bool,
  true, false, not, ◌&&◌, Option, none, some, [], ◌∷◌, ◌≡◌, ◌↔◌, eqb, Result, ok, ◌>>=◌, format,
  ensure, arith,
}
use memoria_mcp.Prelude.Text.{is_empty, all_chars, trim_end, trim_matches, trim_start}
use memoria_mcp.Float.{Float, le}
use memoria_mcp.Error.{CoreError, config}

pub record LlmConfig (F : Type 0) : Type 0 where
  pub model : String
  pub base_url : Option String
  pub api_key : Option String
  pub temperature : Option F

pub record EmbeddingConfig : Type 0 where
  pub model : String
  pub base_url : Option String
  pub api_key : Option String
  pub dimensions : Option ℕ

pub record VectorStoreConfig : Type 0 where
  pub collection_name : String
  pub url : Option String
  pub api_key : Option String
  pub dimension : Option ℕ

pub record MemoryConfig (F : Type 0) : Type 0 where
  pub llm : LlmConfig F
  pub embedding : EmbeddingConfig
  pub vector_store : VectorStoreConfig

abbrev pub is_zero : Option ℕ → Bool
is_zero none = false
is_zero (some n) = eqb n 0

has_first : String → Bool
has_first String.[] = false
has_first (String.◌∷◌ c s) = true

is_empty-cons : (c : Char) (s : String) → is_empty (String.◌∷◌ c s) ≡ false
unfolding has_first
is_empty-cons c s = elim (Bool-cases (is_empty (String.◌∷◌ c s))) [
  | inl same ↦ absurd (cc (ap (λ t. has_first t) ((eq_iff (String.◌∷◌ c s) "").0 same)))
  | inr other ↦ other
]

-- Trimming leaves nothing exactly of a text of white space.
is_empty-trim_end : (p : Char → Bool) (s : String) → is_empty (trim_end p s) ≡ all_chars p s
unfolding trim_end all_chars
is_empty-trim_end p String.[] = refl
is_empty-trim_end p (String.◌∷◌ c s) =
    one (p c) (is_empty (trim_end p s)) c (trim_end p s)
    ∙ ap (λ rest. p c && rest) (is_empty-trim_end p s)
  where
    one :
        (white blank : Bool) (c : Char) (rest : String)
        → is_empty (if blank && white then "" else String.◌∷◌ c rest) ≡ (white && blank)
    one true true c rest = refl
    one true false c rest = is_empty-cons c rest
    one false true c rest = is_empty-cons c rest
    one false false c rest = is_empty-cons c rest

all_chars-trim_start : (p : Char → Bool) (s : String) → all_chars p (trim_start p s) ≡ all_chars p s
unfolding trim_start all_chars
all_chars-trim_start p String.[] = refl
all_chars-trim_start p (String.◌∷◌ c s) = elim (Bool-cases (p c)) [
  | inl white ↦ rw white (all_chars-trim_start p s)
  | inr other ↦ rw (other, other) refl
]

is_zero_iff : (o : Option ℕ) → (is_zero o ≡ false) ↔ (o ≢ some 0)
is_zero_iff none = ground arith
is_zero_iff (some zero) = ground arith
is_zero_iff (some (suc n)) = ground arith

module _ {F : Type 0} (fl : Float F) (is_whitespace : Char → Bool) where
  abbrev pub is_blank : String → Bool
  is_blank s = is_empty (trim_matches is_whitespace s)

  -- `(0.0..=2.0).contains(&temperature)`, where there is one
  abbrev pub in_range : Option F → Bool
  in_range none = true
  in_range (some t) = le fl (fl.literal 0 0) t && le fl t (fl.literal 2 0)

  abbrev pub shown : Option F → String
  shown none = ""
  shown (some t) = fl.to_string t

  unfoldable pub validate_llm : LlmConfig F → Result CoreError (Unit {0})
  validate_llm c = do
    _ ← ensure (not (is_blank c.model)) (config "model must not be empty")
    ensure (in_range c.temperature) (
        config
          (format ("temperature must be between 0.0 and 2.0, got " ∷ shown c.temperature ∷ [])))

  unfoldable pub validate_embedding : EmbeddingConfig → Result CoreError (Unit {0})
  validate_embedding c = do
    _ ← ensure (not (is_blank c.model)) (config "model must not be empty")
    ensure (not (is_zero c.dimensions)) (config "dimensions must be greater than zero")

  unfoldable pub validate_vector_store : VectorStoreConfig → Result CoreError (Unit {0})
  validate_vector_store c = do
    _ ← ensure (not (is_blank c.collection_name)) (config "collection_name must not be empty")
    ensure (not (is_zero c.dimension)) (config "dimension must be greater than zero")

  unfoldable pub validate : MemoryConfig F → Result CoreError (Unit {0})
  validate c = do
    _ ← validate_llm c.llm
    _ ← validate_embedding c.embedding
    validate_vector_store c.vector_store

  -- The name has a character that is no white space.
  abbrev pub IsNamed : String → Type 0
  IsNamed s = all_chars is_whitespace s ≡ false

  -- There is no temperature, or it lies between 0 and 2.
  abbrev pub IsTemperature : Option F → Type 0
  IsTemperature none = Unit {0}
  IsTemperature (some t) = (le fl (fl.literal 0 0) t ≡ true) × (le fl t (fl.literal 2 0) ≡ true)

  is_blank-IsNamed : (s : String) → (is_blank s ≡ false) ↔ IsNamed s
  unfolding trim_matches
  is_blank-IsNamed s =
      let same =
        is_empty-trim_end is_whitespace (trim_start is_whitespace s)
        ∙ all_chars-trim_start is_whitespace s in
      ((λ h. sym same ∙ h), λ h. same ∙ h)

  in_range-IsTemperature : (o : Option F) → (in_range o ≡ true) ↔ IsTemperature o
  in_range-IsTemperature none = ((λ _. tt), λ _. refl)
  in_range-IsTemperature (some t) = both (le fl (fl.literal 0 0) t) (le fl t (fl.literal 2 0))
    where
      both : (a b : Bool) → ((a && b) ≡ true) ↔ ((a ≡ true) × (b ≡ true))
      both a b = ground arith

  -- A configuration is accepted exactly when the names of its two models and of its collection each have
  -- a character that is no white space, the temperature, if there is one, lies between 0 and 2, and
  -- neither dimension is given as 0.
  pub validate_lem :
      (c : MemoryConfig F)
      → (validate c ≡ ok tt) ↔ (
          IsNamed c.llm.model
          × IsTemperature c.llm.temperature
          × IsNamed c.embedding.model
          × (c.embedding.dimensions ≢ some 0)
          × IsNamed c.vector_store.collection_name
          × (c.vector_store.dimension ≢ some 0))
  unfolding validate validate_llm validate_embedding validate_vector_store
  validate_lem c =
      let checks =
        six (is_blank c.llm.model) (in_range c.llm.temperature) (is_blank c.embedding.model)
          (is_zero c.embedding.dimensions) (is_blank c.vector_store.collection_name)
          (is_zero c.vector_store.dimension) _ _ _ _ _ _ in
      let model = is_blank-IsNamed c.llm.model in
      let temperature = in_range-IsTemperature c.llm.temperature in
      let embedding = is_blank-IsNamed c.embedding.model in
      let dimensions = is_zero_iff c.embedding.dimensions in
      let collection = is_blank-IsNamed c.vector_store.collection_name in
      let dimension = is_zero_iff c.vector_store.dimension in
      (
        (λ h.
            let (a, b, d, e, f, g) = checks.0 h in
            (
              model.0 a,
              temperature.0 b,
              embedding.0 d,
              dimensions.0 e,
              collection.0 f,
              dimension.0 g,
            )),
        λ h.
            let (a, b, d, e, f, g) = h in
            checks.1 (
              model.1 a,
              temperature.1 b,
              embedding.1 d,
              dimensions.1 e,
              collection.1 f,
              dimension.1 g,
            ),
      )
    where
      six :
          (a b d e f g : Bool) (x₁ x₂ x₃ x₄ x₅ x₆ : CoreError)
          → ((do
            _ ← (do _ ← ensure (not a) x₁; ensure b x₂)
            _ ← (do _ ← ensure (not d) x₃; ensure (not e) x₄)
            (do _ ← ensure (not f) x₅; ensure (not g) x₆))
              ≡ ok tt)
            ↔ ((a ≡ false) × (b ≡ true) × (d ≡ false) × (e ≡ false) × (f ≡ false) × (g ≡ false))
      six a b d e f g x₁ x₂ x₃ x₄ x₅ x₆ = ground arith
