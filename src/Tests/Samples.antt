-- ===== src/Tests/Samples.antt =====
-- The concrete parameters and states that the tests share: numbers in hundredths for the floats, and an
-- engine over the in-memory store.
use Prim.Native.Char.{Char, code}
use Prim.Native.Nat.{compare, min, max}
use memoria_mcp.Prelude.{
  ℕ, refl, ◌≡◌, false, Bool-cases, inl, inr, subst, ◌+◌, ◌-◌, ◌*◌, ◌/◌, ◌%◌, ◌^◌, String, Bool,
  true, ◌&&◌, none, some, List, [], ◌∷◌, map, ◌==◌, if◌then◌else◌, Result, ok, err, leb, arith,
  decimal,
}
use memoria_mcp.Map
use memoria_mcp.Map.{Map, contains_key}
use memoria_mcp.Float.{Float, Ordered, gt}
use memoria_mcp.Store.{VectorRecord}
use memoria_mcp.Store.InMemory.{Records, in_memory}
use memoria_mcp.Store.InMemory.Meets.{IsValid, Fits}
use memoria_mcp.Llm.{EmbeddingError}
use memoria_mcp.Entity.{CharClass}
use memoria_mcp.Server.RateLimiter.{RateLimiter, RateLimitBucket, IsBounded}
use memoria_mcp.Memory.{World, Env, added}

abbrev pub hundredths : Float ℕ
hundredths = record {
  partial_cmp = λ a b. some (compare a b);
  add = λ a b. a + b;
  sub = λ a b. (a - b) + (b - a);
  mul = λ a b. a * b / 100;
  mul_add = λ a b c. a * b / 100 + c;
  div = λ a b. a * 100 / b;
  abs = λ a. a;
  fract = λ a. a % 100;
  midpoint = λ a b. (a + b) / 2;
  min = min;
  max = max;
  infinity = 10 ^ 12;
  neg_infinity = 0;
  literal = λ m k. m * 100 / 10 ^ k;
  parse = λ s. if s == "3" then some 300 else none;
  to_string = decimal;
  to_integer_string = λ n. decimal (n / 100);
}

abbrev pub IsNumber : ℕ → Type 0
IsNumber n = Unit

pub hundredths-Ordered : Ordered hundredths IsNumber
hundredths-Ordered = record {
  flip_gt = λ a b h. ground arith;
  trans_gt = λ a b c _ _ _ h k. ground arith;
}

abbrev between : ℕ → ℕ → Char → Bool
between a b c = leb a (code c) && leb (code c) b

abbrev pub ascii : CharClass
ascii = record {
  is_whitespace = between 32 32;
  is_uppercase = between 65 90;
  is_alphabetic = λ c. if between 65 90 c then true else between 97 122 c;
  is_alphanumeric = λ c. if between 65 90 c then true else between 97 122 c;
}

abbrev pub embed : String → Result EmbeddingError (List ℕ)
embed text =
    if text == ""
    then err EmbeddingError.empty_input
    else if text == "tea"
    then ok (100 ∷ [])
    else ok (300 ∷ [])

abbrev pub embed_batch : List String → Result EmbeddingError (List (List ℕ))
embed_batch texts = ok (map (λ t. 300 ∷ []) texts)

abbrev pub sample_env : Env ℕ ℕ (Records ℕ)
sample_env = record {
  f32 = hundredths;
  f64 = hundredths;
  complete = λ messages. ok "likes tea";
  embed = embed;
  embed_batch = embed_batch;
  vector_store = in_memory hundredths;
  reranker = none;
  max_metadata_bytes = some 8192;
  max_content_length = some 1000;
  max_top_k = some 10;
  chars = ascii;
  to_lowercase = λ s. s;
  nanos = λ n. 5;
  pid = 7;
  now = 1709208000;
}

abbrev pub alice : Map String
alice = ("user_id", "alice") ∷ []

abbrev pub note : String → String → VectorRecord ℕ
note id content = record {
  id = id;
  vector = 300 ∷ [];
  payload = ("content", content) ∷ ("user_id", "alice") ∷ [];
}

abbrev pub bob_note : VectorRecord ℕ
bob_note = record {
  id = "r2";
  vector = 100 ∷ [];
  payload = ("content", "likes tea") ∷ ("user_id", "bob") ∷ [];
}

abbrev pub two_notes : Records ℕ
two_notes = ("r1", note "r1" "likes milk") ∷ ("r2", bob_note) ∷ []

pub two_notes-IsValid : IsValid two_notes
unfolding contains_key
two_notes-IsValid = record { distinct = (refl, (refl, tt)); own_id = (refl, (refl, tt)) }

pub two_notes-Fits : Fits two_notes
two_notes-Fits = omega arith

abbrev pub sample_world : World (Records ℕ)
sample_world = record {
  store = two_notes;
  history = ("r1", record { event = added; content = "likes milk" } ∷ []) ∷ [];
  ticket = 2;
}

-- Numbers whose difference stops at zero.
abbrev pub counts : Float ℕ
counts = record hundredths { sub = λ a b. a - b }

abbrev pub limiter : RateLimiter ℕ
limiter = record {
  capacity = 500;
  refill_per_sec = 100;
  buckets = ("10.0.0.1", record { tokens = 300; last_refill = 0 }) ∷ [];
}

pub limiter-IsBounded : IsBounded counts (λ n. n) limiter
unfolding Map.get
limiter-IsBounded key b e = elim (Bool-cases ("10.0.0.1" == key)) [
  | inl same ↦
      subst (λ (x : RateLimitBucket ℕ). gt counts x.tokens 500 ≡ false)
        (the_bucket _ b (rw same at e)) refl
  | inr differs ↦ absurd (cc (rw differs at e))
]
  where
    the_bucket : (a c : RateLimitBucket ℕ) → some a ≡ some c → a ≡ c
    the_bucket a c e = cc
