-- ===== src/Server/RateLimiter.antt =====
-- server/src/main.rs: `RateLimiter`, a token bucket for each address. Times are nanoseconds.
use memoria_mcp.Prelude.{
  ◌==◌, ℕ, ◌-◌, ◌≡◌, ◌∙◌, String, Bool, false, none, some, if◌then◌else◌, Bool-cases, inl, inr,
  arith, eq_iff, ==-cases, sym, subst,
}
use memoria_mcp.Map
use memoria_mcp.Map.{Map}
use memoria_mcp.Map.Laws.{get-insert}
use memoria_mcp.Float.{Float, gt, ge}

pub record RateLimitBucket (F : Type 0) : Type 0 where
  pub tokens : F
  pub last_refill : ℕ

pub record RateLimiter (F : Type 0) : Type 0 where
  pub capacity : F
  pub refill_per_sec : F
  pub buckets : Map (RateLimitBucket F)

module _ {F : Type 0} (fl : Float F) (as_secs_f64 : ℕ → F) where
  -- `entry(key).or_insert_with(..)`
  abbrev pub bucket_of : RateLimiter F → String → ℕ → RateLimitBucket F
  bucket_of limiter key now = elim (Map.get key limiter.buckets) [
    | some b ↦ b
    | none ↦ record { tokens = limiter.capacity; last_refill = now }
  ]

  abbrev pub refilled : RateLimiter F → RateLimitBucket F → ℕ → F
  refilled limiter b now =
      fl.min (fl.mul_add (as_secs_f64 (now - b.last_refill)) limiter.refill_per_sec b.tokens)
        limiter.capacity

  abbrev pub spend : F → F
  spend tokens = if ge fl tokens (fl.literal 1 0) then fl.sub tokens (fl.literal 1 0) else tokens

  unfoldable pub check_and_consume : String → ℕ → RateLimiter F → Bool × RateLimiter F
  check_and_consume key now limiter =
      let tokens = refilled limiter (bucket_of limiter key now) now in
      (
        ge fl tokens (fl.literal 1 0),
        record limiter {
          buckets =
              Map.insert key (record { tokens = spend tokens; last_refill = now }) limiter.buckets;
        },
      )

  -- The bucket of the address after the check.
  abbrev pub spent : RateLimiter F → String → ℕ → RateLimitBucket F
  spent limiter key now = record {
    tokens = spend (refilled limiter (bucket_of limiter key now) now);
    last_refill = now;
  }

  -- The tokens of every address are at most the capacity.
  abbrev pub IsBounded : RateLimiter F → Type 0
  IsBounded limiter =
      (key : String) (b : RateLimitBucket F)
      → Map.get key limiter.buckets ≡ some b
      → gt fl b.tokens limiter.capacity ≡ false

  -- A check keeps every bucket at or below the capacity, so no pause saves up more; it refills and spends
  -- the bucket of its own address and changes no other. Of the floats: a minimum is not above its second argument, and a value of
  -- at least 1 is not above a bound after 1 is taken away if it was not before.
  pub check_and_consume-IsBounded :
      (limiter : RateLimiter F) (key : String) (now : ℕ)
      → ((a b : F) → gt fl (fl.min a b) b ≡ false)
      → ((a b : F) → gt fl a b ≡ false → gt fl (fl.sub a (fl.literal 1 0)) b ≡ false)
      → IsBounded limiter
      → IsBounded (check_and_consume key now limiter).1
        × ((j : String)
            → Map.get j (check_and_consume key now limiter).1.buckets
              ≡ (if key == j then some (spent limiter key now) else Map.get j limiter.buckets))
  unfolding check_and_consume
  check_and_consume-IsBounded limiter key now capped less h =
      let full = refilled limiter (bucket_of limiter key now) now in
      let new : RateLimitBucket F = record { tokens = spend full; last_refill = now } in
      (
        λ j b e. elim (==-cases key j) [
          | inl same ↦
              let stored : new ≡ b =
                the_bucket new b (sym (found key j new (limiter.buckets) same) ∙ e) in
              subst (λ (x : RateLimitBucket F). gt fl x.tokens limiter.capacity ≡ false) stored
                (spend_lem full limiter.capacity (capped _ limiter.capacity))
          | inr (other, differs) ↦
              h j b (ground (arith, differs, get-insert key j new limiter.buckets))
        ],
        λ j. get-insert key j new limiter.buckets,
      )
    where
      spend_lem : (t c : F) → gt fl t c ≡ false → gt fl (spend t) c ≡ false
      spend_lem t c low = elim (Bool-cases (ge fl t (fl.literal 1 0))) [
        | inl enough ↦ rw enough (less t c low)
        | inr empty ↦ rw empty low
      ]

      the_bucket : (a b : RateLimitBucket F) → some a ≡ some b → a ≡ b
      the_bucket a b e = cc

      found :
          (k j : String) (v : RateLimitBucket F) (m : Map (RateLimitBucket F))
          → k ≡ j
          → Map.get j (Map.insert k v m) ≡ some v
      found k j v m e = ground (arith, e, eq_iff k j, get-insert k j v m)
