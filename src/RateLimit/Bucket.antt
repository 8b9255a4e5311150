-- ===== src/RateLimit/Bucket.antt =====
-- The promise of a token bucket: what it grants over time is bounded by its tokens and its rate.
use osai.Prelude.{
  ℕ, ◌+◌, ◌-◌, ◌*◌, ◌/◌, ◌%◌, ◌^◌, ◌≤◌, ◌<◌, ◌≡◌, subst, List, [], ◌∷◌, arith, Status, ok, ltb, leb,
  sub64, add64, if◌then◌else◌,
}
use osai.RateLimit.{TokenBucket, ns_per_sec, new_tokens, bucket_refill, bucket_consume}

pub record IsValid (b : TokenBucket) : Type 0 where
  pub tokens_in : b.tokens ≤ b.capacity
  pub capacity_in : b.capacity < 2 ^ 64

-- What a refill at `now` does where the product of elapsed time and rate fits 64 bits.
record Refilled (now : ℕ) (b b' : TokenBucket) : Type 0 where
  tokens_in : b'.tokens ≤ b'.capacity
  capacity_kept : b'.capacity ≡ b.capacity
  rate_kept : b'.refill_rate ≡ b.refill_rate
  later : b.last_refill_ns ≤ b'.last_refill_ns
  not_after : b'.last_refill_ns ≤ now
  earned :
      b'.tokens * ns_per_sec
      ≤ b.tokens * ns_per_sec + (b'.last_refill_ns - b.last_refill_ns) * b.refill_rate

-- `new_tokens` never exceeds what the time elapsed earns, even where the product wraps.
new_tokens-le :
    (now : ℕ) (b : TokenBucket)
    → b.last_refill_ns ≤ now
    → now < 2 ^ 64
    → new_tokens now b * ns_per_sec ≤ (now - b.last_refill_ns) * b.refill_rate
new_tokens-le now b from range =
    let elapsed : sub64 now b.last_refill_ns ≡ now - b.last_refill_ns = omega arith in
    rw elapsed (wrapped ((now - b.last_refill_ns) * b.refill_rate))
  where
    wrapped : (p : ℕ) → p % 2 ^ 64 / ns_per_sec * ns_per_sec ≤ p
    wrapped p = omega arith

bucket_refill-Refilled :
    (now : ℕ) (b : TokenBucket)
    → IsValid b
    → b.last_refill_ns ≤ now
    → now < 2 ^ 64
    → Refilled now b (bucket_refill now b)
unfolding bucket_refill
bucket_refill-Refilled now b v from range =
    bounded (new_tokens now b) (new_tokens-le now b from range)
  where
    bounded :
        (n : ℕ)
        → n * ns_per_sec ≤ (now - b.last_refill_ns) * b.refill_rate
        → Refilled now b (
            if leb now b.last_refill_ns
            then b
            else (if ltb 0 n
                then record b {
                  tokens =
                      if ltb b.capacity (add64 b.tokens n) then b.capacity else add64 b.tokens n;
                  last_refill_ns = now;
                }
                else b))
    bounded n h = ground arith

-- A consume, whether it is granted or not, leaves the bucket valid, and pays for what it grants.
granted : Status × TokenBucket → ℕ → ℕ
granted (ok, b) count = count
granted (s, b) count = 0

record Consumed (now count : ℕ) (b : TokenBucket) (out : Status × TokenBucket) : Type 0 where
  valid : IsValid out.1
  rate_kept : out.1.refill_rate ≡ b.refill_rate
  later : b.last_refill_ns ≤ out.1.last_refill_ns
  not_after : out.1.last_refill_ns ≤ now
  paid :
      (granted out count + out.1.tokens) * ns_per_sec
      ≤ b.tokens * ns_per_sec + (out.1.last_refill_ns - b.last_refill_ns) * b.refill_rate

bucket_consume-Consumed :
    (now : ℕ) (b : TokenBucket) (count : ℕ)
    → IsValid b
    → b.last_refill_ns ≤ now
    → now < 2 ^ 64
    → Consumed now count b (bucket_consume now b count)
unfolding bucket_consume granted
bucket_consume-Consumed now b count v from range =
    ground (arith, bucket_refill-Refilled now b v from range)

-- Requests in order, each with the time at which it is made, and what they are granted together.
pub total_granted : List (ℕ × ℕ) → TokenBucket → ℕ
unfolding granted
total_granted [] b = 0
total_granted ((now, count) ∷ requests) b =
    let out = bucket_consume now b count in granted out count + total_granted requests out.1

-- The times are 64-bit words, do not fall, start no earlier than `from`, and end by `until`.
abbrev pub Timely : ℕ → ℕ → List (ℕ × ℕ) → Type 0
Timely from until [] = from ≤ until
Timely from until ((now, count) ∷ requests) =
    (from ≤ now) × (now < 2 ^ 64) × Timely now until requests

Timely-le : (from until : ℕ) (requests : List (ℕ × ℕ)) → Timely from until requests → from ≤ until
Timely-le from until [] t = t
Timely-le from until ((now, count) ∷ requests) t = omega (arith, Timely-le now until requests t.2)

time_split : (a b c r : ℕ) → a ≤ b → b ≤ c → (b - a) * r + (c - b) * r ≡ (c - a) * r
time_split a b c r h k = split (b - a) (c - b) (c - a) (omega arith)
  where
    split : (x y z : ℕ) → x + y ≡ z → x * r + y * r ≡ z * r
    split x y z e = rw (← e) (omega arith)

-- The bound on the rest of the requests, at the rate that the bucket had before.
total_granted_rest :
    (total until : ℕ) (b b' : TokenBucket)
    → b'.refill_rate ≡ b.refill_rate
    → total * ns_per_sec ≤ b'.tokens * ns_per_sec + (until - b'.last_refill_ns) * b'.refill_rate
    → total * ns_per_sec ≤ b'.tokens * ns_per_sec + (until - b'.last_refill_ns) * b.refill_rate
total_granted_rest total until b b' same h =
    subst (λ r. total * ns_per_sec ≤ b'.tokens * ns_per_sec + (until - b'.last_refill_ns) * r) same
      h

-- Over requests at times that do not fall, a valid bucket grants no more than the tokens it starts
-- with plus its refill rate times the time until the last of them (in units of a billionth).
pub total_granted-le :
    (requests : List (ℕ × ℕ)) (until from : ℕ) (b : TokenBucket)
    → IsValid b
    → b.last_refill_ns ≤ from
    → Timely from until requests
    → total_granted requests b * ns_per_sec
      ≤ b.tokens * ns_per_sec + (until - b.last_refill_ns) * b.refill_rate
unfolding total_granted
total_granted-le [] until from b v at t = omega arith
total_granted-le ((now, count) ∷ requests) until from b v at t =
    let out = bucket_consume now b count in
    let c = bucket_consume-Consumed now b count v (omega arith) t.1 in
    omega (
      arith,
      c.paid,
      total_granted_rest (total_granted requests out.1) until b out.1 c.rate_kept
          (total_granted-le requests until now out.1 c.valid c.not_after t.2),
      time_split b.last_refill_ns out.1.last_refill_ns until b.refill_rate c.later
          (omega (arith, c.not_after, Timely-le now until requests t.2)),
    )
