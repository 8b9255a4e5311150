-- ===== src/RateLimit/Tests.antt =====
-- A cell with a small memory quota, and a bucket of ten tokens.
use osai.Prelude.{◌+◌, ◌-◌, ◌*◌, ◌≤◌, arith, true, [], ◌∷◌}
use osai.RateLimit.{TokenBucket, RateLimits, ns_per_sec}
use osai.RateLimit.Bucket.{total_granted, total_granted-le}

abbrev ten_tokens : TokenBucket
ten_tokens = record { capacity = 10; tokens = 10; refill_rate = 2; last_refill_ns = 0 }

total_granted-le_example :
    total_granted ((5, 8) ∷ (1000000000, 4) ∷ []) ten_tokens * ns_per_sec
    ≤ 10 * ns_per_sec + (1000000000 - 0) * 2
total_granted-le_example =
    total_granted-le ((5, 8) ∷ (1000000000, 4) ∷ []) 1000000000 0 ten_tokens
      (record { tokens_in = omega arith; capacity_in = omega arith }) (omega arith)
      (omega arith, omega arith, (omega arith, omega arith, omega arith))

abbrev one_cell : RateLimits
one_cell = record {
  cells = λ i. record {
    cell_id = i;
    active = true;
    cpu_bucket = ten_tokens;
    net_rx_bucket = ten_tokens;
    net_tx_bucket = ten_tokens;
    memory_cap_bytes = 100;
    memory_used_bytes = 60;
    cpu_violations = 0;
    net_violations = 0;
    memory_violations = 0;
    total_throttle_events = 0;
  };
  throttled = 0;
}
