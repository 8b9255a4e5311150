-- ===== src/RateLimit.antt =====
-- kernel/runtime/rate_limit.c: token buckets and a memory quota for each cell. The clock,
-- `timer_now_ns`, is an argument of each call; `uint64_t` arithmetic wraps.
pub mod Bucket
pub mod Quota
mod Tests
use osai.Prelude.{
  ℕ, ◌+◌, ◌-◌, ◌*◌, ◌/◌, ◌%◌, ◌^◌, Bool, true, false, ◌||◌, not, ltb, leb, ◌==◌, if◌then◌else◌,
  update, add64, sub64, mul64, Status, ok, invalid, busy, no_memory,
}

-- XAIOS_RATE_LIMIT_MAX_CELLS
abbrev pub max_cells : ℕ
max_cells = 8

abbrev pub ns_per_sec : ℕ
ns_per_sec = 1_000_000_000

-- `xaios_token_bucket_t`
pub record TokenBucket : Type 0 where
  pub capacity : ℕ
  pub tokens : ℕ
  pub refill_rate : ℕ
  pub last_refill_ns : ℕ

pub bucket_init : ℕ → ℕ → ℕ → TokenBucket
bucket_init now capacity refill_rate = record {
  capacity = capacity;
  tokens = capacity;
  refill_rate = refill_rate;
  last_refill_ns = now;
}

-- `new_tokens` at time `now`
abbrev pub new_tokens : ℕ → TokenBucket → ℕ
new_tokens now b = mul64 (sub64 now b.last_refill_ns) b.refill_rate / ns_per_sec

-- `bucket->tokens += new_tokens`, capped.
abbrev pub top_up : ℕ → TokenBucket → TokenBucket
top_up now b =
    let sum = add64 b.tokens (new_tokens now b) in
    record b { tokens = if ltb b.capacity sum then b.capacity else sum; last_refill_ns = now }

pub bucket_refill : ℕ → TokenBucket → TokenBucket
bucket_refill now b =
    if leb now b.last_refill_ns then b else (if ltb 0 (new_tokens now b) then top_up now b else b)

pub bucket_consume : ℕ → TokenBucket → ℕ → Status × TokenBucket
bucket_consume now b count =
    let b' = bucket_refill now b in
    if ltb b'.tokens count then (busy, b') else (ok, record b' { tokens = b'.tokens - count })

-- `xaios_rate_limit_t`
pub record RateLimit : Type 0 where
  pub cell_id : ℕ
  pub active : Bool
  pub cpu_bucket : TokenBucket
  pub net_rx_bucket : TokenBucket
  pub net_tx_bucket : TokenBucket
  pub memory_cap_bytes : ℕ
  pub memory_used_bytes : ℕ
  pub cpu_violations : ℕ
  pub net_violations : ℕ
  pub memory_violations : ℕ
  pub total_throttle_events : ℕ

-- `g_rate_limits` and `g_total_throttle_events`.
pub record RateLimits : Type 0 where
  pub cells : ℕ → RateLimit
  pub throttled : ℕ

-- `rate_limit_init`: the buckets stay as they are.
pub rate_limit_init : RateLimits → RateLimits
rate_limit_init s = record {
  cells = λ i.
      if ltb i max_cells
      then record (s.cells i) {
        cell_id = i;
        active = false;
        memory_cap_bytes = 0;
        memory_used_bytes = 0;
        cpu_violations = 0;
        net_violations = 0;
        memory_violations = 0;
        total_throttle_events = 0;
      }
      else s.cells i;
  throttled = 0;
}

abbrev pub put_cell : RateLimits → ℕ → RateLimit → RateLimits
put_cell s i rl = record s { cells = update s.cells i rl }

-- `rate_limit_create`
pub rate_limit_create : ℕ → RateLimits → ℕ → ℕ → ℕ → ℕ → ℕ → ℕ → Status × RateLimits
rate_limit_create now s i cpu_capacity cpu_refill net_capacity net_refill memory_cap =
    if leb max_cells i then (invalid, s) else (
      ok,
      put_cell s i (record {
        cell_id = i;
        active = true;
        cpu_bucket = bucket_init now cpu_capacity cpu_refill;
        net_rx_bucket = bucket_init now net_capacity net_refill;
        net_tx_bucket = bucket_init now net_capacity net_refill;
        memory_cap_bytes = memory_cap;
        memory_used_bytes = 0;
        cpu_violations = 0;
        net_violations = 0;
        memory_violations = 0;
        total_throttle_events = 0;
      }),
    )

-- `rate_limit_destroy`
pub rate_limit_destroy : RateLimits → ℕ → Status × RateLimits
rate_limit_destroy s i =
    if leb max_cells i
    then (invalid, s)
    else (ok, put_cell s i (record (s.cells i) { active = false; memory_used_bytes = 0 }))

-- The guard of every operation on a cell.
abbrev pub refused : RateLimits → ℕ → Bool
refused s i = leb max_cells i || not (s.cells i).active

-- What a failed consume of CPU tokens counts.
abbrev pub count_cpu_violation : RateLimits → ℕ → RateLimit → RateLimits
count_cpu_violation s i rl = record {
  cells = update s.cells i (record rl {
    cpu_violations = add64 rl.cpu_violations 1;
    total_throttle_events = add64 rl.total_throttle_events 1;
  });
  throttled = add64 s.throttled 1;
}

-- `rate_limit_cpu_consume`
pub rate_limit_cpu_consume : ℕ → RateLimits → ℕ → ℕ → Status × RateLimits
rate_limit_cpu_consume now s i tokens =
    if refused s i
    then (invalid, s)
    else (let (status, bucket) = bucket_consume now (s.cells i).cpu_bucket tokens in
        let rl = record (s.cells i) { cpu_bucket = bucket } in
        (status, elim status [ ok ↦ put_cell s i rl | _ ↦ count_cpu_violation s i rl ]))

abbrev pub count_memory_violation : RateLimits → ℕ → RateLimit → RateLimits
count_memory_violation s i rl = record {
  cells = update s.cells i (record rl {
    memory_violations = add64 rl.memory_violations 1;
    total_throttle_events = add64 rl.total_throttle_events 1;
  });
  throttled = add64 s.throttled 1;
}

-- `rate_limit_check_memory`
pub rate_limit_check_memory : RateLimits → ℕ → ℕ → Status × RateLimits
rate_limit_check_memory s i bytes =
    let rl = s.cells i in
    if refused s i
    then (invalid, s)
    else (if ltb rl.memory_cap_bytes (add64 rl.memory_used_bytes bytes)
        then (no_memory, count_memory_violation s i rl)
        else (ok, s))

abbrev pub set_used : RateLimits → ℕ → ℕ → RateLimits
set_used s i n = put_cell s i (record (s.cells i) { memory_used_bytes = n })

-- `rate_limit_memory_commit`
pub rate_limit_memory_commit : RateLimits → ℕ → ℕ → Status × RateLimits
rate_limit_memory_commit s i bytes =
    let (status, s') = rate_limit_check_memory s i bytes in
    elim status [
      | ok ↦ (ok, set_used s' i (add64 (s'.cells i).memory_used_bytes bytes))
      | other ↦ (other, s')
    ]

-- `rate_limit_memory_release`
pub rate_limit_memory_release : RateLimits → ℕ → ℕ → RateLimits
rate_limit_memory_release s i bytes =
    let used = (s.cells i).memory_used_bytes in
    if refused s i
    then s
    else (if ltb used bytes then set_used s i 0 else set_used s i (used - bytes))

abbrev pub count_net_violation : RateLimits → ℕ → RateLimit → RateLimits
count_net_violation s i rl = record {
  cells = update s.cells i (record rl {
    net_violations = add64 rl.net_violations 1;
    total_throttle_events = add64 rl.total_throttle_events 1;
  });
  throttled = add64 s.throttled 1;
}

-- `rate_limit_check_network`
pub rate_limit_check_network : ℕ → RateLimits → ℕ → ℕ → Bool → Status × RateLimits
rate_limit_check_network now s i bytes is_tx =
    let rl = s.cells i in
    let (status, bucket) =
      bucket_consume now (if is_tx then rl.net_tx_bucket else rl.net_rx_bucket) bytes in
    let rl' =
      if is_tx
      then record rl { net_tx_bucket = bucket }
      else record rl { net_rx_bucket = bucket } in
    if refused s i
    then (invalid, s)
    else (status, elim status [ ok ↦ put_cell s i rl' | _ ↦ count_net_violation s i rl' ])
