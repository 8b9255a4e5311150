-- ===== src/RateLimit/Quota.antt =====
-- The memory quota of a cell: `rate_limit_memory_commit`, `rate_limit_memory_release`, and the
-- wrap of the check.
use osai.Prelude.{
  ℕ, ◌+◌, ◌^◌, ◌≤◌, ◌<◌, ◌≡◌, arith, false, ok, no_memory, leb, if◌then◌else◌, add64,
}
use osai.RateLimit.{
  RateLimits, rate_limit_check_memory, rate_limit_memory_commit, rate_limit_memory_release, refused,
}

abbrev pub used : RateLimits → ℕ → ℕ
used s i = (s.cells i).memory_used_bytes

abbrev pub cap : RateLimits → ℕ → ℕ
cap s i = (s.cells i).memory_cap_bytes

-- Where used and requested bytes together fit 64 bits, a commit on an active cell is granted
-- exactly when they fit the cap, and then adds the bytes; otherwise it reports NO_MEMORY, leaves
-- the use as it is and counts one violation and one throttle event.
pub rate_limit_memory_commit_lem :
    (s : RateLimits) (i bytes : ℕ)
    → refused s i ≡ false
    → used s i + bytes < 2 ^ 64
    → let (status, s') = rate_limit_memory_commit s i bytes in
      let within = leb (used s i + bytes) (cap s i) in
      (status ≡ (if within then ok else no_memory))
      × (used s' i ≡ used s i + (if within then bytes else 0))
      × ((s'.cells i).memory_violations ≡ (
          if within then (s.cells i).memory_violations else add64 (s.cells i).memory_violations 1))
      × (s'.throttled ≡ (if within then s.throttled else add64 s.throttled 1))
unfolding rate_limit_memory_commit rate_limit_check_memory
rate_limit_memory_commit_lem s i bytes active fits = ground arith

-- A cell that is counted to use no more than its cap still is after any commit and after any
-- release, of any number of bytes on any cell.
pub used-le-cap :
    (s : RateLimits) (i j bytes : ℕ)
    → used s j ≤ cap s j
    → (used (rate_limit_memory_commit s i bytes).1 j ≤ cap (rate_limit_memory_commit s i bytes).1 j)
      × (used (rate_limit_memory_release s i bytes) j ≤ cap (rate_limit_memory_release s i bytes) j)
unfolding rate_limit_memory_commit rate_limit_check_memory rate_limit_memory_release
used-le-cap s i j bytes within = (ground arith, ground arith)

-- The check wraps: an active cell that has used some bytes is granted a request that exceeds its
-- cap, as long as used and requested bytes come to 2^64 plus no more than the cap; its count of
-- used bytes then falls to that remainder.
pub rate_limit_memory_commit_wraps :
    (s : RateLimits) (i bytes rest : ℕ)
    → refused s i ≡ false
    → used s i + bytes ≡ 2 ^ 64 + rest
    → rest ≤ cap s i
    → cap s i < 2 ^ 64
    → let (status, s') = rate_limit_memory_commit s i bytes in (status ≡ ok) × (used s' i ≡ rest)
unfolding rate_limit_memory_commit rate_limit_check_memory
rate_limit_memory_commit_wraps s i bytes rest active total within range = ground arith
