-- ===== src/CircularBuffer.antt =====
-- The byte ring that kernel/net/socket_buffer.c and kernel/core/klog_ring.c both keep: a window of
-- a fixed array, read from its start and written at its end, with indices that go round.
use native.Mathlib.Nat.{mod-add-mod, mod-eq_of_lt, mod-eq-sub-mod, add-zero}
use native.Mathlib.Decide.{dec_lt}
use osai.Prelude.{
  ℕ, zero, suc, ◌+◌, ◌-◌, ◌%◌, ◌<◌, ◌≡◌, refl, ap, ap₂, ◌∙◌, ◌≢◌, List, [], ◌∷◌, ◌++◌, arith,
  length, update, update_self, update-ne,
}

module _ (cells : ℕ → ℕ) (cap : ℕ) where
  -- The `n` bytes from index `h` on.
  abbrev pub window : ℕ → ℕ → List ℕ
  window h zero = []
  window h (suc n) = cells h ∷ window ((h + 1) % cap) n

  pub length-window : (h n : ℕ) → length (window h n) ≡ n
  length-window h zero = refl
  length-window h (suc n) = ap suc (length-window ((h + 1) % cap) n)

  pub window_step : (h n : ℕ) → n ≢ 0 → window h n ≡ cells h ∷ window ((h + 1) % cap) (n - 1)
  window_step h zero p = absurd (p refl)
  window_step h (suc n) p = ap (λ k. window h (suc k)) (omega arith)

-- The index `n` places on from `h`, stepped once and then `n` times.
pub index_shift : (h n cap : ℕ) → ((h + 1) % cap + n) % cap ≡ (h + suc n) % cap
index_shift h n cap = rw mod-add-mod (ap (λ k. k % cap) (omega arith))

-- Fewer than `cap` places on is another index.
index_ne : (h k cap : ℕ) → h < cap → suc k < cap → (h + suc k) % cap ≢ h
index_ne h k cap below few = elim (dec_lt (h + suc k) cap) [
  | yes inside ↦ omega (arith, mod-eq_of_lt inside)
  | no outside ↦ omega (
    arith,
    mod-eq-sub-mod {n = h + suc k} {m = cap} (omega arith),
    mod-eq_of_lt {n = h + suc k - cap} {m = cap} (omega arith),
  )
]

-- A byte written just past the window's end extends the window by that byte.
pub window-update :
    (cells : ℕ → ℕ) (cap v n h i : ℕ)
    → h < cap
    → n < cap
    → i ≡ (h + n) % cap
    → window (update cells i v) cap h (suc n) ≡ window cells cap h n ++ v ∷ []
window-update cells cap v zero h i hh hn e =
    let at : i ≡ h = e ∙ rw add-zero (mod-eq_of_lt hh) in
    ap (λ x. x ∷ []) (rw at (update_self cells h v))
window-update cells cap v (suc n) h i hh hn e =
    ap₂ ◌∷◌ (update-ne cells i h v (rw e (index_ne h n cap hh hn))) (
      window-update cells cap v n ((h + 1) % cap) i (omega arith) (omega arith)
        (rw (index_shift h n cap) e))

-- The round at which a scan of `u` words from word `s` on comes to word `w`.
pub round_of : (s u w : ℕ) → s < u → w < u → (r : ℕ) × (r < u) × ((s + r) % u ≡ w)
round_of s u w hs hw = elim (dec_lt w s) [
  | yes before ↦ (w + u - s, omega arith, wrapped)
  | no after ↦ (w - s, omega arith, ap (λ k. k % u) (omega arith) ∙ mod-eq_of_lt hw)
]
  where
    wrapped : (s + (w + u - s)) % u ≡ w
    wrapped = ap (λ k. k % u) {y = w + u} (omega arith) ∙ grind arith
