-- ===== src/Kheap/Pairs.antt =====
-- kernel/mm/kheap.c: relations between all blocks of a list, through the removal of one.
use osai.Prelude.{ℕ, ◌+◌, ◌<◌, ◌≡◌, arith, List, [], ◌∷◌, All, length}
use osai.Kheap.{Link}
use osai.Kheap.Chain.{Drop, found, skip, Takes, at_head, at_next, below, All-Drop, All-Takes}

-- A relation between each block and those behind it.
abbrev pub Pairwise {κ} : (ℕ → ℕ → Type κ) → List ℕ → Type κ
Pairwise R [] = Unit
Pairwise R (x ∷ xs) = All (R x) xs × Pairwise R xs

-- One element less.
pub data Remove (x : ℕ) : List ℕ → List ℕ → Type 0 where
  here : {xs : List ℕ} → Remove x (x ∷ xs) xs
  there : {y : ℕ} {xs ys : List ℕ} → Remove x xs ys → Remove x (y ∷ xs) (y ∷ ys)

module _ (P Q : ℕ → Type 0) where
  pub All-map : (xs : List ℕ) → ((x : ℕ) → P x → Q x) → All P xs → All Q xs
  All-map [] f a = tt
  All-map (x ∷ xs) f a = (f x a.0, All-map xs f a.1)

  pub All-both : (xs : List ℕ) → All P xs → All Q xs → All (λ x. P x × Q x) xs
  All-both [] a b = tt
  All-both (x ∷ xs) a b = ((a.0, b.0), All-both xs a.1 b.1)

pub All-Remove :
    (P : ℕ → Type 0) {x : ℕ} {xs ys : List ℕ} → Remove x xs ys → All P xs → P x × All P ys
All-Remove P here a = (a.0, a.1)
All-Remove P (there r) a = let (p, q) = All-Remove P r a.1 in (p, (a.0, q))

pub length-Drop : {b : ℕ} {xs ws : List ℕ} → Drop b xs ws → length ws < length xs
length-Drop found = omega arith
length-Drop (skip d) = omega (arith, length-Drop d)

pub length-Takes : {b : ℕ} {l : Link} {xs ws : List ℕ} → Takes b l xs ws → length ws < length xs
length-Takes (at_head d) = length-Drop d
length-Takes (at_next d) = omega (arith, length-Drop d)
length-Takes (below t) = omega (arith, length-Takes t)

pub length-Remove : {x : ℕ} {xs ys : List ℕ} → Remove x xs ys → length xs ≡ length ys + 1
length-Remove here = omega arith
length-Remove (there r) = omega (arith, length-Remove r)

module _ (R : ℕ → ℕ → Type 0) (flip : (x y : ℕ) → R x y → R y x) where
  pub Pairwise-Drop :
      {b : ℕ} {xs ws : List ℕ} → Drop b xs ws → Pairwise R xs → All (R b) ws × Pairwise R ws
  Pairwise-Drop found p = (p.0, p.1)
  Pairwise-Drop (skip d) p = Pairwise-Drop d p.1

  pub Pairwise-Takes :
      {b : ℕ} {l : Link} {xs ws : List ℕ}
      → Takes b l xs ws
      → Pairwise R xs
      → All (R b) ws × Pairwise R ws
  Pairwise-Takes (at_head d) p = Pairwise-Drop d p
  Pairwise-Takes {b} (at_next {y} d) p =
      let (q, r) = Pairwise-Drop d p.1 in
      let (s, t) = All-Drop (R y) d p.0 in ((flip y b s, q), (t, r))
  Pairwise-Takes {b} (below {w} {y} k) p =
      let (q, r) = Pairwise-Takes k p.1 in
      let (s, t) = All-Takes (R y) k p.0 in ((flip y b s, q), (t, r))

  pub Pairwise-Remove :
      {x : ℕ} {xs ys : List ℕ} → Remove x xs ys → Pairwise R xs → All (R x) ys × Pairwise R ys
  Pairwise-Remove here p = (p.0, p.1)
  Pairwise-Remove {x} (there {y} r) p =
      let (q, s) = Pairwise-Remove r p.1 in
      let (t, v) = All-Remove (R y) r p.0 in ((flip y x t, q), (v, s))

-- A relation that follows from another for elements with a property.
module _ (P : ℕ → Type 0) (R S : ℕ → ℕ → Type 0)
    (weaken : (x y : ℕ) → P x → P y → R x y → S x y) where
  pub All-weaken : (x : ℕ) (ys : List ℕ) → P x → All P ys → All (R x) ys → All (S x) ys
  All-weaken x [] p ps a = tt
  All-weaken x (y ∷ ys) p ps a = (weaken x y p ps.0 a.0, All-weaken x ys p ps.1 a.1)

  pub Pairwise-weaken : (xs : List ℕ) → All P xs → Pairwise R xs → Pairwise S xs
  Pairwise-weaken [] ps a = tt
  Pairwise-weaken (x ∷ xs) ps a = (All-weaken x xs ps.0 ps.1 a.0, Pairwise-weaken xs ps.1 a.1)

  pub Cross-weaken :
      (xs ys : List ℕ)
      → All P xs
      → All P ys
      → All (λ x. All (R x) ys) xs
      → All (λ x. All (S x) ys) xs
  Cross-weaken [] ys ps qs a = tt
  Cross-weaken (x ∷ xs) ys ps qs a = (All-weaken x ys ps.0 qs a.0, Cross-weaken xs ys ps.1 qs a.1)
