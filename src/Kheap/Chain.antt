-- ===== src/Kheap/Chain.antt =====
-- kernel/mm/kheap.c: the free list, and what is left of it when a block is taken out.
use osai.Prelude.{ℕ, ◌≡◌, ◌≢◌, sym, List, [], ◌∷◌, All, update, update-ne, update_self, subst}
use osai.Kheap.{Link, head, next_of}

-- From `p` the fields `next` lead through the addresses to null.
abbrev pub Linked : (ℕ → ℕ) → ℕ → List ℕ → Type 0
Linked next p [] = p ≡ 0
Linked next p (x ∷ xs) = (p ≡ x) × (x ≢ 0) × Linked next (next x) xs

abbrev pub NotIn : ℕ → List ℕ → Type 0
NotIn y = All (λ x. x ≢ y)

abbrev pub Distinct : List ℕ → Type 0
Distinct [] = Unit
Distinct (x ∷ xs) = NotIn x xs × Distinct xs

-- A write to the field of another block leaves a chain as it is.
pub Linked-update :
    (next : ℕ → ℕ) (y v p : ℕ) (xs : List ℕ)
    → NotIn y xs
    → Linked next p xs
    → Linked (update next y v) p xs
Linked-update next y v p [] out l = l
Linked-update next y v p (x ∷ xs) out l =
    let same : update next y v x ≡ next x = update-ne next y x v (λ e. out.0 (sym e)) in
    (
      l.0,
      l.1,
      subst (λ q. Linked (update next y v) q xs) (sym same)
          (Linked-update next y v (next x) xs out.1 l.2),
    )

-- What follows `b` in a list.
pub data Drop (b : ℕ) : List ℕ → List ℕ → Type 0 where
  found : {ws : List ℕ} → Drop b (b ∷ ws) ws
  skip : {z : ℕ} {xs ws : List ℕ} → Drop b xs ws → Drop b (z ∷ xs) ws

-- What is left of a chain when the pointer at `l` is moved behind `b`: the blocks between them are
-- dropped as well.
pub data Takes (b : ℕ) : Link → List ℕ → List ℕ → Type 0 where
  at_head : {xs ws : List ℕ} → Drop b xs ws → Takes b head xs ws
  at_next : {y : ℕ} {xs ws : List ℕ} → Drop b xs ws → Takes b (next_of y) (y ∷ xs) (y ∷ ws)
  below :
      {w y : ℕ} {xs ws : List ℕ} → Takes b (next_of w) xs ws → Takes b (next_of w) (y ∷ xs) (y ∷ ws)

module _ {κ} (P : ℕ → Type κ) where
  pub All-Drop : {b : ℕ} {xs ws : List ℕ} → Drop b xs ws → All P xs → P b × All P ws
  All-Drop found a = (a.0, a.1)
  All-Drop (skip d) a = All-Drop d a.1

  pub All-Takes : {b : ℕ} {l : Link} {xs ws : List ℕ} → Takes b l xs ws → All P xs → P b × All P ws
  All-Takes (at_head d) a = All-Drop d a
  All-Takes (at_next d) a = let (p, q) = All-Drop d a.1 in (p, (a.0, q))
  All-Takes (below t) a = let (p, q) = All-Takes t a.1 in (p, (a.0, q))

pub Linked-Drop :
    {b : ℕ} {xs ws : List ℕ} (next : ℕ → ℕ) (p : ℕ)
    → Drop b xs ws
    → Linked next p xs
    → Linked next (next b) ws
Linked-Drop next p found l = l.2
Linked-Drop next p (skip {z} d) l = Linked-Drop next (next z) d l.2

-- The field that is written belongs to a block of the chain.
writes : {b w : ℕ} {xs ws : List ℕ} {y : ℕ} → Takes b (next_of w) xs ws → NotIn y xs → w ≢ y
writes (at_next d) out = out.0
writes (below t) out = writes t out.1

-- The chain after `*prev = best->next_free`, from the head or through a field.
pub Linked-Takes :
    {b w : ℕ} {xs ws : List ℕ} (next : ℕ → ℕ) (p : ℕ)
    → Takes b (next_of w) xs ws
    → Distinct xs
    → Linked next p xs
    → Linked (update next w (next b)) p ws
Linked-Takes {b} {w} next p (at_next {y} {xs} {ws} d) distinct l = (
  l.0,
  l.1,
  subst (λ q. Linked (update next w (next b)) q ws) (sym (update_self next w (next b)))
      (Linked-update next w (next b) (next b) ws (All-Drop (λ x. x ≢ w) d distinct.0).1
        (Linked-Drop next (next y) d l.2)),
)
Linked-Takes {b} {w} next p (below {y} {ws} t) distinct l =
    let same = update-ne next w y (next b) (writes t distinct.0) in
    (
      l.0,
      l.1,
      subst (λ q. Linked (update next w (next b)) q ws) (sym same)
          (Linked-Takes next (next y) t distinct.1 l.2),
    )
