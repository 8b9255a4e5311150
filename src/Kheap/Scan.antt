-- ===== src/Kheap/Scan.antt =====
-- kernel/mm/kheap.c: the search of the free list ends, and finds a block that fits.
use osai.Prelude.{
  ℕ, zero, suc, ◌+◌, ◌%◌, ◌≤◌, ◌<◌, ◌≡◌, refl, sym, subst, arith, true, false, none, some, List, [],
  ◌∷◌, length, ◌==◌, Bool-cases, inl, inr,
}
use osai.Kheap.{
  header_size, Heap, Link, head, next_of, Best, is_better, is_large, is_misaligned, scan,
}
use osai.Kheap.Chain.{Linked, Drop, found, skip, Takes, at_head, at_next, below}

-- The end of a chain from one of its blocks.
pub data Suffix : List ℕ → List ℕ → Type 0 where
  whole : {xs : List ℕ} → Suffix xs xs
  tail : {y : ℕ} {cs xs : List ℕ} → Suffix cs xs → Suffix (y ∷ cs) xs

Suffix-step : {z : ℕ} {cs xs : List ℕ} → Suffix cs (z ∷ xs) → Suffix cs xs
Suffix-step whole = tail whole
Suffix-step (tail s) = tail (Suffix-step s)

-- Through the field of `z`, all that follows can be taken.
Suffix-Takes :
    {z b : ℕ} {cs xs ws : List ℕ}
    → Suffix cs (z ∷ xs)
    → Drop b xs ws
    → (rest : List ℕ) × Takes b (next_of z) cs rest
Suffix-Takes whole d = (_, at_next d)
Suffix-Takes (tail s) d = let (rest, t) = Suffix-Takes s d in (_, below t)

-- A block of the chain `cs` that is large enough and aligned, with the link to take it out by.
pub record Fits (h : Heap) (size align : ℕ) (cs : List ℕ) (b : ℕ) (l : Link) : Type 0 where
  pub large : size ≤ h.size b
  pub aligned : (b + header_size) % align ≡ 0
  pub rest : List ℕ
  pub takes : Takes b l cs rest

module _ (h : Heap) (size align : ℕ) (cs : List ℕ) where
  abbrev pub BestFits : Best → Type 0
  BestFits none = Unit
  BestFits (some (b, l)) = Fits h size align cs b l

  abbrev pub Reach : Link → List ℕ → Type 0
  Reach l xs = (b : ℕ) (ws : List ℕ) → Drop b xs ws → (rest : List ℕ) × Takes b l cs rest

  taken :
      (z : ℕ) (xs : List ℕ) (l : Link)
      → Reach l (z ∷ xs)
      → is_large h size z ≡ true
      → is_misaligned align z ≡ false
      → Fits h size align cs z l
  taken z xs l reach large aligned =
      let (rest, t) = reach z xs found in
      record { large = ground arith; aligned = ground arith; rest = rest; takes = t }

  -- With fuel for the chain the search ends, with none or with a block that fits.
  pub scan-BestFits :
      (fuel cur : ℕ) (l : Link) (best : Best) (xs : List ℕ)
      → length xs < fuel
      → Linked h.next_free cur xs
      → Suffix cs xs
      → Reach l xs
      → BestFits best
      → (r : Best) × (scan fuel size align cur l best h ≡ some r) × BestFits r
  unfolding scan
  scan-BestFits zero cur l best xs short linked s reach ok = absurd (omega arith)
  scan-BestFits (suc fuel) cur l best [] short linked s reach ok = (best, rw linked refl, ok)
  scan-BestFits (suc fuel) cur l best (z ∷ xs) short linked s reach ok =
      let there : (cur == 0) ≡ false = ground (arith, linked.0, linked.1) in
      let at = linked.0 in
      let next_linked : Linked h.next_free (h.next_free cur) xs =
        subst (λ c. Linked h.next_free (h.next_free c) xs) (sym at) linked.2 in
      let behind : Reach (next_of cur) xs = λ b ws d.
        subst (λ c. (rest : List ℕ) × Takes b (next_of c) cs rest) (sym at) (Suffix-Takes s d) in
      let pass =
        scan-BestFits fuel (h.next_free cur) (next_of cur) best xs (omega (arith, short))
          next_linked (Suffix-step s) behind ok in
      elim (Bool-cases (is_large h size cur)) [
        | inr small ↦ let (r, e, k) = pass in (r, rw (there, small, scan) e, k)
        | inl large ↦ elim (Bool-cases (is_misaligned align cur)) [
          | inl off ↦
              let (r, e, k) =
                scan-BestFits fuel (h.next_free cur) l best xs (omega (arith, short)) next_linked
                  (Suffix-step s) (λ b ws d. reach b ws (skip d)) ok in
              (r, rw (there, large, off, scan) e, k)
          | inr on ↦ elim (Bool-cases (is_better h cur best)) [
            | inr worse ↦ let (r, e, k) = pass in (r, rw (there, large, on, worse, scan) e, k)
            | inl better ↦
                let fits : Fits h size align cs cur l =
                  subst (λ c. Fits h size align cs c l) (sym at)
                    (taken z xs l reach (subst (λ c. is_large h size c ≡ true) at large)
                      (subst (λ c. is_misaligned align c ≡ false) at on)) in
                let (r, e, k) =
                  scan-BestFits fuel (h.next_free cur) (next_of cur) (some (cur, l)) xs
                    (omega (arith, short)) next_linked (Suffix-step s) behind fits in
                (r, rw (there, large, on, better, scan) e, k)
          ]
        ]
      ]

-- The search from the head of the list.
pub scan_lem :
    (h : Heap) (size align fuel : ℕ) (cs : List ℕ)
    → Linked h.next_free h.free_list cs
    → length cs < fuel
    → (r : Best) × (scan fuel size align h.free_list head none h ≡ some r)
      × BestFits h size align cs r
scan_lem h size align fuel cs linked short =
    scan-BestFits h size align cs fuel h.free_list head none cs short linked whole
      (λ b ws d. (ws, at_head d)) tt
