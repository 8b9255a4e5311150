-- ===== src/Update/Render.antt =====
-- kernel/runtime/update.c: a manifest as text, and what the parser makes of it.
use native.Mathlib.Nat.{pow-suc}
use osai.Prelude.{
  ℕ, zero, suc, ◌+◌, ◌-◌, ◌*◌, ◌/◌, ◌%◌, ◌^◌, ◌<◌, ◌≡◌, refl, ap, ◌∙◌, arith, false, some, List, [],
  ◌∷◌, ◌++◌, length, All, ltb, if◌then◌else◌, Bool-cases, inl, inr,
}
use osai.Update.Manifest.{
  Seen, is_newline, skip_space, find_separator, find_end, read_number, hex_digit, read_hash,
  read_field, parse_loop,
}

-- A number in decimal, with at most `fuel` digits.
unfoldable pub decimal : ℕ → ℕ → List ℕ
decimal zero n = []
decimal (suc fuel) n =
    let rest = decimal fuel (n / 10) in
    if ltb n 10 then (n + b'0') ∷ [] else rest ++ (n % 10 + b'0') ∷ []

-- A hexadecimal digit.
abbrev pub hex_char : ℕ → ℕ
hex_char d = if ltb d 10 then d + b'0' else d - 10 + b'a'

-- Two digits for each byte.
unfoldable pub hex : List ℕ → List ℕ
hex [] = []
hex (b ∷ bytes) = hex_char (b / 16) ∷ hex_char (b % 16) ∷ hex bytes

-- A text of one line.
abbrev pub OneLine : List ℕ → Type 0
OneLine = All (λ c. is_newline c ≡ false)

read_number-append :
    (w : ℕ) (s : List ℕ) (d v : ℕ)
    → d < 10
    → read_number w v (s ++ (d + 48) ∷ []) ≡ (read_number w v s * 10 + d) % 2 ^ w
unfolding read_number
read_number-append w [] d v h = ground arith
read_number-append w (c ∷ s) d v h = read_number-append w s d _ h

pub read_number-decimal :
    (w fuel n : ℕ)
    → ((k : ℕ) → k < 2 ^ w → k % 2 ^ w ≡ k)
    → n < 2 ^ w
    → n < 10 ^ fuel
    → read_number w 0 (decimal fuel n) ≡ n
unfolding decimal read_number
read_number-decimal w zero n small h k = omega (arith, k)
read_number-decimal w (suc fuel) n small h k =
    let tens =
      read_number-decimal w fuel (n / 10) small (omega arith) (omega (arith, pow-suc 10 fuel)) in
    elim (Bool-cases (ltb n 10)) [
      | inl one ↦ rw one (
          read_number-append w [] n 0 (ground arith)
          ∙ ap (λ t. t % 2 ^ w) {x = 0 * 10 + n} (omega arith)
          ∙ small n h)
      | inr more ↦ rw more (
          read_number-append w (decimal fuel (n / 10)) (n % 10) 0 (omega arith)
          ∙ ap (λ t. (t * 10 + n % 10) % 2 ^ w) tens
          ∙ ap (λ t. t % 2 ^ w) (omega arith)
          ∙ small n h)
    ]

OneLine-append : (xs ys : List ℕ) → OneLine xs → OneLine ys → OneLine (xs ++ ys)
OneLine-append [] ys p q = q
OneLine-append (x ∷ xs) ys p q = (p.0, OneLine-append xs ys p.1 q)

pub decimal-OneLine : (fuel n : ℕ) → OneLine (decimal fuel n)
unfolding decimal
decimal-OneLine zero n = tt
decimal-OneLine (suc fuel) n = elim (Bool-cases (ltb n 10)) [
  | inl one ↦ rw one (ground arith, tt)
  | inr more ↦
      rw more (
        OneLine-append (decimal fuel (n / 10)) _ (decimal-OneLine fuel (n / 10)) (ground arith, tt))
]

find_end_lem :
    (value rest : List ℕ) → OneLine value → find_end (value ++ 10 ∷ rest) ≡ (value, 10 ∷ rest)
unfolding find_end
find_end_lem [] rest h = refl
find_end_lem (c ∷ value) rest h = rw (h.0, find_end_lem value rest h.1) refl

hex_digit_lem : (d : ℕ) → d < 16 → hex_digit (hex_char d) ≡ some d
unfolding hex_digit
hex_digit_lem d h = ground arith

read_hash_step :
    (k h l : ℕ) (s : List ℕ) {hi lo : ℕ} {bytes : List ℕ}
    → hex_digit h ≡ some hi
    → hex_digit l ≡ some lo
    → read_hash k s ≡ some bytes
    → read_hash (suc k) (h ∷ l ∷ s) ≡ some ((hi * 16 + lo) ∷ bytes)
unfolding read_hash
read_hash_step k h l s p q r = rw (p, q, r, read_hash) refl

pub read_hash-hex :
    (bytes : List ℕ) → All (λ b. b < 256) bytes → read_hash (length bytes) (hex bytes) ≡ some bytes
unfolding read_hash hex
read_hash-hex [] h = refl
read_hash-hex (b ∷ bytes) h =
    read_hash_step (length bytes) (hex_char (b / 16)) (hex_char (b % 16)) (hex bytes)
      (hex_digit_lem (b / 16) (omega arith)) (hex_digit_lem (b % 16) (omega arith))
      (read_hash-hex bytes h.1)
    ∙ ap {A = ℕ} (λ n. some (n ∷ bytes)) (omega arith)

pub hex-OneLine : (bytes : List ℕ) → OneLine (hex bytes)
unfolding hex
hex-OneLine [] = tt
hex-OneLine (b ∷ bytes) = (ground arith, (ground arith, hex-OneLine bytes))

pub length-hex : (bytes : List ℕ) → length (hex bytes) ≡ 2 * length bytes
unfolding hex
length-hex [] = refl
length-hex (b ∷ bytes) = omega (arith, length-hex bytes)

-- One line of the text.
unfoldable pub line : List ℕ → List ℕ → List ℕ → List ℕ
line key value rest = key ++ b'=' ∷ (value ++ 10 ∷ rest)

-- A key as the parser finds it: it does not begin with a space, and ends at the first '='.
pub record IsKey (key : List ℕ) : Type 0 where
  pub starts : (rest : List ℕ) → skip_space (key ++ b'=' ∷ rest) ≡ key ++ b'=' ∷ rest
  pub ends : (rest : List ℕ) → find_separator (key ++ b'=' ∷ rest) ≡ some (key, rest)

-- Reading one line, whatever newlines stand before it.
pub parse_loop-line :
    {key : List ℕ} (value : List ℕ) (fuel : ℕ) (text rest : List ℕ) (seen : Seen) {seen' : Seen}
    → IsKey key
    → OneLine value
    → skip_space text ≡ skip_space (line key value rest)
    → read_field key value seen ≡ some seen'
    → parse_loop (suc fuel) text seen ≡ parse_loop fuel (10 ∷ rest) seen'
unfolding parse_loop line
parse_loop-line {key} value fuel text rest seen {seen'} k one same reads =
    let found : find_separator (skip_space text) ≡ some (key, value ++ 10 ∷ rest) =
      ap find_separator (same ∙ k.starts (value ++ 10 ∷ rest)) ∙ k.ends (value ++ 10 ∷ rest) in
    rw (found, find_end_lem value rest one, reads, parse_loop)
      (ap (λ (p : List ℕ × List ℕ). parse_loop fuel p.1 seen') (find_end_lem value rest one))

pub parse_loop_end :
    (fuel : ℕ) (seen : Seen) → parse_loop (suc fuel) (10 ∷ []) seen ≡ some (some seen)
unfolding parse_loop
parse_loop_end fuel seen = refl

pub skip_newline : (text : List ℕ) → skip_space (10 ∷ text) ≡ skip_space text
unfolding skip_space
skip_newline text = refl
