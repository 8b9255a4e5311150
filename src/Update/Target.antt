-- ===== src/Update/Target.antt =====
-- kernel/runtime/update.c: the target of an update. A C string is the list of its bytes, without the
-- zero at its end; a byte from 128 is a negative `char`, and out of the range that is tested.
use osai.Prelude.{
  ℕ, zero, suc, ◌+◌, ◌-◌, Bool, true, false, not, ◌&&◌, ◌||◌, List, [], ◌∷◌, length, ltb, ◌==◌,
  if◌then◌else◌,
}

-- `s[i]`: the byte, and zero at the end.
unfoldable pub char_at : List ℕ → ℕ → ℕ
char_at [] i = 0
char_at (c ∷ s) zero = c
char_at (c ∷ s) (suc i) = char_at s i

-- The test of one character of a token.
unfoldable pub char_refused : ℕ → Bool
char_refused c =
    ltb c b'!'
    || ltb b'~' c
    || c == b':'
    || c == b'*'
    || c == b'?'
    || c == b'"'
    || c == b'<'
    || c == b'>'
    || c == b'|'

-- The loop of `token_valid`.
unfoldable pub all_chars : List ℕ → Bool
unfolding char_refused
all_chars [] = true
all_chars (c ∷ s) = not (char_refused c) && all_chars s

-- `token_valid`
unfoldable pub token_valid : List ℕ → ℕ → Bool
unfolding all_chars
token_valid s max_len = not (length s == 0) && ltb (length s) max_len && all_chars s

-- "target[i] == '/' && target[i + 1] == '/'"
unfoldable pub double_slash : List ℕ → ℕ → Bool
unfolding char_at
double_slash s i = char_at s i == b'/' && char_at s (i + 1) == b'/'

-- The test for a component "..".
unfoldable pub dot_dot : List ℕ → ℕ → Bool
unfolding char_at
dot_dot s i =
    char_at s i == b'.'
    && char_at s (i + 1) == b'.'
    && (i == 0 || char_at s (i - 1) == b'/')
    && (char_at s (i + 2) == b'/' || char_at s (i + 2) == 0)

-- The loop of `target_valid`, from index `i` with `k` characters left.
unfoldable pub components_valid : ℕ → ℕ → List ℕ → Bool
unfolding double_slash dot_dot
components_valid zero i s = true
components_valid (suc k) i s =
    let rest = components_valid k (i + 1) s in
    if double_slash s i then false else if dot_dot s i then false else rest

-- `target_valid`, with UPDATE_TARGET_MAX.
unfoldable pub target_valid : List ℕ → Bool
unfolding token_valid components_valid
target_valid s =
    let len = length s in
    if not (token_valid s 32)
      || ltb len 2
      || not (char_at s 0 == b'/')
      || char_at s (len - 1) == b'/'
    then false
    else components_valid len 0 s

-- `copy_token`: at most `capacity - 1` characters.
unfoldable pub copy_token : ℕ → List ℕ → List ℕ
copy_token capacity [] = []
copy_token capacity (c ∷ s) = if ltb 1 capacity then c ∷ copy_token (capacity - 1) s else []
