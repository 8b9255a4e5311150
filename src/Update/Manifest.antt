-- ===== src/Update/Manifest.antt =====
-- kernel/runtime/update.c: the manifest of an update, lines of the form key=value. What is left of
-- the text at `pos` is a list of bytes.
use osai.Prelude.{
  Status, ℕ, zero, suc, ◌+◌, ◌-◌, ◌*◌, ◌%◌, ◌^◌, Bool, ◌&&◌, ◌||◌, Option, none, some, List, [],
  ◌∷◌, length, take, ltb, leb, ◌==◌, if◌then◌else◌, bit_or, bit_and,
}
use osai.Prelude.Status.{ok, invalid}
use osai.Update.{Updates}
use osai.Update.Target.{char_at}

-- `xaios_update_manifest_t`
pub record Manifest : Type 0 where
  pub version : ℕ
  pub target : List ℕ
  pub payload_size : ℕ
  pub payload_hash : List ℕ
  pub generation : ℕ

abbrev pub no_manifest : Manifest
no_manifest = record {
  version = 0;
  target = [];
  payload_size = 0;
  payload_hash = [];
  generation = 0;
}

-- The end of a line.
abbrev pub is_newline : ℕ → Bool
is_newline c = c == 10 || c == 13

-- "Skip whitespace/newlines"
unfoldable pub skip_space : List ℕ → List ℕ
skip_space [] = []
skip_space (c ∷ s) = let rest = skip_space s in if is_newline c || c == 32 then rest else c ∷ s

-- "Find '=' separator": the key, and what follows the sign.
unfoldable pub find_separator : List ℕ → Option (List ℕ × List ℕ)
find_separator [] = none
find_separator (c ∷ s) =
    let rest = find_separator s in
    if c == b'='
    then some ([], s)
    else elim rest [ none ↦ none | some (key, after) ↦ some (c ∷ key, after) ]

-- "Find end of value": the value, and the rest from the end of its line.
unfoldable pub find_end : List ℕ → List ℕ × List ℕ
find_end [] = ([], [])
find_end (c ∷ s) =
    let (value, rest) = find_end s in if is_newline c then ([], c ∷ s) else (c ∷ value, rest)

-- The loop that reads a number of a width; other characters are skipped.
unfoldable pub read_number : ℕ → ℕ → List ℕ → ℕ
read_number width v [] = v
read_number width v (c ∷ s) =
    read_number width (if leb b'0' c && leb c b'9' then (v * 10 + (c - b'0')) % 2 ^ width else v) s

-- `hex_digit`; none for -1.
unfoldable pub hex_digit : ℕ → Option ℕ
hex_digit c =
    if leb b'0' c && leb c b'9'
    then some (c - b'0')
    else if leb b'a' c && leb c b'f'
    then some (10 + (c - b'a'))
    else if leb b'A' c && leb c b'F'
    then some (10 + (c - b'A'))
    else none

-- The loop over `k` bytes of the hash, two digits each; "(hi << 4) | lo" of two digits.
unfoldable pub read_hash : ℕ → List ℕ → Option (List ℕ)
unfolding hex_digit
read_hash zero s = some []
read_hash (suc k) (h ∷ l ∷ s) =
    let rest = read_hash k s in
    elim (hex_digit h) [
      | none ↦ none
      | some hi ↦ elim (hex_digit l) [
        | none ↦ none
        | some lo ↦ elim rest [ none ↦ none | some bytes ↦ some ((hi * 16 + lo) ∷ bytes) ]
      ]
    ]
read_hash (suc k) s = none

-- `out` and `fields_seen`.
abbrev pub Seen : Type 0
Seen = Manifest × ℕ

-- "Parse known keys", by the length of the key and its first letters; none for ERR_INVALID.
unfoldable pub read_field : List ℕ → List ℕ → Seen → Option Seen
unfolding read_number read_hash char_at
read_field key value (out, fields) =
    let len = length key in
    let k0 = char_at key 0 in
    let k1 = char_at key 1 in
    if len == 7 && k0 == b'v' && k1 == b'e' && char_at key 2 == b'r'
    then some (record out { version = read_number 32 0 value }, bit_or fields 1)
    else if len == 6 && k0 == b't' && k1 == b'a'
    then some (
      record out { target = take (if ltb (length value) 31 then length value else 31) value },
      bit_or fields 2,
    )
    else if len == 4 && k0 == b's' && k1 == b'i'
    then some (record out { payload_size = read_number 64 0 value }, bit_or fields 4)
    else if len == 4 && k0 == b'h' && k1 == b'a'
    then (if leb 64 (length value)
        then elim (read_hash 32 value) [
          | none ↦ none
          | some hash ↦ some (record out { payload_hash = hash }, bit_or fields 8)
        ]
        else some (out, fields))
    else if len == 10 && k0 == b'g' && k1 == b'e'
    then some (record out { generation = read_number 32 0 value }, bit_or fields 16)
    else some (out, fields)

-- The loop over the lines, on fuel; the inner none is an early ERR_INVALID.
unfoldable pub parse_loop : ℕ → List ℕ → Seen → Option (Option Seen)
unfolding skip_space find_separator find_end read_field
parse_loop zero text seen = none
parse_loop (suc fuel) text seen = elim (find_separator (skip_space text)) [
  | none ↦ some (some seen)
  | some (key, after) ↦ elim (read_field key (find_end after).0 seen) [
    | none ↦ some none
    | some seen' ↦ parse_loop fuel (find_end after).1 seen'
  ]
]

-- The end of `update_parse_manifest`.
unfoldable pub finish_parse : Option Seen → Updates → Status × Option Manifest × Updates
finish_parse none u = (invalid, none, u)
finish_parse (some (out, fields)) u =
    if bit_and fields 31 == 31
    then (
      ok,
      some out,
      record u { delivery = record u.delivery { bytes_expected = out.payload_size } },
    )
    else (invalid, none, u)

-- `update_parse_manifest` of a text that is not null, with the manifest if it is accepted. Every
-- line takes a '=' off the text: its length is fuel enough.
unfoldable pub parse_text : List ℕ → Updates → Option (Status × Option Manifest × Updates)
unfolding parse_loop finish_parse
parse_text text u = elim (parse_loop (suc (length text)) text (no_manifest, 0)) [
  | none ↦ none
  | some seen ↦ some (finish_parse seen u)
]

-- `update_parse_manifest`; the inner none is a null pointer. What is written to `out` before an
-- error is left out.
unfoldable pub update_parse_manifest :
    Option (List ℕ) → Updates → Option (Status × Option Manifest × Updates)
unfolding parse_text
update_parse_manifest none u = some (invalid, none, u)
update_parse_manifest (some text) u =
    if length text == 0 then some (invalid, none, u) else parse_text text u
