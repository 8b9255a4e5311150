-- ===== src/Update/Parsed.antt =====
-- kernel/runtime/update.c: the parser of manifests ends on every text.
use osai.Prelude.{
  Status, ℕ, zero, suc, ◌≤◌, ◌<◌, ◌≡◌, refl, arith, ◌==◌, Option, none, some, List, [], ◌∷◌, length,
  Bool-cases, Option-cases, inl, inr,
}
use osai.Prelude.Status.{invalid}
use osai.Update.{Updates}
use osai.Update.Manifest.{
  Manifest, Seen, skip_space, find_separator, find_end, read_field, parse_loop, parse_text,
  finish_parse, update_parse_manifest, no_manifest,
}

length-skip_space : (s : List ℕ) → length (skip_space s) ≤ length s
unfolding skip_space
length-skip_space [] = omega arith
length-skip_space (c ∷ s) = ground (arith, length-skip_space s)

length-find_end : (s : List ℕ) → length (find_end s).1 ≤ length s
unfolding find_end
length-find_end [] = omega arith
length-find_end (c ∷ s) = ground (arith, length-find_end s)

length-find_separator :
    (s key after : List ℕ) → find_separator s ≡ some (key, after) → length after < length s
unfolding find_separator
length-find_separator [] key after h = absurd cc
length-find_separator (c ∷ s) key after h = elim (Option-cases (find_separator s)) [
  | inl none_left ↦ ground arith
  | inr ((key', after'), found) ↦ ground (arith, length-find_separator s key' after' found)
]

parse_loop_returns :
    (fuel : ℕ) (text : List ℕ) (seen : Seen)
    → length text < fuel
    → (r : Option Seen) × (parse_loop fuel text seen ≡ some r)
unfolding parse_loop
parse_loop_returns zero text seen h = absurd (omega arith)
parse_loop_returns (suc fuel) text seen h = elim (Option-cases (find_separator (skip_space text))) [
  | inl no_more ↦ (some seen, rw (no_more, parse_loop) refl)
  | inr ((key, after), found) ↦ elim (Option-cases (read_field key (find_end after).0 seen)) [
    | inl bad ↦ (none, rw (found, bad, parse_loop) refl)
    | inr (seen', reads) ↦
        let shorter = length-find_separator (skip_space text) key after found in
        let (r, ends) =
          parse_loop_returns fuel (find_end after).1 seen'
            (omega (arith, shorter, length-skip_space text, length-find_end after)) in
        (r, rw (found, reads, parse_loop) ends)
  ]
]

parse_text_returns :
    (text : List ℕ) (u : Updates)
    → (out : Status × Option Manifest × Updates) × (parse_text text u ≡ some out)
unfolding parse_text
parse_text_returns text u =
    let (r, ends) = parse_loop_returns (suc (length text)) text (no_manifest, 0) (omega arith) in
    (finish_parse r u, rw (ends, parse_text) refl)

-- The parser of manifests returns for every text and in every state: the fuel of its loop, one more
-- than the length of the text, is enough.
pub update_parse_manifest_returns :
    (text : Option (List ℕ)) (u : Updates)
    → (out : Status × Option Manifest × Updates) × (update_parse_manifest text u ≡ some out)
unfolding update_parse_manifest
update_parse_manifest_returns none u = (_, refl)
update_parse_manifest_returns (some text) u = elim (Bool-cases (length text == 0)) [
  | inl empty ↦ ((invalid, none, u), rw empty refl)
  | inr more ↦ let (out, ends) = parse_text_returns text u in (out, rw more ends)
]
