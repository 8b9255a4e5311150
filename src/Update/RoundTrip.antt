-- ===== src/Update/RoundTrip.antt =====
-- kernel/runtime/update.c: the parser of manifests reads back every manifest that is written out as
-- the five lines of the self test.
use native.Mathlib.Nat.{mod-eq_of_lt}
use osai.Prelude.{
  ℕ, suc, ◌^◌, ◌<◌, ◌≤◌, ◌≡◌, ◌≢◌, refl, sym, ap, ◌∙◌, arith, true, false, ◌==◌, some, List, [],
  ◌∷◌, length, All, take, take-all, leb, ltb, subst, if◌then◌else◌,
}
use osai.Prelude.Status.{ok}
use osai.Update.{Updates}
use osai.Update.Target.{char_at}
use osai.Update.Manifest.{
  Manifest, no_manifest, skip_space, find_separator, read_hash, read_field, parse_loop, parse_text,
  update_parse_manifest,
}
use osai.Update.Render.{
  decimal, hex, OneLine, read_number-decimal, decimal-OneLine, read_hash-hex, hex-OneLine,
  length-hex, line, IsKey, parse_loop-line, parse_loop_end, skip_newline,
}

abbrev version_key : List ℕ
version_key = b'v' ∷ b'e' ∷ b'r' ∷ b's' ∷ b'i' ∷ b'o' ∷ b'n' ∷ []

abbrev target_key : List ℕ
target_key = b't' ∷ b'a' ∷ b'r' ∷ b'g' ∷ b'e' ∷ b't' ∷ []

abbrev size_key : List ℕ
size_key = b's' ∷ b'i' ∷ b'z' ∷ b'e' ∷ []

abbrev hash_key : List ℕ
hash_key = b'h' ∷ b'a' ∷ b's' ∷ b'h' ∷ []

abbrev generation_key : List ℕ
generation_key = b'g' ∷ b'e' ∷ b'n' ∷ b'e' ∷ b'r' ∷ b'a' ∷ b't' ∷ b'i' ∷ b'o' ∷ b'n' ∷ []

-- The text of a manifest: a line for each field, numbers in decimal and the hash in hexadecimal.
unfoldable pub render : Manifest → List ℕ
unfolding line
render m = line version_key (decimal 10 m.version) (
    line target_key m.target (
      line size_key (decimal 20 m.payload_size)
        (line hash_key (hex m.payload_hash) (line generation_key (decimal 10 m.generation) []))))

-- The fields fit the types of the structure, and the target its array and a line.
pub record IsManifest (m : Manifest) : Type 0 where
  pub version : m.version < 2 ^ 32
  pub target : length m.target ≤ 31
  pub on_a_line : OneLine m.target
  pub size : m.payload_size < 2 ^ 64
  pub hash : length m.payload_hash ≡ 32
  pub bytes : All (λ b. b < 256) m.payload_hash
  pub generation : m.generation < 2 ^ 32

version-IsKey : IsKey version_key
unfolding skip_space find_separator
version-IsKey = record { starts = λ rest. refl; ends = λ rest. refl }

target-IsKey : IsKey target_key
unfolding skip_space find_separator
target-IsKey = record { starts = λ rest. refl; ends = λ rest. refl }

size-IsKey : IsKey size_key
unfolding skip_space find_separator
size-IsKey = record { starts = λ rest. refl; ends = λ rest. refl }

hash-IsKey : IsKey hash_key
unfolding skip_space find_separator
hash-IsKey = record { starts = λ rest. refl; ends = λ rest. refl }

generation-IsKey : IsKey generation_key
unfolding skip_space find_separator
generation-IsKey = record { starts = λ rest. refl; ends = λ rest. refl }

-- What the fields of the first lines make of the empty manifest.
abbrev partial : ℕ → List ℕ → ℕ → List ℕ → Manifest
partial v t s h = record {
  version = v;
  target = t;
  payload_size = s;
  payload_hash = h;
  generation = 0;
}

take_whole : (s : List ℕ) → length s ≤ 31 → take (if ltb (length s) 31 then length s else 31) s ≡ s
take_whole s h = take-all (if ltb (length s) 31 then length s else 31) s (ground arith)

-- The result for a text whose lines have all been read.
update_parse_manifest_seen :
    (text : List ℕ) (m : Manifest) (u : Updates)
    → length text ≢ 0
    → parse_loop (suc (length text)) text (no_manifest, 0) ≡ some (some (m, 31))
    → update_parse_manifest (some text) u
      ≡ some (
        ok,
        some m,
        record u { delivery = record u.delivery { bytes_expected = m.payload_size } },
      )
unfolding update_parse_manifest
update_parse_manifest_seen text m u some_text e =
    let there : (length text == 0) ≡ false = ground arith in rw (there, parse_text, e) refl

module _ (m : Manifest) (k : IsManifest m) where
  reads_version :
      read_field version_key (decimal 10 m.version) (no_manifest, 0)
      ≡ some (partial m.version [] 0 [], 1)
  unfolding read_field char_at
  reads_version =
      ap (λ n. some (partial n [] 0 [], 1))
        (read_number-decimal 32 10 m.version (λ n h. mod-eq_of_lt h) k.version
          (omega (arith, k.version)))

  reads_target :
      read_field target_key m.target (partial m.version [] 0 [], 1)
      ≡ some (partial m.version m.target 0 [], 3)
  unfolding read_field char_at
  reads_target = ap (λ t. some (partial m.version t 0 [], 3)) (take_whole m.target k.target)

  reads_size :
      read_field size_key (decimal 20 m.payload_size) (partial m.version m.target 0 [], 3)
      ≡ some (partial m.version m.target m.payload_size [], 7)
  unfolding read_field char_at
  reads_size =
      ap (λ n. some (partial m.version m.target n [], 7))
        (read_number-decimal 64 20 m.payload_size (λ n h. mod-eq_of_lt h) k.size
          (omega (arith, k.size)))

  reads_hash :
      read_field hash_key (hex m.payload_hash) (partial m.version m.target m.payload_size [], 7)
      ≡ some (partial m.version m.target m.payload_size m.payload_hash, 15)
  unfolding read_field char_at
  reads_hash =
      let long : leb 64 (length (hex m.payload_hash)) ≡ true =
        ground (arith, length-hex m.payload_hash, k.hash) in
      let reads : read_hash 32 (hex m.payload_hash) ≡ some m.payload_hash =
        subst (λ n. read_hash n (hex m.payload_hash) ≡ some m.payload_hash) k.hash
          (read_hash-hex m.payload_hash k.bytes) in
      rw (long, reads) refl

  reads_generation :
      read_field generation_key
        (decimal 10 m.generation)
        (partial m.version m.target m.payload_size m.payload_hash, 15)
      ≡ some (m, 31)
  unfolding read_field char_at
  reads_generation =
      ap (λ n. some (record m { generation = n }, 31))
        (read_number-decimal 32 10 m.generation (λ n h. mod-eq_of_lt h) k.generation
          (omega (arith, k.generation)))

  parse_loop-render :
      (fuel : ℕ)
      → parse_loop (suc (suc (suc (suc (suc (suc fuel)))))) (render m) (no_manifest, 0)
        ≡ some (some (m, 31))
  unfolding render
  parse_loop-render fuel =
      let last = line generation_key (decimal 10 m.generation) [] in
      let hashed = line hash_key (hex m.payload_hash) last in
      let sized = line size_key (decimal 20 m.payload_size) hashed in
      let aimed = line target_key m.target sized in
      parse_loop-line (decimal 10 m.version) (suc (suc (suc (suc (suc fuel))))) (render m) aimed
        (no_manifest, 0) version-IsKey (decimal-OneLine 10 m.version) refl reads_version
      ∙ parse_loop-line m.target (suc (suc (suc (suc fuel)))) (10 ∷ aimed) sized
          (partial m.version [] 0 [], 1) target-IsKey k.on_a_line (skip_newline aimed) reads_target
      ∙ parse_loop-line (decimal 20 m.payload_size) (suc (suc (suc fuel))) (10 ∷ sized) hashed
          (partial m.version m.target 0 [], 3) size-IsKey (decimal-OneLine 20 m.payload_size)
          (skip_newline sized) reads_size
      ∙ parse_loop-line (hex m.payload_hash) (suc (suc fuel)) (10 ∷ hashed) last
          (partial m.version m.target m.payload_size [], 7) hash-IsKey (hex-OneLine m.payload_hash)
          (skip_newline hashed) reads_hash
      ∙ parse_loop-line (decimal 10 m.generation) (suc fuel) (10 ∷ last) []
          (partial m.version m.target m.payload_size m.payload_hash, 15) generation-IsKey
          (decimal-OneLine 10 m.generation) (skip_newline last) reads_generation
      ∙ parse_loop_end fuel (m, 31)

  length-render : (n : ℕ) × (length (render m) ≡ suc (suc (suc (suc (suc n)))))
  unfolding render line
  length-render = (_, refl)

  parse_loop-length :
      parse_loop (suc (length (render m))) (render m) (no_manifest, 0) ≡ some (some (m, 31))
  parse_loop-length =
      let (n, long) = length-render in
      subst (λ l. parse_loop (suc l) (render m) (no_manifest, 0) ≡ some (some (m, 31))) (sym long)
        (parse_loop-render n)

  -- The text of a manifest, whose fields fit their types and whose target is at most 31 characters on
  -- one line, is accepted and read back as that manifest; the delivery then expects its payload size.
  pub update_parse_manifest-render :
      (u : Updates)
      → update_parse_manifest (some (render m)) u
        ≡ some (
          ok,
          some m,
          record u { delivery = record u.delivery { bytes_expected = m.payload_size } },
        )
  update_parse_manifest-render u =
      let (n, long) = length-render in
      update_parse_manifest_seen (render m) m u (ground (arith, long)) parse_loop-length
