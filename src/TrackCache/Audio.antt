-- ===== src/TrackCache/Audio.antt =====
-- What counts as audio, desktop/src-tauri/src/track_cache/state.rs. A byte is a number.
use sc_desktop_beautiful.Prelude.{
  Bool, Bool-cases, List, [], ap, append-nil, arith, false, get_elem?, if◌then◌else◌, inl, inr, leb,
  length, length-take, ltb, min, none, refl, some, suc, sym, take, true, zero, ℕ, ◌%◌, ◌&&◌, ◌++◌,
  ◌-◌, ◌/◌, ◌==◌, ◌∙◌, ◌∷◌, ◌≡◌, ◌≤◌,
}
use mathlib.Core.Bool.{true≢false}

abbrev pub min_audio_size : ℕ
min_audio_size = 8192

abbrev pub audio_sniff_len : ℕ
audio_sniff_len = 16

-- `prefix[i] == b`, behind the test that `prefix` is long enough.
unfoldable pub byte_is : List ℕ → ℕ → ℕ → Bool
byte_is prefix i b = elim (get_elem? prefix i) [ none ↦ false | some c ↦ c == b ]

-- `(prefix[i] & 0xe0) == 0xe0`
unfoldable pub has_top_bits : List ℕ → ℕ → Bool
has_top_bits prefix i = elim (get_elem? prefix i) [ none ↦ false | some c ↦ c / 32 % 8 == 7 ]

unfoldable pub is_valid_audio : List ℕ → ℕ → Bool
is_valid_audio prefix total_size =
    if ltb total_size min_audio_size
    then false
    else if leb 3 (length prefix)
        && (byte_is prefix 0 0x49 && (byte_is prefix 1 0x44 && byte_is prefix 2 0x33))
    then true
    else if leb 2 (length prefix) && (byte_is prefix 0 0xff && has_top_bits prefix 1)
    then true
    else if leb 8 (length prefix)
        && (byte_is prefix 4 0x66
            && (byte_is prefix 5 0x74 && (byte_is prefix 6 0x79 && byte_is prefix 7 0x70)))
    then true
    else if leb 4 (length prefix)
        && (byte_is prefix 0 0x4f
            && (byte_is prefix 1 0x67 && (byte_is prefix 2 0x67 && byte_is prefix 3 0x53)))
    then true
    else if leb 4 (length prefix)
        && (byte_is prefix 0 0x52
            && (byte_is prefix 1 0x49 && (byte_is prefix 2 0x46 && byte_is prefix 3 0x46)))
    then true
    else leb 4 (length prefix)
      && (byte_is prefix 0 0x66
          && (byte_is prefix 1 0x4c && (byte_is prefix 2 0x61 && byte_is prefix 3 0x43)))

-- What is kept of the front of a body, with one chunk more.
unfoldable pub sniff_more : List ℕ → List ℕ → List ℕ
sniff_more sniff chunk =
    if ltb (length sniff) audio_sniff_len
    then sniff ++ take (min (audio_sniff_len - length sniff) (length chunk)) chunk
    else sniff

pub is_valid_audio-size :
    (prefix : List ℕ) (total : ℕ) → is_valid_audio prefix total ≡ true → min_audio_size ≤ total
unfolding is_valid_audio
is_valid_audio-size prefix total e = elim (Bool-cases (ltb total min_audio_size)) [
  | inl small ↦
      let f : is_valid_audio prefix total ≡ false = rw small refl in absurd (true≢false (sym e ∙ f))
  | inr big ↦ ground arith
]

take_all : (n : ℕ) (xs : List ℕ) → length xs ≤ n → take n xs ≡ xs
take_all zero [] h = refl
take_all zero (x ∷ xs) h = absurd (omega arith)
take_all (suc n) [] h = refl
take_all (suc n) (x ∷ xs) h = ap (λ ys. x ∷ ys) (take_all n xs (omega arith))

take-append : (n : ℕ) (xs ys : List ℕ) → take n (xs ++ ys) ≡ take n xs ++ take (n - length xs) ys
take-append zero [] ys = refl
take-append (suc n) [] ys = let e : suc n ≡ suc n - 0 = omega arith in ap (λ k. take k ys) e
take-append zero (x ∷ xs) ys =
    let e : 0 ≡ 0 - suc (length xs) = omega arith in ap (λ k. take k ys) e
take-append (suc n) (x ∷ xs) ys =
    let e : n - length xs ≡ suc n - suc (length xs) = omega arith in
    ap (λ zs. x ∷ zs) (take-append n xs ys ∙ ap (λ k. take n xs ++ take k ys) e)

pub take-min : (n : ℕ) (xs : List ℕ) → take (min n (length xs)) xs ≡ take n xs
take-min n xs = elim (Bool-cases (leb n (length xs))) [
  | inl le ↦ let e : min n (length xs) ≡ n = ground arith in ap (λ k. take k xs) e
  | inr gt ↦
      let e : min n (length xs) ≡ length xs = ground arith in
      ap (λ k. take k xs) e
      ∙ take_all (length xs) xs (omega arith)
      ∙ sym (take_all n xs (ground arith))
]

-- The front that is kept does not depend on how the body falls into chunks.
pub sniff_more-take :
    (body chunk : List ℕ)
    → sniff_more (take audio_sniff_len body) chunk ≡ take audio_sniff_len (body ++ chunk)
unfolding sniff_more
sniff_more-take body chunk =
    let size = length (take 16 body) in
    let known : size ≡ min 16 (length body) = length-take 16 body in
    let same : 16 - size ≡ 16 - length body = ground arith in
    elim (Bool-cases (ltb size 16)) [
      | inl less ↦ rw less (
          ap (λ ys. take 16 body ++ ys) (take-min (16 - size) chunk ∙ ap (λ k. take k chunk) same)
          ∙ sym (take-append 16 body chunk))
      | inr full ↦
          let none_left : 0 ≡ 16 - length body = ground arith in
          rw full (
            sym (append-nil (take 16 body))
            ∙ ap (λ k. take 16 body ++ take k chunk) none_left
            ∙ sym (take-append 16 body chunk))
    ]
