-- ===== src/TrackCache/Evict/Sizes.antt =====
-- The size of a directory when a file is removed.
use sc_desktop_beautiful.Prelude.{
  All, Bool, Bool-cases, List, Option, [], ap, arith, false, if-cases, if-false, if-true,
  if◌then◌else◌, inl, inr, length, none, refl, some, subst, sym, true, ℕ, ◌++◌, ◌+◌, ◌∙◌, ◌∷◌, ◌≡◌,
  ◌≢◌,
}
use sc_desktop_beautiful.Prelude.Text.{codes, text_eq}
use sc_desktop_beautiful.TrackCache.Names.{cache_metadata_path, strip_suffix}
use sc_desktop_beautiful.Prelude.Text.{text_eq_ne, text_eq_sound}
use sc_desktop_beautiful.TrackCache.Disk.{File, find_file, remove_file}
use sc_desktop_beautiful.TrackCache.Evict.{dir_size, is_audio_cache_file}
use mathlib.Core.Option.{some-injective}

-- A directory has one file of a name.
abbrev pub Fresh : List ℕ → List File → Type 0
Fresh name fs = All (λ (g : File). g.name ≢ name) fs

abbrev pub Distinct : List File → Type 0
Distinct [] = Unit
Distinct (f ∷ fs) = Fresh f.name fs × Distinct fs

unfoldable pub sum_sizes : List File → ℕ
sum_sizes [] = 0
sum_sizes (f ∷ fs) = length f.content + sum_sizes fs

strip_suffix_sound :
    (s suffix front : List ℕ) → strip_suffix s suffix ≡ some front → s ≡ front ++ suffix
unfolding strip_suffix
strip_suffix_sound [] suffix front e = go (text_eq [] suffix) refl e
  where
    go :
        (t : Bool)
        → text_eq [] suffix ≡ t
        → (if t then some [] else none) ≡ some front
        → [] ≡ front ++ suffix
    go true same e = text_eq_sound [] suffix same ∙ ap (λ s. s ++ suffix) (some-injective _ _ e)
    go false same e = cc
strip_suffix_sound (c ∷ cs) suffix front e =
    go (strip_suffix_sound cs suffix) (text_eq (c ∷ cs) suffix) refl (strip_suffix cs suffix) refl e
  where
    go :
        ((s : List ℕ) → strip_suffix cs suffix ≡ some s → cs ≡ s ++ suffix)
        → (t : Bool) → text_eq (c ∷ cs) suffix ≡ t
        → (o : Option (List ℕ)) → strip_suffix cs suffix ≡ o
        → (if t then some [] else elim o [ none ↦ none | some s ↦ some (c ∷ s) ]) ≡ some front
        → c ∷ cs ≡ front ++ suffix
    go ih true same o k e =
        text_eq_sound (c ∷ cs) suffix same ∙ ap (λ s. s ++ suffix) (some-injective _ _ e)
    go ih false same none k e = cc
    go ih false same (some s) k e =
        ap (λ t. c ∷ t) (ih s k) ∙ ap (λ t. t ++ suffix) (some-injective _ _ e)

last : List ℕ → ℕ
last [] = 0
last (c ∷ []) = c
last (c ∷ d ∷ cs) = last (d ∷ cs)

last-append : (s : List ℕ) (c : ℕ) (t : List ℕ) → last (s ++ c ∷ t) ≡ last (c ∷ t)
unfolding last
last-append [] c t = refl
last-append (d ∷ []) c t = refl
last-append (d ∷ e ∷ s) c t = last-append (e ∷ s) c t

differ : ◌≢◌ {A = ℕ} 110 111
differ e = omega arith

-- A file of metadata is no audio.
pub metadata_lem : (name : List ℕ) → is_audio_cache_file (cache_metadata_path name) ≡ false
unfolding is_audio_cache_file cache_metadata_path last
metadata_lem name = go (strip_suffix (cache_metadata_path name) (codes ".audio")) refl
  where
    go :
        (o : Option (List ℕ))
        → strip_suffix (cache_metadata_path name) (codes ".audio") ≡ o
        → is_audio_cache_file (cache_metadata_path name) ≡ false
    go none e = rw (e, is_audio_cache_file) refl
    go (some stem) e =
        let same : cache_metadata_path name ≡ stem ++ codes ".audio" =
          strip_suffix_sound _ _ stem e in
        let ends : 110 ≡ 111 =
          sym (last-append name 46 (codes "meta.json"))
          ∙ ap last same
          ∙ last-append stem 46 (codes "audio") in
        absurd (differ ends)

remove-none : (name : List ℕ) (fs : List File) → Fresh name fs → remove_file name fs ≡ fs
unfolding remove_file
remove-none name [] h = refl
remove-none name (g ∷ gs) h = rw (text_eq_ne g.name name h.0, remove-none name gs h.1) refl

remove-All :
    (P : File → Type 0) (name : List ℕ) (fs : List File) → All P fs → All P (remove_file name fs)
unfolding remove_file
remove-All P name [] h = tt
remove-All P name (g ∷ gs) h =
    if-cases (All P) (text_eq g.name name) _ _ (λ _. remove-All P name gs h.1)
      λ _. (h.0, remove-All P name gs h.1)

pub remove-Distinct :
    (name : List ℕ) (fs : List File) → Distinct fs → Distinct (remove_file name fs)
unfolding remove_file
remove-Distinct name [] h = tt
remove-Distinct name (g ∷ gs) h =
    if-cases Distinct (text_eq g.name name) _ _ (λ _. remove-Distinct name gs h.1)
      λ _. (remove-All (λ (f : File). f.name ≢ g.name) name gs h.0, remove-Distinct name gs h.1)

pub dir_size-metadata :
    (name : List ℕ) (fs : List File)
    → dir_size (remove_file (cache_metadata_path name) fs) ≡ dir_size fs
unfolding remove_file dir_size
dir_size-metadata name [] = refl
dir_size-metadata name (g ∷ gs) = elim (Bool-cases (text_eq g.name (cache_metadata_path name))) [
  | inl e ↦
      let other : is_audio_cache_file g.name ≡ false =
        ap is_audio_cache_file (text_eq_sound _ _ e) ∙ metadata_lem name in
      rw (e, remove_file)
        (dir_size-metadata name gs ∙ sym (if-false _ (length g.content + dir_size gs) _ other))
  | inr e ↦
      rw (e, remove_file)
        (ap (λ n. if is_audio_cache_file g.name then length g.content + n else n)
          (dir_size-metadata name gs))
]

add_head :
    (b : Bool) (x n y m : ℕ) → n ≡ y + m → (if b then x + n else n) ≡ y + (if b then x + m else m)
add_head true x n y m e = omega arith
add_head false x n y m e = e

pub dir_size-remove :
    (f : File) (fs : List File)
    → Distinct fs
    → is_audio_cache_file f.name ≡ true
    → find_file f.name fs ≡ some f
    → dir_size fs ≡ length f.content + dir_size (remove_file f.name fs)
unfolding dir_size remove_file find_file
dir_size-remove f [] d a e = cc
dir_size-remove f (g ∷ gs) d a e = elim (Bool-cases (text_eq g.name f.name)) [
  | inl same ↦
      let eq : g ≡ f =
        some-injective _ _ (sym (if-true _ (some g) (find_file f.name gs) same) ∙ e) in
      let fresh : Fresh f.name gs = subst (λ (h : File). Fresh h.name gs) eq d.0 in
      let kept : (if text_eq g.name f.name
            then remove_file f.name gs
            else g ∷ remove_file f.name gs)
          ≡ gs =
        if-true _ _ _ same ∙ remove-none f.name gs fresh in
      if-true _ _ _ (ap (λ (h : File). is_audio_cache_file h.name) eq ∙ a)
      ∙ ap (λ (h : File). length h.content + dir_size gs) eq
      ∙ ap (λ rest. length f.content + dir_size rest) (sym kept)
  | inr ne ↦
      let there : find_file f.name gs ≡ some f =
        sym (if-false _ (some g) (find_file f.name gs) ne) ∙ e in
      let rest = remove_file f.name gs in
      let ih : dir_size gs ≡ length f.content + dir_size rest = dir_size-remove f gs d.1 a there in
      let kept : (if text_eq g.name f.name then rest else g ∷ rest) ≡ g ∷ rest =
        if-false _ _ _ ne in
      add_head (is_audio_cache_file g.name) (length g.content) (dir_size gs) (length f.content)
        (dir_size rest) ih
      ∙ ap (λ fs. length f.content + dir_size fs) (sym kept)
]
