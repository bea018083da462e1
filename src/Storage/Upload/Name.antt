-- ===== src/Storage/Upload/Name.antt =====
-- The names of uploads, `sanitize_filename` of storage/src/routes/upload.rs.
use sc_desktop_beautiful.Prelude.{
  All, Bool, List, [], ap, arith, false, if-cases, if-true, refl, sym, true, ℕ, ◌&&◌, ◌++◌, ◌==◌,
  ◌∙◌, ◌∷◌, ◌≡◌, ◌≢◌,
}
use sc_desktop_beautiful.Storage.Pipeline.{is_empty_text}
use sc_desktop_beautiful.Storage.Upload.{is_kept, kept, sanitize_filename, trim_end, trim_start}

abbrev NoFirst : List ℕ → Type 0
NoFirst s = (t : List ℕ) → s ≢ 46 ∷ t

abbrev NoLast : List ℕ → Type 0
NoLast s = (t : List ℕ) → s ≢ t ++ (46 ∷ [])

tail_of : List ℕ → List ℕ
tail_of [] = []
tail_of (c ∷ cs) = cs

head_of : List ℕ → ℕ
head_of [] = 0
head_of (c ∷ cs) = c

trim_start-NoFirst : (s : List ℕ) → NoFirst (trim_start s)
unfolding trim_start head_of
trim_start-NoFirst [] = λ t e. cc
trim_start-NoFirst (c ∷ cs) =
    if-cases NoFirst (c == 46) _ _ (λ _. trim_start-NoFirst cs)
      λ d t e. let x : c ≡ 46 = ap head_of e in absurd (grind arith)

module _ (P : ℕ → Type 0) where
  trim_start-All : (s : List ℕ) → All P s → All P (trim_start s)
  unfolding trim_start
  trim_start-All [] h = tt
  trim_start-All (c ∷ cs) h = if-cases (All P) (c == 46) _ _ (λ _. trim_start-All cs h.1) (λ _. h)

  trim_end-All : (s : List ℕ) → All P s → All P (trim_end s)
  unfolding trim_end
  trim_end-All [] h = tt
  trim_end-All (c ∷ cs) h =
      if-cases (All P) (c == 46 && is_empty_text (trim_end cs)) _ _ (λ _. tt)
        (λ _. (h.0, trim_end-All cs h.1))

trim_end-NoFirst : (s : List ℕ) → NoFirst s → NoFirst (trim_end s)
unfolding trim_end head_of
trim_end-NoFirst [] h = λ t e. cc
trim_end-NoFirst (c ∷ cs) h =
    if-cases NoFirst (c == 46 && is_empty_text (trim_end cs)) _ _ (λ _ t e. cc)
      λ _ t e. let x : c ≡ 46 = ap head_of e in h cs (ap (λ d. d ∷ cs) x)

NoLast-nil : NoLast []
NoLast-nil [] e = cc
NoLast-nil (d ∷ t) e = cc

NoLast-cons :
    (c : ℕ) (rest : List ℕ)
    → (c == 46 && is_empty_text rest) ≡ false
    → NoLast rest
    → NoLast (c ∷ rest)
unfolding head_of tail_of is_empty_text
NoLast-cons c rest stays h [] e =
    let x : c ≡ 46 = ap head_of e in
    let z : is_empty_text rest ≡ true = ap (λ s. is_empty_text (tail_of s)) e in
    absurd (grind arith)
NoLast-cons c rest stays h (d ∷ t) e = h t (ap tail_of e)

trim_end-NoLast : (s : List ℕ) → NoLast (trim_end s)
unfolding trim_end
trim_end-NoLast [] = NoLast-nil
trim_end-NoLast (c ∷ cs) =
    if-cases NoLast (c == 46 && is_empty_text (trim_end cs)) _ _ (λ _. NoLast-nil)
      λ e. NoLast-cons c (trim_end cs) e (trim_end-NoLast cs)

kept-All : (f : ℕ → Bool) (s : List ℕ) → All (λ c. is_kept f c ≡ true) (kept f s)
unfolding kept
kept-All f [] = tt
kept-All f (c ∷ cs) =
    if-cases (All (λ d. is_kept f d ≡ true)) (is_kept f c) _ _ (λ e. (e, kept-All f cs))
      (λ _. kept-All f cs)

-- What stays as it is.
kept_same : (f : ℕ → Bool) (s : List ℕ) → All (λ c. is_kept f c ≡ true) s → kept f s ≡ s
unfolding kept
kept_same f [] h = refl
kept_same f (c ∷ cs) h = if-true _ _ _ h.0 ∙ ap (λ t. c ∷ t) (kept_same f cs h.1)

trim_start_same : (s : List ℕ) → NoFirst s → trim_start s ≡ s
unfolding trim_start
trim_start_same [] h = refl
trim_start_same (c ∷ cs) h =
    if-cases (λ t. t ≡ c ∷ cs) (c == 46) _ _ (λ e. absurd (h cs (ap (λ d. d ∷ cs) (grind arith))))
      (λ _. refl)

single_dot : (c : ℕ) (rest : List ℕ) → (c == 46 && is_empty_text rest) ≡ true → c ∷ rest ≡ 46 ∷ []
unfolding is_empty_text
single_dot c [] e = ap (λ d. d ∷ []) (grind arith)
single_dot c (d ∷ ds) e = absurd (grind arith)

trim_end_same : (s : List ℕ) → NoLast s → trim_end s ≡ s
unfolding trim_end
trim_end_same [] h = refl
trim_end_same (c ∷ cs) h =
    let same : trim_end cs ≡ cs = trim_end_same cs (λ t e. h (c ∷ t) (ap (λ s. c ∷ s) e)) in
    if-cases (λ t. t ≡ c ∷ cs) (c == 46 && is_empty_text (trim_end cs)) _ _
      (λ e. absurd (h [] (ap (λ s. c ∷ s) (sym same) ∙ single_dot c (trim_end cs) e)))
      (λ _. ap (λ t. c ∷ t) same)

-- A name that is a name of a file in the directory of the tracks: no separator, no dot at either end.
-- It is not made another one if it is sent again.
pub record IsPlain (f : ℕ → Bool) (name : List ℕ) : Type 0 where
  pub no_separator : All (λ c. c ≢ 47) name
  pub no_dot_first : (t : List ℕ) → name ≢ 46 ∷ t
  pub no_dot_last : (t : List ℕ) → name ≢ t ++ (46 ∷ [])
  pub again : sanitize_filename f name ≡ name

separator_not_kept : (f : ℕ → Bool) (c : ℕ) → f 47 ≡ false → is_kept f c ≡ true → c ≢ 47
unfolding is_kept
separator_not_kept f c h k e = wrong (sym k ∙ ap (is_kept f) e ∙ not_kept)
  where
    not_kept : is_kept f 47 ≡ false
    not_kept = rw h refl

    wrong : true ≡ false → ⊥
    wrong x = cc

no_separator_in :
    (f : ℕ → Bool) (s : List ℕ)
    → f 47 ≡ false
    → All (λ c. is_kept f c ≡ true) s
    → All (λ c. c ≢ 47) s
no_separator_in f [] h k = tt
no_separator_in f (c ∷ cs) h k = (separator_not_kept f c h k.0, no_separator_in f cs h k.1)

pub sanitize_filename-IsPlain :
    (f : ℕ → Bool) (s : List ℕ) → f 47 ≡ false → IsPlain f (sanitize_filename f s)
unfolding sanitize_filename
sanitize_filename-IsPlain f s h =
    let started = trim_start (kept f s) in
    let ok : All (λ c. is_kept f c ≡ true) (trim_end started) =
      trim_end-All _ started (trim_start-All _ (kept f s) (kept-All f s)) in
    let first = trim_end-NoFirst started (trim_start-NoFirst (kept f s)) in
    let last = trim_end-NoLast started in
    record {
      no_separator = no_separator_in f (trim_end started) h ok;
      no_dot_first = first;
      no_dot_last = last;
      again =
          ap (λ t. trim_end (trim_start t)) (kept_same f (trim_end started) ok)
          ∙ ap trim_end (trim_start_same (trim_end started) first)
          ∙ trim_end_same (trim_end started) last;
    }
