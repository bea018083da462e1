-- ===== src/TrackCache/Evict/Limit.antt =====
-- What is left after an eviction.
use sc_desktop_beautiful.Prelude.{
  All, All-mono, All-zip, Bool-cases, List, [], ap, arith, if-cases, if-false, if-true, inl, inr,
  leb, leb→le, length, refl, some, sym, true, ℕ, ◌*◌, ◌+◌, ◌<◌, ◌==◌, ◌∙◌, ◌∷◌, ◌≡◌, ◌≢◌, ◌≤◌,
}
use sc_desktop_beautiful.Prelude.Outcome.{Returns, bind-Returns, if-Returns, sub, sub-Returns}
use sc_desktop_beautiful.TrackCache.Names.{cache_metadata_path}
use sc_desktop_beautiful.Prelude.Text.{text_eq_ne, text_eq_self}
use sc_desktop_beautiful.TrackCache.Disk.{File, find-remove_ne, find_file, remove_file}
use sc_desktop_beautiful.TrackCache.Evict.{
  audio_files, dir_size, enforce_limit, evict, insert_file, is_audio_cache_file, sort_files,
}
use sc_desktop_beautiful.TrackCache.Evict.Sizes.{
  Distinct, Fresh, dir_size-metadata, dir_size-remove, metadata_lem, remove-Distinct, sum_sizes,
}
use mathlib.Core.Bool.{true≢false}

-- The files that are still to be visited: each is in the directory, no two have the same name.
abbrev Listed : List File → File → Type 0
Listed dir f = (is_audio_cache_file f.name ≡ true) × (find_file f.name dir ≡ some f)

insert-All :
    (accessed : List ℕ → ℕ) (P : File → Type 0) (f : File) (fs : List File)
    → P f
    → All P fs
    → All P (insert_file accessed f fs)
unfolding insert_file
insert-All accessed P f [] p h = (p, tt)
insert-All accessed P f (g ∷ gs) p h =
    if-cases (All P) (leb (accessed f.name) (accessed g.name)) _ _ (λ _. (p, h))
      λ _. (h.0, insert-All accessed P f gs p h.1)

insert-Distinct :
    (accessed : List ℕ → ℕ) (f : File) (fs : List File)
    → Fresh f.name fs
    → Distinct fs
    → Distinct (insert_file accessed f fs)
unfolding insert_file
insert-Distinct accessed f [] p h = (tt, tt)
insert-Distinct accessed f (g ∷ gs) p h =
    if-cases Distinct (leb (accessed f.name) (accessed g.name)) _ _ (λ _. (p, h))
      λ _. (
        insert-All accessed (λ (x : File). x.name ≢ g.name) f gs (λ e. p.0 (sym e)) h.0,
        insert-Distinct accessed f gs p.1 h.1,
      )

sum-insert :
    (accessed : List ℕ → ℕ) (f : File) (fs : List File)
    → sum_sizes (insert_file accessed f fs) ≡ length f.content + sum_sizes fs
unfolding insert_file sum_sizes
sum-insert accessed f [] = refl
sum-insert accessed f (g ∷ gs) =
    if-cases (λ fs. sum_sizes fs ≡ length f.content + (length g.content + sum_sizes gs))
      (leb (accessed f.name) (accessed g.name)) _ _ (λ _. refl)
      λ _. omega (arith, sum-insert accessed f gs)

sort-All :
    (accessed : List ℕ → ℕ) (P : File → Type 0) (fs : List File)
    → All P fs
    → All P (sort_files accessed fs)
unfolding sort_files
sort-All accessed P [] h = tt
sort-All accessed P (f ∷ fs) h =
    insert-All accessed P f (sort_files accessed fs) h.0 (sort-All accessed P fs h.1)

sort-Distinct :
    (accessed : List ℕ → ℕ) (fs : List File) → Distinct fs → Distinct (sort_files accessed fs)
unfolding sort_files
sort-Distinct accessed [] h = tt
sort-Distinct accessed (f ∷ fs) h =
    insert-Distinct accessed f (sort_files accessed fs)
      (sort-All accessed (λ (g : File). g.name ≢ f.name) fs h.0) (sort-Distinct accessed fs h.1)

sum-sort :
    (accessed : List ℕ → ℕ) (fs : List File) → sum_sizes (sort_files accessed fs) ≡ sum_sizes fs
unfolding sort_files sum_sizes
sum-sort accessed [] = refl
sum-sort accessed (f ∷ fs) =
    sum-insert accessed f (sort_files accessed fs)
    ∙ ap (λ n. length f.content + n) (sum-sort accessed fs)

audio_files-All : (P : File → Type 0) (fs : List File) → All P fs → All P (audio_files fs)
unfolding audio_files
audio_files-All P [] h = tt
audio_files-All P (f ∷ fs) h =
    if-cases (All P) (is_audio_cache_file f.name) _ _ (λ _. (h.0, audio_files-All P fs h.1))
      λ _. audio_files-All P fs h.1

audio_files-Distinct : (fs : List File) → Distinct fs → Distinct (audio_files fs)
unfolding audio_files
audio_files-Distinct [] h = tt
audio_files-Distinct (f ∷ fs) h =
    if-cases Distinct (is_audio_cache_file f.name) _ _
      (λ _. (audio_files-All (λ (g : File). g.name ≢ f.name) fs h.0, audio_files-Distinct fs h.1))
      λ _. audio_files-Distinct fs h.1

sum-audio_files : (fs : List File) → sum_sizes (audio_files fs) ≡ dir_size fs
unfolding audio_files sum_sizes dir_size
sum-audio_files [] = refl
sum-audio_files (f ∷ fs) = elim (Bool-cases (is_audio_cache_file f.name)) [
  | inl e ↦ rw e (ap (λ n. length f.content + n) (sum-audio_files fs))
  | inr e ↦ rw e (sum-audio_files fs)
]

-- Every audio file of a directory is found there.
audio_files-Listed : (fs : List File) → Distinct fs → All (Listed fs) (audio_files fs)
unfolding audio_files find_file
audio_files-Listed [] h = tt
audio_files-Listed (f ∷ fs) h =
    let rest =
      All-mono _ (Listed (f ∷ fs)) (audio_files fs)
        (All-zip (Listed fs) (λ (g : File). g.name ≢ f.name) (audio_files fs)
          (audio_files-Listed fs h.1) (audio_files-All (λ (g : File). g.name ≢ f.name) fs h.0))
        λ g k. (k.0.0, if-false _ _ _ (text_eq_ne f.name g.name (λ e. k.1 (sym e))) ∙ k.0.1) in
    if-cases (All (Listed (f ∷ fs))) (is_audio_cache_file f.name) _ _
      (λ a. ((a, if-true _ _ _ (text_eq_self f.name)), rest)) λ _. rest

-- The file that is removed is not one of those that are still to be visited.
removed-Listed :
    (f : File) (dir fs : List File)
    → Fresh f.name fs
    → All (Listed dir) fs
    → All (Listed (remove_file (cache_metadata_path f.name) (remove_file f.name dir))) fs
removed-Listed f dir fs fresh h = All-mono _ _ fs (All-zip _ _ fs h fresh) λ g k. (
  k.0.0,
  find-remove_ne (cache_metadata_path f.name) g.name (remove_file f.name dir)
        (λ e. true≢false (sym k.0.0 ∙ ap is_audio_cache_file (sym e) ∙ metadata_lem f.name))
      ∙ find-remove_ne f.name g.name dir (λ e. k.1 (sym e))
      ∙ k.0.1,
)

module _ (accessed : List ℕ → ℕ) where
  evict-Returns :
      (limit_bytes : ℕ) (fs : List File) (total : ℕ) (dir : List File)
      → total ≡ dir_size dir
      → total ≡ sum_sizes fs
      → Distinct dir
      → Distinct fs
      → All (Listed dir) fs
      → Returns
          (λ out. (dir_size out.0 ≤ limit_bytes) × (out.1 ≡ dir_size out.0))
          (evict accessed (λ name. true) limit_bytes fs total dir)
  unfolding evict sum_sizes
  evict-Returns limit_bytes [] total dir size sum d e l = (omega arith, size)
  evict-Returns limit_bytes (f ∷ fs) total dir size sum d e l =
      if-Returns _ (leb total limit_bytes) _ _
        (λ small. (omega (arith, leb→le total limit_bytes small), size))
        λ _.
          bind-Returns _ _ (sub total (length f.content)) _
            (sub-Returns total (length f.content) (omega arith))
            λ total' _ same.
              let gone = remove_file f.name dir in
              let split_size = dir_size-remove f dir d l.0.0 l.0.1 in
              let meta_size = dir_size-metadata f.name gone in
              evict-Returns limit_bytes fs total' (remove_file (cache_metadata_path f.name) gone)
                (omega arith) (omega arith)
                (remove-Distinct (cache_metadata_path f.name) gone (remove-Distinct f.name dir d))
                e.1 (removed-Listed f dir fs e.0 l.1)

  -- With a limit, in a directory with one file of a name, and when every file can be removed, the
  -- audio is within the limit afterwards, and the total that the code keeps, from which it never
  -- subtracts too much, is the size of what is left.
  pub enforce_limit-Returns :
      (limit_mb : ℕ) (dir : List File)
      → 0 < limit_mb
      → Distinct dir
      → Returns
          (λ out. (dir_size out.0 ≤ limit_mb * 1024 * 1024) × (out.1 ≡ dir_size out.0))
          (enforce_limit accessed (λ name. true) limit_mb dir)
  unfolding enforce_limit
  enforce_limit-Returns limit_mb dir h d =
      if-Returns _ (limit_mb == 0) _ _ (λ z. absurd (ground arith))
        λ _.
          if-Returns _ (leb (dir_size dir) (limit_mb * 1024 * 1024)) _ _
            (λ small. (leb→le _ _ small, refl))
            λ _.
              evict-Returns (limit_mb * 1024 * 1024) (sort_files accessed (audio_files dir))
                (dir_size dir) dir refl
                (sym (sum-sort accessed (audio_files dir) ∙ sum-audio_files dir)) d
                (sort-Distinct accessed (audio_files dir) (audio_files-Distinct dir d))
                (sort-All accessed (Listed dir) (audio_files dir) (audio_files-Listed dir d))
