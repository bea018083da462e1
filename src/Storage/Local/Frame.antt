-- ===== src/Storage/Local/Frame.antt =====
-- A commit of storage/src/backend/local.rs touches three paths only.
use sc_desktop_beautiful.Prelude.{
  List, Option, if-cases, if◌then◌else◌, none, not, refl, some, ℕ, ◌∙◌, ◌≡◌, ◌≢◌,
}
use sc_desktop_beautiful.Storage.Files.{Files, remove, remove_ne, write, write_ne}
use sc_desktop_beautiful.Storage.Local.{
  Committed, Renamed, Syscalls, commit_transcode, cross_device, done, failed, fine, io, is_some,
  move_file, move_or_copy_file, moved, refused, replace_file, replaced, should_keep_existing,
}

module _ (sys : Syscalls) (e : List ℕ) (dst stage src p : List ℕ) (d : dst ≢ p) (t : stage ≢ p)
    (s : src ≢ p) (files : Files) where
  -- The content at `p` is what it was.
  abbrev Same : Committed × Files → Type 0
  Same out = out.1 p ≡ files p

  replaced-Same :
      (f : Files) → f p ≡ files p → Same (replaced sys e stage (replace_file sys e stage dst f))
  unfolding replace_file replaced
  replaced-Same f h = go (f stage)
    where
      P : Committed × Files → Type 0
      P o = Same (replaced sys e stage o)

      swept : (g : Files) → g p ≡ files p → remove stage g p ≡ files p
      swept g k = remove_ne stage p g t ∙ k

      go :
          (o : Option ℕ)
          → P (elim o [
            | none ↦ (failed (io e), f)
            | some content ↦
                if sys.replaces
                then (fine, write dst content (remove stage f))
                else if not (is_some (f dst))
                then (failed (io e), f)
                else if not sys.removes_old
                then (failed (io e), f)
                else if not sys.replaces_again
                then (failed (io e), remove dst f)
                else (fine, write dst content (remove stage (remove dst f)))
          ])
      go none = swept f h
      go (some c) =
          if-cases P sys.replaces _ _ (λ _. write_ne dst p c (remove stage f) d ∙ swept f h)
            λ _.
              if-cases P (not (is_some (f dst))) _ _ (λ _. swept f h)
                λ _.
                  if-cases P (not sys.removes_old) _ _ (λ _. swept f h)
                    λ _.
                      if-cases P (not sys.replaces_again) _ _
                        (λ _. swept (remove dst f) (remove_ne dst p f d ∙ h))
                        λ _.
                          write_ne dst p c (remove stage (remove dst f)) d
                          ∙ swept (remove dst f) (remove_ne dst p f d ∙ h)

  moved-Same :
      (c : ℕ) (r : Renamed) → Same (moved sys e stage dst (move_file sys e r src stage c files))
  unfolding moved move_file
  moved-Same c done =
      replaced-Same (write stage c (remove src files))
        (write_ne stage p c (remove src files) t ∙ remove_ne src p files s)
  moved-Same c (refused r) = remove_ne stage p files t
  moved-Same c cross_device =
      let P : Committed × Files → Type 0 = λ o. Same (moved sys e stage dst o) in
      if-cases P (not sys.copies) _ _ (λ _. remove_ne stage p files t)
        λ _.
          if-cases P (not sys.removes_source) _ _
            (λ _. remove_ne stage p (write stage c files) t ∙ write_ne stage p c files t)
            λ _.
              replaced-Same (remove src (write stage c files))
                (remove_ne src p (write stage c files) s ∙ write_ne stage p c files t)

  pub commit_transcode-Same :
      (lasts : ℕ → Option ℕ) → (commit_transcode sys e lasts dst stage src files).1 p ≡ files p
  unfolding commit_transcode move_or_copy_file moved
  commit_transcode-Same lasts =
      if-cases Same (should_keep_existing lasts dst src files) _ _ (λ _. remove_ne src p files s)
        λ _. if-cases Same (not sys.makes_dir) _ _ (λ _. refl) λ _. go (files src)
    where
      go :
          (o : Option ℕ)
          → Same (
              moved sys e stage dst (elim o [
                | none ↦ (failed (io e), files)
                | some content ↦ move_file sys e sys.moves src stage content files
              ]))
      go none = remove_ne stage p files t
      go (some c) = moved-Same c sys.moves
