-- ===== src/Storage/Local/Loss.antt =====
-- A commit that loses both tracks, `replace_file` of storage/src/backend/local.rs.
use sc_desktop_beautiful.Prelude.{
  List, Option, ap, arith, false, if-false, none, not, some, sym, true, ℕ, ◌∙◌, ◌≡◌, ◌≢◌,
}
use sc_desktop_beautiful.Storage.Files.{
  Files, remove, remove_ne, remove_self, write, write_ne, write_self,
}
use sc_desktop_beautiful.Storage.Local.{
  Syscalls, commit_transcode, done, failed, fine, io, is_some, move_file, move_or_copy_file, moved,
  replace_file, replaced, should_keep_existing,
}

move_or_copy-done :
    (sys : Syscalls) (e src dst : List ℕ) (files : Files) (c : ℕ)
    → files src ≡ some c
    → sys.moves ≡ done
    → move_or_copy_file sys e src dst files ≡ (fine, write dst c (remove src files))
unfolding move_file move_or_copy_file
move_or_copy-done sys e src dst files c h m = ground arith

replace-lost :
    (sys : Syscalls) (e src dst : List ℕ) (files : Files) (old new : ℕ)
    → files src ≡ some new
    → files dst ≡ some old
    → sys.replaces ≡ false
    → sys.removes_old ≡ true
    → sys.replaces_again ≡ false
    → replace_file sys e src dst files ≡ (failed (io e), remove dst files)
unfolding is_some replace_file
replace-lost sys e src dst files old new h k r o a = ground arith

-- When the new track cannot be renamed over the old one at first, the old one is removed, and the
-- second try fails as well, then neither track is left anywhere, and the commit reports an error.
pub replace_loses_both :
    (sys : Syscalls) (e : List ℕ) (lasts : ℕ → Option ℕ) (dst stage src : List ℕ) (files : Files)
    (old new : ℕ)
    → src ≢ dst
    → src ≢ stage
    → stage ≢ dst
    → files dst ≡ some old
    → files src ≡ some new
    → should_keep_existing lasts dst src files ≡ false
    → sys.makes_dir ≡ true
    → sys.moves ≡ done
    → sys.replaces ≡ false
    → sys.removes_old ≡ true
    → sys.replaces_again ≡ false
    → let (r, files') = commit_transcode sys e lasts dst stage src files in
      (r ≡ failed (io e)) × (files' dst ≡ none) × (files' stage ≡ none) × (files' src ≡ none)
unfolding commit_transcode moved replaced
replace_loses_both sys e lasts dst stage src files old new sd st td h n keep dir mv r o a =
    let f : Files = write stage new (remove src files) in
    let at : f stage ≡ some new = write_self stage new (remove src files) in
    let there : f dst ≡ some old =
      write_ne stage dst new (remove src files) td ∙ remove_ne src dst files sd ∙ h in
    let eq : commit_transcode sys e lasts dst stage src files
        ≡ (failed (io e), remove stage (remove dst f)) =
      if-false _ _ _ keep
      ∙ if-false _ _ _ (ap not dir)
      ∙ ap (moved sys e stage dst) (move_or_copy-done sys e src stage files new n mv)
      ∙ ap (replaced sys e stage) (replace-lost sys e stage dst f old new at there r o a) in
    (
      ap (λ q. q.0) eq,
      ap (λ q. q.1 dst) eq ∙ remove_ne stage dst (remove dst f) td ∙ remove_self dst f,
      ap (λ q. q.1 stage) eq ∙ remove_self stage (remove dst f),
      ap (λ q. q.1 src) eq
          ∙ remove_ne stage src (remove dst f) (λ z. st (sym z))
          ∙ remove_ne dst src f (λ z. sd (sym z))
          ∙ write_ne stage src new (remove src files) (λ z. st (sym z))
          ∙ remove_self src files,
    )
