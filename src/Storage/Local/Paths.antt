-- ===== src/Storage/Local/Paths.antt =====
-- The paths of the local backend, storage/src/backend/local.rs, and the pipeline over it,
-- storage/src/backend/mod.rs.
use sc_desktop_beautiful.Prelude.{List, [], arith, refl, ap, sym, ℕ, ◌++◌, ◌∷◌, ◌≡◌, ◌≢◌}
use sc_desktop_beautiful.Prelude.Text.{codes}
use sc_desktop_beautiful.Storage.Local.{Syscalls, commit_transcode}
use sc_desktop_beautiful.Storage.Local.Commit.{commit_transcode-gone}
use sc_desktop_beautiful.Storage.Local.Frame.{commit_transcode-Same}
use sc_desktop_beautiful.Storage.Pipeline.{Setup, key_for}
use sc_desktop_beautiful.Storage.Pipeline.Batch.{Lawful}

unfoldable pub path_for : List ℕ → List ℕ → List ℕ
path_for root key = root ++ codes "/" ++ key

-- Beside the path of a key without a directory.
unfoldable pub stage_path : List ℕ → List ℕ → List ℕ → List ℕ
stage_path root filename uuid =
    path_for root (codes "." ++ filename ++ codes "." ++ uuid ++ codes ".tmp")

-- The pipeline with the tracks in a directory. How the calls of the system end, and the fresh names,
-- are by the number of the attempt.
unfoldable pub over_local : (ℕ → Syscalls) → List ℕ → (ℕ → List ℕ) → List ℕ → Setup → Setup
over_local sys e uuid root s = record s {
  commit_transcode = λ n key src filename files.
      commit_transcode (sys n) e s.lasts (path_for root key) (stage_path root filename (uuid n)) src
        files;
}

abbrev pub Outside : List ℕ → List ℕ → Type 0
Outside root p = (name : List ℕ) → path_for root name ≢ p

-- The last character.
last_of : ℕ → List ℕ → ℕ
last_of c [] = c
last_of c (x ∷ xs) = last_of x xs

last_of-append : (c : ℕ) (xs ys : List ℕ) → last_of c (xs ++ ys) ≡ last_of (last_of c xs) ys
unfolding last_of
last_of-append c [] ys = refl
last_of-append c (x ∷ xs) ys = last_of-append x xs ys

-- A name that ends in ".tmp" and one that ends in ".m4a".
stage_path_ne :
    (root filename uuid : List ℕ) → stage_path root filename uuid ≢ path_for root (key_for filename)
unfolding path_for stage_path key_for last_of
stage_path_ne root filename uuid h =
    let front : List ℕ = codes "." ++ filename ++ codes "." ++ uuid in
    let dot : last_of 0 (stage_path root filename uuid)
        ≡ last_of (last_of 0 (root ++ codes "/")) (front ++ codes ".tmp") =
      last_of-append 0 (root ++ codes "/") (front ++ codes ".tmp") in
    let staged : last_of (last_of 0 (root ++ codes "/")) (front ++ codes ".tmp") ≡ 112 =
      last_of-append (last_of 0 (root ++ codes "/")) front (codes ".tmp") in
    let key : last_of 0 (path_for root (key_for filename))
        ≡ last_of (last_of 0 (root ++ codes "/")) (filename ++ codes ".m4a") =
      last_of-append 0 (root ++ codes "/") (filename ++ codes ".m4a") in
    let kept : last_of (last_of 0 (root ++ codes "/")) (filename ++ codes ".m4a") ≡ 97 =
      last_of-append (last_of 0 (root ++ codes "/")) filename (codes ".m4a") in
    absurd (omega (arith, dot, staged, key, kept, ap (last_of 0) h))

-- The local backend is as the pipeline relies on, where the temporary paths are outside of its
-- directory.
pub over_local-Lawful :
    (sys : ℕ → Syscalls) (e : List ℕ) (uuid : ℕ → List ℕ) (root : List ℕ) (s : Setup)
    → Lawful (over_local sys e uuid root s) (Outside root)
unfolding over_local stage_path
over_local-Lawful sys e uuid root s = record {
  gone = λ n src filename files t.
      commit_transcode-gone (sys n) e s.lasts (path_for root (key_for filename))
        (stage_path root filename (uuid n)) src files (λ h. t _ (sym h)) (λ h. t _ (sym h))
        (stage_path_ne root filename (uuid n));
  apart = λ n src filename files p t ne.
      commit_transcode-Same (sys n) e (path_for root (key_for filename))
        (stage_path root filename (uuid n)) src p (t _) (t _) ne files s.lasts;
}
