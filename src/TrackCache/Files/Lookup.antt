-- ===== src/TrackCache/Files/Lookup.antt =====
-- Tracks that are promoted or removed.
use sc_desktop_beautiful.Prelude.{
  All, Bool, Bool-cases, List, Option, [], ap, false, if-cases, if-false, inl, inr, leb, leb→le,
  length, none, not, refl, some, subst, sym, true, ℕ, ◌&&◌, ◌∙◌, ◌∷◌, ◌≡◌, ◌≢◌, ◌≤◌,
}
use sc_desktop_beautiful.Prelude.Text.{text_eq}
use sc_desktop_beautiful.TrackCache.Names.{cache_metadata_path, urn_to_filename}
use sc_desktop_beautiful.TrackCache.Audio.{min_audio_size}
use sc_desktop_beautiful.Prelude.Text.{text_eq_self, text_eq_sound}
use sc_desktop_beautiful.TrackCache.Disk.{
  File, find-remove_ne, find-remove_self, find-write_ne, find-write_self, find_file, has_audio,
  has_audio-found, has_audio-same, remove_file, write_file,
}
use sc_desktop_beautiful.TrackCache.Write.Stored.{meta-ne}
use sc_desktop_beautiful.TrackCache.Files.{
  Cache, Move, Place, candidates, copy_file, copy_to_liked, files_in, first_audio, in_audio,
  in_liked, is_file, liked_has_file, move_file, promote_to_liked, put_files, remove_cached,
  remove_paths, resolve_path,
}
use mathlib.Core.Bool.{true≢false}

-- A promotion that reports success leaves the track among the liked ones.
abbrev pub Promoted : List ℕ → Cache × Bool → Type 0
Promoted urn (c, true) = liked_has_file urn c ≡ true
Promoted urn (c, false) = Unit

has_audio_file :
    (name : List ℕ) (fs : List File)
    → has_audio name fs ≡ true
    → (f : File) × (find_file name fs ≡ some f) × (min_audio_size ≤ length f.content)
unfolding has_audio
has_audio_file name fs e = go (find_file name fs) refl
  where
    go :
        (o : Option File)
        → find_file name fs ≡ o
        → (f : File) × (find_file name fs ≡ some f) × (min_audio_size ≤ length f.content)
    go none k =
        let missing : has_audio name fs ≡ false = rw (k, has_audio) refl in
        absurd (true≢false (sym e ∙ missing))
    go (some f) k =
        let big : has_audio name fs ≡ leb min_audio_size (length f.content) =
          rw (k, has_audio) refl in
        (f, k, leb→le _ _ (sym big ∙ e))

copy-has_audio :
    (name : List ℕ) (from to : List File)
    → has_audio name from ≡ true
    → has_audio name (copy_file name from to) ≡ true
unfolding copy_file
copy-has_audio name from to e =
    let (f, k, big) = has_audio_file name from e in
    rw (k, copy_file)
      (has_audio-found name (write_file name f.content to) _ (find-write_self name f.content to)
        big)

copy-has_audio_ne :
    (name other : List ℕ) (from to : List File)
    → name ≢ other
    → has_audio other (copy_file name from to) ≡ has_audio other to
unfolding copy_file
copy-has_audio_ne name other from to ne = go (find_file name from) refl
  where
    go :
        (o : Option File)
        → find_file name from ≡ o
        → has_audio other (copy_file name from to) ≡ has_audio other to
    go none k = rw (k, copy_file) refl
    go (some f) k =
        rw (k, copy_file)
          (has_audio-same other (write_file name f.content to) to
            (find-write_ne name other f.content to ne))

not-false : (b : Bool) → not b ≡ false → b ≡ true
not-false true e = refl
not-false false e = cc

-- Whatever the file system answers, a promotion that reports success leaves the track among the liked
-- ones, in a file large enough to be found again.
pub promote_to_liked-Promoted :
    (m : Move) (urn : List ℕ) (c : Cache) → Promoted urn (promote_to_liked m urn c)
unfolding promote_to_liked copy_to_liked move_file liked_has_file
promote_to_liked-Promoted m urn c =
    let name = urn_to_filename urn in
    let meta = cache_metadata_path name in
    let P = Promoted urn in
    if-cases P (liked_has_file urn c) _ _ (λ e. e)
      λ _.
        if-cases P (not (has_audio name c.audio_dir)) _ _ (λ _. tt)
          λ e.
            let here : has_audio name c.audio_dir ≡ true = not-false _ e in
            let copied = copy-has_audio name c.audio_dir c.liked_dir here in
            if-cases P m.renamed _ _
              (λ _.
                if-cases (λ (d : Cache). has_audio name d.liked_dir ≡ true) m.meta_renamed _ _
                  (λ _. copy-has_audio_ne meta name _ _ (meta-ne name) ∙ copied) λ _. copied)
              λ _.
                if-cases P (not m.read) _ _ (λ _. tt)
                  λ _.
                    if-cases P (not m.written) _ _ (λ _. tt)
                      λ _.
                        if-cases (λ (d : Cache). has_audio name d.liked_dir ≡ true)
                          (m.meta_read && is_file meta c.audio_dir) _ _
                          (λ _.
                            if-cases (λ (fs : List File). has_audio name fs ≡ true) m.meta_written _
                              _ (λ _. copy-has_audio_ne meta name _ _ (meta-ne name) ∙ copied)
                              λ _.
                                has_audio-same name _ _ (find-write_ne meta name _ _ (meta-ne name))
                                ∙ copied)
                          λ _. copied

has_audio-remove :
    (name other : List ℕ) (fs : List File)
    → has_audio other fs ≡ false
    → has_audio other (remove_file name fs) ≡ false
unfolding has_audio
has_audio-remove name other fs e = elim (Bool-cases (text_eq name other)) [
  | inl same ↦
      let gone : find_file other (remove_file name fs) ≡ none =
        subst (λ n. find_file other (remove_file n fs) ≡ none) (sym (text_eq_sound name other same))
          (find-remove_self other fs) in
      rw (gone, has_audio) refl
  | inr away ↦
      let ne : name ≢ other = λ same.
        true≢false (sym (text_eq_self other) ∙ ap (λ n. text_eq n other) (sym same) ∙ away) in
      has_audio-same other _ fs (find-remove_ne name other fs ne) ∙ e
]

-- No track is at this path.
abbrev Clear : Cache → Place → List ℕ → Type 0
Clear c place name = has_audio name (files_in place c) ≡ false

emptied : Place → List ℕ → Cache → Cache
emptied place name c =
    put_files place (remove_file (cache_metadata_path name) (remove_file name (files_in place c))) c

emptied-Clear :
    (c : Cache) (place : Place) (name : List ℕ) (p : Place) (n : List ℕ)
    → Clear c p n
    → Clear (emptied place name c) p n
unfolding emptied put_files files_in
emptied-Clear c in_audio name in_audio n e = has_audio-remove _ n _ (has_audio-remove name n _ e)
emptied-Clear c in_audio name in_liked n e = e
emptied-Clear c in_liked name in_audio n e = e
emptied-Clear c in_liked name in_liked n e = has_audio-remove _ n _ (has_audio-remove name n _ e)

has_audio-removed : (name : List ℕ) (fs : List File) → has_audio name (remove_file name fs) ≡ false
unfolding has_audio
has_audio-removed name fs = rw (find-remove_self name fs, has_audio) refl

emptied-Clear_self :
    (c : Cache) (place : Place) (name : List ℕ) → Clear (emptied place name c) place name
unfolding emptied put_files files_in
emptied-Clear_self c in_audio name = has_audio-remove _ name _ (has_audio-removed name c.audio_dir)
emptied-Clear_self c in_liked name = has_audio-remove _ name _ (has_audio-removed name c.liked_dir)

no_file-Clear :
    (name : List ℕ) (fs : List File) → is_file name fs ≡ false → has_audio name fs ≡ false
unfolding is_file
no_file-Clear name fs e = go (find_file name fs) refl
  where
    go : (o : Option File) → find_file name fs ≡ o → has_audio name fs ≡ false
    go none k = unfold has_audio in (rw (k, has_audio) refl)
    go (some f) k = let there : is_file name fs ≡ true = rw (k, is_file) refl in cc

abbrev always : Place → List ℕ → Bool
always place name = true

remove_paths-keeps :
    (paths : List (Place × List ℕ)) (c : Cache) (removed : Bool) (p : Place) (n : List ℕ)
    → Clear c p n
    → Clear (remove_paths always paths c removed).0 p n
unfolding remove_paths emptied
remove_paths-keeps [] c removed p n e = e
remove_paths-keeps ((place, name) ∷ rest) c removed p n e =
    if-cases (λ (out : Cache × Bool). Clear out.0 p n) (is_file name (files_in place c)) _ _
      (λ _. remove_paths-keeps rest (emptied place name c) _ p n (emptied-Clear c place name p n e))
      λ _. remove_paths-keeps rest c removed p n e

remove_paths-Clear :
    (paths : List (Place × List ℕ)) (c : Cache) (removed : Bool)
    → All (λ path. Clear (remove_paths always paths c removed).0 path.0 path.1) paths
unfolding remove_paths emptied
remove_paths-Clear [] c removed = tt
remove_paths-Clear ((place, name) ∷ rest) c removed =
    if-cases
      (λ (out : Cache × Bool).
        All (λ (path : Place × List ℕ). Clear out.0 path.0 path.1) ((place, name) ∷ rest))
      (is_file name (files_in place c)) _ _
      (λ _. (
        remove_paths-keeps rest (emptied place name c) _ place name
            (emptied-Clear_self c place name),
        remove_paths-Clear rest (emptied place name c) _,
      ))
      λ e. (
        remove_paths-keeps rest c removed place name (no_file-Clear name (files_in place c) e),
        remove_paths-Clear rest c removed,
      )

first_audio-none :
    (c : Cache) (paths : List (Place × List ℕ))
    → All (λ (path : Place × List ℕ). Clear c path.0 path.1) paths
    → first_audio c paths ≡ none
unfolding first_audio
first_audio-none c [] h = refl
first_audio-none c ((place, name) ∷ rest) h = if-false _ _ _ h.0 ∙ first_audio-none c rest h.1

-- When every file can be removed, a removed track is found in none of its four places.
remove_cached-resolve_path :
    (urn : List ℕ) (c : Cache)
    → resolve_path (remove_cached (λ place name. true) urn c).0 urn ≡ none
unfolding resolve_path remove_cached
remove_cached-resolve_path urn c =
    first_audio-none _ (candidates urn) (remove_paths-Clear (candidates urn) c false)
