-- ===== src/TrackCache/Disk.antt =====
-- A directory of the cache: its files by name, each with its content.
use sc_desktop_beautiful.Prelude.{
  Bool, Bool-cases, List, Option, [], ap, arith, false, if◌then◌else◌, inl, inr, leb, length, none,
  refl, some, sym, true, ℕ, ◌∙◌, ◌∷◌, ◌≡◌, ◌≢◌, ◌≤◌,
}
use sc_desktop_beautiful.Prelude.Text.{text_eq, text_eq_ne, text_eq_self, text_eq_sound}
use sc_desktop_beautiful.TrackCache.Audio.{min_audio_size}

pub record File : Type 0 where
  pub name : List ℕ
  pub content : List ℕ

unfoldable pub find_file : List ℕ → List File → Option File
find_file name [] = none
find_file name (f ∷ fs) = if text_eq f.name name then some f else find_file name fs

unfoldable pub remove_file : List ℕ → List File → List File
remove_file name [] = []
remove_file name (f ∷ fs) =
    let rest = remove_file name fs in if text_eq f.name name then rest else f ∷ rest

unfoldable pub write_file : List ℕ → List ℕ → List File → List File
write_file name content fs = record { name = name; content = content } ∷ remove_file name fs

-- A file that is not there cannot be renamed, and nothing happens.
unfoldable pub rename_file : List ℕ → List ℕ → List File → List File
rename_file from to fs = elim (find_file from fs) [
  | none ↦ fs
  | some f ↦ write_file to f.content (remove_file from fs)
]

-- `metadata(&path).map(|m| m.len() >= MIN_AUDIO_SIZE).unwrap_or(false)`
unfoldable pub has_audio : List ℕ → List File → Bool
has_audio name fs = elim (find_file name fs) [
  | none ↦ false
  | some f ↦ leb min_audio_size (length f.content)
]

pub find-remove_self :
    (name : List ℕ) (fs : List File) → find_file name (remove_file name fs) ≡ none
unfolding find_file remove_file
find-remove_self name [] = refl
find-remove_self name (f ∷ fs) = elim (Bool-cases (text_eq f.name name)) [
  | inl e ↦ rw (e, remove_file) (find-remove_self name fs)
  | inr e ↦ rw (e, remove_file) (rw (e, find_file) (find-remove_self name fs))
]

pub find-remove_ne :
    (name other : List ℕ) (fs : List File)
    → name ≢ other
    → find_file other (remove_file name fs) ≡ find_file other fs
unfolding find_file remove_file
find-remove_ne name other [] ne = refl
find-remove_ne name other (f ∷ fs) ne = elim (Bool-cases (text_eq f.name name)) [
  | inl e ↦
      let away : text_eq f.name other ≡ false =
        text_eq_ne f.name other (λ same. ne (sym (text_eq_sound f.name name e) ∙ same)) in
      rw (e, remove_file) (rw (away, find_file) (find-remove_ne name other fs ne))
  | inr e ↦
      rw (e, remove_file)
        (ap (λ o. if text_eq f.name other then some f else o) (find-remove_ne name other fs ne))
]

pub find-write_self :
    (name content : List ℕ) (fs : List File)
    → find_file name (write_file name content fs) ≡ some (record { name = name; content = content })
unfolding write_file find_file
find-write_self name content fs = rw (text_eq_self name) refl

pub find-write_ne :
    (name other content : List ℕ) (fs : List File)
    → name ≢ other
    → find_file other (write_file name content fs) ≡ find_file other fs
unfolding write_file find_file
find-write_ne name other content fs ne =
    rw (text_eq_ne name other ne) (find-remove_ne name other fs ne)

-- A rename leaves the other files, and moves the content.
pub find-rename_ne :
    (from to other : List ℕ) (fs : List File)
    → from ≢ other
    → to ≢ other
    → find_file other (rename_file from to fs) ≡ find_file other fs
unfolding rename_file
find-rename_ne from to other fs ne ne' = go (find_file from fs) refl
  where
    go :
        (o : Option File)
        → find_file from fs ≡ o
        → find_file other (rename_file from to fs) ≡ find_file other fs
    go none e = rw (e, rename_file) refl
    go (some f) e =
        rw (e, rename_file)
          (find-write_ne to other f.content (remove_file from fs) ne'
            ∙ find-remove_ne from other fs ne)

pub find-rename_to :
    (from to : List ℕ) (fs : List File) (f : File)
    → find_file from fs ≡ some f
    → find_file to (rename_file from to fs) ≡ some (record { name = to; content = f.content })
unfolding rename_file
find-rename_to from to fs f e =
    rw (e, rename_file) (find-write_self to f.content (remove_file from fs))

pub has_audio-found :
    (name : List ℕ) (fs : List File) (f : File)
    → find_file name fs ≡ some f
    → min_audio_size ≤ length f.content
    → has_audio name fs ≡ true
unfolding has_audio
has_audio-found name fs f e h = rw (e, has_audio) (ground arith)

pub has_audio-same :
    (name : List ℕ) (fs gs : List File)
    → find_file name fs ≡ find_file name gs
    → has_audio name fs ≡ has_audio name gs
unfolding has_audio
has_audio-same name fs gs e =
    ap (λ o. elim o [ none ↦ false | some f ↦ leb min_audio_size (length f.content) ]) e
