-- ===== src/Storage/Files.antt =====
-- The files that the storage service works with: the content of each path, if there is a file. A
-- content is known by a number.
use sc_desktop_beautiful.Prelude.{
  List, Option, if-false, if-true, if◌then◌else◌, none, some, ℕ, ◌≡◌, ◌≢◌,
}
use sc_desktop_beautiful.Prelude.Text.{text_eq, text_eq_ne, text_eq_self}

abbrev pub Files : Type 0
Files = List ℕ → Option ℕ

unfoldable pub write : List ℕ → ℕ → Files → Files
write path content files p = if text_eq path p then some content else files p

unfoldable pub remove : List ℕ → Files → Files
remove path files p = if text_eq path p then none else files p

pub write_self : (path : List ℕ) (c : ℕ) (files : Files) → write path c files path ≡ some c
unfolding write
write_self path c files = if-true _ _ _ (text_eq_self path)

pub write_ne : (path p : List ℕ) (c : ℕ) (files : Files) → path ≢ p → write path c files p ≡ files p
unfolding write
write_ne path p c files h = if-false _ _ _ (text_eq_ne path p h)

pub remove_self : (path : List ℕ) (files : Files) → remove path files path ≡ none
unfolding remove
remove_self path files = if-true _ _ _ (text_eq_self path)

pub remove_ne : (path p : List ℕ) (files : Files) → path ≢ p → remove path files p ≡ files p
unfolding remove
remove_ne path p files h = if-false _ _ _ (text_eq_ne path p h)
