-- ===== src/Prelude/Text.antt =====
-- Texts as lists of characters, and the `str` functions that the components share.
use Prim.Native.Char.{code}
use Prim.Native.String.{String}
use sc_desktop_beautiful.Prelude.Tests.{◌==◌, leb, if◌then◌else◌, Bool-cases}
use Prim.Native.Nat.{ℕ}
use mathlib.Core.Bool.{Bool, true, false, ◌&&◌, ◌||◌}
use mathlib.Core.List.{List, [], ◌∷◌}
use mathlib.Core.Path.{◌≡◌, ap, refl, sym, ◌∙◌}
use mathlib.Core.Logic.{inl, inr, ◌≢◌}
use native.Mathlib.Omega.{arith}
use mathlib.Core.Option.{Option, none, some}

unfoldable pub starts_with : List ℕ → List ℕ → Bool
starts_with s [] = true
starts_with [] (c ∷ cs) = false
starts_with (d ∷ ds) (c ∷ cs) = d == c && starts_with ds cs

-- `s.contains(t)`
unfoldable pub contains : List ℕ → List ℕ → Bool
contains [] t = starts_with [] t
contains (c ∷ cs) t = starts_with (c ∷ cs) t || contains cs t

-- The code points of a text.
abbrev pub codes : String → List ℕ
codes String.[] = []
codes (String.◌∷◌ c s) = code c ∷ codes s

-- `char::is_whitespace`
unfoldable pub is_whitespace : ℕ → Bool
is_whitespace c =
    leb 9 c && leb c 13
    || (c == 32
        || (c == 133
            || (c == 160
                || (c == 5760
                    || (leb 8192 c && leb c 8202
                        || (c == 8232
                            || (c == 8233 || (c == 8239 || (c == 8287 || c == 12288)))))))))

-- `s.trim_start()`, `s.trim_end()` and `s.trim()`
unfoldable pub trim_start : List ℕ → List ℕ
trim_start [] = []
trim_start (c ∷ cs) = if is_whitespace c then trim_start cs else c ∷ cs

unfoldable pub trim_end : List ℕ → List ℕ
trim_end [] = []
trim_end (c ∷ cs) = elim (trim_end cs) [
  | [] ↦ if is_whitespace c then [] else c ∷ []
  | d ∷ ds ↦ c ∷ d ∷ ds
]

unfoldable pub trim : List ℕ → List ℕ
trim s = trim_end (trim_start s)

-- The parts before and behind the first `c`, as `s.find(c)` gives them.
unfoldable pub split_once : ℕ → List ℕ → Option (List ℕ × List ℕ)
split_once c [] = none
split_once c (d ∷ ds) =
    if d == c
    then some ([], ds)
    else elim (split_once c ds) [ none ↦ none | some (front, back) ↦ some (d ∷ front, back) ]

-- `s.split(c)`: the first part and the others.
unfoldable pub split : ℕ → List ℕ → List ℕ × List (List ℕ)
split c [] = ([], [])
split c (d ∷ ds) =
    let (part, parts) = split c ds in if d == c then ([], part ∷ parts) else (d ∷ part, parts)

unfoldable pub text_eq : List ℕ → List ℕ → Bool
text_eq [] [] = true
text_eq (c ∷ cs) (d ∷ ds) = c == d && text_eq cs ds
text_eq _ _ = false

pub text_eq_sound : (s t : List ℕ) → text_eq s t ≡ true → s ≡ t
unfolding text_eq
text_eq_sound [] [] e = refl
text_eq_sound [] (d ∷ ds) e = cc
text_eq_sound (c ∷ cs) [] e = cc
text_eq_sound (c ∷ cs) (d ∷ ds) e = ground (arith, text_eq_sound cs ds)

pub text_eq_self : (s : List ℕ) → text_eq s s ≡ true
unfolding text_eq
text_eq_self [] = refl
text_eq_self (c ∷ cs) = ground (arith, text_eq_self cs)

pub text_eq_ne : (s t : List ℕ) → s ≢ t → text_eq s t ≡ false
text_eq_ne s t h = elim (Bool-cases (text_eq s t)) [
  | inl e ↦ absurd (h (text_eq_sound s t e))
  | inr e ↦ e
]

pub text_differs : (s t : List ℕ) → text_eq s t ≡ false → s ≢ t
text_differs s t e same = wrong (sym (text_eq_self t) ∙ ap (λ n. text_eq n t) (sym same) ∙ e)
  where
    wrong : true ≡ false → ⊥
    wrong k = cc
