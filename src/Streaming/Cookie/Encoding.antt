-- ===== src/Streaming/Cookie/Encoding.antt =====
-- A value that is percent-encoded is read back.
use sc_desktop_beautiful.Prelude.{Bool, List, [], if◌then◌else◌, ltb, ℕ, ◌%◌, ◌++◌, ◌+◌, ◌/◌, ◌∷◌}

-- The hexadecimal digit of a number below 16.
unfoldable pub hex : ℕ → ℕ
hex d = if ltb d 10 then 48 + d else 55 + d

-- `keep` says which bytes stand for themselves.
module _ (keep : ℕ → Bool) where
  unfoldable pub percent_encode : List ℕ → List ℕ
  percent_encode [] = []
  percent_encode (b ∷ bs) =
      (if keep b then b ∷ [] else 37 ∷ hex (b / 16) ∷ hex (b % 16) ∷ []) ++ percent_encode bs
