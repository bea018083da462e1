-- ===== src/Desync/Strategy.antt =====
-- utils/dpi-desync/src/state.rs, and the strategies of tamper.rs: the switch and the strategy that
-- the proxy reads for each connection.
use sc_desktop_beautiful.Prelude.{ℕ, ◌≡◌, refl, Bool, List, [], ◌∷◌, ◌==◌, if◌then◌else◌}

pub data Strategy : Type 0 where
  none tls_rec split tls_rec_split multi_split : Strategy

-- `s as u8`
unfoldable pub as_u8 : Strategy → ℕ
as_u8 none = 0
as_u8 tls_rec = 1
as_u8 split = 2
as_u8 tls_rec_split = 3
as_u8 multi_split = 4

unfoldable pub ladder : List Strategy
ladder = none ∷ tls_rec ∷ split ∷ tls_rec_split ∷ multi_split ∷ []

-- The strategy is kept as a byte.
pub record State : Type 0 where
  pub enabled : Bool
  pub strategy : ℕ

unfoldable pub new : Bool → State
unfolding as_u8
new enabled = record { enabled = enabled; strategy = as_u8 none }

unfoldable pub set_enabled : State → Bool → State
set_enabled s v = record s { enabled = v }

unfoldable pub is_enabled : State → Bool
is_enabled s = s.enabled

unfoldable pub set_strategy : State → Strategy → State
unfolding as_u8
set_strategy s v = record s { strategy = as_u8 v }

unfoldable pub strategy : State → Strategy
strategy s =
    if s.strategy == 1
    then tls_rec
    else if s.strategy == 2
    then split
    else if s.strategy == 3
    then tls_rec_split
    else if s.strategy == 4
    then multi_split
    else none

-- `let effective = …` of socks.rs.
unfoldable pub effective : State → Strategy
unfolding is_enabled strategy
effective s = if is_enabled s then strategy s else none

-- The end of `probe::run`: the first strategy that answered is kept, or `none`.
unfoldable pub keep_winner : State → List Strategy → State × Strategy
unfolding set_strategy
keep_winner s [] = (set_strategy s none, none)
keep_winner s (winner ∷ _) = (set_strategy s winner, winner)

-- The byte that is stored reads back as the strategy, on either side of the switch, whatever was
-- set before; a disabled proxy runs no strategy.
effective-set_strategy :
    (s : State) (on : Bool) (v : Strategy)
    → effective (set_enabled (set_strategy s v) on) ≡ (if on then v else none)
unfolding effective set_enabled set_strategy
effective-set_strategy s on none = refl
effective-set_strategy s on v = refl
