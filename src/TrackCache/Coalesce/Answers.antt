-- ===== src/TrackCache/Coalesce/Answers.antt =====
-- What the requests that share a download are told.
use mathlib.Core.Option.{some-injective}
use sc_desktop_beautiful.Prelude.{
  All, All-get_elem?, List, Option, [], ap, false, get_elem?, none, refl, set, some, subst, suc,
  sym, zero, ℕ, ◌∙◌, ◌∷◌, ◌≡◌,
}
use sc_desktop_beautiful.Prelude.Outcome.{Reply}
use sc_desktop_beautiful.TrackCache.Coalesce.{
  Owner, downloading, slot_written, waiters_notified, finished, Waiter, looking, waiting, woken,
  answered, Flight, started, wake, Step, join, register, write_slot, notify_waiters, unlist,
  read_slot, Reached, at_start, and_step,
}

-- A request that is woken finds a result, and one that is answered has that of the download.
abbrev pub Sound : Option (Reply (List ℕ)) → Waiter → Type 0
Sound slot looking = Unit
Sound slot waiting = Unit
Sound slot woken = (r : Reply (List ℕ)) × (slot ≡ some r)
Sound slot (answered o) = (r : Reply (List ℕ)) × (slot ≡ some r) × (o ≡ some r)

-- What the slot holds at each place of the owner.
abbrev Filled : Owner → Option (Reply (List ℕ)) → Type 0
Filled downloading slot = slot ≡ none
Filled slot_written slot = (r : Reply (List ℕ)) × (slot ≡ some r)
Filled waiters_notified slot = (r : Reply (List ℕ)) × (slot ≡ some r)
Filled finished slot = (r : Reply (List ℕ)) × (slot ≡ some r)

record IsSound (f : Flight) : Type 0 where
  sound : All (Sound f.slot) f.waiters
  filled : Filled f.owner f.slot

All-set :
    {A : Type 0} (P : A → Type 0) (xs : List A) (i : ℕ) (v : A)
    → All P xs
    → P v
    → All P (set xs i v)
All-set P [] i v h p = tt
All-set P (x ∷ xs) zero v h p = (p, h.1)
All-set P (x ∷ xs) (suc i) v h p = (h.0, All-set P xs i v h.1 p)

-- Before the slot is written nobody is woken.
write-Sound :
    (r : Reply (List ℕ)) (ws : List Waiter) → All (Sound none) ws → All (Sound (some r)) ws
write-Sound r [] h = tt
write-Sound r (looking ∷ ws) h = (tt, write-Sound r ws h.1)
write-Sound r (waiting ∷ ws) h = (tt, write-Sound r ws h.1)
write-Sound r (woken ∷ ws) h = let e = h.0.1 in cc
write-Sound r (answered o ∷ ws) h = let e = h.0.1 in cc

wake-Sound :
    (slot : Option (Reply (List ℕ))) (r : Reply (List ℕ)) (ws : List Waiter)
    → slot ≡ some r
    → All (Sound slot) ws
    → All (Sound slot) (wake ws)
unfolding wake
wake-Sound slot r [] e h = tt
wake-Sound slot r (looking ∷ ws) e h = (tt, wake-Sound slot r ws e h.1)
wake-Sound slot r (waiting ∷ ws) e h = ((r, e), wake-Sound slot r ws e h.1)
wake-Sound slot r (woken ∷ ws) e h = (h.0, wake-Sound slot r ws e h.1)
wake-Sound slot r (answered o ∷ ws) e h = (h.0, wake-Sound slot r ws e h.1)

Step-IsSound : {f g : Flight} → Step f g → IsSound f → IsSound g
Step-IsSound (join f e) s = record { sound = (tt, s.sound); filled = s.filled }
Step-IsSound (register f i e) s = record {
  sound = All-set (Sound f.slot) f.waiters i waiting s.sound tt;
  filled = s.filled;
}
Step-IsSound (write_slot f r e) s = record {
  sound =
      let empty : f.slot ≡ none = subst (λ o. Filled o f.slot) e s.filled in
      write-Sound r f.waiters (subst (λ o. All (Sound o) f.waiters) empty s.sound);
  filled = (r, refl);
}
Step-IsSound (notify_waiters f e) s =
    let (r, full) = subst (λ o. Filled o f.slot) e s.filled in
    record { sound = wake-Sound f.slot r f.waiters full s.sound; filled = (r, full) }
Step-IsSound (unlist f e) s = record {
  sound = s.sound;
  filled = subst (λ o. Filled o f.slot) e s.filled;
}
Step-IsSound (read_slot f i e) s =
    let (r, full) = All-get_elem? (Sound f.slot) f.waiters i s.sound e in
    record {
      sound = All-set (Sound f.slot) f.waiters i (answered f.slot) s.sound (r, full, full);
      filled = s.filled;
    }

Reached-IsSound : {f g : Flight} → Reached f g → IsSound f → IsSound g
Reached-IsSound at_start s = s
Reached-IsSound (and_step before step) s = Step-IsSound step (Reached-IsSound before s)

-- In every order of the steps a request that shares a download is told what the download gave, and
-- never that there is no result.
pub Reached-Sound : (f : Flight) → Reached started f → All (Sound f.slot) f.waiters
unfolding started
Reached-Sound f steps = (Reached-IsSound steps (record { sound = tt; filled = refl })).sound

-- The request looks up the entry, the download then ends, and only then does the request register.
abbrev missed : Reply (List ℕ) → Flight
missed r = record { listed = false; owner = finished; slot = some r; waiters = waiting ∷ [] }

only_waiting : (i : ℕ) (w : Waiter) → get_elem? (waiting ∷ []) i ≡ some w → w ≡ waiting
only_waiting zero w e = sym (some-injective _ _ e)
only_waiting (suc i) w e = cc

-- In the state `missed` no step is left.
stuck : {f g : Flight} (r : Reply (List ℕ)) → Step f g → f ≡ missed r → ⊥
stuck r (join f e) same = let k : f.listed ≡ false = ap (λ (x : Flight). x.listed) same in cc
stuck r (register f i e) same =
    let k = only_waiting i looking (ap (λ (x : Flight). get_elem? x.waiters i) (sym same) ∙ e) in cc
stuck r (write_slot f r' e) same =
    let k : f.owner ≡ finished = ap (λ (x : Flight). x.owner) same in cc
stuck r (notify_waiters f e) same =
    let k : f.owner ≡ finished = ap (λ (x : Flight). x.owner) same in cc
stuck r (unlist f e) same = let k : f.owner ≡ finished = ap (λ (x : Flight). x.owner) same in cc
stuck r (read_slot f i e) same =
    let k = only_waiting i woken (ap (λ (x : Flight). get_elem? x.waiters i) (sym same) ∙ e) in cc

-- A request can wait for ever: whatever the download gives, there is an order of the steps after
-- which the download is over, the request still waits, and no step is left.
pub wait_for_ever :
    (r : Reply (List ℕ))
    → (f : Flight) × Reached started f
      × (f.waiters ≡ waiting ∷ [])
      × (f.slot ≡ some r)
      × ((g : Flight) → ¬ Step f g)
unfolding started wake
wait_for_ever r = (
  missed r,
  and_step
      (and_step
        (and_step (and_step (and_step at_start (join _ refl)) (write_slot _ r refl))
          (notify_waiters _ refl))
        (unlist _ refl))
      (register _ 0 refl),
  refl,
  refl,
  λ g step. stuck r step refl,
)
