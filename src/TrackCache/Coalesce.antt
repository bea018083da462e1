-- ===== src/TrackCache/Coalesce.antt =====
-- The requests for one track that is being downloaded: `ensure_cached` in
-- desktop/src-tauri/src/track_cache/state.rs, from the entry of `active` that one task makes to its
-- removal. A step is what runs between two points where another task may run.
pub mod Answers
use sc_desktop_beautiful.Prelude.{
  Bool, List, Option, [], false, get_elem?, none, set, some, true, ℕ, ◌∷◌, ◌≡◌,
}
use sc_desktop_beautiful.Prelude.Outcome.{Reply, ◌>>=◌}

-- Where the task that downloads stands.
pub data Owner : Type 0 where
  downloading slot_written waiters_notified finished : Owner

-- A request that found the entry: it has cloned the handles and released the lock, it is registered
-- at `notify`, it is woken, or it has read the slot.
pub data Waiter : Type 0 where
  looking waiting woken : Waiter
  answered : Option (Reply (List ℕ)) → Waiter

pub record Flight : Type 0 where
  pub listed : Bool
  pub owner : Owner
  pub slot : Option (Reply (List ℕ))
  pub waiters : List Waiter

-- As the entry is made.
unfoldable pub started : Flight
started = record { listed = true; owner = downloading; slot = none; waiters = [] }

-- `notify_waiters` wakes those that are registered, and keeps nothing for later ones.
unfoldable pub wake : List Waiter → List Waiter
wake [] = []
wake (waiting ∷ ws) = woken ∷ wake ws
wake (w ∷ ws) = w ∷ wake ws

pub data Step : Flight → Flight → Type 0 where
  join : (f : Flight) → f.listed ≡ true → Step f (record f { waiters = looking ∷ f.waiters })
  register :
      (f : Flight) (i : ℕ)
      → get_elem? f.waiters i ≡ some looking
      → Step f (record f { waiters = set f.waiters i waiting })
  write_slot :
      (f : Flight) (r : Reply (List ℕ))
      → f.owner ≡ downloading
      → Step f (record f { owner = slot_written; slot = some r })
  notify_waiters :
      (f : Flight)
      → f.owner ≡ slot_written
      → Step f (record f { owner = waiters_notified; waiters = wake f.waiters })
  unlist :
      (f : Flight)
      → f.owner ≡ waiters_notified
      → Step f (record f { owner = finished; listed = false })
  read_slot :
      (f : Flight) (i : ℕ)
      → get_elem? f.waiters i ≡ some woken
      → Step f (record f { waiters = set f.waiters i (answered f.slot) })

-- The states after any number of steps.
pub data Reached (f : Flight) : Flight → Type 0 where
  at_start : Reached f f
  and_step : {g h : Flight} → Reached f g → Step g h → Reached f h
