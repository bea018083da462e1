-- ===== src/Storage/Quota.antt =====
-- The room for uploads on the disk, storage/src/routes/upload.rs: one counter of bytes, `used`, that all
-- uploads share, and the bytes that each has reserved. The counter is an AtomicU64.
pub mod Steps
pub mod Rescan
use sc_desktop_beautiful.Prelude.{
  Bool, Option, false, if◌then◌else◌, leb, ltb, none, some, true, ℕ, ◌+◌, ◌-◌, ◌%◌, not,
}

-- `2 ^ 64`
abbrev pub word : ℕ
word = 18446744073709551616

-- `TMP_RESCAN_COOLDOWN`, in seconds.
abbrev pub tmp_rescan_cooldown : ℕ
tmp_rescan_cooldown = 5

unfoldable pub saturating_add : ℕ → ℕ → ℕ
saturating_add a b = if leb word (a + b) then word - 1 else a + b

unfoldable pub fetch_add : ℕ → ℕ → ℕ
fetch_add used n = (used + n) % word

unfoldable pub fetch_sub : ℕ → ℕ → ℕ
fetch_sub used n = (used + (word - n)) % word

-- The first half of `TmpReservation::try_add`, which is one step for the others: whether there is
-- room, the counter, and what the upload has reserved.
unfoldable pub reserve : Option ℕ → ℕ → ℕ → ℕ → Bool × ℕ × ℕ
reserve none n used bytes = (true, used, saturating_add bytes n)
reserve (some limit) n used bytes =
    if ltb limit (saturating_add used n)
    then (false, fetch_add used n, bytes)
    else (true, fetch_add used n, saturating_add bytes n)

-- The second half, where there was no room.
unfoldable pub backed_off : ℕ → Bool × ℕ × ℕ → Bool × ℕ × ℕ
backed_off n (true, used, bytes) = (true, used, bytes)
backed_off n (false, used, bytes) = (false, fetch_sub used n, bytes)

unfoldable pub try_add : Option ℕ → ℕ → ℕ → ℕ → Bool × ℕ × ℕ
try_add limit n used bytes = backed_off n (reserve limit n used bytes)

-- `Drop for TmpReservation`
unfoldable pub release : Option ℕ → ℕ → ℕ → ℕ
release none bytes used = used
release (some limit) bytes used = if ltb 0 bytes then fetch_sub used bytes else used

-- What the scan of the disk found, if it did not fail. Gives the counter and the time of the scan.
unfoldable pub rescanned : Option ℕ → ℕ → ℕ → ℕ × ℕ
rescanned none now used = (used, now)
rescanned (some disk) now used =
    if ltb disk used then (fetch_sub used (used - disk), now) else (used, now)

-- `free` is whether no other upload is scanning, and `last` when the last scan was.
unfoldable pub rescan_tmp_usage : Bool → ℕ → ℕ → Option ℕ → ℕ → ℕ × ℕ
rescan_tmp_usage free last now disk used =
    if not free
    then (used, last)
    else if ltb (now - last) tmp_rescan_cooldown
    then (used, last)
    else rescanned disk now used
