-- ===== src/Storage/Quota/Steps.antt =====
-- The uploads that share the counter, storage/src/routes/upload.rs, in steps that come in any order.
use sc_desktop_beautiful.Prelude.{
  Bool, List, [], arith, false, if-cases, inl, inr, ltb, some, true, ℕ, ◌+◌, ◌++◌, ◌<◌, ◌∷◌, ◌≡◌,
  ◌≤◌, ◌⊎◌,
}
use sc_desktop_beautiful.Storage.Quota.{
  backed_off, fetch_add, fetch_sub, release, reserve, saturating_add, word,
}

-- An upload has reserved some bytes, and may be about to give back `n` more.
pub data Upload : Type 0 where
  holding : ℕ → Upload
  trying : ℕ → ℕ → Upload

pub record Counter : Type 0 where
  pub used : ℕ
  pub uploads : List Upload

abbrev pub tried : ℕ → Bool × ℕ × ℕ → Upload
tried n (true, used, bytes) = holding bytes
tried n (false, used, bytes) = trying bytes n

-- One step of one upload. The bytes in flight do not overflow the counter.
pub data Step (limit : ℕ) : Counter → Counter → Type 0 where
  opens :
      (used : ℕ) (xs : List Upload)
      → Step limit
          (record { used = used; uploads = xs })
          (record { used = used; uploads = holding 0 ∷ xs })
  adds :
      (used n bytes : ℕ) (xs ys : List Upload)
      → used + n < word
      → Step limit
          (record { used = used; uploads = xs ++ (holding bytes ∷ ys) })
          (record {
            used = (reserve (some limit) n used bytes).1;
            uploads = xs ++ (tried n (reserve (some limit) n used bytes) ∷ ys);
          })
  backs_off :
      (used n bytes : ℕ) (xs ys : List Upload)
      → Step limit
          (record { used = used; uploads = xs ++ (trying bytes n ∷ ys) })
          (record {
            used = (backed_off n (false, used, bytes)).1;
            uploads = xs ++ (holding bytes ∷ ys);
          })
  drops :
      (used bytes : ℕ) (xs ys : List Upload)
      → Step limit
          (record { used = used; uploads = xs ++ (holding bytes ∷ ys) })
          (record { used = release (some limit) bytes used; uploads = xs ++ ys })

pub data Steps (limit : ℕ) (c : Counter) : Counter → Type 0 where
  none_yet : Steps limit c c
  then_step : {d e : Counter} → Steps limit c d → Step limit d e → Steps limit c e

abbrev pub reserved : Upload → ℕ
reserved (holding b) = b
reserved (trying b n) = b

abbrev pub in_flight : Upload → ℕ
in_flight (holding b) = 0
in_flight (trying b n) = n

abbrev pub total : (Upload → ℕ) → List Upload → ℕ
total f [] = 0
total f (u ∷ us) = f u + total f us

-- The sum with an upload between two others.
total-between :
    (f : Upload → ℕ) (xs : List Upload) (u : Upload) (ys : List Upload)
    → total f (xs ++ (u ∷ ys)) ≡ total f (xs ++ ys) + f u
total-between f [] u ys = omega arith
total-between f (x ∷ xs) u ys = omega (arith, total-between f xs u ys)

fetch_add_small : (used n : ℕ) → used + n < word → fetch_add used n ≡ used + n
unfolding fetch_add
fetch_add_small used n h = omega arith

fetch_sub_small : (used n : ℕ) → n ≤ used → used < word → fetch_sub used n + n ≡ used
unfolding fetch_sub
fetch_sub_small used n h b = omega arith

saturating_add_small : (a b : ℕ) → a + b < word → saturating_add a b ≡ a + b
unfolding saturating_add
saturating_add_small a b h = ground arith

-- The counter is what was on the disk at the start, `left`, and what the uploads have taken of it. What
-- they have reserved is within the limit.
pub record IsBalanced (limit left : ℕ) (c : Counter) : Type 0 where
  pub balance : c.used ≡ left + total reserved c.uploads + total in_flight c.uploads
  pub below : c.used < word
  pub within : total reserved c.uploads ≤ limit

data Fits (limit n used bytes : ℕ) : Bool × ℕ × ℕ → Type 0 where
  room : used + n ≤ limit → Fits limit n used bytes (true, used + n, bytes + n)
  full : Fits limit n used bytes (false, used + n, bytes)

reserve-Fits :
    (limit n used bytes : ℕ)
    → used + n < word
    → bytes ≤ used
    → Fits limit n used bytes (reserve (some limit) n used bytes)
unfolding reserve
reserve-Fits limit n used bytes h b =
    rw
      (
        fetch_add_small used n h,
        saturating_add_small used n h,
        saturating_add_small bytes n (omega (arith, b, h)),
      )
      (if-cases (Fits limit n used bytes) (ltb limit (used + n)) _ _ (λ _. full)
        λ e. room (ground arith))

module _ (limit left : ℕ) where
  -- An upload is put in the place of another one between the others.
  replaced :
      {used : ℕ} (u : Upload) (used' : ℕ) (v : Upload) (xs ys : List Upload)
      → used' + (reserved u + in_flight u) ≡ used + (reserved v + in_flight v)
      → used' < word
      → (reserved v ≤ reserved u) ⊎ (used' ≤ limit)
      → IsBalanced limit left (record { used = used; uploads = xs ++ (u ∷ ys) })
      → IsBalanced limit left (record { used = used'; uploads = xs ++ (v ∷ ys) })
  replaced u used' v xs ys e b w h =
      let ru = total-between reserved xs u ys in
      let rv = total-between reserved xs v ys in
      let fu = total-between in_flight xs u ys in
      let fv = total-between in_flight xs v ys in
      let balance : used'
          ≡ left + total reserved (xs ++ (v ∷ ys)) + total in_flight (xs ++ (v ∷ ys)) =
        omega (arith, h.balance, e, ru, rv, fu, fv) in
      record {
        balance = balance;
        below = b;
        within = elim w [
          | inl less ↦ omega (arith, less, h.within, ru, rv)
          | inr z ↦ omega (arith, z, balance)
        ];
      }

  added :
      (used n bytes : ℕ) (xs ys : List Upload) (r : Bool × ℕ × ℕ)
      → used + n < word
      → Fits limit n used bytes r
      → IsBalanced limit left (record { used = used; uploads = xs ++ (holding bytes ∷ ys) })
      → IsBalanced limit left (record { used = r.1; uploads = xs ++ (tried n r ∷ ys) })
  added used n bytes xs ys r b (room w) h =
      replaced (holding bytes) (used + n) (holding (bytes + n)) xs ys (omega arith) b (inr w) h
  added used n bytes xs ys r b full h =
      replaced (holding bytes) (used + n) (trying bytes n) xs ys (omega arith) b (inl (omega arith))
        h

  step-IsBalanced :
      {c d : Counter} → Step limit c d → IsBalanced limit left c → IsBalanced limit left d
  unfolding backed_off release
  step-IsBalanced (opens used xs) h = record {
    balance = omega (arith, h.balance);
    below = h.below;
    within = omega (arith, h.within);
  }
  step-IsBalanced (adds used n bytes xs ys r) h =
      added used n bytes xs ys _ r
        (reserve-Fits limit n used bytes r
          (omega (arith, h.balance, total-between reserved xs (holding bytes) ys)))
        h
  step-IsBalanced (backs_off used n bytes xs ys) h =
      let back : fetch_sub used n + n ≡ used =
        fetch_sub_small used n
          (omega (arith, h.balance, total-between in_flight xs (trying bytes n) ys)) h.below in
      replaced (trying bytes n) (fetch_sub used n) (holding bytes) xs ys (omega (arith, back))
        (omega (arith, back, h.below)) (inl (omega arith)) h
  step-IsBalanced (drops used bytes xs ys) h =
      let r = total-between reserved xs (holding bytes) ys in
      let f = total-between in_flight xs (holding bytes) ys in
      let back : fetch_sub used bytes + bytes ≡ used =
        fetch_sub_small used bytes (omega (arith, h.balance, r)) h.below in
      if-cases (λ u. IsBalanced limit left (record { used = u; uploads = xs ++ ys })) (ltb 0 bytes)
        _ _
        (λ _. record {
          balance = omega (arith, h.balance, r, f, back);
          below = omega (arith, h.below, back);
          within = omega (arith, h.within, r);
        })
        (λ e.
          let z : bytes ≡ 0 = ground arith in
          record {
            balance = omega (arith, h.balance, r, f, z);
            below = h.below;
            within = omega (arith, h.within, r);
          })

  -- At the start no upload is there, and the counter is what is on the disk.
  pub Steps-IsBalanced :
      {d : Counter}
      → left < word
      → Steps limit (record { used = left; uploads = [] }) d
      → IsBalanced limit left d
  Steps-IsBalanced b none_yet = record { balance = omega arith; below = b; within = omega arith }
  Steps-IsBalanced b (then_step before s) = step-IsBalanced s (Steps-IsBalanced b before)
