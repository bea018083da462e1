-- ===== src/Streaming/CookiesPool/Rotation.antt =====
-- A call goes to the accounts in turn, from the one that answered last.
use mathlib.Core.Option.{some-injective}
use mathlib.Core.Bool.{true≢false}
use native.Mathlib.Nat.{mod-eq_of_lt, mod-lt, add-mod_right}
use sc_desktop_beautiful.Prelude.{
  Bool-cases, List, Option, [], ap, arith, false, get_elem?, get_elem?-set_self, inl, inr, leb,
  leb→le, length, length-set, map, none, refl, set, some, subst, suc, sym, true, zero, ℕ, ◌%◌, ◌+◌,
  ◌-◌, ◌<◌, ◌==◌, ◌∙◌, ◌∷◌, ◌≡◌, ◌⊎◌, get_elem?-set, get_elem?_bound,
}
use sc_desktop_beautiful.Prelude.Outcome.{
  Outcome, Reply, Returns, bind-Returns, fault, got, if-Returns, index, index-Returns,
}
use sc_desktop_beautiful.Streaming.CookiesPool.{
  CookiesClient, CookiesPool, PoolEntry, answered, exhausted, is_cooling, is_rate_limited,
  rate_limit_cooldown, rotate, set_until, try_rotate,
}

-- Every entry is cooling down.
abbrev pub AllCooling : ℕ → List PoolEntry → Type 0
AllCooling now entries =
    (i : ℕ) (e : PoolEntry) → get_elem? entries i ≡ some e → is_cooling now e ≡ true

-- The accounts are the same, and an entry that changed is cooling down.
pub record Kept (now : ℕ) (olds news : List PoolEntry) : Type 0 where
  pub clients : map (λ (e : PoolEntry). e.client) news ≡ map (λ (e : PoolEntry). e.client) olds
  pub count : length news ≡ length olds
  pub changed :
      (i : ℕ) (e : PoolEntry)
      → get_elem? news i ≡ some e
      → (get_elem? olds i ≡ some e) ⊎ (is_cooling now e ≡ true)

-- The first `off` accounts from `start` are cooling down.
abbrev Seen : ℕ → ℕ → ℕ → List PoolEntry → Type 0
Seen now start off entries =
    (k : ℕ)
    → k < off
    → (e : PoolEntry) → get_elem? entries ((start + k) % length entries) ≡ some e
    → is_cooling now e ≡ true

map-set :
    {A B : Type 0} (f : A → B) (xs : List A) (i : ℕ) (a v : A)
    → get_elem? xs i ≡ some a
    → f v ≡ f a
    → map f (set xs i v) ≡ map f xs
map-set f [] i a v e same = refl
map-set f (x ∷ xs) zero a v e same =
    ap (λ b. b ∷ map f xs) (same ∙ ap f (sym (some-injective _ _ e)))
map-set f (x ∷ xs) (suc i) a v e same = ap (λ bs. f x ∷ bs) (map-set f xs i a v e same)

-- Every index comes up within one round.
round : (start n i : ℕ) → start < n → i < n → (k : ℕ) × (k < n) × ((start + k) % n ≡ i)
round start n i h l = elim (Bool-cases (leb start i)) [
  | inl le ↦
      let e : start + (i - start) ≡ i = omega (arith, leb→le start i le) in
      (i - start, omega arith, ap (λ x. x % n) e ∙ mod-eq_of_lt l)
  | inr gt ↦
      let e : start + (i + n - start) ≡ i + n = ground arith in
      (i + n - start, ground arith, ap (λ x. x % n) e ∙ add-mod_right i n ∙ mod-eq_of_lt l)
]

-- An entry on its cooldown.
abbrev cooled : ℕ → PoolEntry → PoolEntry
cooled now e = record e { rate_limited_until = some (now + rate_limit_cooldown) }

is_cooling-cooled : (now : ℕ) (e : PoolEntry) → is_cooling now (cooled now e) ≡ true
unfolding is_cooling
is_cooling-cooled now e = ground arith

Kept-set :
    (now : ℕ) (olds news : List PoolEntry) (idx : ℕ) (e : PoolEntry)
    → get_elem? news idx ≡ some e
    → Kept now olds news
    → Kept now olds (set news idx (cooled now e))
Kept-set now olds news idx e at k = record {
  clients = map-set (λ (e : PoolEntry). e.client) news idx e (cooled now e) at refl ∙ k.clients;
  count = length-set news idx (cooled now e) ∙ k.count;
  changed = λ i e' here. elim (get_elem?-set news idx i (cooled now e) e' here) [
    | inl same ↦ inr (rw same (is_cooling-cooled now e))
    | inr (ne, there) ↦ k.changed i e' there
  ];
}

-- One more account is seen: the one at `idx` cools down now, and the others are as before.
Seen-next :
    (now start off : ℕ) (entries news : List PoolEntry)
    → length news ≡ length entries
    → Seen now start off entries
    → ((e : PoolEntry)
        → get_elem? news ((start + off) % length entries) ≡ some e
        → is_cooling now e ≡ true)
    → ((j : ℕ) (e : PoolEntry)
        → get_elem? news j ≡ some e
        → (is_cooling now e ≡ true) ⊎ (get_elem? entries j ≡ some e))
    → Seen now start (off + 1) news
Seen-next now start off entries news same seen here others k h e at =
    let at' : get_elem? news ((start + k) % length entries) ≡ some e = rw (sym same) at in
    elim (Bool-cases (k == off)) [
      | inl eq ↦
          let eq' : k ≡ off = ground arith in
          here e (ap (λ x. get_elem? news ((start + x) % length entries)) (sym eq') ∙ at')
      | inr ne ↦ elim (others _ e at') [
        | inl cool ↦ cool
        | inr there ↦ seen k (ground arith) e there
      ]
    ]

Seen-AllCooling :
    (now start off : ℕ) (entries : List PoolEntry)
    → off ≡ length entries
    → start < length entries
    → Seen now start off entries
    → AllCooling now entries
Seen-AllCooling now start off entries same h seen i e at =
    let (k, less, there) = round start (length entries) i h (get_elem?_bound entries i e at) in
    seen k (omega arith) e (ap (get_elem? entries) there ∙ at)

module _ {T : Type 0} (op : CookiesClient → Reply T) where
  -- A value comes from an account that was not cooling down, and the next call starts there. An
  -- error that is no rate limit is the answer of such an account; any other leaves all cooling.
  abbrev pub Served : ℕ → List PoolEntry → CookiesPool × Reply T → Type 0
  Served now olds (pool', got v) =
      (i : ℕ) × (e : PoolEntry) × (get_elem? olds i ≡ some e)
      × (is_cooling now e ≡ false)
      × (op e.client ≡ got v)
      × (pool'.cursor ≡ i)
      × (get_elem? pool'.entries i ≡ some (record e { rate_limited_until = none }))
  Served now olds (pool', fault msg) =
      AllCooling now pool'.entries
      ⊎ ((i : ℕ) × (e : PoolEntry) × (get_elem? olds i ≡ some e)
          × (is_cooling now e ≡ false)
          × (op e.client ≡ fault msg)
          × (is_rate_limited msg ≡ false))

  exhausted-Served :
      (now : ℕ) (olds : List PoolEntry) (pool : CookiesPool) (last_err : Option (List ℕ))
      → AllCooling now pool.entries
      → Served now olds (pool, exhausted last_err)
  unfolding exhausted
  exhausted-Served now olds pool none h = inl h
  exhausted-Served now olds pool (some e) h = inl h

  Kept-free :
      (now : ℕ) (olds news : List PoolEntry) (i : ℕ) (e : PoolEntry)
      → Kept now olds news
      → get_elem? news i ≡ some e
      → is_cooling now e ≡ false
      → get_elem? olds i ≡ some e
  Kept-free now olds news i e k at free = elim (k.changed i e at) [
    | inl same ↦ same
    | inr cool ↦ absurd (true≢false (sym cool ∙ free))
  ]

  -- The accounts stay, and the answer is as above.
  abbrev pub Settled : ℕ → List PoolEntry → CookiesPool × Reply T → Type 0
  Settled now olds out =
      Served now olds out
      × (map (λ (e : PoolEntry). e.client) out.0.entries ≡ map (λ (e : PoolEntry). e.client) olds)

  answered-Settled :
      (now : ℕ) (olds : List PoolEntry) (pool : CookiesPool) (idx : ℕ) (e : PoolEntry)
      (rest : CookiesPool → Option (List ℕ) → Outcome (CookiesPool × Reply T)) (reply : Reply T)
      → Kept now olds pool.entries
      → get_elem? pool.entries idx ≡ some e
      → is_cooling now e ≡ false
      → op e.client ≡ reply
      → ((msg : List ℕ)
          → Returns
              (Settled now olds)
              (rest (set_until pool idx e (some (now + rate_limit_cooldown))) (some msg)))
      → Returns (Settled now olds) (answered op rest pool now idx e reply)
  unfolding answered set_until
  answered-Settled now olds pool idx e rest (got v) kept at free e0 k = (
    (
      idx,
      e,
      Kept-free now olds pool.entries idx e kept at free,
      free,
      e0,
      refl,
      get_elem?-set_self pool.entries idx _ (get_elem?_bound pool.entries idx e at),
    ),
    map-set (λ (e : PoolEntry). e.client) pool.entries idx e _ at refl ∙ kept.clients,
  )
  answered-Settled now olds pool idx e rest (fault msg) kept at free e0 k =
      if-Returns _ (is_rate_limited msg) _ _ (λ _. k msg)
        λ hard. (
          inr (idx, e, Kept-free now olds pool.entries idx e kept at free, free, e0, hard),
          kept.clients,
        )

  rotate-Settled :
      (left now start off : ℕ) (olds : List PoolEntry) (pool : CookiesPool)
      (last_err : Option (List ℕ))
      → off + left ≡ length pool.entries
      → start < length pool.entries
      → Kept now olds pool.entries
      → Seen now start off pool.entries
      → Returns (Settled now olds) (rotate op left now start off pool last_err)
  unfolding rotate set_until
  rotate-Settled zero now start off olds pool last_err n s kept seen = (
    exhausted-Served now olds pool last_err
        (Seen-AllCooling now start off pool.entries (omega arith) s seen),
    kept.clients,
  )
  rotate-Settled (suc left) now start off olds pool last_err n s kept seen =
      bind-Returns _ _ (index pool.entries ((start + off) % length pool.entries)) _
        (index-Returns pool.entries _ (mod-lt (start + off) (omega arith)))
        λ e _ at.
          if-Returns _ (is_cooling now e) _ _
            (λ cool.
              rotate-Settled left now start (off + 1) olds pool last_err (omega arith) s kept (
                Seen-next now start off pool.entries pool.entries refl seen
                  (λ e' there.
                    subst (λ (x : PoolEntry). is_cooling now x ≡ true)
                      (some-injective _ _ (sym at ∙ there)) cool)
                  λ j e' x. inr x))
            λ free.
              let idx = (start + off) % length pool.entries in
              let news = set pool.entries idx (cooled now e) in
              let same : length news ≡ length pool.entries = length-set pool.entries idx _ in
              answered-Settled now olds pool idx e _ (op e.client) kept at free refl λ msg.
                rotate-Settled left now start (off + 1) olds
                  (set_until pool idx e (some (now + rate_limit_cooldown))) (some msg) (omega arith)
                  (omega arith) (Kept-set now olds pool.entries idx e at kept)
                  (Seen-next now start off pool.entries news same seen
                    (λ e' there.
                      subst (λ (x : PoolEntry). is_cooling now x ≡ true)
                        (some-injective _ _ (
                          sym (
                            get_elem?-set_self pool.entries idx (cooled now e)
                              (get_elem?_bound pool.entries idx e at))
                          ∙ there))
                        (is_cooling-cooled now e))
                    λ j e' there. elim (get_elem?-set pool.entries idx j (cooled now e) e' there) [
                      | inl eq ↦ inl (rw eq (is_cooling-cooled now e))
                      | inr (ne, old) ↦ inr old
                    ])

  -- In a pool that has accounts every index is in range and the accounts stay the same. A value comes
  -- from an account that was not cooling down, whose cooldown is then cleared and with which the next
  -- call starts. An error is the answer of such an account and no rate limit, or else every account
  -- is cooling down now: none that might have answered was passed over.
  pub try_rotate-Settled :
      (pool : CookiesPool) (now : ℕ)
      → 0 < length pool.entries
      → Returns (Settled now pool.entries) (try_rotate op pool now)
  unfolding try_rotate
  try_rotate-Settled pool now h =
      if-Returns _ (length pool.entries == 0) _ _ (λ e. absurd (ground arith))
        λ _.
          rotate-Settled (length pool.entries) now (pool.cursor % length pool.entries) 0
            pool.entries pool none (omega arith) (mod-lt pool.cursor h)
            (record { clients = refl; count = refl; changed = λ i e there. inl there })
            λ k less. absurd (ground arith)
