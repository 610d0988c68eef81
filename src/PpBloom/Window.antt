-- ===== src/PpBloom/Window.antt =====
-- How long ppbloom.c remembers a salt.
use outline_multiport_server.Base.{
  ℕ, zero, suc, ◌+◌, ◌-◌, ◌/◌, ◌≤◌, ◌<◌, ◌≡◌, refl, subst, length, leb→le, ◌⊎◌, inl, inr, Bool,
  true, Option, none, some, Bool-cases, Option-cases, List, [], ◌∷◌, Bytes, arith, leb,
}
use outline_multiport_server.PpBloom.{
  BloomLibrary, PpBloom, Side, ping, pong, other, filter_of, count_of, ppbloom_init, ppbloom_check,
  ppbloom_add,
}

-- What libbloom documents: a filter that was initialised stays ready, and it never forgets what was
-- added, until it is reset. Nothing is said of false positives.
pub record BloomLaws (B : BloomLibrary) : Type 1 where
  pub IsReady : B.Bloom → Type 0
  pub init_ready : (n : ℕ) (e : B.Rate) (f : B.Bloom) → B.bloom_init n e ≡ some f → IsReady f
  pub reset_ready : (f : B.Bloom) → IsReady f → IsReady (B.bloom_reset f)
  pub add_ready :
      (f : B.Bloom) (s : Bytes) → IsReady f → (g : B.Bloom) × (B.bloom_add f s ≡ some g) × IsReady g
  pub check_ready :
      (f : B.Bloom) (s : Bytes) → IsReady f → (b : Bool) × (B.bloom_check f s ≡ some b)
  pub check_added :
      (f g : B.Bloom) (s : Bytes) → B.bloom_add f s ≡ some g → B.bloom_check g s ≡ some true
  pub check_kept :
      (f g : B.Bloom) (s x : Bytes)
      → B.bloom_add f s ≡ some g
      → B.bloom_check f x ≡ some true
      → B.bloom_check g x ≡ some true

module _ (B : BloomLibrary) where
  -- `ppbloom_add` of each salt in turn.
  unfoldable pub add_all : PpBloom B → List Bytes → Option (PpBloom B)
  add_all b [] = some b
  add_all b (s ∷ ss) = elim (ppbloom_add B b s) [ none ↦ none | some b' ↦ add_all b' ss ]

module _ (B : BloomLibrary) (laws : BloomLaws B) where
  -- Both filters are ready, the current one is not full, and the other's count is zero.
  pub record IsPpBloom (b : PpBloom B) : Type 0 where
    pub ready_ping : laws.IsReady b.ppbloom_ping
    pub ready_pong : laws.IsReady b.ppbloom_pong
    pub room : count_of B b.current b < b.entries
    pub idle : count_of B (other b.current) b ≡ 0

  -- The salt is still found after `k` more additions.
  abbrev Remembers : PpBloom B → Bytes → ℕ → Type 0
  Remembers b x k =
      ((B.bloom_check (filter_of B b.current b) x ≡ some true)
        × (k + count_of B b.current b < b.entries + b.entries))
      ⊎ ((B.bloom_check (filter_of B (other b.current) b) x ≡ some true)
          × (k + count_of B b.current b < b.entries))

  Side-cases : (c : Side) → (c ≡ ping) ⊎ (c ≡ pong)
  Side-cases ping = inl refl
  Side-cases pong = inr refl

  Remembers-check :
      (b : PpBloom B) (x : Bytes) (k : ℕ)
      → IsPpBloom b
      → Remembers b x k
      → ppbloom_check B b x ≡ some true
  unfolding ppbloom_check
  Remembers-check b x k h r = ground (arith, laws.check_ready b.ppbloom_ping x h.ready_ping)

  -- A set by its current side, its current and its other filter, its count and its size.
  build : Side → B.Bloom → B.Bloom → ℕ → ℕ → PpBloom B
  build ping f g n e = record {
    ppbloom_ping = f;
    ppbloom_pong = g;
    count_ping = n;
    count_pong = 0;
    current = ping;
    entries = e;
  }
  build pong f g n e = record {
    ppbloom_ping = g;
    ppbloom_pong = f;
    count_ping = 0;
    count_pong = n;
    current = pong;
    entries = e;
  }

  build_self :
      (b : PpBloom B)
      → IsPpBloom b
      → build b.current
          (filter_of B b.current b)
          (filter_of B (other b.current) b)
          (count_of B b.current b)
          b.entries
        ≡ b
  unfolding build
  build_self b h = ground arith

  -- What one addition does: the new set is valid, remembers the salt for as many additions as a
  -- filter takes, less one, and every other salt for one addition less than before.
  abbrev Added : PpBloom B → Bytes → PpBloom B → Type 0
  Added b y b' =
      IsPpBloom b'
      × (b'.entries ≡ b.entries)
      × Remembers b' y (b.entries - 1)
      × ((x : Bytes) (k : ℕ) → Remembers b x (suc k) → Remembers b' x k)

  add_full :
      (c : Side) (f g f' : B.Bloom) (n e : ℕ) (y : Bytes)
      → laws.IsReady f'
      → laws.IsReady g
      → n < e
      → e ≤ suc n
      → B.bloom_add f y ≡ some f'
      → (ppbloom_add B (build c f g n e) y ≡ some (build (other c) (B.bloom_reset g) f' 0 e))
        × Added (build c f g n e) y (build (other c) (B.bloom_reset g) f' 0 e)
  unfolding ppbloom_add build
  add_full ping f g f' n e y rf rg lt full added = (
    ground arith,
    (
      record {
        ready_ping = rf;
        ready_pong = laws.reset_ready g rg;
        room = omega arith;
        idle = refl;
      },
      refl,
      inr (laws.check_added f f' y added, omega arith),
      λ x k r. elim r [
        | inl (p, q) ↦ inr (laws.check_kept f f' y x added p, omega arith)
        | inr (p, q) ↦ absurd (omega arith)
      ],
    ),
  )
  add_full pong f g f' n e y rf rg lt full added = (
    ground arith,
    (
      record {
        ready_ping = laws.reset_ready g rg;
        ready_pong = rf;
        room = omega arith;
        idle = refl;
      },
      refl,
      inr (laws.check_added f f' y added, omega arith),
      λ x k r. elim r [
        | inl (p, q) ↦ inr (laws.check_kept f f' y x added p, omega arith)
        | inr (p, q) ↦ absurd (omega arith)
      ],
    ),
  )

  add_room :
      (c : Side) (f g f' : B.Bloom) (n e : ℕ) (y : Bytes)
      → laws.IsReady f'
      → laws.IsReady g
      → suc n < e
      → B.bloom_add f y ≡ some f'
      → (ppbloom_add B (build c f g n e) y ≡ some (build c f' g (suc n) e))
        × Added (build c f g n e) y (build c f' g (suc n) e)
  unfolding ppbloom_add build
  add_room ping f g f' n e y rf rg lt added = (
    ground arith,
    (
      record { ready_ping = rf; ready_pong = rg; room = lt; idle = refl },
      refl,
      inl (laws.check_added f f' y added, omega arith),
      λ x k r. elim r [
        | inl (p, q) ↦ inl (laws.check_kept f f' y x added p, omega arith)
        | inr (p, q) ↦ inr (p, omega arith)
      ],
    ),
  )
  add_room pong f g f' n e y rf rg lt added = (
    ground arith,
    (
      record { ready_ping = rg; ready_pong = rf; room = lt; idle = refl },
      refl,
      inl (laws.check_added f f' y added, omega arith),
      λ x k r. elim r [
        | inl (p, q) ↦ inl (laws.check_kept f f' y x added p, omega arith)
        | inr (p, q) ↦ inr (p, omega arith)
      ],
    ),
  )

  ready_of : (c : Side) (b : PpBloom B) → IsPpBloom b → laws.IsReady (filter_of B c b)
  ready_of ping b h = h.ready_ping
  ready_of pong b h = h.ready_pong

  add_step :
      (b : PpBloom B) (y : Bytes)
      → IsPpBloom b
      → (b' : PpBloom B) × (ppbloom_add B b y ≡ some b') × Added b y b'
  add_step b y h =
      subst (λ z. (b' : PpBloom B) × (ppbloom_add B z y ≡ some b') × Added z y b') (build_self b h)
        built
    where
      f : B.Bloom
      f = filter_of B b.current b

      g : B.Bloom
      g = filter_of B (other b.current) b

      n : ℕ
      n = count_of B b.current b

      e : ℕ
      e = b.entries

      z : PpBloom B
      z = build b.current f g n e

      built : (b' : PpBloom B) × (ppbloom_add B z y ≡ some b') × Added z y b'
      built =
          let (f', added, rf) = laws.add_ready f y (ready_of b.current b h) in
          let rg = ready_of (other b.current) b h in
          elim (Bool-cases (leb e (suc n))) [
            | inl full ↦
                let (q, p) = add_full b.current f g f' n e y rf rg h.room (leb→le _ _ full) added in
                (_, q, p)
            | inr room ↦
                let (q, p) = add_room b.current f g f' n e y rf rg (ground arith) added in (_, q, p)
          ]

  Remembers-all :
      (b : PpBloom B) (x : Bytes) (k : ℕ) (ss : List Bytes)
      → IsPpBloom b
      → Remembers b x k
      → length ss ≤ k
      → (b' : PpBloom B) × (add_all B b ss ≡ some b') × (ppbloom_check B b' x ≡ some true)
  unfolding add_all
  Remembers-all b x k [] h r le = (b, refl, Remembers-check b x k h r)
  Remembers-all b x zero (s ∷ ss) h r le = absurd (omega arith)
  Remembers-all b x (suc k) (s ∷ ss) h r le =
      let (b', e, (h', size, new, old)) = add_step b s h in
      let (b'', e', found) = Remembers-all b' x k ss h' (old x k r) (omega arith) in
      (b'', rw (e, add_all) e', found)

  -- With filters that keep the laws of libbloom: from a set with room, adding a salt succeeds, and
  -- so does adding any fewer than `entries` more; after these the salt is still found. So the last
  -- `entries` salts are always recognised.
  pub ppbloom_window :
      (b : PpBloom B) (x : Bytes) (ss : List Bytes)
      → IsPpBloom b
      → length ss < b.entries
      → (b' : PpBloom B) × (add_all B b (x ∷ ss) ≡ some b') × (ppbloom_check B b' x ≡ some true)
  unfolding add_all
  ppbloom_window b x ss h lt =
      let (b', e, (h', size, new, old)) = add_step b x h in
      let (b'', e', found) = Remembers-all b' x (b.entries - 1) ss h' new (omega arith) in
      (b'', rw (e, add_all) e', found)

  -- With filters that keep the laws of libbloom: `ppbloom_init` for at least two salts, where
  -- libbloom makes the filters, gives such a set, with half the salts for its size.
  pub ppbloom_init-IsPpBloom :
      (n : ℕ) (e : B.Rate) (b : PpBloom B)
      → 2 ≤ n
      → ppbloom_init B n e ≡ some b
      → IsPpBloom b × (b.entries ≡ n / 2)
  unfolding ppbloom_init
  ppbloom_init-IsPpBloom n e b le h = elim (Option-cases (B.bloom_init (n / 2) e)) [
    | inl q ↦ absurd (ground arith)
    | inr (f, q) ↦
        let r = laws.init_ready (n / 2) e f q in
        let b0 : PpBloom B = record {
          ppbloom_ping = f;
          ppbloom_pong = f;
          count_ping = 0;
          count_pong = 0;
          current = ping;
          entries = n / 2;
        } in
        let same : b0 ≡ b = ground arith in
        rw (← same)
          (record { ready_ping = r; ready_pong = r; room = omega arith; idle = refl }, refl)
  ]
