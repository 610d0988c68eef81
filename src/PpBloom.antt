-- ===== src/PpBloom.antt =====
-- The pair of bloom filters of ppbloom.c, which remembers the salts that were used.
-- One filter (libbloom) is the parameter `BloomLibrary`.
pub mod Window
use outline_multiport_server.Base.{
  ℕ, suc, ◌+◌, ◌/◌, Bool, true, false, Option, none, some, Bytes, leb, if◌then◌else◌,
}

-- `none` is the result -1 of a filter that is not ready; `bloom_check` answers 1 or 0.
pub record BloomLibrary : Type 1 where
  pub Bloom : Type 0
  -- The error rate, a `double`.
  pub Rate : Type 0
  -- `none` where `bloom_init` reports an error.
  pub bloom_init : ℕ → Rate → Option Bloom
  pub bloom_check : Bloom → Bytes → Option Bool
  pub bloom_add : Bloom → Bytes → Option Bloom
  pub bloom_reset : Bloom → Bloom

pub data Side : Type 0 where
  ping pong : Side

abbrev pub other : Side → Side
other ping = pong
other pong = ping

module _ (B : BloomLibrary) where
  open B use {Bloom, Rate, bloom_init, bloom_check, bloom_add, bloom_reset}

  -- The static variables of ppbloom.c.
  pub record PpBloom : Type 0 where
    pub ppbloom_ping : Bloom
    pub ppbloom_pong : Bloom
    pub count_ping : ℕ
    pub count_pong : ℕ
    pub current : Side
    pub entries : ℕ

  -- `ppbloom + side` and `bloom_count[side]`
  abbrev pub filter_of : Side → PpBloom → Bloom
  filter_of ping b = b.ppbloom_ping
  filter_of pong b = b.ppbloom_pong

  abbrev pub count_of : Side → PpBloom → ℕ
  count_of ping b = b.count_ping
  count_of pong b = b.count_pong

  abbrev pub set_filter : Side → Bloom → PpBloom → PpBloom
  set_filter ping f b = record b { ppbloom_ping = f }
  set_filter pong f b = record b { ppbloom_pong = f }

  abbrev pub set_count : Side → ℕ → PpBloom → PpBloom
  set_count ping n b = record b { count_ping = n }
  set_count pong n b = record b { count_pong = n }

  unfoldable pub ppbloom_init : ℕ → Rate → Option PpBloom
  ppbloom_init n e = elim (bloom_init (n / 2) e) [
    | none ↦ none
    | some f ↦ elim (bloom_init (n / 2) e) [
      | none ↦ none
      | some g ↦ some (record {
        ppbloom_ping = f;
        ppbloom_pong = g;
        count_ping = 0;
        count_pong = 0;
        current = ping;
        entries = n / 2;
      })
    ]
  ]

  unfoldable pub ppbloom_check : PpBloom → Bytes → Option Bool
  ppbloom_check b s = elim (bloom_check b.ppbloom_ping s) [
    | none ↦ none
    | some true ↦ some true
    | some false ↦ bloom_check b.ppbloom_pong s
  ]

  -- The switch to the other filter, which is cleared, once the current one is full.
  unfoldable pub turn : PpBloom → PpBloom
  turn b =
      if leb b.entries (count_of b.current b)
      then set_filter (other b.current) (bloom_reset (filter_of (other b.current) b))
          (record (set_count b.current 0 b) { current = other b.current })
      else b

  -- `none` is the result -1, with nothing changed.
  unfoldable pub ppbloom_add : PpBloom → Bytes → Option PpBloom
  unfolding turn
  ppbloom_add b s = elim (bloom_add (filter_of b.current b) s) [
    | none ↦ none
    | some f ↦
        some (turn (set_count b.current (suc (count_of b.current b)) (set_filter b.current f b)))
  ]
