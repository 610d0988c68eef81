-- ===== src/Cache/Order.antt =====
-- The order and the size of the cache of cache.c.
use outline_multiport_server.Base.{
  ℕ, ◌-◌, ◌<◌, ◌≡◌, ◌≢◌, refl, sym, ap, subst, ◌∙◌, inl, inr, Bool, true, false, not, none, some,
  List, [], ◌∷◌, ◌++◌, Bytes, length, drop, select, All, arith, leb, ltb, ◌==◌, if◌then◌else◌,
  select-true, select-false, Bool-cases,
}
use outline_multiport_server.Cache.{CacheEntry, HashLibrary, Cache, touch, cache_lookup}

abbrev pub without : ℕ → List CacheEntry → List CacheEntry
without a = select (λ e. not (e.address == a))

abbrev pub IsFresh : ℕ → List CacheEntry → Type 0
IsFresh a = All (λ e. a ≢ e.address)

abbrev pub IsDistinct : List CacheEntry → Type 0
IsDistinct [] = Unit
IsDistinct (e ∷ es) = IsFresh e.address es × IsDistinct es

-- What uthash documents: the iteration has the order in which the items were added, `HASH_DEL`
-- takes out the item, and `HASH_FIND` gives an item with the key, if there is one.
pub record HashLaws (H : HashLibrary) : Type 1 where
  pub iter-none : H.hash_iter H.hash_none ≡ []
  pub iter-add :
      (t : H.Table) (e : CacheEntry)
      → H.hash_iter (H.hash_add_keyptr t e) ≡ H.hash_iter t ++ (e ∷ [])
  pub iter-del :
      (t : H.Table) (e : CacheEntry)
      → H.hash_iter (H.hash_del t e) ≡ without e.address (H.hash_iter t)
  pub count-iter : (t : H.Table) → H.hash_count t ≡ length (H.hash_iter t)
  pub find-key : (t : H.Table) (k : Bytes) (e : CacheEntry) → H.hash_find t k ≡ some e → e.key ≡ k
  pub find-missing :
      (t : H.Table) (k : Bytes) → H.hash_find t k ≡ none → All (λ e. e.key ≢ k) (H.hash_iter t)

-- The entries older than the age.
abbrev pub is_old : ℕ → ℕ → CacheEntry → Bool
is_old now age e = ltb age (now - e.ts)

-- The list behind the insertion: without its first where it has reached the size.
abbrev pub within : ℕ → List CacheEntry → List CacheEntry
within size es = if leb size (length es) then drop 1 es else es

pub without_fresh : (a : ℕ) (es : List CacheEntry) → IsFresh a es → without a es ≡ es
without_fresh a [] h = refl
without_fresh a (e ∷ es) (new, rest) =
    let same = without_fresh a es rest in
    let kept : not (e.address == a) ≡ true = ground (arith, new) in
    select-true (λ x. not (x.address == a)) e es kept ∙ ap (◌∷◌ e) same

IsFresh-select :
    (p : CacheEntry → Bool) (a : ℕ) (es : List CacheEntry) → IsFresh a es → IsFresh a (select p es)
IsFresh-select p a [] h = tt
IsFresh-select p a (e ∷ es) (h, hs) =
    let rest = IsFresh-select p a es hs in
    elim (p e) as (λ b. IsFresh a (elim b [ true ↦ e ∷ select p es | false ↦ select p es ])) [
      | true ↦ (h, rest)
      | false ↦ rest
    ]

pub IsDistinct-select :
    (p : CacheEntry → Bool) (es : List CacheEntry) → IsDistinct es → IsDistinct (select p es)
IsDistinct-select p [] h = tt
IsDistinct-select p (e ∷ es) (h, hs) =
    let rest = IsDistinct-select p es hs in
    let fresh = IsFresh-select p e.address es h in
    elim (p e) as (λ b. IsDistinct (elim b [ true ↦ e ∷ select p es | false ↦ select p es ])) [
      | true ↦ (fresh, rest)
      | false ↦ rest
    ]

IsFresh-without : (a : ℕ) (es : List CacheEntry) → IsFresh a (without a es)
IsFresh-without a [] = tt
IsFresh-without a (e ∷ es) =
    let rest = IsFresh-without a es in
    elim (Bool-cases (e.address == a)) [
      | inl same ↦
          subst (IsFresh a) (sym (select-false (λ x. not (x.address == a)) e es (ground arith)))
            rest
      | inr other ↦
          subst (IsFresh a) (sym (select-true (λ x. not (x.address == a)) e es (ground arith)))
            (ground arith, rest)
    ]

module _ (H : HashLibrary) (laws : HashLaws H) where
  -- The addresses are distinct, and there are fewer entries than the cache may have.
  pub record IsCache (c : Cache H) : Type 0 where
    pub distinct : IsDistinct (H.hash_iter c.entries)
    pub bounded : length (H.hash_iter c.entries) < c.max_entries

  -- With a table that keeps the laws of uthash: a key that is found has its data given, and its
  -- entry becomes the newest, with the time of now; the other entries keep their order.
  pub cache_lookup-newest :
      (c : Cache H) (key : Bytes) (e : CacheEntry) (now : ℕ)
      → H.hash_find c.entries key ≡ some e
      → let (r, result) = cache_lookup H (some c) (some key) true now in
        (result ≡ some e.data_at)
        × (r.cache_left ≡ some (touch H c e now))
        × (H.hash_iter (touch H c e now).entries
            ≡ without e.address (H.hash_iter c.entries) ++ (record e { ts = now } ∷ []))
  unfolding cache_lookup touch
  cache_lookup-newest c key e now found =
      let items =
        laws.iter-add (H.hash_del c.entries e) (record e { ts = now })
        ∙ ap (λ es. es ++ (record e { ts = now } ∷ [])) (laws.iter-del c.entries e) in
      rw (found, cache_lookup) (refl, refl, items)
