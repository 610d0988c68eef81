-- ===== src/Cache.antt =====
-- The cache of cache.c, which keeps the UDP associations, on the hash table of uthash, whose
-- macros are the parameter `HashLibrary`. Times are counted in ticks of the event loop's clock.
pub mod Order
pub mod Clear
use outline_multiport_server.Base.{
  ℕ, suc, ◌-◌, Bool, true, false, Option, none, some, List, [], ◌∷◌, ◌++◌, Bytes, leb, ltb,
  if◌then◌else◌,
}

-- `struct cache_entry`, with the address that `malloc` gave it and that of its data.
pub record CacheEntry : Type 0 where
  pub address : ℕ
  pub key : Bytes
  pub data_at : Option ℕ
  pub ts : ℕ

-- The macros of uthash; `hash_iter` lists the entries in the order of `HASH_ITER`.
pub record HashLibrary : Type 1 where
  pub Table : Type 0
  pub hash_none : Table
  pub hash_find : Table → Bytes → Option CacheEntry
  pub hash_del : Table → CacheEntry → Table
  pub hash_add_keyptr : Table → CacheEntry → Table
  pub hash_count : Table → ℕ
  pub hash_iter : Table → List CacheEntry

-- What a call frees: the data by the callback of the cache or by `ss_free`, and the entry itself.
pub data Freed : Type 0 where
  by_callback : Bytes → ℕ → Freed
  by_ss_free : ℕ → Freed
  entry_freed : ℕ → Freed

abbrev pub einval : ℕ
einval = 22

abbrev pub enomem : ℕ
enomem = 12

module _ (H : HashLibrary) where
  open H use {Table, hash_none, hash_find, hash_del, hash_add_keyptr, hash_count, hash_iter}

  -- `struct cache`; `free_cb` says that a callback was given.
  pub record Cache : Type 0 where
    pub max_entries : ℕ
    pub entries : Table
    pub free_cb : Bool

  -- A call's code, the cache behind it and what it freed.
  pub record Outcome : Type 0 where
    pub code : ℕ
    pub cache_left : Option Cache
    pub freed : List Freed

  -- The freeing of an entry, the same in every operation.
  unfoldable pub dispose : Bool → CacheEntry → List Freed
  dispose free_cb entry = elim entry.data_at [
    | none ↦ entry_freed entry.address ∷ []
    | some d ↦
        (if free_cb then by_callback entry.key d else by_ss_free d) ∷ entry_freed entry.address ∷ []
  ]

  -- `has_dst` says that `dst` is not NULL; `malloc` gave no memory where `allocated` is false.
  unfoldable pub cache_create : Bool → Bool → ℕ → Bool → Outcome
  cache_create false allocated capacity free_cb = record {
    code = einval;
    cache_left = none;
    freed = [];
  }
  cache_create true allocated capacity free_cb =
      if allocated
      then record {
        code = 0;
        cache_left =
            some (record { max_entries = capacity; entries = hash_none; free_cb = free_cb });
        freed = [];
      }
      else record { code = enomem; cache_left = none; freed = [] }

  unfoldable pub delete_loop : Bool → List CacheEntry → List Freed
  delete_loop free_cb [] = []
  delete_loop free_cb (entry ∷ rest) = dispose free_cb entry ++ delete_loop free_cb rest

  unfoldable pub cache_delete : Option Cache → Bool → Outcome
  cache_delete none keep_data = record { code = einval; cache_left = none; freed = [] }
  cache_delete (some cache) keep_data = record {
    code = 0;
    cache_left = none;
    freed = if keep_data then [] else delete_loop cache.free_cb (hash_iter cache.entries);
  }

  -- `HASH_ITER` in `cache_clear`: the entries that are left to visit, the table and what was freed.
  unfoldable pub clear_loop : Bool → ℕ → ℕ → List CacheEntry → Table → Table × List Freed
  clear_loop free_cb now age [] table = (table, [])
  clear_loop free_cb now age (entry ∷ rest) table = elim (ltb age (now - entry.ts)) [
    | true ↦
        let (left, freed) = clear_loop free_cb now age rest (hash_del table entry) in
        (left, dispose free_cb entry ++ freed)
    | false ↦ clear_loop free_cb now age rest table
  ]

  unfoldable pub cache_clear : Option Cache → ℕ → ℕ → Outcome
  cache_clear none now age = record { code = einval; cache_left = none; freed = [] }
  cache_clear (some cache) now age =
      let (left, freed) =
        clear_loop cache.free_cb now age (hash_iter cache.entries) cache.entries in
      record { code = 0; cache_left = some (record cache { entries = left }); freed = freed }

  unfoldable pub cache_remove : Option Cache → Option Bytes → Outcome
  cache_remove none key = record { code = einval; cache_left = none; freed = [] }
  cache_remove (some cache) none = record { code = einval; cache_left = some cache; freed = [] }
  cache_remove (some cache) (some key) = elim (hash_find cache.entries key) [
    | none ↦ record { code = 0; cache_left = some cache; freed = [] }
    | some tmp ↦ record {
      code = 0;
      cache_left = some (record cache { entries = hash_del cache.entries tmp });
      freed = dispose cache.free_cb tmp;
    }
  ]

  -- The entry, taken out and put back as the newest with the time of now.
  unfoldable pub touch : Cache → CacheEntry → ℕ → Cache
  touch cache tmp now = record cache {
    entries = hash_add_keyptr (hash_del cache.entries tmp) (record tmp { ts = now });
  }

  -- The code, the cache, and what `*result` is set to: `none` where it is not set, and NULL
  -- (`some none`) where the key is not there. `has_result` says that `result` is not NULL.
  unfoldable pub cache_lookup :
      Option Cache → Option Bytes → Bool → ℕ → (Outcome × Option (Option ℕ))
  cache_lookup none key has_result now =
      (record { code = einval; cache_left = none; freed = [] }, none)
  cache_lookup (some cache) none has_result now =
      (record { code = einval; cache_left = some cache; freed = [] }, none)
  cache_lookup (some cache) (some key) false now =
      (record { code = einval; cache_left = some cache; freed = [] }, none)
  cache_lookup (some cache) (some key) true now = elim (hash_find cache.entries key) [
    | none ↦ (record { code = 0; cache_left = some cache; freed = [] }, some none)
    | some tmp ↦
        (record { code = 0; cache_left = some (touch cache tmp now); freed = [] }, some tmp.data_at)
  ]

  unfoldable pub cache_key_exist : Option Cache → Option Bytes → ℕ → Option Cache × Bool
  cache_key_exist none key now = (none, false)
  cache_key_exist (some cache) none now = (some cache, false)
  cache_key_exist (some cache) (some key) now = elim (hash_find cache.entries key) [
    | none ↦ (some cache, false)
    | some tmp ↦ (some (touch cache tmp now), true)
  ]

  -- The end of `cache_insert`: the oldest entry goes when the table has reached its size.
  unfoldable pub evict : Cache → Outcome
  evict cache =
      if leb cache.max_entries (hash_count cache.entries)
      then elim (hash_iter cache.entries) [
        | [] ↦ record { code = 0; cache_left = some cache; freed = [] }
        | entry ∷ rest ↦ record {
          code = 0;
          cache_left = some (record cache { entries = hash_del cache.entries entry });
          freed = dispose cache.free_cb entry;
        }
      ]
      else record { code = 0; cache_left = some cache; freed = [] }

  -- `address` is what `malloc` gives for the entry.
  unfoldable pub cache_insert : Option Cache → Option ℕ → Bytes → Option ℕ → ℕ → Outcome
  cache_insert none address key data_at now = record {
    code = einval;
    cache_left = none;
    freed = [];
  }
  cache_insert (some cache) none key data_at now = record {
    code = enomem;
    cache_left = some cache;
    freed = [];
  }
  cache_insert (some cache) (some address) key data_at now =
      let entry : CacheEntry = record {
        address = address;
        key = key;
        data_at = data_at;
        ts = now;
      } in
      evict (record cache { entries = hash_add_keyptr cache.entries entry })
