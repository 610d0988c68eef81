-- ===== src/Tests/OnCache.antt =====
-- Runs of cache.c on a small table.
use outline_multiport_server.Base.{
  ◌≡◌, refl, not, true, none, some, [], ◌∷◌, ◌++◌, codes, str_eq, select, arith,
}
use outline_multiport_server.Cache.{
  CacheEntry, Cache, cache_lookup, cache_clear, touch, delete_loop,
}
use outline_multiport_server.Cache.Order.{IsDistinct, without, is_old, cache_lookup-newest}
use outline_multiport_server.Cache.Clear.{cache_clear-select}
use outline_multiport_server.Tests.Libraries.{list_table, list_table-HashLaws}

abbrev one : CacheEntry
one = record { address = 1; key = codes "a"; data_at = some 11; ts = 10 }

abbrev two : CacheEntry
two = record { address = 2; key = codes "b"; data_at = none; ts = 20 }

abbrev three : CacheEntry
three = record { address = 3; key = codes "c"; data_at = some 13; ts = 30 }

abbrev small : Cache list_table
small = record { max_entries = 3; entries = one ∷ two ∷ []; free_cb = true }

small-IsDistinct : IsDistinct (one ∷ two ∷ [])
small-IsDistinct = (((λ h. absurd (omega arith)), tt), (tt, tt))

cache_lookup-newest_example :
    ((cache_lookup list_table (some small) (some (codes "a")) true 40).1 ≡ some (some 11))
    × ((cache_lookup list_table (some small) (some (codes "a")) true 40).0.cache_left
        ≡ some (touch list_table small one 40))
    × ((touch list_table small one 40).entries
        ≡ without 1 (one ∷ two ∷ []) ++ (record one { ts = 40 } ∷ []))
unfolding str_eq
cache_lookup-newest_example =
    cache_lookup-newest list_table list_table-HashLaws small (codes "a") one 40 refl

cache_clear-select_example :
    (c' : Cache list_table) × ((cache_clear list_table (some small) 25 10).cache_left ≡ some c')
    × (c'.entries ≡ select (λ e. not (is_old 25 10 e)) (one ∷ two ∷ []))
    × ((cache_clear list_table (some small) 25 10).freed
        ≡ delete_loop list_table true (select (is_old 25 10) (one ∷ two ∷ [])))
cache_clear-select_example =
    cache_clear-select list_table list_table-HashLaws small 25 10 small-IsDistinct
