-- ===== src/Cache/Clear.antt =====
-- `cache_clear` of cache.c, which drops what is too old.
use outline_multiport_server.Base.{
  ℕ, ◌≡◌, ◌≢◌, refl, sym, ap, subst, ◌∙◌, inl, inr, Bool, not, some, List, [], ◌∷◌, ◌++◌,
  append_assoc, select, arith, ◌==◌, Bool-cases, select-true, select-false,
}
use outline_multiport_server.Cache.{
  CacheEntry, HashLibrary, Cache, dispose, delete_loop, clear_loop, cache_clear,
}
use outline_multiport_server.Cache.Order.{
  HashLaws, IsDistinct, IsDistinct-select, IsFresh, without, without_fresh, is_old,
}

fresh_middle :
    (a : ℕ) (kept : List CacheEntry) (e : CacheEntry) (rest : List CacheEntry)
    → IsFresh a (kept ++ (e ∷ rest))
    → a ≢ e.address
fresh_middle a [] e rest (h, hs) = h
fresh_middle a (x ∷ kept) e rest (h, hs) = fresh_middle a kept e rest hs

without_middle :
    (kept : List CacheEntry) (e : CacheEntry) (rest : List CacheEntry)
    → IsDistinct (kept ++ (e ∷ rest))
    → without e.address (kept ++ (e ∷ rest)) ≡ kept ++ rest
without_middle [] e rest (fresh, others) =
    select-false (λ x. not (x.address == e.address)) e rest (ground arith)
    ∙ without_fresh e.address rest fresh
without_middle (x ∷ kept) e rest (fresh, others) =
    let other = fresh_middle x.address kept e rest fresh in
    select-true (λ y. not (y.address == e.address)) x (kept ++ (e ∷ rest)) (ground (arith, other))
    ∙ ap (◌∷◌ x) (without_middle kept e rest others)

module _ (H : HashLibrary) (laws : HashLaws H) where
  clear_loop-select :
      (free_cb : Bool) (now age : ℕ) (kept rest : List CacheEntry) (t : H.Table)
      → H.hash_iter t ≡ kept ++ rest
      → IsDistinct (kept ++ rest)
      → let (left, freed) = clear_loop H free_cb now age rest t in
        (H.hash_iter left ≡ kept ++ select (λ e. not (is_old now age e)) rest)
        × (freed ≡ delete_loop H free_cb (select (is_old now age) rest))
  unfolding clear_loop delete_loop
  clear_loop-select free_cb now age kept [] t items distinct = (items, refl)
  clear_loop-select free_cb now age kept (e ∷ rest) t items distinct =
      elim (Bool-cases (is_old now age e)) [
        | inl old ↦
            let middle = without_middle kept e rest distinct in
            let (left, freed) =
              clear_loop-select free_cb now age kept rest (H.hash_del t e)
                (laws.iter-del t e ∙ ap (without e.address) items ∙ middle)
                (subst IsDistinct middle (
                  IsDistinct-select (λ x. not (x.address == e.address)) (kept ++ (e ∷ rest))
                    distinct)) in
            rw (old, clear_loop, select) (left, ap (λ f. dispose H free_cb e ++ f) freed)
        | inr young ↦
            let (left, freed) =
              clear_loop-select free_cb now age (kept ++ (e ∷ [])) rest t
                (items ∙ sym (append_assoc kept (e ∷ []) rest))
                (subst IsDistinct (sym (append_assoc kept (e ∷ []) rest)) distinct) in
            rw (young, clear_loop, select) (left ∙ append_assoc kept (e ∷ []) _, freed)
      ]

  -- With a table that keeps the laws of uthash: from a cache with distinct addresses `cache_clear`
  -- frees exactly the entries that are older than the age, in their order, and leaves the others in
  -- theirs.
  pub cache_clear-select :
      (c : Cache H) (now age : ℕ)
      → IsDistinct (H.hash_iter c.entries)
      → let r = cache_clear H (some c) now age in
        (c' : Cache H) × (r.cache_left ≡ some c')
        × (H.hash_iter c'.entries ≡ select (λ e. not (is_old now age e)) (H.hash_iter c.entries))
        × (r.freed ≡ delete_loop H c.free_cb (select (is_old now age) (H.hash_iter c.entries)))
  unfolding cache_clear
  cache_clear-select c now age distinct =
      let (left, freed) =
        clear_loop-select c.free_cb now age [] (H.hash_iter c.entries) c.entries refl distinct in
      (_, refl, left, freed)
