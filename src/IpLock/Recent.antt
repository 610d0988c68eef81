-- ===== src/IpLock/Recent.antt =====
-- The arrays of recent addresses of ip_lock.c as short lists: pruning in place keeps the fresh
-- entries in order, and pushing moves an address to the front of at most eight.
use mathlib.Core.List.{append-nil, append_assoc}
use outline_multiport_server.Base.{
  ℕ, zero, suc, ◌+◌, ◌≤◌, ◌<◌, ◌≡◌, sym, inl, inr, Bool-cases, List, [], ◌∷◌, ◌++◌, select, length,
  take, drop, get_or, set, length-set, take-suc, drop-suc, drop-set_lt, take-set_self, arith, ◌==◌,
  if◌then◌else◌,
}
use outline_multiport_server.IpLock.{
  RecentEntry, Recents, blank, is_fresh, prune_loop, ip_lock_prune_recent,
}

-- The entries in use.
abbrev pub entries : Recents → List RecentEntry
entries r = take r.count r.store

-- The array has its fixed length, and the count stays inside it.
pub record IsRecents (r : Recents) : Type 0 where
  pub store_len : length r.store ≡ 8
  pub count_le : r.count ≤ 8

prune_loop-length :
    (now n i w : ℕ) (store : List RecentEntry)
    → (length (prune_loop now n i w store).store ≡ length store)
      × ((prune_loop now n i w store).count ≤ w + n)
unfolding prune_loop
prune_loop-length now zero i w store = omega arith
prune_loop-length now (suc n) i w store = ground (
  arith,
  prune_loop-length now n (suc i) (suc w) store,
  prune_loop-length now n (suc i) (suc w) (set store w (get_or store i blank)),
  length-set store w (get_or store i blank),
  prune_loop-length now n (suc i) w store,
)

-- One round that keeps the entry at `i`: it is appended to those kept before.
kept_prefix :
    (i w : ℕ) (store : List RecentEntry)
    → w ≤ i
    → i < length store
    → take (suc w) (if w == i then store else set store w (get_or store i blank))
      ≡ take w store ++ (get_or store i blank ∷ [])
kept_prefix i w store h lt = elim (Bool-cases (w == i)) [
  | inl e ↦ rw e (let p : w ≡ i = ground arith in rw p (take-suc i store blank lt))
  | inr e ↦ rw e (take-set_self w store (get_or store i blank) (omega arith))
]

kept_suffix :
    (i w : ℕ) (store : List RecentEntry)
    → w ≤ i
    → drop (suc i) (if w == i then store else set store w (get_or store i blank))
      ≡ drop (suc i) store
kept_suffix i w store h = elim (Bool-cases (w == i)) [
  | inl e ↦ rw e
  | inr e ↦ rw e (drop-set_lt (suc i) w store (get_or store i blank) (omega arith))
]

kept_length :
    (i w : ℕ) (store : List RecentEntry)
    → length (if w == i then store else set store w (get_or store i blank)) ≡ length store
kept_length i w store = elim (Bool-cases (w == i)) [
  | inl e ↦ rw e
  | inr e ↦ rw e (length-set store w (get_or store i blank))
]

prune_loop-select :
    (now n i w : ℕ) (store : List RecentEntry)
    → w ≤ i
    → i + n ≤ length store
    → entries (prune_loop now n i w store)
      ≡ take w store ++ select (is_fresh now) (take n (drop i store))
unfolding prune_loop
prune_loop-select now zero i w store h fits = sym (append-nil (take w store))
prune_loop-select now (suc n) i w store h fits =
    elim (Bool-cases (is_fresh now (get_or store i blank))) [
      | inl e ↦ ground (
        arith,
        drop-suc i store blank (omega arith),
        kept_prefix i w store h (omega arith),
        kept_suffix i w store h,
        kept_length i w store,
        append_assoc (take w store) (get_or store i blank ∷ [])
            (select (is_fresh now) (take n (drop (suc i) store))),
        prune_loop-select now n (suc i) (suc w)
            (if w == i then store else set store w (get_or store i blank)),
      )
      | inr e ↦
          ground
            (arith, drop-suc i store blank (omega arith), prune_loop-select now n (suc i) w store)
    ]

-- On a well-formed array, pruning leaves a well-formed array, whose entries are exactly those that
-- were seen at most 30 seconds before `now`, in their old order.
pub prune_recent-select :
    (r : Recents) (now : ℕ)
    → IsRecents r
    → IsRecents (ip_lock_prune_recent r now)
      × (entries (ip_lock_prune_recent r now) ≡ select (is_fresh now) (entries r))
unfolding ip_lock_prune_recent
prune_recent-select r now h =
    let (len, bound) = prune_loop-length now r.count 0 0 r.store in
    (
      record { store_len = omega arith; count_le = omega (arith, h.count_le) },
      prune_loop-select now r.count 0 0 r.store (omega arith) (omega arith),
    )
