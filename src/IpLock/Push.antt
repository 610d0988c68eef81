-- ===== src/IpLock/Push.antt =====
-- Pushing an address onto the recent lists of ip_lock.c.
use outline_multiport_server.Base.{
  ℕ, zero, suc, ◌+◌, ◌-◌, ◌≤◌, ◌<◌, ◌≡◌, refl, sym, ap, ◌∙◌, inl, inr, true, false, some, none,
  Option-cases, Bool-cases, List, [], ◌∷◌, Bytes, str_eq, str_eq→eq, is_empty, select, length, take,
  drop, get_or, set, length-append, length-set, length-take, length-drop, take_of_length-le,
  take_append_length, drop-suc, drop-set_lt, take-set_le, take-take_le, erase_idx, take-erase_idx,
  arith, ltb, ltb→lt, ◌==◌, if◌then◌else◌,
}
use outline_multiport_server.IpLock.{
  RecentEntry, Recents, blank, is_fresh, ip_lock_prune_recent, find_recent, move_up, push_pruned,
  ip_lock_push_recent, ip_len,
}
use outline_multiport_server.IpLock.Recent.{entries, IsRecents, prune_recent-select}

-- The list without the first entry that has the address.
unfoldable pub remove_ip : Bytes → List RecentEntry → List RecentEntry
remove_ip ip [] = []
remove_ip ip (e ∷ es) = elim (str_eq e.ip ip) [ true ↦ es | false ↦ e ∷ remove_ip ip es ]

find_recent-none :
    (n i : ℕ) (store : List RecentEntry) (ip : Bytes)
    → i + n ≤ length store
    → find_recent n i store ip ≡ none
    → remove_ip ip (take n (drop i store)) ≡ take n (drop i store)
unfolding find_recent remove_ip
find_recent-none zero i store ip fits h = refl
find_recent-none (suc n) i store ip fits h =
    ground (arith, drop-suc i store blank (omega arith), find_recent-none n (suc i) store ip)

find_recent-some :
    (n i j : ℕ) (store : List RecentEntry) (ip : Bytes)
    → i + n ≤ length store
    → find_recent n i store ip ≡ some j
    → (i ≤ j)
      × (j < i + n)
      × ((get_or store j blank).ip ≡ ip)
      × (remove_ip ip (take n (drop i store)) ≡ erase_idx (j - i) (take n (drop i store)))
unfolding find_recent remove_ip
find_recent-some zero i j store ip fits h = absurd (cc)
find_recent-some (suc n) i j store ip fits h =
    elim (Bool-cases (str_eq (get_or store i blank).ip ip)) [
      | inl e ↦
          let same : i ≡ j = ground arith in
          let k : j - i ≡ 0 = omega arith in
          (
            omega arith,
            omega arith,
            rw (← same) (str_eq→eq _ _ e),
            rw (k, drop-suc i store blank (omega arith)) (ground arith),
          )
      | inr e ↦
          let (lo, hi, same, rest) =
            find_recent-some n (suc i) j store ip (omega arith) (ground arith) in
          let k : j - i ≡ suc (j - suc i) = omega arith in
          (
            omega arith,
            omega arith,
            same,
            rw (k, drop-suc i store blank (omega arith)) (ground (arith, rest)),
          )
    ]

-- The array after `memmove` and the write of its first entry.
set-move_up :
    (n : ℕ) (store : List RecentEntry) (e : RecentEntry)
    → 0 < length store
    → set (move_up n store) 0 e ≡ e ∷ erase_idx n store
unfolding move_up
set-move_up n [] e h = elim h [ ]
set-move_up n (x ∷ store) e h = refl

length-erase_idx :
    (i : ℕ) (store : List RecentEntry)
    → i < length store
    → suc (length (erase_idx i store)) ≡ length store
length-erase_idx i store h = omega (
  arith,
  length-append (take i store) (drop (suc i) store),
  length-take i store,
  length-drop (suc i) store,
)

-- The array of the branch that finds the address at the index `i`.
moved :
    (i : ℕ) (store : List RecentEntry) (e : RecentEntry)
    → i < length store
    → (if i == 0 then set store i e else set (move_up i (set store i e)) 0 e)
      ≡ e ∷ erase_idx i store
moved zero [] e h = elim h [ ]
moved zero (x ∷ store) e h = refl
moved (suc i) store e h =
    rw (set-move_up (suc i) (set store (suc i) e) e (omega (arith, length-set store (suc i) e))) (
      ground
        (arith, take-set_le (suc i) (suc i) store e, drop-set_lt (suc (suc i)) (suc i) store e))

-- The entries of an array that begins with `e` and has the entry at `i` moved away.
entries_moved :
    (m i : ℕ) (store : List RecentEntry) (e : RecentEntry)
    → i ≤ m
    → m < 8
    → m < length store
    → take (suc m) (e ∷ erase_idx i store) ≡ e ∷ take 7 (erase_idx i (take (suc m) store))
entries_moved m i store e h lt fits = ap (◌∷◌ e) (
    take-erase_idx i m store h
    ∙ sym (
        take_of_length-le 7 (erase_idx i (take (suc m) store))
          (omega (arith, length-erase_idx i (take (suc m) store), length-take (suc m) store))))

push_found :
    (r : Recents) (ip : Bytes) (now i : ℕ)
    → IsRecents r
    → find_recent r.count 0 r.store ip ≡ some i
    → IsRecents (push_pruned r ip now)
      × (entries (push_pruned r ip now)
          ≡ record { ip = ip; seen_at = now } ∷ take 7 (remove_ip ip (entries r)))
unfolding push_pruned
push_found r ip now i h found =
    let (lo, hi, same, removed) = find_recent-some r.count 0 i r.store ip (omega arith) found in
    let e : RecentEntry = record { ip = ip; seen_at = now } in
    let m = r.count - 1 in
    let k : r.count ≡ suc m = omega arith in
    let k' : i - 0 ≡ i = omega arith in
    rw (found, push_pruned)
      (rw (same, moved i r.store e (omega arith))
        (
          record { store_len = omega (arith, length-erase_idx i r.store); count_le = h.count_le },
          rw (removed, k', k)
              (entries_moved m i r.store e (omega arith) (omega arith) (omega arith)),
        ))

-- The array of the branch that adds an entry, `suc m` being the new count.
grown :
    (m : ℕ) (store : List RecentEntry) (e : RecentEntry)
    → m < 8
    → length store ≡ 8
    → IsRecents (record { store = set (move_up m store) 0 e; count = suc m })
      × (take (suc m) (set (move_up m store) 0 e) ≡ e ∷ take m store)
grown m store e lt len = rw (set-move_up m store e (omega arith)) (
  record { store_len = omega (arith, length-erase_idx m store); count_le = omega arith },
  ap (◌∷◌ e) (
      take_append_length m (take m store) (drop (suc m) store)
        (omega (arith, length-take m store))),
)

push_absent :
    (r : Recents) (ip : Bytes) (now : ℕ)
    → IsRecents r
    → length ip ≤ ip_len
    → find_recent r.count 0 r.store ip ≡ none
    → IsRecents (push_pruned r ip now)
      × (entries (push_pruned r ip now)
          ≡ record { ip = ip; seen_at = now } ∷ take 7 (remove_ip ip (entries r)))
unfolding push_pruned
push_absent r ip now h fits absent =
    let e : RecentEntry = record { ip = ip; seen_at = now } in
    rw (absent, push_pruned)
      (rw (take_of_length-le 45 ip fits, find_recent-none r.count 0 r.store ip (omega arith) absent)
        (elim (Bool-cases (ltb r.count 8)) [
          | inl room ↦
              let lt : r.count < 8 = ltb→lt _ _ room in
              let same : take 7 (take r.count r.store) ≡ take r.count r.store =
                take_of_length-le 7 _ (omega (arith, length-take r.count r.store)) in
              let k : suc r.count - 1 ≡ r.count = omega arith in
              rw (room, same, k) (grown r.count r.store e lt h.store_len)
          | inr full ↦
              let ge : 7 ≤ r.count = ground arith in
              rw (full, take-take_le 7 r.count r.store ge)
                (grown 7 r.store e (omega arith) h.store_len)
        ]))

-- The pruned array after a push, by its list of entries.
push_pruned-entries :
    (r : Recents) (ip : Bytes) (now : ℕ)
    → IsRecents r
    → length ip ≤ ip_len
    → IsRecents (push_pruned r ip now)
      × (entries (push_pruned r ip now)
          ≡ record { ip = ip; seen_at = now } ∷ take 7 (remove_ip ip (entries r)))
push_pruned-entries r ip now h fits = elim (Option-cases (find_recent r.count 0 r.store ip)) [
  | inl e ↦ push_absent r ip now h fits e
  | inr (i, e) ↦ push_found r ip now i h e
]

pub push_recent-removed :
    (r : Recents) (ip : Bytes) (now : ℕ)
    → IsRecents r
    → length ip ≤ ip_len
    → is_empty ip ≡ false
    → IsRecents (ip_lock_push_recent r ip now)
      × (entries (ip_lock_push_recent r ip now)
          ≡ record { ip = ip; seen_at = now }
            ∷ take 7 (remove_ip ip (select (is_fresh now) (entries r))))
unfolding ip_lock_push_recent
push_recent-removed r ip now h fits some_ip =
    let (valid, pruned) = prune_recent-select r now h in
    rw (some_ip, ← pruned) (push_pruned-entries (ip_lock_prune_recent r now) ip now valid fits)
