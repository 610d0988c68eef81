-- ===== src/IpLock/Distinct.antt =====
-- The recent lists of ip_lock.c while no address stands in them twice.
use outline_multiport_server.Base.{
  ℕ, zero, suc, ◌≤◌, ◌≡◌, ◌≢◌, refl, ap, ◌∙◌, subst, inl, inr, not, false, Bool-cases, List, [],
  ◌∷◌, Bytes, str_eq, str_eq→eq, str_eq_refl, is_empty, select, length, take, All, arith,
}
use outline_multiport_server.IpLock.{RecentEntry, Recents, is_fresh, ip_lock_push_recent, ip_len}
use outline_multiport_server.IpLock.Recent.{entries, IsRecents}
use outline_multiport_server.IpLock.Push.{remove_ip, push_recent-removed}

-- No entry has the address.
abbrev Absent : Bytes → List RecentEntry → Type 0
Absent ip = All (λ e. e.ip ≢ ip)

-- No two entries have the same address.
abbrev pub Distinct : List RecentEntry → Type 0
Distinct [] = Unit
Distinct (e ∷ es) = Absent e.ip es × Distinct es

Absent-select :
    (ip : Bytes) (now : ℕ) (es : List RecentEntry)
    → Absent ip es
    → Absent ip (select (is_fresh now) es)
Absent-select ip now [] h = tt
Absent-select ip now (e ∷ es) h = ground (arith, Absent-select ip now es h.1)

Distinct-select :
    (now : ℕ) (es : List RecentEntry) → Distinct es → Distinct (select (is_fresh now) es)
Distinct-select now [] h = tt
Distinct-select now (e ∷ es) h =
    ground (arith, Absent-select e.ip now es h.0, Distinct-select now es h.1)

Absent-take : (ip : Bytes) (n : ℕ) (es : List RecentEntry) → Absent ip es → Absent ip (take n es)
Absent-take ip zero es h = tt
Absent-take ip (suc n) [] h = tt
Absent-take ip (suc n) (e ∷ es) h = (h.0, Absent-take ip n es h.1)

Distinct-take : (n : ℕ) (es : List RecentEntry) → Distinct es → Distinct (take n es)
Distinct-take zero es h = tt
Distinct-take (suc n) [] h = tt
Distinct-take (suc n) (e ∷ es) h = (Absent-take e.ip n es h.0, Distinct-take n es h.1)

Absent-remove_ip : (ip x : Bytes) (es : List RecentEntry) → Absent x es → Absent x (remove_ip ip es)
unfolding remove_ip
Absent-remove_ip ip x [] h = tt
Absent-remove_ip ip x (e ∷ es) h = ground (arith, Absent-remove_ip ip x es h.1)

Distinct-remove_ip :
    (ip : Bytes) (es : List RecentEntry)
    → Distinct es
    → Absent ip (remove_ip ip es) × Distinct (remove_ip ip es)
unfolding remove_ip
Distinct-remove_ip ip [] h = (tt, tt)
Distinct-remove_ip ip (e ∷ es) h = elim (Bool-cases (str_eq e.ip ip)) [
  | inl same ↦ let p : e.ip ≡ ip = str_eq→eq _ _ same in rw (same, remove_ip) (rw p at h)
  | inr other ↦
      let ne : e.ip ≢ ip = λ p. absurd (cc (str_eq_refl ip, p, other)) in
      let (absent, distinct) = Distinct-remove_ip ip es h.1 in
      rw (other, remove_ip) ((ne, absent), (Absent-remove_ip ip e.ip es h.0, distinct))
]

-- On a well-formed array whose addresses in use are distinct, they are distinct after a push of an
-- address of at most 45 bytes.
pub push_recent-Distinct :
    (r : Recents) (ip : Bytes) (now : ℕ)
    → IsRecents r
    → length ip ≤ ip_len
    → Distinct (entries r)
    → Distinct (entries (ip_lock_push_recent r ip now))
push_recent-Distinct r ip now h fits d = elim (Bool-cases (is_empty ip)) [
  | inl e ↦ unfold ip_lock_push_recent in rw e d
  | inr e ↦
      let (absent, distinct) =
        Distinct-remove_ip ip (select (is_fresh now) (entries r)) (Distinct-select now _ d) in
      rw ((push_recent-removed r ip now h fits e).1)
        (Absent-take ip 7 _ absent, Distinct-take 7 _ distinct)
]

-- The entries with another address.
abbrev pub without_ip : Bytes → List RecentEntry → List RecentEntry
without_ip ip = select (λ e. not (str_eq e.ip ip))

without_ip-Absent : (ip : Bytes) (es : List RecentEntry) → Absent ip es → without_ip ip es ≡ es
without_ip-Absent ip [] h = refl
without_ip-Absent ip (e ∷ es) (ne, h) = elim (Bool-cases (str_eq e.ip ip)) [
  | inl same ↦ absurd (ne (str_eq→eq _ _ same))
  | inr other ↦ let ih = without_ip-Absent ip es h in ground (arith, ih, other)
]

remove_ip-without_ip :
    (ip : Bytes) (es : List RecentEntry) → Distinct es → remove_ip ip es ≡ without_ip ip es
unfolding remove_ip
remove_ip-without_ip ip [] h = refl
remove_ip-without_ip ip (e ∷ es) (absent, h) = elim (Bool-cases (str_eq e.ip ip)) [
  | inl same ↦
      let p : e.ip ≡ ip = str_eq→eq _ _ same in
      let kept = without_ip-Absent ip es (subst (λ x. Absent x es) p absent) in
      ground (arith, kept, same)
  | inr other ↦ let ih = remove_ip-without_ip ip es h in ground (arith, ih, other)
]

-- Pushing an address of at most 45 bytes, not empty, onto a well-formed array whose addresses in use
-- are distinct leaves a well-formed array with distinct addresses. Its entries are the address, seen
-- now, and behind it the first seven of the fresh entries that have another address, in their old
-- order.
pub push_recent-entries :
    (r : Recents) (ip : Bytes) (now : ℕ)
    → IsRecents r
    → Distinct (entries r)
    → length ip ≤ ip_len
    → is_empty ip ≡ false
    → IsRecents (ip_lock_push_recent r ip now)
      × Distinct (entries (ip_lock_push_recent r ip now))
      × (entries (ip_lock_push_recent r ip now)
          ≡ record { ip = ip; seen_at = now }
            ∷ take 7 (without_ip ip (select (is_fresh now) (entries r))))
push_recent-entries r ip now h d fits some_ip =
    let (valid, listed) = push_recent-removed r ip now h fits some_ip in
    let same = remove_ip-without_ip ip _ (Distinct-select now (entries r) d) in
    (
      valid,
      push_recent-Distinct r ip now h fits d,
      listed ∙ ap (λ es. record { ip = ip; seen_at = now } ∷ take 7 es) same,
    )
