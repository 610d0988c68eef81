-- ===== src/Server/Exclusive.antt =====
-- The promise of the client lock in server.c: one client address at a time.
use outline_multiport_server.Base.{
  ℕ, ◌≡◌, refl, sym, ◌⊎◌, inl, inr, Bool, true, false, not, Option, some, none, Bool-cases, if_true,
  List, [], ◌∷◌, ◌++◌, Bytes, All, is_empty, str_eq, str_eq→eq, str_eq_refl, strncpy,
  take_of_length-le, arith, ltb, ◌==◌,
}
use outline_multiport_server.IpLock.{
  IpLock, FileSystem, ip_len, ip_lock_reload, ip_lock_set, ip_lock_record_incoming,
  ip_lock_record_blocked,
}
use outline_multiport_server.IpLock.Sync.{
  FileLaws, IsWritable, IsSynced, reload-IsSynced, set-IsSynced, write_status-IsSynced,
  record_incoming-IsSynced, record_blocked-IsSynced,
}
use outline_multiport_server.Server.{
  Connection, count_from, count_connections_for_ip, Server, update_ip_lock_status, check_reloaded,
  check_ip_lock_allowed, admit, accept_cb, remove_connection, close_and_free_server,
}

-- A connection with no name, or from the address.
abbrev pub IsHeldBy : Bytes → Connection → Type 0
IsHeldBy ip c = (is_empty c.peer_ip ≡ true) ⊎ (c.peer_ip ≡ ip)

-- Every named connection comes from the address that holds the lock, and the lock is in step with
-- its file.
pub record IsExclusive (F : FileSystem) (path : Bytes) (s : Server F) : Type 0 where
  pub synced : IsSynced F path s.lock s.disk
  pub held : All (IsHeldBy s.lock.locked_ip) s.connections

-- With no connection from the holder every connection is without a name.
is_empty→nil : (s : Bytes) → is_empty s ≡ true → s ≡ []
is_empty→nil [] h = refl
is_empty→nil (c ∷ s) h = cc

unheld :
    (ip ip' : Bytes) (cs : List Connection)
    → count_from ip cs ≡ 0
    → All (IsHeldBy ip) cs
    → All (IsHeldBy ip') cs
unfolding count_from
unheld ip ip' [] n h = tt
unheld ip ip' (c ∷ cs) n (inl e, hs) = (inl e, unheld ip ip' cs (ground arith) hs)
unheld ip ip' (c ∷ cs) n (inr e, hs) = elim (Bool-cases (is_empty c.peer_ip)) [
  | inl z ↦ (inl z, unheld ip ip' cs (ground arith) hs)
  | inr z ↦ absurd (ground (arith, str_eq_refl ip, e, z))
]

-- Nobody but unnamed clients holds a connection while the lock is free.
held_free : (ip : Bytes) (cs : List Connection) → All (IsHeldBy []) cs → All (IsHeldBy ip) cs
held_free ip [] h = tt
held_free ip (c ∷ cs) (inl e, hs) = (inl e, held_free ip cs hs)
held_free ip (c ∷ cs) (inr e, hs) = (inl (rw e), held_free ip cs hs)

held-append :
    (ip : Bytes) (cs : List Connection) (c : Connection)
    → All (IsHeldBy ip) cs
    → IsHeldBy ip c
    → All (IsHeldBy ip) (cs ++ (c ∷ []))
held-append ip [] c h k = (k, tt)
held-append ip (d ∷ cs) c h k = (h.0, held-append ip cs c h.1 k)

held-remove :
    (ip : Bytes) (fd : ℕ) (cs : List Connection)
    → All (IsHeldBy ip) cs
    → All (IsHeldBy ip) (remove_connection fd cs)
unfolding remove_connection
held-remove ip fd [] h = tt
held-remove ip fd (c ∷ cs) h = elim (Bool-cases (c.fd == fd)) [
  | inl e ↦ rw e h.1
  | inr e ↦ rw e (h.0, held-remove ip fd cs h.1)
]

module _ (F : FileSystem) (path : Bytes) (laws : FileLaws F) where
  update-IsExclusive :
      (s : Server F) (now : ℕ)
      → IsExclusive F path s
      → IsExclusive F path (update_ip_lock_status F s now)
  unfolding update_ip_lock_status
  update-IsExclusive s now h =
      let (synced, same) = write_status-IsSynced F path laws s.lock _ _ now s.disk h.synced in
      record { synced = synced; held = rw same h.held }

  -- Closing a connection keeps the lock exclusive.
  pub close-IsExclusive :
      (s : Server F) (fd now : ℕ)
      → IsExclusive F path s
      → IsExclusive F path (close_and_free_server F s fd now)
  unfolding close_and_free_server
  close-IsExclusive s fd now h =
      update-IsExclusive _ now
        (record { synced = h.synced; held = held-remove s.lock.locked_ip fd s.connections h.held })

  module _ (writable : IsWritable F path) where
    -- What the check of a named peer leaves: an allowed peer holds the lock.
    record IsChecked (connections : List Connection) (peer : Bytes) (r : (IpLock × F.Disk) × Bool)
        : Type 0 where
      synced : IsSynced F path r.0.0 r.0.1
      held : All (IsHeldBy r.0.0.locked_ip) connections
      holder : r.1 ≡ true → strncpy peer ip_len ≡ r.0.0.locked_ip

    -- The lock passes to the peer, where nobody else holds a named connection.
    set-IsChecked :
        (l : IpLock) (d : F.Disk) (cs : List Connection) (peer : Bytes)
        → IsSynced F path l d
        → is_empty peer ≡ false
        → ((ip : Bytes) → All (IsHeldBy ip) cs)
        → IsChecked cs peer (ip_lock_set F l peer d, true)
    set-IsChecked l d cs peer h named free =
        let (synced, owner) = set-IsSynced F path laws writable l peer d h named in
        record { synced = synced; held = free _; holder = λ _. sym owner }

    check_reloaded-IsChecked :
        (l : IpLock) (d : F.Disk) (cs : List Connection) (peer : Bytes)
        → IsSynced F path l d
        → All (IsHeldBy l.locked_ip) cs
        → is_empty peer ≡ false
        → IsChecked cs peer (check_reloaded F l d cs peer)
    unfolding check_reloaded
    check_reloaded-IsChecked l d cs peer h held named = elim (Bool-cases (is_empty l.locked_ip)) [
      | inl e ↦ rw e (
          set-IsChecked l d cs peer h named
            (λ ip. held_free ip cs (rw (is_empty→nil l.locked_ip e) at held)))
      | inr e ↦ elim (Bool-cases (str_eq peer l.locked_ip)) [
        | inl f ↦
            rw (e, f)
              (record {
                synced = h;
                held = held;
                holder = λ _. rw (str_eq→eq peer _ f) (take_of_length-le 45 l.locked_ip h.short);
              })
        | inr f ↦ elim (Bool-cases (ltb 0 (count_connections_for_ip l.locked_ip cs))) [
          | inl g ↦ rw (e, f, g) (record { synced = h; held = held; holder = λ p. absurd (cc) })
          | inr g ↦
              let none_left : count_from l.locked_ip cs ≡ 0 =
                unfold count_connections_for_ip in ground arith in
              rw (e, f, g)
                (set-IsChecked l d cs peer h named (λ ip. unheld l.locked_ip ip cs none_left held))
        ]
      ]
    ]

    -- The lock check keeps the lock exclusive, and a peer that it allows has no name or holds it.
    check-IsExclusive :
        (s : Server F) (peer : Bytes)
        → IsExclusive F path s
        → IsExclusive F path (check_ip_lock_allowed F s peer).0
          × ((check_ip_lock_allowed F s peer).1 ≡ true
              → (is_empty (strncpy peer ip_len) ≡ true)
                ⊎ (strncpy peer ip_len ≡ (check_ip_lock_allowed F s peer).0.lock.locked_ip))
    unfolding check_ip_lock_allowed
    check-IsExclusive s peer h = elim (Bool-cases (is_empty peer)) [
      | inl e ↦ rw (on, e) (h, λ _. inl (rw (is_empty→nil peer e)))
      | inr e ↦
          let (synced, same) = reload-IsSynced F path s.lock s.disk h.synced in
          let c =
            check_reloaded-IsChecked (ip_lock_reload F s.lock s.disk) s.disk s.connections peer
              synced (rw same h.held) e in
          rw (on, e) (record { synced = c.synced; held = c.held }, λ p. inr (c.holder p))
    ]
      where
        on : not s.lock.ip_lock_enabled ≡ false
        on = rw h.synced.enabled

    admit-IsExclusive :
        (s : Server F) (fd : ℕ) (peer : Bytes) (now : ℕ)
        → IsExclusive F path s
        → (is_empty (strncpy peer ip_len) ≡ true) ⊎ (strncpy peer ip_len ≡ s.lock.locked_ip)
        → IsExclusive F path (admit F s fd peer now)
    unfolding admit
    admit-IsExclusive s fd peer now h owner = update-IsExclusive _ now (record {
      synced = h.synced;
      held = held-append s.lock.locked_ip s.connections _ h.held owner;
    })

    incoming-IsExclusive :
        (s : Server F) (peer : Bytes) (now : ℕ)
        → IsExclusive F path s
        → IsExclusive F path (record s { lock = ip_lock_record_incoming s.lock peer now })
          × ((ip_lock_record_incoming s.lock peer now).locked_ip ≡ s.lock.locked_ip)
    incoming-IsExclusive s peer now h =
        let (synced, same) = record_incoming-IsSynced F path s.lock peer now s.disk h.synced in
        (record { synced = synced; held = rw same h.held }, same)

    blocked-IsExclusive :
        (s : Server F) (peer : Bytes) (now : ℕ)
        → IsExclusive F path s
        → IsExclusive F path (record s { lock = ip_lock_record_blocked s.lock peer now })
    blocked-IsExclusive s peer now h =
        let (synced, same) = record_blocked-IsSynced F path s.lock peer now s.disk h.synced in
        record { synced = synced; held = rw same h.held }

    -- Where the calls on files keep their laws and writing the lock file always succeeds, accepting
    -- a client keeps the lock exclusive and its file's modification time noted, whatever the access lists say,
    -- whether or not the client has a name, and whether it is admitted or turned away.
    pub accept-IsExclusive :
        (s : Server F) (denied : Bytes → Bool) (fd : ℕ) (peer : Option Bytes) (now : ℕ)
        → IsExclusive F path s
        → IsExclusive F path (accept_cb F s denied fd peer now).0
    unfolding accept_cb
    accept-IsExclusive s denied fd none now h = admit-IsExclusive s fd [] now h (inl refl)
    accept-IsExclusive s denied fd (some peer) now h = elim (Bool-cases (denied peer)) [
      | inl d ↦ rw d h
      | inr d ↦
          let (s', allowed) = check_ip_lock_allowed F s peer in
          let (h', owner) = check-IsExclusive s peer h in
          let enabled : s'.lock.ip_lock_enabled ≡ true = h'.synced.enabled in
          elim (Bool-cases allowed) [
            | inl a ↦
                let (h'', same) = incoming-IsExclusive s' peer now h' in
                rw
                  (
                    d,
                    a,
                    if_true s'.lock.ip_lock_enabled (ip_lock_record_incoming s'.lock peer now)
                        s'.lock enabled,
                  )
                  (admit-IsExclusive _ fd peer now h'' (rw same (owner a)))
            | inr a ↦
                rw
                  (
                    d,
                    a,
                    if_true s'.lock.ip_lock_enabled
                        (update_ip_lock_status F
                          (record s' { lock = ip_lock_record_blocked s'.lock peer now }) now)
                        s' enabled,
                  )
                  (update-IsExclusive _ now (blocked-IsExclusive s' peer now h'))
          ]
    ]
