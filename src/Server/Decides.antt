-- ===== src/Server/Decides.antt =====
-- Whom `accept_cb` of server.c admits, and what a lock file that cannot be written does to it.
use outline_multiport_server.Base.{
  ℕ, ◌≡◌, refl, ◌∙◌, inl, inr, Bool, true, false, not, ◌||◌, some, none, Bool-cases, [], Bytes,
  is_empty, str_eq, arith, ltb, if◌then◌else◌,
}
use outline_multiport_server.IpLock.{
  IpLock, FileSystem, ip_lock_reload, ip_lock_set, ip_lock_record_blocked,
}
use outline_multiport_server.IpLock.Sync.{reload-IsSynced, reload-missing, set-unwritable}
use outline_multiport_server.Server.{
  Server, count_connections_for_ip, update_ip_lock_status, check_reloaded, check_ip_lock_allowed,
  accept_cb,
}
use outline_multiport_server.Server.Exclusive.{IsExclusive}

-- Whether the lock is free, the peer's own, or held by an address with no connection left.
abbrev pub may_enter : Bytes → (F : FileSystem) → Server F → Bool
may_enter peer F s =
    is_empty s.lock.locked_ip
    || (str_eq peer s.lock.locked_ip
        || not (ltb 0 (count_connections_for_ip s.lock.locked_ip s.connections)))

module _ (F : FileSystem) where
  check_reloaded-decides :
      (l : IpLock) (s : Server F) (peer : Bytes)
      → l.locked_ip ≡ s.lock.locked_ip
      → (check_reloaded F l s.disk s.connections peer).1 ≡ may_enter peer F s
  unfolding check_reloaded
  check_reloaded-decides l s peer e = ground arith

  accept-connections :
      (s : Server F) (now : ℕ) → (update_ip_lock_status F s now).connections ≡ s.connections
  unfolding update_ip_lock_status
  accept-connections s now = refl

  check-connections :
      (s : Server F) (peer : Bytes) → (check_ip_lock_allowed F s peer).0.connections ≡ s.connections
  unfolding check_ip_lock_allowed
  check-connections s peer = ground arith

  check-decides :
      (path : Bytes) (s : Server F) (peer : Bytes)
      → IsExclusive F path s
      → is_empty peer ≡ false
      → (check_ip_lock_allowed F s peer).1 ≡ may_enter peer F s
  unfolding check_ip_lock_allowed
  check-decides path s peer h named =
      let (synced, same) = reload-IsSynced F path s.lock s.disk h.synced in
      let on : not s.lock.ip_lock_enabled ≡ false = rw h.synced.enabled in
      rw (on, named) (check_reloaded-decides (ip_lock_reload F s.lock s.disk) s peer same)

  -- What a turned away client leaves.
  rejected-connections :
      (s s' : Server F) (b : Bool) (now : ℕ) (l : IpLock)
      → s'.connections ≡ s.connections
      → (if b then update_ip_lock_status F (record s' { lock = l }) now else s').connections
        ≡ s.connections
  rejected-connections s s' true now l e = accept-connections (record s' { lock = l }) now ∙ e
  rejected-connections s s' false now l e = e

  -- In a state with an exclusive lock, a client with a name that the access lists do not deny is
  -- admitted exactly if the lock is free,
  -- or held by its address, or held by an address that has no connection; and a client that is
  -- turned away leaves the connections as they were.
  pub accept_decides :
      (path : Bytes) (s : Server F) (denied : Bytes → Bool) (fd now : ℕ) (peer : Bytes)
      → IsExclusive F path s
      → is_empty peer ≡ false
      → denied peer ≡ false
      → ((accept_cb F s denied fd (some peer) now).1 ≡ may_enter peer F s)
        × (may_enter peer F s ≡ false
            → (accept_cb F s denied fd (some peer) now).0.connections ≡ s.connections)
  unfolding accept_cb
  accept_decides path s denied fd now peer h named fine =
      let s' = (check_ip_lock_allowed F s peer).0 in
      let d = check-decides path s peer h named in
      elim (Bool-cases (may_enter peer F s)) [
        | inl e ↦ rw (fine, d, e) (refl, λ p. absurd (cc))
        | inr e ↦
            rw (fine, d, e)
              (
                refl,
                λ _.
                    rejected-connections s s' s'.lock.ip_lock_enabled now
                      (ip_lock_record_blocked s'.lock peer now) (check-connections s peer),
              )
      ]

  -- Where the lock is on, has a file name, and its file is missing and cannot be written, the check
  -- allows every peer, whoever has connections, and leaves the files and the connections as they
  -- were.
  pub check_unwritable :
      (s : Server F) (peer : Bytes)
      → s.lock.ip_lock_enabled ≡ true
      → is_empty s.lock.lock_file_path ≡ false
      → F.stat_mtime s.disk s.lock.lock_file_path ≡ none
      → ((text : Bytes) → F.write_file s.disk s.lock.lock_file_path text ≡ none)
      → ((check_ip_lock_allowed F s peer).1 ≡ true)
        × ((check_ip_lock_allowed F s peer).0.disk ≡ s.disk)
        × ((check_ip_lock_allowed F s peer).0.connections ≡ s.connections)
  unfolding check_ip_lock_allowed check_reloaded
  check_unwritable s peer on named missing unwritable = elim (Bool-cases (is_empty peer)) [
    | inl e ↦ rw (enabled, e) (refl, refl, refl)
    | inr e ↦ rw (enabled, e, reloaded_free) (refl, kept e, refl)
  ]
    where
      enabled : not s.lock.ip_lock_enabled ≡ false
      enabled = rw on

      l : IpLock
      l = ip_lock_reload F s.lock s.disk

      reloaded : (l.locked_ip ≡ []) × (l.lock_file_path ≡ s.lock.lock_file_path)
      reloaded = reload-missing F s.lock.lock_file_path s.lock s.disk named missing

      reloaded_free : is_empty l.locked_ip ≡ true
      reloaded_free = rw reloaded.0

      kept : is_empty peer ≡ false → (ip_lock_set F l peer s.disk).1 ≡ s.disk
      kept e =
          set-unwritable F s.lock.lock_file_path l peer s.disk
            (λ text. rw reloaded.1 (unwritable text))
