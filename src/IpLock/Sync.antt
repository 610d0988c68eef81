-- ===== src/IpLock/Sync.antt =====
-- The lock of ip_lock.c and its file: while nothing else changes the file, reloading changes
-- nothing, and setting the lock leaves both in step.
use outline_multiport_server.Base.{
  ℕ, ◌≤◌, ◌≡◌, ◌≢◌, refl, ◌⊎◌, inl, inr, true, false, not, ◌&&◌, some, none, Option-cases,
  Bool-cases, List, [], ◌∷◌, ◌++◌, Bytes, is_empty, str_eq, strncpy, length, length-take, arith,
  ==_iff,
}
use outline_multiport_server.IpLock.{
  IpLock, FileSystem, ip_len, ip_lock_reload, save_lock, ip_lock_set, ip_lock_record_incoming,
  ip_lock_record_blocked, ip_lock_write_status, written,
}

-- What the calls on files document: a file that was written is there, and writing one file leaves
-- the others alone.
pub record FileLaws (F : FileSystem) : Type 0 where
  pub stat_written :
      (d d' : F.Disk) (path text : Bytes)
      → F.write_file d path text ≡ some d'
      → (t : ℕ) × (F.stat_mtime d' path ≡ some t)
  pub stat_other :
      (d d' : F.Disk) (path other text : Bytes)
      → F.write_file d path text ≡ some d'
      → other ≢ path
      → F.stat_mtime d' other ≡ F.stat_mtime d other

-- The directory of the file takes it: `fopen(path, "w")` succeeds.
abbrev pub IsWritable : (F : FileSystem) → Bytes → Type 0
IsWritable F path =
    (d : F.Disk) (text : Bytes) → (d' : F.Disk) × (F.write_file d path text ≡ some d')

-- The lock file has the modification time that was last noted, or there is none and nobody holds the
-- lock.
abbrev pub InStep : (F : FileSystem) → IpLock → F.Disk → Type 0
InStep F l d =
    (F.stat_mtime d l.lock_file_path ≡ some l.lock_file_mtime)
    ⊎ ((F.stat_mtime d l.lock_file_path ≡ none) × (l.locked_ip ≡ []))

pub record IsSynced (F : FileSystem) (path : Bytes) (l : IpLock) (d : F.Disk) : Type 0 where
  pub enabled : l.ip_lock_enabled ≡ true
  pub lock_path : l.lock_file_path ≡ path
  pub named : is_empty path ≡ false
  pub apart : path ≢ l.status_file_path
  pub short : length l.locked_ip ≤ ip_len
  pub in_step : InStep F l d

module _ (F : FileSystem) (path : Bytes) where
  pub reload-IsSynced :
      (l : IpLock) (d : F.Disk)
      → IsSynced F path l d
      → IsSynced F path (ip_lock_reload F l d) d × ((ip_lock_reload F l d).locked_ip ≡ l.locked_ip)
  unfolding ip_lock_reload
  reload-IsSynced l d h = elim h.in_step [ inl e ↦ same e | inr (e, f) ↦ gone e f ]
    where
      there : is_empty l.lock_file_path ≡ false
      there = rw h.lock_path h.named

      same :
          F.stat_mtime d l.lock_file_path ≡ some l.lock_file_mtime
          → IsSynced F path (ip_lock_reload F l d) d
            × ((ip_lock_reload F l d).locked_ip ≡ l.locked_ip)
      same e =
          rw (there, e, (==_iff l.lock_file_mtime l.lock_file_mtime).1 refl, ip_lock_reload)
            (h, refl)

      gone :
          F.stat_mtime d l.lock_file_path ≡ none
          → l.locked_ip ≡ []
          → IsSynced F path (ip_lock_reload F l d) d
            × ((ip_lock_reload F l d).locked_ip ≡ l.locked_ip)
      gone e f =
          rw (there, e, f, ip_lock_reload)
            (
              record {
                enabled = h.enabled;
                lock_path = h.lock_path;
                named = h.named;
                apart = h.apart;
                short = omega arith;
                in_step = inr (e, refl);
              },
              refl,
            )

  module _ (laws : FileLaws F) (writable : IsWritable F path) where
    save-IsSynced :
        (l : IpLock) (d : F.Disk)
        → l.ip_lock_enabled ≡ true
        → l.lock_file_path ≡ path
        → is_empty path ≡ false
        → path ≢ l.status_file_path
        → length l.locked_ip ≤ ip_len
        → IsSynced F path (save_lock F l d).0 (save_lock F l d).1
          × ((save_lock F l d).0.locked_ip ≡ l.locked_ip)
    unfolding save_lock
    save-IsSynced l d on at named apart short =
        let there : is_empty l.lock_file_path ≡ false = rw at named in
        let text = l.locked_ip ++ (10 ∷ []) in
        let (d', w) = writable d text in
        let (t, st) = laws.stat_written d d' path text w in
        let w' : F.write_file d l.lock_file_path text ≡ some d' = rw at w in
        let st' : F.stat_mtime d' l.lock_file_path ≡ some t = rw at st in
        rw (there, w', st', save_lock)
          (
            record {
              enabled = on;
              lock_path = at;
              named = named;
              apart = apart;
              short = short;
              in_step = inl st';
            },
            refl,
          )

    pub set-IsSynced :
        (l : IpLock) (ip : Bytes) (d : F.Disk)
        → IsSynced F path l d
        → is_empty ip ≡ false
        → IsSynced F path (ip_lock_set F l ip d).0 (ip_lock_set F l ip d).1
          × ((ip_lock_set F l ip d).0.locked_ip ≡ strncpy ip ip_len)
    unfolding ip_lock_set
    set-IsSynced l ip d h some_ip =
        let changed = not (is_empty l.locked_ip) && not (str_eq l.locked_ip ip) in
        let short : length (strncpy ip ip_len) ≤ ip_len = omega (arith, length-take ip_len ip) in
        elim (Bool-cases changed) [
          | inl e ↦ rw (some_ip, e) (save-IsSynced _ d h.enabled h.lock_path h.named h.apart short)
          | inr e ↦ rw (some_ip, e) (save-IsSynced _ d h.enabled h.lock_path h.named h.apart short)
        ]

  module _ (laws : FileLaws F) where
    stat-written :
        (d : F.Disk) (other text : Bytes)
        → path ≢ other
        → F.stat_mtime (written F d other text) path ≡ F.stat_mtime d path
    unfolding written
    stat-written d other text apart = elim (Option-cases (F.write_file d other text)) [
      | inl e ↦ rw (e, written)
      | inr (d', e) ↦ rw (e, written) (laws.stat_other d d' other path text e apart)
    ]

    pub write_status-IsSynced :
        (l : IpLock) (total : ℕ) (active : List Bytes) (now : ℕ) (d : F.Disk)
        → IsSynced F path l d
        → IsSynced F path
            (ip_lock_write_status F l total active now d).0
            (ip_lock_write_status F l total active now d).1
          × ((ip_lock_write_status F l total active now d).0.locked_ip ≡ l.locked_ip)
    unfolding ip_lock_write_status
    write_status-IsSynced l total active now d h = elim (Bool-cases (is_empty l.status_file_path)) [
      | inl e ↦ rw e (h, refl)
      | inr e ↦ rw e (
        record {
          enabled = h.enabled;
          lock_path = h.lock_path;
          named = h.named;
          apart = h.apart;
          short = h.short;
          in_step =
              rw (h.lock_path, stat-written d l.status_file_path _ h.apart)
                (rw h.lock_path at h.in_step);
        },
        refl,
      )
    ]

  pub record_incoming-IsSynced :
      (l : IpLock) (ip : Bytes) (now : ℕ) (d : F.Disk)
      → IsSynced F path l d
      → IsSynced F path (ip_lock_record_incoming l ip now) d
        × ((ip_lock_record_incoming l ip now).locked_ip ≡ l.locked_ip)
  unfolding ip_lock_record_incoming
  record_incoming-IsSynced l ip now d h = rw h.enabled (
    record {
      enabled = refl;
      lock_path = h.lock_path;
      named = h.named;
      apart = h.apart;
      short = h.short;
      in_step = h.in_step;
    },
    refl,
  )

  pub record_blocked-IsSynced :
      (l : IpLock) (ip : Bytes) (now : ℕ) (d : F.Disk)
      → IsSynced F path l d
      → IsSynced F path (ip_lock_record_blocked l ip now) d
        × ((ip_lock_record_blocked l ip now).locked_ip ≡ l.locked_ip)
  unfolding ip_lock_record_blocked
  record_blocked-IsSynced l ip now d h = rw h.enabled (
    record {
      enabled = refl;
      lock_path = h.lock_path;
      named = h.named;
      apart = h.apart;
      short = h.short;
      in_step = h.in_step;
    },
    refl,
  )

  -- Without a file the lock is free.
  pub reload-missing :
      (l : IpLock) (d : F.Disk)
      → is_empty l.lock_file_path ≡ false
      → F.stat_mtime d l.lock_file_path ≡ none
      → ((ip_lock_reload F l d).locked_ip ≡ [])
        × ((ip_lock_reload F l d).lock_file_path ≡ l.lock_file_path)
  unfolding ip_lock_reload
  reload-missing l d there e = elim (Bool-cases (is_empty l.locked_ip)) [
    | inl b ↦ rw (there, e, b, ip_lock_reload) (refl, refl)
    | inr b ↦ rw (there, e, b, ip_lock_reload) (refl, refl)
  ]

  save-unwritable :
      (l : IpLock) (d : F.Disk)
      → ((text : Bytes) → F.write_file d l.lock_file_path text ≡ none)
      → (save_lock F l d).1 ≡ d
  unfolding save_lock
  save-unwritable l d h = ground (arith, h (l.locked_ip ++ (10 ∷ [])))

  -- A lock that cannot be written leaves the files alone.
  pub set-unwritable :
      (l : IpLock) (ip : Bytes) (d : F.Disk)
      → ((text : Bytes) → F.write_file d l.lock_file_path text ≡ none)
      → (ip_lock_set F l ip d).1 ≡ d
  unfolding ip_lock_set
  set-unwritable l ip d h = elim (Bool-cases (is_empty ip)) [
    | inl e ↦ rw e
    | inr e ↦ elim (Bool-cases (not (is_empty l.locked_ip) && not (str_eq l.locked_ip ip))) [
      | inl f ↦ rw (e, f) (save-unwritable _ d h)
      | inr f ↦ rw (e, f) (save-unwritable _ d h)
    ]
  ]
