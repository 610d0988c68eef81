-- ===== src/IpLock/Init.antt =====
-- The lock of ip_lock.c after `ip_lock_init`.
use native.Mathlib.Nat.{le_trans}
use outline_multiport_server.Base.{
  ℕ, zero, suc, ◌≤◌, ◌≡◌, ◌≢◌, refl, ap, ◌∙◌, inl, inr, true, false, some, Option-cases, Bool-cases,
  [], ◌∷◌, Bytes, is_empty, strncpy, length, arith, ◌==◌, ==_iff, if◌then◌else◌, fgets, fgets_loop,
  before, c_str, str_eq, ◌++◌, not, ◌&&◌, take_of_length-le,
}
use outline_multiport_server.IpLock.{
  IpLock, FileSystem, initial, ip_len, ip_lock_init, ip_lock_reload, ip_lock_reset_recent_lists,
  lock_line, trim_line_end, save_lock, ip_lock_set, ip_lock_clear,
}
use outline_multiport_server.IpLock.Sync.{IsSynced}
use outline_multiport_server.IpLock.Reload.{IsWord, DiskLaws, reload-new, reload-none}

length-trim-le : (s : Bytes) → length (trim_line_end s) ≤ length s
unfolding trim_line_end
length-trim-le [] = omega arith
length-trim-le (c ∷ s) = ground (arith, length-trim-le s)

length-before-le : (c : ℕ) (s : Bytes) → length (before c s) ≤ length s
unfolding before
length-before-le c [] = omega arith
length-before-le c (a ∷ s) = ground (arith, length-before-le c s)

length-fgets_loop-le : (n : ℕ) (s : Bytes) → length (fgets_loop n s).0 ≤ n
unfolding fgets_loop
length-fgets_loop-le zero s = omega arith
length-fgets_loop-le (suc n) [] = omega arith
length-fgets_loop-le (suc n) (c ∷ s) = ground (arith, length-fgets_loop-le n s)

length-cleaned-le : (line : Bytes) → length (trim_line_end (c_str line)) ≤ length line
length-cleaned-le line = omega (arith, length-trim-le (c_str line), length-before-le 0 line)

length-lock_line-le : (content : Bytes) → length (lock_line content) ≤ ip_len
unfolding lock_line fgets
length-lock_line-le [] = omega arith
length-lock_line-le (c ∷ s) =
    le_trans (length-cleaned-le (fgets_loop 45 (c ∷ s)).0) (length-fgets_loop-le 45 (c ∷ s))

not_zero : (t : ℕ) → t ≢ 0 → (t == 0) ≡ false
not_zero t h = elim (Bool-cases (t == 0)) [ inl e ↦ absurd (h ((==_iff t 0).0 e)) | inr e ↦ e ]

module _ (F : FileSystem) (path : Bytes) where
  -- Reading the lock file for the first time.
  first_reload-IsSynced :
      (l : IpLock) (d : F.Disk)
      → l.ip_lock_enabled ≡ true
      → l.lock_file_path ≡ path
      → is_empty path ≡ false
      → path ≢ l.status_file_path
      → l.locked_ip ≡ []
      → IsSynced F path (ip_lock_reload F l d) d
  unfolding ip_lock_reload
  first_reload-IsSynced l d on at named apart free =
      elim (Option-cases (F.stat_mtime d l.lock_file_path)) [
        | inl e ↦
            rw (there, e, free, ip_lock_reload)
              (record {
                enabled = on;
                lock_path = at;
                named = named;
                apart = apart;
                short = omega arith;
                in_step = inr (e, refl);
              })
        | inr (t, e) ↦ elim (Bool-cases (t == l.lock_file_mtime)) [
          | inl same ↦
              rw (there, e, same, ip_lock_reload)
                (record {
                  enabled = on;
                  lock_path = at;
                  named = named;
                  apart = apart;
                  short = rw free (omega arith);
                  in_step = inl (e ∙ ap some ((==_iff t l.lock_file_mtime).0 same));
                })
          | inr other ↦ elim (Option-cases (F.read_file d l.lock_file_path)) [
            | inl unread ↦
                rw (there, e, other, unread, ip_lock_reload)
                  (record {
                    enabled = on;
                    lock_path = at;
                    named = named;
                    apart = apart;
                    short = omega arith;
                    in_step = inl e;
                  })
            | inr (content, read) ↦ rw (there, e, other, read, ip_lock_reload) (taken t content e)
          ]
        ]
      ]
    where
      there : is_empty l.lock_file_path ≡ false
      there = rw at named

      taken :
          (t : ℕ) (content : Bytes)
          → F.stat_mtime d l.lock_file_path ≡ some t
          → IsSynced F path
              (record (if str_eq l.locked_ip (lock_line content)
                then l
                else ip_lock_reset_recent_lists l) {
                  locked_ip = lock_line content;
                  lock_file_mtime = t;
                })
              d
      taken t content e = elim (Bool-cases (str_eq l.locked_ip (lock_line content))) [
        | inl b ↦ rw b (record {
          enabled = on;
          lock_path = at;
          named = named;
          apart = apart;
          short = length-lock_line-le content;
          in_step = inl e;
        })
        | inr b ↦ rw b (record {
          enabled = on;
          lock_path = at;
          named = named;
          apart = apart;
          short = length-lock_line-le content;
          in_step = inl e;
        })
      ]

-- With a name for the lock file that is not empty and not the status file's, `ip_lock_init` leaves
-- the lock on, knowing the modification time of its file, or with no holder where there is none.
pub init-IsSynced :
    (F : FileSystem) (lock_file status_file : Bytes) (d : F.Disk)
    → is_empty (strncpy lock_file 511) ≡ false
    → strncpy lock_file 511 ≢ strncpy status_file 511
    → IsSynced F (strncpy lock_file 511) (ip_lock_init F initial lock_file status_file d) d
unfolding ip_lock_init
init-IsSynced F lock_file status_file d named apart =
    first_reload-IsSynced F (strncpy lock_file 511) _ d refl refl named apart refl

module _ (F : FileSystem) (path : Bytes) where
  save_lem :
      (l : IpLock) (d d' : F.Disk)
      → l.lock_file_path ≡ path
      → is_empty path ≡ false
      → F.write_file d path (l.locked_ip ++ (10 ∷ [])) ≡ some d'
      → (save_lock F l d).1 ≡ d'
  unfolding save_lock
  save_lem l d d' at named wrote =
      let there : is_empty l.lock_file_path ≡ false = rw at named in
      let wrote' : F.write_file d l.lock_file_path (l.locked_ip ++ (10 ∷ [])) ≡ some d' =
        rw at wrote in
      elim (Option-cases (F.stat_mtime d' l.lock_file_path)) [
        | inl e ↦ rw (there, wrote', e, save_lock) refl
        | inr (t, e) ↦ rw (there, wrote', e, save_lock) refl
      ]

  set_lem :
      (l : IpLock) (ip : Bytes) (d d' : F.Disk)
      → l.lock_file_path ≡ path
      → is_empty path ≡ false
      → is_empty ip ≡ false
      → length ip ≤ 44
      → F.write_file d path (ip ++ (10 ∷ [])) ≡ some d'
      → (ip_lock_set F l ip d).1 ≡ d'
  unfolding ip_lock_set
  set_lem l ip d d' at named some_ip short wrote =
      let whole : strncpy ip ip_len ≡ ip = take_of_length-le 45 ip (omega arith) in
      let wrote' : F.write_file d path (strncpy ip ip_len ++ (10 ∷ [])) ≡ some d' =
        rw whole wrote in
      elim (Bool-cases (not (is_empty l.locked_ip) && not (str_eq l.locked_ip ip))) [
        | inl e ↦
            rw (some_ip, e, ip_lock_set)
              (save_lem (record (ip_lock_reset_recent_lists l) { locked_ip = strncpy ip ip_len }) d
                d' at named wrote')
        | inr e ↦
            rw (some_ip, e, ip_lock_set)
              (save_lem (record l { locked_ip = strncpy ip ip_len }) d d' at named wrote')
      ]

-- A server that is started again. With calls on files that keep their laws, a name for the lock file
-- that is not empty and not the status file's, and a lock file that can be written and does not then
-- have the modification time 0: after a server with this lock file has set the lock to an address of
-- 1 to 44 printable bytes with no space, one that is initialised then holds the lock for the address;
-- after a server with this lock file has cleared the lock, one that is initialised then has no
-- holder. In both cases it has its lock on and knows the modification time of its file.
pub init-holder :
    (F : FileSystem) (lock_file status_file : Bytes) (l : IpLock) (ip : Bytes) (d d' : F.Disk)
    (t : ℕ)
    → DiskLaws F
    → is_empty (strncpy lock_file 511) ≡ false
    → strncpy lock_file 511 ≢ strncpy status_file 511
    → l.lock_file_path ≡ strncpy lock_file 511
    → is_empty ip ≡ false
    → IsWord ip
    → length ip ≤ 44
    → F.write_file d (strncpy lock_file 511) (ip ++ (10 ∷ [])) ≡ some d'
    → F.stat_mtime d' (strncpy lock_file 511) ≡ some t
    → t ≢ 0
    → let path = strncpy lock_file 511 in
      let after_set = (ip_lock_set F l ip d).1 in
      let after_clear = (ip_lock_clear F l d).1 in
      let again = ip_lock_init F initial lock_file status_file in
      ((again after_set).locked_ip ≡ ip)
      × IsSynced F path (again after_set) after_set
      × ((again after_clear).locked_ip ≡ [])
      × IsSynced F path (again after_clear) after_clear
unfolding ip_lock_init ip_lock_clear
init-holder F lock_file status_file l ip d d' t laws named apart at some_ip word short wrote time
      later =
    let path : Bytes = strncpy lock_file 511 in
    let saved : (ip_lock_set F l ip d).1 ≡ d' =
      set_lem F path l ip d d' at named some_ip short wrote in
    let fresh : IpLock = ip_lock_reset_recent_lists (record initial {
      ip_lock_enabled = true;
      lock_file_path = strncpy lock_file 511;
      status_file_path = strncpy status_file 511;
      locked_ip = [];
    }) in
    let new : (t == 0) ≡ false = not_zero t later in
    let gone : is_empty l.lock_file_path ≡ false = rw at named in
    (
      rw saved (
          reload-new F fresh d' t ip named time new (laws.read_written d d' path _ wrote) word
            short),
      init-IsSynced F lock_file status_file _ named apart,
      rw gone (
          reload-none F fresh (F.unlink d l.lock_file_path) named
            (rw (← at) (laws.stat_unlinked d l.lock_file_path))),
      init-IsSynced F lock_file status_file _ named apart,
    )
