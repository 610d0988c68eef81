-- ===== src/Manager/Locks.antt =====
-- The client locks of the ports: what manager.c writes into the files, and what the server of a port,
-- ip_lock.c, then reads from them.
use outline_multiport_server.Base.{
  ℕ, ◌≤◌, ◌≡◌, ◌≢◌, sym, ap, ◌∙◌, Bool, false, none, some, [], ◌∷◌, ◌++◌, Bytes, codes, length,
  is_empty, str_eq, str_eq→eq, str_eq_refl, ==_iff, arith, ◌==◌, Bool-cases, inl, inr,
  if◌then◌else◌, if_true, if_false,
}
use outline_multiport_server.IpLock.{FileSystem, IpLock, ip_lock_reload, ip_lock_sidecar_path}
use outline_multiport_server.IpLock.Sync.{FileLaws}
use outline_multiport_server.IpLock.Reload.{
  IsWord, DiskLaws, reload-same, reload-new, reload-none, reload-seen,
}
use outline_multiport_server.Manager.{
  ManagerLibrary, ManagerCtx, Server, Answers, Manager, JsonField, json_object,
}
use outline_multiport_server.Manager.Fields.{
  IsCString, IsPortField, lock_members, parse_port_ip-both,
}
use outline_multiport_server.Manager.Handler.{recv_set_ip, recv_remove}
use outline_multiport_server.Manager.Paths.{IsPort, sidecar_path-injective, lock_status-apart}
use outline_multiport_server.Manager.Replies.{write_port_lock_ip}
use outline_multiport_server.Manager.Requests.{parsed, get_server}
use outline_multiport_server.Manager.Servers.{lock_path, status_path}
use outline_multiport_server.Manager.Table.{on_server-kept, remove_server_lem}

IsWord→IsCString : (s : Bytes) → IsWord s → IsCString s
IsWord→IsCString [] h = tt
IsWord→IsCString (c ∷ s) (hc, h) = (omega arith, IsWord→IsCString s h)

-- Different ports have different files.
port_apart :
    (p q : Bytes)
    → IsPort p
    → IsPort q
    → str_eq p q ≡ false
    → (s : Bytes) → length s ≤ 8
    → ip_lock_sidecar_path 512 q s ≢ ip_lock_sidecar_path 512 p s
port_apart p q hp hq other s small e =
    let same = sidecar_path-injective q p s hq hp small e in
    absurd (cc (str_eq_refl p, same, other))

module _ (M : ManagerLibrary) (F : FileSystem) where
  -- The text of the request is an object with the port, as a string or as a number, and the address,
  -- in either order.
  pub record Sets (buf port ip : Bytes) : Type 0 where
    pub port_field : JsonField
    pub port_first : Bool
    pub read : parsed M buf ≡ some (json_object (lock_members port_first port_field ip))
    pub port_is : IsPortField port_field port
    pub port_text : IsCString port
    pub port_named : is_empty port ≡ false
    pub port_short : length port ≤ 6
    pub ip_word : IsWord ip
    pub ip_named : is_empty ip ≡ false
    pub ip_short : length ip ≤ 44

  set_ip_lem :
      (a : Answers) (buf port ip : Bytes) (st : Manager M F) (d : F.Disk)
      → Sets buf port ip
      → F.write_file st.disk (lock_path M F port) (ip ++ (10 ∷ [])) ≡ some d
      → let st' = recv_set_ip M F a buf st in
        (st'.disk ≡ d) × (st'.sent ≡ st.sent ++ (codes "ok" ∷ []))
  unfolding recv_set_ip write_port_lock_ip
  set_ip_lem a buf port ip st d h wrote =
      let ip_text = IsWord→IsCString ip h.ip_word in
      let args =
        parse_port_ip-both M a.port_memory a.ip_memory buf h.port_field port ip h.port_first h.read
          h.port_is h.port_text h.port_named h.port_short ip_text h.ip_short in
      rw (args, recv_set_ip)
        (rw (h.ip_named, h.port_named, wrote)
          (let (disk, sent) = on_server-kept M F port _ (record st { disk = d }) in
            (disk, ap (λ s. s ++ (codes "ok" ∷ [])) sent)))

module _ (M : ManagerLibrary) (F : FileSystem) (laws : FileLaws F) (disk_laws : DiskLaws F) where
  -- The server of a port reloads as before where only the lock file of another port was written.
  reload-other :
      (port q text : Bytes) (d d' : F.Disk) (l : IpLock)
      → F.write_file d (lock_path M F port) text ≡ some d'
      → l.lock_file_path ≡ lock_path M F q
      → IsPort port
      → IsPort q
      → str_eq port q ≡ false
      → ip_lock_reload F l d' ≡ ip_lock_reload F l d
  reload-other port q text d d' l wrote at hp hq other =
      let apart : l.lock_file_path ≢ lock_path M F port =
        λ e. port_apart port q hp hq other (codes "iplock") (omega arith) (sym at ∙ e) in
      reload-same F l d d'
        (laws.stat_other d d' (lock_path M F port) l.lock_file_path text wrote apart)
        (disk_laws.read_other d d' (lock_path M F port) l.lock_file_path text wrote apart)

  -- What the server of the port makes of the new lock file.
  reload-own :
      (port ip : Bytes) (d d' : F.Disk) (l : IpLock) (t : ℕ)
      → F.write_file d (lock_path M F port) (ip ++ (10 ∷ [])) ≡ some d'
      → l.lock_file_path ≡ lock_path M F port
      → is_empty l.lock_file_path ≡ false
      → F.stat_mtime d' (lock_path M F port) ≡ some t
      → IsWord ip
      → length ip ≤ 44
      → (ip_lock_reload F l d').locked_ip ≡ (if t == l.lock_file_mtime then l.locked_ip else ip)
  reload-own port ip d d' l t wrote at named time word short =
      let text = disk_laws.read_written d d' (lock_path M F port) _ wrote in
      let stats = ap (F.stat_mtime d') at ∙ time in
      let reads = ap (F.read_file d') at ∙ text in
      elim (Bool-cases (t == l.lock_file_mtime)) [
        | inl seen ↦
            let again = stats ∙ ap some ((==_iff t l.lock_file_mtime).0 seen) in
            ap (λ (x : IpLock). x.locked_ip) (reload-seen F l d' again)
            ∙ sym (if_true (t == l.lock_file_mtime) _ _ seen)
        | inr new ↦
            reload-new F l d' t ip named stats new reads word short
            ∙ sym (if_false (t == l.lock_file_mtime) _ _ new)
      ]

  -- With calls on files that keep their laws: take a `set_ip` whose text is an object with the two
  -- members "server_port", a string or a number of at most 64 bits, and "ip", a string, in either
  -- order. The port has at most 6 bytes and the address at most 44, neither is empty, the port has no
  -- NUL and the address is of printable bytes with no space; and the port's lock file can be written. It is answered "ok". At its next reload
  -- the server of that port holds the lock for the address, except where the new file has the
  -- modification time of the file that it read last: then it keeps the holder that it had. The server
  -- of another port of at most 7 bytes reloads as before.
  pub set_ip-reload :
      (a : Answers) (buf port ip : Bytes) (st : Manager M F) (d : F.Disk) (t : ℕ) (l : IpLock)
      (q : Bytes)
      → Sets M F buf port ip
      → F.write_file st.disk (lock_path M F port) (ip ++ (10 ∷ [])) ≡ some d
      → F.stat_mtime d (lock_path M F port) ≡ some t
      → l.lock_file_path ≡ lock_path M F q
      → is_empty l.lock_file_path ≡ false
      → IsPort q
      → let st' = recv_set_ip M F a buf st in
        (st'.sent ≡ st.sent ++ (codes "ok" ∷ []))
        × ((ip_lock_reload F l st'.disk).locked_ip ≡ (
            if str_eq port q
            then (if t == l.lock_file_mtime then l.locked_ip else ip)
            else (ip_lock_reload F l st.disk).locked_ip))
  set_ip-reload a buf port ip st d t l q h wrote time at named small =
      let (disk, sent) = set_ip_lem M F a buf port ip st d h wrote in
      let short = h.port_short in
      let step = ap (λ x. (ip_lock_reload F l x).locked_ip) disk in
      elim (Bool-cases (str_eq port q)) [
        | inl own ↦ (
          sent,
          step
              ∙ reload-own port ip st.disk d l t wrote
                  (at ∙ ap (lock_path M F) (sym (str_eq→eq port q own))) named time h.ip_word
                  h.ip_short
              ∙ sym (if_true (str_eq port q) _ _ own),
        )
        | inr other ↦ (
          sent,
          step
              ∙ ap (λ (x : IpLock). x.locked_ip)
                  (reload-other port q _ st.disk d l wrote at (omega arith) small other)
              ∙ sym (if_false (str_eq port q) _ _ other),
        )
      ]

  -- Both sidecar files of a port gone, in this order.
  unlinked-reload :
      (port q : Bytes) (d : F.Disk) (l : IpLock)
      → l.lock_file_path ≡ lock_path M F q
      → is_empty l.lock_file_path ≡ false
      → IsPort port
      → IsPort q
      → (ip_lock_reload F l
          (F.unlink (F.unlink d (lock_path M F port)) (status_path M F port))).locked_ip
        ≡ (if str_eq port q then [] else (ip_lock_reload F l d).locked_ip)
  unlinked-reload port q d l at named hp hq =
      let lock = lock_path M F port in
      let status = status_path M F port in
      let d1 = F.unlink d lock in
      let no_status : l.lock_file_path ≢ status =
        λ e. lock_status-apart q port hq hp (sym at ∙ e) in
      elim (Bool-cases (str_eq port q)) [
        | inl own ↦
            let here = at ∙ ap (lock_path M F) (sym (str_eq→eq port q own)) in
            reload-none F l (F.unlink d1 status) named (
              disk_laws.stat_kept d1 status l.lock_file_path no_status
              ∙ ap (F.stat_mtime d1) here
              ∙ disk_laws.stat_unlinked d lock)
            ∙ sym (if_true (str_eq port q) _ _ own)
        | inr other ↦
            let no_lock : l.lock_file_path ≢ lock =
              λ e. port_apart port q hp hq other (codes "iplock") (omega arith) (sym at ∙ e) in
            ap (λ (x : IpLock). x.locked_ip)
              (reload-same F l d (F.unlink d1 status)
                (disk_laws.stat_kept d1 status l.lock_file_path no_status
                  ∙ disk_laws.stat_kept d lock l.lock_file_path no_lock)
                (disk_laws.read_kept d1 status l.lock_file_path no_status
                  ∙ disk_laws.read_kept d lock l.lock_file_path no_lock))
            ∙ sym (if_false (str_eq port q) _ _ other)
      ]

  -- With calls on files that keep their laws: where a `remove` has a port of at most 7 bytes, not
  -- empty, the port has no lock file and no status file any more. At its next reload a server of the
  -- port has no holder of its lock, and the server of another port of at most 7 bytes has the one
  -- that it had without the request.
  pub recv_remove-reload :
      (a : Answers) (m : ManagerCtx) (buf : Bytes) (st : Manager M F) (server : Server) (l : IpLock)
      (q : Bytes)
      → get_server M buf ≡ some server
      → is_empty server.port ≡ false
      → IsPort server.port
      → l.lock_file_path ≡ lock_path M F q
      → is_empty l.lock_file_path ≡ false
      → IsPort q
      → let d = (recv_remove M F a m buf st).disk in
        (F.read_file d (lock_path M F server.port) ≡ none)
        × (F.read_file d (status_path M F server.port) ≡ none)
        × ((ip_lock_reload F l d).locked_ip
            ≡ (if str_eq server.port q then [] else (ip_lock_reload F l st.disk).locked_ip))
  unfolding recv_remove
  recv_remove-reload a m buf st server l q read named short at there small =
      let lock = lock_path M F server.port in
      let status = status_path M F server.port in
      let d1 = F.unlink st.disk lock in
      let (table, disk, sent, ran) = remove_server_lem M F a m.working_dir server.port st in
      let apart : lock ≢ status = lock_status-apart server.port server.port short short in
      rw (read, named, recv_remove)
        (rw disk (
          disk_laws.read_kept d1 status lock apart ∙ disk_laws.read_unlinked st.disk lock,
          disk_laws.read_unlinked d1 status,
          unlinked-reload server.port q st.disk l at there short small,
        ))
