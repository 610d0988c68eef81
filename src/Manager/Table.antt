-- ===== src/Manager/Table.antt =====
-- The table of servers of manager.c under `add`, `remove` and `stat`: what is registered for a port.
use outline_multiport_server.Base.{
  ◌≡◌, refl, ap, ◌∙◌, Bool, true, false, ◌&&◌, ◌||◌, Option, none, some, List, [], ◌∷◌, ◌++◌, Bytes,
  codes, is_empty, str_eq, if◌then◌else◌, inl, inr, Bool-cases, Option-cases,
}
use outline_multiport_server.Base.{ℕ, ◌<◌, ◌≤◌, sym, length, str_eq→eq}
use outline_multiport_server.Base.Int.{pos}
use outline_multiport_server.IpLock.{FileSystem}
use outline_multiport_server.Manager.{
  json_object, json_integer, Server, ManagerCtx, ManagerLibrary, Answers, Manager,
}
use outline_multiport_server.Manager.Requests.{parsed, get_server}
use outline_multiport_server.Manager.Servers.{
  add_server, remove_server, stop_server, signal_pid, update_stat, check_port, command_line,
  fscanf_int, lock_path, status_path,
}
use outline_multiport_server.Manager.Fields.{IsCString, parse_traffic-one}
use outline_multiport_server.Manager.Handler.{recv_add, recv_remove, recv_stat, on_server}

abbrev pub changed : (Server → Server) → Option Server → Option Server
changed f none = none
changed f (some s) = some (f s)

-- What libcork documents of a hash table with string keys: a lookup finds the last value put at an
-- equal key, or nothing where none was put or it was deleted; a change of a value in place is seen
-- by the lookups of its key alone.
pub record TableLaws (M : ManagerLibrary) : Type 0 where
  pub get_new : (q : Bytes) → M.table_get M.table_new q ≡ none
  pub get_put :
      (t : M.Table) (p : Bytes) (s : Server) (q : Bytes)
      → M.table_get (M.table_put t p s) q ≡ (if str_eq p q then some s else M.table_get t q)
  pub get_delete :
      (t : M.Table) (p q : Bytes)
      → M.table_get (M.table_delete t p) q ≡ (if str_eq p q then none else M.table_get t q)
  pub get_modify :
      (t : M.Table) (p : Bytes) (f : Server → Server) (q : Bytes)
      → M.table_get (M.table_modify t p f) q
        ≡ (if str_eq p q then changed f (M.table_get t q) else M.table_get t q)

if_shadow :
    {A : Type 0}
    → (b : Bool) (x y z : A) → (if b then x else if b then y else z) ≡ (if b then x else z)
if_shadow true x y z = refl
if_shadow false x y z = refl

-- The answer to `add`, from the result of `add_server` and the answers before it.
added_answer :
    (check runs b : Bool) (old sent : List Bytes)
    → b ≡ (if check then runs else false)
    → sent ≡ old
    → sent ++ ((if b then codes "ok" else codes "port is not available") ∷ [])
      ≡ old ++ ((if check && runs then codes "ok" else codes "port is not available") ∷ [])
added_answer true runs b old sent h e = rw (h, e) refl
added_answer false runs b old sent h e = rw (h, e) refl

module _ (M : ManagerLibrary) (F : FileSystem) where
  -- A signal leaves the table, the files and the answers alone.
  signal_pid-lem :
      (a : Answers) (path : Bytes) (st : Manager M F)
      → let st' = signal_pid M F a path st in
        (st'.table ≡ st.table) × (st'.disk ≡ st.disk) × (st'.sent ≡ st.sent) × (st'.ran ≡ st.ran)
  unfolding signal_pid
  signal_pid-lem a path st = elim (Option-cases (F.read_file st.disk path)) [
    | inl e ↦ rw (e, signal_pid) (refl, refl, refl, refl)
    | inr (text, e) ↦ elim (Option-cases (fscanf_int a.pid_before text)) [
      | inl e' ↦ rw (e, e', signal_pid) (refl, refl, refl, refl)
      | inr (pid, e') ↦ rw (e, e', signal_pid) (refl, refl, refl, refl)
    ]
  ]

  pub add_server-sent :
      (a : Answers) (m : ManagerCtx) (s : Server) (st : Manager M F)
      → (add_server M F a m s st).0.sent ≡ st.sent
  unfolding add_server
  add_server-sent a m s st = elim (Bool-cases (check_port a m s)) [
    | inl free ↦ rw (free, add_server) refl
    | inr taken ↦ rw (taken, add_server) refl
  ]

  -- A change of one server leaves the files and the answers alone.
  pub on_server-kept :
      (port : Bytes) (f : Server → Server) (st : Manager M F)
      → let st' = on_server M F port f st in (st'.disk ≡ st.disk) × (st'.sent ≡ st.sent)
  unfolding on_server
  on_server-kept port f st = elim (Option-cases (M.table_get st.table port)) [
    | inl e ↦ rw (e, on_server) (refl, refl)
    | inr (s, e) ↦ rw (e, on_server) (refl, refl)
  ]

  pub remove_server_lem :
      (a : Answers) (prefix port : Bytes) (st : Manager M F)
      → let st' = remove_server M F a prefix port st in
        (st'.table ≡ M.table_delete st.table port)
        × (st'.disk ≡ F.unlink (F.unlink st.disk (lock_path M F port)) (status_path M F port))
        × (st'.sent ≡ st.sent)
        × (st'.ran ≡ st.ran)
  unfolding remove_server stop_server
  remove_server_lem a prefix port st = signal_pid-lem a _ _

module _ (M : ManagerLibrary) (F : FileSystem) (laws : TableLaws M) where
  -- With a table that keeps the laws of libcork's: where the request has a port, `remove` answers
  -- "ok", and then no server is registered for the port; those of the other ports stay.
  pub recv_remove-table_get :
      (a : Answers) (m : ManagerCtx) (buf : Bytes) (st : Manager M F) (server : Server)
      → get_server M buf ≡ some server
      → is_empty server.port ≡ false
      → let st' = recv_remove M F a m buf st in
        (st'.sent ≡ st.sent ++ (codes "ok" ∷ []))
        × ((q : Bytes)
            → M.table_get st'.table q
              ≡ (if str_eq server.port q then none else M.table_get st.table q))
  unfolding recv_remove
  recv_remove-table_get a m buf st server read named =
      let (table, disk, sent, ran) = remove_server_lem M F a m.working_dir server.port st in
      rw (read, named, recv_remove)
        (
          ap (λ s. s ++ (codes "ok" ∷ [])) sent,
          λ q. ap (λ t. M.table_get t q) table ∙ laws.get_delete st.table server.port q,
        )

  -- `remove_server` and `add_server`, one after the other.
  pub add_server_lem :
      (a : Answers) (m : ManagerCtx) (s : Server) (st : Manager M F) (q : Bytes)
      → let r = add_server M F a m s (remove_server M F a m.working_dir s.port st) in
        (M.table_get r.0.table q ≡ (
          if str_eq s.port q
          then (if check_port a m s then some s else none)
          else M.table_get st.table q))
        × (r.0.sent ≡ st.sent)
        × (r.0.ran ≡ (if check_port a m s then st.ran ++ (command_line m s ∷ []) else st.ran))
        × (r.1 ≡ (if check_port a m s then a.system_starts (command_line m s) else false))
  unfolding add_server
  add_server_lem a m s st q =
      let (table, disk, sent, ran) = remove_server_lem M F a m.working_dir s.port st in
      let gone = ap (λ t. M.table_get t q) table ∙ laws.get_delete st.table s.port q in
      let removed = remove_server M F a m.working_dir s.port st in
      elim (Bool-cases (check_port a m s)) [
        | inr taken ↦ rw (taken, add_server) (gone, sent, ran, refl)
        | inl free ↦
            rw (free, add_server)
              (
                laws.get_put removed.table s.port s q
                    ∙ ap (λ o. if str_eq s.port q then some s else o) gone
                    ∙ if_shadow (str_eq s.port q) (some s) none (M.table_get st.table q),
                sent,
                ap (λ r. r ++ (command_line m s ∷ [])) ran,
                refl,
              )
      ]

  -- With a table that keeps the laws of libcork's: where the request has a port and a password, `add`
  -- registers the server that it describes if its port can be bound on every host, and no server
  -- for the port if not, whatever was registered before; those of the other ports stay. The
  -- command is handed to `system` exactly if the port can be bound, and the answer is "ok" exactly
  -- if this happened and `system` did not give -1, whatever became of the command.
  pub recv_add-table_get :
      (a : Answers) (m : ManagerCtx) (buf : Bytes) (st : Manager M F) (server : Server)
      → get_server M buf ≡ some server
      → (is_empty server.port || is_empty server.password) ≡ false
      → let st' = recv_add M F a m buf st in
        ((q : Bytes)
          → M.table_get st'.table q ≡ (
              if str_eq server.port q
              then (if check_port a m server then some server else none)
              else M.table_get st.table q))
        × (st'.ran
            ≡ (if check_port a m server then st.ran ++ (command_line m server ∷ []) else st.ran))
        × (st'.sent
            ≡ st.sent
              ++ ((if check_port a m server && a.system_starts (command_line m server)
                    then codes "ok"
                    else codes "port is not available")
                  ∷ []))
  unfolding recv_add
  recv_add-table_get a m buf st server read named =
      let lem = add_server_lem a m server st in
      let (table, sent, ran, added) = lem [] in
      rw (read, named, recv_add)
        (
          λ q. (lem q).0,
          ran,
          added_answer (check_port a m server) (a.system_starts (command_line m server)) _ _ _ added
              sent,
        )

  -- Changing nothing is right where there is no server for the port.
  if_changed :
      (t : M.Table) (p q : Bytes) (f : Server → Server)
      → M.table_get t p ≡ none
      → M.table_get t q ≡ (if str_eq p q then changed f (M.table_get t q) else M.table_get t q)
  if_changed t p q f missing = elim (Bool-cases (str_eq p q)) [
    | inr other ↦ rw other refl
    | inl same ↦
        let none_at : M.table_get t q ≡ none =
          ap (λ k. M.table_get t k) (sym (str_eq→eq p q same)) ∙ missing in
        rw (same, none_at) refl
  ]

  pub on_server_lem :
      (port : Bytes) (f : Server → Server) (st : Manager M F) (q : Bytes)
      → M.table_get (on_server M F port f st).table q
        ≡ (if str_eq port q then changed f (M.table_get st.table q) else M.table_get st.table q)
  unfolding on_server
  on_server_lem port f st q = elim (Option-cases (M.table_get st.table port)) [
    | inl missing ↦ rw (missing, on_server) (if_changed st.table port q f missing)
    | inr (s, found) ↦ rw (found, on_server) (laws.get_modify st.table port f q)
  ]

  -- With a table that keeps the laws of libcork's: a `stat` that reports one number below 2 ^ 64 for
  -- a port of at most 6 bytes sets the traffic of the port's server to it, if there is one, and
  -- changes nothing else of this server, the other servers or the files. It is not answered.
  pub recv_stat-table_get :
      (a : Answers) (buf : Bytes) (st : Manager M F) (name : Bytes) (n : ℕ)
      → parsed M buf ≡ some (json_object ((name, json_integer (pos n)) ∷ []))
      → IsCString name
      → length name ≤ 6
      → n < 0x1_0000_0000_0000_0000
      → (q : Bytes)
      → let st' = recv_stat M F a buf st in
        (M.table_get st'.table q ≡ (
          if str_eq name q
          then changed (λ x. record x { traffic = n }) (M.table_get st.table q)
          else M.table_get st.table q))
        × (st'.disk ≡ st.disk)
        × (st'.sent ≡ st.sent)
  unfolding recv_stat update_stat on_server
  recv_stat-table_get a buf st name n read text short small q =
      let report = parse_traffic-one M a.port_memory buf name n read text short small in
      let set : Server → Server = λ x. record x { traffic = n } in
      let (disk, sent) = on_server-kept M F name set st in
      rw (report, recv_stat) (on_server_lem name set st q, disk, sent)
