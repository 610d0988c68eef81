-- ===== src/Manager/Invariant.antt =====
-- The table of manager.c stays well-formed under every request.
use outline_multiport_server.Base.{
  ℕ, ◌≡◌, refl, sym, ap, subst, ◌∙◌, Bool, true, false, ◌||◌, Option, none, some, [], Bytes, codes,
  length, length-take, is_empty, str_eq, str_eq→eq, strncpy, ltb, arith, Bool-cases, Option-cases,
  inl, inr, if◌then◌else◌, if_true, if_false, some-injective,
}
use outline_multiport_server.IpLock.{FileSystem}
use outline_multiport_server.Manager.{Server, ManagerLibrary, ManagerCtx, Answers, Manager}
use outline_multiport_server.Manager.Handler.{
  recv_add, recv_set_ip, recv_remove, recv_clear_ip, recv_ip_status, recv_stat, dispatch,
  manager_recv_cb, on_server,
}
use outline_multiport_server.Manager.Replies.{write_port_lock_ip, clear_port_lock_ip}
use outline_multiport_server.Manager.Requests.{
  get_server, get_action, parse_traffic, parse_port_ip, parse_port_only,
}
use outline_multiport_server.Manager.Servers.{add_server, remove_server, check_port, update_stat}
use outline_multiport_server.Manager.Registered.{IsServer, get_server-IsServer}
use outline_multiport_server.Manager.Table.{
  TableLaws, changed, on_server_lem, remove_server_lem, add_server_lem,
}

-- A server that is registered for a port has the port, and its buffers hold its names.
pub record IsRegistered (q : Bytes) (s : Server) : Type 0 where
  pub keyed : s.port ≡ q
  pub sound : IsServer s

module _ (M : ManagerLibrary) where
  abbrev pub IsTable : M.Table → Type 0
  IsTable t = (q : Bytes) (s : Server) → M.table_get t q ≡ some s → IsRegistered q s

set_traffic : (s : Server) (n : ℕ) → IsServer s → IsServer (record s { traffic = n })
set_traffic s n h = record { port = h.port; password = h.password; locked_ip = h.locked_ip }

set_locked :
    (s : Server) (ip : Bytes) → IsServer s → IsServer (record s { locked_ip = strncpy ip 45 })
set_locked s ip h = record {
  port = h.port;
  password = h.password;
  locked_ip = omega (arith, length-take 45 ip);
}

-- A change of a server that keeps it registered.
abbrev Keeps : (Server → Server) → Type 0
Keeps f = (q : Bytes) (s : Server) → IsRegistered q s → IsRegistered q (f s)

module _ (M : ManagerLibrary) (F : FileSystem) (laws : TableLaws M) where
  -- A table that has something else for one port.
  IsTable-if :
      (t t' : M.Table) (p : Bytes) (other : Bytes → Option Server)
      → IsTable M t
      → ((q : Bytes) → M.table_get t' q ≡ (if str_eq p q then other q else M.table_get t q))
      → ((q : Bytes) (s : Server) → str_eq p q ≡ true → other q ≡ some s → IsRegistered q s)
      → IsTable M t'
  IsTable-if t t' p other h gets hp q s found = elim (Bool-cases (str_eq p q)) [
    | inl same ↦ hp q s same (sym (if_true (str_eq p q) _ _ same) ∙ sym (gets q) ∙ found)
    | inr apart ↦ h q s (sym (if_false (str_eq p q) _ _ apart) ∙ sym (gets q) ∙ found)
  ]

  remove-IsTable :
      (a : Answers) (prefix port : Bytes) (st : Manager M F)
      → IsTable M st.table
      → IsTable M (remove_server M F a prefix port st).table
  remove-IsTable a prefix port st h =
      let (table, disk, sent, ran) = remove_server_lem M F a prefix port st in
      IsTable-if st.table _ port (λ q. none) h
        (λ q. ap (λ t. M.table_get t q) table ∙ laws.get_delete st.table port q)
        (λ q s same found. absurd (cc))

  add-IsTable :
      (a : Answers) (m : ManagerCtx) (s : Server) (st : Manager M F)
      → IsServer s
      → IsTable M st.table
      → IsTable M (add_server M F a m s (remove_server M F a m.working_dir s.port st)).0.table
  add-IsTable a m s st sound h =
      IsTable-if st.table _ s.port (λ q. if check_port a m s then some s else none) h
        (λ q. (add_server_lem M F laws a m s st q).0)
        (λ q s' same found. added (check_port a m s) q s' same found)
    where
      added :
          (b : Bool) (q : Bytes) (s' : Server)
          → str_eq s.port q ≡ true
          → (if b then some s else none) ≡ some s'
          → IsRegistered q s'
      added false q s' same found = absurd (cc)
      added true q s' same found =
          subst (IsRegistered q) (some-injective s s' found)
            (record { keyed = str_eq→eq s.port q same; sound = sound })

  on_server-IsTable :
      (port : Bytes) (f : Server → Server) (st : Manager M F)
      → Keeps f
      → IsTable M st.table
      → IsTable M (on_server M F port f st).table
  on_server-IsTable port f st keeps h =
      IsTable-if st.table _ port (λ q. changed f (M.table_get st.table q)) h
        (λ q. on_server_lem M F laws port f st q)
        (λ q s same found. was (M.table_get st.table q) q s refl found)
    where
      was :
          (o : Option Server) (q : Bytes) (s : Server)
          → M.table_get st.table q ≡ o
          → changed f o ≡ some s
          → IsRegistered q s
      was none q s before found = absurd (cc)
      was (some s') q s before found =
          subst (IsRegistered q) (some-injective (f s') s found) (keeps q s' (h q s' before))

  recv_add-IsTable :
      (a : Answers) (m : ManagerCtx) (buf : Bytes) (st : Manager M F)
      → IsTable M st.table
      → IsTable M (recv_add M F a m buf st).table
  unfolding recv_add
  recv_add-IsTable a m buf st h = elim (Option-cases (get_server M buf)) [
    | inl e ↦ rw (e, recv_add) h
    | inr (s, e) ↦ elim (Bool-cases (is_empty s.port || is_empty s.password)) [
      | inl nameless ↦ rw (e, nameless, recv_add) h
      | inr named ↦ rw (e, named, recv_add) (add-IsTable a m s st (get_server-IsServer M buf s e) h)
    ]
  ]

  recv_remove-IsTable :
      (a : Answers) (m : ManagerCtx) (buf : Bytes) (st : Manager M F)
      → IsTable M st.table
      → IsTable M (recv_remove M F a m buf st).table
  unfolding recv_remove
  recv_remove-IsTable a m buf st h = elim (Option-cases (get_server M buf)) [
    | inl e ↦ rw (e, recv_remove) h
    | inr (s, e) ↦ elim (Bool-cases (is_empty s.port)) [
      | inl nameless ↦ rw (e, nameless, recv_remove) h
      | inr named ↦ rw (e, named, recv_remove) (remove-IsTable a m.working_dir s.port st h)
    ]
  ]

  recv_stat-IsTable :
      (a : Answers) (buf : Bytes) (st : Manager M F)
      → IsTable M st.table
      → IsTable M (recv_stat M F a buf st).table
  unfolding recv_stat update_stat on_server
  recv_stat-IsTable a buf st h = elim (Option-cases (parse_traffic M a.port_memory buf)) [
    | inl e ↦ rw (e, recv_stat) h
    | inr ((port, traffic), e) ↦
        rw (e, recv_stat)
          (on_server-IsTable port (λ x. record x { traffic = traffic }) st
            (λ q s r. record { keyed = r.keyed; sound = set_traffic s traffic r.sound }) h)
  ]

  recv_set_ip-IsTable :
      (a : Answers) (buf : Bytes) (st : Manager M F)
      → IsTable M st.table
      → IsTable M (recv_set_ip M F a buf st).table
  unfolding recv_set_ip
  recv_set_ip-IsTable a buf st h =
      elim (Option-cases (parse_port_ip M a.port_memory a.ip_memory buf)) [
        | inl e ↦ rw (e, recv_set_ip) h
        | inr ((port, ip), e) ↦ elim (Bool-cases (is_empty ip)) [
          | inl nameless ↦ rw (e, nameless, recv_set_ip) h
          | inr named ↦ elim (Option-cases (write_port_lock_ip F port ip st.disk)) [
            | inl f ↦ rw (e, named, f, recv_set_ip) h
            | inr (d, f) ↦
                rw (e, named, f, recv_set_ip)
                  (on_server-IsTable port (λ x. record x { locked_ip = strncpy ip 45 })
                    (record st { disk = d })
                    (λ q s r. record { keyed = r.keyed; sound = set_locked s ip r.sound }) h)
          ]
        ]
      ]

  recv_clear_ip-IsTable :
      (a : Answers) (buf : Bytes) (st : Manager M F)
      → IsTable M st.table
      → IsTable M (recv_clear_ip M F a buf st).table
  unfolding recv_clear_ip
  recv_clear_ip-IsTable a buf st h =
      elim (Option-cases (parse_port_only M a.port_memory a.ip_memory buf)) [
        | inl e ↦ rw (e, recv_clear_ip) h
        | inr (port, e) ↦
            rw (e, recv_clear_ip)
              (on_server-IsTable port (λ x. record x { locked_ip = [] })
                (record st { disk = clear_port_lock_ip F port st.disk })
                (λ q s r. record { keyed = r.keyed; sound = set_locked s [] r.sound }) h)
      ]

  recv_ip_status-IsTable :
      (a : Answers) (buf : Bytes) (st : Manager M F)
      → IsTable M st.table
      → IsTable M (recv_ip_status M F a buf st).table
  unfolding recv_ip_status
  recv_ip_status-IsTable a buf st h =
      elim (Option-cases (parse_port_only M a.port_memory a.ip_memory buf)) [
        | inl e ↦ rw (e, recv_ip_status) h
        | inr (port, e) ↦ rw (e, recv_ip_status) h
      ]

  if_IsTable :
      (b : Bool) (x y : Manager M F)
      → IsTable M x.table
      → IsTable M y.table
      → IsTable M (if b then x else y).table
  if_IsTable true x y hx hy = hx
  if_IsTable false x y hx hy = hy

  dispatch-IsTable :
      (a : Answers) (m : ManagerCtx) (action buf : Bytes) (st : Manager M F)
      → IsTable M st.table
      → IsTable M (dispatch M F a m action buf st).table
  unfolding dispatch
  dispatch-IsTable a m action buf st h =
      if_IsTable (str_eq action (codes "add")) _ _ (recv_add-IsTable a m buf st h) (
        if_IsTable (str_eq action (codes "list")) _ _ h (
          if_IsTable (str_eq action (codes "remove")) _ _ (recv_remove-IsTable a m buf st h) (
            if_IsTable (str_eq action (codes "stat")) _ _ (recv_stat-IsTable a buf st h) (
              if_IsTable (str_eq action (codes "ping")) _ _ h (
                if_IsTable (str_eq action (codes "set_ip")) _ _ (recv_set_ip-IsTable a buf st h) (
                  if_IsTable (str_eq action (codes "clear_ip")) _ _
                    (recv_clear_ip-IsTable a buf st h)
                    (if_IsTable (str_eq action (codes "ip_status")) _ _
                      (recv_ip_status-IsTable a buf st h) h)))))))

  -- With a table that keeps the laws of libcork's: whatever arrives at the control socket, a table in
  -- which every server stands under its own port, with a port of at most 7 bytes, a password of at
  -- most 127 and a locked address of at most 45, stays such a table.
  pub recv-IsTable :
      (a : Answers) (m : ManagerCtx) (request : Option Bytes) (st : Manager M F)
      → IsTable M st.table
      → IsTable M (manager_recv_cb M F a m request st).table
  unfolding manager_recv_cb
  recv-IsTable a m none st h = h
  recv-IsTable a m (some request) st h = elim (Bool-cases (ltb 32767 (length request))) [
    | inl long ↦ rw (long, manager_recv_cb) h
    | inr short ↦ elim (Option-cases (get_action request)) [
      | inl e ↦ rw (short, e, manager_recv_cb) h
      | inr ((action, buf), e) ↦
          rw (short, e, manager_recv_cb) (dispatch-IsTable a m action buf st h)
    ]
  ]
