-- ===== src/Manager/Handler.antt =====
-- `manager_recv_cb` of manager.c, one request after the other.
use outline_multiport_server.Base.{
  ◌/◌, ◌||◌, Option, none, some, [], ◌∷◌, ◌++◌, Bytes, codes, length, str_eq, is_empty, strncpy,
  ltb, if◌then◌else◌,
}
use outline_multiport_server.IpLock.{FileSystem}
use outline_multiport_server.Manager.{
  Server, ManagerCtx, ManagerLibrary, Answers, Manager, buf_size,
}
use outline_multiport_server.Manager.Requests.{
  get_action, get_server, parse_traffic, parse_port_ip, parse_port_only,
}
use outline_multiport_server.Manager.Servers.{add_server, remove_server, update_stat}
use outline_multiport_server.Manager.Replies.{
  list_messages, ping_messages, read_port_status, write_port_lock_ip, clear_port_lock_ip,
}

module _ (M : ManagerLibrary) (F : FileSystem) where
  open M use {table_get, table_modify, table_items}

  abbrev pub reply : Bytes → Manager M F → Manager M F
  reply text st = record st { sent = st.sent ++ (text ∷ []) }

  -- A change of the server of a port, if there is one.
  unfoldable pub on_server : Bytes → (Server → Server) → Manager M F → Manager M F
  on_server port f st = elim (table_get st.table port) [
    | none ↦ st
    | some s ↦ record st { table = table_modify st.table port f }
  ]

  unfoldable pub recv_add : Answers → ManagerCtx → Bytes → Manager M F → Manager M F
  recv_add a m buf st = elim (get_server M buf) [
    | none ↦ reply (codes "err") st
    | some server ↦
        if is_empty server.port || is_empty server.password
        then reply (codes "err") st
        else let (st', added) =
            add_server M F a m server (remove_server M F a m.working_dir server.port st) in
          reply (if added then codes "ok" else codes "port is not available") st'
  ]

  unfoldable pub recv_remove : Answers → ManagerCtx → Bytes → Manager M F → Manager M F
  recv_remove a m buf st = elim (get_server M buf) [
    | none ↦ reply (codes "err") st
    | some server ↦
        if is_empty server.port
        then reply (codes "err") st
        else reply (codes "ok") (remove_server M F a m.working_dir server.port st)
  ]

  unfoldable pub recv_stat : Answers → Bytes → Manager M F → Manager M F
  recv_stat a buf st = elim (parse_traffic M a.port_memory buf) [
    | none ↦ st
    | some (port, traffic) ↦ update_stat M F port traffic st
  ]

  unfoldable pub recv_set_ip : Answers → Bytes → Manager M F → Manager M F
  recv_set_ip a buf st = elim (parse_port_ip M a.port_memory a.ip_memory buf) [
    | none ↦ reply (codes "err") st
    | some (port, ip) ↦
        if is_empty ip
        then reply (codes "err") st
        else elim (write_port_lock_ip F port ip st.disk) [
          | none ↦ reply (codes "err") st
          | some disk ↦ reply (codes "ok") (
              on_server port (λ x. record x { locked_ip = strncpy ip 45 })
                (record st { disk = disk }))
        ]
  ]

  unfoldable pub recv_clear_ip : Answers → Bytes → Manager M F → Manager M F
  recv_clear_ip a buf st = elim (parse_port_only M a.port_memory a.ip_memory buf) [
    | none ↦ reply (codes "err") st
    | some port ↦ reply (codes "ok") (
        on_server port (λ x. record x { locked_ip = [] })
          (record st { disk = clear_port_lock_ip F port st.disk }))
  ]

  unfoldable pub recv_ip_status : Answers → Bytes → Manager M F → Manager M F
  recv_ip_status a buf st = elim (parse_port_only M a.port_memory a.ip_memory buf) [
    | none ↦ reply (codes "err") st
    | some port ↦ reply (read_port_status F st.disk port 1152) st
  ]

  -- The chain of `strcmp` on the action; `buf` is the request behind `get_action`.
  unfoldable pub dispatch : Answers → ManagerCtx → Bytes → Bytes → Manager M F → Manager M F
  dispatch a m action buf st =
      if str_eq action (codes "add")
      then recv_add a m buf st
      else if str_eq action (codes "list")
      then record st { sent = st.sent ++ list_messages m (table_items st.table) }
      else if str_eq action (codes "remove")
      then recv_remove a m buf st
      else if str_eq action (codes "stat")
      then recv_stat a buf st
      else if str_eq action (codes "ping")
      then record st { sent = st.sent ++ ping_messages (table_items st.table) }
      else if str_eq action (codes "set_ip")
      then recv_set_ip a buf st
      else if str_eq action (codes "clear_ip")
      then recv_clear_ip a buf st
      else if str_eq action (codes "ip_status")
      then recv_ip_status a buf st
      else st

  -- `manager_recv_cb` on the bytes that `recvfrom` gave; `none` is its failure.
  unfoldable pub manager_recv_cb : Answers → ManagerCtx → Option Bytes → Manager M F → Manager M F
  manager_recv_cb a m none st = st
  manager_recv_cb a m (some request) st =
      if ltb (buf_size / 2) (length request)
      then st
      else elim (get_action request) [ none ↦ st | some (action, buf) ↦ dispatch a m action buf st ]
