-- ===== src/Manager/Answered.antt =====
-- Which requests manager.c answers.
use outline_multiport_server.Base.{
  ◌≤◌, ◌≡◌, refl, sym, ap, ◌∙◌, Bool, true, false, ◌||◌, some, List, [], ◌∷◌, ◌++◌, Bytes, codes,
  length, is_empty, str_eq, str_eq→eq, subst, ltb, arith, Bool-cases, Option-cases, inl, inr,
}
use outline_multiport_server.IpLock.{FileSystem}
use outline_multiport_server.Manager.{ManagerLibrary, ManagerCtx, Server, Answers, Manager}
use outline_multiport_server.Manager.Handler.{
  recv_add, recv_set_ip, recv_remove, recv_clear_ip, recv_ip_status, dispatch, manager_recv_cb,
}
use outline_multiport_server.Manager.Replies.{
  list_messages, ping_messages, write_port_lock_ip, clear_port_lock_ip,
}
use outline_multiport_server.Manager.Requests.{
  get_action, get_server, parse_port_ip, parse_port_only,
}
use outline_multiport_server.Manager.Servers.{remove_server}
use outline_multiport_server.Manager.Table.{on_server-kept, remove_server_lem, add_server-sent}

-- The old messages, and at least one more.
abbrev pub IsMore : List Bytes → List Bytes → Type 0
IsMore old new = (x : Bytes) × (xs : List Bytes) × (new ≡ old ++ (x ∷ xs))

one_answer : (old new : List Bytes) (text : Bytes) → new ≡ old → IsMore old (new ++ (text ∷ []))
one_answer old new text same = (text, [], ap (λ s. s ++ (text ∷ [])) same)

last_answer : (old before : List Bytes) (text : Bytes) → IsMore old (old ++ (before ++ (text ∷ [])))
last_answer old [] text = (text, [], refl)
last_answer old (x ∷ xs) text = (x, xs ++ (text ∷ []), refl)

module _ (M : ManagerLibrary) (F : FileSystem) where
  abbrev pub Answered : Manager M F → Manager M F → Type 0
  Answered st st' = IsMore st.sent st'.sent

  add-Answered :
      (a : Answers) (m : ManagerCtx) (buf : Bytes) (st : Manager M F)
      → Answered st (recv_add M F a m buf st)
  unfolding recv_add
  add-Answered a m buf st = elim (Option-cases (get_server M buf)) [
    | inl e ↦ rw (e, recv_add) (one_answer st.sent st.sent _ refl)
    | inr (s, e) ↦ elim (Bool-cases (is_empty s.port || is_empty s.password)) [
      | inl nameless ↦ rw (e, nameless, recv_add) (one_answer st.sent st.sent _ refl)
      | inr named ↦
          let removed = remove_server M F a m.working_dir s.port st in
          let (table, disk, sent, ran) = remove_server_lem M F a m.working_dir s.port st in
          rw (e, named, recv_add)
            (one_answer st.sent _ _ (add_server-sent M F a m s removed ∙ sent))
    ]
  ]

  remove-Answered :
      (a : Answers) (m : ManagerCtx) (buf : Bytes) (st : Manager M F)
      → Answered st (recv_remove M F a m buf st)
  unfolding recv_remove
  remove-Answered a m buf st = elim (Option-cases (get_server M buf)) [
    | inl e ↦ rw (e, recv_remove) (one_answer st.sent st.sent _ refl)
    | inr (s, e) ↦ elim (Bool-cases (is_empty s.port)) [
      | inl nameless ↦ rw (e, nameless, recv_remove) (one_answer st.sent st.sent _ refl)
      | inr named ↦
          let (table, disk, sent, ran) = remove_server_lem M F a m.working_dir s.port st in
          rw (e, named, recv_remove) (one_answer st.sent _ _ sent)
    ]
  ]

  set_ip-Answered :
      (a : Answers) (buf : Bytes) (st : Manager M F) → Answered st (recv_set_ip M F a buf st)
  unfolding recv_set_ip
  set_ip-Answered a buf st = elim (Option-cases (parse_port_ip M a.port_memory a.ip_memory buf)) [
    | inl e ↦ rw (e, recv_set_ip) (one_answer st.sent st.sent _ refl)
    | inr ((port, ip), e) ↦ elim (Bool-cases (is_empty ip)) [
      | inl nameless ↦ rw (e, nameless, recv_set_ip) (one_answer st.sent st.sent _ refl)
      | inr named ↦ elim (Option-cases (write_port_lock_ip F port ip st.disk)) [
        | inl f ↦ rw (e, named, f, recv_set_ip) (one_answer st.sent st.sent _ refl)
        | inr (d, f) ↦
            let (disk, sent) = on_server-kept M F port _ (record st { disk = d }) in
            rw (e, named, f, recv_set_ip) (one_answer st.sent _ _ sent)
      ]
    ]
  ]

  clear_ip-Answered :
      (a : Answers) (buf : Bytes) (st : Manager M F) → Answered st (recv_clear_ip M F a buf st)
  unfolding recv_clear_ip
  clear_ip-Answered a buf st =
      elim (Option-cases (parse_port_only M a.port_memory a.ip_memory buf)) [
        | inl e ↦ rw (e, recv_clear_ip) (one_answer st.sent st.sent _ refl)
        | inr (port, e) ↦
            let (disk, sent) =
              on_server-kept M F port _ (record st { disk = clear_port_lock_ip F port st.disk }) in
            rw (e, recv_clear_ip) (one_answer st.sent _ _ sent)
      ]

  ip_status-Answered :
      (a : Answers) (buf : Bytes) (st : Manager M F) → Answered st (recv_ip_status M F a buf st)
  unfolding recv_ip_status
  ip_status-Answered a buf st =
      elim (Option-cases (parse_port_only M a.port_memory a.ip_memory buf)) [
        | inl e ↦ rw (e, recv_ip_status) (one_answer st.sent st.sent _ refl)
        | inr (port, e) ↦ rw (e, recv_ip_status) (one_answer st.sent st.sent _ refl)
      ]

  -- The actions that ask for an answer.
  abbrev pub is_question : Bytes → Bool
  is_question action =
      str_eq action (codes "add")
      || str_eq action (codes "list")
      || str_eq action (codes "remove")
      || str_eq action (codes "ping")
      || str_eq action (codes "set_ip")
      || str_eq action (codes "clear_ip")
      || str_eq action (codes "ip_status")

  list-Answered :
      (m : ManagerCtx) (servers : List Server) (old : List Bytes)
      → IsMore old (old ++ list_messages m servers)
  unfolding list_messages
  list-Answered m servers old = last_answer old _ _

  ping-Answered :
      (servers : List Server) (old : List Bytes) → IsMore old (old ++ ping_messages servers)
  unfolding ping_messages
  ping-Answered servers old = last_answer old _ _

  -- `dispatch` on one of the seven words.
  dispatch-words :
      (a : Answers) (m : ManagerCtx) (buf : Bytes) (st : Manager M F)
      → Answered st (dispatch M F a m (codes "add") buf st)
        × Answered st (dispatch M F a m (codes "list") buf st)
        × Answered st (dispatch M F a m (codes "remove") buf st)
        × Answered st (dispatch M F a m (codes "ping") buf st)
        × Answered st (dispatch M F a m (codes "set_ip") buf st)
        × Answered st (dispatch M F a m (codes "clear_ip") buf st)
        × Answered st (dispatch M F a m (codes "ip_status") buf st)
  unfolding dispatch str_eq
  dispatch-words a m buf st = (
    add-Answered a m buf st,
    list-Answered m (M.table_items st.table) st.sent,
    remove-Answered a m buf st,
    ping-Answered (M.table_items st.table) st.sent,
    set_ip-Answered a buf st,
    clear_ip-Answered a buf st,
    ip_status-Answered a buf st,
  )

  dispatch-Answered :
      (a : Answers) (m : ManagerCtx) (action buf : Bytes) (st : Manager M F)
      → is_question action ≡ true
      → Answered st (dispatch M F a m action buf st)
  dispatch-Answered a m action buf st question =
      let (add, list, remove, ping, set_ip, clear_ip, ip_status) = dispatch-words a m buf st in
      let word : (w : Bytes)
          → str_eq action w ≡ true
          → Answered st (dispatch M F a m w buf st)
          → Answered st (dispatch M F a m action buf st) =
        λ w e h.
          subst (λ v. Answered st (dispatch M F a m v buf st)) (sym (str_eq→eq action w e)) h in
      elim (Bool-cases (str_eq action (codes "add"))) [
        | inl e ↦ word _ e add
        | inr e1 ↦ elim (Bool-cases (str_eq action (codes "list"))) [
          | inl e ↦ word _ e list
          | inr e2 ↦ elim (Bool-cases (str_eq action (codes "remove"))) [
            | inl e ↦ word _ e remove
            | inr e3 ↦ elim (Bool-cases (str_eq action (codes "ping"))) [
              | inl e ↦ word _ e ping
              | inr e4 ↦ elim (Bool-cases (str_eq action (codes "set_ip"))) [
                | inl e ↦ word _ e set_ip
                | inr e5 ↦ elim (Bool-cases (str_eq action (codes "clear_ip"))) [
                  | inl e ↦ word _ e clear_ip
                  | inr e6 ↦ word _ (rw (e1, e2, e3, e4, e5, e6) at question) ip_status
                ]
              ]
            ]
          ]
        ]
      ]

  -- A request of at most 32767 bytes whose action is `add`, `list`, `remove`, `ping`, `set_ip`,
  -- `clear_ip` or `ip_status` is answered by at least one message, whatever stands behind the
  -- action; and what was sent before stays.
  pub recv-Answered :
      (a : Answers) (m : ManagerCtx) (request action buf : Bytes) (st : Manager M F)
      → length request ≤ 32767
      → get_action request ≡ some (action, buf)
      → is_question action ≡ true
      → Answered st (manager_recv_cb M F a m (some request) st)
  unfolding manager_recv_cb
  recv-Answered a m request action buf st short read question =
      let small : ltb 32767 (length request) ≡ false = ground arith in
      rw (small, read, manager_recv_cb) (dispatch-Answered a m action buf st question)
