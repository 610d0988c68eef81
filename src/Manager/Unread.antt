-- ===== src/Manager/Unread.antt =====
-- What manager.c makes of a request whose text it cannot read.
use outline_multiport_server.Base.{
  ℕ, All, ◌≤◌, ◌≡◌, refl, ap, ◌∙◌, Bool, true, false, ◌||◌, none, some, [], ◌∷◌, ◌++◌, Bytes, codes,
  length, str_eq, str_eq→eq, ltb, arith, Bool-cases, inl, inr,
}
use outline_multiport_server.IpLock.{FileSystem}
use outline_multiport_server.Manager.{ManagerLibrary, ManagerCtx, Answers, Manager}
use outline_multiport_server.Manager.Handler.{
  recv_add, recv_set_ip, recv_remove, recv_clear_ip, recv_ip_status, recv_stat, dispatch,
  manager_recv_cb, reply,
}
use outline_multiport_server.Manager.Requests.{
  parsed, get_server, parse_traffic, parse_port_ip, parse_port_only,
}
use outline_multiport_server.Manager.Fields.{IsCString}
use outline_multiport_server.Manager.Words.{IsLetter, request-parts}

module _ (M : ManagerLibrary) (F : FileSystem) where
  unread_lem :
      (a : Answers) (buf : Bytes)
      → parsed M buf ≡ none
      → (get_server M buf ≡ none)
        × (parse_traffic M a.port_memory buf ≡ none)
        × (parse_port_ip M a.port_memory a.ip_memory buf ≡ none)
        × (parse_port_only M a.port_memory a.ip_memory buf ≡ none)
  unfolding get_server parse_traffic parse_port_ip parse_port_only
  unread_lem a buf unread = (
    rw (unread, get_server) refl,
    rw (unread, parse_traffic) refl,
    rw (unread, parse_port_ip) refl,
    rw (unread, parse_port_only) refl,
  )

  unread-handlers :
      (a : Answers) (m : ManagerCtx) (buf : Bytes) (st : Manager M F)
      → parsed M buf ≡ none
      → let err = reply M F (codes "err") st in
        (recv_add M F a m buf st ≡ err)
        × (recv_remove M F a m buf st ≡ err)
        × (recv_set_ip M F a buf st ≡ err)
        × (recv_clear_ip M F a buf st ≡ err)
        × (recv_ip_status M F a buf st ≡ err)
        × (recv_stat M F a buf st ≡ st)
  unfolding recv_add recv_remove recv_set_ip recv_clear_ip recv_ip_status recv_stat
  unread-handlers a m buf st unread =
      let (server, traffic, both, port) = unread_lem a buf unread in
      (
        rw (server, recv_add) refl,
        rw (server, recv_remove) refl,
        rw (both, recv_set_ip) refl,
        rw (port, recv_clear_ip) refl,
        rw (port, recv_ip_status) refl,
        rw (traffic, recv_stat) refl,
      )

  -- The actions that need a text and answer without one.
  abbrev pub is_text_question : Bytes → Bool
  is_text_question action =
      str_eq action (codes "add")
      || str_eq action (codes "remove")
      || str_eq action (codes "set_ip")
      || str_eq action (codes "clear_ip")
      || str_eq action (codes "ip_status")

  dispatch-unread :
      (a : Answers) (m : ManagerCtx) (action buf : Bytes) (st : Manager M F)
      → is_text_question action ≡ true
      → parsed M buf ≡ none
      → dispatch M F a m action buf st ≡ reply M F (codes "err") st
  unfolding dispatch str_eq
  dispatch-unread a m action buf st question unread =
      let (add, remove, set_ip, clear_ip, ip_status, stat) = unread-handlers a m buf st unread in
      let word : (w : Bytes)
          → str_eq action w ≡ true
          → dispatch M F a m w buf st ≡ reply M F (codes "err") st
          → dispatch M F a m action buf st ≡ reply M F (codes "err") st =
        λ w e h. ap (λ v. dispatch M F a m v buf st) (str_eq→eq action w e) ∙ h in
      elim (Bool-cases (str_eq action (codes "add"))) [
        | inl e ↦ word _ e add
        | inr e1 ↦ elim (Bool-cases (str_eq action (codes "remove"))) [
          | inl e ↦ word _ e remove
          | inr e2 ↦ elim (Bool-cases (str_eq action (codes "set_ip"))) [
            | inl e ↦ word _ e set_ip
            | inr e3 ↦ elim (Bool-cases (str_eq action (codes "clear_ip"))) [
              | inl e ↦ word _ e clear_ip
              | inr e4 ↦ word _ (rw (e1, e2, e3, e4) at question) ip_status
            ]
          ]
        ]
      ]

  -- With a parser that reads no value from the empty text: a request of at most 32767 bytes, whose
  -- action of letters is `add`, `remove`, `set_ip`, `clear_ip` or `ip_status`, and whose text begins
  -- with its brace right behind the colon, is answered "err" and changes nothing else, whatever the
  -- text is.
  pub recv-unspaced :
      (a : Answers) (m : ManagerCtx) (w : ℕ) (word text : Bytes) (st : Manager M F)
      → M.json_parse_ex [] ≡ none
      → All IsLetter (w ∷ word)
      → IsCString text
      → is_text_question (w ∷ word) ≡ true
      → let request = (w ∷ word) ++ (codes ":" ++ (codes "{" ++ text)) in
        length request ≤ 32767
        → manager_recv_cb M F a m (some request) st ≡ reply M F (codes "err") st
  unfolding manager_recv_cb parsed
  recv-unspaced a m w word text st refused letters no_nul question short =
      let request : Bytes = (w ∷ word) ++ (codes ":" ++ (codes "{" ++ text)) in
      let (buf, action, behind) = request-parts false w word text letters no_nul in
      let unread : parsed M buf ≡ none = rw (behind, parsed) refused in
      let small : ltb 32767 (length request) ≡ false = ground arith in
      rw (small, action, manager_recv_cb) (dispatch-unread a m (w ∷ word) buf st question unread)
