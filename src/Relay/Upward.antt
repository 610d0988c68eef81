-- ===== src/Relay/Upward.antt =====
-- `remote_send_cb` of server.c, which sends what waits for the remote, keeps the flow.
use outline_multiport_server.Base.{
  ◌≡◌, refl, sym, ap, ◌∙◌, ◌⊎◌, inl, inr, Bool, true, false, some, ◌++◌, Bytes, take, drop, ◌==◌,
  append-nil, append_assoc, Bool-cases, Option-cases, some-injective, subst, arith, if_true,
  if_false,
}
use outline_multiport_server.Aead.{Buffer}
use outline_multiport_server.Relay.{
  pending, Stage, stage_init, stage_resolve, stage_stream, StreamCrypto, Remote, Session, Sending,
}
use outline_multiport_server.Relay.Events.{send_rest, remote_send_cb}
use outline_multiport_server.Relay.Sockets.{next_send}
use outline_multiport_server.Relay.Flow.{
  Flow, closed, asking, resolving, connecting, streaming, stopped, IsDown, IsFront, close-Flow,
}
use outline_multiport_server.Relay.Sends.{rest_of, next_send_lem}

module _ (K : StreamCrypto) where
  -- `send` of what waits in the remote's buffer, where the remote's reading is as it was or starts.
  send_rest-Flow :
      (sending : Sending) (r : Remote) (s : Session K)
      → r.send_on ≡ true
      → s.forwarded ++ pending r.buf ≡ s.opened
      → IsFront K s
      → ((b : Buffer) (f : Bytes)
          → f ++ pending b ≡ s.opened
          → Flow K (record s { remote = some (record r { buf = b }); forwarded = f }))
      → ((b : Buffer) (f : Bytes)
          → f ≡ s.opened
          → Flow K (record s {
            stage = stage_stream;
            remote = some (record r {
              buf = b;
              send_on = false;
              recv_on = elim s.stage [ stage_stream ↦ r.recv_on | _ ↦ true ];
            });
            recv_on = true;
            forwarded = f;
          }))
      → Flow K (send_rest K sending r s)
  unfolding send_rest
  send_rest-Flow sending r s rs up front more done = elim (Bool-cases (r.buf.len == 0)) [
    | inl nothing ↦ rw (nothing, send_rest) (close-Flow K s front)
    | inr something ↦ elim (Option-cases (next_send sending r.buf)) [
      | inl e ↦ rw (something, e, send_rest) (close-Flow K s front)
      | inr (sent, e) ↦
          let both =
            append_assoc s.forwarded sent.taken (rest_of sent)
            ∙ ap (λ t. s.forwarded ++ t) (next_send_lem sending r.buf sent e)
            ∙ up in
          elim (Bool-cases sent.all_sent) [
            | inl whole ↦
                rw (something, e, whole, send_rest)
                  (done sent.left (s.forwarded ++ sent.taken) (
                    sym (append-nil _)
                    ∙ ap (λ t. (s.forwarded ++ sent.taken) ++ t)
                        (sym (if_true sent.all_sent _ _ whole))
                    ∙ both))
            | inr part ↦
                rw (something, e, part, send_rest)
                  (more sent.left (s.forwarded ++ sent.taken) (
                    ap (λ t. (s.forwarded ++ sent.taken) ++ t)
                      (sym (if_false sent.all_sent _ _ part))
                    ∙ both))
          ]
    ]
  ]

  starts :
      (stage : Stage) (b : Bool)
      → (stage ≡ stage_init) ⊎ (stage ≡ stage_resolve)
      → Path Bool (elim stage [ stage_stream ↦ b | _ ↦ true ]) true
  starts stage b (inl st) = rw st refl
  starts stage b (inr st) = rw st refl

  -- The remote of a request takes what waits for it.
  connecting-rest :
      (sending : Sending) (r : Remote) (s : Session K)
      → (s.stage ≡ stage_init) ⊎ (s.stage ≡ stage_resolve)
      → r.connected ≡ true
      → r.send_on ≡ true
      → r.recv_on ≡ false
      → s.recv_on ≡ false
      → s.send_on ≡ false
      → s.forwarded ++ pending r.buf ≡ s.opened
      → s.returned ≡ s.sealed
      → Flow K (send_rest K sending r s)
  connecting-rest sending r s st co rs rr ro so up down =
      send_rest-Flow sending r s rs up (pending r.buf, up)
        (λ b f h. connecting (record r { buf = b }) st refl rs rr ro so h down)
        (λ b f h.
          streaming _ refl refl co (inl (refl, refl, h))
            (inl (starts s.stage r.recv_on st, so, down)))

  connecting-send :
      (peer : Bool) (sending : Sending) (r : Remote) (s : Session K)
      → (s.stage ≡ stage_init) ⊎ (s.stage ≡ stage_resolve)
      → r.send_on ≡ true
      → r.recv_on ≡ false
      → s.recv_on ≡ false
      → s.send_on ≡ false
      → s.forwarded ++ pending r.buf ≡ s.opened
      → s.returned ≡ s.sealed
      → Flow K (remote_send_cb K peer sending r s)
  unfolding remote_send_cb
  connecting-send peer sending r s st rs rr ro so up down = elim (Bool-cases r.connected) [
    | inl co ↦ rw (co, remote_send_cb) (connecting-rest sending r s st co rs rr ro so up down)
    | inr fresh ↦ elim (Bool-cases peer) [
      | inr unreachable ↦
          rw (fresh, unreachable, remote_send_cb) (close-Flow K s (pending r.buf, up))
      | inl there ↦ elim (Bool-cases (r.buf.len == 0)) [
        | inl nothing ↦
            let zero : r.buf.len ≡ 0 = ground arith in
            let none_left = ap (λ k. take k (drop r.buf.idx r.buf.data_bytes)) zero in
            rw (fresh, there, nothing, remote_send_cb)
              (streaming _ refl refl refl
                (inl (
                  refl,
                  refl,
                  sym (append-nil s.forwarded) ∙ ap (λ t. s.forwarded ++ t) (sym none_left) ∙ up,
                ))
                (inl (refl, so, down)))
        | inr something ↦
            rw (fresh, there, remote_send_cb)
              (subst (Flow K) (sym (if_false (r.buf.len == 0) _ _ something)) (
                connecting-rest sending (record r { connected = true }) s st refl rs rr ro so up
                  down))
      ]
    ]
  ]

  same_recv :
      (stage : Stage) (b : Bool)
      → stage ≡ stage_stream
      → Path Bool (elim stage [ stage_stream ↦ b | _ ↦ true ]) b
  same_recv stage b st = rw st refl

  streaming-send :
      (peer : Bool) (sending : Sending) (r : Remote) (s : Session K)
      → s.stage ≡ stage_stream
      → s.remote ≡ some r
      → r.connected ≡ true
      → s.recv_on ≡ false
      → r.send_on ≡ true
      → s.forwarded ++ pending r.buf ≡ s.opened
      → IsDown K s r
      → Flow K (remote_send_cb K peer sending r s)
  unfolding remote_send_cb
  streaming-send peer sending r s st rm co ro rs up down =
      rw (co, remote_send_cb)
        (send_rest-Flow sending r s rs up (pending r.buf, up)
          (λ b f h. streaming (record r { buf = b }) st refl co (inr (ro, rs, h)) down)
          (λ b f h. streaming _ refl refl co (inl (refl, refl, h)) (kept down)))
    where
      again : Path Bool (elim s.stage [ stage_stream ↦ r.recv_on | _ ↦ true ]) r.recv_on
      again = same_recv s.stage r.recv_on st

      kept :
          IsDown K s r
          → IsDown K s (record r { recv_on = elim s.stage [ stage_stream ↦ r.recv_on | _ ↦ true ] })
      kept (inl (a, b, c)) = inl (again ∙ a, b, c)
      kept (inr (a, b, c)) = inr (again ∙ a, b, c)

  -- `remote_send_cb` on a connection whose remote is waited for.
  pub remote_send-Flow :
      (peer : Bool) (sending : Sending) (r : Remote) (s : Session K)
      → Flow K s
      → s.alive ≡ true
      → s.remote ≡ some r
      → r.send_on ≡ true
      → Flow K (remote_send_cb K peer sending r s)
  remote_send-Flow peer sending r s h live at on = go h
    where
      for :
          (x : Remote)
          → s.remote ≡ some x
          → Flow K (remote_send_cb K peer sending x s)
          → Flow K (remote_send_cb K peer sending r s)
      for x rm f =
          subst (λ y. Flow K (remote_send_cb K peer sending y s)) (some-injective x r (sym rm ∙ at))
            f

      go : Flow K s → Flow K (remote_send_cb K peer sending r s)
      go (closed dead front) = absurd (cc)
      go (asking st rm so up down) = absurd (cc)
      go (resolving st rm ro so up down) = absurd (cc)
      go (connecting x st rm rs rr ro so up down) =
          for x rm (connecting-send peer sending x s st rs rr ro so up down)
      go (streaming x st rm co (inl (ro, rs, up)) down) =
          let same = ap (λ (y : Remote). y.send_on) (some-injective x r (sym rm ∙ at)) in
          absurd (cc)
      go (streaming x st rm co (inr (ro, rs, up)) down) =
          for x rm (streaming-send peer sending x s st rm co ro rs up down)
      go (stopped st idle up) = let off = idle r at in absurd (cc)
