-- ===== src/Relay/Downward.antt =====
-- The callbacks of server.c that move bytes from the remote to the client keep the flow.
use outline_multiport_server.Base.{
  ◌≡◌, refl, sym, ap, ◌∙◌, ◌⊎◌, inl, inr, true, false, some, ◌++◌, Bytes, take, ◌==◌, if◌then◌else◌,
  append-nil, append_assoc, Bool-cases, Option-cases, some-injective, subst, if_true, if_false,
}
use outline_multiport_server.Aead.{
  CryptoResult, crypto_ok, crypto_error, crypto_need_more, crypto_abort,
}
use outline_multiport_server.Relay.{
  store, stage_stream, StreamCrypto, Remote, Session, Sending, Received, got, end_of_stream,
  recv_again, recv_failed,
}
use outline_multiport_server.Relay.Events.{give_back, answer_in, remote_recv_cb, server_send_cb}
use outline_multiport_server.Relay.Sockets.{Sent, first_send, next_send}
use outline_multiport_server.Relay.Flow.{
  Flow, closed, asking, resolving, connecting, streaming, stopped, IsUp, IsFront, Flow-IsFront,
  close-Flow, joined_up,
}
use outline_multiport_server.Relay.Sends.{rest_of, first_send_lem, next_send_lem, pending-store}

module _ (K : StreamCrypto) where
  -- `send` of bytes that were just sealed.
  give_back-Flow :
      (sending : Sending) (r : Remote) (s : Session K) (old c : Bytes)
      → s.stage ≡ stage_stream
      → r.connected ≡ true
      → r.recv_on ≡ true
      → s.send_on ≡ false
      → take s.buf.len s.buf.data_bytes ≡ c
      → s.returned ≡ old
      → s.sealed ≡ old ++ c
      → IsUp K s r
      → IsFront K s
      → Flow K (give_back K sending r s)
  unfolding give_back
  give_back-Flow sending r s old c st co rr so text down all up front =
      elim (Option-cases (first_send sending s.buf)) [
        | inl e ↦ rw (e, give_back) (close-Flow K s front)
        | inr (sent, e) ↦
            let both =
              joined_up K s.returned sent.taken (rest_of sent) c old down
                (first_send_lem sending s.buf sent e ∙ text)
              ∙ sym all in
            rw (e, give_back) (go sent both (Bool-cases sent.all_sent))
      ]
    where
      go :
          (sent : Sent)
          → (s.returned ++ sent.taken) ++ rest_of sent ≡ s.sealed
          → (sent.all_sent ≡ true) ⊎ (sent.all_sent ≡ false)
          → Flow K (record s {
            buf = sent.left;
            send_on = if sent.all_sent then s.send_on else true;
            remote = some (record r { recv_on = if sent.all_sent then r.recv_on else false });
            returned = s.returned ++ sent.taken;
          })
      go sent both (inl whole) = streaming _ st refl co up (
          inl (
            if_true sent.all_sent _ _ whole ∙ rr,
            if_true sent.all_sent _ _ whole ∙ so,
            sym (append-nil _)
                ∙ ap (λ t. (s.returned ++ sent.taken) ++ t) (sym (if_true sent.all_sent _ _ whole))
                ∙ both,
          ))
      go sent both (inr part) = streaming _ st refl co up (
          inr (
            if_false sent.all_sent _ _ part,
            if_false sent.all_sent _ _ part,
            ap (λ t. (s.returned ++ sent.taken) ++ t) (sym (if_false sent.all_sent _ _ part))
                ∙ both,
          ))

  answer_in-Flow :
      (t : Bytes) (sending : Sending) (r : Remote) (s : Session K)
      → s.stage ≡ stage_stream
      → r.connected ≡ true
      → r.recv_on ≡ true
      → s.send_on ≡ false
      → s.returned ≡ s.sealed
      → IsUp K s r
      → IsFront K s
      → Flow K (answer_in K t sending r s)
  unfolding answer_in
  answer_in-Flow t sending r s st co rr so down up front =
      go (K.encrypt (s.e_ctx, s.shared) t).1 refl
    where
      read : Session K
      read = record s {
        e_ctx = (K.encrypt (s.e_ctx, s.shared) t).0.0;
        shared = (K.encrypt (s.e_ctx, s.shared) t).0.1;
        buf = store t s.buf;
      }

      go :
          (result : CryptoResult)
          → (K.encrypt (s.e_ctx, s.shared) t).1 ≡ result
          → Flow K (answer_in K t sending r s)
      go (crypto_ok c) e =
          rw (e, answer_in)
            (give_back-Flow sending r
              (record read { buf = store c (store t s.buf); sealed = s.sealed ++ c }) s.sealed c st
              co rr so (pending-store c (store t s.buf)) down refl up front)
      go crypto_error e = rw (e, answer_in) (close-Flow K read front)
      go crypto_need_more e = rw (e, answer_in) (close-Flow K read front)
      go crypto_abort e = rw (e, answer_in) (close-Flow K read front)

  -- `remote_recv_cb` on a connection whose remote is read.
  pub remote_recv-Flow :
      (received : Received) (sending : Sending) (r : Remote) (s : Session K)
      → Flow K s
      → s.alive ≡ true
      → s.remote ≡ some r
      → r.recv_on ≡ true
      → Flow K (remote_recv_cb K received sending r s)
  unfolding remote_recv_cb
  remote_recv-Flow recv_again sending r s h live at on = h
  remote_recv-Flow recv_failed sending r s h live at on = close-Flow K s (Flow-IsFront K s h)
  remote_recv-Flow end_of_stream sending r s h live at on = close-Flow K s (Flow-IsFront K s h)
  remote_recv-Flow (got t) sending r s h live at on = go h
    where
      same : (x : Remote) → s.remote ≡ some x → x ≡ r
      same x rm = some-injective x r (sym rm ∙ at)

      off : (x : Remote) → s.remote ≡ some x → x.recv_on ≡ true
      off x rm = ap (λ (y : Remote). y.recv_on) (same x rm) ∙ on

      go : Flow K s → Flow K (remote_recv_cb K (got t) sending r s)
      go (closed dead front) = absurd (cc)
      go (asking st rm so up down) = absurd (cc)
      go (resolving st rm ro so up down) = absurd (cc)
      go (connecting x st rm rs rr ro so up down) = let is_on = off x rm in absurd (cc)
      go (streaming x st rm co up (inl (rr, so, down))) =
          let front = Flow-IsFront K s (streaming x st rm co up (inl (rr, so, down))) in
          subst (λ y. Flow K (remote_recv_cb K (got t) sending y s)) (same x rm)
            (rw (st, remote_recv_cb) (answer_in-Flow t sending x s st co rr so down up front))
      go (streaming x st rm co up (inr (rr, so, down))) = let is_on = off x rm in absurd (cc)
      go (stopped st idle up) = rw (st, remote_recv_cb) (stopped st idle up)

  -- `server_send_cb` on a connection whose client is waited for.
  pub server_send-Flow :
      (sending : Sending) (s : Session K)
      → Flow K s
      → s.alive ≡ true
      → s.send_on ≡ true
      → Flow K (server_send_cb K sending s)
  unfolding server_send_cb
  server_send-Flow sending s h live on = elim (Option-cases s.remote) [
    | inl alone ↦ rw (alone, server_send_cb) (close-Flow K s front)
    | inr (r, at) ↦ elim (Bool-cases (s.buf.len == 0)) [
      | inl nothing ↦ rw (at, nothing, server_send_cb) (close-Flow K s front)
      | inr something ↦ elim (Option-cases (next_send sending s.buf)) [
        | inl e ↦ rw (at, something, e, server_send_cb) (close-Flow K s front)
        | inr (sent, e) ↦
            rw (at, something, e, server_send_cb) (go r at sent e h (Bool-cases sent.all_sent))
      ]
    ]
  ]
    where
      front : IsFront K s
      front = Flow-IsFront K s h

      go :
          (r : Remote)
          → s.remote ≡ some r
          → (sent : Sent) → next_send sending s.buf ≡ some sent
          → Flow K s
          → (sent.all_sent ≡ true) ⊎ (sent.all_sent ≡ false)
          → Flow K (record s {
            buf = sent.left;
            send_on = if sent.all_sent then false else s.send_on;
            remote = some (record r { recv_on = if sent.all_sent then true else r.recv_on });
            returned = s.returned ++ sent.taken;
          })
      go r at sent e (closed dead front) some_sent = absurd (cc)
      go r at sent e (asking st rm so up down) some_sent = absurd (cc)
      go r at sent e (resolving st rm ro so up down) some_sent = absurd (cc)
      go r at sent e (connecting x st rm rs rr ro so up down) some_sent = absurd (cc)
      go r at sent e (streaming x st rm co up (inl (rr, so, down))) some_sent = absurd (cc)
      go r at sent e (stopped st idle up) some_sent =
          stopped st
            (λ x same. ap (λ (y : Remote). y.send_on) (sym (some-injective _ x same)) ∙ idle r at)
            up
      go r at sent e (streaming x st rm co up (inr (rr, so, down))) some_sent =
          let same = some-injective x r (sym rm ∙ at) in
          let both =
            append_assoc s.returned sent.taken (rest_of sent)
            ∙ ap (λ t. s.returned ++ t) (next_send_lem sending s.buf sent e)
            ∙ down in
          streaming _ st refl (ap (λ (y : Remote). y.connected) (sym same) ∙ co)
            (subst (IsUp K s) same up)
            (elim some_sent [
              | inl whole ↦ inl (
                if_true sent.all_sent _ _ whole,
                if_true sent.all_sent _ _ whole,
                sym (append-nil _)
                    ∙ ap (λ t. (s.returned ++ sent.taken) ++ t)
                        (sym (if_true sent.all_sent _ _ whole))
                    ∙ both,
              )
              | inr part ↦ inr (
                if_false sent.all_sent _ _ part ∙ ap (λ (y : Remote). y.recv_on) (sym same) ∙ rr,
                if_false sent.all_sent _ _ part ∙ on,
                ap (λ t. (s.returned ++ sent.taken) ++ t) (sym (if_false sent.all_sent _ _ part))
                    ∙ both,
              )
            ])
