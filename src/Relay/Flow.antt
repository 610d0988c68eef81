-- ===== src/Relay/Flow.antt =====
-- The state of one connection of server.c: which watchers are on, and where the bytes are that were
-- received and not yet sent on.
use outline_multiport_server.Base.{
  ◌≡◌, refl, sym, ap, ◌∙◌, ◌⊎◌, inl, inr, true, false, none, some, [], ◌++◌, Bytes, take,
  if◌then◌else◌, append-nil, append_assoc, Bool-cases, Option-cases, if_true, if_false,
}
use outline_multiport_server.Relay.{
  pending, stage_init, stage_resolve, stage_stream, stage_stop, Stage, StreamCrypto, Remote,
  Session, Sending,
}
use outline_multiport_server.Relay.Events.{close_both, hang_up, stop_server, forward, new_server}
use outline_multiport_server.Relay.Sockets.{Sent, first_send}
use outline_multiport_server.Relay.Sends.{rest_of, first_send_lem}

module _ (K : StreamCrypto) where
  -- To the remote: all is sent and the client is read, or the rest waits in the remote's buffer and
  -- the client is not read.
  abbrev pub IsUp : Session K → Remote → Type 0
  IsUp s r =
      ((s.recv_on ≡ true) × (r.send_on ≡ false) × (s.forwarded ≡ s.opened))
      ⊎ ((s.recv_on ≡ false) × (r.send_on ≡ true) × (s.forwarded ++ pending r.buf ≡ s.opened))

  -- To the client, in the same way.
  abbrev pub IsDown : Session K → Remote → Type 0
  IsDown s r =
      ((r.recv_on ≡ true) × (s.send_on ≡ false) × (s.returned ≡ s.sealed))
      ⊎ ((r.recv_on ≡ false) × (s.send_on ≡ true) × (s.returned ++ pending s.buf ≡ s.sealed))

  -- The first bytes of what was opened have been forwarded.
  abbrev pub IsFront : Session K → Type 0
  IsFront s = (rest : Bytes) × (s.forwarded ++ rest ≡ s.opened)

  pub data Flow (s : Session K) : Type 0 where
    closed : s.alive ≡ false → IsFront s → Flow s
    asking :
        s.stage ≡ stage_init
        → s.remote ≡ none
        → s.send_on ≡ false
        → s.forwarded ≡ s.opened
        → s.returned ≡ s.sealed
        → Flow s
    resolving :
        s.stage ≡ stage_resolve
        → s.remote ≡ none
        → s.recv_on ≡ false
        → s.send_on ≡ false
        → s.forwarded ++ pending s.buf ≡ s.opened
        → s.returned ≡ s.sealed
        → Flow s
    connecting :
        (r : Remote)
        → (s.stage ≡ stage_init) ⊎ (s.stage ≡ stage_resolve)
        → s.remote ≡ some r
        → r.send_on ≡ true
        → r.recv_on ≡ false
        → s.recv_on ≡ false
        → s.send_on ≡ false
        → s.forwarded ++ pending r.buf ≡ s.opened
        → s.returned ≡ s.sealed
        → Flow s
    streaming :
        (r : Remote)
        → s.stage ≡ stage_stream
        → s.remote ≡ some r
        → r.connected ≡ true
        → IsUp s r
        → IsDown s r
        → Flow s
    stopped :
        s.stage ≡ stage_stop
        → ((r : Remote) → s.remote ≡ some r → r.send_on ≡ false)
        → s.forwarded ≡ s.opened
        → Flow s

  pub Flow-IsFront : (s : Session K) → Flow s → IsFront s
  Flow-IsFront s (closed dead front) = front
  Flow-IsFront s (asking st rm so up down) = ([], append-nil s.forwarded ∙ up)
  Flow-IsFront s (resolving st rm ro so up down) = (pending s.buf, up)
  Flow-IsFront s (connecting r st rm rs rr ro so up down) = (pending r.buf, up)
  Flow-IsFront s (streaming r st rm co (inl (a, b, up)) down) = ([], append-nil s.forwarded ∙ up)
  Flow-IsFront s (streaming r st rm co (inr (a, b, up)) down) = (pending r.buf, up)
  Flow-IsFront s (stopped st rm up) = ([], append-nil s.forwarded ∙ up)

  pub close-Flow : (s : Session K) → IsFront s → Flow (close_both K s)
  close-Flow s front = closed refl front

  pub hang_up-Flow : (g : Stage) (s : Session K) → IsFront s → Flow (hang_up K g s)
  hang_up-Flow stage_stream s front = closed refl front
  hang_up-Flow stage_init s front = closed refl front
  hang_up-Flow stage_resolve s front = closed refl front
  hang_up-Flow stage_stop s front = closed refl front

  -- The other connections change what is shared.
  pub shared-Flow :
      (s : Session K) (shared : K.Shared) → Flow s → Flow (record s { shared = shared })
  shared-Flow s shared (closed dead front) = closed dead front
  shared-Flow s shared (asking st rm so up down) = asking st rm so up down
  shared-Flow s shared (resolving st rm ro so up down) = resolving st rm ro so up down
  shared-Flow s shared (connecting r st rm rs rr ro so up down) =
      connecting r st rm rs rr ro so up down
  shared-Flow s shared (streaming r st rm co up down) = streaming r st rm co up down
  shared-Flow s shared (stopped st rm up) = stopped st rm up

  -- A remote whose connection is closed is closed too.
  pub orphan-Flow :
      (s : Session K) → s.alive ≡ false → IsFront s → Flow (record s { remote = none })
  orphan-Flow s dead front = closed dead front

  pub stop-Flow :
      (s : Session K)
      → ((r : Remote) → s.remote ≡ some r → r.send_on ≡ false)
      → s.forwarded ≡ s.opened
      → Flow (stop_server K s)
  stop-Flow s idle up = stopped refl idle up

  pub new_server-Flow :
      (e : K.EncryptCtx) (d : K.DecryptCtx) (f : K.Shared) → Flow (new_server K e d f)
  new_server-Flow e d f = asking refl refl refl refl refl

  -- The bytes that one send leaves follow those that it took.
  pub joined_up :
      (old taken rest text all : Bytes)
      → old ≡ all
      → taken ++ rest ≡ text
      → (old ++ taken) ++ rest ≡ all ++ text
  joined_up old taken rest text all h sent =
      append_assoc old taken rest ∙ ap (λ t. old ++ t) sent ∙ ap (λ o. o ++ text) h

  -- `send` of a text that was just opened.
  pub forward-Flow :
      (sending : Sending) (r : Remote) (s : Session K) (old p : Bytes)
      → s.stage ≡ stage_stream
      → r.connected ≡ true
      → s.recv_on ≡ true
      → r.send_on ≡ false
      → take r.buf.len r.buf.data_bytes ≡ p
      → s.forwarded ≡ old
      → s.opened ≡ old ++ p
      → IsDown s r
      → Flow (forward K sending r s)
  unfolding forward
  forward-Flow sending r s old p st co ro rs text up all down =
      elim (Option-cases (first_send sending r.buf)) [
        | inl e ↦ rw (e, forward) (close-Flow s (p, ap (λ f. f ++ p) up ∙ sym all))
        | inr (sent, e) ↦
            let both =
              joined_up s.forwarded sent.taken (rest_of sent) p old up
                (first_send_lem sending r.buf sent e ∙ text)
              ∙ sym all in
            rw (e, forward) (go sent both (Bool-cases sent.all_sent))
      ]
    where
      go :
          (sent : Sent)
          → (s.forwarded ++ sent.taken) ++ rest_of sent ≡ s.opened
          → (sent.all_sent ≡ true) ⊎ (sent.all_sent ≡ false)
          → Flow (record s {
            remote =
                some (record r {
                  buf = sent.left;
                  send_on = if sent.all_sent then r.send_on else true;
                });
            recv_on = if sent.all_sent then s.recv_on else false;
            forwarded = s.forwarded ++ sent.taken;
          })
      go sent both (inl whole) =
          streaming _ st refl co
            (inl (
              if_true sent.all_sent _ _ whole ∙ ro,
              if_true sent.all_sent _ _ whole ∙ rs,
              sym (append-nil _)
                  ∙ ap (λ t. (s.forwarded ++ sent.taken) ++ t)
                      (sym (if_true sent.all_sent _ _ whole))
                  ∙ both,
            ))
            down
      go sent both (inr part) =
          streaming _ st refl co
            (inr (
              if_false sent.all_sent _ _ part,
              if_false sent.all_sent _ _ part,
              ap (λ t. (s.forwarded ++ sent.taken) ++ t) (sym (if_false sent.all_sent _ _ part))
                  ∙ both,
            ))
            down
