-- ===== src/Relay/Runs.antt =====
-- Runs of one connection of server.c: every sequence of events from its start.
use outline_multiport_server.Base.{
  ℕ, ◌≡◌, ◌∙◌, inl, inr, Bool, true, false, none, some, ◌++◌, Bytes, some-injective, sym, subst,
}
use outline_multiport_server.Relay.{
  stage_resolve, stage_stream, StreamCrypto, Remote, Session, Sending, Received,
}
use outline_multiport_server.Relay.Events.{
  Dial, server_recv_cb, server_send_cb, remote_recv_cb, remote_send_cb, resolv_cb,
  server_timeout_cb, new_server,
}
use outline_multiport_server.Relay.Downward.{remote_recv-Flow, server_send-Flow}
use outline_multiport_server.Relay.Flow.{
  Flow, closed, asking, resolving, connecting, streaming, stopped, IsUp, IsDown, Flow-IsFront,
  close-Flow, shared-Flow, orphan-Flow, new_server-Flow,
}
use outline_multiport_server.Relay.Header.{RelayHeader}
use outline_multiport_server.Relay.Asking.{server_recv-Flow, resolv-Flow}
use outline_multiport_server.Relay.Upward.{remote_send-Flow}

module _ (K : StreamCrypto) (header : Bytes → ℕ → RelayHeader) where
  -- What the event loop calls: the callback of a socket whose watcher is on, the resolver's answer
  -- to a connection that waits for it, or the timer. The system answers anything. The other
  -- connections of the program change what is shared, in any way; and a remote that is left without
  -- its client is closed at its own event.
  pub data Event : Session K → Session K → Type 0 where
    client_bytes :
        (s : Session K) (received : Received) (dial : Dial) (sending : Sending)
        → s.alive ≡ true
        → s.recv_on ≡ true
        → Event s (server_recv_cb K header received dial sending s)
    client_ready :
        (s : Session K) (sending : Sending)
        → s.alive ≡ true
        → s.send_on ≡ true
        → Event s (server_send_cb K sending s)
    remote_bytes :
        (s : Session K) (r : Remote) (received : Received) (sending : Sending)
        → s.alive ≡ true
        → s.remote ≡ some r
        → r.recv_on ≡ true
        → Event s (remote_recv_cb K received sending r s)
    remote_ready :
        (s : Session K) (r : Remote) (peer : Bool) (sending : Sending)
        → s.alive ≡ true
        → s.remote ≡ some r
        → r.send_on ≡ true
        → Event s (remote_send_cb K peer sending r s)
    name_resolved :
        (s : Session K) (found : Bool) (dial : Dial)
        → s.alive ≡ true
        → s.stage ≡ stage_resolve
        → s.remote ≡ none
        → Event s (resolv_cb K found dial s)
    others_run : (s : Session K) (shared : K.Shared) → Event s (record s { shared = shared })
    orphaned :
        (s : Session K) (r : Remote)
        → s.alive ≡ false
        → s.remote ≡ some r
        → Event s (record s { remote = none })
    timed_out : (s : Session K) → s.alive ≡ true → Event s (server_timeout_cb K s)

  pub data Run (s : Session K) : Session K → Type 0 where
    begin : Run s s
    after : {t u : Session K} → Run s t → Event t u → Run s u

  Event-Flow : {s t : Session K} → Event s t → Flow K s → Flow K t
  Event-Flow (client_bytes s received dial sending live on) h =
      server_recv-Flow K header received dial sending s h live on
  Event-Flow (client_ready s sending live on) h = server_send-Flow K sending s h live on
  Event-Flow (remote_bytes s r received sending live at on) h =
      remote_recv-Flow K received sending r s h live at on
  Event-Flow (remote_ready s r peer sending live at on) h =
      remote_send-Flow K peer sending r s h live at on
  Event-Flow (name_resolved s found dial live wait alone) h =
      resolv-Flow K found dial s h live wait alone
  Event-Flow (others_run s shared) h = shared-Flow K s shared h
  Event-Flow (orphaned s r dead at) h = orphan-Flow K s dead (Flow-IsFront K s h)
  Event-Flow (timed_out s live) h = close-Flow K s (Flow-IsFront K s h)

  Run-Flow : {s t : Session K} → Run s t → Flow K s → Flow K t
  Run-Flow begin h = h
  Run-Flow (after r e) h = Event-Flow e (Run-Flow r h)

  -- In every state that a connection reaches from its start, whatever the system answers, what was
  -- sent to the remote is the first bytes of what decryption gave behind the address: in their order,
  -- none lost between two that were sent, and none sent twice.
  pub run-front :
      (e : K.EncryptCtx) (d : K.DecryptCtx) (f : K.Shared) (s : Session K)
      → Run (new_server K e d f) s
      → (rest : Bytes) × (s.forwarded ++ rest ≡ s.opened)
  run-front e d f s run = Flow-IsFront K s (Run-Flow run (new_server-Flow K e d f))

  -- In every state that a connection reaches from its start, whatever the system answers, where it is
  -- open and relays with a remote, each direction is in one of two states: all is sent, nothing is
  -- waited for, and its sender is read; or what is missing is exactly what waits in its buffer, its
  -- receiver is waited for, and its sender is not read.
  pub run-streaming :
      (e : K.EncryptCtx) (d : K.DecryptCtx) (f : K.Shared) (s : Session K) (r : Remote)
      → Run (new_server K e d f) s
      → s.alive ≡ true
      → s.stage ≡ stage_stream
      → s.remote ≡ some r
      → IsUp K s r × IsDown K s r
  run-streaming e d f s r run live st at = go (Run-Flow run (new_server-Flow K e d f))
    where
      go : Flow K s → IsUp K s r × IsDown K s r
      go (closed dead front) = absurd (cc)
      go (asking st' rm so up down) = absurd (cc)
      go (resolving st' rm ro so up down) = absurd (cc)
      go (connecting x (inl st') rm rs rr ro so up down) = absurd (cc)
      go (connecting x (inr st') rm rs rr ro so up down) = absurd (cc)
      go (streaming x st' rm co up down) =
          let same = some-injective x r (sym rm ∙ at) in
          (subst (IsUp K s) same up, subst (IsDown K s) same down)
      go (stopped st' idle up) = absurd (cc)
