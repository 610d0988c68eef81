-- ===== src/Relay/Asking.antt =====
-- The callbacks of server.c that read the client or take the resolver's answer keep the flow.
use outline_multiport_server.Base.{
  ℕ, ◌+◌, ◌-◌, ◌≡◌, refl, sym, ap, ◌∙◌, ◌⊎◌, inl, inr, Bool, true, false, none, some, [], ◌++◌,
  Bytes, length, take, drop, ltb, if◌then◌else◌, append-nil, append_assoc, Bool-cases,
  some-injective, arith, if_true, if_false,
}
use outline_multiport_server.Aead.{
  Buffer, CryptoResult, crypto_ok, crypto_error, crypto_need_more, crypto_abort,
}
use outline_multiport_server.Relay.{
  pending, store, balloc, stage_init, stage_resolve, stage_stream, StreamCrypto, Remote, Session,
  Sending, Received, got, end_of_stream, recv_again, recv_failed,
}
use outline_multiport_server.Relay.Events.{
  Dial, no_remote, dialed, connect_remote, take_header, stream_in, request_in, count_frag,
  server_recv_cb, resolv_cb,
}
use outline_multiport_server.Relay.Flow.{
  Flow, closed, asking, resolving, connecting, streaming, stopped, IsDown, IsFront, Flow-IsFront,
  close-Flow, hang_up-Flow, stop-Flow, forward-Flow,
}
use outline_multiport_server.Relay.Header.{RelayHeader, connect_to, resolve_name, refused, blocked}
use outline_multiport_server.Relay.Sends.{pending-store, pending-split}

module _ (K : StreamCrypto) where
  -- What is moved to the remote's buffer is the rest of the request.
  moved-pending :
      (b : Buffer)
      → pending (if ltb 0 b.len then record (store (pending b) balloc) { idx = 0 } else balloc)
        ≡ pending b
  moved-pending b = elim (Bool-cases (ltb 0 b.len)) [
    | inl some_left ↦
        ap pending (if_true (ltb 0 b.len) _ _ some_left) ∙ pending-store (pending b) balloc
    | inr none_left ↦
        let nothing : 0 ≡ b.len = ground arith in
        ap pending (if_false (ltb 0 b.len) _ _ none_left)
        ∙ ap (λ k. take k (drop b.idx b.data_bytes)) nothing
  ]

  -- A connected client asks, or a name was resolved: the rest of the request waits for the remote.
  connect-Flow :
      (dial : Dial) (s : Session K)
      → (s.stage ≡ stage_init) ⊎ (s.stage ≡ stage_resolve)
      → s.send_on ≡ false
      → s.forwarded ++ pending s.buf ≡ s.opened
      → s.returned ≡ s.sealed
      → Flow K (connect_remote K dial s)
  unfolding connect_remote
  connect-Flow no_remote s st so up down = close-Flow K s (pending s.buf, up)
  connect-Flow (dialed n) s st so up down =
      let front = take n (pending s.buf) in
      let b : Buffer = record s.buf {
        idx = s.buf.idx + length front;
        len = s.buf.len - length front;
      } in
      let split = ap (λ t. s.forwarded ++ t) (pending-split s.buf n) ∙ up in
      let whole = append_assoc s.forwarded front (pending b) ∙ split in
      connecting _ st refl refl refl refl so
        (ap (λ t. (s.forwarded ++ front) ++ t) (moved-pending b) ∙ whole) down

  stream_in-Flow :
      (t : Bytes) (sending : Sending) (r : Remote) (s : Session K)
      → s.stage ≡ stage_stream
      → s.remote ≡ some r
      → r.connected ≡ true
      → s.recv_on ≡ true
      → r.send_on ≡ false
      → s.forwarded ≡ s.opened
      → IsDown K s r
      → Flow K (stream_in K t sending r s)
  unfolding stream_in
  stream_in-Flow t sending r s st rm co ro rs up down = go (K.decrypt (s.d_ctx, s.shared) t).1 refl
    where
      b : Buffer
      b = store t r.buf

      d : K.DecryptCtx
      d = (K.decrypt (s.d_ctx, s.shared) t).0.0

      f : K.Shared
      f = (K.decrypt (s.d_ctx, s.shared) t).0.1

      go :
          (result : CryptoResult)
          → (K.decrypt (s.d_ctx, s.shared) t).1 ≡ result
          → Flow K (stream_in K t sending r s)
      go (crypto_ok p) e =
          rw (e, stream_in)
            (forward-Flow K sending (record r { buf = store p b })
              (record s {
                d_ctx = d;
                shared = f;
                remote = some (record r { buf = b });
                opened = s.opened ++ p;
              })
              s.opened p st co ro rs (pending-store p (store t r.buf)) up refl down)
      go crypto_error e =
          rw (e, stream_in)
            (stop-Flow K (record s { d_ctx = d; shared = f; remote = some (record r { buf = b }) })
              (λ x same. ap (λ (y : Remote). y.send_on) (sym (some-injective _ x same)) ∙ rs) up)
      go crypto_need_more e =
          rw (e, stream_in) (streaming (record r { buf = b }) st refl co (inl (ro, rs, up)) down)
      go crypto_abort e =
          rw (e, stream_in)
            (close-Flow K (record s { d_ctx = d; shared = f; remote = some (record r { buf = b }) })
              ([], append-nil s.forwarded ∙ up))

  take_header-Flow :
      (h : RelayHeader) (dial : Dial) (s' : Session K)
      → s'.stage ≡ stage_init
      → s'.remote ≡ none
      → s'.send_on ≡ false
      → s'.forwarded ≡ s'.opened
      → s'.returned ≡ s'.sealed
      → Flow K (take_header K h dial s')
  unfolding take_header
  take_header-Flow refused dial s' st rm so up down = stop-Flow K s' (λ x same. absurd (cc)) up
  take_header-Flow blocked dial s' st rm so up down =
      close-Flow K s' ([], append-nil s'.forwarded ∙ up)
  take_header-Flow (connect_to address offset) dial s' st rm so up down =
      let b : Buffer = record s'.buf { idx = offset; len = s'.buf.len - offset } in
      connect-Flow dial (record s' { buf = b; opened = s'.opened ++ pending b }) (inl st) so
        (ap (λ t. t ++ pending b) up) down
  take_header-Flow (resolve_name host port offset) dial s' st rm so up down =
      let b : Buffer = record s'.buf { idx = offset; len = s'.buf.len - offset } in
      resolving refl rm refl so (ap (λ t. t ++ pending b) up) down

  request_in-Flow :
      (header : Bytes → ℕ → RelayHeader) (t : Bytes) (dial : Dial) (s : Session K)
      → s.stage ≡ stage_init
      → s.remote ≡ none
      → s.send_on ≡ false
      → s.forwarded ≡ s.opened
      → s.returned ≡ s.sealed
      → Flow K (request_in K header t dial s)
  unfolding request_in take_header count_frag
  request_in-Flow header t dial s st rm so up down = go (K.decrypt (s.d_ctx, s.shared) t).1 refl
    where
      read : Session K
      read = record s {
        d_ctx = (K.decrypt (s.d_ctx, s.shared) t).0.0;
        shared = (K.decrypt (s.d_ctx, s.shared) t).0.1;
        buf = store t s.buf;
      }

      front : IsFront K s
      front = ([], append-nil s.forwarded ∙ up)

      go :
          (result : CryptoResult)
          → (K.decrypt (s.d_ctx, s.shared) t).1 ≡ result
          → Flow K (request_in K header t dial s)
      go (crypto_ok p) e =
          rw (e, st, request_in)
            (take_header-Flow
              (header (store p (store t s.buf)).data_bytes (store p (store t s.buf)).len) dial
              (record read { buf = store p (store t s.buf) }) st rm so up down)
      go crypto_error e = rw (e, request_in) (stop-Flow K read (λ x same. absurd (cc)) up)
      go crypto_need_more e = rw (e, st, request_in) (asking st rm so up down)
      go crypto_abort e = rw (e, request_in) (close-Flow K read front)

  -- `server_recv_cb` on a connection whose client is read.
  pub server_recv-Flow :
      (header : Bytes → ℕ → RelayHeader) (received : Received) (dial : Dial) (sending : Sending)
      (s : Session K)
      → Flow K s
      → s.alive ≡ true
      → s.recv_on ≡ true
      → Flow K (server_recv_cb K header received dial sending s)
  unfolding server_recv_cb
  server_recv-Flow header recv_again dial sending s h live on = h
  server_recv-Flow header recv_failed dial sending s h live on =
      hang_up-Flow K s.stage s (Flow-IsFront K s h)
  server_recv-Flow header end_of_stream dial sending s h live on =
      hang_up-Flow K s.stage s (Flow-IsFront K s h)
  server_recv-Flow header (got t) dial sending s h live on = go h
    where
      go : Flow K s → Flow K (server_recv_cb K header (got t) dial sending s)
      go (closed dead front) = absurd (cc)
      go (asking st rm so up down) =
          rw (st, server_recv_cb) (request_in-Flow header t dial s st rm so up down)
      go (resolving st rm ro so up down) = absurd (cc)
      go (connecting r st rm rs rr ro so up down) = absurd (cc)
      go (streaming r st rm co (inl (ro, rs, up)) down) =
          rw (st, rm, server_recv_cb) (stream_in-Flow t sending r s st rm co ro rs up down)
      go (streaming r st rm co (inr (ro, rs, up)) down) = absurd (cc)
      go (stopped st idle up) = rw (st, server_recv_cb) (stopped st idle up)

  -- `resolv_cb` on a connection that waits for it.
  pub resolv-Flow :
      (found : Bool) (dial : Dial) (s : Session K)
      → Flow K s
      → s.alive ≡ true
      → s.stage ≡ stage_resolve
      → s.remote ≡ none
      → Flow K (resolv_cb K found dial s)
  unfolding resolv_cb
  resolv-Flow found dial s h live wait alone = go h (Bool-cases found)
    where
      go : Flow K s → (found ≡ true) ⊎ (found ≡ false) → Flow K (resolv_cb K found dial s)
      go f (inr unknown) = rw (unknown, resolv_cb) (close-Flow K s (Flow-IsFront K s f))
      go (closed dead front) (inl known) = absurd (cc)
      go (asking st rm so up down) (inl known) = absurd (cc)
      go (resolving st rm ro so up down) (inl known) =
          rw (known, resolv_cb) (connect-Flow dial s (inr st) so up down)
      go (connecting x st rm rs rr ro so up down) (inl known) = absurd (cc)
      go (streaming x st rm co up down) (inl known) = absurd (cc)
      go (stopped st idle up) (inl known) = absurd (cc)
