-- ===== src/Relay/Events.antt =====
-- The callbacks of server.c for the sockets of one connection, with what the system answers as
-- arguments.
use outline_multiport_server.Base.{
  ℕ, suc, ◌+◌, ◌-◌, Bool, true, false, not, none, some, [], ◌++◌, Bytes, length, take, drop, ltb,
  ◌==◌, if◌then◌else◌,
}
use outline_multiport_server.Aead.{Buffer, crypto_ok, crypto_error, crypto_need_more, crypto_abort}
use outline_multiport_server.Relay.{
  pending, store, balloc, stage_init, stage_resolve, stage_stream, stage_stop, Stage, StreamCrypto,
  Remote, Session, Received, got, end_of_stream, recv_again, recv_failed, Sending,
}
use outline_multiport_server.Relay.Header.{RelayHeader, connect_to, resolve_name, refused, blocked}
use outline_multiport_server.Relay.Sockets.{first_send, next_send}

-- What `connect_to_remote` makes of its address: NULL, or a remote whose socket took some bytes of
-- the request already, where fast open is on.
pub data Dial : Type 0 where
  no_remote : Dial
  dialed : ℕ → Dial

module _ (K : StreamCrypto) where
  -- `close_and_free_remote` and `close_and_free_server`
  abbrev pub close_both : Session K → Session K
  close_both s = record s { alive = false; remote = none; recv_on = false; send_on = false }

  -- `close_and_free_server` alone: a remote that is there is closed by its own next event.
  abbrev pub close_server : Session K → Session K
  close_server s = record s { alive = false; recv_on = false; send_on = false }

  -- What `server_recv_cb` closes: the remote with it only while the data is relayed.
  abbrev pub hang_up : Stage → Session K → Session K
  hang_up stage_stream s = close_both s
  hang_up stage_init s = close_server s
  hang_up stage_resolve s = close_server s
  hang_up stage_stop s = close_server s

  abbrev pub stop_server : Session K → Session K
  stop_server s = record s { stage = stage_stop }

  abbrev pub new_remote : Remote
  new_remote = record { buf = balloc; connected = false; recv_on = false; send_on = false }

  -- `connect_to_remote`, and what its callers do with the remote: the rest of the request moves to
  -- the remote's buffer, and the remote waits to be connected.
  unfoldable pub connect_remote : Dial → Session K → Session K
  connect_remote no_remote s = close_both s
  connect_remote (dialed n) s =
      let front = take n (pending s.buf) in
      let buf = record s.buf { idx = s.buf.idx + length front; len = s.buf.len - length front } in
      let rest = pending buf in
      let moved = ltb 0 buf.len in
      record s {
        buf = if moved then record buf { idx = 0; len = 0 } else buf;
        remote = some (record new_remote {
          buf = if moved then record (store rest balloc) { idx = 0 } else balloc;
          send_on = true;
        });
        recv_on = false;
        forwarded = s.forwarded ++ front;
      }

  -- `server_recv_cb` in the first stage, behind the decryption: `len` bytes of the request are
  -- behind the header.
  unfoldable pub take_header : RelayHeader → Dial → Session K → Session K
  unfolding connect_remote
  take_header refused dial s = stop_server s
  take_header blocked dial s = close_both s
  take_header (connect_to address offset) dial s =
      let buf = record s.buf { idx = offset; len = s.buf.len - offset } in
      connect_remote dial (record s { buf = buf; opened = s.opened ++ pending buf })
  take_header (resolve_name host port offset) dial s =
      let buf = record s.buf { idx = offset; len = s.buf.len - offset } in
      record s {
        buf = buf;
        recv_on = false;
        stage = stage_resolve;
        opened = s.opened ++ pending buf;
      }

  -- `server_recv_cb` while the data is relayed, behind the decryption.
  unfoldable pub forward : Sending → Remote → Session K → Session K
  unfolding first_send
  forward sending r s = elim (first_send sending r.buf) [
    | none ↦ close_both s
    | some sent ↦ record s {
      remote =
          some (record r { buf = sent.left; send_on = if sent.all_sent then r.send_on else true });
      recv_on = if sent.all_sent then s.recv_on else false;
      forwarded = s.forwarded ++ sent.taken;
    }
  ]

  unfoldable pub count_frag : Session K → Session K
  count_frag s = elim s.stage [ stage_stream ↦ s | _ ↦ record s { frag = suc s.frag } ]

  -- A `recv` into a buffer whose length is not set.
  abbrev pub overwrite : Bytes → Buffer → Buffer
  overwrite t b = record b { data_bytes = t ++ drop (length t) b.data_bytes }

  unfoldable pub stream_in : Bytes → Sending → Remote → Session K → Session K
  unfolding forward
  stream_in t sending r s =
      let ((d_ctx, shared), result) = K.decrypt (s.d_ctx, s.shared) t in
      let r' = record r { buf = store t r.buf } in
      let s' = record s { d_ctx = d_ctx; shared = shared; remote = some r' } in
      elim result [
        | crypto_ok p ↦
            forward sending (record r' { buf = store p r'.buf })
              (record s' { opened = s.opened ++ p })
        | crypto_error ↦ stop_server s'
        | crypto_need_more ↦ s'
        | crypto_abort ↦ close_both s'
      ]

  -- `FATAL` and a failed assertion end the process.
  unfoldable pub request_in : (Bytes → ℕ → RelayHeader) → Bytes → Dial → Session K → Session K
  unfolding take_header count_frag
  request_in header t dial s =
      let ((d_ctx, shared), result) = K.decrypt (s.d_ctx, s.shared) t in
      let s' = record s { d_ctx = d_ctx; shared = shared; buf = store t s.buf } in
      elim result [
        | crypto_ok p ↦
            let b = store p s'.buf in
            elim s.stage [
              | stage_init ↦ take_header (header b.data_bytes b.len) dial (record s' { buf = b })
              | _ ↦ close_both s'
            ]
        | crypto_error ↦ stop_server s'
        | crypto_need_more ↦ count_frag s'
        | crypto_abort ↦ close_both s'
      ]

  -- `header` is `relay_header` with the access lists.
  unfoldable pub server_recv_cb :
      (Bytes → ℕ → RelayHeader) → Received → Dial → Sending → Session K → Session K
  unfolding stream_in request_in
  server_recv_cb header recv_again dial sending s = s
  server_recv_cb header recv_failed dial sending s = hang_up s.stage s
  server_recv_cb header end_of_stream dial sending s = hang_up s.stage s
  server_recv_cb header (got t) dial sending s = elim s.stage [
    | stage_stop ↦ record s { buf = overwrite t s.buf }
    | stage_stream ↦ elim s.remote [ none ↦ s | some r ↦ stream_in t sending r s ]
    | _ ↦ request_in header t dial s
  ]

  -- `remote_recv_cb` behind the encryption.
  unfoldable pub give_back : Sending → Remote → Session K → Session K
  unfolding first_send
  give_back sending r s = elim (first_send sending s.buf) [
    | none ↦ close_both s
    | some sent ↦ record s {
      buf = sent.left;
      send_on = if sent.all_sent then s.send_on else true;
      remote = some (record r { recv_on = if sent.all_sent then r.recv_on else false });
      returned = s.returned ++ sent.taken;
    }
  ]

  unfoldable pub answer_in : Bytes → Sending → Remote → Session K → Session K
  unfolding give_back
  answer_in t sending r s =
      let ((e_ctx, shared), result) = K.encrypt (s.e_ctx, s.shared) t in
      let s' = record s { e_ctx = e_ctx; shared = shared; buf = store t s.buf } in
      elim result [
        | crypto_ok c ↦
            give_back sending r (record s' { buf = store c s'.buf; sealed = s.sealed ++ c })
        | _ ↦ close_both s'
      ]

  unfoldable pub remote_recv_cb : Received → Sending → Remote → Session K → Session K
  unfolding answer_in
  remote_recv_cb recv_again sending r s = s
  remote_recv_cb recv_failed sending r s = close_both s
  remote_recv_cb end_of_stream sending r s = close_both s
  remote_recv_cb (got t) sending r s = elim s.stage [
    | stage_stop ↦ record s { buf = overwrite t s.buf }
    | _ ↦ answer_in t sending r s
  ]

  unfoldable pub server_send_cb : Sending → Session K → Session K
  unfolding next_send
  server_send_cb sending s = elim s.remote [
    | none ↦ close_both s
    | some r ↦ if s.buf.len == 0 then close_both s else elim (next_send sending s.buf) [
      | none ↦ close_both s
      | some sent ↦ record s {
        buf = sent.left;
        send_on = if sent.all_sent then false else s.send_on;
        remote = some (record r { recv_on = if sent.all_sent then true else r.recv_on });
        returned = s.returned ++ sent.taken;
      }
    ]
  ]

  -- `remote_send_cb` on a connected remote with data.
  unfoldable pub send_rest : Sending → Remote → Session K → Session K
  unfolding next_send
  send_rest sending r s = if r.buf.len == 0 then close_both s else elim (next_send sending r.buf) [
    | none ↦ close_both s
    | some sent ↦
        let forwarded = s.forwarded ++ sent.taken in
        if sent.all_sent
        then record s {
          stage = stage_stream;
          remote = some (record r {
            buf = sent.left;
            send_on = false;
            recv_on = elim s.stage [ stage_stream ↦ r.recv_on | _ ↦ true ];
          });
          recv_on = true;
          forwarded = forwarded;
        }
        else record s { remote = some (record r { buf = sent.left }); forwarded = forwarded }
  ]

  -- `remote_send_cb`, where `peer` says that `getpeername` succeeds: the remote is connected.
  unfoldable pub remote_send_cb : Bool → Sending → Remote → Session K → Session K
  unfolding send_rest
  remote_send_cb peer sending r s =
      let r' = record r { connected = true } in
      if r.connected
      then send_rest sending r s
      else if not peer
      then close_both s
      else if r.buf.len == 0
      then record s {
        stage = stage_stream;
        remote = some (record r' { send_on = false; recv_on = true });
        recv_on = true;
      }
      else send_rest sending r' s

  -- `resolv_cb`, where `found` says that the name has an address.
  unfoldable pub resolv_cb : Bool → Dial → Session K → Session K
  resolv_cb found dial s = if found then connect_remote dial s else close_both s

  abbrev pub server_timeout_cb : Session K → Session K
  server_timeout_cb s = close_both s

  -- `new_server`, with its reading started by `accept_cb`.
  abbrev pub new_server : K.EncryptCtx → K.DecryptCtx → K.Shared → Session K
  new_server e_ctx d_ctx shared = record {
    alive = true;
    stage = stage_init;
    frag = 0;
    buf = balloc;
    e_ctx = e_ctx;
    d_ctx = d_ctx;
    shared = shared;
    remote = none;
    recv_on = true;
    send_on = false;
    opened = [];
    sealed = [];
    forwarded = [];
    returned = [];
  }
