-- ===== src/Relay/Drain.antt =====
-- A connection of server.c whose remote takes bytes again: what waits is sent, and reading resumes.
use outline_multiport_server.Base.{
  ℕ, ◌+◌, ◌-◌, ◌≤◌, ◌<◌, ◌≡◌, refl, ap, ◌∙◌, inl, inr, true, false, none, some, List, [], ◌∷◌, ◌++◌,
  length, take, All, ltb, ◌==◌, if_true, arith, Bool-cases, append_assoc,
}
use outline_multiport_server.Aead.{Buffer}
use outline_multiport_server.Relay.{
  pending, stage_stream, StreamCrypto, Remote, Session, Sending, took,
}
use outline_multiport_server.Relay.Events.{send_rest, remote_send_cb}
use outline_multiport_server.Relay.Sockets.{next_send}
use outline_multiport_server.Relay.Sends.{next_send_lem}

module _ (K : StreamCrypto) where
  -- The remote's socket is writable as many times as there are numbers, and takes so many bytes each
  -- time, for as long as it is watched.
  pub drain : List ℕ → Session K → Session K
  drain [] s = s
  drain (n ∷ ns) s = elim s.remote [
    | none ↦ s
    | some r ↦ elim r.send_on [ true ↦ drain ns (remote_send_cb K true (took n) r s) | false ↦ s ]
  ]

  abbrev left_of : ℕ → Buffer → Buffer
  left_of n b = record b { idx = b.idx + n; len = b.len - n }

  -- The front that is taken and the rest.
  two_parts :
      (n : ℕ) (b : Buffer) → n < b.len → take n (pending b) ++ pending (left_of n b) ≡ pending b
  unfolding next_send
  two_parts n b less =
      next_send_lem (took n) b
        (record { left = left_of n b; taken = take n (pending b); all_sent = false })
        (if_true (ltb n b.len) _ _ (ground arith))

  send_connected :
      (sending : Sending) (r : Remote) (s : Session K)
      → r.connected ≡ true
      → remote_send_cb K true sending r s ≡ send_rest K sending r s
  unfolding remote_send_cb
  send_connected sending r s co = if_true r.connected _ _ co

  send_part :
      (n : ℕ) (r : Remote) (s : Session K)
      → n < r.buf.len
      → send_rest K (took n) r s ≡ record s {
        remote = some (record r { buf = left_of n r.buf });
        forwarded = s.forwarded ++ take n (pending r.buf);
      }
  unfolding send_rest next_send
  send_part n r s less =
      let something : (r.buf.len == 0) ≡ false = ground arith in
      let part : ltb n r.buf.len ≡ true = ground arith in rw (something, part) refl

  -- All that waited is taken.
  abbrev resumed : Remote → Session K → Session K
  resumed r s = record s {
    stage = stage_stream;
    remote = some (record r {
      buf = record r.buf { idx = 0; len = 0 };
      send_on = false;
      recv_on = elim s.stage [ stage_stream ↦ r.recv_on | _ ↦ true ];
    });
    recv_on = true;
    forwarded = s.forwarded ++ pending r.buf;
  }

  send_whole :
      (n : ℕ) (r : Remote) (s : Session K)
      → 0 < r.buf.len
      → r.buf.len ≤ n
      → send_rest K (took n) r s ≡ resumed r s
  unfolding send_rest next_send
  send_whole n r s some_left more =
      let something : (r.buf.len == 0) ≡ false = ground arith in
      let whole : ltb n r.buf.len ≡ false = ground arith in rw (something, whole) refl

  drain-resumed : (ns : List ℕ) (r : Remote) (s : Session K) → drain ns (resumed r s) ≡ resumed r s
  unfolding drain
  drain-resumed [] r s = refl
  drain-resumed (n ∷ ns) r s = refl

  -- Take a connected remote with bytes waiting in its buffer, which is watched. When its socket is
  -- writable as many times as there are bytes, and takes at least one byte each time, then all that
  -- waited is forwarded behind what was, in its order, nothing waits any more, and the client is read
  -- again.
  pub drain-all :
      (ns : List ℕ) (r : Remote) (s : Session K)
      → s.remote ≡ some r
      → r.connected ≡ true
      → r.send_on ≡ true
      → 0 < r.buf.len
      → All (λ n. 0 < n) ns
      → r.buf.len ≤ length ns
      → let s' = drain ns s in
        (s'.forwarded ≡ s.forwarded ++ pending r.buf)
        × (s'.recv_on ≡ true)
        × (s'.opened ≡ s.opened)
        × ((r' : Remote) × (s'.remote ≡ some r') × (r'.send_on ≡ false))
  unfolding drain
  drain-all [] r s at co on some_left each enough = absurd (omega arith)
  drain-all (n ∷ ns) r s at co on some_left (one, each) enough =
      elim (Bool-cases (ltb n r.buf.len)) [
        | inr whole ↦
            let all = send_connected (took n) r s co ∙ send_whole n r s some_left (ground arith) in
            rw (at, on, drain) (rw (all, drain-resumed ns r s) (refl, refl, refl, (_, refl, refl)))
        | inl part ↦
            let step = send_connected (took n) r s co ∙ send_part n r s (ground arith) in
            let b = left_of n r.buf in
            let s1 : Session K = record s {
              remote = some (record r { buf = b });
              forwarded = s.forwarded ++ take n (pending r.buf);
            } in
            let (sent, reads, opened, idle) =
              drain-all ns (record r { buf = b }) s1 refl co on (ground arith) each
                (ground arith) in
            rw (at, on, drain)
              (rw step (
                sent
                    ∙ append_assoc s.forwarded (take n (pending r.buf)) (pending b)
                    ∙ ap (λ t. s.forwarded ++ t) (two_parts n r.buf (ground arith)),
                reads,
                opened,
                idle,
              ))
      ]
