-- ===== src/Relay/Ciphers.antt =====
-- The AEAD ciphers of aead.c as the stream cipher of a connection: `crypto_init` of crypto.c.
use outline_multiport_server.Base.{
  ℕ, ◌≡◌, refl, sym, ap, ◌∙◌, subst, ◌⊎◌, inl, inr, true, false, some, none, List, [], ◌∷◌, ◌++◌,
  Bytes, append_assoc, take, ltb, arith, Option-cases, Bool-cases, if◌then◌else◌, if_true, if_false,
}
use outline_multiport_server.Aead.{
  Buffer, CipherCtx, CryptoLibrary, CryptoResult, crypto_ok, crypto_error, crypto_need_more,
  crypto_abort, aead_encrypt, aead_decrypt,
}
use outline_multiport_server.Aead.Chunk.{CryptoLaws}
use outline_multiport_server.Aead.Resume.{Follows, aead_decrypt-Follows}
use outline_multiport_server.Aead.Stream.{concat, IsWire, IsPart, decided}
use outline_multiport_server.PpBloom.{BloomLibrary, PpBloom}
use outline_multiport_server.Relay.{
  pending, store, stage_stream, StreamCrypto, Remote, Session, Sending, took, send_again,
  send_failed, got,
}
use outline_multiport_server.Relay.Events.{Dial, forward, stream_in, server_recv_cb}
use outline_multiport_server.Relay.Sends.{rest_of, first_send_lem, pending-store}
use outline_multiport_server.Relay.Sockets.{Sent, first_send}
use outline_multiport_server.Relay.Header.{RelayHeader}

decided-cases :
    (text tail : Bytes)
    → (decided text tail ≡ crypto_ok text) ⊎ ((decided text tail ≡ crypto_need_more) × (text ≡ []))
decided-cases text [] = inl refl
decided-cases [] (x ∷ tail) = inr (ground arith, refl)
decided-cases (y ∷ text) (x ∷ tail) = inl (ground arith)

module _ (K : StreamCrypto) where
  -- The bytes that wait for the remote's socket.
  abbrev pub waiting : Remote → Bytes
  waiting r = if r.send_on then pending r.buf else []

  -- The texts `p` have gone to the remote behind the bytes `old`, or wait for its socket in their
  -- order, all of them once; only where its socket fails the connection is closed.
  abbrev pub GoesOn : Sending → Bytes → Bytes → Session K → Type 0
  GoesOn sending old p s' =
      ((sending ≡ send_failed) × (s'.alive ≡ false))
      ⊎ ((r' : Remote) × (s'.remote ≡ some r') × (s'.forwarded ++ waiting r' ≡ old ++ p))

  first_send-none :
      (sending : Sending) (b : Buffer) → first_send sending b ≡ none → sending ≡ send_failed
  unfolding first_send
  first_send-none send_failed b h = refl
  first_send-none send_again b h = absurd (cc)
  first_send-none (took n) b h = elim (Bool-cases (ltb n b.len)) [
    | inl part ↦ absurd (cc (sym (if_true (ltb n b.len) _ _ part) ∙ h))
    | inr whole ↦ absurd (cc (sym (if_false (ltb n b.len) _ _ whole) ∙ h))
  ]

  forward-GoesOn :
      (sending : Sending) (r : Remote) (s : Session K) (p : Bytes)
      → r.send_on ≡ false
      → take r.buf.len r.buf.data_bytes ≡ p
      → GoesOn sending s.forwarded p (forward K sending r s)
  unfolding forward
  forward-GoesOn sending r s p idle text = elim (Option-cases (first_send sending r.buf)) [
    | inl e ↦ rw (e, forward) (inl (first_send-none sending r.buf e, refl))
    | inr (sent, e) ↦
        let all : sent.taken ++ rest_of sent ≡ p = first_send_lem sending r.buf sent e ∙ text in
        rw (e, forward)
          (inr (
            record r { buf = sent.left; send_on = if sent.all_sent then r.send_on else true },
            refl,
            append_assoc s.forwarded sent.taken _
                ∙ ap (λ t. s.forwarded ++ (sent.taken ++ t)) (left sent (Bool-cases sent.all_sent))
                ∙ ap (λ t. s.forwarded ++ t) all,
          ))
  ]
    where
      left :
          (sent : Sent)
          → (sent.all_sent ≡ true) ⊎ (sent.all_sent ≡ false)
          → (if (if sent.all_sent then r.send_on else true) then pending sent.left else [])
            ≡ rest_of sent
      left sent (inl whole) = rw (whole, idle) refl
      left sent (inr part) = rw part refl

  -- The decryption gave a text, or nothing yet.
  stream_in-GoesOn :
      (t : Bytes) (sending : Sending) (r : Remote) (s : Session K) (p tail : Bytes)
      → r.send_on ≡ false
      → (K.decrypt (s.d_ctx, s.shared) t).1 ≡ decided p tail
      → GoesOn sending s.forwarded p (stream_in K t sending r s)
  unfolding stream_in
  stream_in-GoesOn t sending r s p tail idle result = elim (decided-cases p tail) [
    | inl e ↦
        rw (result ∙ e, stream_in)
          (forward-GoesOn sending (record r { buf = store p (store t r.buf) })
            (record s {
              d_ctx = (K.decrypt (s.d_ctx, s.shared) t).0.0;
              shared = (K.decrypt (s.d_ctx, s.shared) t).0.1;
              remote = some (record r { buf = store t r.buf });
              opened = s.opened ++ p;
            })
            p idle (pending-store p (store t r.buf)))
    | inr (e, empty) ↦
        rw (result ∙ e, stream_in)
          (inr (
            record r { buf = store t r.buf },
            refl,
            ap (λ x. s.forwarded ++ x) (if_false r.send_on _ _ idle ∙ sym empty),
          ))
  ]

  forward-kept :
      (sending : Sending) (r : Remote) (s : Session K)
      → let s' = forward K sending r s in (s'.d_ctx ≡ s.d_ctx) × (s'.shared ≡ s.shared)
  unfolding forward
  forward-kept sending r s = elim (Option-cases (first_send sending r.buf)) [
    | inl e ↦ rw (e, forward) (refl, refl)
    | inr (sent, e) ↦ rw (e, forward) (refl, refl)
  ]

  stream_in-kept :
      (t : Bytes) (sending : Sending) (r : Remote) (s : Session K)
      → let s' = stream_in K t sending r s in
        let d = (K.decrypt (s.d_ctx, s.shared) t).0 in (s'.d_ctx ≡ d.0) × (s'.shared ≡ d.1)
  unfolding stream_in
  stream_in-kept t sending r s = go (K.decrypt (s.d_ctx, s.shared) t).1 refl
    where
      d : K.DecryptCtx × K.Shared
      d = (K.decrypt (s.d_ctx, s.shared) t).0

      go :
          (result : CryptoResult)
          → (K.decrypt (s.d_ctx, s.shared) t).1 ≡ result
          → let s' = stream_in K t sending r s in
            let d = (K.decrypt (s.d_ctx, s.shared) t).0 in (s'.d_ctx ≡ d.0) × (s'.shared ≡ d.1)
      go (crypto_ok p) e =
          rw (e, stream_in)
            (forward-kept sending (record r { buf = store p (store t r.buf) })
              (record s {
                d_ctx = d.0;
                shared = d.1;
                remote = some (record r { buf = store t r.buf });
                opened = s.opened ++ p;
              }))
      go crypto_error e = rw (e, stream_in) (refl, refl)
      go crypto_need_more e = rw (e, stream_in) (refl, refl)
      go crypto_abort e = rw (e, stream_in) (refl, refl)

module _ (C : CryptoLibrary) (B : BloomLibrary) where
  -- The functions for a stream. The filters of salts, which the program has once, are what the
  -- connections share.
  abbrev pub aead_stream : StreamCrypto
  aead_stream = record {
    EncryptCtx = CipherCtx;
    DecryptCtx = CipherCtx;
    Shared = PpBloom B;
    encrypt = λ c t. aead_encrypt C B t c.0 c.1;
    decrypt = λ c t. aead_decrypt C B t c.0 c.1;
  }

  -- With ciphers that keep their laws and tags of 16 bytes: take a connection that relays, with
  -- nothing waiting for the remote's socket, whose context follows a sender and holds a part of a
  -- chunk. When this part and the bytes that arrive are the chunks that the sender sealed of some
  -- texts and a part of the next one, `server_recv_cb` sends exactly the texts, joined, on to the
  -- remote: what its socket took and what is left in the buffer for the next send are together the
  -- texts, in order; where its socket fails, the connection is closed. The context follows the
  -- sender, and the filters of salts, which the connections share, are as they were.
  pub server_recv-GoesOn :
      CryptoLaws C
      → (header : Bytes → ℕ → RelayHeader) (dial : Dial) (sending : Sending) (r : Remote)
        (s : Session aead_stream) (e : CipherCtx) (bytes n part tail : Bytes) (ps : List Bytes)
        (w n' : Bytes)
      → s.stage ≡ stage_stream
      → s.remote ≡ some r
      → r.send_on ≡ false
      → Follows e s.d_ctx n part
      → IsWire C e n ps w n'
      → IsPart C e n' tail
      → part ++ bytes ≡ w ++ tail
      → let s' = server_recv_cb aead_stream header (got bytes) dial sending s in
        GoesOn aead_stream sending s.forwarded (concat ps) s'
        × Follows e s'.d_ctx n' tail
        × (s'.shared ≡ s.shared)
  unfolding server_recv_cb
  server_recv-GoesOn laws header dial sending r s e bytes n part tail ps w n' st at idle follows
        wire next cut =
      let (result, in_step, noted) =
        aead_decrypt-Follows C B laws e s.d_ctx s.shared bytes n part tail ps w n' follows wire next
          cut in
      let (ctx, filters) = stream_in-kept aead_stream bytes sending r s in
      rw (st, at, server_recv_cb)
        (
          stream_in-GoesOn aead_stream bytes sending r s (concat ps) tail idle result,
          subst (λ c. Follows e c n' tail) (sym ctx) in_step,
          filters ∙ noted,
        )
