-- ===== src/Aead/Send.antt =====
-- The sender of a TCP stream of aead.c: the calls of `aead_encrypt` in turn, up to the receiver.
use outline_multiport_server.Base.{
  ℕ, ◌%◌, ◌≤◌, ◌<◌, ◌≡◌, refl, sym, ap, ◌∙◌, false, Option, none, some, List, [], ◌∷◌, ◌++◌, Bytes,
  All, length, take, replicate, append_assoc, append-nil, take_of_length-le, arith, ◌==◌, if_true,
  if_false, subst,
}
use outline_multiport_server.PpBloom.{BloomLibrary, PpBloom, ppbloom_check}
use outline_multiport_server.Aead.{
  CryptoLibrary, Cipher, CipherCtx, ctx_salt, chunk_size_mask, sealed, aead_cipher_encrypt,
  aead_chunk_encrypt, CryptoResult, crypto_ok, remember, aead_cipher_ctx_set_key, encrypt_chunk,
  aead_encrypt, aead_decrypt, Crypto,
}
use outline_multiport_server.Aead.Chunk.{CryptoLaws, Agree, chunk_encrypt-chunk_decrypt}
use outline_multiport_server.Aead.Stream.{concat, IsWire, wire_nil, wire_cons, IsPart}
use outline_multiport_server.Aead.Begin.{keyed, Begins, aead_decrypt-Begins}

-- A text that one chunk takes.
abbrev pub IsText : Bytes → Type 0
IsText p = (0 < length p) × (length p ≤ chunk_size_mask)

module _ (C : CryptoLibrary) (B : BloomLibrary) where
  -- `aead_encrypt` of each text in turn, with the bytes for the wire joined; `none` on an error.
  abbrev pub send_all : List Bytes → CipherCtx → PpBloom B → Option (Crypto C B × Bytes)
  send_all [] ctx bloom = some ((ctx, bloom), [])
  send_all (p ∷ ps) ctx bloom =
      let (s, result) = aead_encrypt C B p ctx bloom in
      elim result [
        | crypto_ok c ↦ elim (send_all ps s.0 s.1) [ none ↦ none | some (t, w) ↦ some (t, c ++ w) ]
        | _ ↦ none
      ]

  send_all_cons :
      (p : Bytes) (ps : List Bytes) (ctx : CipherCtx) (bloom : PpBloom B) (s t : Crypto C B)
      (c w : Bytes)
      → aead_encrypt C B p ctx bloom ≡ (s, crypto_ok c)
      → send_all ps s.0 s.1 ≡ some (t, w)
      → send_all (p ∷ ps) ctx bloom ≡ some (t, c ++ w)
  send_all_cons p ps ctx bloom s t c w one sent =
      ap
        (λ (r : Crypto C B × CryptoResult). elim r.1 as (λ _. Option (Crypto C B × Bytes)) [
          | crypto_ok c ↦ elim (send_all ps r.0.0 r.0.1) as (λ _. Option (Crypto C B × Bytes)) [
            | none ↦ none
            | some (t, w) ↦ some (t, c ++ w)
          ]
          | _ ↦ none
        ])
        one
      ∙ ap
          (λ o. elim o as (λ _. Option (Crypto C B × Bytes)) [
            | none ↦ none
            | some (t, w) ↦ some (t, c ++ w)
          ])
          sent

  -- Only the key and the cipher of a context matter for a chunk.
  chunk_same :
      (b : CipherCtx) (n p m : Bytes) (l : ℕ)
      → aead_chunk_encrypt C (record b { nonce = n }) p m l ≡ aead_chunk_encrypt C b p m l
  unfolding aead_chunk_encrypt aead_cipher_encrypt
  chunk_same b n p m l = refl

  encrypt_chunk-sealed :
      (e : CipherCtx) (bloom : PpBloom B) (p c n1 front : Bytes)
      → IsText p
      → aead_chunk_encrypt C e p e.nonce (length p) ≡ sealed c n1
      → encrypt_chunk C B p e bloom front
        ≡ ((record e { nonce = n1 }, bloom), crypto_ok (front ++ c))
  unfolding encrypt_chunk
  encrypt_chunk-sealed e bloom p c n1 front (some_text, small) h =
      let same : length p % 0x1_0000 ≡ length p = omega arith in
      let whole = ap (aead_chunk_encrypt C e p e.nonce) same ∙ h in ground (arith, whole)

  encrypt_running :
      (e : CipherCtx) (bloom : PpBloom B) (p c n1 : Bytes)
      → e.init ≡ 1
      → IsText p
      → aead_chunk_encrypt C e p e.nonce (length p) ≡ sealed c n1
      → aead_encrypt C B p e bloom ≡ ((record e { nonce = n1 }, bloom), crypto_ok c)
  unfolding aead_encrypt
  encrypt_running e bloom p c n1 running (some_text, small) h =
      if_false (length p == 0) _ _ (ground arith)
      ∙ if_false (e.init == 0) _ _ (ground arith)
      ∙ encrypt_chunk-sealed e bloom p c n1 [] (some_text, small) h

  encrypt_first :
      (e : CipherCtx) (bloom : PpBloom B) (p c n1 : Bytes)
      → e.init ≡ 0
      → IsText p
      → aead_chunk_encrypt C
          (record (aead_cipher_ctx_set_key C e) { init = 1 })
          p
          (aead_cipher_ctx_set_key C e).nonce
          (length p)
        ≡ sealed c n1
      → aead_encrypt C B p e bloom ≡ (
        (
          record (aead_cipher_ctx_set_key C e) { init = 1; nonce = n1 },
          remember C B bloom (ctx_salt e),
        ),
        crypto_ok (ctx_salt e ++ c),
      )
  unfolding aead_encrypt aead_cipher_ctx_set_key
  encrypt_first e bloom p c n1 new (some_text, small) h =
      if_false (length p == 0) _ _ (ground arith)
      ∙ if_true (e.init == 0) _ _ (ground arith)
      ∙ encrypt_chunk-sealed (record (aead_cipher_ctx_set_key C e) { init = 1 })
          (remember C B bloom (ctx_salt e)) p c n1 (ctx_salt e) (some_text, small) h

module _ (C : CryptoLibrary) (laws : CryptoLaws C) (B : BloomLibrary) where
  -- On a running context the calls seal the texts one after the other.
  send_all-IsWire :
      (b d : CipherCtx) (bloom : PpBloom B) (n : Bytes) (ps : List Bytes)
      → b.init ≡ 1
      → Agree b d
      → All IsText ps
      → (w n' : Bytes) × (send_all C B ps (record b { nonce = n }) bloom
          ≡ some ((record b { nonce = n' }, bloom), w))
        × IsWire C b n ps w n'
  send_all-IsWire b d bloom n [] running h texts = ([], n, refl, wire_nil n)
  send_all-IsWire b d bloom n (p ∷ ps) running h ((some_text, small), texts) =
      let (c, sealing, size, opening, short) =
        chunk_encrypt-chunk_decrypt C laws b d p n h some_text small in
      let n1 = C.sodium_increment (C.sodium_increment n) in
      let (w, n', sent, wire) = send_all-IsWire b d bloom n1 ps running h texts in
      let one =
        encrypt_running C B (record b { nonce = n }) bloom p c n1 running (some_text, small)
          (chunk_same C B b n p n (length p) ∙ sealing) in
      (
        c ++ w,
        n',
        send_all_cons C B p ps (record b { nonce = n }) bloom (record b { nonce = n1 }, bloom)
            (record b { nonce = n' }, bloom) c w one sent,
        wire_cons n p c n1 ps w n' some_text small sealing wire,
      )

  IsWire-same :
      (b : CipherCtx) (x n : Bytes) (ps : List Bytes) (w n' : Bytes)
      → IsWire C b n ps w n'
      → IsWire C (record b { nonce = x }) n ps w n'
  IsWire-same b x n ps w n' (wire_nil m) = wire_nil m
  IsWire-same b x n ps w n' (wire_cons m p c n1 qs v k some_text small sealing wire) =
      wire_cons m p c n1 qs v n' some_text small (chunk_same C B b x p m (length p) ∙ sealing)
        (IsWire-same b x n1 qs v n' wire)

  -- Nothing is a part of a next chunk.
  nil-IsPart : (e d : CipherCtx) (p n : Bytes) → Agree e d → IsText p → IsPart C e n []
  nil-IsPart e d p n h (some_text, small) =
      let (c, sealing, size, opening, short) =
        chunk_encrypt-chunk_decrypt C laws e d p n h some_text small in
      (
        p,
        c,
        C.sodium_increment (C.sodium_increment n),
        0,
        some_text,
        small,
        sealing,
        omega arith,
        refl,
      )

  keyed-Agree :
      (e d : CipherCtx) (n : Bytes)
      → e.cipher ≡ d.cipher
      → e.hw_aes ≡ d.hw_aes
      → d.cipher.tag_len ≡ 16
      → Agree (record (aead_cipher_ctx_set_key C e) { init = 1; nonce = n }) (keyed C d e.salt)
  unfolding aead_cipher_ctx_set_key
  keyed-Agree e d n same_cipher same_hw tag = record {
    same_method = ap (λ (c : Cipher). c.method) same_cipher;
    same_hw = same_hw;
    same_key = ap (λ (c : Cipher). C.hkdf_subkey (take c.key_len e.salt) c.key) same_cipher;
    tag_e = ap (λ (c : Cipher). c.tag_len) same_cipher ∙ tag;
    tag_d = tag;
  }

  -- Take a sender and a receiver on fresh contexts of one cipher, which keeps its laws and whose
  -- tags have 16 bytes. The sender's salt has the length of the key and is not known to the
  -- receiver. When the sender encrypts one or more texts of 1 to 0x3FFF bytes one after the other,
  -- and all the bytes arrive in one call, every call succeeds and the receiver gets the texts
  -- joined; both note the salt.
  pub send_all-aead_decrypt :
      (e d : CipherCtx) (sender receiver : PpBloom B) (p : Bytes) (ps : List Bytes)
      → e.init ≡ 0
      → d.init ≡ 0
      → d.chunk ≡ none
      → e.cipher ≡ d.cipher
      → e.hw_aes ≡ d.hw_aes
      → d.cipher.tag_len ≡ 16
      → length e.salt ≡ d.cipher.key_len
      → ppbloom_check B receiver e.salt ≡ some false
      → All IsText (p ∷ ps)
      → (e' : CipherCtx) × (w n' : Bytes) × (send_all C B (p ∷ ps) e sender
          ≡ some ((e', remember C B sender e.salt), w))
        × Begins C B e' receiver e.salt n' (concat (p ∷ ps)) [] (aead_decrypt C B w d receiver)
  unfolding aead_cipher_ctx_set_key
  send_all-aead_decrypt e d sender receiver p ps new_e new_d empty same_cipher same_hw tag size
        fresh ((some_text, small), texts) =
      let key_len = ap (λ (k : Cipher). k.key_len) same_cipher in
      let whole = take_of_length-le e.cipher.key_len e.salt (omega (arith, key_len, size)) in
      let keyed_e = record (aead_cipher_ctx_set_key C e) { init = 1 } in
      let zeros = replicate e.cipher.nonce_len 0 in
      let agree = keyed-Agree e d zeros same_cipher same_hw tag in
      let (c, sealing, long, opening, short) =
        chunk_encrypt-chunk_decrypt C laws keyed_e (keyed C d e.salt) p zeros agree some_text
          small in
      let n1 = C.sodium_increment (C.sodium_increment zeros) in
      let noted = remember C B sender (ctx_salt e) in
      let (w, n', sent, wire) =
        send_all-IsWire keyed_e (keyed C d e.salt) noted n1 ps refl agree texts in
      let e' = record keyed_e { nonce = n' } in
      let one = encrypt_first C B e sender p c n1 new_e (some_text, small) sealing in
      let all =
        send_all_cons C B p ps e sender (record keyed_e { nonce = n1 }, noted) (e', noted)
          (ctx_salt e ++ c) w one sent in
      let start = ap (λ (k : Cipher). replicate k.nonce_len 0) same_cipher in
      let agree' = keyed-Agree e d n' same_cipher same_hw tag in
      let wire' =
        subst (λ z. IsWire C e' z (p ∷ ps) (c ++ w) n') start
          (IsWire-same keyed_e n' zeros (p ∷ ps) (c ++ w) n'
            (wire_cons zeros p c n1 ps w n' some_text small sealing wire)) in
      let bytes =
        append_assoc (ctx_salt e) c w
        ∙ ap (λ s. s ++ (c ++ w)) whole
        ∙ ap (λ t. e.salt ++ t) (sym (append-nil (c ++ w))) in
      (
        e',
        (ctx_salt e ++ c) ++ w,
        n',
        all ∙ ap (λ s. some ((e', remember C B sender s), (ctx_salt e ++ c) ++ w)) whole,
        aead_decrypt-Begins C B laws e' d receiver ((ctx_salt e ++ c) ++ w) e.salt p ps (c ++ w) n'
            [] new_d empty size fresh agree' some_text wire'
            (nil-IsPart e' (keyed C d e.salt) p n' agree' (some_text, small)) bytes,
      )
