-- ===== src/Aead/Begin.antt =====
-- The first call of `aead_decrypt` of aead.c on a TCP stream, which starts with the salt.
use outline_multiport_server.Base.{
  ℕ, suc, ◌+◌, ◌-◌, ◌<◌, ◌≡◌, refl, sym, ap, ◌∙◌, false, none, some, List, [], ◌∷◌, ◌++◌, Bytes,
  length, take, drop, replicate, length-append, take_append_length, drop_append_length,
  take_of_length-le, arith, ◌==◌, if◌then◌else◌, subst,
}
use outline_multiport_server.PpBloom.{BloomLibrary, PpBloom, ppbloom_check}
use outline_multiport_server.Aead.{
  CryptoLibrary, Buffer, CipherCtx, ctx_salt, CryptoResult, crypto_ok, LoopEnd, decrypt_loop,
  take_in, remember, decrypt_end, decrypt_chunks, aead_cipher_ctx_set_key, aead_decrypt, Crypto,
}
use outline_multiport_server.Aead.Chunk.{CryptoLaws, Agree}
use outline_multiport_server.Aead.Stream.{
  concat, IsWire, IsPart, decided, StopsAt, decrypt_loop-StopsAt, wire_size,
}
use outline_multiport_server.Aead.Resume.{Follows, reset_view, reset_len}

-- The context with the salt and its subkey.
abbrev pub keyed : CryptoLibrary → CipherCtx → Bytes → CipherCtx
keyed C d salt = aead_cipher_ctx_set_key C (record d { salt = salt })

-- What is left of the first bytes behind the salt.
abbrev rest_of : ℕ → Bytes → Buffer
rest_of salt_len bytes = record {
  idx = 0 + salt_len;
  len = length bytes - salt_len;
  data_bytes = bytes;
}

module _ (C : CryptoLibrary) (B : BloomLibrary) where
  -- The call with the chunk buffer `t` that holds the bytes.
  begins_with :
      (d : CipherCtx) (bloom : PpBloom B) (bytes : Bytes) (t : Buffer)
      → d.init ≡ 0
      → take_in d.chunk bytes ≡ t
      → d.cipher.key_len < t.len
      → ppbloom_check B bloom
          (take d.cipher.key_len (take d.cipher.key_len (drop t.idx t.data_bytes)))
        ≡ some false
      → let rest = record t { idx = t.idx + d.cipher.key_len; len = t.len - d.cipher.key_len } in
        aead_decrypt C B bytes d bloom
        ≡ decrypt_chunks C B
            (record (keyed C d (take d.cipher.key_len (drop t.idx t.data_bytes))) {
              init = 1;
              chunk = some rest;
            })
            bloom
            rest
  unfolding aead_decrypt aead_cipher_ctx_set_key
  begins_with d bloom bytes t new holding long fresh =
      subst
        (λ t.
          let rest = record t { idx = t.idx + d.cipher.key_len; len = t.len - d.cipher.key_len } in
          d.cipher.key_len < t.len
          → ppbloom_check B bloom
              (take d.cipher.key_len (take d.cipher.key_len (drop t.idx t.data_bytes)))
            ≡ some false
          → aead_decrypt C B bytes d bloom
            ≡ decrypt_chunks C B
                (record (keyed C d (take d.cipher.key_len (drop t.idx t.data_bytes))) {
                  init = 1;
                  chunk = some rest;
                })
                bloom rest)
        holding (λ more unknown. ground (arith, unknown)) long fresh

  begins :
      (d : CipherCtx) (bloom : PpBloom B) (bytes salt : Bytes)
      → d.init ≡ 0
      → d.chunk ≡ none
      → d.cipher.key_len < length bytes
      → take d.cipher.key_len bytes ≡ salt
      → take d.cipher.key_len salt ≡ salt
      → ppbloom_check B bloom salt ≡ some false
      → let rest = rest_of d.cipher.key_len bytes in
        aead_decrypt C B bytes d bloom
        ≡ decrypt_chunks C B (record (keyed C d salt) { init = 1; chunk = some rest }) bloom rest
  unfolding aead_decrypt take_in aead_cipher_ctx_set_key
  begins d bloom bytes salt new empty long front whole fresh =
      let t : Buffer = record { idx = 0; len = length bytes; data_bytes = bytes } in
      let known =
        ap (λ s. ppbloom_check B bloom (take d.cipher.key_len s)) front
        ∙ ap (ppbloom_check B bloom) whole
        ∙ fresh in
      let rest = rest_of d.cipher.key_len bytes in
      begins_with d bloom bytes t new (ap (λ o. take_in o bytes) empty) long known
      ∙ ap
          (λ s.
            decrypt_chunks C B (record (keyed C d s) { init = 1; chunk = some rest }) bloom rest)
          front

  end_first :
      (d : CipherCtx) (bloom : PpBloom B) (n out : Bytes) (c : Buffer)
      → d.init ≡ 1
      → ppbloom_check B bloom (ctx_salt d) ≡ some false
      → decrypt_end C B d bloom
          (record { end_nonce = n; end_chunk = c; end_result = crypto_ok out })
        ≡ (
          (
            record d {
              nonce = n;
              chunk = some (if c.len == 0 then record c { idx = 0 } else c);
              init = 2;
            },
            remember C B bloom (ctx_salt d),
          ),
          crypto_ok out,
        )
  unfolding decrypt_end
  end_first d bloom n out c first fresh = ground (arith, fresh)

  decided-ok : (text tail : Bytes) → 0 < length text → decided text tail ≡ crypto_ok text
  decided-ok text tail some_text = ground arith

  -- What the first call leaves, when it opened the texts.
  abbrev pub Begins :
      CipherCtx → PpBloom B → Bytes → Bytes → Bytes → Bytes → Crypto C B × CryptoResult → Type 0
  Begins e bloom salt n text tail ((d', bloom'), result) =
      (result ≡ crypto_ok text) × Follows e d' n tail × (bloom' ≡ remember C B bloom salt)

  end_first-Begins :
      (e d : CipherCtx) (bloom : PpBloom B) (r : LoopEnd) (n text tail : Bytes)
      → d.init ≡ 1
      → ppbloom_check B bloom (ctx_salt d) ≡ some false
      → Agree e d
      → 0 < length text
      → StopsAt r n text tail
      → Begins e bloom (ctx_salt d) n text tail (decrypt_end C B d bloom r)
  end_first-Begins e d bloom r n text tail first fresh agree some_text (at_n, view, size, result) =
      subst
        (λ x. Begins e bloom (ctx_salt d) n text tail (
          decrypt_end C B d bloom
            (record { end_nonce = r.end_nonce; end_chunk = r.end_chunk; end_result = x })))
        (sym (result ∙ decided-ok text tail some_text))
        (subst (Begins e bloom (ctx_salt d) n text tail)
          (sym (end_first d bloom r.end_nonce text r.end_chunk first fresh))
          (
            refl,
            record {
              running = refl;
              agree = record {
                same_method = agree.same_method;
                same_hw = agree.same_hw;
                same_key = agree.same_key;
                tag_e = agree.tag_e;
                tag_d = agree.tag_d;
              };
              at_nonce = at_n;
              holds = reset_view C B r.end_chunk ∙ view;
              full =
                  ap length (reset_view C B r.end_chunk ∙ view)
                  ∙ sym size
                  ∙ sym (reset_len C B r.end_chunk);
            },
            refl,
          ))

  -- With ciphers that keep their laws and tags of 16 bytes: on a fresh context the first call takes
  -- a salt that is not known, the chunks of one or more texts, the first not empty, that a sender
  -- of the same key sealed from the nonce of zeros, and a part of the next chunk: it gives the
  -- texts joined, notes the salt, and leaves a running stream in step with the sender.
  pub aead_decrypt-Begins :
      CryptoLaws C
      → (e d : CipherCtx) (bloom : PpBloom B) (bytes salt p : Bytes) (ps : List Bytes)
        (w n' tail : Bytes)
      → d.init ≡ 0
      → d.chunk ≡ none
      → length salt ≡ d.cipher.key_len
      → ppbloom_check B bloom salt ≡ some false
      → Agree e (keyed C d salt)
      → 0 < length p
      → IsWire C e (replicate d.cipher.nonce_len 0) (p ∷ ps) w n'
      → IsPart C e n' tail
      → bytes ≡ salt ++ (w ++ tail)
      → Begins e bloom salt n' (concat (p ∷ ps)) tail (aead_decrypt C B bytes d bloom)
  unfolding decrypt_chunks aead_cipher_ctx_set_key
  aead_decrypt-Begins laws e d bloom bytes salt p ps w n' tail new empty size fresh agree some_text
        wire next cut =
      let many = wire_size C laws e (keyed C d salt) _ (p ∷ ps) w n' agree wire in
      let texts = length-append p (concat ps) in
      let total = ap length cut ∙ length-append salt (w ++ tail) in
      let behind = length-append w tail in
      let front =
        ap (take d.cipher.key_len) cut
        ∙ take_append_length d.cipher.key_len salt (w ++ tail) size in
      let back =
        ap (drop d.cipher.key_len) cut
        ∙ drop_append_length d.cipher.key_len salt (w ++ tail) size in
      let whole = take_of_length-le d.cipher.key_len salt (omega arith) in
      let rest = rest_of d.cipher.key_len bytes in
      let ctx = record (keyed C d salt) { init = 1; chunk = some rest } in
      let at : 0 + d.cipher.key_len + 0 ≡ d.cipher.key_len = omega arith in
      let view =
        ap (λ i. take rest.len (drop i bytes)) at
        ∙ ap (take rest.len) back
        ∙ take_of_length-le rest.len (w ++ tail) (omega arith) in
      let agree' : Agree e ctx = record {
        same_method = agree.same_method;
        same_hw = agree.same_hw;
        same_key = agree.same_key;
        tag_e = agree.tag_e;
        tag_d = agree.tag_d;
      } in
      let r = decrypt_loop C (suc rest.len) ctx rest 0 (replicate d.cipher.nonce_len 0) [] in
      let stops =
        decrypt_loop-StopsAt C laws (suc rest.len) e ctx rest 0 (replicate d.cipher.nonce_len 0) []
          tail (p ∷ ps) w n' agree' wire next view (ap length view ∙ omega arith) (omega arith)
          (λ h. refl) in
      let known = ap (ppbloom_check B bloom) whole ∙ fresh in
      let ends =
        end_first-Begins e ctx bloom r n' (concat (p ∷ ps)) tail refl known agree' (omega arith)
          stops in
      subst (Begins e bloom salt n' (concat (p ∷ ps)) tail)
        (sym (begins d bloom bytes salt new empty (omega arith) front whole fresh))
        (subst (λ s. Begins e bloom s n' (concat (p ∷ ps)) tail (decrypt_end C B ctx bloom r)) whole
          ends)
