-- ===== src/Aead/Packet.antt =====
-- The UDP packets of aead.c: the round trip, and the refusal of a packet that was seen.
use outline_multiport_server.Base.{
  ◌+◌, ◌<◌, ◌≡◌, refl, sym, ap, ◌∙◌, Bool, true, false, none, some, List, ◌∷◌, ◌++◌, Bytes, length,
  take, drop, replicate, length-append, take_append_length, drop_append_length, take_of_length-le,
  arith, subst,
}
use outline_multiport_server.PpBloom.{BloomLibrary, PpBloom, ppbloom_check}
use outline_multiport_server.PpBloom.Window.{BloomLaws, IsPpBloom, add_all, ppbloom_window}
use outline_multiport_server.Aead.{
  CryptoLibrary, Cipher, CipherCtx, aead_cipher_encrypt, aead_cipher_decrypt,
  aead_cipher_ctx_set_key, aead_ctx_init, crypto_ok, crypto_error, remember, aead_encrypt_all,
  aead_decrypt_all,
}
use outline_multiport_server.Aead.Chunk.{CryptoLaws, Agree, cipher_pair}

-- The contexts of the two calls.
abbrev pub sealing_ctx : CryptoLibrary → Cipher → Bool → Bytes → CipherCtx
sealing_ctx C cipher aes salt = aead_cipher_ctx_set_key C (aead_ctx_init cipher aes (some salt))

abbrev pub opening_ctx : CryptoLibrary → Cipher → Bool → Bytes → CipherCtx
opening_ctx C cipher aes salt =
    aead_cipher_ctx_set_key C (record (aead_ctx_init cipher aes none) { salt = salt })

contexts-Agree :
    (C : CryptoLibrary) (cipher : Cipher) (aes : Bool) (salt : Bytes)
    → cipher.tag_len ≡ 16
    → Agree (sealing_ctx C cipher aes salt) (opening_ctx C cipher aes salt)
unfolding aead_cipher_ctx_set_key aead_ctx_init
contexts-Agree C cipher aes salt tag = record {
  same_method = refl;
  same_hw = refl;
  same_key = refl;
  tag_e = tag;
  tag_d = tag;
}

module _ (C : CryptoLibrary) (B : BloomLibrary) where
  encrypt_all-sealed :
      (cipher : Cipher) (aes : Bool) (p salt body : Bytes) (bloom : PpBloom B)
      → take cipher.key_len salt ≡ salt
      → aead_cipher_encrypt C (sealing_ctx C cipher aes salt) p (replicate cipher.nonce_len 0)
        ≡ some body
      → length body ≡ cipher.tag_len + length p
      → aead_encrypt_all C B p cipher aes salt bloom
        ≡ (remember C B bloom salt, crypto_ok (salt ++ body))
  unfolding aead_encrypt_all aead_cipher_ctx_set_key aead_ctx_init
  encrypt_all-sealed cipher aes p salt body bloom whole h size =
      subst
        (λ s.
          aead_encrypt_all C B p cipher aes salt bloom
          ≡ (remember C B bloom s, crypto_ok (s ++ body)))
        whole (ground (arith, h, size))

  decrypt_all-opened :
      (cipher : Cipher) (aes : Bool) (c p salt body : Bytes) (bloom : PpBloom B)
      → cipher.key_len + cipher.tag_len < length c
      → take cipher.key_len c ≡ salt
      → drop cipher.key_len c ≡ body
      → ppbloom_check B bloom salt ≡ some false
      → aead_cipher_decrypt C (opening_ctx C cipher aes salt) body (replicate cipher.nonce_len 0)
        ≡ some p
      → aead_decrypt_all C B c cipher aes bloom ≡ (remember C B bloom salt, crypto_ok p)
  unfolding aead_decrypt_all aead_cipher_ctx_set_key aead_ctx_init
  decrypt_all-opened cipher aes c p salt body bloom long front back fresh h =
      let known = ap (ppbloom_check B bloom) front ∙ fresh in
      let opens =
        ap
          (λ s.
            aead_cipher_decrypt C (opening_ctx C cipher aes s) (drop cipher.key_len c)
              (replicate cipher.nonce_len 0))
          front
        ∙ ap
            (λ b.
              aead_cipher_decrypt C (opening_ctx C cipher aes salt) b
                (replicate cipher.nonce_len 0))
            back
        ∙ h in
      let result : aead_decrypt_all C B c cipher aes bloom
          ≡ (remember C B bloom (take cipher.key_len c), crypto_ok p) =
        ground (arith, known, opens) in
      result ∙ ap (λ s. (remember C B bloom s, crypto_ok p)) front

  decrypt_all-refused :
      (cipher : Cipher) (aes : Bool) (c : Bytes) (bloom : PpBloom B)
      → ppbloom_check B bloom (take cipher.key_len c) ≡ some true
      → aead_decrypt_all C B c cipher aes bloom ≡ (bloom, crypto_error)
  unfolding aead_decrypt_all
  decrypt_all-refused cipher aes c bloom known = ground (arith, known)

  -- A packet that is opened leaves its salt noted.
  decrypt_all-remembers :
      (cipher : Cipher) (aes : Bool) (c p : Bytes) (bloom bloom1 : PpBloom B)
      → aead_decrypt_all C B c cipher aes bloom ≡ (bloom1, crypto_ok p)
      → remember C B bloom (take cipher.key_len c) ≡ bloom1
  unfolding aead_decrypt_all
  decrypt_all-remembers cipher aes c p bloom bloom1 h = ground arith

  add_all-remember :
      (bloom bloom2 : PpBloom B) (s : Bytes) (ss : List Bytes)
      → add_all B bloom (s ∷ ss) ≡ some bloom2
      → add_all B (remember C B bloom s) ss ≡ some bloom2
  unfolding add_all remember
  add_all-remember bloom bloom2 s ss h = ground arith

  -- With ciphers that keep their laws and tags of 16 bytes: a text that is not empty, sealed with a
  -- salt of the key's length, is opened again by a server with the same key that does not know the
  -- salt. Both servers then note the salt.
  pub encrypt_all-decrypt_all :
      CryptoLaws C
      → (cipher : Cipher) (aes : Bool) (p salt : Bytes) (sender receiver : PpBloom B)
      → cipher.tag_len ≡ 16
      → length salt ≡ cipher.key_len
      → 0 < length p
      → ppbloom_check B receiver salt ≡ some false
      → (c : Bytes) × (aead_encrypt_all C B p cipher aes salt sender
          ≡ (remember C B sender salt, crypto_ok c))
        × (aead_decrypt_all C B c cipher aes receiver ≡ (remember C B receiver salt, crypto_ok p))
  unfolding aead_cipher_ctx_set_key aead_ctx_init
  encrypt_all-decrypt_all laws cipher aes p salt sender receiver tag size some_text fresh =
      let whole = take_of_length-le cipher.key_len salt (omega arith) in
      let (body, sealing, long, opening) =
        cipher_pair C laws (sealing_ctx C cipher aes salt) (opening_ctx C cipher aes salt) p
          (replicate cipher.nonce_len 0) (contexts-Agree C cipher aes salt tag) in
      let all = length-append salt body in
      (
        salt ++ body,
        encrypt_all-sealed cipher aes p salt body sender whole sealing (omega arith),
        decrypt_all-opened cipher aes (salt ++ body) p salt body receiver (omega arith)
            (take_append_length cipher.key_len salt body size)
            (drop_append_length cipher.key_len salt body size) fresh opening,
      )

  -- With filters that keep the laws of libbloom, from a set with room: after a packet was opened,
  -- while fewer salts than a filter holds are noted behind it, every packet with the salt of that
  -- packet is refused.
  pub decrypt_all-replay :
      (laws : BloomLaws B) (cipher : Cipher) (aes : Bool) (c p : Bytes) (bloom bloom1 : PpBloom B)
      (salts : List Bytes)
      → IsPpBloom B laws bloom
      → aead_decrypt_all C B c cipher aes bloom ≡ (bloom1, crypto_ok p)
      → length salts < bloom.entries
      → (bloom2 : PpBloom B) × (add_all B bloom1 salts ≡ some bloom2)
        × ((c' : Bytes)
            → take cipher.key_len c' ≡ take cipher.key_len c
            → aead_decrypt_all C B c' cipher aes bloom2 ≡ (bloom2, crypto_error))
  decrypt_all-replay laws cipher aes c p bloom bloom1 salts h ok few =
      let (bloom2, added, found) =
        ppbloom_window B laws bloom (take cipher.key_len c) salts h few in
      (
        bloom2,
        ap (λ b. add_all B b salts) (sym (decrypt_all-remembers cipher aes c p bloom bloom1 ok))
            ∙ add_all-remember bloom bloom2 (take cipher.key_len c) salts added,
        λ c' same.
            decrypt_all-refused cipher aes c' bloom2 (ap (ppbloom_check B bloom2) same ∙ found),
      )
