-- ===== src/Aead/Chunk.antt =====
-- One chunk of the stream of aead.c: what is sealed is opened again, and a part of it asks for
-- more.
use outline_multiport_server.Base.{
  ℕ, ◌+◌, ◌-◌, ◌%◌, ◌≤◌, ◌<◌, ◌≡◌, sym, ap, ◌∙◌, inl, inr, Bool, true, false, some, Bool-cases,
  ◌++◌, Bytes, length, take, drop, length-append, take_append_length, drop_append_length,
  take-take_le, length-take, append_assoc, take_of_length-le, arith, leb,
}
use outline_multiport_server.Aead.{
  Method, aes128gcm, aes192gcm, aes256gcm, chacha20poly1305ietf, xchacha20poly1305ietf, CipherCall,
  CryptoLibrary, CipherCtx, chunk_size_len, chunk_size_mask, encrypt_with, decrypt_with,
  aead_cipher_encrypt, aead_cipher_decrypt, sealed, opened, open_need_more, len_buf, load16_be,
  aead_chunk_encrypt, open_payload, aead_chunk_decrypt,
}

-- What the libraries document of an AEAD cipher with a tag of 16 bytes: sealing succeeds, adds the
-- tag, and what was sealed opens under the same key and nonce.
abbrev pub IsAead : CipherCall → CipherCall → Type 0
IsAead encrypt decrypt =
    (k n m : Bytes)
    → (c : Bytes) × (encrypt k n m ≡ some c) × (length c ≡ length m + 16) × (decrypt k n c ≡ some m)

pub record CryptoLaws (C : CryptoLibrary) : Type 0 where
  pub sodium_aes256gcm : IsAead C.sodium_aes256gcm_encrypt C.sodium_aes256gcm_decrypt
  pub mbedtls_auth : IsAead C.mbedtls_auth_encrypt C.mbedtls_auth_decrypt
  pub chacha20poly1305 : IsAead C.chacha20poly1305_encrypt C.chacha20poly1305_decrypt
  pub xchacha20poly1305 : IsAead C.xchacha20poly1305_encrypt C.xchacha20poly1305_decrypt

-- Two contexts with the same method, cipher and subkey, and tags of 16 bytes.
pub record Agree (e d : CipherCtx) : Type 0 where
  pub same_method : e.cipher.method ≡ d.cipher.method
  pub same_hw : e.hw_aes ≡ d.hw_aes
  pub same_key : e.skey ≡ d.skey
  pub tag_e : e.cipher.tag_len ≡ 16
  pub tag_d : d.cipher.tag_len ≡ 16

module _ (C : CryptoLibrary) (laws : CryptoLaws C) where
  with_pair :
      (x : Method) (hw : Bool) (k n m : Bytes)
      → (c : Bytes) × (encrypt_with C x hw k n m ≡ some c)
        × (length c ≡ length m + 16)
        × (decrypt_with C x hw k n c ≡ some m)
  unfolding encrypt_with decrypt_with
  with_pair aes128gcm hw k n m = laws.mbedtls_auth k n m
  with_pair aes192gcm hw k n m = laws.mbedtls_auth k n m
  with_pair aes256gcm true k n m = laws.sodium_aes256gcm k n m
  with_pair aes256gcm false k n m = laws.mbedtls_auth k n m
  with_pair chacha20poly1305ietf hw k n m = laws.chacha20poly1305 k n m
  with_pair xchacha20poly1305ietf hw k n m = laws.xchacha20poly1305 k n m

  pub cipher_pair :
      (e d : CipherCtx) (m n : Bytes)
      → Agree e d
      → (c : Bytes) × (aead_cipher_encrypt C e m n ≡ some c)
        × (length c ≡ length m + 16)
        × (aead_cipher_decrypt C d c n ≡ some m)
  unfolding aead_cipher_encrypt aead_cipher_decrypt
  cipher_pair e d m n h =
      let (c, sealing, size, opening) = with_pair e.cipher.method e.hw_aes e.skey n m in
      (
        c,
        sealing,
        size,
        ap (λ x. decrypt_with C x d.hw_aes d.skey n c) (sym h.same_method)
            ∙ ap (λ x. decrypt_with C e.cipher.method x d.skey n c) (sym h.same_hw)
            ∙ ap (λ x. decrypt_with C e.cipher.method e.hw_aes x n c) (sym h.same_key)
            ∙ opening,
      )

  -- Sealing a chunk, stage by stage.
  pub chunk_encrypt-sealed :
      (e : CipherCtx) (p n head body : Bytes)
      → e.cipher.tag_len ≡ 16
      → length p ≤ chunk_size_mask
      → aead_cipher_encrypt C e (len_buf (length p % 0x4000)) n ≡ some head
      → length head ≡ 18
      → aead_cipher_encrypt C e p (C.sodium_increment n) ≡ some body
      → length body ≡ length p + 16
      → aead_chunk_encrypt C e p n (length p)
        ≡ sealed (head ++ body) (C.sodium_increment (C.sodium_increment n))
  unfolding aead_chunk_encrypt
  chunk_encrypt-sealed e p n head body tag small h1 l1 h2 l2 =
      let whole =
        ap (λ x. aead_cipher_encrypt C e x (C.sodium_increment n))
          (take_of_length-le (length p) p (omega arith))
        ∙ h2 in
      ground (arith, whole)

  load-len_buf : (l : ℕ) → l ≤ chunk_size_mask → load16_be (len_buf (l % 0x4000)) % 0x4000 ≡ l
  load-len_buf l h = omega arith

  -- Opening, stage by stage: the length, and then the text behind it.
  chunk_decrypt-head :
      (d : CipherCtx) (b n head : Bytes) (l : ℕ)
      → d.cipher.tag_len ≡ 16
      → 34 < length b
      → take 18 b ≡ head
      → l ≤ chunk_size_mask
      → aead_cipher_decrypt C d head n ≡ some (len_buf (l % 0x4000))
      → aead_chunk_decrypt C d b n ≡ open_payload C d b n l
  unfolding aead_chunk_decrypt
  chunk_decrypt-head d b n head l tag long front small h =
      let sized =
        ap (λ x. aead_cipher_decrypt C d x n) (ap (λ t. take (chunk_size_len + t) b) tag ∙ front)
        ∙ h in
      ground (arith, sized, load-len_buf l small)

  open_payload-opened :
      (d : CipherCtx) (b n p body : Bytes)
      → d.cipher.tag_len ≡ 16
      → 0 < length p
      → length p + 34 ≤ length b
      → take (length p + 16) (drop 18 b) ≡ body
      → aead_cipher_decrypt C d body (C.sodium_increment n) ≡ some p
      → open_payload C d b n (length p)
        ≡ opened p (C.sodium_increment (C.sodium_increment n)) (length b - (length p + 34))
  unfolding open_payload
  open_payload-opened d b n p body tag some_text long inside h =
      let whole =
        ap (λ x. aead_cipher_decrypt C d x (C.sodium_increment n))
          (ap (λ t. take (length p + t) (drop (chunk_size_len + t) b)) tag ∙ inside)
        ∙ h in
      ground (arith, whole)

  open_payload-short :
      (d : CipherCtx) (b n : Bytes) (l : ℕ)
      → d.cipher.tag_len ≡ 16
      → 0 < l
      → length b < l + 34
      → open_payload C d b n l ≡ open_need_more
  unfolding open_payload
  open_payload-short d b n l tag some_text short = ground arith

  chunk_decrypt-short :
      (d : CipherCtx) (b n : Bytes)
      → d.cipher.tag_len ≡ 16
      → length b ≤ 34
      → aead_chunk_decrypt C d b n ≡ open_need_more
  unfolding aead_chunk_decrypt
  chunk_decrypt-short d b n tag short = ground arith

  -- With ciphers that keep their laws, between contexts of one key with tags of 16 bytes: a text of
  -- 1 to 0x3FFF bytes is sealed into a chunk of 34 bytes more. With whatever comes behind it the
  -- chunk opens to the text, to the nonce that the sealer has, and to the number of bytes behind; a
  -- part of the chunk asks for more bytes.
  pub chunk_encrypt-chunk_decrypt :
      (e d : CipherCtx) (p n : Bytes)
      → Agree e d
      → 0 < length p
      → length p ≤ chunk_size_mask
      → (c : Bytes) × (aead_chunk_encrypt C e p n (length p)
          ≡ sealed c (C.sodium_increment (C.sodium_increment n)))
        × (length c ≡ length p + 34)
        × ((rest : Bytes)
            → aead_chunk_decrypt C d (c ++ rest) n
              ≡ opened p (C.sodium_increment (C.sodium_increment n)) (length rest))
        × ((k : ℕ) → k < length c → aead_chunk_decrypt C d (take k c) n ≡ open_need_more)
  chunk_encrypt-chunk_decrypt e d p n h some_text small =
      let (head, h1, l1, o1) = cipher_pair e d (len_buf (length p % 0x4000)) n h in
      let (body, h2, l2, o2) = cipher_pair e d p (C.sodium_increment n) h in
      let size = length-append head body in
      (
        head ++ body,
        chunk_encrypt-sealed e p n head body h.tag_e small h1 (omega arith) h2 l2,
        omega arith,
        λ rest.
            let all = length-append (head ++ body) rest in
            let behind =
              ap (drop 18) (append_assoc head body rest)
              ∙ drop_append_length 18 head (body ++ rest) (omega arith) in
            chunk_decrypt-head d ((head ++ body) ++ rest) n head (length p) h.tag_d (omega arith)
              (ap (take 18) (append_assoc head body rest)
                ∙ take_append_length 18 head (body ++ rest) (omega arith))
              small o1
            ∙ open_payload-opened d ((head ++ body) ++ rest) n p body h.tag_d some_text
                (omega arith)
                (ap (take (length p + 16)) behind ∙ take_append_length (length p + 16) body rest l2)
                o2
            ∙ ap (opened p (C.sodium_increment (C.sodium_increment n))) (omega arith),
        λ k less.
            let part = length-take k (head ++ body) in
            elim (Bool-cases (leb k 34)) [
              | inl short ↦ chunk_decrypt-short d (take k (head ++ body)) n h.tag_d (ground arith)
              | inr long ↦
                  chunk_decrypt-head d (take k (head ++ body)) n head (length p) h.tag_d
                    (ground arith)
                    (take-take_le 18 k (head ++ body) (ground arith)
                      ∙ take_append_length 18 head body (omega arith))
                    small o1
                  ∙ open_payload-short d (take k (head ++ body)) n (length p) h.tag_d some_text
                      (ground arith)
            ],
      )
