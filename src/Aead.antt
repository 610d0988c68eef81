-- ===== src/Aead.antt =====
-- The AEAD framing of aead.c: the cipher contexts, packets and the TCP stream of chunks.
-- The ciphers themselves, HKDF and the nonce increment (libsodium, mbed TLS) are the parameter
-- `CryptoLibrary`; the salts in use are kept by ppbloom.c.
pub mod Ciphers
pub mod Chunk
pub mod Stream
pub mod Resume
pub mod Begin
pub mod Send
pub mod Packet
unfoldable pub use Ciphers.*
use outline_multiport_server.Base.{
  ℕ, zero, suc, ◌+◌, ◌-◌, ◌*◌, ◌/◌, ◌%◌, max, Bool, true, false, not, Option, none, some, List, [],
  ◌∷◌, ◌++◌, Bytes, length, take, drop, get_or, replicate, leb, ltb, ◌==◌, if◌then◌else◌,
}
use outline_multiport_server.PpBloom.{BloomLibrary, PpBloom, ppbloom_check, ppbloom_add}

-- The results CRYPTO_OK with the text that replaces the input, CRYPTO_ERROR and CRYPTO_NEED_MORE,
-- and a failed assertion.
pub data CryptoResult : Type 0 where
  crypto_ok : Bytes → CryptoResult
  crypto_error : CryptoResult
  crypto_need_more : CryptoResult
  crypto_abort : CryptoResult

-- The bytes of a buffer from its index on, behind `cidx` that were used up.
abbrev pub buffer_view : Buffer → ℕ → Bytes
buffer_view b cidx = take b.len (drop (b.idx + cidx) b.data_bytes)

-- What the loop of `aead_decrypt` ends with: the nonce, the chunk buffer, and the result.
pub record LoopEnd : Type 0 where
  pub end_nonce : Bytes
  pub end_chunk : Buffer
  pub end_result : CryptoResult

module _ (C : CryptoLibrary) where
  -- The loop, with `cidx` bytes used and `out` written; each round uses up bytes, so the length of
  -- the data bounds the rounds.
  unfoldable pub decrypt_loop : ℕ → CipherCtx → Buffer → ℕ → Bytes → Bytes → LoopEnd
  decrypt_loop zero ctx b cidx n out = record {
    end_nonce = n;
    end_chunk = b;
    end_result = crypto_abort;
  }
  decrypt_loop (suc fuel) ctx b cidx n out = elim (b.len == 0) [
    | true ↦ record { end_nonce = n; end_chunk = b; end_result = crypto_ok out }
    | false ↦ elim (aead_chunk_decrypt C ctx (buffer_view b cidx) n) [
      | open_error n' ↦ record { end_nonce = n'; end_chunk = b; end_result = crypto_error }
      | open_abort ↦ record { end_nonce = n; end_chunk = b; end_result = crypto_abort }
      | open_need_more ↦
          if length out == 0
          then record { end_nonce = n; end_chunk = b; end_result = crypto_need_more }
          else record {
            end_nonce = n;
            end_chunk = record b { idx = b.idx + cidx };
            end_result = crypto_ok out;
          }
      | opened p n' clen ↦
          decrypt_loop fuel ctx (record b { len = clen })
            (cidx + (ctx.cipher.tag_len * 2 + chunk_size_len + length p)) n' (out ++ p)
    ]
  ]

-- The chunk buffer with the new bytes behind its own.
unfoldable pub take_in : Option Buffer → Bytes → Buffer
take_in none bytes = record { idx = 0; len = length bytes; data_bytes = bytes }
take_in (some b) bytes =
    if b.len == 0 then record { idx = 0; len = length bytes; data_bytes = bytes } else record {
      idx = 0;
      len = b.len + length bytes;
      data_bytes = take b.len (drop b.idx b.data_bytes) ++ bytes;
    }

module _ (C : CryptoLibrary) (B : BloomLibrary) where
  open B use {Bloom}

  -- `ppbloom_add` with its result ignored.
  unfoldable pub remember : PpBloom B → Bytes → PpBloom B
  remember bloom salt = elim (ppbloom_add B bloom salt) [ none ↦ bloom | some b ↦ b ]

  abbrev pub Crypto : Type 0
  Crypto = CipherCtx × PpBloom B

  -- The end of `aead_encrypt`: one chunk, behind the salt where `front` is one. The callers' texts
  -- have at most SOCKET_BUF_SIZE bytes, so that the `uint16_t` of the chunk keeps their length; for
  -- longer ones the C code would send a buffer of the full length.
  unfoldable pub encrypt_chunk : Bytes → CipherCtx → PpBloom B → Bytes → Crypto × CryptoResult
  encrypt_chunk plaintext ctx bloom front =
      elim (aead_chunk_encrypt C ctx plaintext ctx.nonce (length plaintext % 0x1_0000)) [
        | seal_error n ↦ ((record ctx { nonce = n }, bloom), crypto_error)
        | seal_abort ↦ ((ctx, bloom), crypto_abort)
        | sealed c n ↦ ((record ctx { nonce = n }, bloom), crypto_ok (front ++ c))
      ]

  -- `aead_encrypt`. On success the result is the text for the wire.
  unfoldable pub aead_encrypt : Bytes → CipherCtx → PpBloom B → Crypto × CryptoResult
  aead_encrypt plaintext ctx bloom =
      if length plaintext == 0
      then ((ctx, bloom), crypto_ok [])
      else if ctx.init == 0
      then encrypt_chunk plaintext (record (aead_cipher_ctx_set_key C ctx) { init = 1 })
          (remember bloom (ctx_salt ctx)) (ctx_salt ctx)
      else encrypt_chunk plaintext ctx bloom []

  -- The end of `aead_decrypt`, after the loop: an empty buffer starts over, and the salt of a
  -- stream that showed a chunk is noted.
  unfoldable pub decrypt_end : CipherCtx → PpBloom B → LoopEnd → Crypto × CryptoResult
  decrypt_end ctx bloom e =
      let ctx1 = record ctx { nonce = e.end_nonce; chunk = some e.end_chunk } in
      elim e.end_result [
        | crypto_error ↦ ((ctx1, bloom), crypto_error)
        | crypto_need_more ↦ ((ctx1, bloom), crypto_need_more)
        | crypto_abort ↦ ((ctx1, bloom), crypto_abort)
        | crypto_ok out ↦
            let chunk =
              if e.end_chunk.len == 0 then record (e.end_chunk) { idx = 0 } else e.end_chunk in
            let ctx2 = record ctx1 { chunk = some chunk } in
            if ctx.init == 1
            then elim (ppbloom_check B bloom (ctx_salt ctx)) [
              | some true ↦ ((ctx2, bloom), crypto_error)
              | _ ↦ ((record ctx2 { init = 2 }, remember bloom (ctx_salt ctx)), crypto_ok out)
            ]
            else ((ctx2, bloom), crypto_ok out)
      ]

  -- The loop and the end.
  unfoldable pub decrypt_chunks : CipherCtx → PpBloom B → Buffer → Crypto × CryptoResult
  decrypt_chunks ctx bloom chunk =
      decrypt_end ctx bloom (decrypt_loop C (suc chunk.len) ctx chunk 0 ctx.nonce [])

  unfoldable pub aead_decrypt : Bytes → CipherCtx → PpBloom B → Crypto × CryptoResult
  aead_decrypt ciphertext ctx bloom =
      let chunk = take_in ctx.chunk ciphertext in
      let salt_len = ctx.cipher.key_len in
      let held = record ctx { chunk = some chunk } in
      if not (ctx.init == 0)
      then decrypt_chunks held bloom chunk
      else if leb chunk.len salt_len
      then ((held, bloom), crypto_need_more)
      else let salted = record held { salt = take salt_len (drop chunk.idx chunk.data_bytes) } in
        elim (ppbloom_check B bloom (ctx_salt salted)) [
          | some true ↦ ((salted, bloom), crypto_error)
          | _ ↦
              let rest = record chunk { idx = chunk.idx + salt_len; len = chunk.len - salt_len } in
              decrypt_chunks
                (record (aead_cipher_ctx_set_key C salted) { init = 1; chunk = some rest }) bloom
                rest
        ]

  -- UDP: `aead_encrypt_all` and `aead_decrypt_all` on a fresh context.
  unfoldable pub aead_encrypt_all :
      Bytes → Cipher → Bool → Bytes → PpBloom B → PpBloom B × CryptoResult
  aead_encrypt_all plaintext cipher aes_available salt bloom =
      let ctx = aead_cipher_ctx_set_key C (aead_ctx_init cipher aes_available (some salt)) in
      let bloom1 = remember bloom (ctx_salt ctx) in
      elim (aead_cipher_encrypt C ctx plaintext ctx.nonce) [
        | none ↦ (bloom1, crypto_error)
        | some c ↦
            if length c == cipher.tag_len + length plaintext
            then (bloom1, crypto_ok (ctx_salt ctx ++ c))
            else (bloom1, crypto_abort)
      ]

  unfoldable pub aead_decrypt_all : Bytes → Cipher → Bool → PpBloom B → PpBloom B × CryptoResult
  aead_decrypt_all ciphertext cipher aes_available bloom =
      let salt_len = cipher.key_len in
      if leb (length ciphertext) (salt_len + cipher.tag_len)
      then (bloom, crypto_error)
      else let salt = take salt_len ciphertext in
        elim (ppbloom_check B bloom salt) [
          | some true ↦ (bloom, crypto_error)
          | _ ↦
              let ctx =
                aead_cipher_ctx_set_key C
                  (record (aead_ctx_init cipher aes_available none) { salt = salt }) in
              elim (aead_cipher_decrypt C ctx (drop salt_len ciphertext) ctx.nonce) [
                | none ↦ (bloom, crypto_error)
                | some p ↦ (remember bloom salt, crypto_ok p)
              ]
        ]
