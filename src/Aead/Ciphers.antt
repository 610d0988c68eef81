-- ===== src/Aead/Ciphers.antt =====
-- The ciphers of aead.c and one chunk of a stream: a length and a text, each sealed by itself.
use outline_multiport_server.Base.{
  ℕ, ◌+◌, ◌-◌, ◌*◌, ◌/◌, ◌%◌, Bool, true, false, not, Option, none, some, [], ◌∷◌, ◌++◌, Bytes,
  length, take, drop, get_or, replicate, leb, ltb, ◌==◌, if◌then◌else◌,
}

pub data Method : Type 0 where
  aes128gcm aes192gcm aes256gcm chacha20poly1305ietf xchacha20poly1305ietf : Method

-- A cipher call takes the subkey, the nonce and the text; `none` is an error.
abbrev pub CipherCall : Type 0
CipherCall = Bytes → Bytes → Bytes → Option Bytes

pub record CryptoLibrary : Type 0 where
  pub sodium_aes256gcm_encrypt : CipherCall
  pub sodium_aes256gcm_decrypt : CipherCall
  pub mbedtls_auth_encrypt : CipherCall
  pub mbedtls_auth_decrypt : CipherCall
  pub chacha20poly1305_encrypt : CipherCall
  pub chacha20poly1305_decrypt : CipherCall
  pub xchacha20poly1305_encrypt : CipherCall
  pub xchacha20poly1305_decrypt : CipherCall
  pub sodium_increment : Bytes → Bytes
  -- `crypto_hkdf` with the salt, the key and `SUBKEY_INFO`, for a subkey of the key's length.
  pub hkdf_subkey : Bytes → Bytes → Bytes

-- `cipher_t`
pub record Cipher : Type 0 where
  pub method : Method
  pub key : Bytes
  pub key_len : ℕ
  pub nonce_len : ℕ
  pub tag_len : ℕ

-- A `buffer_t`: `data` holds the bytes before `idx + len`; what lies behind is not read.
pub record Buffer : Type 0 where
  pub idx : ℕ
  pub len : ℕ
  pub data_bytes : Bytes

-- `cipher_ctx_t`. `hw_aes` says that libsodium's AES is in use (`aes256gcm_ctx != NULL`).
pub record CipherCtx : Type 0 where
  pub cipher : Cipher
  pub init : ℕ
  pub hw_aes : Bool
  pub chunk : Option Buffer
  pub salt : Bytes
  pub skey : Bytes
  pub nonce : Bytes

-- The salt of a context: as many bytes as the key has.
abbrev pub ctx_salt : CipherCtx → Bytes
ctx_salt ctx = take ctx.cipher.key_len ctx.salt

abbrev pub chunk_size_len : ℕ
chunk_size_len = 2

-- `CHUNK_SIZE_MASK` is 0x3FFF; a number masked by it is its remainder by 0x4000.
abbrev pub chunk_size_mask : ℕ
chunk_size_mask = 0x3fff

unfoldable pub tag_size : Method → ℕ
tag_size m = 16

unfoldable pub nonce_size : Method → ℕ
nonce_size xchacha20poly1305ietf = 24
nonce_size m = 12

unfoldable pub key_size : Method → ℕ
key_size aes128gcm = 16
key_size aes192gcm = 24
key_size m = 32

module _ (C : CryptoLibrary) where
  -- The cases of `aead_cipher_encrypt`.
  unfoldable pub encrypt_with : Method → Bool → Bytes → Bytes → Bytes → Option Bytes
  encrypt_with aes256gcm true skey n m = C.sodium_aes256gcm_encrypt skey n m
  encrypt_with aes256gcm false skey n m = C.mbedtls_auth_encrypt skey n m
  encrypt_with aes192gcm hw skey n m = C.mbedtls_auth_encrypt skey n m
  encrypt_with aes128gcm hw skey n m = C.mbedtls_auth_encrypt skey n m
  encrypt_with chacha20poly1305ietf hw skey n m = C.chacha20poly1305_encrypt skey n m
  encrypt_with xchacha20poly1305ietf hw skey n m = C.xchacha20poly1305_encrypt skey n m

  unfoldable pub aead_cipher_encrypt : CipherCtx → Bytes → Bytes → Option Bytes
  aead_cipher_encrypt ctx m n = encrypt_with ctx.cipher.method ctx.hw_aes ctx.skey n m

  -- The cases of `aead_cipher_decrypt`.
  unfoldable pub decrypt_with : Method → Bool → Bytes → Bytes → Bytes → Option Bytes
  decrypt_with aes256gcm true skey n m = C.sodium_aes256gcm_decrypt skey n m
  decrypt_with aes256gcm false skey n m = C.mbedtls_auth_decrypt skey n m
  decrypt_with aes192gcm hw skey n m = C.mbedtls_auth_decrypt skey n m
  decrypt_with aes128gcm hw skey n m = C.mbedtls_auth_decrypt skey n m
  decrypt_with chacha20poly1305ietf hw skey n m = C.chacha20poly1305_decrypt skey n m
  decrypt_with xchacha20poly1305ietf hw skey n m = C.xchacha20poly1305_decrypt skey n m

  unfoldable pub aead_cipher_decrypt : CipherCtx → Bytes → Bytes → Option Bytes
  aead_cipher_decrypt ctx m n = decrypt_with ctx.cipher.method ctx.hw_aes ctx.skey n m

  -- The subkey for the salt, and a nonce of zeros.
  unfoldable pub aead_cipher_ctx_set_key : CipherCtx → CipherCtx
  aead_cipher_ctx_set_key ctx = record ctx {
    skey = C.hkdf_subkey (ctx_salt ctx) ctx.cipher.key;
    nonce = replicate ctx.cipher.nonce_len 0;
  }

-- `aead_ctx_init`: all zero, and for an encrypting context the random bytes of `rand_bytes` as the
-- salt. `aes_available` is libsodium's answer.
unfoldable pub aead_ctx_init : Cipher → Bool → Option Bytes → CipherCtx
aead_ctx_init cipher aes_available salt = record {
  cipher = cipher;
  init = 0;
  hw_aes = elim cipher.method [ aes256gcm ↦ aes_available | _ ↦ false ];
  chunk = none;
  salt = elim salt [ none ↦ [] | some s ↦ s ];
  skey = [];
  nonce = [];
}

-- What sealing a chunk gives: its bytes and the next nonce, an error and the nonce as it then is,
-- or a failed assertion.
pub data Sealed : Type 0 where
  sealed : Bytes → Bytes → Sealed
  seal_error : Bytes → Sealed
  seal_abort : Sealed

-- What opening a chunk gives: the text, the next nonce and the bytes that are left behind it, or
-- an error and the nonce as it then is, or a wish for more bytes.
pub data Opened : Type 0 where
  opened : Bytes → Bytes → ℕ → Opened
  open_error : Bytes → Opened
  open_need_more : Opened
  open_abort : Opened

-- `uint16_t t = htons(plen)` as its two bytes.
abbrev pub len_buf : ℕ → Bytes
len_buf plen = plen / 256 ∷ plen % 256 ∷ []

-- `load16_be`
abbrev pub load16_be : Bytes → ℕ
load16_be b = get_or b 0 0 * 256 + get_or b 1 0

module _ (C : CryptoLibrary) where
  -- `plen` is the length as `uint16_t`. The assertions on the lengths that the cipher returns are
  -- tests of its results.
  unfoldable pub aead_chunk_encrypt : CipherCtx → Bytes → Bytes → ℕ → Sealed
  aead_chunk_encrypt ctx p n plen =
      if ltb chunk_size_mask plen
      then seal_abort
      else elim (aead_cipher_encrypt C ctx (len_buf (plen % 0x4000)) n) [
        | none ↦ seal_error n
        | some head ↦
            if not (length head == chunk_size_len + ctx.cipher.tag_len)
            then seal_abort
            else let n1 = C.sodium_increment n in
              elim (aead_cipher_encrypt C ctx (take plen p) n1) [
                | none ↦ seal_error n1
                | some body ↦
                    if not (length body == plen + ctx.cipher.tag_len)
                    then seal_abort
                    else sealed (head ++ body) (C.sodium_increment n1)
              ]
      ]

  -- The part of `aead_chunk_decrypt` behind the length: `c` are the bytes at hand, `mlen` is the
  -- masked length.
  unfoldable pub open_payload : CipherCtx → Bytes → Bytes → ℕ → Opened
  open_payload ctx c n mlen =
      let tlen = ctx.cipher.tag_len in
      let chunk_len = 2 * tlen + chunk_size_len + mlen in
      if mlen == 0
      then open_error n
      else if ltb (length c) chunk_len
      then open_need_more
      else let n1 = C.sodium_increment n in
        elim (aead_cipher_decrypt C ctx (take (mlen + tlen) (drop (chunk_size_len + tlen) c)) n1) [
          | none ↦ open_error n1
          | some p ↦
              if not (length p == mlen)
              then open_abort
              else opened p (C.sodium_increment n1) (length c - chunk_len)
        ]

  -- `aead_chunk_decrypt` on the bytes at hand.
  unfoldable pub aead_chunk_decrypt : CipherCtx → Bytes → Bytes → Opened
  aead_chunk_decrypt ctx c n =
      let tlen = ctx.cipher.tag_len in
      if leb (length c) (2 * tlen + chunk_size_len)
      then open_need_more
      else elim (aead_cipher_decrypt C ctx (take (chunk_size_len + tlen) c) n) [
        | none ↦ open_error n
        | some head ↦
            if not (length head == chunk_size_len)
            then open_abort
            else open_payload ctx c n (load16_be head % 0x4000)
      ]
