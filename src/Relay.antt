-- ===== src/Relay.antt =====
-- One connection of server.c: the client's socket, the remote's socket and what is relayed between
-- them. Children: Header reads the address that the client asks for, Sockets has one `send`, Events
-- the callbacks, Ciphers the AEAD ciphers as their cipher; the others hold proofs.
pub mod Header
pub mod Sockets
pub mod Events
pub mod Names
pub mod Sends
pub mod Flow
pub mod Asking
pub mod Upward
pub mod Downward
pub mod Runs
pub mod Ciphers
pub mod Drain
use outline_multiport_server.Base.{
  ℕ, ◌+◌, ◌-◌, Bool, true, false, Option, none, some, List, [], ◌∷◌, ◌++◌, Bytes, length, take,
  drop,
}
use outline_multiport_server.Aead.{Buffer, CryptoResult}

-- The bytes of a buffer that are in use.
abbrev pub pending : Buffer → Bytes
pending b = take b.len (drop b.idx b.data_bytes)

-- The bytes at the buffer's start replaced, and `len` set to their number; `idx` stays.
abbrev pub store : Bytes → Buffer → Buffer
store t b = record b { data_bytes = t ++ drop (length t) b.data_bytes; len = length t }

abbrev pub balloc : Buffer
balloc = record { data_bytes = []; idx = 0; len = 0 }

pub data Stage : Type 0 where
  stage_init stage_resolve stage_stream stage_stop : Stage

-- The function pointers of `crypto_t` for streams, with their contexts. A buffer is its bytes.
pub record StreamCrypto : Type 1 where
  pub EncryptCtx : Type 0
  pub DecryptCtx : Type 0
  pub Shared : Type 0
  pub encrypt : EncryptCtx × Shared → Bytes → (EncryptCtx × Shared) × CryptoResult
  pub decrypt : DecryptCtx × Shared → Bytes → (DecryptCtx × Shared) × CryptoResult

-- `remote_t`. The watchers are on where `ev_io_start` has started them.
pub record Remote : Type 0 where
  pub buf : Buffer
  pub connected : Bool
  pub recv_on : Bool
  pub send_on : Bool

-- `server_t`, with the bytes that `send` took on either socket. `opened` is what decryption gave
-- behind the address, and `sealed` what encryption gave. `shared` is what all connections of the
-- program share, as this connection finds it.
pub record Session (K : StreamCrypto) : Type 0 where
  pub alive : Bool
  pub stage : Stage
  pub frag : ℕ
  pub buf : Buffer
  pub e_ctx : K.EncryptCtx
  pub d_ctx : K.DecryptCtx
  pub shared : K.Shared
  pub remote : Option Remote
  pub recv_on : Bool
  pub send_on : Bool
  pub opened : Bytes
  pub sealed : Bytes
  pub forwarded : Bytes
  pub returned : Bytes

-- What `recv` answers.
pub data Received : Type 0 where
  got : Bytes → Received
  end_of_stream recv_again recv_failed : Received

-- What `send` answers: a number of bytes taken, from the front.
pub data Sending : Type 0 where
  took : ℕ → Sending
  send_again send_failed : Sending
