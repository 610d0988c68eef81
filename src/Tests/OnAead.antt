-- ===== src/Tests/OnAead.antt =====
-- Runs of aead.c and ppbloom.c with a cipher that adds a tag and filters that are lists.
use outline_multiport_server.Base.{
  ℕ, ◌/◌, ◌<◌, ◌≡◌, refl, true, false, none, some, [], ◌∷◌, ◌++◌, Bytes, codes, length, take,
  replicate, arith,
}
use outline_multiport_server.PpBloom.{PpBloom, ping, ppbloom_init, ppbloom_check, ppbloom_add, turn}
use outline_multiport_server.PpBloom.Window.{
  IsPpBloom, add_all, ppbloom_window, ppbloom_init-IsPpBloom,
}
use outline_multiport_server.Aead.{
  chacha20poly1305ietf, Cipher, CipherCtx, aead_cipher_ctx_set_key, aead_ctx_init,
  aead_chunk_encrypt, aead_chunk_decrypt, aead_cipher_encrypt, aead_cipher_decrypt, encrypt_with,
  decrypt_with, sealed, opened, open_need_more, crypto_ok, crypto_error, remember, aead_decrypt,
  aead_encrypt_all, aead_decrypt_all,
}
use outline_multiport_server.Aead.Chunk.{Agree, chunk_encrypt-chunk_decrypt}
use outline_multiport_server.Aead.Stream.{wire_nil, wire_cons}
use outline_multiport_server.Aead.Resume.{Settles, aead_decrypt-Follows}
use outline_multiport_server.Aead.Begin.{keyed, Begins, aead_decrypt-Begins}
use outline_multiport_server.Aead.Send.{send_all, send_all-aead_decrypt}
use outline_multiport_server.Aead.Packet.{encrypt_all-decrypt_all, decrypt_all-replay}
use outline_multiport_server.Aead.Resume.{Follows}
use outline_multiport_server.Aead.Stream.{concat}
use outline_multiport_server.Relay.{Remote, Session, balloc, stage_stream, got, send_again}
use outline_multiport_server.Relay.Ciphers.{GoesOn, aead_stream, server_recv-GoesOn}
use outline_multiport_server.Relay.Events.{no_remote, server_recv_cb}
use outline_multiport_server.Relay.Header.{refused}
use outline_multiport_server.Tests.Libraries.{
  list_bloom, list_bloom-BloomLaws, tag_crypto, tag_crypto-CryptoLaws,
}

-- Filters of two salts.
abbrev bloom : PpBloom list_bloom
bloom = record {
  ppbloom_ping = [];
  ppbloom_pong = [];
  count_ping = 0;
  count_pong = 0;
  current = ping;
  entries = 2;
}

bloom-IsPpBloom : IsPpBloom list_bloom list_bloom-BloomLaws bloom
bloom-IsPpBloom = record {
  ready_ping = list_bloom-BloomLaws.init_ready 2 0 [] refl;
  ready_pong = list_bloom-BloomLaws.init_ready 2 0 [] refl;
  room = omega arith;
  idle = refl;
}

ppbloom_window_example :
    (b : PpBloom list_bloom) × (add_all list_bloom bloom (codes "x" ∷ codes "y" ∷ []) ≡ some b)
    × (ppbloom_check list_bloom b (codes "x") ≡ some true)
ppbloom_window_example =
    ppbloom_window list_bloom list_bloom-BloomLaws bloom (codes "x") (codes "y" ∷ [])
      bloom-IsPpBloom (omega arith)

four_salts : IsPpBloom list_bloom list_bloom-BloomLaws bloom × (2 ≡ 4 / 2)
unfolding ppbloom_init
four_salts = ppbloom_init-IsPpBloom list_bloom list_bloom-BloomLaws 4 0 bloom (omega arith) refl

abbrev cipher : Cipher
cipher = record {
  method = chacha20poly1305ietf;
  key = codes "k";
  key_len = 2;
  nonce_len = 1;
  tag_len = 16;
}

abbrev a_ctx : ℕ → CipherCtx
a_ctx init = record {
  cipher = cipher;
  init = init;
  hw_aes = false;
  chunk = none;
  salt = codes "so";
  skey = codes "sok";
  nonce = 0 ∷ [];
}

a_ctx-Agree : Agree (a_ctx 1) (a_ctx 2)
a_ctx-Agree = record {
  same_method = refl;
  same_hw = refl;
  same_key = refl;
  tag_e = refl;
  tag_d = refl;
}

chunk_encrypt-chunk_decrypt_example :
    (c : Bytes) × (aead_chunk_encrypt tag_crypto (a_ctx 1) (codes "hi") (0 ∷ []) 2
      ≡ sealed c (2 ∷ []))
    × (length c ≡ 36)
    × ((rest : Bytes)
        → aead_chunk_decrypt tag_crypto (a_ctx 2) (c ++ rest) (0 ∷ [])
          ≡ opened (codes "hi") (2 ∷ []) (length rest))
    × ((k : ℕ)
        → k < length c
        → aead_chunk_decrypt tag_crypto (a_ctx 2) (take k c) (0 ∷ []) ≡ open_need_more)
chunk_encrypt-chunk_decrypt_example =
    chunk_encrypt-chunk_decrypt tag_crypto tag_crypto-CryptoLaws (a_ctx 1) (a_ctx 2) (codes "hi")
      (0 ∷ []) a_ctx-Agree (omega arith) (omega arith)

encrypt_all-decrypt_all_example :
    (c : Bytes) × (aead_encrypt_all tag_crypto list_bloom
        (codes "hi")
        cipher
        false
        (codes "so")
        bloom
      ≡ (remember tag_crypto list_bloom bloom (codes "so"), crypto_ok c))
    × (aead_decrypt_all tag_crypto list_bloom c cipher false bloom
        ≡ (remember tag_crypto list_bloom bloom (codes "so"), crypto_ok (codes "hi")))
unfolding ppbloom_check
encrypt_all-decrypt_all_example =
    encrypt_all-decrypt_all tag_crypto list_bloom tag_crypto-CryptoLaws cipher false (codes "hi")
      (codes "so") bloom bloom refl refl (omega arith) refl

-- The packet of that run.
abbrev packet : Bytes
packet = codes "so" ++ (codes "hi" ++ replicate 16 0)

abbrev noted : PpBloom list_bloom
noted = record bloom { ppbloom_ping = codes "so" ∷ []; count_ping = 1 }

packet_opened :
    aead_decrypt_all tag_crypto list_bloom packet cipher false bloom
    ≡ (noted, crypto_ok (codes "hi"))
unfolding aead_decrypt_all ppbloom_check ppbloom_add turn remember aead_cipher_decrypt decrypt_with
    aead_cipher_ctx_set_key aead_ctx_init
packet_opened = refl

decrypt_all-replay_example :
    (bloom2 : PpBloom list_bloom) × (add_all list_bloom noted (codes "y" ∷ []) ≡ some bloom2)
    × ((c' : Bytes)
        → take 2 c' ≡ take 2 packet
        → aead_decrypt_all tag_crypto list_bloom c' cipher false bloom2 ≡ (bloom2, crypto_error))
decrypt_all-replay_example =
    decrypt_all-replay tag_crypto list_bloom list_bloom-BloomLaws cipher false packet (codes "hi")
      bloom noted (codes "y" ∷ []) bloom-IsPpBloom packet_opened (omega arith)

-- A chunk with the text, sealed at any nonce.
abbrev chunk_of : Bytes → Bytes
chunk_of p = (0 ∷ length p ∷ replicate 16 0) ++ (p ++ replicate 16 0)

-- One chunk and the first ten bytes of the next.
aead_decrypt-Follows_example :
    Settles tag_crypto list_bloom
      (a_ctx 1)
      bloom
      (2 ∷ [])
      (codes "hi")
      (take 10 (chunk_of (codes "you")))
      (aead_decrypt tag_crypto list_bloom
        (chunk_of (codes "hi") ++ take 10 (chunk_of (codes "you")))
        (a_ctx 2)
        bloom)
unfolding aead_chunk_encrypt aead_cipher_encrypt encrypt_with
aead_decrypt-Follows_example =
    aead_decrypt-Follows tag_crypto list_bloom tag_crypto-CryptoLaws (a_ctx 1) (a_ctx 2) bloom
      (chunk_of (codes "hi") ++ take 10 (chunk_of (codes "you"))) (0 ∷ []) []
      (take 10 (chunk_of (codes "you"))) (codes "hi" ∷ []) (chunk_of (codes "hi") ++ []) (2 ∷ [])
      (record { running = refl; agree = a_ctx-Agree; at_nonce = refl; holds = refl; full = tt })
      (wire_cons (0 ∷ []) (codes "hi") (chunk_of (codes "hi")) (2 ∷ []) [] [] (2 ∷ []) (omega arith)
        (omega arith) refl (wire_nil (2 ∷ [])))
      (
        codes "you",
        chunk_of (codes "you"),
        4 ∷ [],
        10,
        omega arith,
        omega arith,
        refl,
        omega arith,
        refl,
      )
      refl

-- A sender with the salt, two texts, and a receiver.
send_all-aead_decrypt_example :
    (e' : CipherCtx) × (w n' : Bytes) × (send_all tag_crypto list_bloom
        (codes "hi" ∷ codes "you" ∷ [])
        (a_ctx 0)
        bloom
      ≡ some ((e', remember tag_crypto list_bloom bloom (codes "so")), w))
    × Begins tag_crypto list_bloom e' bloom
        (codes "so")
        n'
        (codes "hiyou")
        []
        (aead_decrypt tag_crypto list_bloom w (a_ctx 0) bloom)
unfolding ppbloom_check
send_all-aead_decrypt_example =
    send_all-aead_decrypt tag_crypto tag_crypto-CryptoLaws list_bloom (a_ctx 0) (a_ctx 0) bloom
      bloom (codes "hi") (codes "you" ∷ []) refl refl refl refl refl refl refl refl
      ((omega arith, omega arith), ((omega arith, omega arith), tt))

a_ctx-keyed : Agree (a_ctx 1) (keyed tag_crypto (a_ctx 0) (codes "so"))
unfolding aead_cipher_ctx_set_key
a_ctx-keyed = record {
  same_method = refl;
  same_hw = refl;
  same_key = refl;
  tag_e = refl;
  tag_d = refl;
}

aead_decrypt-Begins_example :
    Begins tag_crypto list_bloom
      (a_ctx 1)
      bloom
      (codes "so")
      (2 ∷ [])
      (codes "hi")
      (take 10 (chunk_of (codes "you")))
      (aead_decrypt tag_crypto list_bloom
        (codes "so" ++ ((chunk_of (codes "hi") ++ []) ++ take 10 (chunk_of (codes "you"))))
        (a_ctx 0)
        bloom)
unfolding ppbloom_check aead_chunk_encrypt aead_cipher_encrypt encrypt_with
aead_decrypt-Begins_example =
    aead_decrypt-Begins tag_crypto list_bloom tag_crypto-CryptoLaws (a_ctx 1) (a_ctx 0) bloom
      (codes "so" ++ ((chunk_of (codes "hi") ++ []) ++ take 10 (chunk_of (codes "you"))))
      (codes "so") (codes "hi") [] (chunk_of (codes "hi") ++ []) (2 ∷ [])
      (take 10 (chunk_of (codes "you"))) refl refl refl refl a_ctx-keyed (omega arith)
      (wire_cons (0 ∷ []) (codes "hi") (chunk_of (codes "hi")) (2 ∷ []) [] [] (2 ∷ []) (omega arith)
        (omega arith) refl (wire_nil (2 ∷ [])))
      (
        codes "you",
        chunk_of (codes "you"),
        4 ∷ [],
        10,
        omega arith,
        omega arith,
        refl,
        omega arith,
        refl,
      )
      refl

-- A connection that relays, with a remote that takes nothing yet.
abbrev quiet : Remote
quiet = record { buf = balloc; connected = true; recv_on = true; send_on = false }

abbrev relaying : Session (aead_stream tag_crypto list_bloom)
relaying = record {
  alive = true;
  stage = stage_stream;
  frag = 0;
  buf = balloc;
  e_ctx = a_ctx 1;
  d_ctx = a_ctx 2;
  shared = bloom;
  remote = some quiet;
  recv_on = true;
  send_on = false;
  opened = codes "oh ";
  sealed = [];
  forwarded = codes "oh ";
  returned = [];
}

server_recv-GoesOn_example :
    let s' =
      server_recv_cb
        (aead_stream tag_crypto list_bloom)
        (λ s n. refused)
        (got (chunk_of (codes "hi") ++ take 10 (chunk_of (codes "you"))))
        no_remote
        send_again
        relaying in
    GoesOn
      (aead_stream tag_crypto list_bloom)
      send_again
      (codes "oh ")
      (concat (codes "hi" ∷ []))
      s'
    × Follows (a_ctx 1) s'.d_ctx (2 ∷ []) (take 10 (chunk_of (codes "you")))
    × (s'.shared ≡ relaying.shared)
unfolding aead_chunk_encrypt aead_cipher_encrypt encrypt_with
server_recv-GoesOn_example =
    server_recv-GoesOn tag_crypto list_bloom tag_crypto-CryptoLaws (λ s n. refused) no_remote
      send_again quiet relaying (a_ctx 1)
      (chunk_of (codes "hi") ++ take 10 (chunk_of (codes "you"))) (0 ∷ []) []
      (take 10 (chunk_of (codes "you"))) (codes "hi" ∷ []) (chunk_of (codes "hi") ++ []) (2 ∷ [])
      refl refl refl
      (record { running = refl; agree = a_ctx-Agree; at_nonce = refl; holds = refl; full = tt })
      (wire_cons (0 ∷ []) (codes "hi") (chunk_of (codes "hi")) (2 ∷ []) [] [] (2 ∷ []) (omega arith)
        (omega arith) refl (wire_nil (2 ∷ [])))
      (
        codes "you",
        chunk_of (codes "you"),
        4 ∷ [],
        10,
        omega arith,
        omega arith,
        refl,
        omega arith,
        refl,
      )
      refl
