-- ===== src/Tests/OnRelay.antt =====
-- One connection of server.c with a cipher that changes nothing, and the headers of packets.
use outline_multiport_server.Base.{
  ◌<◌, ◌≢◌, ℕ, ◌≤◌, ◌≡◌, refl, true, false, none, some, [], ◌∷◌, ◌++◌, Bytes, codes, length, arith,
}
use outline_multiport_server.Aead.{crypto_ok}
use outline_multiport_server.Relay.{pending, StreamCrypto, Remote, Session, got, took}
use outline_multiport_server.Relay.Drain.{drain, drain-all}
use outline_multiport_server.Relay.Events.{
  dialed, server_recv_cb, remote_send_cb, new_server, request_in, take_header, connect_remote,
  send_rest,
}
use outline_multiport_server.Relay.Sockets.{next_send}
use outline_multiport_server.Relay.Flow.{IsUp, IsDown}
use outline_multiport_server.Relay.Header.{RelayHeader, relay_header, inet, validate_hostname}
use outline_multiport_server.Relay.Names.{dotted, good_labels, validate_hostname-dotted}
use outline_multiport_server.Relay.Runs.{
  Run, begin, after, client_bytes, remote_ready, run-front, run-streaming,
}
use outline_multiport_server.UdpRelay.{
  construct_udprelay_header, sock_inet, host_inet, parse_udprelay_header,
}
use outline_multiport_server.UdpRelay.Headers.{IsRead, headers-agree, parse-offset}
use outline_multiport_server.Tests.Libraries.{byte_addresses}

abbrev plain : StreamCrypto
plain = record {
  EncryptCtx = ℕ;
  DecryptCtx = ℕ;
  Shared = Unit;
  encrypt = λ n t. (n, crypto_ok t);
  decrypt = λ n t. (n, crypto_ok t);
}

abbrev reads : Bytes → ℕ → RelayHeader
reads = relay_header byte_addresses none

-- The client asks for 1.2.3.4 at port 80, with two bytes of data.
abbrev asks : Session plain
asks =
    server_recv_cb plain reads (got (1 ∷ 1 ∷ 2 ∷ 3 ∷ 4 ∷ 0 ∷ 80 ∷ 104 ∷ 105 ∷ [])) (dialed 0)
      (took 0) (new_server plain 0 0 tt)

abbrev waiting : Remote
waiting = record {
  buf = record { data_bytes = 104 ∷ 105 ∷ []; idx = 0; len = 2 };
  connected = false;
  recv_on = false;
  send_on = true;
}

-- The remote takes one byte, then the other.
abbrev halfway : Session plain
halfway = remote_send_cb plain true (took 1) waiting asks

abbrev half : Remote
half = record {
  buf = record { data_bytes = 104 ∷ 105 ∷ []; idx = 1; len = 1 };
  connected = true;
  recv_on = false;
  send_on = true;
}

abbrev relays : Session plain
relays = remote_send_cb plain true (took 1) half halfway

abbrev idle : Remote
idle = record {
  buf = record { data_bytes = 104 ∷ 105 ∷ []; idx = 0; len = 0 };
  connected = true;
  recv_on = true;
  send_on = false;
}

run : Run plain reads (new_server plain 0 0 tt) relays
unfolding server_recv_cb request_in take_header connect_remote relay_header remote_send_cb send_rest
    next_send
run =
    after
      (after
        (after begin (
          client_bytes (new_server plain 0 0 tt) (got (1 ∷ 1 ∷ 2 ∷ 3 ∷ 4 ∷ 0 ∷ 80 ∷ 104 ∷ 105 ∷ []))
            (dialed 0) (took 0) refl refl))
        (remote_ready asks waiting true (took 1) refl refl refl))
      (remote_ready halfway half true (took 1) refl refl refl)

run-front_example : (rest : Bytes) × (relays.forwarded ++ rest ≡ relays.opened)
run-front_example = run-front plain reads 0 0 tt relays run

run-streaming_example : IsUp plain relays idle × IsDown plain relays idle
unfolding server_recv_cb request_in take_header connect_remote relay_header remote_send_cb send_rest
    next_send
run-streaming_example = run-streaming plain reads 0 0 tt relays idle run refl refl refl

all_forwarded : relays.forwarded ≡ codes "hi"
unfolding server_recv_cb request_in take_header connect_remote relay_header remote_send_cb send_rest
    next_send
all_forwarded = refl

drain-all_example :
    let s' = drain plain (1 ∷ []) halfway in
    (s'.forwarded ≡ halfway.forwarded ++ pending half.buf)
    × (s'.recv_on ≡ true)
    × (s'.opened ≡ halfway.opened)
    × ((r' : Remote) × (s'.remote ≡ some r') × (r'.send_on ≡ false))
unfolding server_recv_cb request_in take_header connect_remote relay_header remote_send_cb send_rest
    next_send
drain-all_example =
    drain-all plain (1 ∷ []) half halfway refl refl refl (omega arith) (omega arith, tt)
      (omega arith)

headers-agree_example :
    let header = construct_udprelay_header (sock_inet (1 ∷ 2 ∷ 3 ∷ 4 ∷ []) (0 ∷ 80 ∷ [])) in
    IsRead byte_addresses none
      (header ++ codes "hi")
      (length (header ++ codes "hi"))
      (inet (1 ∷ 2 ∷ 3 ∷ 4 ∷ []) (0 ∷ 80 ∷ []))
      (host_inet (1 ∷ 2 ∷ 3 ∷ 4 ∷ []))
      (0 ∷ 80 ∷ [])
      (length header)
headers-agree_example =
    headers-agree byte_addresses none false (1 ∷ 2 ∷ 3 ∷ 4 ∷ []) (0 ∷ 80 ∷ []) (codes "hi") refl
      refl

parse-offset_example : (4 ≤ 7) × (7 ≤ 8)
unfolding parse_udprelay_header
parse-offset_example =
    parse-offset byte_addresses none (1 ∷ 1 ∷ 2 ∷ 3 ∷ 4 ∷ 0 ∷ 80 ∷ 104 ∷ []) 8
      (record {
        storage = some (inet (1 ∷ 2 ∷ 3 ∷ 4 ∷ []) (0 ∷ 80 ∷ []));
        host = host_inet (1 ∷ 2 ∷ 3 ∷ 4 ∷ []);
        port = 80;
        offset = 7;
      })
      refl

dot_free : (c : ℕ) → b'.' < c → c ≢ b'.'
dot_free c less h = absurd (omega arith)

validate_hostname-dotted_example :
    validate_hostname (dotted (codes "a-b" ∷ codes "cd" ∷ [])) 6
    ≡ good_labels (codes "a-b" ∷ codes "cd" ∷ [])
validate_hostname-dotted_example =
    validate_hostname-dotted (codes "a-b" ∷ codes "cd" ∷ [])
      (
        (dot_free 97 (omega arith), ((λ h. absurd (omega arith)), (dot_free 98 (omega arith), tt))),
        ((dot_free 99 (omega arith), (dot_free 100 (omega arith), tt)), tt),
      )
      (omega arith) (omega arith)

names_accepted :
    (good_labels (codes "a-b" ∷ codes "cd" ∷ []) ≡ true)
    × (good_labels (codes "a-" ∷ codes "cd" ∷ []) ≡ false)
    × (good_labels (codes "cd" ∷ [] ∷ []) ≡ true)
names_accepted = (refl, refl, refl)
