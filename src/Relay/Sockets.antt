-- ===== src/Relay/Sockets.antt =====
-- One `send` of server.c on a socket that does not block.
use outline_multiport_server.Base.{
  ◌+◌, ◌-◌, Bool, true, false, Option, none, some, [], Bytes, take, ltb, if◌then◌else◌,
}
use outline_multiport_server.Aead.{Buffer}
use outline_multiport_server.Relay.{pending, Sending, took, send_again, send_failed}

-- A `send` of the bytes in use: the buffer behind it, the bytes taken, and whether all were.
-- `none` is a failure of the socket.
pub record Sent : Type 0 where
  pub left : Buffer
  pub taken : Bytes
  pub all_sent : Bool

-- `send` on a fresh buffer, which starts at 0: a part sets the index.
unfoldable pub first_send : Sending → Buffer → Option Sent
first_send send_failed b = none
first_send send_again b =
    some (record { left = record b { idx = 0 }; taken = []; all_sent = false })
first_send (took n) b =
    if ltb n b.len
    then some (record {
      left = record b { idx = n; len = b.len - n };
      taken = take n b.data_bytes;
      all_sent = false;
    })
    else some (record { left = b; taken = take b.len b.data_bytes; all_sent = true })

-- `send` of the rest of a buffer: a part moves the index.
unfoldable pub next_send : Sending → Buffer → Option Sent
next_send send_failed b = none
next_send send_again b = some (record { left = b; taken = []; all_sent = false })
next_send (took n) b =
    if ltb n b.len
    then some (record {
      left = record b { idx = b.idx + n; len = b.len - n };
      taken = take n (pending b);
      all_sent = false;
    })
    else some (record { left = record b { idx = 0; len = 0 }; taken = pending b; all_sent = true })
