-- ===== src/UdpRelay.antt =====
-- The address header of udprelay.c, which stands before the data of a packet.
pub mod Headers
use outline_multiport_server.Base.{
  ℕ, suc, ◌+◌, ◌-◌, ◌*◌, ◌%◌, Bool, true, false, Option, none, some, List, [], ◌∷◌, ◌++◌, Bytes,
  length, take, drop, get_or, replicate, c_str, ltb, ◌==◌, if◌then◌else◌,
}
use outline_multiport_server.Acl.{AclLibrary, v4, v6}
use outline_multiport_server.Relay.Header.{Address, inet, inet6, inet_text, slice}

-- What `construct_udprelay_header` and the storage of `parse_udprelay_header` can hold: an address of
-- 4 or 16 bytes with a port of 2, or another family.
pub data SockAddr : Type 0 where
  sock_inet : Bytes → Bytes → SockAddr
  sock_inet6 : Bytes → Bytes → SockAddr
  sock_other : SockAddr

unfoldable pub construct_udprelay_header : SockAddr → Bytes
construct_udprelay_header (sock_inet addr port) = 1 ∷ (addr ++ port)
construct_udprelay_header (sock_inet6 addr port) = 4 ∷ (addr ++ port)
construct_udprelay_header sock_other = []

-- `load16_be`
abbrev pub port_number : Bytes → ℕ
port_number b = get_or b 0 0 * 256 + get_or b 1 0

-- What is read from a header: the address for the storage, where one was found, the host, as bytes of
-- an address for `inet_ntop` or as a name, the port, and the header's length.
pub data Host : Type 0 where
  host_inet : Bytes → Host
  host_inet6 : Bytes → Host
  host_name : Bytes → Host

pub record UdpHeader : Type 0 where
  pub storage : Option Address
  pub host : Host
  pub port : ℕ
  pub offset : ℕ

module _ (A : AclLibrary) where
  -- The socket address of a name that is an address. For the text of an IPv6 address the code hands
  -- the family AF_INET to `inet_pton`, which fails and leaves the address as the callers have cleared
  -- it.
  unfoldable pub name_storage : Bytes → Bytes → Option Address
  name_storage name port = elim (A.cork_ip_init name) [
    | none ↦ none
    | some (v4 x) ↦ some (inet_text name port)
    | some (v6 x) ↦ some (inet6 (replicate 16 0) port)
  ]

  -- `parse_udprelay_header` with a place for each of its results, on a buffer that starts with `s`,
  -- of which `len` bytes are in use. `none` is the result 0.
  unfoldable pub parse_udprelay_header : Bytes → ℕ → Option UdpHeader
  unfolding name_storage
  parse_udprelay_header s len =
      let atyp = get_or s 0 0 % 16 in
      let name_len = get_or s 1 0 in
      if atyp == 1
      then (if ltb len 7
          then none
          else some (record {
            storage = some (inet (slice 1 4 s) (slice 5 2 s));
            host = host_inet (slice 1 4 s);
            port = port_number (slice 5 2 s);
            offset = 7;
          }))
      else if atyp == 3
      then (if ltb len (name_len + 4)
          then none
          else some (record {
            storage = name_storage (c_str (slice 2 name_len s)) (slice (2 + name_len) 2 s);
            host = host_name (slice 2 name_len s);
            port = port_number (slice (2 + name_len) 2 s);
            offset = name_len + 4;
          }))
      else if atyp == 4
      then (if ltb len 19
          then none
          else some (record {
            storage = some (inet6 (slice 1 16 s) (slice 17 2 s));
            host = host_inet6 (slice 1 16 s);
            port = port_number (slice 17 2 s);
            offset = 19;
          }))
      else none
