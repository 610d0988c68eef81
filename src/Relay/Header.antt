-- ===== src/Relay/Header.antt =====
-- The address that stands before the data of a connection: `server_recv_cb` of server.c in its first
-- stage, with `validate_hostname` of netutils.c.
use outline_multiport_server.Base.{
  ℕ, zero, suc, ◌+◌, ◌-◌, ◌%◌, Bool, true, false, not, ◌&&◌, ◌||◌, Option, none, some, [], ◌∷◌,
  Bytes, take, drop, get_or, isdigit, strchr, c_str, ltb, leb, ◌==◌, if◌then◌else◌,
}
use outline_multiport_server.Acl.{AclLibrary, Acl, outbound_block_match_host, v4, v6}

abbrev pub is_label_byte : ℕ → Bool
is_label_byte c =
    isdigit c || (leb b'A' c && leb c b'Z') || (leb b'a' c && leb c b'z') || c == b'-' || c == b'_'

-- `strspn(s, valid_label_bytes)`
unfoldable pub label_span : Bytes → ℕ
label_span [] = 0
label_span (c ∷ s) = let rest = label_span s in if is_label_byte c then suc rest else 0

-- The length of the label at the front of `label`, with `n` bytes left of the name.
abbrev pub label_len : Bytes → ℕ → ℕ
label_len label n = elim (strchr label b'.') [ none ↦ n | some i ↦ i ]

abbrev pub is_label : Bytes → ℕ → ℕ → Bool
is_label label n len =
    leb len n
    && (leb len 63 && leb 1 len)
    && not (get_or label 0 0 == b'-' || get_or label (len - 1) 0 == b'-')
    && leb len (label_span label)

-- The loop of `validate_hostname` with `n` bytes left; each round takes one at least.
unfoldable pub validate_labels : ℕ → Bytes → ℕ → Bool
validate_labels zero label n = true
validate_labels (suc fuel) label n =
    let len = label_len label n in
    let rest = validate_labels fuel (drop (suc len) label) (n - suc len) in
    if n == 0 then true else if is_label label n len then rest else false

unfoldable pub validate_hostname : Bytes → ℕ → Bool
unfolding validate_labels
validate_hostname hostname len =
    if ltb len 1 || ltb 255 len
    then false
    else if get_or hostname 0 0 == b'.'
    then false
    else validate_labels len hostname len

-- The socket address: from bytes of the header, or from the text of an address. The port is its two
-- bytes of the header.
pub data Address : Type 0 where
  inet : Bytes → Bytes → Address
  inet6 : Bytes → Bytes → Address
  inet_text : Bytes → Bytes → Address
  inet6_text : Bytes → Bytes → Address

-- What the first stage makes of the header: an address or a name to resolve, each with the header's
-- length; a refused header stops the server, and a blocked host closes the connection.
pub data RelayHeader : Type 0 where
  connect_to : Address → ℕ → RelayHeader
  resolve_name : Bytes → Bytes → ℕ → RelayHeader
  refused blocked : RelayHeader

-- `n` bytes from `i` on.
abbrev pub slice : ℕ → ℕ → Bytes → Bytes
slice i n s = take n (drop i s)

module _ (A : AclLibrary) where
  -- The address type 3, a name of `name_len` bytes. The buffer of `host` has 255 bytes and is filled
  -- with NULs before.
  unfoldable pub name_header : Option (Acl A) → Bytes → ℕ → ℕ → RelayHeader
  unfolding validate_hostname
  name_header acl s len name_len =
      let host = c_str (slice 2 name_len s) in
      let port = slice (2 + name_len) 2 s in
      let is_blocked : Bool = elim acl [
        | none ↦ false
        | some lists ↦ outbound_block_match_host A lists host
      ] in
      if ltb len (name_len + 4)
      then refused
      else if is_blocked
      then blocked
      else elim (A.cork_ip_init host) [
        | some (v4 x) ↦ connect_to (inet_text host port) (name_len + 4)
        | some (v6 x) ↦ connect_to (inet6_text host port) (name_len + 4)
        | none ↦
            if validate_hostname host name_len
            then resolve_name host port (name_len + 4)
            else refused
      ]

  -- The header in a buffer that starts with `s`, of which `len` bytes are in use; `acl` is the access
  -- list, where there is one.
  unfoldable pub relay_header : Option (Acl A) → Bytes → ℕ → RelayHeader
  unfolding name_header
  relay_header acl s len =
      let atyp = get_or s 0 0 % 16 in
      if atyp == 1
      then (if ltb len 7 then refused else connect_to (inet (slice 1 4 s) (slice 5 2 s)) 7)
      else if atyp == 3
      then name_header acl s len (get_or s 1 0)
      else if atyp == 4
      then (if ltb len 19 then refused else connect_to (inet6 (slice 1 16 s) (slice 17 2 s)) 19)
      else refused
