-- ===== src/UdpRelay/Headers.antt =====
-- The address headers of packets and connections: what is written and what is read of them.
use outline_multiport_server.Base.{
  ℕ, suc, ◌+◌, ◌%◌, ◌≤◌, ◌≡◌, refl, sym, ap, ◌∙◌, Bool, true, false, Option, none, some, ◌∷◌, ◌++◌,
  Bytes, length, take, drop, get_or, ltb, ◌==◌, if◌then◌else◌, arith, length-append, append_assoc,
  take_append_length, drop_append_length, inl, inr, subst, if_true, if_false, Bool-cases,
}
use outline_multiport_server.Acl.{AclLibrary, Acl}
use outline_multiport_server.Relay.Header.{Address, inet, inet6, slice, connect_to, relay_header}
use outline_multiport_server.UdpRelay.{
  sock_inet, sock_inet6, construct_udprelay_header, port_number, Host, host_inet, host_inet6,
  UdpHeader, parse_udprelay_header,
}

-- The address and the port behind the first byte, whatever follows.
slices :
    (t n : ℕ) (addr port rest : Bytes)
    → length addr ≡ n
    → length port ≡ 2
    → (slice 1 n ((t ∷ (addr ++ port)) ++ rest) ≡ addr)
      × (slice (suc n) 2 ((t ∷ (addr ++ port)) ++ rest) ≡ port)
slices t n addr port rest width size =
    let split = append_assoc addr port rest in
    (
      ap (take n) split ∙ take_append_length n addr (port ++ rest) width,
      ap (λ s. take 2 (drop n s)) split
          ∙ ap (take 2) (drop_append_length n addr (port ++ rest) width)
          ∙ take_append_length 2 port rest size,
    )

-- What the two readers make of a header.
abbrev pub IsRead :
    (A : AclLibrary) → Option (Acl A) → Bytes → ℕ → Address → Host → Bytes → ℕ → Type 0
IsRead A acl s len address host port offset =
    (parse_udprelay_header A s len
      ≡ some (record {
        storage = some address;
        host = host;
        port = port_number port;
        offset = offset;
      }))
    × (relay_header A acl s len ≡ connect_to address offset)

abbrev IfRead : ℕ → Option UdpHeader → Type 0
IfRead len none = Unit
IfRead len (some h) = (4 ≤ h.offset) × (h.offset ≤ len)

if_read :
    (len : ℕ) (b : Bool) (x y : Option UdpHeader)
    → IfRead len x
    → IfRead len y
    → IfRead len (if b then x else y)
if_read len true x y hx hy = hx
if_read len false x y hx hy = hy

-- The test of the length.
fitting :
    (len n : ℕ) (h : UdpHeader)
    → h.offset ≡ n
    → 4 ≤ n
    → IfRead len (if ltb len n then none else some h)
fitting len n h at least = elim (Bool-cases (ltb len n)) [
  | inl short ↦ subst (IfRead len) (sym (if_true (ltb len n) _ _ short)) tt
  | inr whole ↦
      subst (IfRead len) (sym (if_false (ltb len n) _ _ whole)) (omega arith, ground arith)
]

module _ (A : AclLibrary) (acl : Option (Acl A)) where
  -- The header that `construct_udprelay_header` writes for an IPv4 or IPv6 address is read back by
  -- `parse_udprelay_header` and by the first stage of a TCP connection, whatever data follows and
  -- whatever the access lists are: both find the address with the port, and the data behind the
  -- header.
  pub headers-agree :
      (v6 : Bool) (addr port rest : Bytes)
      → length addr ≡ (if v6 then 16 else 4)
      → length port ≡ 2
      → let header =
          construct_udprelay_header (if v6 then sock_inet6 addr port else sock_inet addr port) in
        IsRead A acl
          (header ++ rest)
          (length (header ++ rest))
          (if v6 then inet6 addr port else inet addr port)
          (if v6 then host_inet6 addr else host_inet addr)
          port
          (length header)
  unfolding construct_udprelay_header parse_udprelay_header relay_header
  headers-agree false addr port rest width size =
      let (at, behind) = slices 1 4 addr port rest width size in
      let all = length-append (addr ++ port) rest in
      let both = length-append addr port in
      let head : suc (length (addr ++ port)) ≡ 7 = omega arith in
      let long : ltb (suc (length ((addr ++ port) ++ rest))) 7 ≡ false = ground arith in
      rw (head, long, at, behind) (refl, refl)
  headers-agree true addr port rest width size =
      let (at, behind) = slices 4 16 addr port rest width size in
      let all = length-append (addr ++ port) rest in
      let both = length-append addr port in
      let head : suc (length (addr ++ port)) ≡ 19 = omega arith in
      let long : ltb (suc (length ((addr ++ port) ++ rest))) 19 ≡ false = ground arith in
      rw (head, long, at, behind) (refl, refl)

  -- The header's length that `parse_udprelay_header` gives is at least 4 and at most the number of
  -- bytes that were received, so that what is left of the packet is its data.
  pub parse-offset :
      (s : Bytes) (len : ℕ) (h : UdpHeader)
      → parse_udprelay_header A s len ≡ some h
      → (4 ≤ h.offset) × (h.offset ≤ len)
  unfolding parse_udprelay_header
  parse-offset s len h read = subst (IfRead len) read (
      if_read len (get_or s 0 0 % 16 == 1) _ _ (fitting len 7 _ refl (omega arith)) (
        if_read len (get_or s 0 0 % 16 == 3) _ _
          (fitting len (get_or s 1 0 + 4) _ refl (omega arith))
          (if_read len (get_or s 0 0 % 16 == 4) _ _ (fitting len 19 _ refl (omega arith)) tt)))
