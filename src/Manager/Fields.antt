-- ===== src/Manager/Fields.antt =====
-- What the fields of a request leave in the buffers of manager.c.
use outline_multiport_server.Base.{
  ℕ, zero, suc, ◌%◌, ◌≤◌, ◌<◌, ◌≡◌, refl, ◌⊎◌, inl, inr, Bool, true, false, List, if◌then◌else◌,
  decimal, take_of_length-le, some, [], ◌∷◌, ◌++◌, Bytes, codes, length, take, drop, replicate, All,
  is_empty, str_eq, c_str, before, arith,
}
use outline_multiport_server.Base.Int.{pos}
use outline_multiport_server.Manager.{
  JsonField, json_string, json_integer, json_object, ManagerLibrary, strncpy_into,
}
use outline_multiport_server.Manager.Requests.{
  traffic_members, port_member, port_ip_members, parse_traffic, parse_port_ip, parsed,
}

-- A C string: no NUL in it.
abbrev pub IsCString : Bytes → Type 0
IsCString = All (λ c. 0 < c)

-- What `strncpy` puts into a buffer is read back, where the NUL fits behind it.
c_str-take :
    (s : Bytes) (n m : ℕ) (rest : Bytes)
    → IsCString s
    → length s < n
    → 0 < m
    → c_str (take n (s ++ replicate m 0) ++ rest) ≡ s
unfolding before
c_str-take [] (suc n) (suc m) rest h fits some_zero = refl
c_str-take [] zero m rest h fits some_zero = absurd (omega arith)
c_str-take [] n zero rest h fits some_zero = absurd (omega arith)
c_str-take (c ∷ s) zero m rest h fits some_zero = absurd (omega arith)
c_str-take (c ∷ s) (suc n) m rest (hc, h) fits some_zero =
    let ih = c_str-take s n m rest h (omega arith) some_zero in ground (arith, ih)

pub c_str-strncpy_into :
    (s : Bytes) (n : ℕ) (memory : Bytes)
    → IsCString s
    → length s < n
    → c_str (strncpy_into n s memory) ≡ s
c_str-strncpy_into s n memory h fits = c_str-take s n n (drop n memory) h fits (omega arith)

-- The port as a request gives it: a string, or a number that is printed.
abbrev pub IsPortField : JsonField → Bytes → Type 0
IsPortField field port =
    (field ≡ json_string port)
    ⊎ ((n : ℕ) × (field ≡ json_integer (pos n))
        × (n < 0x1_0000_0000_0000_0000)
        × (decimal n ≡ port))

-- The members of a `set_ip`.
abbrev pub lock_members : Bool → JsonField → Bytes → List (Bytes × JsonField)
lock_members port_first field ip =
    if port_first
    then (codes "server_port", field) ∷ (codes "ip", json_string ip) ∷ []
    else (codes "ip", json_string ip) ∷ (codes "server_port", field) ∷ []

c_str-printed : (s rest : Bytes) → IsCString s → c_str (s ++ (0 ∷ rest)) ≡ s
unfolding before
c_str-printed [] rest h = refl
c_str-printed (c ∷ s) rest (hc, h) = let ih = c_str-printed s rest h in ground (arith, ih)

port_member_lem :
    (field : JsonField) (port memory : Bytes)
    → IsPortField field port
    → IsCString port
    → length port ≤ 6
    → c_str (port_member field memory) ≡ port
port_member_lem field port memory (inl e) text short =
    rw e (c_str-strncpy_into port 7 memory text (omega arith))
port_member_lem field port memory (inr (n, e, small, digits)) text short =
    let same : n % 0x1_0000_0000_0000_0000 ≡ n = omega arith in
    let whole : take 7 port ≡ port = take_of_length-le 7 port (omega arith) in
    rw e (rw (same, digits, whole) (c_str-printed port _ text))

module _ (M : ManagerLibrary) where
  -- The report of one port's traffic.
  pub parse_traffic-one :
      (memory buf name : Bytes) (n : ℕ)
      → parsed M buf ≡ some (json_object ((name, json_integer (pos n)) ∷ []))
      → IsCString name
      → length name ≤ 6
      → n < 0x1_0000_0000_0000_0000
      → parse_traffic M memory buf ≡ some (name, n)
  unfolding parse_traffic traffic_members
  parse_traffic-one memory buf name n read text short small =
      let kept = c_str-strncpy_into name 7 memory text (omega arith) in
      let same : n % 0x1_0000_0000_0000_0000 ≡ n = omega arith in
      rw (read, parse_traffic) (rw (kept, same) refl)

  -- A request for the lock of a port, its two members in either order.
  pub parse_port_ip-both :
      (port_memory ip_memory buf : Bytes) (field : JsonField) (port ip : Bytes) (port_first : Bool)
      → parsed M buf ≡ some (json_object (lock_members port_first field ip))
      → IsPortField field port
      → IsCString port
      → is_empty port ≡ false
      → length port ≤ 6
      → IsCString ip
      → length ip ≤ 44
      → parse_port_ip M port_memory ip_memory buf ≡ some (port, ip)
  unfolding parse_port_ip port_ip_members str_eq
  parse_port_ip-both port_memory ip_memory buf field port ip true read is text named short ip_text
        ip_short =
      let kept = port_member_lem field port (0 ∷ drop 1 port_memory) is text short in
      let ip_kept = c_str-strncpy_into ip 45 (0 ∷ drop 1 ip_memory) ip_text (omega arith) in
      rw (read, parse_port_ip) (rw (kept, ip_kept, named) refl)
  parse_port_ip-both port_memory ip_memory buf field port ip false read is text named short ip_text
        ip_short =
      let kept = port_member_lem field port (0 ∷ drop 1 port_memory) is text short in
      let ip_kept = c_str-strncpy_into ip 45 (0 ∷ drop 1 ip_memory) ip_text (omega arith) in
      rw (read, parse_port_ip) (rw (kept, ip_kept, named) refl)
