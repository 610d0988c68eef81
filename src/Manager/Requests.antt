-- ===== src/Manager/Requests.antt =====
-- How manager.c takes a request apart.
use outline_multiport_server.Base.{
  ℕ, suc, ◌-◌, Bool, true, false, not, ◌&&◌, Option, none, some, List, [], ◌∷◌, ◌++◌, Bytes, codes,
  length, take, drop, isspace, str_eq, is_empty, strncpy, strchr, c_str, decimal, ◌==◌,
  if◌then◌else◌,
}
use outline_multiport_server.Manager.{
  Server, blank_server, JsonField, json_string, json_integer, json_boolean, json_other, JsonValue,
  json_object, not_object, ManagerLibrary, strncpy_into, as_uint64,
}

-- The bytes before the first one that fails the test, and the others.
unfoldable pub span : (ℕ → Bool) → Bytes → Bytes × Bytes
span p [] = ([], [])
span p (c ∷ s) = elim (p c) [ true ↦ let r = span p s in (c ∷ r.0, r.1) | false ↦ ([], c ∷ s) ]

abbrev pub in_action : ℕ → Bool
in_action c = not (isspace c) && not (c == b':')

-- `get_action` on the bytes received: the action, and the buffer with the NUL written behind it.
unfoldable pub get_action : Bytes → Option (Bytes × Bytes)
get_action buf =
    let (spaces, text) = span isspace buf in
    let (word, rest) = span in_action text in
    if is_empty text
    then none
    else some (c_str word, spaces ++ (word ++ (if is_empty rest then [] else 0 ∷ drop 1 rest)))

-- `get_data`: the text from the byte before the first brace on. Behind an action the brace is never
-- the first byte of the buffer.
unfoldable pub get_data : Bytes → Option Bytes
get_data buf = elim (strchr buf b'{') [ none ↦ none | some i ↦ some (c_str (drop (i - 1) buf)) ]

abbrev pub set_port : JsonField → Server → Server
set_port (json_string s) server = record server { port = strncpy s 7 }
set_port (json_integer i) server = record server { port = take 7 (decimal (as_uint64 i)) }
set_port (json_boolean b) server = server
set_port json_other server = server

abbrev pub boolean_text : Bool → Bytes
boolean_text b = if b then codes "true" else codes "false"

abbrev pub with_string : JsonField → (Bytes → Server) → Server → Server
with_string (json_string s) f server = f s
with_string (json_integer i) f server = server
with_string (json_boolean b) f server = server
with_string json_other f server = server

abbrev pub with_boolean : JsonField → (Bool → Server) → Server → Server
with_boolean (json_boolean b) f server = f b
with_boolean (json_string s) f server = server
with_boolean (json_integer i) f server = server
with_boolean json_other f server = server

-- One round of the loop of `get_server`; `none` is the `break` at a name that is not known.
unfoldable pub set_member : Bytes → JsonField → Server → Option Server
set_member name value s =
    if str_eq name (codes "server_port")
    then some (set_port value s)
    else if str_eq name (codes "password")
    then some (with_string value (λ t. record s { password = strncpy t 127 }) s)
    else if str_eq name (codes "method")
    then some (with_string value (λ t. record s { method = some t }) s)
    else if str_eq name (codes "fast_open")
    then some (with_boolean value (λ b. record s { fast_open = boolean_text b }) s)
    else if str_eq name (codes "no_delay")
    then some (with_boolean value (λ b. record s { no_delay = boolean_text b }) s)
    else if str_eq name (codes "plugin")
    then some (with_string value (λ t. record s { plugin = some t }) s)
    else if str_eq name (codes "plugin_opts")
    then some (with_string value (λ t. record s { plugin_opts = some t }) s)
    else if str_eq name (codes "mode")
    then some (with_string value (λ t. record s { mode = some t }) s)
    else none

unfoldable pub set_members : List (Bytes × JsonField) → Server → Server
unfolding set_member
set_members [] s = s
set_members ((name, value) ∷ members) s = elim (set_member name value s) [
  | none ↦ s
  | some s' ↦ set_members members s'
]

-- The loop of `parse_traffic`, on the memory of `port` and the traffic.
unfoldable pub traffic_members : List (Bytes × JsonField) → Bytes → ℕ → Bytes × ℕ
traffic_members [] port traffic = (port, traffic)
traffic_members ((name, json_integer i) ∷ members) port traffic =
    traffic_members members (strncpy_into 7 name port) (as_uint64 i)
traffic_members ((name, value) ∷ members) port traffic = traffic_members members port traffic

abbrev pub port_member : JsonField → Bytes → Bytes
port_member (json_string s) port = strncpy_into 7 s port
port_member (json_integer i) port =
    let digits = take 7 (decimal (as_uint64 i)) in digits ++ (0 ∷ drop (suc (length digits)) port)
port_member (json_boolean b) port = port
port_member json_other port = port

abbrev pub ip_member : JsonField → Bytes → Bytes
ip_member (json_string s) ip = strncpy_into 45 s ip
ip_member (json_integer i) ip = ip
ip_member (json_boolean b) ip = ip
ip_member json_other ip = ip

-- The loop of `parse_port_ip`, on the memory of `port` and of `ip`.
unfoldable pub port_ip_members : List (Bytes × JsonField) → Bytes → Bytes → Bytes × Bytes
port_ip_members [] port ip = (port, ip)
port_ip_members ((name, value) ∷ members) port ip =
    port_ip_members members
      (if str_eq name (codes "server_port") then port_member value port else port)
      (if not (str_eq name (codes "server_port")) && str_eq name (codes "ip")
        then ip_member value ip
        else ip)

module _ (M : ManagerLibrary) where
  open M use {json_parse_ex}

  -- The value that `get_data` and the parser give; `none` is an error of either.
  unfoldable pub parsed : Bytes → Option JsonValue
  parsed buf = elim (get_data buf) [ none ↦ none | some text ↦ json_parse_ex text ]

  unfoldable pub get_server : Bytes → Option Server
  get_server buf = elim (parsed buf) [
    | none ↦ none
    | some (json_object members) ↦ some (set_members members blank_server)
    | some not_object ↦ some blank_server
  ]

  -- The port as it is read, and the traffic; `none` is the result -1.
  unfoldable pub parse_traffic : Bytes → Bytes → Option (Bytes × ℕ)
  parse_traffic port buf = elim (parsed buf) [
    | none ↦ none
    | some (json_object members) ↦
        let (memory, traffic) = traffic_members members port 0 in some (c_str memory, traffic)
    | some not_object ↦ some (c_str port, 0)
  ]

  unfoldable pub parse_port_ip : Bytes → Bytes → Bytes → Option (Bytes × Bytes)
  parse_port_ip port ip buf = elim (parsed buf) [
    | none ↦ none
    | some not_object ↦ none
    | some (json_object members) ↦
        let (port', ip') = port_ip_members members (0 ∷ drop 1 port) (0 ∷ drop 1 ip) in
        if is_empty (c_str port') then none else some (c_str port', c_str ip')
  ]

  unfoldable pub parse_port_only : Bytes → Bytes → Bytes → Option Bytes
  parse_port_only port ip buf = elim (parse_port_ip port ip buf) [ none ↦ none | some r ↦ some r.0 ]
