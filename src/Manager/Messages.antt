-- ===== src/Manager/Messages.antt =====
-- The sizes of what manager.c prints: the answers to `list`, the answer to `ping` that fits one
-- message, and the command line of a server.
use outline_multiport_server.Base.{
  ◌+◌, ◌-◌, max, ◌≤◌, ◌<◌, ◌≡◌, refl, sym, ap, ◌∙◌, true, false, List, [], ◌∷◌, ◌++◌, Bytes, codes,
  length, take, map, All, ltb, arith, Bool-cases, inl, inr, if◌then◌else◌, if_true, append_assoc,
  append-nil, length-append, length-take, take_append_length,
}
use outline_multiport_server.Manager.{Server, ManagerCtx, buf_size}
use outline_multiport_server.Manager.Listing.{
  ping_member, ping_entry-member, joined, concat, with_comma, concat-commas,
}
use outline_multiport_server.Manager.Replies.{
  list_entry, list_limit, list_loop, list_messages, close_ping, ping_loop, ping_messages,
}
use outline_multiport_server.Manager.Servers.{or_else, append_cmd, append_hosts, command_line}

-- The names of the server leave room for one entry in a buffer.
abbrev pub IsListed : ManagerCtx → Server → Type 0
IsListed m s = length s.port + length s.password + length (or_else s.method m.method) ≤ 65485

abbrev Fits : Bytes → Type 0
Fits x = length x < buf_size

length-list_entry :
    (m : ManagerCtx) (s : Server)
    → length (list_entry m s)
      ≡ 47 + (length s.port + length s.password + length (or_else s.method m.method))
unfolding list_entry
length-list_entry m s =
    let method = or_else s.method m.method in
    let tail = codes "\",\"method\":\"" ++ (method ++ codes "\"},") in
    omega (
      arith,
      length-append s.port (codes "\",\"password\":\"" ++ (s.password ++ tail)),
      length-append s.password tail,
      length-append method (codes "\"},"),
    )

Fits-append : (xs : List Bytes) (x : Bytes) → All Fits xs → Fits x → All Fits (xs ++ (x ∷ []))
Fits-append [] x h hx = (hx, tt)
Fits-append (y ∷ xs) x (hy, h) hx = (hy, Fits-append xs x h hx)

list_loop-Fits :
    (m : ManagerCtx) (servers : List Server) (buf : Bytes) (sent : List Bytes)
    → All (IsListed m) servers
    → length buf ≤ 65532
    → All Fits sent
    → let r = list_loop m servers buf sent in (length r.0 ≤ 65532) × All Fits r.1
unfolding list_loop
list_loop-Fits m [] buf sent listed small h = (small, h)
list_loop-Fits m (s ∷ servers) buf sent (hs, listed) small h =
    let size = length-list_entry m s in
    elim (Bool-cases (ltb (list_limit m s) (length buf))) [
      | inl full ↦
          rw (full, list_loop)
            (list_loop-Fits m servers (list_entry m s) (sent ++ (buf ∷ [])) listed (omega arith)
              (Fits-append sent buf h (omega arith)))
      | inr room ↦
          let more = length-append buf (list_entry m s) in
          let limit : length buf ≤ list_limit m s = ground arith in
          rw (room, list_loop)
            (list_loop-Fits m servers (buf ++ list_entry m s) sent listed (omega arith) h)
    ]

-- Where the port, the password and the method of each server have at most 65485 bytes together, no
-- message of `list` overruns its buffer of 65535 bytes, with the terminating NUL, however many
-- servers there are.
pub list_messages-Fits :
    (m : ManagerCtx) (servers : List Server)
    → All (IsListed m) servers
    → All (λ x. length x < buf_size) (list_messages m servers)
unfolding list_messages
list_messages-Fits m servers listed =
    let (buf, sent) = list_loop m servers (codes "[") [] in
    let (small, fits) = list_loop-Fits m servers (codes "[") [] listed (omega arith) tt in
    Fits-append _ _ fits (
      omega (
        arith,
        length-append (take (max (length buf - 1) 1) buf) (codes "\n]"),
        length-take (max (length buf - 1) 1) buf,
      ))

ping_loop-small :
    (servers : List Server) (buf : Bytes) (sent : List Bytes)
    → length buf + length (concat (map with_comma (map ping_member servers))) ≤ 32767
    → ping_loop servers buf sent ≡ (buf ++ concat (map with_comma (map ping_member servers)), sent)
unfolding ping_loop
ping_loop-small [] buf sent small = ap (λ t. (t, sent)) (sym (append-nil buf))
ping_loop-small (s ∷ servers) buf sent small =
    let rest = concat (map with_comma (map ping_member servers)) in
    let entry = ping_entry-member s in
    let text = with_comma (ping_member s) in
    let size = length-append text rest in
    let more = length-append buf text in
    let room : ltb 32767 (length buf) ≡ false = ground arith in
    rw (room, entry)
      (ping_loop-small servers (buf ++ text) sent (omega arith)
        ∙ ap (λ t. (t, sent)) (append_assoc buf text rest))

-- What `ping` makes of the buffer at the end.
abbrev ping_end : Bytes → Bytes
ping_end buf = if ltb 7 (length buf) then close_ping buf else buf ++ codes "}"

ping_end-comma :
    (front : Bytes) → 7 ≤ length front → ping_end (front ++ codes ",") ≡ front ++ codes "}"
ping_end-comma front h =
    let size = length-append front (codes ",") in
    let long : ltb 7 (length (front ++ codes ",")) ≡ true = ground arith in
    let cut : length (front ++ codes ",") - 1 ≡ length front = omega arith in
    if_true _ _ _ long
    ∙ ap (λ n. take n (front ++ codes ",") ++ codes "}") cut
    ∙ ap (λ t. t ++ codes "}") (take_append_length (length front) front (codes ",") refl)

-- Where the members of the object have at most 32759 bytes with their commas, `ping` is answered by
-- one message: the traffic of every server in the table, in the order of its iterator, as a JSON
-- object behind the word `stat`.
pub ping_messages-joined :
    (servers : List Server)
    → length (joined (map ping_member servers)) ≤ 32759
    → ping_messages servers
      ≡ (codes "stat: {" ++ (joined (map ping_member servers) ++ codes "}")) ∷ []
unfolding ping_messages ping_loop
ping_messages-joined [] small = refl
ping_messages-joined (s ∷ servers) small =
    let texts = joined (map ping_member (s ∷ servers)) in
    let commas = concat-commas (ping_member s) (map ping_member servers) in
    let size = ap length commas ∙ length-append texts (codes ",") in
    let loop = ping_loop-small (s ∷ servers) (codes "stat: {") [] (omega arith) in
    ap (λ (r : Bytes × List Bytes). r.1 ++ (ping_end r.0 ∷ [])) loop
    ∙ ap (λ t. ping_end (codes "stat: {" ++ t) ∷ []) commas
    ∙ ap (λ t. t ∷ []) (ping_end-comma (codes "stat: {" ++ texts) (omega arith))

length-append_cmd-lt : (cmd t : Bytes) → length (append_cmd cmd t) < buf_size
unfolding append_cmd
length-append_cmd-lt cmd t = omega (arith, length-take (buf_size - 1) (cmd ++ t))

length-append_hosts-lt :
    (cmd : Bytes) (hosts : List Bytes)
    → length cmd < buf_size
    → length (append_hosts cmd hosts) < buf_size
unfolding append_hosts
length-append_hosts-lt cmd [] h = h
length-append_hosts-lt cmd (host ∷ hosts) h =
    length-append_hosts-lt (append_cmd cmd (codes " -s " ++ host)) hosts
      (length-append_cmd-lt cmd (codes " -s " ++ host))

-- The command line of a server never overruns its buffer of 65535 bytes, with the terminating NUL,
-- whatever the options and however many hosts there are.
pub length-command_line-lt : (m : ManagerCtx) (s : Server) → length (command_line m s) < buf_size
unfolding command_line
length-command_line-lt m s = length-append_hosts-lt _ m.hosts (length-append_cmd-lt _ _)
