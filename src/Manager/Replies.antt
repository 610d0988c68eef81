-- ===== src/Manager/Replies.antt =====
-- The answers of manager.c that go over the table or the files of a port.
use outline_multiport_server.Base.{
  ℕ, ◌+◌, ◌-◌, ◌%◌, ◌/◌, max, Bool, not, ◌||◌, Option, none, some, List, [], ◌∷◌, ◌++◌, Bytes,
  codes, length, take, is_empty, decimal, c_str, fgets, ltb, ◌==◌, if◌then◌else◌,
}
use outline_multiport_server.IpLock.{FileSystem, ip_lock_sidecar_path, status_json_max}
use outline_multiport_server.Manager.{Server, ManagerCtx, buf_size}
use outline_multiport_server.Manager.Servers.{or_else}

-- `"...%s..."` of the entry that `list` prints.
unfoldable pub list_entry : ManagerCtx → Server → Bytes
list_entry m s =
    codes "\n\t{\"server_port\":\""
    ++ (s.port
        ++ (codes "\",\"password\":\""
            ++ (s.password
                ++ (codes "\",\"method\":\"" ++ (or_else s.method m.method ++ codes "\"},")))))

-- `BUF_SIZE - entry_len - 50` as a `size_t`.
abbrev pub list_limit : ManagerCtx → Server → ℕ
list_limit m s =
    (0x1_0000_0000_0000_0000
      + buf_size
      - (length s.port + length s.password + length (or_else s.method m.method))
      - 50)
    % 0x1_0000_0000_0000_0000

-- The loop of `list`: the buffer, and the messages sent before it.
unfoldable pub list_loop : ManagerCtx → List Server → Bytes → List Bytes → Bytes × List Bytes
list_loop m [] buf sent = (buf, sent)
list_loop m (s ∷ servers) buf sent =
    let full = ltb (list_limit m s) (length buf) in
    list_loop m servers ((if full then [] else buf) ++ list_entry m s)
      (if full then sent ++ (buf ∷ []) else sent)

-- `strcpy(buf + max(pos - 1, 1), "\n]")`
abbrev pub close_list : Bytes → Bytes
close_list buf = take (max (length buf - 1) 1) buf ++ codes "\n]"

-- The messages that answer `list`.
unfoldable pub list_messages : ManagerCtx → List Server → List Bytes
list_messages m servers =
    let (buf, sent) = list_loop m servers (codes "[") [] in sent ++ (close_list buf ∷ [])

unfoldable pub ping_entry : Server → Bytes
ping_entry s = codes "\"" ++ (s.port ++ (codes "\":" ++ (decimal s.traffic ++ codes ",")))

abbrev pub close_ping : Bytes → Bytes
close_ping buf = take (length buf - 1) buf ++ codes "}"

-- The loop of `ping`: a buffer past its middle is sent in the turn of the next server.
unfoldable pub ping_loop : List Server → Bytes → List Bytes → Bytes × List Bytes
ping_loop [] buf sent = (buf, sent)
ping_loop (s ∷ servers) buf sent =
    let full = ltb (buf_size / 2) (length buf) in
    ping_loop servers (if full then [] else buf ++ ping_entry s)
      (if full then sent ++ (close_ping buf ∷ []) else sent)

unfoldable pub ping_messages : List Server → List Bytes
ping_messages servers =
    let (buf, sent) = ping_loop servers (codes "stat: {") [] in
    sent ++ ((if ltb 7 (length buf) then close_ping buf else buf ++ codes "}") ∷ [])

is_newline : ℕ → Bool
is_newline c = c == 10 || c == 13

-- Drops newlines and carriage returns at the end.
unfoldable pub trim_newlines : Bytes → Bytes
unfolding is_newline
trim_newlines [] = []
trim_newlines (c ∷ s) = elim (trim_newlines s) [
  | [] ↦ if is_newline c then [] else c ∷ []
  | d ∷ t ↦ c ∷ d ∷ t
]

-- The address in a lock file, and the body of a status file; a file that does not open is `none`.
unfoldable pub locked_of : Option Bytes → Bytes
unfolding trim_newlines
locked_of none = []
locked_of (some content) = elim (fgets 46 content) [
  | none ↦ []
  | some r ↦ trim_newlines (c_str r.0)
]

unfoldable pub status_body : Option Bytes → Bytes
status_body none = []
status_body (some content) = c_str (take (status_json_max + 63) content)

module _ (F : FileSystem) where
  open F use {Disk, read_file, write_file, unlink}

  -- The text for a buffer of `out_size` bytes.
  unfoldable pub read_port_status : Disk → Bytes → ℕ → Bytes
  unfolding locked_of status_body
  read_port_status disk port out_size =
      let body = status_body (read_file disk (ip_lock_sidecar_path 512 port (codes "ipstatus"))) in
      let locked = locked_of (read_file disk (ip_lock_sidecar_path 512 port (codes "iplock"))) in
      take (out_size - 1) (
        if not (is_empty body)
        then body
        else codes "{\"locked_ip\":\""
          ++ (locked
              ++ (codes "\",\"connections\":0,\"active_ips\":[],"
                  ++ codes "\"recent_incoming\":[],\"blocked_ips\":[]}")))

  -- `none` is the result -1.
  unfoldable pub write_port_lock_ip : Bytes → Bytes → Disk → Option Disk
  write_port_lock_ip port ip disk =
      if is_empty port || is_empty ip
      then none
      else write_file disk (ip_lock_sidecar_path 512 port (codes "iplock")) (ip ++ (10 ∷ []))

  unfoldable pub clear_port_lock_ip : Bytes → Disk → Disk
  clear_port_lock_ip port disk =
      if is_empty port then disk else unlink disk (ip_lock_sidecar_path 512 port (codes "iplock"))
