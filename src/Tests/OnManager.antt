-- ===== src/Tests/OnManager.antt =====
-- Requests to manager.c, on a small table of servers and files with times.
use outline_multiport_server.Base.{
  ℕ, Bool, sym, ◌∙◌, subst, if_true, if_false, some-injective, str_eq→eq, inl, Bool-cases, ltb,
  ltb→lt, ◌<◌, ◌≡◌, refl, inr, true, false, ◌&&◌, none, some, [], ◌∷◌, ◌++◌, Bytes, codes, decimal,
  decimal_digits, length, All, str_eq, strchr, before, map, arith, ◌==◌, if◌then◌else◌,
}
use outline_multiport_server.Base.Int.{pos}
use outline_multiport_server.IpLock.{IpLock, initial, ip_lock_reload, ip_lock_sidecar_path}
use outline_multiport_server.Manager.{
  json_integer, Server, blank_server, ManagerCtx, Answers, Manager, tcp_only, buf_size,
}
use outline_multiport_server.Manager.Answered.{recv-Answered, Answered}
use outline_multiport_server.Manager.Unread.{recv-unspaced}
use outline_multiport_server.Manager.Handler.{
  recv_add, recv_remove, recv_set_ip, recv_stat, manager_recv_cb, reply, dispatch, on_server,
}
use outline_multiport_server.Manager.Invariant.{IsRegistered, IsTable, recv-IsTable}
use outline_multiport_server.Manager.Listing.{
  concat, joined, list_element, ping_member, list_messages-joined,
}
use outline_multiport_server.Manager.Locks.{set_ip-reload, recv_remove-reload}
use outline_multiport_server.Manager.Messages.{list_messages-Fits, ping_messages-joined}
use outline_multiport_server.Manager.Replies.{list_messages, ping_messages, write_port_lock_ip}
use outline_multiport_server.Manager.Requests.{
  parse_port_ip, port_ip_members, parsed, get_action, get_data, get_server, set_member, set_members,
  span,
}
use outline_multiport_server.Manager.Servers.{
  check_port, check_hosts, command_line, add_server, remove_server, stop_server, signal_pid,
  lock_path, status_path,
}
use outline_multiport_server.Manager.Table.{changed, recv_add-table_get, recv_stat-table_get}
use outline_multiport_server.Manager.Words.{IsLetter, request-parts}
use outline_multiport_server.Tests.Ports.{
  port_list, port_list-TableLaws, timed_files, timed_files-FileLaws, timed_files-DiskLaws,
}

abbrev port : Bytes
port = codes "8388"

abbrev ctx : ManagerCtx
ctx = record {
  fast_open = false;
  no_delay = false;
  reuse_port = false;
  verbose = false;
  mode = tcp_only;
  timeout = none;
  method = codes "aes-256-gcm";
  iface = none;
  acl = none;
  user = none;
  plugin = none;
  plugin_opts = none;
  manager_address = codes "m";
  hosts = codes "h" ∷ [];
  nameservers = none;
  mtu = pos 0;
  ipv6first = false;
  nofile = pos 0;
  executable = codes "ss-server";
  working_dir = codes "/w";
}

abbrev answers : Answers
answers = record {
  binds = λ host p udp. true;
  system_starts = λ cmd. true;
  pid_before = pos 0;
  port_memory = codes "????????";
  ip_memory = codes "?";
}

abbrev empty : Manager port_list timed_files
empty = record { table = []; disk = (1, []); sent = []; ran = []; killed = [] }

abbrev server : Server
server = record blank_server { port = port; password = codes "pw" }

abbrev add_text : Bytes
add_text = codes " {\"server_port\":\"8388\",\"password\":\"pw\"}"

abbrev set_text : Bytes
set_text = codes " {\"ip\":\"1.2.3.4\",\"server_port\":8388}"

abbrev with_server : Manager port_list timed_files
with_server = record empty { table = (port, server) ∷ [] }

reads_add : get_server port_list add_text ≡ some server
unfolding get_server parsed get_data strchr before str_eq set_members set_member
reads_add = refl

recv_add-table_get_example :
    let st' = recv_add port_list timed_files answers ctx add_text empty in
    ((q : Bytes)
      → port_list.table_get st'.table q ≡ (
          if str_eq port q
          then (if check_port answers ctx server then some server else none)
          else port_list.table_get empty.table q))
    × (st'.ran
        ≡ (if check_port answers ctx server then [] ++ (command_line ctx server ∷ []) else []))
    × (st'.sent
        ≡ []
          ++ ((if check_port answers ctx server && answers.system_starts (command_line ctx server)
                then codes "ok"
                else codes "port is not available")
              ∷ []))
recv_add-table_get_example =
    recv_add-table_get port_list timed_files port_list-TableLaws answers ctx add_text empty server
      reads_add refl

-- The request adds the server.
add_runs : (recv_add port_list timed_files answers ctx add_text empty).sent ≡ codes "ok" ∷ []
unfolding recv_add get_server parsed get_data strchr before str_eq set_members set_member add_server
    check_port check_hosts remove_server stop_server signal_pid
add_runs = refl

recv_stat-table_get_example :
    let st' = recv_stat port_list timed_files answers (codes " {\"8388\":7}") with_server in
    (port_list.table_get st'.table port ≡ (
      if str_eq port port
      then changed (λ x. record x { traffic = 7 }) (port_list.table_get with_server.table port)
      else port_list.table_get with_server.table port))
    × (st'.disk ≡ with_server.disk)
    × (st'.sent ≡ with_server.sent)
unfolding parsed get_data strchr before str_eq
recv_stat-table_get_example =
    recv_stat-table_get port_list timed_files port_list-TableLaws answers (codes " {\"8388\":7}")
      with_server port 7 refl (omega arith, (omega arith, (omega arith, (omega arith, tt))))
      (omega arith) (omega arith) port

-- The lock of the server of port 8388, before it has seen a lock file.
abbrev lock : IpLock
lock = record initial {
  ip_lock_enabled = true;
  lock_file_path = lock_path port_list timed_files port;
}

set_ip-reload_example :
    let st' = recv_set_ip port_list timed_files answers set_text with_server in
    (st'.sent ≡ [] ++ (codes "ok" ∷ []))
    × ((ip_lock_reload timed_files lock st'.disk).locked_ip ≡ (
        if str_eq port port
        then (if 1 == 0 then [] else codes "1.2.3.4")
        else (ip_lock_reload timed_files lock with_server.disk).locked_ip))
unfolding parsed get_data strchr before str_eq ip_lock_sidecar_path decimal decimal_digits
set_ip-reload_example =
    set_ip-reload port_list timed_files timed_files-FileLaws timed_files-DiskLaws answers set_text
      port (codes "1.2.3.4") with_server
      (2, (lock_path port_list timed_files port, (1, codes "1.2.3.4\n")) ∷ []) 1 lock port
      (record {
        port_field = json_integer (pos 8388);
        port_first = false;
        read = refl;
        port_is = inr (8388, refl, omega arith, refl);
        port_text = (omega arith, (omega arith, (omega arith, (omega arith, tt))));
        port_named = refl;
        port_short = omega arith;
        ip_word = (
          omega arith,
          (
            omega arith,
            (omega arith, (omega arith, (omega arith, (omega arith, (omega arith, tt))))),
          ),
        );
        ip_named = refl;
        ip_short = omega arith;
      })
      refl refl refl refl (omega arith)

recv_remove-reload_example :
    let d = (recv_remove port_list timed_files answers ctx add_text with_server).disk in
    (timed_files.read_file d (lock_path port_list timed_files port) ≡ none)
    × (timed_files.read_file d (status_path port_list timed_files port) ≡ none)
    × ((ip_lock_reload timed_files lock d).locked_ip ≡ (
        if str_eq port port
        then []
        else (ip_lock_reload timed_files lock with_server.disk).locked_ip))
unfolding ip_lock_sidecar_path
recv_remove-reload_example =
    recv_remove-reload port_list timed_files timed_files-FileLaws timed_files-DiskLaws answers ctx
      add_text with_server server lock port reads_add refl (omega arith) refl refl (omega arith)

-- A request that changes the server of port 8388.
abbrev lock_request : Bytes
lock_request = codes "set_ip: {\"ip\":\"1.2.3.4\",\"server_port\":8388}"

with_server-IsTable : IsTable port_list with_server.table
with_server-IsTable q s found = elim (Bool-cases (str_eq port q)) [
  | inl same ↦
      let is : server ≡ s =
        some-injective server s (sym (if_true (str_eq port q) _ _ same) ∙ found) in
      subst (IsRegistered q) is (record {
        keyed = str_eq→eq port q same;
        sound = record { port = omega arith; password = omega arith; locked_ip = omega arith };
      })
  | inr apart ↦ absurd (cc (sym (if_false (str_eq port q) _ _ apart) ∙ found))
]

recv-IsTable_example :
    IsTable port_list
      (manager_recv_cb port_list timed_files answers ctx (some lock_request) with_server).table
recv-IsTable_example =
    recv-IsTable port_list timed_files port_list-TableLaws answers ctx (some lock_request)
      with_server with_server-IsTable

locked_then :
    (manager_recv_cb port_list timed_files answers ctx (some lock_request) with_server).table
    ≡ (port, record server { locked_ip = codes "1.2.3.4" }) ∷ []
unfolding manager_recv_cb get_action span dispatch str_eq before recv_set_ip parse_port_ip parsed
    get_data strchr port_ip_members decimal write_port_lock_ip on_server
locked_then = refl

list_messages-joined_example :
    concat (list_messages ctx (server ∷ server ∷ []))
    ≡ codes "[" ++ (joined (map (list_element ctx) (server ∷ server ∷ [])) ++ codes "\n]")
list_messages-joined_example = list_messages-joined ctx (server ∷ server ∷ [])

list_messages-Fits_example :
    All (λ x. length x < buf_size) (list_messages ctx (server ∷ server ∷ []))
list_messages-Fits_example =
    list_messages-Fits ctx (server ∷ server ∷ []) (omega arith, (omega arith, tt))

ping_messages-joined_example :
    ping_messages (server ∷ [])
    ≡ (codes "stat: {" ++ (joined (map ping_member (server ∷ [])) ++ codes "}")) ∷ []
unfolding decimal decimal_digits
ping_messages-joined_example = ping_messages-joined (server ∷ []) (omega arith)

-- The text is what `json.dumps` of Python writes without its spaces.
abbrev set_request : Bytes
set_request = codes "set_ip:{\"ip\":\"1.2.3.4\",\"server_port\":8388}"

letters : All IsLetter (codes "set_ip")
letters = (
  (omega arith, (λ h. absurd (omega arith)), (λ h. absurd (omega arith))),
  (
    (omega arith, (λ h. absurd (omega arith)), (λ h. absurd (omega arith))),
    (
      (omega arith, (λ h. absurd (omega arith)), (λ h. absurd (omega arith))),
      (
        (omega arith, (λ h. absurd (omega arith)), (λ h. absurd (omega arith))),
        (
          (omega arith, (λ h. absurd (omega arith)), (λ h. absurd (omega arith))),
          ((omega arith, (λ h. absurd (omega arith)), (λ h. absurd (omega arith))), tt),
        ),
      ),
    ),
  ),
)

is_all : (ℕ → Bool) → Bytes → Bool
is_all test [] = true
is_all test (c ∷ s) = let rest = is_all test s in if test c then rest else false

all_from : (n : ℕ) (s : Bytes) → is_all (ltb n) s ≡ true → All (λ c. n < c) s
unfolding is_all
all_from n [] h = tt
all_from n (c ∷ s) h = elim (Bool-cases (ltb n c)) [
  | inl e ↦ (ltb→lt n c e, all_from n s (rw e at h))
  | inr e ↦ absurd (cc (rw e at h))
]

recv-unspaced_example :
    manager_recv_cb port_list timed_files answers ctx (some set_request) with_server
    ≡ reply port_list timed_files (codes "err") with_server
unfolding str_eq is_all
recv-unspaced_example =
    recv-unspaced port_list timed_files answers ctx 115 (codes "et_ip")
      (codes "\"ip\":\"1.2.3.4\",\"server_port\":8388}") with_server refl letters
      (all_from 0 (codes "\"ip\":\"1.2.3.4\",\"server_port\":8388}") refl) refl (omega arith)

recv-Answered_example :
    Answered port_list timed_files with_server
      (manager_recv_cb port_list timed_files answers ctx (some (codes "ping")) with_server)
unfolding get_action span before str_eq
recv-Answered_example =
    recv-Answered port_list timed_files answers ctx (codes "ping") (codes "ping") (codes "ping")
      with_server (omega arith) refl refl

request-parts_example :
    (buf : Bytes) × (get_action (codes "ip:{}") ≡ some (codes "ip", buf)) × (get_data buf ≡ some [])
request-parts_example =
    request-parts false 105 (codes "p") (codes "}")
      (
        (omega arith, (λ h. absurd (omega arith)), (λ h. absurd (omega arith))),
        ((omega arith, (λ h. absurd (omega arith)), (λ h. absurd (omega arith))), tt),
      )
      (omega arith, tt)
