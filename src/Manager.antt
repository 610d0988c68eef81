-- ===== src/Manager.antt =====
-- The manager process, manager.c: its table of servers, one for each port, and its control socket.
-- Children: Requests reads a request, Servers starts and stops servers, Replies writes the answers,
-- Handler is `manager_recv_cb`; the others hold proofs.
pub mod Requests
pub mod Servers
pub mod Replies
pub mod Handler
pub mod Fields
pub mod Table
pub mod Paths
pub mod Locks
pub mod Answered
pub mod Unread
pub mod Listing
pub mod Messages
pub mod Words
pub mod Registered
pub mod Invariant
use outline_multiport_server.Base.{
  ℕ, zero, suc, ◌+◌, ◌-◌, ◌%◌, Bool, true, false, Option, none, some, List, [], ◌∷◌, ◌++◌, Bytes,
  take, drop, replicate, decimal, c_str,
}
use outline_multiport_server.Base.Int.{ℤ, pos, negsuc}
use outline_multiport_server.IpLock.{FileSystem}

-- `struct server`. A field that is a pointer is `none` where it is NULL.
pub record Server : Type 0 where
  pub port : Bytes
  pub password : Bytes
  pub locked_ip : Bytes
  pub fast_open : Bytes
  pub no_delay : Bytes
  pub mode : Option Bytes
  pub method : Option Bytes
  pub plugin : Option Bytes
  pub plugin_opts : Option Bytes
  pub traffic : ℕ

-- `memset(server, 0, sizeof(struct server))`
abbrev pub blank_server : Server
blank_server = record {
  port = [];
  password = [];
  locked_ip = [];
  fast_open = [];
  no_delay = [];
  mode = none;
  method = none;
  plugin = none;
  plugin_opts = none;
  traffic = 0;
}

pub data Mode : Type 0 where
  tcp_only tcp_and_udp udp_only : Mode

-- `struct manager_ctx`. `main` gives `method` a value in every case.
pub record ManagerCtx : Type 0 where
  pub fast_open : Bool
  pub no_delay : Bool
  pub reuse_port : Bool
  pub verbose : Bool
  pub mode : Mode
  pub timeout : Option Bytes
  pub method : Bytes
  pub iface : Option Bytes
  pub acl : Option Bytes
  pub user : Option Bytes
  pub plugin : Option Bytes
  pub plugin_opts : Option Bytes
  pub manager_address : Bytes
  pub hosts : List Bytes
  pub nameservers : Option Bytes
  pub mtu : ℤ
  pub ipv6first : Bool
  pub nofile : ℤ
  -- The global variables `executable` and `working_dir`.
  pub executable : Bytes
  pub working_dir : Bytes

-- What the code reads of a `json_value`: the members of an object, each with its value.
pub data JsonField : Type 0 where
  json_string : Bytes → JsonField
  json_integer : ℤ → JsonField
  json_boolean : Bool → JsonField
  json_other : JsonField

pub data JsonValue : Type 0 where
  json_object : List (Bytes × JsonField) → JsonValue
  not_object : JsonValue

-- The libraries: json.c, and the hash table of libcork with its items in the order of the iterator.
-- `table_modify` is a change of the value through the pointer that `cork_hash_table_get` gave.
pub record ManagerLibrary : Type 1 where
  pub json_parse_ex : Bytes → Option JsonValue
  pub Table : Type 0
  pub table_new : Table
  pub table_get : Table → Bytes → Option Server
  pub table_put : Table → Bytes → Server → Table
  pub table_delete : Table → Bytes → Table
  pub table_modify : Table → Bytes → (Server → Server) → Table
  pub table_items : Table → List Server

-- What the system answers in the course of one request: whether `create_and_bind` binds a host and
-- port for UDP or not, whether `system` on a command gives something else than -1 (the command's own
-- exit status is not looked at), the number that `pid` holds before `fscanf`,
-- and the bytes on the stack from `port` and from `ip` on.
pub record Answers : Type 0 where
  pub binds : Bytes → Bytes → Bool → Bool
  pub system_starts : Bytes → Bool
  pub pid_before : ℤ
  pub port_memory : Bytes
  pub ip_memory : Bytes

-- The state of the process: the table, the files, and what was sent to clients, run and killed.
pub record Manager (M : ManagerLibrary) (F : FileSystem) : Type 0 where
  pub table : M.Table
  pub disk : F.Disk
  pub sent : List Bytes
  pub ran : List Bytes
  pub killed : List ℤ

abbrev pub buf_size : ℕ
buf_size = 65535

-- `strncpy(dst, s, n)` on the memory from `dst` on: `s` with NULs behind it, `n` bytes in all.
abbrev pub strncpy_into : ℕ → Bytes → Bytes → Bytes
strncpy_into n s memory = take n (s ++ replicate n 0) ++ drop n memory

-- A `json_int_t` as `uint64_t`.
abbrev pub as_uint64 : ℤ → ℕ
as_uint64 (pos n) = n % 0x1_0000_0000_0000_0000
as_uint64 (negsuc n) = 0xffff_ffff_ffff_ffff - n % 0x1_0000_0000_0000_0000

-- `%d` of `printf`
abbrev pub decimal_int : ℤ → Bytes
decimal_int (pos n) = decimal n
decimal_int (negsuc n) = b'-' ∷ decimal (suc n)
