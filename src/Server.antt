-- ===== src/Server.antt =====
-- How server.c admits clients: the list of connections, the lock check, `accept_cb` and closing.
-- The access lists are those of acl.c, the lock that of ip_lock.c. What a system call answers
-- (the descriptor, the peer's name, the time, the environment) is an argument.
pub mod Exclusive
pub mod Runs
pub mod Decides
pub mod Status
use outline_multiport_server.Base.{
  ℕ, suc, ◌+◌, Bool, true, false, not, ◌&&◌, ◌||◌, Option, none, some, List, [], ◌∷◌, ◌++◌, Bytes,
  str_eq, is_empty, strncpy, length, ltb, leb, ◌==◌, if◌then◌else◌,
}
use outline_multiport_server.Base.Int.{ℤ, pos, negsuc, atoi}
use outline_multiport_server.Acl.{AclLibrary, Acl, denies_client}
use outline_multiport_server.IpLock.{
  IpLock, FileSystem, ip_len, max_track_ips, ip_lock_reload, ip_lock_set, ip_lock_record_incoming,
  ip_lock_record_blocked, ip_lock_write_status,
}

-- Of `server_t`, what the list of connections is read for.
pub record Connection : Type 0 where
  pub fd : ℕ
  pub peer_ip : Bytes

-- `server->peer_ip[0] != '\0' && strcmp(server->peer_ip, ip) == 0`
abbrev pub is_from : Bytes → Connection → Bool
is_from ip c = not (is_empty c.peer_ip) && str_eq c.peer_ip ip

count_from : Bytes → List Connection → ℕ
count_from ip [] = 0
count_from ip (c ∷ cs) = let n = count_from ip cs in if is_from ip c then suc n else n

unfoldable pub count_connections_for_ip : Bytes → List Connection → ℕ
unfolding count_from
count_connections_for_ip ip cs = if is_empty ip then 0 else count_from ip cs

-- The inner loop of `update_ip_lock_status`: whether the address is among those found.
unfoldable pub is_tracked : List Bytes → Bytes → Bool
is_tracked [] ip = false
is_tracked (x ∷ ips) ip = if str_eq x ip then true else is_tracked ips ip

-- The outer loop: the number of named connections, and up to 16 of their addresses, each once.
unfoldable pub track_ips : List Connection → ℕ → List Bytes → ℕ × List Bytes
unfolding is_tracked
track_ips [] total ips = (total, ips)
track_ips (c ∷ cs) total ips = track_ips cs (if is_empty c.peer_ip then total else suc total) (
    if is_empty c.peer_ip
    then ips
    else if not (is_tracked ips c.peer_ip) && ltb (length ips) max_track_ips
    then ips ++ (c.peer_ip ∷ [])
    else ips)

port_in_range : ℤ → ℤ → ℤ → Bool
port_in_range (pos p) (pos lo) (pos hi) =
    if p == 0 || (lo == 0 || hi == 0) then true else leb lo p && leb p hi
port_in_range p lo hi = true

-- `atoi` on the port and on the two variables of the environment, if both are set.
unfoldable pub ss_should_iplock_port : Option Bytes → Option Bytes → Bytes → Bool
unfolding port_in_range
ss_should_iplock_port (some min_env) (some max_env) port =
    port_in_range (atoi port) (atoi min_env) (atoi max_env)
ss_should_iplock_port min_env max_env port = true

-- `cork_dllist_remove(&server->entries)`
unfoldable pub remove_connection : ℕ → List Connection → List Connection
remove_connection fd [] = []
remove_connection fd (c ∷ cs) = if c.fd == fd then cs else c ∷ remove_connection fd cs

module _ (F : FileSystem) where
  open F use {Disk}

  -- The state that admission reads and writes: the lock, the files and the connections.
  pub record Server : Type 0 where
    pub lock : IpLock
    pub disk : Disk
    pub connections : List Connection

  unfoldable pub update_ip_lock_status : Server → ℕ → Server
  update_ip_lock_status s now =
      let (total, ips) = track_ips s.connections 0 [] in
      let (lock, disk) = ip_lock_write_status F s.lock total ips now s.disk in
      record s { lock = lock; disk = disk }

  -- `check_ip_lock_allowed` behind `ip_lock_reload`.
  unfoldable pub check_reloaded : IpLock → Disk → List Connection → Bytes → (IpLock × Disk) × Bool
  check_reloaded lock disk connections peer =
      if is_empty lock.locked_ip
      then (ip_lock_set F lock peer disk, true)
      else if str_eq peer lock.locked_ip
      then ((lock, disk), true)
      else if ltb 0 (count_connections_for_ip lock.locked_ip connections)
      then ((lock, disk), false)
      else (ip_lock_set F lock peer disk, true)

  unfoldable pub check_ip_lock_allowed : Server → Bytes → Server × Bool
  check_ip_lock_allowed s peer =
      if not s.lock.ip_lock_enabled
      then (s, true)
      else if is_empty peer
      then (s, true)
      else let lock = ip_lock_reload F s.lock s.disk in
        let ((lock', disk'), allowed) = check_reloaded lock s.disk s.connections peer in
        (record s { lock = lock'; disk = disk' }, allowed)

  -- The end of `accept_cb`: `new_server`, and its address where there is one.
  unfoldable pub admit : Server → ℕ → Bytes → ℕ → Server
  admit s fd peer now =
      update_ip_lock_status
        (record s {
          connections = s.connections ++ (record { fd = fd; peer_ip = strncpy peer ip_len } ∷ []);
        })
        now

  -- `accept_cb`, by the answer of the access lists. `none` for the peer is a failed `getpeername`.
  -- The result says whether the connection was kept. `fd` is what `accept` gave; where `accept`
  -- fails, the handler returns at once.
  unfoldable pub accept_cb : Server → (Bytes → Bool) → ℕ → Option Bytes → ℕ → Server × Bool
  accept_cb s denied fd none now = (admit s fd [] now, true)
  accept_cb s denied fd (some peer) now =
      if denied peer
      then (s, false)
      else let (s', allowed) = check_ip_lock_allowed s peer in
        if not allowed
        then (
          (if s'.lock.ip_lock_enabled
              then update_ip_lock_status
                  (record s' { lock = ip_lock_record_blocked s'.lock peer now }) now
              else s'),
          false,
        )
        else (
          admit
              (record s' {
                lock =
                    if s'.lock.ip_lock_enabled
                    then ip_lock_record_incoming s'.lock peer now
                    else s'.lock;
              })
              fd peer now,
          true,
        )

  -- `close_and_free_server`
  unfoldable pub close_and_free_server : Server → ℕ → ℕ → Server
  close_and_free_server s fd now =
      update_ip_lock_status (record s { connections = remove_connection fd s.connections }) now

-- The test that `accept_cb` makes before the lock check: `acl` says that lists are in use.
abbrev pub acl_denies : (L : AclLibrary) → Bool → Acl L → Bytes → Bool
acl_denies L acl lists peer = acl && denies_client L lists peer
