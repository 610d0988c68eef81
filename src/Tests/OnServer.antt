-- ===== src/Tests/OnServer.antt =====
-- Runs of server.c with small files.
use outline_multiport_server.Base.{
  List, sym, length, ◌≤◌, ◌++◌, str_eq, ℕ, ◌<◌, ◌≡◌, ◌≢◌, refl, ap, Bool, true, false, some, [],
  ◌∷◌, Bytes, codes, All, is_empty, strncpy, get_or, arith,
}
use outline_multiport_server.IpLock.{IpLock, ip_lock_init, initial, ip_lock_set, ip_lock_clear}
use outline_multiport_server.IpLock.Sync.{IsSynced}
use outline_multiport_server.IpLock.Init.{init-IsSynced, init-holder}
use outline_multiport_server.IpLock.Reload.{IsWord}
use outline_multiport_server.Tests.Ports.{timed_files, timed_files-DiskLaws}
use outline_multiport_server.Server.{Server, accept_cb, check_ip_lock_allowed}
use outline_multiport_server.Server.Exclusive.{IsHeldBy, IsExclusive, accept-IsExclusive}
use outline_multiport_server.Server.Runs.{
  accepted, here, next, start, start-IsExclusive, reach-IsHeldBy,
}
use outline_multiport_server.Server.Decides.{may_enter, accept_decides, check_unwritable}
use outline_multiport_server.Server.Status.{track_ips-format_active_ips}
use outline_multiport_server.IpLock.{max_track_ips, status_json_max, ip_lock_format_active_ips}
use outline_multiport_server.IpLock.Json.{json_items}
use outline_multiport_server.Server.{Connection, is_tracked, track_ips}
use outline_multiport_server.Tests.Libraries.{log_files, no_files, log_files-FileLaws}

abbrev lock_file : Bytes
lock_file = codes "/l"

abbrev status_file : Bytes
status_file = codes "/s"

abbrev nobody_denied : Bytes → Bool
nobody_denied peer = false

abbrev alice : Bytes
alice = codes "1.2.3.4"

abbrev bob : Bytes
bob = codes "5.6.7.8"

abbrev begin : Server log_files
begin = start log_files lock_file status_file []

abbrev first : Server log_files
first = (accept_cb log_files begin nobody_denied 3 (some alice) 100).0

abbrev second : Server log_files
second = (accept_cb log_files first nobody_denied 4 (some bob) 101).0

is_named : is_empty (strncpy lock_file 511) ≡ false
is_named = refl

byte_ne : (a b : ℕ) → a < b → a ≢ b
byte_ne a b less h = absurd (omega arith)

is_apart : strncpy lock_file 511 ≢ strncpy status_file 511
is_apart h = byte_ne 108 115 (omega arith) (ap (λ (b : Bytes). get_or b 1 0) h)

reach-IsHeldBy_example : All (IsHeldBy second.lock.locked_ip) second.connections
reach-IsHeldBy_example =
    reach-IsHeldBy log_files lock_file status_file log_files-FileLaws
      (λ d text. ((strncpy lock_file 511, text) ∷ d, refl)) [] second is_named is_apart
      (next (next here (accepted begin nobody_denied 3 (some alice) 100))
        (accepted first nobody_denied 4 (some bob) 101))

begin-IsExclusive : IsExclusive log_files (strncpy lock_file 511) begin
begin-IsExclusive = start-IsExclusive log_files lock_file status_file [] is_named is_apart

first_kept : IsExclusive log_files (strncpy lock_file 511) first
first_kept =
    accept-IsExclusive log_files (strncpy lock_file 511) log_files-FileLaws
      (λ d text. ((strncpy lock_file 511, text) ∷ d, refl)) begin nobody_denied 3 (some alice) 100
      begin-IsExclusive

first-IsExclusive : IsExclusive log_files (strncpy lock_file 511) first
first-IsExclusive =
    accept-IsExclusive log_files (strncpy lock_file 511) log_files-FileLaws
      (λ d text. ((strncpy lock_file 511, text) ∷ d, refl)) begin nobody_denied 3 (some alice) 100
      begin-IsExclusive

bob_named : is_empty bob ≡ false
bob_named = refl

accept_decides_example :
    ((accept_cb log_files first nobody_denied 4 (some bob) 101).1 ≡ may_enter bob log_files first)
    × (may_enter bob log_files first ≡ false
        → (accept_cb log_files first nobody_denied 4 (some bob) 101).0.connections
          ≡ first.connections)
accept_decides_example =
    accept_decides log_files (strncpy lock_file 511) first nobody_denied 4 101 bob first-IsExclusive
      bob_named refl

-- A server on files with times that has seen no lock file yet.
abbrev unlocked : IpLock
unlocked = record initial {
  ip_lock_enabled = true;
  lock_file_path = lock_file;
  status_file_path = status_file;
}

init-holder_example :
    let path = strncpy lock_file 511 in
    let after_set = (ip_lock_set timed_files unlocked alice (1, [])).1 in
    let after_clear = (ip_lock_clear timed_files unlocked (1, [])).1 in
    let again = ip_lock_init timed_files initial lock_file status_file in
    ((again after_set).locked_ip ≡ alice)
    × IsSynced timed_files path (again after_set) after_set
    × ((again after_clear).locked_ip ≡ [])
    × IsSynced timed_files path (again after_clear) after_clear
unfolding str_eq
init-holder_example =
    init-holder timed_files lock_file status_file unlocked alice (1, [])
      (2, (strncpy lock_file 511, (1, codes "1.2.3.4\n")) ∷ []) 1 timed_files-DiskLaws is_named
      is_apart refl refl alice_word (omega arith) refl refl (λ h. byte_ne 0 1 (omega arith) (sym h))
  where
    alice_word : IsWord alice
    alice_word = (
      omega arith,
      (omega arith, (omega arith, (omega arith, (omega arith, (omega arith, (omega arith, tt)))))),
    )

fresh-IsSynced :
    IsSynced log_files
      (strncpy lock_file 511)
      (ip_lock_init log_files initial lock_file status_file [])
      []
fresh-IsSynced = init-IsSynced log_files lock_file status_file [] is_named is_apart

-- A server without its lock file, on a disk that takes no writes, with a connection from `alice`.
abbrev unwritable : Server no_files
unwritable = record {
  lock = record initial { ip_lock_enabled = true; lock_file_path = lock_file; locked_ip = alice };
  disk = tt;
  connections = record { fd = 3; peer_ip = alice } ∷ [];
}

check_unwritable_example :
    ((check_ip_lock_allowed no_files unwritable bob).1 ≡ true)
    × ((check_ip_lock_allowed no_files unwritable bob).0.disk ≡ unwritable.disk)
    × ((check_ip_lock_allowed no_files unwritable bob).0.connections ≡ unwritable.connections)
check_unwritable_example = check_unwritable no_files unwritable bob refl refl refl (λ text. refl)

abbrev two_connections : List Connection
two_connections = record { fd = 3; peer_ip = alice } ∷ record { fd = 4; peer_ip = alice } ∷ []

track_ips-format_active_ips_example :
    (length (track_ips two_connections 0 []).1 ≤ max_track_ips)
    × (ip_lock_format_active_ips (track_ips two_connections 0 []).1 status_json_max
        ≡ codes "[" ++ (json_items true (track_ips two_connections 0 []).1 ++ codes "]"))
track_ips-format_active_ips_example =
    track_ips-format_active_ips two_connections (omega arith, (omega arith, tt))

-- The two connections of one client are counted, and listed once.
alice_once : track_ips two_connections 0 [] ≡ (2, alice ∷ [])
unfolding track_ips is_tracked str_eq
alice_once = refl
