-- ===== src/IpLock.antt =====
-- The per-port client lock of ip_lock.c.
-- The files that it reads and writes are those of the parameter `FileSystem`; the time is an
-- argument. An array with its count of entries in use is a list of fixed length beside a number.
pub mod Print
pub mod Recent
pub mod Push
pub mod Distinct
pub mod Json
pub mod Sync
pub mod Init
pub mod Reload
unfoldable pub use Print.*
use outline_multiport_server.Base.{
  ℕ, zero, suc, ◌+◌, ◌-◌, ◌*◌, Bool, true, false, not, ◌&&◌, ◌||◌, Option, none, some, List, [],
  ◌∷◌, ◌++◌, Bytes, codes, str_eq, is_empty, strncpy, c_str, fgets, decimal, length, take, drop,
  get_or, set, replicate, ltb, leb, ◌==◌, if◌then◌else◌,
}

abbrev pub max_track_ips : ℕ
max_track_ips = 16

abbrev pub recent_max : ℕ
recent_max = 8

abbrev pub recent_ttl_sec : ℕ
recent_ttl_sec = 30

-- The characters that an address buffer of `INET6_ADDRSTRLEN` bytes holds.
abbrev pub ip_len : ℕ
ip_len = 45

abbrev pub blank : RecentEntry
blank = record { ip = []; seen_at = 0 }

-- An array of `recent_max` entries, of which the first `count` are in use.
pub record Recents : Type 0 where
  pub store : List RecentEntry
  pub count : ℕ

-- `now - seen_at <= IP_LOCK_RECENT_TTL_SEC`
abbrev pub is_fresh : ℕ → RecentEntry → Bool
is_fresh now e = leb now (e.seen_at + recent_ttl_sec)

-- The loop of `ip_lock_prune_recent` with `n` rounds left, at the read index `i` and the write
-- index `w`.
unfoldable pub prune_loop : ℕ → ℕ → ℕ → ℕ → List RecentEntry → Recents
prune_loop now zero i w store = record { store = store; count = w }
prune_loop now (suc n) i w store =
    let e = get_or store i blank in
    elim (is_fresh now e) [
      | true ↦ prune_loop now n (suc i) (suc w) (if w == i then store else set store w e)
      | false ↦ prune_loop now n (suc i) w store
    ]

unfoldable pub ip_lock_prune_recent : Recents → ℕ → Recents
unfolding prune_loop
ip_lock_prune_recent r now = prune_loop now r.count 0 0 r.store

-- The index of the entry with this address among the next `n`, from the index `i` on.
unfoldable pub find_recent : ℕ → ℕ → List RecentEntry → Bytes → Option ℕ
find_recent zero i store ip = none
find_recent (suc n) i store ip = elim (str_eq (get_or store i blank).ip ip) [
  | true ↦ some i
  | false ↦ find_recent n (suc i) store ip
]

-- `memmove(&store[1], &store[0], n * sizeof(store[0]))`
unfoldable pub move_up : ℕ → List RecentEntry → List RecentEntry
move_up n store = take 1 store ++ (take n store ++ drop (suc n) store)

-- `ip_lock_push_recent` on an address that is not empty, behind the pruning.
unfoldable pub push_pruned : Recents → Bytes → ℕ → Recents
unfolding find_recent move_up
push_pruned r ip now = elim (find_recent r.count 0 r.store ip) [
  | some i ↦
      let e = record (get_or r.store i blank) { seen_at = now } in
      let store = set r.store i e in
      record r { store = if i == 0 then store else set (move_up i store) 0 e }
  | none ↦
      let count = if ltb r.count recent_max then suc r.count else recent_max in
      record {
        store =
            set (move_up (count - 1) r.store) 0 (record { ip = strncpy ip ip_len; seen_at = now });
        count = count;
      }
]

unfoldable pub ip_lock_push_recent : Recents → Bytes → ℕ → Recents
unfolding push_pruned ip_lock_prune_recent
ip_lock_push_recent r ip now =
    if is_empty ip then r else push_pruned (ip_lock_prune_recent r now) ip now

abbrev pub empty_recents : Recents
empty_recents = record { store = replicate recent_max blank; count = 0 }

-- The static variables of ip_lock.c.
pub record IpLock : Type 0 where
  pub lock_file_path : Bytes
  pub status_file_path : Bytes
  pub locked_ip : Bytes
  pub recent_incoming : Recents
  pub blocked_ips : Recents
  pub lock_file_mtime : ℕ
  pub ip_lock_enabled : Bool

-- Before `ip_lock_init`.
abbrev pub initial : IpLock
initial = record {
  lock_file_path = [];
  status_file_path = [];
  locked_ip = [];
  recent_incoming = empty_recents;
  blocked_ips = empty_recents;
  lock_file_mtime = 0;
  ip_lock_enabled = false;
}

abbrev pub ip_lock_reset_recent_lists : IpLock → IpLock
ip_lock_reset_recent_lists l = record l {
  recent_incoming = empty_recents;
  blocked_ips = empty_recents;
}

unfoldable pub ip_lock_sidecar_path : ℕ → Bytes → Bytes → Bytes
ip_lock_sidecar_path out_size port suffix =
    take (out_size - 1)
      (codes "/run/shadowsocks-manager/.shadowsocks_" ++ (port ++ (codes "." ++ suffix)))

-- The calls on named files: `stat`, reading a whole file, `fopen(path, "w")` with what is printed
-- before `fclose`, and `unlink`. `none` is a failure.
pub record FileSystem : Type 1 where
  pub Disk : Type 0
  pub stat_mtime : Disk → Bytes → Option ℕ
  pub read_file : Disk → Bytes → Option Bytes
  pub write_file : Disk → Bytes → Bytes → Option Disk
  pub unlink : Disk → Bytes → Disk

is_line_end : ℕ → Bool
is_line_end c = c == 10 || (c == 13 || c == 32)

-- Drops newlines, carriage returns and spaces at the end.
unfoldable pub trim_line_end : Bytes → Bytes
unfolding is_line_end
trim_line_end [] = []
trim_line_end (c ∷ s) = elim (trim_line_end s) [
  | [] ↦ if is_line_end c then [] else c ∷ []
  | d ∷ t ↦ c ∷ d ∷ t
]

-- What `fgets` and the trimming leave in `locked_ip`.
unfoldable pub lock_line : Bytes → Bytes
unfolding trim_line_end
lock_line content = elim (fgets 46 content) [ none ↦ [] | some r ↦ trim_line_end (c_str r.0) ]

module _ (F : FileSystem) where
  open F use {Disk, stat_mtime, read_file, write_file, unlink}

  pub ip_lock_reload : IpLock → Disk → IpLock
  ip_lock_reload l disk =
      if is_empty l.lock_file_path then l else elim (stat_mtime disk l.lock_file_path) [
        | none ↦ record (if is_empty l.locked_ip then l else ip_lock_reset_recent_lists l) {
          locked_ip = [];
          lock_file_mtime = 0;
        }
        | some t ↦ if t == l.lock_file_mtime then l else elim (read_file disk l.lock_file_path) [
          | none ↦ record l { locked_ip = []; lock_file_mtime = t }
          | some content ↦
              let ip = lock_line content in
              record (if str_eq l.locked_ip ip then l else ip_lock_reset_recent_lists l) {
                locked_ip = ip;
                lock_file_mtime = t;
              }
        ]
      ]

  pub ip_lock_init : IpLock → Bytes → Bytes → Disk → IpLock
  ip_lock_init l lock_file status_file disk =
      ip_lock_reload
        (ip_lock_reset_recent_lists (record l {
          ip_lock_enabled = true;
          lock_file_path = strncpy lock_file 511;
          status_file_path = strncpy status_file 511;
          locked_ip = [];
        }))
        disk

  -- The part of `ip_lock_set` that writes the lock file and notes its time.
  pub save_lock : IpLock → Disk → IpLock × Disk
  save_lock l disk =
      if is_empty l.lock_file_path
      then (l, disk)
      else elim (write_file disk l.lock_file_path (l.locked_ip ++ (10 ∷ []))) [
        | none ↦ (l, disk)
        | some disk' ↦ elim (stat_mtime disk' l.lock_file_path) [
          | none ↦ (l, disk')
          | some t ↦ (record l { lock_file_mtime = t }, disk')
        ]
      ]

  pub ip_lock_set : IpLock → Bytes → Disk → IpLock × Disk
  ip_lock_set l ip disk =
      if is_empty ip
      then (l, disk)
      else save_lock
          (record (if not (is_empty l.locked_ip) && not (str_eq l.locked_ip ip)
            then ip_lock_reset_recent_lists l
            else l) { locked_ip = strncpy ip ip_len })
          disk

  unfoldable pub ip_lock_clear : IpLock → Disk → IpLock × Disk
  ip_lock_clear l disk = (
    ip_lock_reset_recent_lists (record l { locked_ip = []; lock_file_mtime = 0 }),
    if is_empty l.lock_file_path then disk else unlink disk l.lock_file_path,
  )

unfoldable pub ip_lock_record_incoming : IpLock → Bytes → ℕ → IpLock
ip_lock_record_incoming l ip now =
    if l.ip_lock_enabled
    then record l { recent_incoming = ip_lock_push_recent l.recent_incoming ip now }
    else l

unfoldable pub ip_lock_record_blocked : IpLock → Bytes → ℕ → IpLock
ip_lock_record_blocked l ip now =
    if l.ip_lock_enabled
    then record l { blocked_ips = ip_lock_push_recent l.blocked_ips ip now }
    else l

module _ (F : FileSystem) where
  open F use {Disk, write_file}

  -- A write whose failure is ignored.
  pub written : Disk → Bytes → Bytes → Disk
  written disk path text = elim (write_file disk path text) [ none ↦ disk | some d ↦ d ]

  pub ip_lock_write_status : IpLock → ℕ → List Bytes → ℕ → Disk → IpLock × Disk
  ip_lock_write_status l total active now disk =
      if is_empty l.status_file_path
      then (l, disk)
      else let incoming = ip_lock_prune_recent l.recent_incoming now in
        let blocked = ip_lock_prune_recent l.blocked_ips now in
        let text =
          status_text l.locked_ip total active
            (inactive_ips active (take incoming.count incoming.store))
            (inactive_ips active (take blocked.count blocked.store)) in
        (
          record l { recent_incoming = incoming; blocked_ips = blocked },
          written disk l.status_file_path text,
        )
