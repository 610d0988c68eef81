-- ===== src/Server/Runs.antt =====
-- Runs of server.c from its start: every sequence of accepted and closed connections.
use outline_multiport_server.Base.{
  ℕ, ◌≡◌, ◌≢◌, Bool, false, Option, [], Bytes, All, is_empty, strncpy,
}
use outline_multiport_server.IpLock.{FileSystem, initial, ip_lock_init}
use outline_multiport_server.IpLock.Sync.{FileLaws, IsWritable}
use outline_multiport_server.IpLock.Init.{init-IsSynced}
use outline_multiport_server.Server.{Server, accept_cb, close_and_free_server}
use outline_multiport_server.Server.Exclusive.{
  IsHeldBy, IsExclusive, accept-IsExclusive, close-IsExclusive,
}

-- What the event loop does to the connections: a client comes, with any name, time and answer of
-- the access lists, or a connection is closed.
pub data Step (F : FileSystem) : Server F → Server F → Type 0 where
  accepted :
      (s : Server F) (denied : Bytes → Bool) (fd : ℕ) (peer : Option Bytes) (now : ℕ)
      → Step F s (accept_cb F s denied fd peer now).0
  closed : (s : Server F) (fd now : ℕ) → Step F s (close_and_free_server F s fd now)

pub data Reach (F : FileSystem) (s : Server F) : Server F → Type 0 where
  here : Reach F s s
  next : {t u : Server F} → Reach F s t → Step F t u → Reach F s u

-- The state of `main` after `ip_lock_init`, with no connection yet.
unfoldable pub start : (F : FileSystem) → Bytes → Bytes → F.Disk → Server F
start F lock_file status_file disk = record {
  lock = ip_lock_init F initial lock_file status_file disk;
  disk = disk;
  connections = [];
}

module _ (F : FileSystem) (lock_file status_file : Bytes) where
  pub start-IsExclusive :
      (disk : F.Disk)
      → is_empty (strncpy lock_file 511) ≡ false
      → strncpy lock_file 511 ≢ strncpy status_file 511
      → IsExclusive F (strncpy lock_file 511) (start F lock_file status_file disk)
  unfolding start
  start-IsExclusive disk named apart = record {
    synced = init-IsSynced F lock_file status_file disk named apart;
    held = tt;
  }

  module _ (laws : FileLaws F) (writable : IsWritable F (strncpy lock_file 511)) where
    -- Let the calls on files keep their laws, let the lock file have a name, other than the status
    -- file's, and let writing it always succeed. While nothing else changes the files, in every
    -- state that the server reaches from its start by accepting and closing connections, each
    -- connection either has no client address or has the address that holds the lock.
    pub reach-IsHeldBy :
        (disk : F.Disk) (s : Server F)
        → is_empty (strncpy lock_file 511) ≡ false
        → strncpy lock_file 511 ≢ strncpy status_file 511
        → Reach F (start F lock_file status_file disk) s
        → All (IsHeldBy s.lock.locked_ip) s.connections
    reach-IsHeldBy disk s named apart r = (go r).held
      where
        path : Bytes
        path = strncpy lock_file 511

        step : {t u : Server F} → Step F t u → IsExclusive F path t → IsExclusive F path u
        step (accepted t denied fd peer now) h =
            accept-IsExclusive F path laws writable t denied fd peer now h
        step (closed t fd now) h = close-IsExclusive F path laws t fd now h

        go : {t : Server F} → Reach F (start F lock_file status_file disk) t → IsExclusive F path t
        go here = start-IsExclusive disk named apart
        go (next r st) = step st (go r)
