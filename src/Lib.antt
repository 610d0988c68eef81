-- ===== src/Lib.antt =====
-- Verification of the C server of the repository, a fork of shadowsocks-libev that serves one client
-- address per port. All paths below are in server/shadowsocks-libev/src.
--
-- The program and the files:
-- * A client connects to server.c. `accept_cb` asks the access lists (acl.c, rule.c), then the client
--   lock (ip_lock.c), and keeps or closes the connection; `close_and_free_server` drops one. Server
--   has the state that these share: the lock, the files and the list of connections. Its children
--   are Exclusive (the invariant of the lock), Runs (steps of the event loop and what they reach),
--   Decides (who is let in) and Status (the addresses for the status file).
-- * Acl models acl.c and rule.c: `init_acl`, `acl_match_host`, `acl_add_ip`, `acl_remove_ip`,
--   `outbound_block_match_host`. The static lists are the record `Acl`. Children: Reads and Hosts.
-- * IpLock models ip_lock.c: the static variables are the record `IpLock`, the files are a parameter.
--   Children: Print (what it prints into the status file), and for proofs Recent, Push and Distinct (the
--   arrays of recent addresses), Json (the texts of the status file), Sync, Init and Reload (the lock and its
--   file).
-- * Relay models one connection of server.c behind its admission: the record `Session` is the
--   server_t with its remote_t, both buffers, and whether the four watchers are on. Children: Header
--   (the address of the request, with `validate_hostname` of netutils.c), Sockets (one `send`), Events
--   (`server_recv_cb`, `server_send_cb`, `remote_recv_cb`, `remote_send_cb`, `resolv_cb`, the timer)
--   and Ciphers (aead.c as the cipher of a connection); for proofs Names, Sends, Flow, Asking, Upward,
--   Downward and Runs (what every sequence of events reaches), and Drain (what waits is sent).
-- * UdpRelay models the address header of udprelay.c; its child Headers compares it with the one of
--   server.c.
-- * PpBloom models ppbloom.c, the two filters of used salts; its child Window says how long a salt is
--   known.
-- * Aead models aead.c with the structures of crypto.h. Children: Ciphers (the ciphers and one chunk),
--   and for proofs Chunk (one chunk), Stream (the loop of `aead_decrypt`), Resume and Begin (its calls
--   on a running stream and on a new one), Send (the calls of `aead_encrypt`, up to the receiver) and
--   Packet (UDP).
-- * Manager models manager.c, which starts and stops one server.c process for each port and speaks
--   with clients over a socket: the struct server, its table and the process are records. Children:
--   Requests (`get_action`, `get_data`, `get_server`, `parse_traffic`, `parse_port_ip`), Servers
--   (`add_server`, `remove_server`, `check_port`, the command line), Replies (`list`, `ping`,
--   `ip_status`) and Handler (`manager_recv_cb`); for proofs Fields, Words, Table, Registered and
--   Invariant (the table), Listing and Messages (what is sent), Answered, Unread, Paths and Locks (the files
--   through which the manager and ip_lock.c of a server's process share the client lock).
-- * Cache models cache.c, the table of UDP associations. Children: Order and Clear.
-- * Base holds shared names, lists measured by native numbers, C strings, and the integers of `atoi`.
-- * Tests holds small instances of the libraries and the theorems at concrete inputs.
--
-- Functions keep the names of the C code. A string is the list of its bytes before the NUL, and a
-- buffer that is written by `strncpy` or `snprintf` is cut where the code cuts it. A result -1, NULL
-- or an error code is `none` or a constructor. What a system call answers (the time, the peer's name,
-- a descriptor, a random salt) is an argument. Times are natural numbers.
--
-- Parameters, with their documented laws as hypotheses: the calls on files (`FileSystem`), libipset,
-- libcork's addresses and PCRE2 (`AclLibrary`), libbloom (`BloomLibrary`), the ciphers of libsodium
-- and mbed TLS with HKDF (`CryptoLibrary`), uthash (`HashLibrary`), json.c and the hash table of
-- libcork (`ManagerLibrary`), the function pointers of `crypto_t` (`StreamCrypto`, which aead.c fills).
-- What the system answers to the manager in the course of a request, such as whether a port can be
-- bound and `system` gives -1, is the record `Answers`.
--
-- Fuel: `init_acl` reads on one more round than the file has bytes, and each round reads a byte or
-- ends; `aead_decrypt` loops on one more round than the buffer has bytes, and each round uses up at
-- least 35; `validate_hostname` loops on as many rounds as the name has bytes, and each uses up at
-- least one. All other loops recurse on what they walk.
--
-- Not modelled: releasing memory, logging, the event loop's timers and socket options, the sockets of
-- `connect_to_remote` and `create_and_bind`, of which only the outcome counts, the branches for Windows,
-- `mkdir`, `main` and the signals, the callbacks of udprelay.c, and the components local.c, redir.c,
-- tunnel.c, resolv.c, plugin.c, jconf.c, utils.c, the socket calls of netutils.c, crypto.c and stream.c.
-- The libraries libcork, libipset, libbloom, uthash.h, json.c and base64.c are other projects' code.
pub mod Base
pub mod Acl
pub mod IpLock
pub mod Server
pub mod PpBloom
pub mod Aead
pub mod Cache
pub mod Manager
pub mod Relay
pub mod UdpRelay
pub mod Tests
