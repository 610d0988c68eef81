-- ===== src/Manager/Servers.antt =====
-- How manager.c starts and stops the servers of its table.
use outline_multiport_server.Base.{
  ℕ, ◌-◌, Bool, true, false, not, ◌&&◌, ◌||◌, Option, none, some, List, [], ◌∷◌, ◌++◌, Bytes, codes,
  take, isspace, isdigit, is_empty, ◌==◌, if◌then◌else◌,
}
use outline_multiport_server.Base.Int.{ℤ, pos, negsuc, atoi}
use outline_multiport_server.IpLock.{FileSystem, ip_lock_sidecar_path}
use outline_multiport_server.Manager.{
  Server, Mode, tcp_only, tcp_and_udp, udp_only, ManagerCtx, ManagerLibrary, Answers, Manager,
  buf_size, decimal_int,
}

-- The text of an option that is a pointer, where it is not NULL.
abbrev pub given : Option Bytes → (Bytes → Bytes) → Bytes
given none f = []
given (some t) f = f t

abbrev pub when : Bool → Bytes → Bytes
when b t = if b then t else []

abbrev pub is_null : Option Bytes → Bool
is_null none = true
is_null (some t) = false

abbrev pub nonzero : ℤ → Bool
nonzero (pos n) = not (n == 0)
nonzero (negsuc n) = true

abbrev pub or_else : Option Bytes → Bytes → Bytes
or_else none d = d
or_else (some t) d = t

abbrev pub is_mode : Mode → Mode → Bool
is_mode tcp_only m = elim m [ tcp_only ↦ true | _ ↦ false ]
is_mode tcp_and_udp m = elim m [ tcp_and_udp ↦ true | _ ↦ false ]
is_mode udp_only m = elim m [ udp_only ↦ true | _ ↦ false ]

unfoldable pub config_path : Bytes → Bytes → Bytes
config_path prefix port = prefix ++ (codes "/.shadowsocks_" ++ (port ++ codes ".conf"))

-- The file that `build_config` writes.
unfoldable pub config_text : ManagerCtx → Server → Bytes
config_text m s =
    codes "{\n"
    ++ (codes "\"server_port\":"
        ++ (decimal_int (atoi s.port)
            ++ (codes ",\n"
                ++ (codes "\"password\":\""
                    ++ (s.password
                        ++ (codes "\""
                            ++ (codes ",\n\"method\":\""
                                ++ (or_else s.method m.method
                                    ++ (codes "\""
                                        ++ ((if not (is_empty s.fast_open)
                                              then codes ",\n\"fast_open\": " ++ s.fast_open
                                              else when m.fast_open
                                                  (codes ",\n\"fast_open\": true"))
                                            ++ ((if not (is_empty s.no_delay)
                                                  then codes ",\n\"no_delay\": " ++ s.no_delay
                                                  else when m.no_delay
                                                      (codes ",\n\"no_delay\": true"))
                                                ++ (when m.reuse_port
                                                      (codes ",\n\"reuse_port\": true")
                                                    ++ (given s.mode (λ t.
                                                          codes ",\n\"mode\":\""
                                                          ++ (t ++ codes "\""))
                                                        ++ (given s.plugin (λ t.
                                                            codes ",\n\"plugin\":\""
                                                            ++ (t ++ codes "\""))
                                                            ++ (given s.plugin_opts (λ t.
                                                            codes ",\n\"plugin_opts\":\""
                                                            ++ (t ++ codes "\""))
                                                            ++ codes "\n}\n")))))))))))))))

-- `snprintf(cmd + len, BUF_SIZE - len, ...)`
unfoldable pub append_cmd : Bytes → Bytes → Bytes
append_cmd cmd t = take (buf_size - 1) (cmd ++ t)

unfoldable pub append_hosts : Bytes → List Bytes → Bytes
append_hosts cmd [] = cmd
append_hosts cmd (host ∷ hosts) = append_hosts (append_cmd cmd (codes " -s " ++ host)) hosts

-- `construct_command_line` but for `build_config`: each option in turn, cut at the buffer's end.
unfoldable pub command_line : ManagerCtx → Server → Bytes
unfolding append_hosts
command_line m s =
    let port = decimal_int (atoi s.port) in
    let cmd0 = append_cmd [] (
      m.executable
      ++ (codes " --manager-address "
          ++ (m.manager_address
              ++ (codes " -f "
                  ++ (m.working_dir
                      ++ (codes "/.shadowsocks_"
                          ++ (port
                              ++ (codes ".pid -c "
                                  ++ (m.working_dir
                                      ++ (codes "/.shadowsocks_"
                                          ++ (port ++ codes ".conf"))))))))))) in
    let cmd1 = append_cmd cmd0 (given m.acl (λ t. codes " --acl " ++ t)) in
    let cmd2 = append_cmd cmd1 (given m.timeout (λ t. codes " -t " ++ t)) in
    let cmd3 = append_cmd cmd2 (when (nonzero m.nofile) (codes " -n " ++ decimal_int m.nofile)) in
    let cmd4 = append_cmd cmd3 (given m.user (λ t. codes " -a " ++ t)) in
    let cmd5 = append_cmd cmd4 (when m.verbose (codes " -v")) in
    let cmd6 = append_cmd cmd5 (when (is_null s.mode && is_mode udp_only m.mode) (codes " -U")) in
    let cmd7 =
      append_cmd cmd6 (when (is_null s.mode && is_mode tcp_and_udp m.mode) (codes " -u")) in
    let cmd8 = append_cmd cmd7 (given m.iface (λ t. codes " -i \"" ++ (t ++ codes "\""))) in
    let cmd9 =
      append_cmd cmd8 (when (is_empty s.fast_open && m.fast_open) (codes " --fast-open")) in
    let cmd10 = append_cmd cmd9 (when (is_empty s.no_delay && m.no_delay) (codes " --no-delay")) in
    let cmd11 = append_cmd cmd10 (when m.ipv6first (codes " -6")) in
    let cmd12 = append_cmd cmd11 (when (nonzero m.mtu) (codes " --mtu " ++ decimal_int m.mtu)) in
    let cmd13 =
      append_cmd cmd12 (
        when (is_null s.plugin)
          (given m.plugin (λ t. codes " --plugin \"" ++ (t ++ codes "\"")))) in
    let cmd14 = append_cmd cmd13 (
      when (is_null s.plugin_opts)
        (given m.plugin_opts (λ t. codes " --plugin-opts \"" ++ (t ++ codes "\"")))) in
    let cmd15 = append_cmd cmd14 (given m.nameservers (λ t. codes " -d \"" ++ (t ++ codes "\""))) in
    append_hosts cmd15 m.hosts

-- The loop of `check_port` over the hosts. All sockets that it opens are closed again.
unfoldable pub check_hosts : (Bytes → Bytes → Bool → Bool) → Mode → Bytes → List Bytes → Bool
check_hosts binds mode port [] = true
check_hosts binds mode port (host ∷ hosts) =
    let rest = check_hosts binds mode port hosts in
    if not (binds host port (is_mode udp_only mode))
    then false
    else if is_mode tcp_and_udp mode && not (binds host port true)
    then false
    else rest

unfoldable pub check_port : Answers → ManagerCtx → Server → Bool
unfolding check_hosts
check_port a m s = check_hosts a.binds m.mode s.port m.hosts

-- Whether `%d` reads a number: digits, behind a sign or not.
abbrev pub starts_number : Bytes → Bool
starts_number [] = false
starts_number (c ∷ []) = isdigit c
starts_number (c ∷ d ∷ s) = isdigit c || ((c == b'-' || c == b'+') && isdigit d)

-- `fscanf(f, "%d", &pid)`: `none` is EOF, and where the text is no number `pid` keeps its value.
unfoldable pub fscanf_int : ℤ → Bytes → Option ℤ
fscanf_int before [] = none
fscanf_int before (c ∷ s) = elim (isspace c) [
  | true ↦ fscanf_int before s
  | false ↦ some (if starts_number (c ∷ s) then atoi (c ∷ s) else before)
]

module _ (M : ManagerLibrary) (F : FileSystem) where
  open M use {table_get, table_put, table_delete, table_modify}
  open F use {Disk, read_file, write_file, unlink}

  unfoldable pub build_config : ManagerCtx → Server → Disk → Disk
  build_config m s disk =
      elim (write_file disk (config_path m.working_dir s.port) (config_text m s)) [
        | none ↦ disk
        | some disk' ↦ disk'
      ]

  -- `check_port`, the table, and `system` on the command line. The result is not -1.
  unfoldable pub add_server : Answers → ManagerCtx → Server → Manager M F → Manager M F × Bool
  add_server a m s st =
      if not (check_port a m s)
      then (st, false)
      else let cmd = command_line m s in
        (
          record st {
            table = table_put st.table s.port s;
            disk = build_config m s st.disk;
            ran = st.ran ++ (cmd ∷ []);
          },
          a.system_starts cmd,
        )

  -- The reading of a pid file and the signal; `kill_server` removes the file too.
  unfoldable pub signal_pid : Answers → Bytes → Manager M F → Manager M F
  signal_pid a path st = elim (read_file st.disk path) [
    | none ↦ st
    | some text ↦ elim (fscanf_int a.pid_before text) [
      | none ↦ st
      | some pid ↦ record st { killed = st.killed ++ (pid ∷ []) }
    ]
  ]

  unfoldable pub kill_server : Answers → Bytes → Bytes → Manager M F → Manager M F
  kill_server a prefix pid_file st =
      let path = prefix ++ (codes "/" ++ pid_file) in
      elim (read_file st.disk path) [
        | none ↦ st
        | some text ↦ let st' = signal_pid a path st in record st' { disk = unlink st'.disk path }
      ]

  unfoldable pub stop_server : Answers → Bytes → Bytes → Manager M F → Manager M F
  stop_server a prefix port st =
      signal_pid a (prefix ++ (codes "/.shadowsocks_" ++ (port ++ codes ".pid"))) st

  abbrev pub lock_path : Bytes → Bytes
  lock_path port = ip_lock_sidecar_path 512 port (codes "iplock")

  abbrev pub status_path : Bytes → Bytes
  status_path port = ip_lock_sidecar_path 512 port (codes "ipstatus")

  unfoldable pub remove_server : Answers → Bytes → Bytes → Manager M F → Manager M F
  remove_server a prefix port st = stop_server a prefix port (record st {
    table = table_delete st.table port;
    disk = unlink (unlink st.disk (lock_path port)) (status_path port);
  })

  unfoldable pub update_stat : Bytes → ℕ → Manager M F → Manager M F
  update_stat port traffic st = elim (table_get st.table port) [
    | none ↦ st
    | some s ↦ record st {
      table = table_modify st.table port (λ x. record x { traffic = traffic });
    }
  ]
