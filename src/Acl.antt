-- ===== src/Acl.antt =====
-- Access control lists: acl.c and the rule list of rule.c.
-- The address sets (libipset), the address parser (libcork) and the regular expressions (PCRE2)
-- are the parameters of `AclLibrary`.
pub mod Reads
pub mod Hosts
use outline_multiport_server.Base.{
  ℕ, zero, suc, ◌+◌, ◌-◌, Bool, true, false, not, ◌&&◌, ◌||◌, Option, none, some, List, [], ◌∷◌,
  ◌++◌, Bytes, codes, str_eq, is_empty, isspace, strchr, before, c_str, fgets, length, take, drop,
  get_or, ◌==◌, if◌then◌else◌,
}
use outline_multiport_server.Base.Int.{ℤ, pos, negsuc, atoi}

-- `struct cork_ip`: an address of either version.
pub data Ip (Addr4 Addr6 : Type 0) : Type 0 where
  v4 : Addr4 → Ip Addr4 Addr6
  v6 : Addr6 → Ip Addr4 Addr6

pub record AclLibrary : Type 1 where
  pub Addr4 : Type 0
  pub Addr6 : Type 0
  pub IpSet : Type 0
  pub Regex : Type 0
  pub cork_ip_init : Bytes → Option (Ip Addr4 Addr6)
  pub ipset_init : IpSet
  pub ipset_ipv4_add : IpSet → Addr4 → IpSet
  pub ipset_ipv4_add_network : IpSet → Addr4 → ℕ → IpSet
  pub ipset_ipv4_remove : IpSet → Addr4 → IpSet
  pub ipset_contains_ipv4 : IpSet → Addr4 → Bool
  pub ipset_ipv6_add : IpSet → Addr6 → IpSet
  pub ipset_ipv6_add_network : IpSet → Addr6 → ℕ → IpSet
  pub ipset_ipv6_remove : IpSet → Addr6 → IpSet
  pub ipset_contains_ipv6 : IpSet → Addr6 → Bool
  -- `none` where the pattern does not compile.
  pub pcre2_compile : Bytes → Option Regex
  -- `pcre2_match(...) >= 0`
  pub pcre2_match : Regex → Bytes → Bool

pub data AclMode : Type 0 where
  black_list white_list : AclMode

pub data Section : Type 0 where
  black white outbound_block : Section

-- What `acl_match_host` returns: 0, 1 and -1.
pub data HostMatch : Type 0 where
  not_matched in_black in_white : HostMatch

-- `strrchr(str, '/')` by the loop over `strchr`: `i` is the position, `ret` the last match.
last_slash : ℕ → Option ℕ → Bytes → Option ℕ
last_slash i ret [] = ret
last_slash i ret (c ∷ s) = last_slash (suc i) (if c == b'/' then some i else ret) s

-- The host, and the prefix length or -1.
unfoldable pub parse_addr_cidr : Bytes → Bytes × ℤ
unfolding last_slash
parse_addr_cidr str = elim (last_slash 0 none str) [
  | none ↦ (str, negsuc 0)
  | some ret ↦ (take ret str, atoi (drop (ret + 1) str))
]

trim_leading : Bytes → Bytes
trim_leading [] = []
trim_leading (c ∷ s) = elim (isspace c) [ true ↦ trim_leading s | false ↦ c ∷ s ]

trim_trailing : Bytes → Bytes
trim_trailing [] = []
trim_trailing (c ∷ s) = elim (trim_trailing s) [
  | [] ↦ if isspace c then [] else c ∷ []
  | d ∷ t ↦ c ∷ d ∷ t
]

unfoldable pub trimwhitespace : Bytes → Bytes
unfolding trim_leading trim_trailing
trimwhitespace str = trim_trailing (trim_leading str)

-- `(strlen(buf) == 255) && (buf[254] != '\n')`
unfoldable pub is_long : Bytes → Bool
is_long buf = (length (c_str buf) == 255) && not (get_or buf 254 0 == 10)

-- The inner `while`: drops pieces of a long line, and gives the rest of the file.
discard_long : ℕ → Bytes → Bytes
discard_long zero file = file
discard_long (suc fuel) file = elim (fgets 256 file) [
  | none ↦ []
  | some r ↦ elim (is_long r.0) [ true ↦ discard_long fuel r.1 | false ↦ r.1 ]
]

trim_newline : Bytes → Bytes
trim_newline [] = []
trim_newline (c ∷ []) = if c == 10 then [] else c ∷ []
trim_newline (c ∷ d ∷ s) = c ∷ trim_newline (d ∷ s)

-- Drops a newline at the end, the comment, and the space round what is left.
unfoldable pub clean_line : Bytes → Bytes
unfolding trimwhitespace trim_newline
clean_line buf = trimwhitespace (before b'#' (trim_newline (c_str buf)))

module _ (L : AclLibrary) where
  open L use {
    Addr4, Addr6, IpSet, Regex, cork_ip_init, ipset_init, ipset_ipv4_add, ipset_ipv4_add_network,
    ipset_ipv4_remove, ipset_contains_ipv4, ipset_ipv6_add, ipset_ipv6_add_network,
    ipset_ipv6_remove, ipset_contains_ipv6, pcre2_compile, pcre2_match,
  }

  -- `rule_t`: `pattern_re` is NULL where the pattern did not compile.
  pub record Rule : Type 0 where
    pub pattern_text : Bytes
    pub pattern_re : Option Regex

  pub record Lists : Type 0 where
    pub list_ipv4 : IpSet
    pub list_ipv6 : IpSet
    pub rules : List Rule

  pub record Acl : Type 0 where
    pub black_lists : Lists
    pub white_lists : Lists
    pub outbound_lists : Lists
    pub acl_mode : AclMode

  -- What `init_acl` holds while it reads: the lists, and the section that entries go to.
  pub record Reader : Type 0 where
    pub acl : Acl
    pub current : Section

  abbrev pub empty_lists : Lists
  empty_lists = record { list_ipv4 = ipset_init; list_ipv6 = ipset_init; rules = [] }

  -- The lists that one section names.
  abbrev pub lists_of : Section → Acl → Lists
  lists_of black a = a.black_lists
  lists_of white a = a.white_lists
  lists_of outbound_block a = a.outbound_lists

  abbrev pub set_lists : Section → Lists → Acl → Acl
  set_lists black l a = record a { black_lists = l }
  set_lists white l a = record a { white_lists = l }
  set_lists outbound_block l a = record a { outbound_lists = l }

  -- `ipset_ipv4_add_network` where there is a prefix length, else `ipset_ipv4_add`.
  add_ipv4 : IpSet → Addr4 → ℤ → IpSet
  add_ipv4 s a (pos cidr) = ipset_ipv4_add_network s a cidr
  add_ipv4 s a (negsuc n) = ipset_ipv4_add s a

  add_ipv6 : IpSet → Addr6 → ℤ → IpSet
  add_ipv6 s a (pos cidr) = ipset_ipv6_add_network s a cidr
  add_ipv6 s a (negsuc n) = ipset_ipv6_add s a

  -- `new_rule`, `accept_rule_arg` and `init_rule`.
  unfoldable pub new_rule : Bytes → Rule
  new_rule line = record { pattern_text = line; pattern_re = pcre2_compile line }

  -- An address with its prefix length, or a rule at the end of the rule list.
  unfoldable pub add_entry : Bytes → Lists → Lists
  unfolding add_ipv4 add_ipv6
  add_entry line l =
      let (host, cidr) = parse_addr_cidr line in
      elim (cork_ip_init host) [
        | none ↦ record l { rules = l.rules ++ (new_rule line ∷ []) }
        | some (v4 a) ↦ record l { list_ipv4 = add_ipv4 l.list_ipv4 a cidr }
        | some (v6 a) ↦ record l { list_ipv6 = add_ipv6 l.list_ipv6 a cidr }
      ]

  -- The body of the loop on a line that is neither long nor empty.
  unfoldable pub acl_line : Bytes → Reader → Reader
  acl_line line r =
      if str_eq line (codes "[outbound_block_list]")
      then record r { current = outbound_block }
      else if str_eq line (codes "[black_list]") || str_eq line (codes "[bypass_list]")
      then record r { current = black }
      else if str_eq line (codes "[white_list]") || str_eq line (codes "[proxy_list]")
      then record r { current = white }
      else if str_eq line (codes "[reject_all]") || str_eq line (codes "[bypass_all]")
      then record r { acl = record (r.acl) { acl_mode = white_list } }
      else if str_eq line (codes "[accept_all]") || str_eq line (codes "[proxy_all]")
      then record r { acl = record (r.acl) { acl_mode = black_list } }
      else record r { acl = set_lists r.current (add_entry line (lists_of r.current r.acl)) r.acl }

  -- One buffer that `fgets` filled with a line that is not long.
  pub acl_buffer : Bytes → Reader → Reader
  acl_buffer buf r = let line = clean_line buf in if is_empty line then r else acl_line line r

  -- `while (!feof(f)) if (fgets(buf, 256, f)) ...`; each round reads a byte or ends.
  pub read_acl : ℕ → Bytes → Reader → Reader
  unfolding discard_long
  read_acl zero file r = r
  read_acl (suc fuel) file r = elim (fgets 256 file) [
    | none ↦ r
    | some (buf, rest) ↦ elim (is_long buf) [
      | true ↦ read_acl fuel (discard_long (length rest) rest) r
      | false ↦ read_acl fuel rest (acl_buffer buf r)
    ]
  ]

  -- `init_acl` on the contents of a file that opens. The mode stays what it was.
  pub init_acl : AclMode → Bytes → Acl
  init_acl mode file =
      (read_acl (suc (length file)) file (record {
        acl = record {
          black_lists = empty_lists;
          white_lists = empty_lists;
          outbound_lists = empty_lists;
          acl_mode = mode;
        };
        current = black;
      })).acl

  -- `pcre2_match` answers an error, and so no match, on a NULL pattern.
  unfoldable pub rule_matches : Rule → Bytes → Bool
  rule_matches rule name = elim rule.pattern_re [ none ↦ false | some re ↦ pcre2_match re name ]

  unfoldable pub lookup_rule : List Rule → Bytes → Option Rule
  lookup_rule [] name = none
  lookup_rule (rule ∷ rules) name = elim (rule_matches rule name) [
    | true ↦ some rule
    | false ↦ lookup_rule rules name
  ]

  -- Whether a list names a host: by address where the host is one, else by its rules.
  pub list_has : Lists → Option (Ip Addr4 Addr6) → Bytes → Bool
  list_has l none host = elim (lookup_rule l.rules host) [ none ↦ false | some r ↦ true ]
  list_has l (some (v4 a)) host = ipset_contains_ipv4 l.list_ipv4 a
  list_has l (some (v6 a)) host = ipset_contains_ipv6 l.list_ipv6 a

  pub acl_match_host : Acl → Bytes → HostMatch
  acl_match_host a host =
      let ip = cork_ip_init host in
      if list_has a.black_lists ip host
      then in_black
      else if list_has a.white_lists ip host
      then in_white
      else not_matched

  pub outbound_block_match_host : Acl → Bytes → Bool
  outbound_block_match_host a host = list_has a.outbound_lists (cork_ip_init host) host

  -- `none` is the result -1: the text is no address.
  unfoldable pub acl_add_ip : Acl → Bytes → Option Acl
  acl_add_ip a ip = elim (cork_ip_init ip) [
    | none ↦ none
    | some (v4 x) ↦ some (
        set_lists black
          (record (a.black_lists) { list_ipv4 = ipset_ipv4_add a.black_lists.list_ipv4 x }) a)
    | some (v6 x) ↦ some (
        set_lists black
          (record (a.black_lists) { list_ipv6 = ipset_ipv6_add a.black_lists.list_ipv6 x }) a)
  ]

  unfoldable pub acl_remove_ip : Acl → Bytes → Option Acl
  acl_remove_ip a ip = elim (cork_ip_init ip) [
    | none ↦ none
    | some (v4 x) ↦ some (
        set_lists black
          (record (a.black_lists) { list_ipv4 = ipset_ipv4_remove a.black_lists.list_ipv4 x }) a)
    | some (v6 x) ↦ some (
        set_lists black
          (record (a.black_lists) { list_ipv6 = ipset_ipv6_remove a.black_lists.list_ipv6 x }) a)
  ]

  -- The test of `accept_cb`: whether the lists deny a client.
  pub denies_client : Acl → Bytes → Bool
  denies_client a peer = elim a.acl_mode [
    | black_list ↦ elim (acl_match_host a peer) [ in_black ↦ true | _ ↦ false ]
    | white_list ↦ elim (acl_match_host a peer) [ in_white ↦ false | _ ↦ true ]
  ]
