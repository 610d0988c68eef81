-- ===== src/Tests/OnAcl.antt =====
-- Runs of acl.c with addresses of one byte.
use outline_multiport_server.Base.{
  ◌≡◌, ◌≢◌, refl, not, ◌||◌, ◌&&◌, leb, Bool, true, if◌then◌else◌, some, List, [], ◌∷◌, Bytes,
  codes, All, arith,
}
use outline_multiport_server.Acl.{
  v4, black_list, white_list, black, in_black, in_white, not_matched, Acl, init_acl, empty_lists,
  list_has, acl_match_host, outbound_block_match_host, acl_add_ip, acl_remove_ip, denies_client,
}
use outline_multiport_server.Acl.Reads.{IsLineByte, unlines, acl_lines, init_acl-unlines}
use outline_multiport_server.Acl.Hosts.{denies_client-lists, acl_add_ip-match, acl_remove_ip-match}
use outline_multiport_server.Tests.Libraries.{byte_addresses, byte_addresses-IpSetLaws}

abbrev printable : Bytes → Bool
printable [] = true
printable (c ∷ s) = leb 11 c && printable s

printable-IsLineByte : (s : Bytes) → printable s ≡ true → All IsLineByte s
printable-IsLineByte [] h = tt
printable-IsLineByte (c ∷ s) h = (
  ((λ e. absurd (ground arith)), (λ e. absurd (ground arith))),
  printable-IsLineByte s (ground arith),
)

-- A file with a section of the white list and an address.
abbrev lines : List Bytes
lines = codes "[white_list]" ∷ codes "7" ∷ codes "(^|.)example.com$" ∷ []

abbrev a_acl : Acl byte_addresses
a_acl = init_acl byte_addresses black_list (unlines lines)

init_acl-unlines_example :
    a_acl
    ≡ (acl_lines byte_addresses lines (record {
      acl = record {
        black_lists = empty_lists byte_addresses;
        white_lists = empty_lists byte_addresses;
        outbound_lists = empty_lists byte_addresses;
        acl_mode = black_list;
      };
      current = black;
    })).acl
init_acl-unlines_example = init_acl-unlines byte_addresses black_list lines (
  (omega arith, printable-IsLineByte (codes "[white_list]") refl),
  (
    (omega arith, printable-IsLineByte (codes "7") refl),
    ((omega arith, printable-IsLineByte (codes "(^|.)example.com$") refl), tt),
  ),
)

-- Empty lists, in the white list mode.
abbrev closed_acl : Acl byte_addresses
closed_acl = record {
  black_lists = empty_lists byte_addresses;
  white_lists = empty_lists byte_addresses;
  outbound_lists = empty_lists byte_addresses;
  acl_mode = white_list;
}

denies_client-lists_example :
    (white_list ≡ black_list
      → denies_client byte_addresses closed_acl (codes "7")
        ≡ list_has byte_addresses closed_acl.black_lists (some (v4 55)) (codes "7"))
    × (white_list ≡ white_list
        → denies_client byte_addresses closed_acl (codes "7") ≡ (
            list_has byte_addresses closed_acl.black_lists (some (v4 55)) (codes "7")
            || not (list_has byte_addresses closed_acl.white_lists (some (v4 55)) (codes "7"))))
denies_client-lists_example = denies_client-lists byte_addresses closed_acl (codes "7")

abbrev with_seven : Acl byte_addresses
with_seven = record closed_acl {
  black_lists = record (empty_lists byte_addresses) { list_ipv4 = 55 ∷ [] };
}

acl_add_ip-match_example :
    (acl_match_host byte_addresses with_seven (codes "7") ≡ in_black)
    × (byte_addresses.cork_ip_init (codes "8") ≢ byte_addresses.cork_ip_init (codes "7")
        → acl_match_host byte_addresses with_seven (codes "8")
          ≡ acl_match_host byte_addresses closed_acl (codes "8"))
unfolding acl_add_ip
acl_add_ip-match_example =
    acl_add_ip-match byte_addresses byte_addresses-IpSetLaws closed_acl with_seven (codes "7")
      (codes "8") refl

acl_remove_ip-match_example :
    (acl_match_host byte_addresses closed_acl (codes "7") ≡ (
      if list_has byte_addresses closed_acl.white_lists (some (v4 55)) (codes "7")
      then in_white
      else not_matched))
    × (outbound_block_match_host byte_addresses closed_acl (codes "8")
        ≡ outbound_block_match_host byte_addresses with_seven (codes "8"))
unfolding acl_remove_ip
acl_remove_ip-match_example =
    acl_remove_ip-match byte_addresses byte_addresses-IpSetLaws with_seven closed_acl (codes "7")
      (codes "8") refl
