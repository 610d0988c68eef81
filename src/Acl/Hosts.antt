-- ===== src/Acl/Hosts.antt =====
-- Which hosts the lists of acl.c match, and what adding and removing an address changes.
use outline_multiport_server.Base.{
  true, false, not, ◌||◌, ◌≡◌, ◌≢◌, refl, ap, inl, inr, Option, some, none, Option-cases, Bytes,
  arith, if◌then◌else◌,
}
use outline_multiport_server.Acl.{
  AclLibrary, Ip, v4, v6, Acl, Lists, black_list, white_list, in_black, in_white, not_matched,
  list_has, acl_match_host, outbound_block_match_host, acl_add_ip, acl_remove_ip, denies_client,
}

-- What libipset documents of single addresses.
pub record IpSetLaws (L : AclLibrary) : Type 0 where
  pub contains_add4 :
      (s : L.IpSet) (a : L.Addr4) → L.ipset_contains_ipv4 (L.ipset_ipv4_add s a) a ≡ true
  pub contains_add4_ne :
      (s : L.IpSet) (a b : L.Addr4)
      → b ≢ a
      → L.ipset_contains_ipv4 (L.ipset_ipv4_add s a) b ≡ L.ipset_contains_ipv4 s b
  pub contains_remove4 :
      (s : L.IpSet) (a : L.Addr4) → L.ipset_contains_ipv4 (L.ipset_ipv4_remove s a) a ≡ false
  pub contains_add6 :
      (s : L.IpSet) (a : L.Addr6) → L.ipset_contains_ipv6 (L.ipset_ipv6_add s a) a ≡ true
  pub contains_add6_ne :
      (s : L.IpSet) (a b : L.Addr6)
      → b ≢ a
      → L.ipset_contains_ipv6 (L.ipset_ipv6_add s a) b ≡ L.ipset_contains_ipv6 s b
  pub contains_remove6 :
      (s : L.IpSet) (a : L.Addr6) → L.ipset_contains_ipv6 (L.ipset_ipv6_remove s a) a ≡ false

module _ (L : AclLibrary) where
  open L use {cork_ip_init, Addr4, Addr6}

  -- In black list mode a client is denied exactly if the black list names it; in white list mode,
  -- exactly if the white list does not name it or the black list does.
  pub denies_client-lists :
      (a : Acl L) (peer : Bytes)
      → let black = list_has L a.black_lists (cork_ip_init peer) peer in
        let white = list_has L a.white_lists (cork_ip_init peer) peer in
        (a.acl_mode ≡ black_list → denies_client L a peer ≡ black)
        × (a.acl_mode ≡ white_list → denies_client L a peer ≡ (black || not white))
  unfolding denies_client acl_match_host
  denies_client-lists a peer = (λ m. ground arith, λ m. ground arith)

  module _ (laws : IpSetLaws L) where
    list_has-add4 :
        (l : Lists L) (x : Addr4) (ip : Option (Ip Addr4 Addr6)) (host : Bytes)
        → ip ≢ some (v4 x)
        → list_has L (record l { list_ipv4 = L.ipset_ipv4_add l.list_ipv4 x }) ip host
          ≡ list_has L l ip host
    unfolding list_has
    list_has-add4 l x none host ne = refl
    list_has-add4 l x (some (v4 y)) host ne =
        laws.contains_add4_ne l.list_ipv4 x y (λ e. ne (ap (λ z. some (v4 z)) e))
    list_has-add4 l x (some (v6 y)) host ne = refl

    list_has-add6 :
        (l : Lists L) (x : Addr6) (ip : Option (Ip Addr4 Addr6)) (host : Bytes)
        → ip ≢ some (v6 x)
        → list_has L (record l { list_ipv6 = L.ipset_ipv6_add l.list_ipv6 x }) ip host
          ≡ list_has L l ip host
    unfolding list_has
    list_has-add6 l x none host ne = refl
    list_has-add6 l x (some (v4 y)) host ne = refl
    list_has-add6 l x (some (v6 y)) host ne =
        laws.contains_add6_ne l.list_ipv6 x y (λ e. ne (ap (λ z. some (v6 z)) e))

    -- With sets that keep the laws of libipset: after a successful `acl_add_ip` the address is
    -- matched as black, and a host that reads as another address, or as none, is matched as before.
    pub acl_add_ip-match :
        (a a' : Acl L) (ip host : Bytes)
        → acl_add_ip L a ip ≡ some a'
        → (acl_match_host L a' ip ≡ in_black)
          × (cork_ip_init host ≢ cork_ip_init ip
              → acl_match_host L a' host ≡ acl_match_host L a host)
    unfolding acl_add_ip acl_match_host
    acl_add_ip-match a a' ip host h = elim (Option-cases (cork_ip_init ip)) [
      | inl e ↦ absurd (ground arith)
      | inr (v4 x, e) ↦ (
        unfold list_has in ground (arith, laws.contains_add4 a.black_lists.list_ipv4 x),
        λ ne. ground (arith, list_has-add4 a.black_lists x (cork_ip_init host) host),
      )
      | inr (v6 x, e) ↦ (
        unfold list_has in ground (arith, laws.contains_add6 a.black_lists.list_ipv6 x),
        λ ne. ground (arith, list_has-add6 a.black_lists x (cork_ip_init host) host),
      )
    ]

    -- With sets that keep the laws of libipset: after a successful `acl_remove_ip` the address is
    -- no longer black: it is matched by the white list alone. The outbound list keeps what it
    -- blocks.
    pub acl_remove_ip-match :
        (a a' : Acl L) (ip host : Bytes)
        → acl_remove_ip L a ip ≡ some a'
        → (acl_match_host L a' ip
            ≡ (if list_has L a.white_lists (cork_ip_init ip) ip then in_white else not_matched))
          × (outbound_block_match_host L a' host ≡ outbound_block_match_host L a host)
    unfolding acl_remove_ip acl_match_host outbound_block_match_host
    acl_remove_ip-match a a' ip host h = elim (Option-cases (cork_ip_init ip)) [
      | inl e ↦ absurd (ground arith)
      | inr (v4 x, e) ↦ (
        unfold list_has in ground (arith, laws.contains_remove4 a.black_lists.list_ipv4 x),
        ground arith,
      )
      | inr (v6 x, e) ↦ (
        unfold list_has in ground (arith, laws.contains_remove6 a.black_lists.list_ipv6 x),
        ground arith,
      )
    ]
