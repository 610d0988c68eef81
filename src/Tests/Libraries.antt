-- ===== src/Tests/Libraries.antt =====
-- Small instances of the libraries that the program calls, with the laws that the theorems assume.
use outline_multiport_server.Base.{
  ℕ, suc, ◌-◌, ◌≡◌, ◌≢◌, refl, sym, ap, subst, ◌∙◌, inl, inr, Bool, true, false, not, Option, none,
  some, List, [], ◌∷◌, ◌++◌, Bytes, Bool-cases, str_eq, str_eq_refl, str_eq→eq, is_empty, length,
  take, replicate, select, All, length-append, take_append_length, arith, ◌==◌, if◌then◌else◌,
  if_true, if_false, some-injective, Option-cases,
}
use outline_multiport_server.IpLock.{FileSystem}
use outline_multiport_server.IpLock.Sync.{FileLaws}
use outline_multiport_server.PpBloom.{BloomLibrary}
use outline_multiport_server.PpBloom.Window.{BloomLaws}
use outline_multiport_server.Aead.{CryptoLibrary, CipherCall}
use outline_multiport_server.Aead.Chunk.{IsAead, CryptoLaws}
use outline_multiport_server.Acl.{AclLibrary, v4}
use outline_multiport_server.Acl.Hosts.{IpSetLaws}
use outline_multiport_server.Cache.{CacheEntry, HashLibrary}
use outline_multiport_server.Cache.Order.{HashLaws, without}

-- The files as they were written, the last first; the time of a file is the number of writes
-- before it.
abbrev pub file_at : List (Bytes × Bytes) → Bytes → Option (ℕ × Bytes)
file_at [] path = none
file_at ((name, text) ∷ d) path = if str_eq name path then some (length d, text) else file_at d path

abbrev pub mtime_of : Option (ℕ × Bytes) → Option ℕ
mtime_of none = none
mtime_of (some (t, text)) = some t

abbrev pub text_of : Option (ℕ × Bytes) → Option Bytes
text_of none = none
text_of (some (t, text)) = some text

abbrev pub log_files : FileSystem
log_files = record {
  Disk = List (Bytes × Bytes);
  stat_mtime = λ d path. mtime_of (file_at d path);
  read_file = λ d path. text_of (file_at d path);
  write_file = λ d path text. some ((path, text) ∷ d);
  unlink = λ d path. select (λ f. not (str_eq f.0 path)) d;
}

pub str_eq-other : (a b : Bytes) → b ≢ a → str_eq a b ≡ false
str_eq-other a b ne = elim (Bool-cases (str_eq a b)) [
  | inl e ↦ absurd (ne (sym (str_eq→eq a b e)))
  | inr e ↦ e
]

pub log_files-FileLaws : FileLaws log_files
log_files-FileLaws = record {
  stat_written = λ d d' path text h.
      subst (λ (x : List (Bytes × Bytes)). (t : ℕ) × (mtime_of (file_at x path) ≡ some t))
        (some-injective ((path, text) ∷ d) d' h)
        (length d, ap mtime_of (if_true (str_eq path path) _ _ (str_eq_refl path)));
  stat_other = λ d d' path other text h ne.
      subst (λ (x : List (Bytes × Bytes)). mtime_of (file_at x other) ≡ mtime_of (file_at d other))
        (some-injective ((path, text) ∷ d) d' h)
        (ap mtime_of (if_false (str_eq path other) _ _ (str_eq-other path other ne)));
}

-- A disk with no files that takes none.
abbrev pub no_files : FileSystem
no_files = record {
  Disk = Unit {0};
  stat_mtime = λ d path. none;
  read_file = λ d path. none;
  write_file = λ d path text. none;
  unlink = λ d path. d;
}

-- A filter that keeps a list.
abbrev known : List Bytes → Bytes → Bool
known [] s = false
known (x ∷ xs) s = if str_eq x s then true else known xs s

abbrev pub list_bloom : BloomLibrary
list_bloom = record {
  Bloom = List Bytes;
  Rate = ℕ;
  bloom_init = λ n e. some [];
  bloom_check = λ f s. some (known f s);
  bloom_add = λ f s. some (s ∷ f);
  bloom_reset = λ f. [];
}

known-more :
    (s x : Bytes) (f : List Bytes)
    → some (known f x) ≡ some true
    → some (known (s ∷ f) x) ≡ some true
known-more s x f h = ground arith

pub list_bloom-BloomLaws : BloomLaws list_bloom
list_bloom-BloomLaws = record {
  IsReady = λ f. Unit;
  init_ready = λ n e f h. tt;
  reset_ready = λ f h. tt;
  add_ready = λ f s h. (s ∷ f, refl, tt);
  check_ready = λ f s h. (known f s, refl);
  check_added = λ f g s h.
      subst (λ x. some (known x s) ≡ some true) (some-injective (s ∷ f) g h)
        (ap some (if_true (str_eq s s) _ _ (str_eq_refl s)));
  check_kept = λ f g s x h k.
      subst (λ y. some (known y x) ≡ some true) (some-injective (s ∷ f) g h) (known-more s x f k);
}

-- Ciphers that add a tag of zeros.
abbrev tag_call : CipherCall
tag_call k n m = some (m ++ replicate 16 0)

abbrev untag_call : CipherCall
untag_call k n c = some (take (length c - 16) c)

abbrev next_nonce : Bytes → Bytes
next_nonce [] = []
next_nonce (b ∷ n) = suc b ∷ n

abbrev pub tag_crypto : CryptoLibrary
tag_crypto = record {
  sodium_aes256gcm_encrypt = tag_call;
  sodium_aes256gcm_decrypt = untag_call;
  mbedtls_auth_encrypt = tag_call;
  mbedtls_auth_decrypt = untag_call;
  chacha20poly1305_encrypt = tag_call;
  chacha20poly1305_decrypt = untag_call;
  xchacha20poly1305_encrypt = tag_call;
  xchacha20poly1305_decrypt = untag_call;
  sodium_increment = next_nonce;
  hkdf_subkey = λ salt key. salt ++ key;
}

tag_call-IsAead : IsAead tag_call untag_call
tag_call-IsAead k n m =
    let size = length-append m (replicate 16 0) in
    (
      m ++ replicate 16 0,
      refl,
      size,
      ap some (take_append_length _ m (replicate 16 0) (omega arith)),
    )

pub tag_crypto-CryptoLaws : CryptoLaws tag_crypto
tag_crypto-CryptoLaws = record {
  sodium_aes256gcm = tag_call-IsAead;
  mbedtls_auth = tag_call-IsAead;
  chacha20poly1305 = tag_call-IsAead;
  xchacha20poly1305 = tag_call-IsAead;
}

-- Addresses of one byte, and sets of them as lists.
abbrev has : List ℕ → ℕ → Bool
has [] a = false
has (x ∷ xs) a = if x == a then true else has xs a

abbrev pub byte_addresses : AclLibrary
byte_addresses = record {
  Addr4 = ℕ;
  Addr6 = ℕ;
  IpSet = List ℕ;
  Regex = Bytes;
  cork_ip_init = λ s. elim s [ [] ↦ none | a ∷ rest ↦ if is_empty rest then some (v4 a) else none ];
  ipset_init = [];
  ipset_ipv4_add = λ s a. a ∷ s;
  ipset_ipv4_add_network = λ s a n. a ∷ s;
  ipset_ipv4_remove = λ s a. select (λ x. not (x == a)) s;
  ipset_contains_ipv4 = has;
  ipset_ipv6_add = λ s a. a ∷ s;
  ipset_ipv6_add_network = λ s a n. a ∷ s;
  ipset_ipv6_remove = λ s a. select (λ x. not (x == a)) s;
  ipset_contains_ipv6 = has;
  pcre2_compile = λ s. some s;
  pcre2_match = str_eq;
}

has-add : (s : List ℕ) (a : ℕ) → has (a ∷ s) a ≡ true
has-add s a = ground arith

has-add_ne : (s : List ℕ) (a b : ℕ) → b ≢ a → has (a ∷ s) b ≡ has s b
has-add_ne s a b ne = ground arith

has-remove : (s : List ℕ) (a : ℕ) → has (select (λ x. not (x == a)) s) a ≡ false
has-remove [] a = refl
has-remove (x ∷ s) a = ground (arith, has-remove s a)

pub byte_addresses-IpSetLaws : IpSetLaws byte_addresses
byte_addresses-IpSetLaws = record {
  contains_add4 = has-add;
  contains_add4_ne = has-add_ne;
  contains_remove4 = has-remove;
  contains_add6 = has-add;
  contains_add6_ne = has-add_ne;
  contains_remove6 = has-remove;
}

-- A table that is its list of entries, where the last one with a key is found.
abbrev find_key : List CacheEntry → Bytes → Option CacheEntry
find_key [] k = none
find_key (e ∷ es) k = elim (find_key es k) [
  | some f ↦ some f
  | none ↦ if str_eq e.key k then some e else none
]

abbrev pub list_table : HashLibrary
list_table = record {
  Table = List CacheEntry;
  hash_none = [];
  hash_find = find_key;
  hash_del = λ t e. without e.address t;
  hash_add_keyptr = λ t e. t ++ (e ∷ []);
  hash_count = length;
  hash_iter = λ t. t;
}

find_key-key :
    (t : List CacheEntry) (k : Bytes) (e : CacheEntry) → find_key t k ≡ some e → e.key ≡ k
find_key-key [] k e h = absurd (cc)
find_key-key (f ∷ t) k e h = elim (Option-cases (find_key t k)) [
  | inr (g, q) ↦ find_key-key t k e (ground (arith, q))
  | inl q ↦ elim (Bool-cases (str_eq f.key k)) [
    | inl same ↦
        let found : some f ≡ some e = ground (arith, q, same) in
        ap (λ (x : CacheEntry). x.key) (sym (some-injective f e found)) ∙ str_eq→eq f.key k same
    | inr other ↦ absurd (ground (arith, q, other))
  ]
]

find_key-missing : (t : List CacheEntry) (k : Bytes) → find_key t k ≡ none → All (λ e. e.key ≢ k) t
find_key-missing [] k h = tt
find_key-missing (f ∷ t) k h = elim (Option-cases (find_key t k)) [
  | inr (g, q) ↦ absurd (ground (arith, q))
  | inl q ↦ elim (Bool-cases (str_eq f.key k)) [
    | inl same ↦ absurd (ground (arith, q, same))
    | inr other ↦ ((λ e. absurd (cc (str_eq_refl k, e, other))), find_key-missing t k q)
  ]
]

pub list_table-HashLaws : HashLaws list_table
list_table-HashLaws = record {
  iter-none = refl;
  iter-add = λ t e. refl;
  iter-del = λ t e. refl;
  count-iter = λ t. refl;
  find-key = find_key-key;
  find-missing = find_key-missing;
}
