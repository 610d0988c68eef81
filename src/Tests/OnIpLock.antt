-- ===== src/Tests/OnIpLock.antt =====
-- Runs of ip_lock.c.
use outline_multiport_server.Base.{
  ℕ, ◌<◌, ◌≡◌, ◌≢◌, refl, ap, false, some, true, [], ◌∷◌, ◌++◌, Bytes, codes, str_eq, length, take,
  select, replicate, get_or, arith,
}
use outline_multiport_server.IpLock.{
  blank, Recents, status_json_max, is_fresh, ip_lock_prune_recent, ip_lock_push_recent,
  ip_lock_format_active_ips, ip_lock_json_escape, format_loop, print_comma, print, print_at,
  escape_loop, push_pruned, prune_loop, find_recent, move_up,
}
use outline_multiport_server.IpLock.Recent.{IsRecents, entries, prune_recent-select}
use outline_multiport_server.IpLock.Distinct.{
  Distinct, without_ip, push_recent-entries, push_recent-Distinct,
}
use outline_multiport_server.IpLock.Json.{
  json_items, read_string, format_active_ips-tracked, length-format_active_ips-lt, json_escape_lem,
  length-json_escape-lt,
}

abbrev alice : Bytes
alice = codes "1.2.3.4"

abbrev bob : Bytes
bob = codes "5.6.7.8"

-- `bob` was seen at 90, and `alice` at 60.
abbrev recents : Recents
recents = record {
  store =
      record { ip = bob; seen_at = 90 } ∷ record { ip = alice; seen_at = 60 } ∷ replicate 6 blank;
  count = 2;
}

recents-IsRecents : IsRecents recents
recents-IsRecents = record { store_len = refl; count_le = omega arith }

old_pruned :
    IsRecents (ip_lock_prune_recent recents 100)
    × (entries (ip_lock_prune_recent recents 100) ≡ select (is_fresh 100) (entries recents))
old_pruned = prune_recent-select recents 100 recents-IsRecents

byte_ne : (a b : ℕ) → a < b → a ≢ b
byte_ne a b less h = absurd (omega arith)

recents-Distinct : Distinct (entries recents)
recents-Distinct =
    (((λ h. byte_ne 49 53 (omega arith) (ap (λ (b : Bytes). get_or b 0 0) h)), tt), (tt, tt))

push_recent-entries_example :
    IsRecents (ip_lock_push_recent recents alice 100)
    × Distinct (entries (ip_lock_push_recent recents alice 100))
    × (entries (ip_lock_push_recent recents alice 100)
        ≡ record { ip = alice; seen_at = 100 }
          ∷ take 7 (without_ip alice (select (is_fresh 100) (entries recents))))
push_recent-entries_example =
    push_recent-entries recents alice 100 recents-IsRecents recents-Distinct (omega arith) refl

alice-Distinct : Distinct (entries (ip_lock_push_recent recents alice 100))
alice-Distinct =
    push_recent-Distinct recents alice 100 recents-IsRecents (omega arith) recents-Distinct

both_listed :
    ip_lock_format_active_ips (alice ∷ bob ∷ []) status_json_max
    ≡ codes "[" ++ (json_items true (alice ∷ bob ∷ []) ++ codes "]")
both_listed =
    format_active_ips-tracked (alice ∷ bob ∷ []) (omega arith) (omega arith, (omega arith, tt))

listed_in_twelve : length (ip_lock_format_active_ips (alice ∷ bob ∷ []) 12) < 12
listed_in_twelve = length-format_active_ips-lt (alice ∷ bob ∷ []) 12 (omega arith)

-- A text with bytes to escape.
abbrev quoted_name : Bytes
quoted_name = codes "a\"\\b"

quoted_name_escaped : ip_lock_json_escape quoted_name 64 ≡ codes "a\\\"\\\\b"
unfolding ip_lock_json_escape escape_loop
quoted_name_escaped = refl

json_escape_lem_example :
    read_string false (ip_lock_json_escape quoted_name 64 ++ (b'"' ∷ codes ","))
    ≡ some (quoted_name, codes ",")
json_escape_lem_example =
    json_escape_lem quoted_name 64 (codes ",") (omega arith)
      (omega arith, (omega arith, (omega arith, (omega arith, tt))))

length-json_escape-lt_example : length (ip_lock_json_escape quoted_name 4) < 4
length-json_escape-lt_example = length-json_escape-lt quoted_name 4 (omega arith)

two_listed :
    ip_lock_format_active_ips (alice ∷ bob ∷ []) status_json_max ≡ codes "[\"1.2.3.4\",\"5.6.7.8\"]"
unfolding ip_lock_format_active_ips format_loop print_comma print print_at
two_listed = refl

quote_escaped : ip_lock_json_escape (codes "a\"b") 92 ≡ codes "a\\\"b"
unfolding ip_lock_json_escape escape_loop
quote_escaped = refl

alice_again :
    entries (ip_lock_push_recent recents alice 95)
    ≡ record { ip = alice; seen_at = 95 } ∷ record { ip = bob; seen_at = 90 } ∷ []
unfolding ip_lock_push_recent push_pruned ip_lock_prune_recent prune_loop find_recent move_up str_eq
alice_again = refl
