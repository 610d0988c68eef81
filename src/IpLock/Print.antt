-- ===== src/IpLock/Print.antt =====
-- The texts that ip_lock.c prints into its status file.
use outline_multiport_server.Base.{
  ℕ, ◌+◌, ◌-◌, Bool, true, false, not, ◌&&◌, ◌||◌, List, [], ◌∷◌, ◌++◌, Bytes, codes, str_eq,
  is_empty, decimal, length, take, ltb, leb, ◌==◌, if◌then◌else◌,
}

abbrev pub status_json_max : ℕ
status_json_max = 1024

unfoldable pub ip_lock_ip_in_list : List Bytes → Bytes → Bool
ip_lock_ip_in_list ips [] = false
ip_lock_ip_in_list [] (c ∷ s) = false
ip_lock_ip_in_list (x ∷ ips) (c ∷ s) =
    if str_eq x (c ∷ s) then true else ip_lock_ip_in_list ips (c ∷ s)

pub record RecentEntry : Type 0 where
  pub ip : Bytes
  pub seen_at : ℕ

-- A buffer of `size` bytes: the text before `pos`, and `pos` itself, which a cut print may move
-- past the end.
pub record Out : Type 0 where
  pub text : Bytes
  pub pos : ℕ

-- `snprintf(out + pos, size - pos, "%s", s)`: what the buffer then holds.
unfoldable pub print_at : ℕ → Out → Bytes → Bytes
print_at size o s = take o.pos o.text ++ take (size - o.pos - 1) s

-- `pos += snprintf(...)`
unfoldable pub print : ℕ → Out → Bytes → Out
print size o s = record { text = print_at size o s; pos = o.pos + length s }

abbrev pub quoted : Bytes → Bytes
quoted ip = b'"' ∷ (ip ++ (b'"' ∷ []))

-- The comma before every element but the first, if there is room.
unfoldable pub print_comma : ℕ → Out → Out
print_comma size o = if ltb 1 o.pos && ltb (o.pos + 1) size then print size o (codes ",") else o

-- The loop of `ip_lock_format_active_ips`. A `break` keeps `pos`, also past a cut print.
unfoldable pub format_loop : ℕ → List Bytes → Out → Out
format_loop size [] o = o
format_loop size (ip ∷ ips) o =
    let skipped = format_loop size ips o in
    let o1 = print_comma size o in
    let o2 = print size o1 (quoted ip) in
    let added = format_loop size ips o2 in
    if is_empty ip
    then skipped
    else if leb size (o1.pos + 2)
    then o1
    else if leb size (o2.pos + 2)
    then record { text = o2.text; pos = o1.pos }
    else added

unfoldable pub ip_lock_format_active_ips : List Bytes → ℕ → Bytes
ip_lock_format_active_ips [] size = take (size - 1) (codes "[]")
ip_lock_format_active_ips (ip ∷ ips) size =
    print_at size
      (format_loop size (ip ∷ ips) (print size (record { text = []; pos = 0 }) (codes "[")))
      (codes "]")

abbrev pub backslash : ℕ
backslash = 92

-- The loop of `ip_lock_json_escape`: `out` holds `pos` bytes.
unfoldable pub escape_loop : ℕ → Bytes → ℕ → Bytes
escape_loop size [] pos = []
escape_loop size (c ∷ s) pos =
    let twice = backslash ∷ c ∷ escape_loop size s (pos + 2) in
    let once = c ∷ escape_loop size s (pos + 1) in
    if not (ltb (pos + 1) size)
    then []
    else if c == b'"' || c == backslash
    then (if leb size (pos + 2) then [] else twice)
    else once

unfoldable pub ip_lock_json_escape : Bytes → ℕ → Bytes
ip_lock_json_escape s size = escape_loop size s 0

-- The addresses of the entries in use that are not active.
unfoldable pub inactive_ips : List Bytes → List RecentEntry → List Bytes
unfolding ip_lock_ip_in_list
inactive_ips active [] = []
inactive_ips active (e ∷ es) =
    if ip_lock_ip_in_list active e.ip then inactive_ips active es else e.ip ∷ inactive_ips active es

-- The text of the status file.
unfoldable pub status_text : Bytes → ℕ → List Bytes → List Bytes → List Bytes → Bytes
status_text locked total active incoming blocked =
    codes "{\"locked_ip\":\""
    ++ (ip_lock_json_escape locked 92
        ++ (codes "\",\"connections\":"
            ++ (decimal total
                ++ (codes ",\"active_ips\":"
                    ++ (ip_lock_format_active_ips active status_json_max
                        ++ (codes ",\"recent_incoming\":"
                            ++ (ip_lock_format_active_ips incoming status_json_max
                                ++ (codes ",\"blocked_ips\":"
                                    ++ (ip_lock_format_active_ips blocked status_json_max
                                        ++ codes "}\n")))))))))
