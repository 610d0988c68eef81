-- ===== src/Server/Status.antt =====
-- What `update_ip_lock_status` of server.c hands to the status file of ip_lock.c.
use outline_multiport_server.Base.{
  ℕ, ◌≤◌, ◌≡◌, sym, subst, inl, inr, true, not, ◌&&◌, List, [], ◌∷◌, ◌++◌, Bytes, codes, All,
  length, length-append, Bool-cases, arith, ltb, if◌then◌else◌, is_empty, if_true, if_false,
}
use outline_multiport_server.IpLock.{
  ip_len, max_track_ips, status_json_max, ip_lock_format_active_ips,
}
use outline_multiport_server.IpLock.Json.{json_items, format_active_ips-tracked}
use outline_multiport_server.Server.{Connection, is_tracked, track_ips}

abbrev pub IsShort : Bytes → Type 0
IsShort ip = length ip ≤ ip_len

abbrev IsTrackable : List Bytes → Type 0
IsTrackable ips = (length ips ≤ max_track_ips) × All IsShort ips

IsShort-append :
    (ips : List Bytes) (ip : Bytes) → All IsShort ips → IsShort ip → All IsShort (ips ++ (ip ∷ []))
IsShort-append [] ip hs h = (h, tt)
IsShort-append (x ∷ ips) ip (hx, hs) h = (hx, IsShort-append ips ip hs h)

one_more :
    (ips : List Bytes) (c : Connection)
    → IsTrackable ips
    → IsShort c.peer_ip
    → IsTrackable (
        if is_empty c.peer_ip
        then ips
        else if not (is_tracked ips c.peer_ip) && ltb (length ips) max_track_ips
        then ips ++ (c.peer_ip ∷ [])
        else ips)
one_more ips c (few, short) h = elim (Bool-cases (is_empty c.peer_ip)) [
  | inl none ↦ subst IsTrackable (sym (if_true (is_empty c.peer_ip) _ _ none)) (few, short)
  | inr named ↦
      let room = not (is_tracked ips c.peer_ip) && ltb (length ips) max_track_ips in
      subst IsTrackable (sym (if_false (is_empty c.peer_ip) _ _ named)) (elim (Bool-cases room) [
        | inl more ↦
            let size = length-append ips (c.peer_ip ∷ []) in
            subst IsTrackable (sym (if_true room _ _ more))
              (ground arith, IsShort-append ips c.peer_ip short h)
        | inr full ↦ subst IsTrackable (sym (if_false room _ _ full)) (few, short)
      ])
]

track_ips-IsTrackable :
    (cs : List Connection) (total : ℕ) (ips : List Bytes)
    → All (λ c. IsShort c.peer_ip) cs
    → IsTrackable ips
    → IsTrackable (track_ips cs total ips).1
unfolding track_ips
track_ips-IsTrackable [] total ips short h = h
track_ips-IsTrackable (c ∷ cs) total ips (short, shorts) h =
    track_ips-IsTrackable cs _ _ shorts (one_more ips c h short)

-- Where the connections have addresses of at most 45 bytes, the list that `update_ip_lock_status`
-- finds has at most 16 addresses, and the status file shows it whole: nothing of the JSON array is
-- cut off, however many connections there are.
pub track_ips-format_active_ips :
    (cs : List Connection)
    → All (λ c. IsShort c.peer_ip) cs
    → let ips = (track_ips cs 0 []).1 in
      (length ips ≤ max_track_ips)
      × (ip_lock_format_active_ips ips status_json_max
          ≡ codes "[" ++ (json_items true ips ++ codes "]"))
track_ips-format_active_ips cs short =
    let (few, fits) = track_ips-IsTrackable cs 0 [] short (omega arith, tt) in
    (few, format_active_ips-tracked (track_ips cs 0 []).1 few fits)
