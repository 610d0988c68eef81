-- ===== src/Manager/Paths.antt =====
-- The names of the files that manager.c and ip_lock.c share.
use outline_multiport_server.Base.{
  ℕ, ◌≤◌, ◌≡◌, ◌≢◌, refl, sym, ap, ◌∙◌, ◌++◌, Bytes, codes, length, length-append, get_or,
  append_eq-length, drop, take_of_length-le, append_assoc, arith,
}
use outline_multiport_server.IpLock.{ip_lock_sidecar_path}

abbrev pub IsPort : Bytes → Type 0
IsPort port = length port ≤ 7

sidecar_path-whole :
    (port suffix : Bytes)
    → IsPort port
    → length suffix ≤ 8
    → ip_lock_sidecar_path 512 port suffix
      ≡ codes "/run/shadowsocks-manager/.shadowsocks_" ++ (port ++ (codes "." ++ suffix))
unfolding ip_lock_sidecar_path
sidecar_path-whole port suffix short small = take_of_length-le 511 _ (
    omega (
      arith,
      length-append (codes "/run/shadowsocks-manager/.shadowsocks_")
          (port ++ (codes "." ++ suffix)),
      length-append port (codes "." ++ suffix),
    ))

same_path :
    (p q s t : Bytes)
    → IsPort p
    → IsPort q
    → length s ≤ 8
    → length t ≤ 8
    → ip_lock_sidecar_path 512 p s ≡ ip_lock_sidecar_path 512 q t
    → p ++ (codes "." ++ s) ≡ q ++ (codes "." ++ t)
same_path p q s t hp hq hs ht h =
    let whole = sym (sidecar_path-whole p s hp hs) ∙ h ∙ sidecar_path-whole q t hq ht in
    ap (drop 38) whole

-- Ports of at most 7 bytes have lock files of their own, and so their status files.
pub sidecar_path-injective :
    (p q s : Bytes)
    → IsPort p
    → IsPort q
    → length s ≤ 8
    → ip_lock_sidecar_path 512 p s ≡ ip_lock_sidecar_path 512 q s
    → p ≡ q
sidecar_path-injective p q s hp hq hs h =
    (append_eq-length p q _ _ (same_path p q s s hp hq hs hs h) refl).0

-- A lock file is no status file.
pub lock_status-apart :
    (p q : Bytes)
    → IsPort p
    → IsPort q
    → ip_lock_sidecar_path 512 p (codes "iplock") ≢ ip_lock_sidecar_path 512 q (codes "ipstatus")
lock_status-apart p q hp hq h =
    let same =
      same_path p q (codes "iplock") (codes "ipstatus") hp hq (omega arith) (omega arith) h in
    let cut = sym (append_assoc q (codes ".i") (codes "pstatus")) in
    let (front, end) =
      append_eq-length p (q ++ codes ".i") (codes ".iplock") (codes "pstatus") (same ∙ cut) refl in
    let first : ◌≡◌ {A = ℕ} 46 112 = ap (λ (b : Bytes). get_or b 0 0) end in absurd (omega arith)
