-- ===== src/IpLock/Reload.antt =====
-- What `ip_lock_reload` makes of a lock file that something else has changed.
use outline_multiport_server.Base.{
  ℕ, zero, suc, ◌≤◌, ◌<◌, ◌≡◌, ◌≢◌, refl, ap, ◌∙◌, false, none, some, [], ◌∷◌, ◌++◌, Bytes, length,
  is_empty, All, c_str, before, fgets, fgets_loop, arith, ◌==◌, ==_iff, Bool-cases, Option-cases,
  inl, inr,
}
use outline_multiport_server.IpLock.{
  FileSystem, IpLock, ip_lock_reload, is_line_end, trim_line_end, lock_line,
}

-- What the calls on files document: a written file has the text, an unlinked one is gone, and the
-- other files are as they were.
pub record DiskLaws (F : FileSystem) : Type 0 where
  pub read_written :
      (d d' : F.Disk) (path text : Bytes)
      → F.write_file d path text ≡ some d'
      → F.read_file d' path ≡ some text
  pub read_other :
      (d d' : F.Disk) (path other text : Bytes)
      → F.write_file d path text ≡ some d'
      → other ≢ path
      → F.read_file d' other ≡ F.read_file d other
  pub read_unlinked : (d : F.Disk) (path : Bytes) → F.read_file (F.unlink d path) path ≡ none
  pub stat_unlinked : (d : F.Disk) (path : Bytes) → F.stat_mtime (F.unlink d path) path ≡ none
  pub read_kept :
      (d : F.Disk) (path other : Bytes)
      → other ≢ path
      → F.read_file (F.unlink d path) other ≡ F.read_file d other
  pub stat_kept :
      (d : F.Disk) (path other : Bytes)
      → other ≢ path
      → F.stat_mtime (F.unlink d path) other ≡ F.stat_mtime d other

-- Printable and no space, as the bytes of an address are.
abbrev pub IsWord : Bytes → Type 0
IsWord = All (λ c. 32 < c)

trim_word : (s : Bytes) → IsWord s → trim_line_end (s ++ (10 ∷ [])) ≡ s
unfolding trim_line_end is_line_end
trim_word [] h = refl
trim_word (c ∷ []) (hc, h) = ground arith
trim_word (c ∷ d ∷ s) (hc, h) = rw (trim_word (d ∷ s) h) refl

c_str_line : (s : Bytes) → IsWord s → c_str (s ++ (10 ∷ [])) ≡ s ++ (10 ∷ [])
unfolding before
c_str_line [] h = refl
c_str_line (c ∷ s) (hc, h) = let ih = c_str_line s h in ground (arith, ih)

fgets_line :
    (n : ℕ) (s : Bytes)
    → IsWord s
    → length s < n
    → (fgets_loop n (s ++ (10 ∷ []))).0 ≡ s ++ (10 ∷ [])
unfolding fgets_loop
fgets_line zero s h fits = absurd (omega arith)
fgets_line (suc n) [] h fits = refl
fgets_line (suc n) (c ∷ s) (hc, h) fits =
    let ih = fgets_line n s h (omega arith) in ground (arith, ih)

-- An address that was written as a line is read back.
pub lock_line-word : (s : Bytes) → IsWord s → length s ≤ 44 → lock_line (s ++ (10 ∷ [])) ≡ s
unfolding lock_line fgets fgets_loop before
lock_line-word [] h fits = refl
lock_line-word (c ∷ s) h fits =
    let line = fgets_line 45 (c ∷ s) h (omega arith) in
    let text = c_str_line (c ∷ s) h in
    let kept = trim_word (c ∷ s) h in
    ap (λ l. trim_line_end (c_str l)) line ∙ ap trim_line_end text ∙ kept

module _ (F : FileSystem) where
  -- What a reload sees of the files is the one lock file.
  pub reload-same :
      (l : IpLock) (d d' : F.Disk)
      → F.stat_mtime d' l.lock_file_path ≡ F.stat_mtime d l.lock_file_path
      → F.read_file d' l.lock_file_path ≡ F.read_file d l.lock_file_path
      → ip_lock_reload F l d' ≡ ip_lock_reload F l d
  unfolding ip_lock_reload
  reload-same l d d' stats reads = elim (Bool-cases (is_empty l.lock_file_path)) [
    | inl unnamed ↦ rw (unnamed, ip_lock_reload) refl
    | inr named ↦ elim (Option-cases (F.stat_mtime d l.lock_file_path)) [
      | inl e ↦ rw (named, stats ∙ e, e, ip_lock_reload) refl
      | inr (t, e) ↦ elim (Bool-cases (t == l.lock_file_mtime)) [
        | inl seen ↦ rw (named, stats ∙ e, e, seen, ip_lock_reload) refl
        | inr new ↦ elim (Option-cases (F.read_file d l.lock_file_path)) [
          | inl f ↦ rw (named, stats ∙ e, e, new, reads ∙ f, f, ip_lock_reload) refl
          | inr (text, f) ↦ rw (named, stats ∙ e, e, new, reads ∙ f, f, ip_lock_reload) refl
        ]
      ]
    ]
  ]

  -- A lock file that is new to the server gives it the address.
  pub reload-new :
      (l : IpLock) (d : F.Disk) (t : ℕ) (ip : Bytes)
      → is_empty l.lock_file_path ≡ false
      → F.stat_mtime d l.lock_file_path ≡ some t
      → (t == l.lock_file_mtime) ≡ false
      → F.read_file d l.lock_file_path ≡ some (ip ++ (10 ∷ []))
      → IsWord ip
      → length ip ≤ 44
      → (ip_lock_reload F l d).locked_ip ≡ ip
  unfolding ip_lock_reload
  reload-new l d t ip named stats new reads word short =
      rw (named, stats, new, reads, ip_lock_reload) (lock_line-word ip word short)

  -- Without a lock file nobody holds the lock.
  pub reload-none :
      (l : IpLock) (d : F.Disk)
      → is_empty l.lock_file_path ≡ false
      → F.stat_mtime d l.lock_file_path ≡ none
      → (ip_lock_reload F l d).locked_ip ≡ []
  unfolding ip_lock_reload
  reload-none l d named stats = rw (named, stats, ip_lock_reload) refl

  -- A lock file with the time of the one that was read last is not read.
  pub reload-seen :
      (l : IpLock) (d : F.Disk)
      → F.stat_mtime d l.lock_file_path ≡ some l.lock_file_mtime
      → ip_lock_reload F l d ≡ l
  unfolding ip_lock_reload
  reload-seen l d stats = elim (Bool-cases (is_empty l.lock_file_path)) [
    | inl unnamed ↦ rw (unnamed, ip_lock_reload) refl
    | inr named ↦
        rw (named, stats, (==_iff l.lock_file_mtime l.lock_file_mtime).1 refl, ip_lock_reload) refl
  ]
