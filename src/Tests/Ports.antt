-- ===== src/Tests/Ports.antt =====
-- A small hash table of servers and a parser for some texts, with the laws that the theorems about
-- manager.c assume, and those of files as they were written.
use outline_multiport_server.Base.{
  ℕ, suc, ◌≡◌, ◌≢◌, refl, sym, ap, subst, ◌∙◌, inl, inr, true, false, not, Option, none, some, List,
  [], ◌∷◌, Bytes, codes, Bool-cases, str_eq, str_eq_refl, str_eq→eq, select, arith, if◌then◌else◌,
  if_true, if_false, some-injective, map,
}
use outline_multiport_server.Base.Int.{pos}
use outline_multiport_server.IpLock.{FileSystem}
use outline_multiport_server.IpLock.Sync.{FileLaws}
use outline_multiport_server.Manager.{
  Server, ManagerLibrary, JsonValue, json_object, json_string, json_integer,
}
use outline_multiport_server.IpLock.Reload.{DiskLaws}
use outline_multiport_server.Manager.Table.{TableLaws, changed}
use outline_multiport_server.Tests.Libraries.{text_of, mtime_of, str_eq-other}

abbrev server_at : List (Bytes × Server) → Bytes → Option Server
server_at [] q = none
server_at ((p, s) ∷ t) q = if str_eq p q then some s else server_at t q

abbrev others : Bytes → List (Bytes × Server) → List (Bytes × Server)
others p = select (λ e. not (str_eq e.0 p))

abbrev alter : Bytes → (Server → Server) → List (Bytes × Server) → List (Bytes × Server)
alter p f [] = []
alter p f ((k, s) ∷ t) = (k, if str_eq k p then f s else s) ∷ alter p f t

abbrev texts : Bytes → Option JsonValue
texts text =
    if str_eq text (codes " {\"server_port\":\"8388\",\"password\":\"pw\"}")
    then some (
        json_object (
          (codes "server_port", json_string (codes "8388"))
          ∷ (codes "password", json_string (codes "pw"))
          ∷ []))
    else if str_eq text (codes " {\"server_port\":\"8388\",\"ip\":\"1.2.3.4\"}")
    then some (
        json_object (
          (codes "server_port", json_string (codes "8388"))
          ∷ (codes "ip", json_string (codes "1.2.3.4"))
          ∷ []))
    else if str_eq text (codes " {\"ip\":\"1.2.3.4\",\"server_port\":8388}")
    then some (
        json_object (
          (codes "ip", json_string (codes "1.2.3.4"))
          ∷ (codes "server_port", json_integer (pos 8388))
          ∷ []))
    else if str_eq text (codes " {\"8388\":7}")
    then some (json_object ((codes "8388", json_integer (pos 7)) ∷ []))
    else none

abbrev pub port_list : ManagerLibrary
port_list = record {
  json_parse_ex = texts;
  Table = List (Bytes × Server);
  table_new = [];
  table_get = server_at;
  table_put = λ t p s. (p, s) ∷ others p t;
  table_delete = λ t p. others p t;
  table_modify = λ t p f. alter p f t;
  table_items = map (λ e. e.1);
}

same_key : (k p q : Bytes) → str_eq k p ≡ true → str_eq k q ≡ str_eq p q
same_key k p q h = ap (λ x. str_eq x q) (str_eq→eq k p h)

server_at-others :
    (t : List (Bytes × Server)) (p q : Bytes)
    → server_at (others p t) q ≡ (if str_eq p q then none else server_at t q)
server_at-others [] p q = elim (Bool-cases (str_eq p q)) [ inl e ↦ rw e refl | inr e ↦ rw e refl ]
server_at-others ((k, s) ∷ t) p q =
    let ih = server_at-others t p q in
    elim (Bool-cases (str_eq k p)) [
      | inl same ↦ ground (arith, ih, same, same_key k p q same)
      | inr apart ↦ elim (Bool-cases (str_eq k q)) [
        | inl at ↦ elim (Bool-cases (str_eq p q)) [
          | inl e ↦ absurd (cc (str_eq→eq p q e, at, apart))
          | inr e ↦ ground (arith, ih, apart, at, e)
        ]
        | inr off ↦ ground (arith, ih, apart, off)
      ]
    ]

server_at-alter :
    (t : List (Bytes × Server)) (p : Bytes) (f : Server → Server) (q : Bytes)
    → server_at (alter p f t) q ≡ (if str_eq p q then changed f (server_at t q) else server_at t q)
server_at-alter [] p f q = elim (Bool-cases (str_eq p q)) [ inl e ↦ rw e refl | inr e ↦ rw e refl ]
server_at-alter ((k, s) ∷ t) p f q =
    let ih = server_at-alter t p f q in
    elim (Bool-cases (str_eq k p)) [
      | inl same ↦ elim (Bool-cases (str_eq k q)) [
        | inl at ↦ rw (same, at, sym (same_key k p q same) ∙ at) refl
        | inr off ↦ rw (same, off) ih
      ]
      | inr apart ↦ elim (Bool-cases (str_eq k q)) [
        | inl at ↦ elim (Bool-cases (str_eq p q)) [
          | inl e ↦ absurd (cc (str_eq→eq p q e, at, apart))
          | inr e ↦ rw (apart, at, e) refl
        ]
        | inr off ↦ rw (apart, off) ih
      ]
    ]

pub port_list-TableLaws : TableLaws port_list
port_list-TableLaws = record {
  get_new = λ q. refl;
  get_put = λ t p s q. put t p s q;
  get_delete = server_at-others;
  get_modify = server_at-alter;
}
  where
    put :
        (t : List (Bytes × Server)) (p : Bytes) (s : Server) (q : Bytes)
        → server_at ((p, s) ∷ others p t) q ≡ (if str_eq p q then some s else server_at t q)
    put t p s q = elim (Bool-cases (str_eq p q)) [
      | inl e ↦ rw e refl
      | inr e ↦ rw e (server_at-others t p q ∙ if_false (str_eq p q) _ _ e)
    ]

-- Files with the times of their last writes, beside a clock.
abbrev Files : Type 0
Files = List (Bytes × (ℕ × Bytes))

abbrev entry_at : Files → Bytes → Option (ℕ × Bytes)
entry_at [] path = none
entry_at ((name, e) ∷ d) path = if str_eq name path then some e else entry_at d path

abbrev unlinked : Bytes → Files → Files
unlinked path = select (λ f. not (str_eq f.0 path))

abbrev pub timed_files : FileSystem
timed_files = record {
  Disk = ℕ × Files;
  stat_mtime = λ d path. mtime_of (entry_at d.1 path);
  read_file = λ d path. text_of (entry_at d.1 path);
  write_file = λ d path text. some (suc d.0, (path, (d.0, text)) ∷ d.1);
  unlink = λ d path. (d.0, unlinked path d.1);
}

entry_at-unlinked : (d : Files) (p : Bytes) → entry_at (unlinked p d) p ≡ none
entry_at-unlinked [] p = refl
entry_at-unlinked ((name, f) ∷ d) p =
    let ih = entry_at-unlinked d p in
    elim (Bool-cases (str_eq name p)) [
      | inl e ↦ ground (arith, ih, e)
      | inr e ↦ ground (arith, ih, e)
    ]

entry_at-kept : (d : Files) (p q : Bytes) → q ≢ p → entry_at (unlinked p d) q ≡ entry_at d q
entry_at-kept [] p q ne = refl
entry_at-kept ((name, f) ∷ d) p q ne =
    let ih = entry_at-kept d p q ne in
    elim (Bool-cases (str_eq name p)) [
      | inl e ↦
          let off : str_eq name q ≡ false =
            ap (λ k. str_eq k q) (str_eq→eq name p e) ∙ str_eq-other p q ne in
          ground (arith, ih, e, off)
      | inr e ↦ elim (Bool-cases (str_eq name q)) [
        | inl at ↦ ground (arith, e, at)
        | inr off ↦ ground (arith, ih, e, off)
      ]
    ]

entry_at-written :
    (d : ℕ × Files) (p text : Bytes) → entry_at ((p, (d.0, text)) ∷ d.1) p ≡ some (d.0, text)
entry_at-written d p text = if_true (str_eq p p) _ _ (str_eq_refl p)

entry_at-other :
    (d : ℕ × Files) (p q text : Bytes)
    → q ≢ p
    → entry_at ((p, (d.0, text)) ∷ d.1) q ≡ entry_at d.1 q
entry_at-other d p q text ne = if_false (str_eq p q) _ _ (str_eq-other p q ne)

pub timed_files-FileLaws : FileLaws timed_files
timed_files-FileLaws = record {
  stat_written = λ d d' path text h.
      subst (λ (x : ℕ × Files). (t : ℕ) × (mtime_of (entry_at x.1 path) ≡ some t))
        (some-injective (suc d.0, (path, (d.0, text)) ∷ d.1) d' h)
        (d.0, ap mtime_of (entry_at-written d path text));
  stat_other = λ d d' path other text h ne.
      subst (λ (x : ℕ × Files). mtime_of (entry_at x.1 other) ≡ mtime_of (entry_at d.1 other))
        (some-injective (suc d.0, (path, (d.0, text)) ∷ d.1) d' h)
        (ap mtime_of (entry_at-other d path other text ne));
}

pub timed_files-DiskLaws : DiskLaws timed_files
timed_files-DiskLaws = record {
  read_written = λ d d' path text h.
      subst (λ (x : ℕ × Files). text_of (entry_at x.1 path) ≡ some text)
        (some-injective (suc d.0, (path, (d.0, text)) ∷ d.1) d' h)
        (ap text_of (entry_at-written d path text));
  read_other = λ d d' path other text h ne.
      subst (λ (x : ℕ × Files). text_of (entry_at x.1 other) ≡ text_of (entry_at d.1 other))
        (some-injective (suc d.0, (path, (d.0, text)) ∷ d.1) d' h)
        (ap text_of (entry_at-other d path other text ne));
  read_unlinked = λ d path. ap text_of (entry_at-unlinked d.1 path);
  stat_unlinked = λ d path. ap mtime_of (entry_at-unlinked d.1 path);
  read_kept = λ d path other ne. ap text_of (entry_at-kept d.1 path other ne);
  stat_kept = λ d path other ne. ap mtime_of (entry_at-kept d.1 path other ne);
}
