-- ===== src/IpLock/Json.antt =====
-- The JSON that ip_lock.c writes into its status file: lists of addresses and escaped text.
use mathlib.Core.List.{append-nil, append_assoc}
use outline_multiport_server.Base.{
  ℕ, suc, ◌+◌, ◌-◌, ◌*◌, ◌≤◌, ◌<◌, ◌≡◌, refl, ◌∙◌, inl, inr, Bool, true, false, not, ◌||◌,
  Bool-cases, List, [], ◌∷◌, ◌++◌, Bytes, codes, is_empty, length, take, All, Option, none, some,
  length-append, length-take, lt→ltb, lt→leb_false, take_of_length-le, arith, ltb, leb, ◌==◌,
  if◌then◌else◌,
}
use outline_multiport_server.IpLock.{
  Out, print_at, print, print_comma, quoted, format_loop, ip_lock_format_active_ips, backslash,
  escape_loop, ip_lock_json_escape, status_json_max, max_track_ips, ip_len,
}

-- The elements of the JSON array, each with its quotes; `first` says that no comma stands before.
abbrev pub json_items : Bool → List Bytes → Bytes
json_items first [] = []
json_items first (ip ∷ ips) =
    if is_empty ip
    then json_items first ips
    else (if first then [] else codes ",") ++ (quoted ip ++ json_items false ips)

print_fits :
    (size : ℕ) (o : Out) (s : Bytes)
    → o.pos ≡ length o.text
    → o.pos + length s < size
    → print size o s ≡ record { text = o.text ++ s; pos = o.pos + length s }
unfolding print print_at
print_fits size o s h fits = rw (
  take_of_length-le o.pos o.text (omega arith),
  take_of_length-le (size - o.pos - 1) s (omega arith),
)

print_comma_fits :
    (size : ℕ) (first : Bool) (o : Out)
    → o.pos ≡ length o.text
    → ltb 1 o.pos ≡ not first
    → o.pos + 1 < size
    → let sep = if first then [] else codes "," in
      print_comma size o ≡ record { text = o.text ++ sep; pos = o.pos + length sep }
print_comma_fits size true o h start fits = unfold print_comma in ground (arith, append-nil o.text)
print_comma_fits size false o h start fits =
    unfold print_comma in rw (start, lt→ltb _ _ fits) (print_fits size o (codes ",") h fits)

same_out :
    (o : Out) (a b c : Bytes)
    → ◌≡◌ {A = Out}
        (record { text = ((o.text ++ a) ++ b) ++ c; pos = o.pos + length a + length b + length c })
        (record { text = o.text ++ (a ++ (b ++ c)); pos = o.pos + length (a ++ (b ++ c)) })
same_out o a b c = ground (
  arith,
  append_assoc (o.text ++ a) b c,
  append_assoc o.text a (b ++ c),
  length-append a (b ++ c),
  length-append b c,
)

format_loop-items :
    (size : ℕ) (ips : List Bytes) (first : Bool) (o : Out)
    → o.pos ≡ length o.text
    → ltb 1 o.pos ≡ not first
    → 0 < o.pos
    → o.pos + length (json_items first ips) + 2 < size
    → format_loop size ips o ≡ record {
      text = o.text ++ json_items first ips;
      pos = o.pos + length (json_items first ips);
    }
unfolding format_loop
format_loop-items size [] first o h start nz fits = ground (arith, append-nil o.text)
format_loop-items size (ip ∷ ips) first o h start nz fits = elim (Bool-cases (is_empty ip)) [
  | inl e ↦ rw e (format_loop-items size ips first o h start nz (rw e at fits))
  | inr e ↦
      let sep : Bytes = if first then [] else codes "," in
      let o1 : Out = record { text = o.text ++ sep; pos = o.pos + length sep } in
      let o2 : Out = record { text = o1.text ++ quoted ip; pos = o1.pos + length (quoted ip) } in
      let fits' : o.pos + length (sep ++ (quoted ip ++ json_items false ips)) + 2 < size =
        rw e at fits in
      let l1 = length-append sep (quoted ip ++ json_items false ips) in
      let l2 = length-append (quoted ip) (json_items false ips) in
      let e1 : print_comma size o ≡ o1 = print_comma_fits size first o h start (omega arith) in
      let e2 : print size o1 (quoted ip) ≡ o2 =
        print_fits size o1 (quoted ip) (omega (arith, length-append o.text sep)) (omega arith) in
      let ih =
        format_loop-items size ips false o2
          (omega (arith, length-append o.text sep, length-append o1.text (quoted ip)))
          (lt→ltb 1 o2.pos (omega arith)) (omega arith) (omega arith) in
      let c1 : leb size (o1.pos + 2) ≡ false = lt→leb_false size (o1.pos + 2) (omega arith) in
      let c2 : leb size (o2.pos + 2) ≡ false = lt→leb_false size (o2.pos + 2) (omega arith) in
      rw (e, e1, c1, e2, c2) (ih ∙ same_out o sep (quoted ip) (json_items false ips))
]

-- What the whole function prints where everything fits.
format_fits :
    (size : ℕ) (ips : List Bytes)
    → length (json_items true ips) + 3 < size
    → ip_lock_format_active_ips ips size ≡ codes "[" ++ (json_items true ips ++ codes "]")
unfolding ip_lock_format_active_ips
format_fits size [] fits = take_of_length-le (size - 1) (codes "[]") (omega arith)
format_fits size (ip ∷ ips) fits =
    let o : Out = record { text = codes "["; pos = 1 } in
    let items = json_items true (ip ∷ ips) in
    let e1 : print size (record { text = []; pos = 0 }) (codes "[") ≡ o =
      print_fits size (record { text = []; pos = 0 }) (codes "[") refl (omega arith) in
    let e2 = format_loop-items size (ip ∷ ips) true o refl refl (omega arith) (omega arith) in
    rw e1 (
      rw e2 (
        unfold print_at in
        rw
          (
            take_of_length-le (1 + length items) (codes "[" ++ items) (omega (arith)),
            take_of_length-le (size - (1 + length items) - 1) (codes "]") (omega arith),
          )
          (append_assoc (codes "[") items (codes "]"))))

length-item :
    (b : Bool) (ip rest : Bytes) (n : ℕ)
    → length ip ≤ ip_len
    → length rest ≤ 48 * n
    → length ((if b then [] else codes ",") ++ (quoted ip ++ rest)) ≤ 48 * suc n
length-item true ip rest n h r =
    omega (arith, length-append (quoted ip) rest, length-append ip (b'"' ∷ []))
length-item false ip rest n h r =
    omega (arith, length-append (quoted ip) rest, length-append ip (b'"' ∷ []))

length-items-le :
    (first : Bool) (ips : List Bytes)
    → All (λ ip. length ip ≤ ip_len) ips
    → length (json_items first ips) ≤ 48 * length ips
length-items-le first [] h = omega arith
length-items-le first (ip ∷ ips) h = elim (Bool-cases (is_empty ip)) [
  | inl e ↦ rw e (omega (arith, length-items-le first ips h.1))
  | inr e ↦ rw e (length-item first ip _ (length ips) h.0 (length-items-le false ips h.1))
]

-- For at most 16 addresses of at most 45 bytes, the buffer of 1024 bytes of `ip_lock_write_status`
-- is enough: what is printed is the JSON array of the addresses that are not empty, in order, with
-- nothing cut off.
pub format_active_ips-tracked :
    (ips : List Bytes)
    → length ips ≤ max_track_ips
    → All (λ ip. length ip ≤ ip_len) ips
    → ip_lock_format_active_ips ips status_json_max
      ≡ codes "[" ++ (json_items true ips ++ codes "]")
format_active_ips-tracked ips few short =
    format_fits status_json_max ips (omega (arith, length-items-le true ips short))

length-print_at-lt :
    (size : ℕ) (o : Out) (s : Bytes) → length o.text < size → length (print_at size o s) < size
unfolding print_at
length-print_at-lt size o s h = omega (
  arith,
  length-append (take o.pos o.text) (take (size - o.pos - 1) s),
  length-take o.pos o.text,
  length-take (size - o.pos - 1) s,
)

print-text :
    (size : ℕ) (o : Out) (s : Bytes) → length o.text < size → length (print size o s).text < size
unfolding print
print-text size o s h = length-print_at-lt size o s h

comma-text : (size : ℕ) (o : Out) → length o.text < size → length (print_comma size o).text < size
unfolding print_comma
comma-text size o h = ground (arith, print-text size o (codes ","))

length-format_loop-lt :
    (size : ℕ) (ips : List Bytes) (o : Out)
    → length o.text < size
    → length (format_loop size ips o).text < size
unfolding format_loop
length-format_loop-lt size [] o h = h
length-format_loop-lt size (ip ∷ ips) o h =
    let o1 = print_comma size o in
    let o2 = print size o1 (quoted ip) in
    let h1 = comma-text size o h in
    let h2 = print-text size o1 (quoted ip) h1 in
    ground (arith, length-format_loop-lt size ips o h, length-format_loop-lt size ips o2 h2, h1, h2)

-- `ip_lock_format_active_ips` never writes past a buffer of `size` bytes, at least one: with its
-- terminating NUL the text fits, whatever the addresses.
pub length-format_active_ips-lt :
    (ips : List Bytes) (size : ℕ) → 0 < size → length (ip_lock_format_active_ips ips size) < size
unfolding ip_lock_format_active_ips
length-format_active_ips-lt [] size h = omega (arith, length-take (size - 1) (codes "[]"))
length-format_active_ips-lt (ip ∷ ips) size h = length-print_at-lt size _ (codes "]") (
    length-format_loop-lt size (ip ∷ ips) _
      (print-text size (record { text = []; pos = 0 }) (codes "[") h))

-- The escaped text, with no bound.
abbrev escaped : Bytes → Bytes
escaped [] = []
escaped (c ∷ s) = if c == b'"' || c == backslash then backslash ∷ c ∷ escaped s else c ∷ escaped s

with_byte : ℕ → Option (Bytes × Bytes) → Option (Bytes × Bytes)
with_byte c none = none
with_byte c (some (s, rest)) = some (c ∷ s, rest)

-- A reader of a JSON string behind its opening quote: the text, and what follows the closing quote.
-- It stops at the first quote without a backslash before it, knows the escapes of the quote and the
-- backslash, and refuses control characters; `escaping` says that a backslash was just read.
pub read_string : Bool → Bytes → Option (Bytes × Bytes)
read_string escaping [] = none
read_string true (c ∷ s) =
    let more = read_string false s in if c == b'"' || c == backslash then with_byte c more else none
read_string false (c ∷ s) =
    let more = read_string false s in
    let behind = read_string true s in
    if c == b'"'
    then some ([], s)
    else if c == backslash
    then behind
    else if ltb c 32
    then none
    else with_byte c more

-- No control characters.
abbrev pub IsText : Bytes → Type 0
IsText = All (λ c. 31 < c)

read_string-escaped :
    (s rest : Bytes) → IsText s → read_string false (escaped s ++ (b'"' ∷ rest)) ≡ some (s, rest)
unfolding read_string with_byte
read_string-escaped [] rest h = refl
read_string-escaped (c ∷ s) rest (hc, h) =
    let ih = read_string-escaped s rest h in
    elim (Bool-cases (c == b'"' || c == backslash)) [
      | inl e ↦ rw (e, read_string) (rw (e, ih) refl)
      | inr e ↦ rw (e, read_string) (ground (arith, ih))
    ]

escape_loop-escaped :
    (size : ℕ) (s : Bytes) (pos : ℕ)
    → pos + 2 * length s < size
    → escape_loop size s pos ≡ escaped s
unfolding escape_loop
escape_loop-escaped size [] pos h = refl
escape_loop-escaped size (c ∷ s) pos h =
    ground (arith, escape_loop-escaped size s (pos + 1), escape_loop-escaped size s (pos + 2))

length-escape_loop :
    (size : ℕ) (s : Bytes) (pos : ℕ) → pos < size → pos + length (escape_loop size s pos) < size
unfolding escape_loop
length-escape_loop size [] pos h = omega arith
length-escape_loop size (c ∷ s) pos h =
    ground (arith, length-escape_loop size s (pos + 1), length-escape_loop size s (pos + 2))

-- `ip_lock_json_escape` never overruns a buffer that is not empty, whatever the text: with its
-- terminating NUL the escaped text fits.
pub length-json_escape-lt :
    (s : Bytes) (size : ℕ) → 0 < size → length (ip_lock_json_escape s size) < size
unfolding ip_lock_json_escape
length-json_escape-lt s size h = omega (arith, length-escape_loop size s 0 h)

-- Where the buffer has more than twice the bytes of the text, and the text has no control
-- characters, what `ip_lock_json_escape` writes, with a closing quote and anything behind it, is read
-- as a JSON string back to the text: the string ends at that quote and no earlier.
pub json_escape_lem :
    (s : Bytes) (size : ℕ) (rest : Bytes)
    → 2 * length s < size
    → IsText s
    → read_string false (ip_lock_json_escape s size ++ (b'"' ∷ rest)) ≡ some (s, rest)
unfolding ip_lock_json_escape
json_escape_lem s size rest fits text =
    rw (escape_loop-escaped size s 0 (omega arith)) (read_string-escaped s rest text)
