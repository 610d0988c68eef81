-- ===== src/Relay/Names.antt =====
-- The names that `validate_hostname` of netutils.c accepts.
use outline_multiport_server.Base.{
  ℕ, zero, suc, ◌-◌, ◌≤◌, ◌<◌, ◌≡◌, ◌≢◌, refl, ap, ◌∙◌, Bool, true, false, not, ◌&&◌, ◌||◌, none,
  some, List, [], ◌∷◌, ◌++◌, Bytes, All, length, length-append, drop, get_or, is_empty, strchr, ltb,
  leb, ◌==◌, if◌then◌else◌, arith,
}
use outline_multiport_server.Relay.Header.{
  is_label_byte, label_len, label_span, is_label, validate_labels, validate_hostname,
}

abbrev pub is_all : (ℕ → Bool) → Bytes → Bool
is_all test [] = true
is_all test (c ∷ s) = let rest = is_all test s in if test c then rest else false

-- A label: 1 to 63 letters, digits, dashes and underscores, no dash at either end.
abbrev pub good_label : Bytes → Bool
good_label l =
    (leb (length l) 63 && leb 1 (length l))
    && not (get_or l 0 0 == b'-' || get_or l (length l - 1) 0 == b'-')
    && is_all is_label_byte l

-- All labels are good, where the last one may be empty, behind a final dot.
abbrev pub good_labels : List Bytes → Bool
good_labels [] = true
good_labels (l ∷ []) = is_empty l || good_label l
good_labels (l ∷ m ∷ ls) = let rest = good_labels (m ∷ ls) in if good_label l then rest else false

-- The labels with a dot between two.
abbrev pub dotted : List Bytes → Bytes
dotted [] = []
dotted (l ∷ []) = l
dotted (l ∷ m ∷ ls) = l ++ (b'.' ∷ dotted (m ∷ ls))

abbrev pub NoDot : Bytes → Type 0
NoDot = All (λ c. c ≢ b'.')

strchr-last : (l : Bytes) → NoDot l → strchr l b'.' ≡ none
unfolding strchr
strchr-last [] h = refl
strchr-last (c ∷ l) (hc, h) = let ih = strchr-last l h in ground (arith, ih)

strchr-dot : (l rest : Bytes) → NoDot l → strchr (l ++ (b'.' ∷ rest)) b'.' ≡ some (length l)
unfolding strchr
strchr-dot [] rest h = refl
strchr-dot (c ∷ l) rest (hc, h) = let ih = strchr-dot l rest h in ground (arith, ih)

label_span-last : (l : Bytes) → leb (length l) (label_span l) ≡ is_all is_label_byte l
unfolding label_span
label_span-last [] = ground arith
label_span-last (c ∷ l) = let ih = label_span-last l in ground (arith, ih)

label_span-dot :
    (l rest : Bytes) → leb (length l) (label_span (l ++ (b'.' ∷ rest))) ≡ is_all is_label_byte l
unfolding label_span
label_span-dot [] rest = ground arith
label_span-dot (c ∷ l) rest = let ih = label_span-dot l rest in ground (arith, ih)

get_or-front : (l rest : Bytes) (i : ℕ) → i < length l → get_or (l ++ rest) i 0 ≡ get_or l i 0
get_or-front [] rest i h = absurd (omega arith)
get_or-front (c ∷ l) rest zero h = refl
get_or-front (c ∷ l) rest (suc i) h = get_or-front l rest i (omega arith)

is_label-last : (l : Bytes) → is_label l (length l) (length l) ≡ good_label l
is_label-last l = let spans = label_span-last l in ground (arith, spans)

is_label-dot :
    (l rest : Bytes) (n : ℕ)
    → length l ≤ n
    → is_label (l ++ (b'.' ∷ rest)) n (length l) ≡ good_label l
is_label-dot [] rest n h = ground arith
is_label-dot (c ∷ l) rest n h =
    let spans = label_span-dot (c ∷ l) rest in
    let end = get_or-front (c ∷ l) (b'.' ∷ rest) (length l) (omega arith) in
    ground (arith, spans, end)

validate_labels-zero : (fuel : ℕ) (label : Bytes) → validate_labels fuel label 0 ≡ true
unfolding validate_labels
validate_labels-zero zero label = refl
validate_labels-zero (suc fuel) label = ground arith

-- One round of the loop on a label of the length `len`.
validate_labels-round :
    (fuel n len : ℕ) (label : Bytes) (good rest : Bool)
    → label_len label n ≡ len
    → 0 < n
    → is_label label n len ≡ good
    → validate_labels fuel (drop (suc len) label) (n - suc len) ≡ rest
    → validate_labels (suc fuel) label n ≡ (if good then rest else false)
unfolding validate_labels
validate_labels-round fuel n len label good rest h left is_good behind =
    ap
      (λ k.
        if n == 0
        then true
        else if is_label label n k
        then validate_labels fuel (drop (suc k) label) (n - suc k)
        else false)
      h
    ∙ ground (arith, is_good, behind)

label_len-last : (l : Bytes) (n : ℕ) → NoDot l → label_len l n ≡ n
label_len-last l n h = rw (strchr-last l h, label_len) refl

label_len-dot : (l rest : Bytes) (n : ℕ) → NoDot l → label_len (l ++ (b'.' ∷ rest)) n ≡ length l
label_len-dot l rest n h = rw (strchr-dot l rest h, label_len) refl

drop_dot : (s rest : Bytes) → drop (suc (length s)) (s ++ (b'.' ∷ rest)) ≡ rest
drop_dot [] rest = refl
drop_dot (c ∷ s) rest = drop_dot s rest

validate_labels-dotted :
    (ls : List Bytes) (fuel : ℕ)
    → All NoDot ls
    → length (dotted ls) ≤ fuel
    → validate_labels fuel (dotted ls) (length (dotted ls)) ≡ good_labels ls
validate_labels-dotted [] fuel h enough = validate_labels-zero fuel []
validate_labels-dotted ([] ∷ []) fuel h enough = validate_labels-zero fuel []
validate_labels-dotted ((c ∷ l) ∷ []) zero h enough = absurd (omega arith)
validate_labels-dotted ((c ∷ l) ∷ []) (suc fuel) (h, hs) enough =
    let n = length (c ∷ l) in
    let none_left : n - suc n ≡ 0 = omega arith in
    let behind : validate_labels fuel (drop (suc n) (c ∷ l)) (n - suc n) ≡ true =
      rw none_left (validate_labels-zero fuel (drop (suc n) (c ∷ l))) in
    validate_labels-round fuel n n (c ∷ l) (good_label (c ∷ l)) true (label_len-last (c ∷ l) n h)
      (omega arith) (is_label-last (c ∷ l)) behind
    ∙ ground arith
validate_labels-dotted (l ∷ m ∷ ls) zero h enough =
    absurd (omega (arith, length-append l (b'.' ∷ dotted (m ∷ ls))))
validate_labels-dotted (l ∷ m ∷ ls) (suc fuel) (h, hs) enough =
    let more : Bytes = dotted (m ∷ ls) in
    let n : ℕ = length (l ++ (b'.' ∷ more)) in
    let all = length-append l (b'.' ∷ more) in
    let left : n - suc (length l) ≡ length more = omega (arith, all) in
    let ih = validate_labels-dotted (m ∷ ls) fuel hs (omega (arith, all)) in
    let behind : validate_labels fuel (drop (suc (length l)) (l ++ (b'.' ∷ more)))
          (n - suc (length l))
        ≡ good_labels (m ∷ ls) =
      rw (drop_dot l more, left) ih in
    validate_labels-round fuel n (length l) (l ++ (b'.' ∷ more)) (good_label l)
      (good_labels (m ∷ ls)) (label_len-dot l more n h) (omega (arith, all))
      (is_label-dot l more n (omega (arith, all))) behind

-- A name is at least one label without a dot in it, with a dot between two, and has 1 to 255 bytes.
-- `validate_hostname` accepts it exactly if each label has 1 to 63 letters, digits, dashes and
-- underscores with no dash at either end; but the last one may be empty, behind a final dot.
pub validate_hostname-dotted :
    (ls : List Bytes)
    → All NoDot ls
    → 1 ≤ length (dotted ls)
    → length (dotted ls) ≤ 255
    → validate_hostname (dotted ls) (length (dotted ls)) ≡ good_labels ls
unfolding validate_hostname
validate_hostname-dotted ls h some_name short =
    let loop = validate_labels-dotted ls (length (dotted ls)) h (omega arith) in
    let sized : (ltb (length (dotted ls)) 1 || ltb 255 (length (dotted ls))) ≡ false =
      ground arith in
    rw (sized, validate_hostname) (ground (arith, loop, first_dot ls h some_name))
  where
    first_dot :
        (ks : List Bytes)
        → All NoDot ks
        → 1 ≤ length (dotted ks)
        → (get_or (dotted ks) 0 0 == b'.') ≡ true
        → good_labels ks ≡ false
    first_dot [] k some_k e = absurd (omega arith)
    first_dot ([] ∷ []) k some_k e = absurd (omega arith)
    first_dot ((c ∷ l) ∷ []) ((hc, hl), k) some_k e = absurd (ground arith)
    first_dot ([] ∷ m ∷ ks) k some_k e = ground arith
    first_dot ((c ∷ l) ∷ m ∷ ks) ((hc, hl), k) some_k e = absurd (ground arith)
