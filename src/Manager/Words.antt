-- ===== src/Manager/Words.antt =====
-- How manager.c splits a request into its action and its text.
use outline_multiport_server.Base.{
  ℕ, suc, ◌+◌, ◌-◌, ◌<◌, ◌≡◌, ◌≢◌, refl, sym, ap, ◌∙◌, Bool, true, false, some, [], ◌∷◌, ◌++◌,
  Bytes, codes, length, drop, isspace, All, strchr, c_str, before, arith, if◌then◌else◌,
  drop_append_length, drop-drop,
}
use outline_multiport_server.Manager.Fields.{IsCString}
use outline_multiport_server.Manager.Requests.{span, in_action, get_action, get_data}

-- A byte of an action: printable, no space, no colon and no brace.
abbrev pub IsLetter : ℕ → Type 0
IsLetter c = (32 < c) × (c ≢ b':') × (c ≢ b'{')

span-word :
    (word rest : Bytes) (c : ℕ)
    → All IsLetter word
    → in_action c ≡ false
    → span in_action (word ++ (c ∷ rest)) ≡ (word, c ∷ rest)
unfolding span
span-word [] rest c h stop = rw (stop, span) refl
span-word (w ∷ word) rest c ((hw, h1, h2), h) stop =
    let ih = span-word word rest c h stop in
    let letter : in_action w ≡ true = ground arith in rw (letter, span) (rw ih refl)

c_str-word : (word : Bytes) → All IsLetter word → c_str word ≡ word
unfolding before
c_str-word [] h = refl
c_str-word (w ∷ word) ((hw, h1, h2), h) = let ih = c_str-word word h in ground (arith, ih)

strchr-word :
    (word rest : Bytes) (i : ℕ)
    → All IsLetter word
    → strchr rest b'{' ≡ some i
    → strchr (word ++ rest) b'{' ≡ some (length word + i)
unfolding strchr
strchr-word [] rest i h found = found ∙ ap some (omega arith)
strchr-word (w ∷ word) rest i ((hw, h1, h2), h) found =
    let ih = strchr-word word rest i h found in ground (arith, ih)

span-no_space : (w : ℕ) (rest : Bytes) → IsLetter w → span isspace (w ∷ rest) ≡ ([], w ∷ rest)
unfolding span
span-no_space w rest (hw, h1, h2) =
    let printed : isspace w ≡ false = ground arith in rw (printed, span) refl

get_action-colon :
    (w : ℕ) (word text : Bytes)
    → All IsLetter (w ∷ word)
    → get_action ((w ∷ word) ++ (b':' ∷ text)) ≡ some (w ∷ word, (w ∷ word) ++ (0 ∷ text))
unfolding get_action
get_action-colon w word text (hw, h) =
    rw
      (
        span-no_space w (word ++ (b':' ∷ text)) hw,
        span-word (w ∷ word) text b':' (hw, h) refl,
        c_str-word (w ∷ word) (hw, h),
        get_action,
      )
      refl

-- What stands between the action and the end, from its first byte on: a byte and the brace.
get_data-brace :
    (word : Bytes)
    → All IsLetter word
    → (rest : Bytes) (i : ℕ) → strchr rest b'{' ≡ some (suc i)
    → get_data (word ++ rest) ≡ some (c_str (drop i rest))
unfolding get_data
get_data-brace word h rest i found =
    let at = strchr-word word rest (suc i) h found in
    let back : length word + suc i - 1 ≡ length word + i = omega arith in
    let behind =
      sym (drop-drop i (length word) (word ++ rest))
      ∙ ap (drop i) (drop_append_length (length word) word rest refl) in
    rw (at, get_data)
      (ap (λ n. some (c_str (drop n (word ++ rest)))) back ∙ ap (λ t. some (c_str t)) behind)

c_str_text : (s : Bytes) → IsCString s → c_str s ≡ s
unfolding before
c_str_text [] h = refl
c_str_text (c ∷ s) (hc, h) = let ih = c_str_text s h in ground (arith, ih)

-- A request is an action of letters, a colon, a space or not, and a text that starts with a brace and
-- has no NUL. `get_action` gives the action. On the buffer that it leaves `get_data` gives the text
-- with the space before it; but without the space it gives the empty text, whatever stands behind
-- the brace.
pub request-parts :
    (spaced : Bool) (w : ℕ) (word text : Bytes)
    → All IsLetter (w ∷ word)
    → IsCString text
    → let request =
        (w ∷ word) ++ (codes ":" ++ ((if spaced then codes " " else []) ++ (codes "{" ++ text))) in
      (buf : Bytes) × (get_action request ≡ some (w ∷ word, buf))
      × (get_data buf ≡ some (if spaced then codes " {" ++ text else []))
unfolding strchr before
request-parts true w word text h no_nul = (
  (w ∷ word) ++ (0 ∷ codes " {" ++ text),
  get_action-colon w word (codes " {" ++ text) h,
  get_data-brace (w ∷ word) h (0 ∷ codes " {" ++ text) 1 refl
      ∙ ap some (c_str_text (codes " {" ++ text) (omega arith, (omega arith, no_nul))),
)
request-parts false w word text h no_nul = (
  (w ∷ word) ++ (0 ∷ codes "{" ++ text),
  get_action-colon w word (codes "{" ++ text) h,
  get_data-brace (w ∷ word) h (0 ∷ codes "{" ++ text) 0 refl,
)
