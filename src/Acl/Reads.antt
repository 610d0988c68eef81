-- ===== src/Acl/Reads.antt =====
-- How `init_acl` of acl.c reads a file of lines that fit its buffer.
use outline_multiport_server.Base.{
  ℕ, fgets_loop, fgets, zero, suc, ◌≤◌, ◌<◌, ◌≡◌, ◌≢◌, refl, ap, false, some, List, [], ◌∷◌, ◌++◌,
  Bytes, All, length, length-append, c_str, get_or, before, arith,
}
use outline_multiport_server.Acl.{
  AclLibrary, Reader, AclMode, black, is_long, trim_newline, clean_line, acl_buffer, read_acl,
  init_acl, empty_lists,
}

-- A byte of a line: no newline, and no NUL, which would end the C string.
abbrev pub IsLineByte : ℕ → Type 0
IsLineByte c = (c ≢ 10) × (c ≢ 0)

-- A line that `fgets(buf, 256, f)` reads whole, with its newline.
abbrev pub IsShortLine : Bytes → Type 0
IsShortLine line = (length line ≤ 254) × All IsLineByte line

-- The text of a file, by its lines.
pub unlines : List Bytes → Bytes
unlines [] = []
unlines (line ∷ lines) = line ++ (10 ∷ unlines lines)

-- The lines are taken one by one.
pub acl_lines : (L : AclLibrary) → List Bytes → Reader L → Reader L
acl_lines L [] r = r
acl_lines L (line ∷ lines) r = acl_lines L lines (acl_buffer L line r)

fgets_loop_line :
    (n : ℕ) (line rest : Bytes)
    → length line < n
    → All IsLineByte line
    → fgets_loop n (line ++ (10 ∷ rest)) ≡ (line ++ (10 ∷ []), rest)
unfolding fgets_loop
fgets_loop_line zero line rest h a = elim h [ ]
fgets_loop_line (suc n) [] rest h a = refl
fgets_loop_line (suc n) (c ∷ line) rest h a =
    ground (arith, fgets_loop_line n line rest (omega arith) a.1)

fgets_line :
    (line rest : Bytes)
    → IsShortLine line
    → fgets 256 (line ++ (10 ∷ rest)) ≡ some (line ++ (10 ∷ []), rest)
unfolding fgets
fgets_line [] rest h = ap some (fgets_loop_line 255 [] rest (omega arith) h.1)
fgets_line (c ∷ line) rest h = ap some (fgets_loop_line 255 (c ∷ line) rest (omega arith) h.1)

c_str_line : (line : Bytes) → All IsLineByte line → c_str (line ++ (10 ∷ [])) ≡ line ++ (10 ∷ [])
unfolding before
c_str_line [] a = refl
c_str_line (c ∷ line) a = ground (arith, c_str_line line a.1)

get_or_line : (line : Bytes) (n : ℕ) → length line ≡ n → get_or (line ++ (10 ∷ [])) n 0 ≡ 10
get_or_line [] zero h = refl
get_or_line [] (suc n) h = absurd (omega arith)
get_or_line (c ∷ line) zero h = absurd (omega arith)
get_or_line (c ∷ line) (suc n) h = get_or_line line n (omega arith)

is_long_line : (line : Bytes) → IsShortLine line → is_long (line ++ (10 ∷ [])) ≡ false
unfolding is_long
is_long_line line h =
    rw (c_str_line line h.1) (ground (arith, length-append line (10 ∷ []), get_or_line line 254))

trim_newline_line : (line : Bytes) → trim_newline (line ++ (10 ∷ [])) ≡ line
unfolding trim_newline
trim_newline_line [] = refl
trim_newline_line (c ∷ []) = refl
trim_newline_line (c ∷ d ∷ line) = ap (◌∷◌ c) (trim_newline_line (d ∷ line))

trim_newline_none : (line : Bytes) → All IsLineByte line → trim_newline line ≡ line
unfolding trim_newline
trim_newline_none [] a = refl
trim_newline_none (c ∷ []) a = ground arith
trim_newline_none (c ∷ d ∷ line) a = ap (◌∷◌ c) (trim_newline_none (d ∷ line) a.1)

c_str_none : (line : Bytes) → All IsLineByte line → c_str line ≡ line
unfolding before
c_str_none [] a = refl
c_str_none (c ∷ line) a = ground (arith, c_str_none line a.1)

clean_line_line :
    (line : Bytes) → All IsLineByte line → clean_line (line ++ (10 ∷ [])) ≡ clean_line line
unfolding clean_line
clean_line_line line a =
    rw (c_str_line line a, c_str_none line a, trim_newline_line line, trim_newline_none line a)

module _ (L : AclLibrary) where
  acl_buffer_line :
      (line : Bytes) (r : Reader L)
      → All IsLineByte line
      → acl_buffer L (line ++ (10 ∷ [])) r ≡ acl_buffer L line r
  unfolding acl_buffer
  acl_buffer_line line r a = rw (clean_line_line line a)

  read_acl-unlines :
      (fuel : ℕ) (lines : List Bytes) (r : Reader L)
      → All IsShortLine lines
      → length (unlines lines) < fuel
      → read_acl L fuel (unlines lines) r ≡ acl_lines L lines r
  unfolding read_acl acl_lines unlines
  read_acl-unlines zero lines r a h = elim h [ ]
  read_acl-unlines (suc fuel) [] r a h = unfold fgets in refl
  read_acl-unlines (suc fuel) (line ∷ lines) r a h =
      rw (fgets_line line (unlines lines) a.0, is_long_line line a.0, read_acl)
        (rw (acl_buffer_line line r a.0.1) (
          read_acl-unlines fuel lines (acl_buffer L line r) a.1
            (omega (arith, length-append line (10 ∷ unlines lines)))))

  -- On a file whose lines have at most 254 bytes and no NUL, `init_acl` takes the lines one by one
  -- in their order, starting in the black list section with empty lists: none is dropped, joined
  -- or split, and the fuel of the model suffices.
  pub init_acl-unlines :
      (mode : AclMode) (lines : List Bytes)
      → All IsShortLine lines
      → init_acl L mode (unlines lines)
        ≡ (acl_lines L lines (record {
          acl = record {
            black_lists = empty_lists L;
            white_lists = empty_lists L;
            outbound_lists = empty_lists L;
            acl_mode = mode;
          };
          current = black;
        })).acl
  unfolding init_acl
  init_acl-unlines mode lines a =
      ap (λ (r : Reader L). r.acl) (read_acl-unlines _ lines _ a (omega arith))
