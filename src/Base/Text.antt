-- ===== src/Base/Text.antt =====
-- C strings: the bytes before the terminating NUL, as a list of numbers, and what the program uses
-- of the C library's string functions.
use Prim.Native.Char.{code}
use Prim.Native.Nat.{ℕ, zero, suc, ◌+◌, ◌-◌, ◌/◌, ◌%◌}
use Prim.Native.String.{String}
use mathlib.Core.Bool.{Bool, true, false, ◌&&◌, ◌||◌}
use mathlib.Core.List.{List, [], ◌∷◌}
use mathlib.Core.Option.{Option, none, some}
use mathlib.Core.Path.{◌≡◌, refl}
use native.Mathlib.Omega.{arith}
use outline_multiport_server.Base.Tests.{◌==◌, leb, if◌then◌else◌}
use outline_multiport_server.Base.Lists.{take}

abbrev pub Bytes : Type 0
Bytes = List ℕ

-- The bytes of an ASCII text.
abbrev pub codes : String → Bytes
codes String.[] = []
codes (String.◌∷◌ c s) = code c ∷ codes s

-- `strcmp(a, b) == 0`

unfoldable pub str_eq : Bytes → Bytes → Bool
str_eq [] [] = true
str_eq [] (b ∷ bs) = false
str_eq (a ∷ as') [] = false
str_eq (a ∷ as') (b ∷ bs) = (a == b) && str_eq as' bs

pub str_eq_refl : (a : Bytes) → str_eq a a ≡ true
unfolding str_eq
str_eq_refl [] = refl
str_eq_refl (a ∷ s) = ground (arith, str_eq_refl s)

pub str_eq→eq : (a b : Bytes) → str_eq a b ≡ true → a ≡ b
unfolding str_eq
str_eq→eq [] [] h = refl
str_eq→eq [] (b ∷ t) h = cc
str_eq→eq (a ∷ s) [] h = cc
str_eq→eq (a ∷ s) (b ∷ t) h = ground (arith, str_eq→eq s t)

-- `s[0] == '\0'`
abbrev pub is_empty : Bytes → Bool
is_empty [] = true
is_empty (c ∷ s) = false

-- `strncpy(dst, s, n); dst[n] = '\0'`, read back as a C string.
abbrev pub strncpy : Bytes → ℕ → Bytes
strncpy s n = take n s

-- `isspace` in the C locale.
abbrev pub isspace : ℕ → Bool
isspace c = c == 32 || (leb 9 c && leb c 13)

abbrev pub isdigit : ℕ → Bool
isdigit c = leb b'0' c && leb c b'9'

-- `strchr(s, c)`: the position of the first `c`.
unfoldable pub strchr : Bytes → ℕ → Option ℕ
strchr [] c = none
strchr (a ∷ s) c = elim (a == c) [
  | true ↦ some 0
  | false ↦ elim (strchr s c) [ none ↦ none | some i ↦ some (suc i) ]
]

-- The text before the first `c`.
unfoldable pub before : ℕ → Bytes → Bytes
before c [] = []
before c (a ∷ s) = if a == c then [] else a ∷ before c s

-- The part of a byte array before its first NUL.
abbrev pub c_str : Bytes → Bytes
c_str = before 0

-- A number in decimal, by its digits from the last; `fuel` bounds their count.
unfoldable pub decimal_digits : ℕ → ℕ → Bytes → Bytes
decimal_digits zero n acc = acc
decimal_digits (suc fuel) n acc =
    let digit = b'0' + n % 10 in
    let rest = decimal_digits fuel (n / 10) (digit ∷ acc) in
    if n / 10 == 0 then digit ∷ acc else rest

-- `%d` and `%u` of `printf` on a number that is not negative.
unfoldable pub decimal : ℕ → Bytes
unfolding decimal_digits
decimal n = decimal_digits (suc n) n []

-- What `fgets` reads into a buffer that has room for `n` bytes, and what it leaves.
unfoldable pub fgets_loop : ℕ → Bytes → Bytes × Bytes
fgets_loop zero s = ([], s)
fgets_loop (suc n) [] = ([], [])
fgets_loop (suc n) (c ∷ s) = elim (c == 10) [
  | true ↦ (c ∷ [], s)
  | false ↦ let r = fgets_loop n s in (c ∷ r.0, r.1)
]

-- `fgets(buf, size, f)`: `none` at the end of the file.
unfoldable pub fgets : ℕ → Bytes → Option (Bytes × Bytes)
unfolding fgets_loop
fgets size [] = none
fgets size (c ∷ s) = some (fgets_loop (size - 1) (c ∷ s))
