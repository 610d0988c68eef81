-- ===== src/Base/Int.antt =====
-- The signed numbers that the program compares and returns, and `atoi`.
use outline_multiport_server.Base.{
  ℕ, ◌+◌, ◌-◌, ◌*◌, Bool, true, false, [], ◌∷◌, Bytes, isspace, isdigit, ◌==◌, if◌then◌else◌,
}

-- `negsuc n` is -(n + 1).
pub data ℤ : Type 0 where
  pos : ℕ → ℤ
  negsuc : ℕ → ℤ

abbrev pub neg : ℕ → ℤ
neg n = if n == 0 then pos 0 else negsuc (n - 1)

abbrev pub is_nonneg : ℤ → Bool
is_nonneg (pos n) = true
is_nonneg (negsuc n) = false

-- The value of the leading digits.
atoi_digits : ℕ → Bytes → ℕ
atoi_digits acc [] = acc
atoi_digits acc (c ∷ s) = elim (isdigit c) [
  | true ↦ atoi_digits (acc * 10 + (c - b'0')) s
  | false ↦ acc
]

atoi_signed : Bytes → ℤ
unfolding atoi_digits
atoi_signed [] = pos 0
atoi_signed (c ∷ s) =
    if c == b'-'
    then neg (atoi_digits 0 s)
    else if c == b'+'
    then pos (atoi_digits 0 s)
    else pos (atoi_digits 0 (c ∷ s))

-- `atoi`, on texts whose value fits an `int`.
unfoldable pub atoi : Bytes → ℤ
unfolding atoi_signed
atoi [] = pos 0
atoi (c ∷ s) = elim (isspace c) [ true ↦ atoi s | false ↦ atoi_signed (c ∷ s) ]
