-- ===== src/Base/Lists.antt =====
-- Lists measured and indexed by native numbers, under the library's names.
use Prim.Native.Nat.{ℕ, zero, suc, ◌+◌, ◌-◌, ◌≤◌, ◌<◌, min}
use mathlib.Core.Path.{◌≡◌, refl, sym, ap, ◌∙◌}
use mathlib.Core.List.{List, [], ◌∷◌, ◌++◌}
use mathlib.Core.Option.{Option, none, some}
use mathlib.Core.Bool.{Bool, true, false}
use native.Mathlib.Omega.{arith}

module _ {ℓ} {A : Type ℓ} where
  abbrev pub length : List A → ℕ
  length [] = 0
  length (x ∷ xs) = suc (length xs)

  abbrev pub get_elem? : List A → ℕ → Option A
  get_elem? [] i = none
  get_elem? (x ∷ xs) zero = some x
  get_elem? (x ∷ xs) (suc i) = get_elem? xs i

  -- A write out of bounds changes nothing.
  abbrev pub set : List A → ℕ → A → List A
  set [] i v = []
  set (x ∷ xs) zero v = v ∷ xs
  set (x ∷ xs) (suc i) v = x ∷ set xs i v

  abbrev pub get_or : List A → ℕ → A → A
  get_or [] i d = d
  get_or (x ∷ xs) zero d = x
  get_or (x ∷ xs) (suc i) d = get_or xs i d

  abbrev pub take : ℕ → List A → List A
  take zero xs = []
  take (suc n) [] = []
  take (suc n) (x ∷ xs) = x ∷ take n xs

  abbrev pub drop : ℕ → List A → List A
  drop zero xs = xs
  drop (suc n) [] = []
  drop (suc n) (x ∷ xs) = drop n xs

  abbrev pub replicate : ℕ → A → List A
  replicate zero a = []
  replicate (suc n) a = a ∷ replicate n a

  -- Those elements that pass a Boolean test, in order.
  abbrev pub select : (A → Bool) → List A → List A
  select p [] = []
  select p (x ∷ xs) = elim (p x) [ true ↦ x ∷ select p xs | false ↦ select p xs ]

  abbrev pub All {κ} : (A → Type κ) → List A → Type κ
  All P [] = Unit {κ}
  All P (x ∷ xs) = P x × All P xs

module _ {ℓ} {A : Type ℓ} where
  pub length-append : (xs ys : List A) → length (xs ++ ys) ≡ length xs + length ys
  length-append [] ys = omega arith
  length-append (x ∷ xs) ys = omega (arith, length-append xs ys)

  pub length-set : (xs : List A) (i : ℕ) (v : A) → length (set xs i v) ≡ length xs
  length-set [] i v = refl
  length-set (x ∷ xs) zero v = refl
  length-set (x ∷ xs) (suc i) v = ap suc (length-set xs i v)

  pub take-append-drop : (n : ℕ) (xs : List A) → take n xs ++ drop n xs ≡ xs
  take-append-drop zero xs = refl
  take-append-drop (suc n) [] = refl
  take-append-drop (suc n) (x ∷ xs) = ap (◌∷◌ x) (take-append-drop n xs)

  pub length-take : (n : ℕ) (xs : List A) → length (take n xs) ≡ min n (length xs)
  length-take zero xs = omega arith
  length-take (suc n) [] = omega arith
  length-take (suc n) (x ∷ xs) = omega (arith, length-take n xs)

  pub length-drop : (n : ℕ) (xs : List A) → length (drop n xs) ≡ length xs - n
  length-drop zero xs = omega arith
  length-drop (suc n) [] = omega arith
  length-drop (suc n) (x ∷ xs) = omega (arith, length-drop n xs)

  pub take_of_length-le : (k : ℕ) (ys : List A) → length ys ≤ k → take k ys ≡ ys
  take_of_length-le zero [] fits = refl
  take_of_length-le (suc k) [] fits = refl
  take_of_length-le zero (y ∷ ys) fits = absurd (omega arith)
  take_of_length-le (suc k) (y ∷ ys) fits =
      let rest = take_of_length-le k ys (omega arith) in ap (λ zs. y ∷ zs) rest

  pub take_append_length : (n : ℕ) (xs ys : List A) → length xs ≡ n → take n (xs ++ ys) ≡ xs
  take_append_length zero [] ys h = refl
  take_append_length zero (x ∷ xs) ys h = absurd (omega arith)
  take_append_length (suc n) [] ys h = absurd (omega arith)
  take_append_length (suc n) (x ∷ xs) ys h = ap (◌∷◌ x) (take_append_length n xs ys (omega arith))

  pub drop_append_length : (n : ℕ) (xs ys : List A) → length xs ≡ n → drop n (xs ++ ys) ≡ ys
  drop_append_length zero [] ys h = refl
  drop_append_length zero (x ∷ xs) ys h = absurd (omega arith)
  drop_append_length (suc n) [] ys h = absurd (omega arith)
  drop_append_length (suc n) (x ∷ xs) ys h = drop_append_length n xs ys (omega arith)

  pub length-select-le : (p : A → Bool) (xs : List A) → length (select p xs) ≤ length xs
  length-select-le p [] = omega arith
  length-select-le p (x ∷ xs) = ground (arith, length-select-le p xs)

  -- One more element, at either end of a split.
  pub take-suc :
      (n : ℕ) (xs : List A) (d : A)
      → n < length xs
      → take (suc n) xs ≡ take n xs ++ (get_or xs n d ∷ [])
  take-suc n [] d h = elim h [ ]
  take-suc zero (x ∷ xs) d h = refl
  take-suc (suc n) (x ∷ xs) d h = ap (◌∷◌ x) (take-suc n xs d (omega arith))

  pub drop-suc :
      (n : ℕ) (xs : List A) (d : A) → n < length xs → drop n xs ≡ get_or xs n d ∷ drop (suc n) xs
  drop-suc n [] d h = elim h [ ]
  drop-suc zero (x ∷ xs) d h = refl
  drop-suc (suc n) (x ∷ xs) d h = drop-suc n xs d (omega arith)

  pub drop-set_lt : (n i : ℕ) (xs : List A) (v : A) → i < n → drop n (set xs i v) ≡ drop n xs
  drop-set_lt zero i xs v h = elim h [ ]
  drop-set_lt (suc n) i [] v h = refl
  drop-set_lt (suc n) zero (x ∷ xs) v h = refl
  drop-set_lt (suc n) (suc i) (x ∷ xs) v h = drop-set_lt n i xs v (omega arith)

  pub take-set_self :
      (n : ℕ) (xs : List A) (v : A)
      → n < length xs
      → take (suc n) (set xs n v) ≡ take n xs ++ (v ∷ [])
  take-set_self n [] v h = elim h [ ]
  take-set_self zero (x ∷ xs) v h = refl
  take-set_self (suc n) (x ∷ xs) v h = ap (◌∷◌ x) (take-set_self n xs v (omega arith))

  pub take-set_le : (n i : ℕ) (xs : List A) (v : A) → n ≤ i → take n (set xs i v) ≡ take n xs
  take-set_le zero i xs v h = refl
  take-set_le (suc n) i [] v h = refl
  take-set_le (suc n) zero (x ∷ xs) v h = elim h [ ]
  take-set_le (suc n) (suc i) (x ∷ xs) v h = ap (◌∷◌ x) (take-set_le n i xs v (omega arith))

  pub set-get_or : (i : ℕ) (xs : List A) (d : A) → set xs i (get_or xs i d) ≡ xs
  set-get_or i [] d = refl
  set-get_or zero (x ∷ xs) d = refl
  set-get_or (suc i) (x ∷ xs) d = ap (◌∷◌ x) (set-get_or i xs d)

  pub take-take_le : (n m : ℕ) (xs : List A) → n ≤ m → take n (take m xs) ≡ take n xs
  take-take_le zero m xs h = refl
  take-take_le (suc n) zero xs h = elim h [ ]
  take-take_le (suc n) (suc m) [] h = refl
  take-take_le (suc n) (suc m) (x ∷ xs) h = ap (◌∷◌ x) (take-take_le n m xs (omega arith))

  -- The list without the element at an index.
  abbrev pub erase_idx : ℕ → List A → List A
  erase_idx i xs = take i xs ++ drop (suc i) xs

  pub take-erase_idx :
      (i m : ℕ) (xs : List A) → i ≤ m → take m (erase_idx i xs) ≡ erase_idx i (take (suc m) xs)
  take-erase_idx zero zero [] h = refl
  take-erase_idx zero zero (x ∷ xs) h = refl
  take-erase_idx zero (suc m) [] h = refl
  take-erase_idx zero (suc m) (x ∷ xs) h = refl
  take-erase_idx (suc i) zero xs h = elim h [ ]
  take-erase_idx (suc i) (suc m) [] h = refl
  take-erase_idx (suc i) (suc m) (x ∷ xs) h = ap (◌∷◌ x) (take-erase_idx i m xs (omega arith))

  -- A shorter front does not see what was appended.
  pub take-append-le : (n : ℕ) (xs ys : List A) → n ≤ length xs → take n (xs ++ ys) ≡ take n xs
  take-append-le zero xs ys h = refl
  take-append-le (suc n) [] ys h = absurd (omega arith)
  take-append-le (suc n) (x ∷ xs) ys h = ap (◌∷◌ x) (take-append-le n xs ys (omega arith))

  pub drop-drop : (n m : ℕ) (xs : List A) → drop n (drop m xs) ≡ drop (m + n) xs
  drop-drop n zero xs = ap (λ k. drop k xs) (omega arith)
  drop-drop zero (suc m) [] = nil (suc m + 0)
    where
      nil : (k : ℕ) → ◌≡◌ {A = List A} [] (drop k [])
      nil zero = refl
      nil (suc k) = refl
  drop-drop (suc n) (suc m) [] = nil (suc m + suc n)
    where
      nil : (k : ℕ) → ◌≡◌ {A = List A} [] (drop k [])
      nil zero = refl
      nil (suc k) = refl
  drop-drop n (suc m) (x ∷ xs) =
      let same : suc (m + n) ≡ suc m + n = omega arith in
      drop-drop n m xs ∙ ap (λ k. drop k (x ∷ xs)) same

  pub drop-take : (n m : ℕ) (xs : List A) → drop n (take m xs) ≡ take (m - n) (drop n xs)
  drop-take zero m xs = ap (λ k. take k xs) (omega arith)
  drop-take (suc n) zero xs =
      let same : 0 ≡ 0 - suc n = omega arith in ap (λ k. take k (drop (suc n) xs)) same
  drop-take (suc n) (suc m) [] = nil (suc m - suc n)
    where
      nil : (k : ℕ) → ◌≡◌ {A = List A} [] (take k [])
      nil zero = refl
      nil (suc k) = refl
  drop-take (suc n) (suc m) (x ∷ xs) =
      let same : m - n ≡ suc m - suc n = omega arith in
      drop-take n m xs ∙ ap (λ k. take k (drop n xs)) same

  pub select-true :
      (p : A → Bool) (x : A) (xs : List A) → p x ≡ true → select p (x ∷ xs) ≡ x ∷ select p xs
  select-true p x xs h = ground (arith, h)

  pub select-false :
      (p : A → Bool) (x : A) (xs : List A) → p x ≡ false → select p (x ∷ xs) ≡ select p xs
  select-false p x xs h = ground (arith, h)

  -- Two splits of one list whose ends have one length are the same.
  pub append_eq-length :
      (xs ys as' bs : List A)
      → xs ++ as' ≡ ys ++ bs
      → length as' ≡ length bs
      → (xs ≡ ys) × (as' ≡ bs)
  append_eq-length xs ys as' bs h size =
      let whole = ap length h in
      let left = length-append xs as' in
      let right = length-append ys bs in
      let same : length ys ≡ length xs = omega arith in
      (
        sym (take_append_length (length xs) xs as' refl)
            ∙ ap (take (length xs)) h
            ∙ take_append_length (length xs) ys bs same,
        sym (drop_append_length (length xs) xs as' refl)
            ∙ ap (drop (length xs)) h
            ∙ drop_append_length (length xs) ys bs same,
      )

  -- A front, taken in two parts.
  pub take-split :
      (n m : ℕ) (xs : List A) → n ≤ m → take n xs ++ take (m - n) (drop n xs) ≡ take m xs
  take-split zero m xs h = ap (λ k. take k xs) (omega arith)
  take-split (suc n) zero xs h = absurd (omega arith)
  take-split (suc n) (suc m) [] h = go (suc m - suc n)
    where
      go : (k : ℕ) → ◌≡◌ {A = List A} (take k []) []
      go zero = refl
      go (suc k) = refl
  take-split (suc n) (suc m) (x ∷ xs) h =
      let same : suc m - suc n ≡ m - n = omega arith in
      ap (λ k. x ∷ (take n xs ++ take k (drop n xs))) same
      ∙ ap (◌∷◌ x) (take-split n m xs (omega arith))

  pub take-length-take : (n : ℕ) (xs : List A) → take (length (take n xs)) xs ≡ take n xs
  take-length-take zero xs = refl
  take-length-take (suc n) [] = refl
  take-length-take (suc n) (x ∷ xs) = ap (◌∷◌ x) (take-length-take n xs)
