-- ===== src/Store/Digits.antt =====
-- The digits that `encode_general` extracts determine the value that they were extracted from.
use chton.Prelude.{
  ℕ, zero, suc, ◌+◌, ◌*◌, ◌<◌, ◌≤◌, ◌≡◌, List, [], ◌∷◌, All, length, set, get_or, arith, refl, true,
  ◌∙◌, sym, ap,
}
use chton.Prelude.Bytes.{IsByte}
use chton.Store.Key.{divmod_11172, digits_loop, all_zero}
use chton.Store.Division.{from_be, divmod_11172-from_be}

pub length-set {ℓ} : {A : Type ℓ} (xs : List A) (i : ℕ) (v : A) → length (set xs i v) ≡ length xs
length-set [] i v = refl
length-set (x ∷ xs) zero v = refl
length-set (x ∷ xs) (suc i) v = ap suc (length-set xs i v)

get_or-set_self : (xs : List ℕ) (i v : ℕ) → i < length xs → get_or (set xs i v) i 0 ≡ v
get_or-set_self [] i v h = absurd (omega arith)
get_or-set_self (x ∷ xs) zero v h = refl
get_or-set_self (x ∷ xs) (suc i) v h = get_or-set_self xs i v (omega arith)

get_or-set_above : (xs : List ℕ) (i j v : ℕ) → i < j → get_or (set xs i v) j 0 ≡ get_or xs j 0
get_or-set_above [] i j v h = refl
get_or-set_above (x ∷ xs) i zero v h = absurd (omega arith)
get_or-set_above (x ∷ xs) zero (suc j) v h = refl
get_or-set_above (x ∷ xs) (suc i) (suc j) v h = get_or-set_above xs i j v (omega arith)

pub length-digits_loop :
    (left : ℕ) (value digits : List ℕ) → length (digits_loop left value digits).0 ≡ length digits
unfolding digits_loop
length-digits_loop zero value digits = refl
length-digits_loop (suc left) value digits =
    length-digits_loop left (divmod_11172 value).0 (set digits left (divmod_11172 value).1)
    ∙ length-set digits left (divmod_11172 value).1

-- Digits from `left` on are not written any more.
digits_loop_above :
    (left j : ℕ) (value digits : List ℕ)
    → left ≤ j
    → get_or (digits_loop left value digits).0 j 0 ≡ get_or digits j 0
unfolding digits_loop
digits_loop_above zero j value digits h = refl
digits_loop_above (suc left) j value digits h =
    digits_loop_above left j (divmod_11172 value).0 (set digits left (divmod_11172 value).1)
      (omega arith)
    ∙ get_or-set_above digits left j (divmod_11172 value).1 (omega arith)

from_be_zero : (n : ℕ) (bs : List ℕ) → n ≡ 0 → all_zero bs ≡ true → from_be n bs ≡ 0
unfolding from_be
from_be_zero n [] e z = e
from_be_zero n (b ∷ bs) e z =
    let first : b ≡ 0 = ground (arith, z) in
    from_be_zero (n * 256 + b) bs (omega arith) (ground (arith, z))

-- Two values with the same digits, and nothing left over, are the same number.
pub digits_loop-injective :
    (left : ℕ) (value other digits digits' : List ℕ)
    → All IsByte value
    → All IsByte other
    → left ≤ length digits
    → left ≤ length digits'
    → ((j : ℕ)
        → j < left
        → get_or (digits_loop left value digits).0 j 0
          ≡ get_or (digits_loop left other digits').0 j 0)
    → all_zero (digits_loop left value digits).1 ≡ true
    → all_zero (digits_loop left other digits').1 ≡ true
    → from_be 0 value ≡ from_be 0 other
unfolding digits_loop
digits_loop-injective zero value other ds ds' bytes bytes' h h' same z z' =
    from_be_zero 0 value refl z ∙ sym (from_be_zero 0 other refl z')
digits_loop-injective (suc left) value other ds ds' bytes bytes' h h' same z z' =
    let a = divmod_11172 value in
    let b = divmod_11172 other in
    let (total, less, quotient) = divmod_11172-from_be value bytes in
    let (total', less', quotient') = divmod_11172-from_be other bytes' in
    let rest =
      digits_loop-injective left a.0 b.0 (set ds left a.1) (set ds' left b.1) quotient quotient'
        (omega (arith, length-set ds left a.1)) (omega (arith, length-set ds' left b.1))
        (λ j l. same j (omega arith)) z z' in
    let digit : a.1 ≡ b.1 =
      sym (get_or-set_self ds left a.1 (omega arith))
      ∙ sym (digits_loop_above left left a.0 (set ds left a.1) (omega arith))
      ∙ same left (omega arith)
      ∙ digits_loop_above left left b.0 (set ds' left b.1) (omega arith)
      ∙ get_or-set_self ds' left b.1 (omega arith) in
    omega (arith, total, total', rest, digit)

from_be-injective :
    (n m : ℕ) (xs ys : List ℕ)
    → All IsByte xs
    → All IsByte ys
    → length xs ≡ length ys
    → from_be n xs ≡ from_be m ys
    → (n ≡ m) × (xs ≡ ys)
unfolding from_be
from_be-injective n m [] [] b b' l e = (e, refl)
from_be-injective n m [] (y ∷ ys) b b' l e = absurd (omega arith)
from_be-injective n m (x ∷ xs) [] b b' l e = absurd (omega arith)
from_be-injective n m (x ∷ xs) (y ∷ ys) (b, bs) (b', bs') l e =
    let (front, rest) =
      from_be-injective (n * 256 + x) (m * 256 + y) xs ys bs bs' (omega arith) e in
    let first : x ≡ y = omega (arith, front) in (omega (arith, front), cc)

-- Strings of bytes of one length that stand for the same number are the same.
pub from_be_same :
    (xs ys : List ℕ)
    → All IsByte xs
    → All IsByte ys
    → length xs ≡ length ys
    → from_be 0 xs ≡ from_be 0 ys
    → xs ≡ ys
from_be_same xs ys b b' l e = (from_be-injective 0 0 xs ys b b' l e).1
