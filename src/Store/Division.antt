-- ===== src/Store/Division.antt =====
-- `divmod_11172` divides a big-endian number by 11172.
use chton.Prelude.{ℕ, ◌+◌, ◌*◌, ◌/◌, ◌%◌, ◌^◌, ◌<◌, ◌≡◌, Bool, true, false}
use chton.Prelude.{List, [], ◌∷◌, All, arith, refl, sym, subst, Bool-cases, inl, inr}
use native.Mathlib.Decide.{ℕ_discrete}
use chton.Prelude.Bytes.{IsByte}
use chton.Store.Key.{base, divide, or_zero, divmod_11172}

-- The number that bytes stand for behind a number, the most significant first.
unfoldable pub from_be : ℕ → List ℕ → ℕ
from_be n [] = n
from_be n (b ∷ bs) = from_be (n * 256 + b) bs

from_be-or_zero : (qs : List ℕ) → from_be 0 (or_zero qs) ≡ from_be 0 qs
unfolding from_be
from_be-or_zero [] = refl
from_be-or_zero (q ∷ qs) = refl

or_zero-IsByte : (qs : List ℕ) → All IsByte qs → All IsByte (or_zero qs)
or_zero-IsByte [] bytes = (omega arith, tt)
or_zero-IsByte (q ∷ qs) bytes = bytes

-- What `n`, continued by bytes, is: the quotient, `before` continued by the digits of `out`, times
-- the base, and the remainder of `out`.
abbrev Divides : ℕ → ℕ → List ℕ × ℕ → Type 0
Divides before total out =
    (total ≡ from_be before out.0 * base + out.1) × (out.1 < base) × All IsByte out.0

divide_push :
    (b rem : ℕ) (bs : List ℕ) (started : Bool)
    → b < 256
    → rem < base
    → ((rem * 256 + b) / base ≡ 0 → started ≡ true)
    → divide (b ∷ bs) rem started ≡ (
      (rem * 256 + b) / base ∷ (divide bs ((rem * 256 + b) % base) true).0,
      (divide bs ((rem * 256 + b) % base) true).1,
    )
unfolding divide
divide_push b rem bs started byte small h =
    let word : (rem * 256 + b) % 2 ^ 32 ≡ rem * 256 + b = omega arith in
    let digit : (rem * 256 + b) / base % 2 ^ 8 ≡ (rem * 256 + b) / base = omega arith in
    elim (ℕ_discrete ((rem * 256 + b) / base) 0) [
      | yes z ↦ ground (arith, word, digit, h z)
      | no n ↦ ground (arith, word, digit)
    ]

divide_skip :
    (b rem : ℕ) (bs : List ℕ)
    → b < 256
    → rem < base
    → (rem * 256 + b) / base ≡ 0
    → divide (b ∷ bs) rem false ≡ divide bs ((rem * 256 + b) % base) false
unfolding divide
divide_skip b rem bs byte small z =
    let word : (rem * 256 + b) % 2 ^ 32 ≡ rem * 256 + b = omega arith in ground (arith, word)

-- The loop, behind a quotient `before` with the remainder `rem`; it is 0 until digits are pushed.
divide_lem :
    (bs : List ℕ) (before rem n : ℕ) (started : Bool)
    → All IsByte bs
    → rem < base
    → n ≡ before * base + rem
    → (started ≡ false → before ≡ 0)
    → Divides before (from_be n bs) (divide bs rem started)
unfolding from_be divide
divide_lem [] before rem n started bytes small e fresh = (e, small, tt)
divide_lem (b ∷ bs) before rem n started (byte, bytes) small e fresh =
    let q = (rem * 256 + b) / base in
    let r = (rem * 256 + b) % base in
    let push = λ (h : q ≡ 0 → started ≡ true).
      let (total, less, digits) =
        divide_lem bs (before * 256 + q) r (n * 256 + b) true bytes (omega arith) (omega arith)
          (λ f. absurd (ground (arith, f))) in
      subst (λ (out : List ℕ × ℕ). Divides before (from_be (n * 256 + b) bs) out)
        (sym (divide_push b rem bs started byte small h)) (total, less, (omega arith, digits)) in
    elim (Bool-cases started) [
      | inl on ↦ push (λ z. on)
      | inr off ↦ elim (ℕ_discrete q 0) [
        | no m ↦ push (λ z. absurd (m z))
        | yes z ↦
            let none_before : before ≡ 0 = fresh off in
            subst (λ (x : Bool). Divides before (from_be (n * 256 + b) bs) (divide (b ∷ bs) rem x))
              (sym off)
              (subst (λ (out : List ℕ × ℕ). Divides before (from_be (n * 256 + b) bs) out)
                (sym (divide_skip b rem bs byte small z))
                (divide_lem bs before r (n * 256 + b) false bytes (omega arith) (omega arith)
                  (λ f. none_before)))
      ]
    ]

-- The bytes of a number divide into those of its quotient by 11172, which are bytes again, and its
-- remainder, which is below 11172.
pub divmod_11172-from_be :
    (value : List ℕ)
    → All IsByte value
    → (from_be 0 value ≡ from_be 0 (divmod_11172 value).0 * base + (divmod_11172 value).1)
      × ((divmod_11172 value).1 < base)
      × All IsByte (divmod_11172 value).0
unfolding divmod_11172
divmod_11172-from_be value bytes =
    let (total, less, digits) =
      divide_lem value 0 0 0 false bytes (omega arith) (omega arith) (λ f. refl) in
    let same = from_be-or_zero (divide value 0 false).0 in
    let low : (divide value 0 false).1 % 2 ^ 16 ≡ (divide value 0 false).1 = omega (arith, less) in
    (
      omega (arith, total, same, low),
      omega (arith, less, low),
      or_zero-IsByte (divide value 0 false).0 digits,
    )
