-- ===== src/Prelude/Bits.antt =====
-- The binary digits of numbers, and those of `bit_and` and `bit_or`.
use chton.Prelude.Tests.{◌==◌, if◌then◌else◌}
use Prim.Native.Nat.{
  ℕ, zero, suc, ◌+◌, ◌-◌, ◌*◌, ◌/◌, ◌%◌, ◌^◌, ◌≤◌, ◌<◌, min, max, digits, bit_and, bit_or,
  bit_and-bitwise, bit_or-bitwise,
}
use mathlib.Core.Path.{◌≡◌, refl, sym, ap, ◌∙◌}
use native.Mathlib.Omega.{arith}

-- The digit of `2 ^ j`.
unfoldable pub bit_at : ℕ → ℕ → ℕ
bit_at a zero = a % 2
bit_at a (suc j) = bit_at (a / 2) j

-- Enough digits to go give the same.
digits_enough :
    (z : ℕ → ℕ) (f : ℕ → ℕ → ℕ) (n m a b : ℕ) → a ≤ n → a ≤ m → digits z f n a b ≡ digits z f m a b
digits_enough z f zero zero zero b h h' = refl
digits_enough z f zero (suc m) zero b h h' = refl
digits_enough z f (suc n) zero zero b h h' = refl
digits_enough z f (suc n) (suc m) zero b h h' = refl
digits_enough z f (suc n) (suc m) (suc a) b h h' =
    ap (λ (x : ℕ). x * 2 + f (suc a % 2) (b % 2))
      (digits_enough z f n m (suc a / 2) (b / 2) (omega arith) (omega arith))
digits_enough z f zero m (suc a) b h h' = absurd (omega arith)
digits_enough z f (suc n) zero (suc a) b h h' = absurd (omega arith)

zero_and : (b : ℕ) → bit_and 0 b ≡ 0
zero_and b = bit_and-bitwise 0 b

zero_or : (b : ℕ) → bit_or 0 b ≡ b
zero_or b = bit_or-bitwise 0 b

pow_suc : (k : ℕ) → 2 ^ suc k ≡ 2 * 2 ^ k
pow_suc k = omega arith

pub pow-pos : (k : ℕ) → 0 < 2 ^ k
pow-pos zero = omega arith
pow-pos (suc k) = omega (arith, pow_suc k, pow-pos k)

pow_lt : (k n : ℕ) → k < n → 2 ^ k < 2 ^ n
pow_lt k zero h = absurd (omega arith)
pow_lt zero (suc n) h = omega (arith, pow_suc n, pow-pos n)
pow_lt (suc k) (suc n) h = omega (arith, pow_suc k, pow_suc n, pow_lt k n (omega arith))

times_twice : (b p q : ℕ) → b ≤ 1 → q ≡ 2 * p → b * q ≡ 2 * (b * p)
times_twice zero p q h e = omega arith
times_twice (suc zero) p q h e = omega arith
times_twice (suc (suc b)) p q h e = absurd (omega arith)

bit_and-step : (a b : ℕ) → bit_and a b ≡ bit_and (a / 2) (b / 2) * 2 + min (a % 2) (b % 2)
bit_and-step zero b = omega (arith, zero_and b, zero_and (b / 2))
bit_and-step (suc a) b =
    bit_and-bitwise (suc a) b
    ∙ ap (λ (x : ℕ). x * 2 + min (suc a % 2) (b % 2))
        (digits_enough (λ b. zero) min a (suc a / 2) (suc a / 2) (b / 2) (omega arith) (omega arith)
          ∙ sym (bit_and-bitwise (suc a / 2) (b / 2)))

bit_or-step : (a b : ℕ) → bit_or a b ≡ bit_or (a / 2) (b / 2) * 2 + max (a % 2) (b % 2)
bit_or-step zero b = omega (arith, zero_or b, zero_or (b / 2))
bit_or-step (suc a) b =
    bit_or-bitwise (suc a) b
    ∙ ap (λ (x : ℕ). x * 2 + max (suc a % 2) (b % 2))
        (digits_enough (λ b. b) max a (suc a / 2) (suc a / 2) (b / 2) (omega arith) (omega arith)
          ∙ sym (bit_or-bitwise (suc a / 2) (b / 2)))

bit_at-and : (a b j : ℕ) → bit_at (bit_and a b) j ≡ min (bit_at a j) (bit_at b j)
unfolding bit_at
bit_at-and a b zero = omega (arith, bit_and-step a b)
bit_at-and a b (suc j) =
    let half : bit_and a b / 2 ≡ bit_and (a / 2) (b / 2) = omega (arith, bit_and-step a b) in
    ap (λ (x : ℕ). bit_at x j) half ∙ bit_at-and (a / 2) (b / 2) j

bit_at-or : (a b j : ℕ) → bit_at (bit_or a b) j ≡ max (bit_at a j) (bit_at b j)
unfolding bit_at
bit_at-or a b zero = omega (arith, bit_or-step a b)
bit_at-or a b (suc j) =
    let half : bit_or a b / 2 ≡ bit_or (a / 2) (b / 2) = omega (arith, bit_or-step a b) in
    ap (λ (x : ℕ). bit_at x j) half ∙ bit_at-or (a / 2) (b / 2) j

bit_at-le : (a j : ℕ) → bit_at a j ≤ 1
unfolding bit_at
bit_at-le a zero = omega arith
bit_at-le a (suc j) = bit_at-le (a / 2) j

pub bit_at_zero : (j : ℕ) → bit_at 0 j ≡ 0
unfolding bit_at
bit_at_zero zero = refl
bit_at_zero (suc j) = bit_at_zero j

bit_at-pow : (k j : ℕ) → bit_at (2 ^ k) j ≡ (if j == k then 1 else 0)
unfolding bit_at
bit_at-pow zero zero = refl
bit_at-pow zero (suc j) = ground (arith, bit_at_zero j)
bit_at-pow (suc k) zero = ground (arith, pow_suc k)
bit_at-pow (suc k) (suc j) =
    let half : 2 ^ suc k / 2 ≡ 2 ^ k = omega (arith, pow_suc k) in
    let down : bit_at (2 ^ suc k / 2) j ≡ bit_at (2 ^ k) j = ap (λ (x : ℕ). bit_at x j) half in
    ground (arith, down, bit_at-pow k j)

bit_at-complement : (n x j : ℕ) → x < 2 ^ n → j < n → bit_at (2 ^ n - 1 - x) j ≡ 1 - bit_at x j
unfolding bit_at
bit_at-complement zero x j h h' = absurd (omega arith)
bit_at-complement (suc n) x zero h h' = omega arith
bit_at-complement (suc n) x (suc j) h h' =
    let half : (2 ^ suc n - 1 - x) / 2 ≡ 2 ^ n - 1 - x / 2 = omega arith in
    ap (λ (y : ℕ). bit_at y j) half ∙ bit_at-complement n (x / 2) j (omega arith) (omega arith)

bit_and-zero : (a : ℕ) → bit_and a 0 ≡ 0
bit_and-zero a = bit_and-bitwise a 0 ∙ none_left a a
  where
    none_left : (n a : ℕ) → digits (λ b. zero) min n a 0 ≡ 0
    none_left zero a = refl
    none_left (suc n) zero = refl
    none_left (suc n) (suc a) = omega (arith, none_left n (suc a / 2))

-- The test of one bit.
pub bit_and-pow : (a k : ℕ) → bit_and a (2 ^ k) ≡ bit_at a k * 2 ^ k
unfolding bit_at
bit_and-pow a zero = omega (arith, bit_and-step a 1, bit_and-zero (a / 2))
bit_and-pow a (suc k) =
    let half : 2 ^ suc k / 2 ≡ 2 ^ k = omega (arith, pow_suc k) in
    let down : bit_and (a / 2) (2 ^ suc k / 2) ≡ bit_at (a / 2) k * 2 ^ k =
      ap (λ (x : ℕ). bit_and (a / 2) x) half ∙ bit_and-pow (a / 2) k in
    let twice : bit_at (a / 2) k * 2 ^ suc k ≡ 2 * (bit_at (a / 2) k * 2 ^ k) =
      times_twice (bit_at (a / 2) k) (2 ^ k) (2 ^ suc k) (bit_at-le (a / 2) k) (pow_suc k) in
    omega (arith, bit_and-step a (2 ^ suc k), pow_suc k, down, twice)

-- Bit `k` of a byte cleared or set, of the eight.
pub bit_at-clear :
    (x k j : ℕ)
    → k < 8
    → j < 8
    → bit_at (bit_and x (255 - 2 ^ k)) j ≡ (if j == k then 0 else bit_at x j)
bit_at-clear x k j h h' =
    let small : 2 ^ k < 256 = pow_lt k 8 h in
    ground (
      arith,
      bit_at-and x (255 - 2 ^ k) j,
      bit_at-complement 8 (2 ^ k) j small h',
      bit_at-pow k j,
      bit_at-le x j,
    )

pub bit_at-set : (x k j : ℕ) → bit_at (bit_or x (2 ^ k)) j ≡ (if j == k then 1 else bit_at x j)
bit_at-set x k j = ground (arith, bit_at-or x (2 ^ k) j, bit_at-pow k j, bit_at-le x j)
