-- ===== src/Prelude/Bytes.antt =====
-- Little-endian words, as `to_le_bytes` and `from_le_bytes` lay them out, and runs of bytes of a
-- memory that is given by its byte at each address.
use chton.Prelude.Lists.{length, get_or, All}
use chton.Prelude.Tests.{ltb, leb, if◌then◌else◌}
use Prim.Native.Nat.{ℕ, zero, suc, ◌+◌, ◌-◌, ◌*◌, ◌/◌, ◌%◌, ◌^◌, ◌≤◌, ◌<◌}
use mathlib.Core.Path.{◌≡◌, refl, ap, ap₂, ◌∙◌}
use mathlib.Core.Bool.{◌&&◌}
use mathlib.Core.List.{List, [], ◌∷◌}
use native.Mathlib.Nat.{pow-suc}
use native.Mathlib.Omega.{arith}

abbrev pub IsByte : ℕ → Type 0
IsByte b = b < 256

-- The `w` low bytes of a number, the lowest first.
unfoldable pub to_le : ℕ → ℕ → List ℕ
to_le zero v = []
to_le (suc w) v = v % 256 ∷ to_le w (v / 256)

unfoldable pub from_le : List ℕ → ℕ
from_le [] = 0
from_le (b ∷ bs) = b + 256 * from_le bs

pub length-to_le : (w v : ℕ) → length (to_le w v) ≡ w
unfolding to_le
length-to_le zero v = refl
length-to_le (suc w) v = ap suc (length-to_le w (v / 256))

pub to_le-IsByte : (w v : ℕ) → All IsByte (to_le w v)
unfolding to_le
to_le-IsByte zero v = tt
to_le-IsByte (suc w) v = (omega arith, to_le-IsByte w (v / 256))

pub from_le-to_le : (w v : ℕ) → v < 256 ^ w → from_le (to_le w v) ≡ v
unfolding from_le to_le
from_le-to_le zero v h = omega arith
from_le-to_le (suc w) v h = omega (arith, from_le-to_le w (v / 256) (omega (arith, pow-suc 256 w)))

-- The `n` bytes of a memory from `off` on.
abbrev pub bytes_at : (ℕ → ℕ) → ℕ → ℕ → List ℕ
bytes_at m off zero = []
bytes_at m off (suc n) = m off ∷ bytes_at m (suc off) n

pub length-bytes_at : (m : ℕ → ℕ) (off n : ℕ) → length (bytes_at m off n) ≡ n
length-bytes_at m off zero = refl
length-bytes_at m off (suc n) = ap suc (length-bytes_at m (suc off) n)

pub get_or-bytes_at :
    (m : ℕ → ℕ) (off n i : ℕ) → i < n → get_or (bytes_at m off n) i 0 ≡ m (off + i)
get_or-bytes_at m off zero i h = absurd (omega arith)
get_or-bytes_at m off (suc n) zero h = ap m (omega arith)
get_or-bytes_at m off (suc n) (suc i) h =
    get_or-bytes_at m (suc off) n i (omega arith) ∙ ap m (omega arith)

-- Runs agree where the memories do.
pub bytes_at_ext :
    (m k : ℕ → ℕ) (off n : ℕ)
    → ((i : ℕ) → off ≤ i → i < off + n → m i ≡ k i)
    → bytes_at m off n ≡ bytes_at k off n
bytes_at_ext m k off zero h = refl
bytes_at_ext m k off (suc n) h =
    ap₂ ◌∷◌ (h off (omega arith) (omega arith))
      (bytes_at_ext m k (suc off) n (λ i p q. h i (omega arith) (omega arith)))

-- The memory after `xs` is written at `off`.
abbrev pub patch : (ℕ → ℕ) → ℕ → List ℕ → ℕ → ℕ
patch m off xs i = if leb off i && ltb i (off + length xs) then get_or xs (i - off) 0 else m i

-- What was just written reads back.
pub bytes_at-patch :
    (k : ℕ → ℕ) (off : ℕ) (xs : List ℕ)
    → ((i : ℕ) → off ≤ i → i < off + length xs → k i ≡ get_or xs (i - off) 0)
    → bytes_at k off (length xs) ≡ xs
bytes_at-patch k off [] h = refl
bytes_at-patch k off (x ∷ xs) h =
    ap₂ ◌∷◌ (h off (omega arith) (omega arith) ∙ ap (λ t. get_or (x ∷ xs) t 0) zero_diff) (
      bytes_at-patch k (suc off) xs
        (λ i p q. h i (omega arith) (omega arith) ∙ ap (λ t. get_or (x ∷ xs) t 0) (suc_diff i p)))
  where
    zero_diff : off - off ≡ 0
    zero_diff = omega arith

    suc_diff : (i : ℕ) → suc off ≤ i → i - off ≡ suc (i - suc off)
    suc_diff i p = omega arith
