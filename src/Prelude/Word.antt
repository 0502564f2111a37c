-- ===== src/Prelude/Word.antt =====
-- 64-bit words in a byte memory, and what a write leaves alone.
use chton.Prelude.Lists.{length}
use chton.Prelude.Bytes.{to_le, from_le, length-to_le, from_le-to_le, bytes_at, patch}
use chton.Prelude.Bytes.{bytes_at_ext, bytes_at-patch}
use Prim.Native.Nat.{ℕ, zero, suc, ◌+◌, ◌^◌, ◌≤◌, ◌<◌}
use mathlib.Core.Path.{◌≡◌, refl, ap, ◌∙◌}
use mathlib.Core.Logic.{◌⊎◌, inl, inr}
use mathlib.Core.List.{List}
use native.Mathlib.Omega.{arith}

unfoldable pub word : (ℕ → ℕ) → ℕ → ℕ
word m pos = from_le (bytes_at m pos 8)

-- `k` differs from `m` at most in `[lo, lo + size)`.
abbrev pub Keeps : (ℕ → ℕ) → (ℕ → ℕ) → ℕ → ℕ → Type 0
Keeps m k lo size = (i : ℕ) → (i < lo) ⊎ (lo + size ≤ i) → k i ≡ m i

-- Two regions do not meet.
abbrev pub Apart : ℕ → ℕ → ℕ → ℕ → Type 0
Apart a x b y = (a + x ≤ b) ⊎ (b + y ≤ a)

pub bytes_at-Keeps :
    (m k : ℕ → ℕ) (lo size off n : ℕ)
    → Keeps m k lo size
    → Apart lo size off n
    → bytes_at k off n ≡ bytes_at m off n
bytes_at-Keeps m k lo size off n kept (inl h) =
    bytes_at_ext k m off n (λ i p q. kept i (inr (omega arith)))
bytes_at-Keeps m k lo size off n kept (inr h) =
    bytes_at_ext k m off n (λ i p q. kept i (inl (omega arith)))

pub word-Keeps :
    (m k : ℕ → ℕ) (lo size pos : ℕ)
    → Keeps m k lo size
    → Apart lo size pos 8
    → word k pos ≡ word m pos
unfolding word
word-Keeps m k lo size pos kept h = ap from_le (bytes_at-Keeps m k lo size pos 8 kept h)

-- A patched memory, pointwise.
pub patch-Keeps :
    (m k : ℕ → ℕ) (off : ℕ) (xs : List ℕ)
    → ((i : ℕ) → k i ≡ patch m off xs i)
    → Keeps m k off (length xs)
patch-Keeps m k off xs h i (inl p) = ground (arith, h i)
patch-Keeps m k off xs h i (inr p) = ground (arith, h i)

pub bytes_at-patch_self :
    (m k : ℕ → ℕ) (off : ℕ) (xs : List ℕ)
    → ((i : ℕ) → k i ≡ patch m off xs i)
    → bytes_at k off (length xs) ≡ xs
bytes_at-patch_self m k off xs h = bytes_at-patch k off xs (λ i p q. ground (arith, h i))

pub word-patch_self :
    (m k : ℕ → ℕ) (off v : ℕ)
    → v < 2 ^ 64
    → ((i : ℕ) → k i ≡ patch m off (to_le 8 v) i)
    → word k off ≡ v
unfolding word
word-patch_self m k off v small h =
    rw length-to_le at (ap from_le (bytes_at-patch_self m k off (to_le 8 v) h))
    ∙ from_le-to_le 8 v small

bytes_at-zero :
    (m : ℕ → ℕ) (off n : ℕ)
    → ((i : ℕ) → off ≤ i → i < off + n → m i ≡ 0)
    → from_le (bytes_at m off n) ≡ 0
unfolding from_le
bytes_at-zero m off zero h = refl
bytes_at-zero m off (suc n) h = omega (
  arith,
  h off (omega arith) (omega arith),
  bytes_at-zero m (suc off) n (λ i p q. h i (omega arith) (omega arith)),
)

pub word-zero : (m : ℕ → ℕ) (pos : ℕ) → ((i : ℕ) → pos ≤ i → i < pos + 8 → m i ≡ 0) → word m pos ≡ 0
unfolding word
word-zero m pos h = bytes_at-zero m pos 8 h
