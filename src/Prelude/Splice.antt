-- ===== src/Prelude/Splice.antt =====
-- `region[off..off + xs.len()].copy_from_slice(xs)`, for a range inside the region.
use chton.Prelude.Lists.{length, get_or, take, drop, length-append, length-take, length-drop}
use chton.Prelude.Lists.{get_or-append, get_or-take, get_or-drop}
use chton.Prelude.Bytes.{patch}
use Prim.Native.Nat.{ℕ, ◌+◌, ◌-◌, ◌≤◌}
use mathlib.Core.Path.{◌≡◌}
use mathlib.Core.List.{List, ◌++◌}
use native.Mathlib.Omega.{arith}

abbrev pub splice : List ℕ → ℕ → List ℕ → List ℕ
splice region off xs = take off region ++ (xs ++ drop (off + length xs) region)

pub length-splice :
    (region : List ℕ) (off : ℕ) (xs : List ℕ)
    → off + length xs ≤ length region
    → length (splice region off xs) ≡ length region
length-splice region off xs h = omega (
  arith,
  length-append (take off region) (xs ++ drop (off + length xs) region),
  length-append xs (drop (off + length xs) region),
  length-take off region,
  length-drop (off + length xs) region,
)

pub get_or-splice :
    (region : List ℕ) (off : ℕ) (xs : List ℕ) (i : ℕ)
    → off + length xs ≤ length region
    → get_or (splice region off xs) i 0 ≡ patch (λ j. get_or region j 0) off xs i
get_or-splice region off xs i h =
    let rest = xs ++ drop (off + length xs) region in
    ground (
      arith,
      get_or-append (take off region) rest i 0,
      get_or-append xs (drop (off + length xs) region) (i - off) 0,
      get_or-take off region i 0,
      get_or-drop (off + length xs) region (i - off - length xs) 0,
      length-take off region,
    )
