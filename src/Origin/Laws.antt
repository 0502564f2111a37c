-- ===== src/Origin/Laws.antt =====
-- What the layers above rely on: a working medium is a byte memory with a length, which reads as
-- zero beyond its length, reads short at its end, and extends with zeros when written past it.
use chton.Prelude.{ℕ, ◌+◌, ◌-◌, ◌^◌, ◌≤◌, ◌<◌, ◌≡◌, min, max, List, ◌++◌, length, drop}
use chton.Prelude.Outcome.{ok, done}
use chton.Prelude.Bytes.{bytes_at, patch}
use chton.Origin.{Origin}

-- A buffer after the first `n` bytes of `m` from `off` on were copied to its front.
abbrev pub fill : (ℕ → ℕ) → ℕ → ℕ → List ℕ → List ℕ
fill m off n buf = bytes_at m off n ++ drop n buf

-- A write that succeeds, by its effect.
pub record Written {S : Type 0} (o : Origin S) (byte : S → ℕ → ℕ) (off : ℕ) (xs : List ℕ) (s : S)
    : Type 0 where
  pub after : S
  pub returns : o.write off xs s ≡ done tt after
  pub len_after : o.len after ≡ max (o.len s) (off + length xs)
  pub byte_after : (i : ℕ) → byte after i ≡ patch (byte s) off xs i

pub record Flushed {S : Type 0} (o : Origin S) (byte : S → ℕ → ℕ) (s : S) : Type 0 where
  pub after : S
  pub returns : o.flush s ≡ done tt after
  pub len_after : o.len after ≡ o.len s
  pub byte_after : (i : ℕ) → byte after i ≡ byte s i

pub record IsMedium {S : Type 0} (o : Origin S) (byte : S → ℕ → ℕ) : Type 0 where
  pub reads :
      (s : S) (off : ℕ) (buf : List ℕ)
      → let n = min (o.len s - off) (length buf) in
        o.read s off buf ≡ ok (fill (byte s) off n buf, n)
  pub writes : (s : S) (off : ℕ) (xs : List ℕ) → off + length xs < 2 ^ 64 → Written o byte off xs s
  pub flushes : (s : S) → Flushed o byte s
  pub zero_beyond : (s : S) (i : ℕ) → o.len s ≤ i → byte s i ≡ 0
