-- ===== src/Origin/Block.antt =====
-- The block seam of chton/src/origin/block.rs: `BlockSlice`, a block that a host holds in memory.
-- The borrowed slice is the state; the view that `bytes` hands out is the slice itself, so the
-- aliasing contract of the unsafe trait is not modelled. The forward-only rule of a real part
-- belongs to the format above, which the source says too.
pub mod Laws
use chton.Prelude.{ℕ, ◌+◌, ◌-◌, ◌^◌, List, length, replicate, ltb, leb, if◌then◌else◌, ◌&&◌}
use chton.Prelude.Splice.{splice}
use chton.Prelude.Outcome.{Outcome, done, failed}
use chton.Origin.{OriginError, out_of_bounds}

-- The value an erased byte holds.
abbrev pub erased : ℕ
erased = 0xff

pub record BlockSlice : Type 0 where
  pub region : List ℕ

abbrev pub new : List ℕ → BlockSlice
new region = record { region = region }

abbrev pub bytes : BlockSlice → List ℕ
bytes s = s.region

-- `checked_add` fails from 2 ^ 64 on, and the filter beyond the region.
unfoldable pub write : ℕ → List ℕ → BlockSlice → Outcome BlockSlice OriginError (Unit {0})
write at xs s =
    let end = at + length xs in
    if ltb end (2 ^ 64) && leb end (length s.region)
    then done tt (record { region = splice s.region at xs })
    else failed (out_of_bounds at (length xs)) s

-- `saturating_sub` is the subtraction of ℕ: with `to` below `from` nothing is erased.
unfoldable pub erase : ℕ → ℕ → BlockSlice → Outcome BlockSlice OriginError (Unit {0})
erase from to s =
    let len = to - from in
    let end = from + len in
    if ltb end (2 ^ 64) && (leb end (length s.region) && leb from end)
    then done tt (record { region = splice s.region from (replicate len erased) })
    else failed (out_of_bounds from len) s
