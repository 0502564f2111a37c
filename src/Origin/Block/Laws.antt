-- ===== src/Origin/Block/Laws.antt =====
-- A block is written and erased exactly in the range that is named, and never changes its length.
use chton.Prelude.{ℕ, ◌+◌, ◌-◌, ◌^◌, ◌≤◌, ◌<◌, ◌≡◌, ◌⊎◌, List, length, get_or, replicate, arith}
use chton.Prelude.{true, refl, ltb, leb, inl, inr, Bool-cases, length-replicate, leb→le}
use chton.Prelude.Bytes.{patch}
use chton.Prelude.Splice.{splice, length-splice, get_or-splice}
use chton.Prelude.Outcome.{Outcome, done, failed}
use chton.Origin.{OriginError, out_of_bounds}
use chton.Origin.Block.{BlockSlice, write, erase, erased}

abbrev pub BlockOutcome : Type 0
BlockOutcome = Outcome BlockSlice OriginError (Unit {0})

-- The call succeeded: the bytes of the range are `xs`, all others and the length are kept.
pub record IsWritten (at : ℕ) (xs : List ℕ) (s : BlockSlice) (out : BlockOutcome) : Type 0 where
  pub after : BlockSlice
  pub returns : out ≡ done tt after
  pub same_length : length after.region ≡ length s.region
  pub bytes_after : (i : ℕ) → get_or after.region i 0 ≡ patch (λ j. get_or s.region j 0) at xs i

spliced :
    (at : ℕ) (xs : List ℕ) (s : BlockSlice)
    → at + length xs ≤ length s.region
    → IsWritten at xs s (done tt (record { region = splice s.region at xs }))
spliced at xs s fits = record {
  after = record { region = splice s.region at xs };
  returns = refl;
  same_length = length-splice s.region at xs fits;
  bytes_after = λ i. get_or-splice s.region at xs i fits;
}

-- In a region of fewer than 2 ^ 64 bytes, a write inside the region stores its bytes there and nowhere else; any other is refused, with
-- the range in the error, and changes nothing.
pub write_exact :
    (at : ℕ) (xs : List ℕ) (s : BlockSlice)
    → length s.region < 2 ^ 64
    → (at + length xs ≤ length s.region) × IsWritten at xs s (write at xs s)
      ⊎ (length s.region < at + length xs)
        × (write at xs s ≡ failed (out_of_bounds at (length xs)) s)
unfolding write
write_exact at xs s small = elim (Bool-cases (leb (at + length xs) (length s.region))) [
  | inl fits ↦
      let inside : at + length xs ≤ length s.region = leb→le _ _ fits in
      let no_wrap : ltb (at + length xs) (2 ^ 64) ≡ true = ground arith in
      inl (inside, rw (no_wrap, fits) (spliced at xs s inside))
  | inr beyond ↦ inr (ground arith, ground arith)
]

-- In a region of fewer than 2 ^ 64 bytes, an erase of `[from, to)` inside the region sets exactly those bytes to 0xff, none if `to` is
-- not above `from`; one that begins or ends beyond the region is refused and changes nothing.
pub erase_exact :
    (from to : ℕ) (s : BlockSlice)
    → length s.region < 2 ^ 64
    → (from + (to - from) ≤ length s.region)
        × IsWritten from (replicate (to - from) erased) s (erase from to s)
      ⊎ (length s.region < from + (to - from))
        × (erase from to s ≡ failed (out_of_bounds from (to - from)) s)
unfolding erase
erase_exact from to s small = elim (Bool-cases (leb (from + (to - from)) (length s.region))) [
  | inl fits ↦
      let inside : from + (to - from) ≤ length s.region = leb→le _ _ fits in
      let no_wrap : ltb (from + (to - from)) (2 ^ 64) ≡ true = ground arith in
      let ordered : leb from (from + (to - from)) ≡ true = ground arith in
      let same : length (replicate (to - from) erased) ≡ to - from = length-replicate _ _ in
      inl (
        inside,
        rw (no_wrap, fits, ordered)
            (spliced from (replicate (to - from) erased) s (rw same inside)),
      )
  | inr beyond ↦ inr (ground arith, ground arith)
]
