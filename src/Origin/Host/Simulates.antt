-- ===== src/Origin/Host/Simulates.antt =====
-- Origins beside a memory origin with the same bytes.
use chton.Prelude.{
  ℕ, ◌+◌, ◌-◌, ◌^◌, ◌≤◌, ◌<◌, ◌≡◌, ◌⊎◌, inl, inr, min, max, List, [], length, take-append-drop,
  arith, leb, ltb, false, Bool-cases,
}
use chton.Prelude.Splice.{splice, length-splice}
use chton.Prelude.Outcome.{Result, ok, Outcome, done, failed}
use chton.Origin.{OriginError, out_of_bounds}
use chton.Origin.Memory.{MemoryOrigin, grown}
use chton.Origin.Host.{delivered}
use chton.Origin.Memory.Medium.{length-grown}
use chton.Origin.Memory

abbrev pub holding : List ℕ → MemoryOrigin
holding xs = record { bytes = xs }

-- `Shows s xs` says that the state `s` has the bytes `xs`; `Allowed` restricts the writes. `Agrees`
-- is what a read delivers beside what memory delivers, and `refusal` the error of a write that would
-- end at 2 ^ 64 or beyond.
pub record Simulates {F S E : Type 0} (contents : F → List ℕ)
    (open_file : Result ℕ F → Result OriginError S) (len : S → ℕ)
    (read : S → ℕ → List ℕ → Result E (List ℕ × ℕ))
    (write : ℕ → List ℕ → S → Outcome S E (Unit {0})) (flush : S → Outcome S E (Unit {0}))
    (Shows : S → List ℕ → Type 0) (Allowed : List ℕ → ℕ → List ℕ → Type 0)
    (Agrees : List ℕ × ℕ → List ℕ × ℕ → Type 0) (refusal : ℕ → E) : Type 0 where
  pub opens : (f : F) → (s : S) × (open_file (ok f) ≡ ok s) × Shows s (contents f)
  pub same_len : (s : S) (xs : List ℕ) → Shows s xs → len s ≡ length xs
  pub same_read :
      (s : S) (xs : List ℕ) (offset : ℕ) (buf : List ℕ)
      → Shows s xs
      → (r whole : List ℕ × ℕ) × (read s offset buf ≡ ok r)
        × (Memory.read (holding xs) offset buf ≡ ok whole)
        × Agrees r whole
  pub same_write :
      (s : S) (xs : List ℕ) (offset : ℕ) (data_bytes : List ℕ)
      → Shows s xs
      → Allowed xs offset data_bytes
      → (offset + length data_bytes < 2 ^ 64)
          × ((s' : S) × (ys : List ℕ) × (write offset data_bytes s ≡ done tt s')
              × (Memory.write offset data_bytes (holding xs) ≡ done tt (holding ys))
              × Shows s' ys)
        ⊎ (2 ^ 64 ≤ offset + length data_bytes)
          × (write offset data_bytes s ≡ failed (refusal offset) s)
          × (Memory.write offset data_bytes (holding xs)
              ≡ failed (out_of_bounds offset (2 ^ 64 - 1)) (holding xs))
  pub same_flush :
      (s : S) (xs : List ℕ) → Shows s xs → (s' : S) × (flush s ≡ done tt s') × Shows s' xs

-- The bytes after a write.
abbrev pub stored : ℕ → List ℕ → List ℕ → List ℕ
stored offset data_bytes xs = splice (grown xs (offset + length data_bytes)) offset data_bytes

pub stored_nothing : (offset : ℕ) (xs : List ℕ) → offset ≤ length xs → stored offset [] xs ≡ xs
stored_nothing offset xs h =
    let whole : ltb (length xs) (offset + 0) ≡ false = ground arith in
    let same : offset + 0 ≡ offset = omega arith in rw (whole, same, take-append-drop offset xs)

pub length-stored :
    (offset : ℕ) (data_bytes xs : List ℕ)
    → length (stored offset data_bytes xs) ≡ max (length xs) (offset + length data_bytes)
length-stored offset data_bytes xs =
    let end = offset + length data_bytes in
    omega (
      arith,
      length-grown xs end,
      length-splice (grown xs end) offset data_bytes (omega (arith, length-grown xs end)),
    )

-- What a memory origin delivers and stores.
pub memory_delivers :
    (xs : List ℕ) (offset : ℕ) (buf : List ℕ)
    → Memory.read (holding xs) offset buf ≡ ok (delivered offset xs buf)
unfolding Memory.read
memory_delivers xs offset buf = elim (Bool-cases (leb (length xs) offset)) [
  | inl past ↦
      let nothing : min (length xs - offset) (length buf) ≡ 0 = ground arith in rw (past, nothing)
  | inr before ↦ rw before
]

pub memory_stores :
    (xs : List ℕ) (offset : ℕ) (data_bytes : List ℕ)
    → offset + length data_bytes < 2 ^ 64
    → Memory.write offset data_bytes (holding xs) ≡ done tt (holding (stored offset data_bytes xs))
unfolding Memory.write
memory_stores xs offset data_bytes fits = ground (arith, fits)

pub memory_refuses :
    (xs : List ℕ) (offset : ℕ) (data_bytes : List ℕ)
    → 2 ^ 64 ≤ offset + length data_bytes
    → Memory.write offset data_bytes (holding xs)
      ≡ failed (out_of_bounds offset (2 ^ 64 - 1)) (holding xs)
unfolding Memory.write
memory_refuses xs offset data_bytes past = ground (arith, past)
