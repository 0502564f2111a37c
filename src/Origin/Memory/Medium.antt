-- ===== src/Origin/Memory/Medium.antt =====
-- `MemoryOrigin` offers what the layers above rely on.
use chton.Prelude.{
  ℕ, ◌+◌, ◌-◌, ◌^◌, ◌≤◌, ◌<◌, ◌≡◌, refl, ap, min, max, List, length, take, drop, replicate,
}
use chton.Prelude.{ltb, leb, if◌then◌else◌, arith, get_or, lt→ltb, ◌∙◌, ◌&&◌, Bool-cases, inl, inr}
use chton.Prelude.{length-append, length-take, length-drop, length-replicate}
use chton.Prelude.{
  get_or-append, get_or-take, get_or-drop, get_or-replicate, get_or_beyond, get_or_ext,
}
use chton.Prelude.Splice.{splice, length-splice, get_or-splice}
use chton.Prelude.Outcome.{ok}
use chton.Prelude.Bytes.{bytes_at, patch, length-bytes_at, get_or-bytes_at}
use chton.Origin.Laws.{IsMedium, Written, fill}
use chton.Origin.Memory.{MemoryOrigin, memory_origin, read, write, grown}

abbrev pub byte_of : MemoryOrigin → ℕ → ℕ
byte_of s i = get_or s.bytes i 0

pub length-grown : (xs : List ℕ) (end : ℕ) → length (grown xs end) ≡ max (length xs) end
length-grown xs end =
    let pad : List ℕ = replicate (end - length xs) 0 in
    ground (arith, length-append xs pad, length-replicate {A = ℕ} (end - length xs) 0)

get_or-grown : (xs : List ℕ) (end i : ℕ) → get_or (grown xs end) i 0 ≡ get_or xs i 0
get_or-grown xs end i = ground (
  arith,
  get_or-append xs (replicate (end - length xs) 0) i 0,
  get_or-replicate {A = ℕ} (end - length xs) 0 (i - length xs),
  get_or_beyond xs i 0,
)

slice-bytes_at :
    (xs : List ℕ) (off n : ℕ)
    → off + n ≤ length xs
    → take n (drop off xs) ≡ bytes_at (λ i. get_or xs i 0) off n
slice-bytes_at xs off n h = get_or_ext 0 _ _ same_length λ i p. ground (
  arith,
  same_length,
  length-bytes_at (λ i. get_or xs i 0) off n,
  get_or-take n (drop off xs) i 0,
  get_or-drop off xs i 0,
  get_or-bytes_at (λ i. get_or xs i 0) off n i,
)
  where
    same_length : length (take n (drop off xs)) ≡ length (bytes_at (λ i. get_or xs i 0) off n)
    same_length = omega (
      arith,
      length-take n (drop off xs),
      length-drop off xs,
      length-bytes_at (λ i. get_or xs i 0) off n,
    )

-- At and beyond the end nothing is delivered; before it, what is there.
memory-reads :
    (s : MemoryOrigin) (off : ℕ) (buf : List ℕ)
    → let n = min (length s.bytes - off) (length buf) in
      read s off buf ≡ ok (fill (byte_of s) off n buf, n)
unfolding read
memory-reads s off buf = elim (Bool-cases (leb (length s.bytes) off)) [
  | inl past ↦
      let nothing : min (length s.bytes - off) (length buf) ≡ 0 = ground arith in rw (past, nothing)
  | inr before ↦
      let n = min (length s.bytes - off) (length buf) in
      rw (before, slice-bytes_at s.bytes off n (ground arith))
]

memory-byte_after :
    (s : MemoryOrigin) (off : ℕ) (xs : List ℕ) (i : ℕ)
    → get_or (splice (grown s.bytes (off + length xs)) off xs) i 0 ≡ patch (byte_of s) off xs i
memory-byte_after s off xs i =
    let end = off + length xs in
    let region = grown s.bytes end in
    get_or-splice region off xs i (omega (arith, length-grown s.bytes end))
    ∙ ap (λ (t : ℕ). if leb off i && ltb i end then get_or xs (i - off) 0 else t)
        (get_or-grown s.bytes end i)

memory-writes :
    (s : MemoryOrigin) (off : ℕ) (xs : List ℕ)
    → off + length xs < 2 ^ 64
    → Written memory_origin byte_of off xs s
unfolding write
memory-writes s off xs h =
    let end = off + length xs in
    let region = grown s.bytes end in
    record {
      after = record { bytes = splice region off xs };
      returns = rw (lt→ltb end (2 ^ 64) h);
      len_after = omega (
        arith,
        length-grown s.bytes end,
        length-splice region off xs (omega (arith, length-grown s.bytes end)),
      );
      byte_after = λ i. memory-byte_after s off xs i;
    }

-- A memory origin is a medium: it reads what was written, extends with zeros, reads short at its
-- end and has zero bytes beyond it.
pub memory-IsMedium : IsMedium memory_origin byte_of
memory-IsMedium = record {
  reads = memory-reads;
  writes = memory-writes;
  flushes = λ s. record { after = s; returns = refl; len_after = refl; byte_after = λ i. refl };
  zero_beyond = λ s i h. get_or_beyond s.bytes i 0 h;
}
