-- ===== src/Origin/Host/File/Laws.antt =====
-- A file origin beside a memory origin with the same bytes.
use chton.Prelude.{
  ℕ, ◌+◌, ◌^◌, ◌≤◌, ◌<◌, ◌≡◌, ◌⊎◌, inl, inr, max, List, [], ◌∷◌, ap₂, length, arith, refl, ◌∙◌, sym,
  subst,
}
use native.Mathlib.Decide.{dec_lt}
use chton.Prelude.Outcome.{ok, done}
use chton.Origin.{unsupported}
use chton.Origin.Memory.{grown}
use chton.Origin.Memory
use chton.Origin.Host.{Host, HostLaws, Succeeds, IsStart, delivered}
use chton.Origin.Host.File.{FileOrigin, open_file, len, read, write, flush}
use chton.Origin.Host.Simulates.{
  Simulates, holding, stored, stored_nothing, length-stored, memory_delivers, memory_stores,
  memory_refuses,
}

module _ (h : Host) (contents : h.File → List ℕ) (position : h.File → ℕ) where
  -- The length that the origin keeps is that of its file.
  pub record Shows (s : FileOrigin h) (xs : List ℕ) : Type 0 where
    pub known_len : s.len ≡ length xs
    pub known_contents : contents s.file ≡ xs

-- Not an empty write past the end.
abbrev pub Touches : List ℕ → ℕ → List ℕ → Type 0
Touches xs offset data_bytes = (0 < length data_bytes) ⊎ (offset ≤ length xs)

module _ {h : Host} {contents : h.File → List ℕ} {position : h.File → ℕ}
    (laws : HostLaws h contents position) where
  file_opens :
      (f : h.File)
      → (s : FileOrigin h) × (open_file h (ok f) ≡ ok s) × Shows h contents position s (contents f)
  unfolding open_file
  file_opens f = (
    record { file = f; len = length (contents f) },
    ground (arith, laws.len_known f),
    record { known_len = refl; known_contents = refl },
  )

  file-read :
      (s : FileOrigin h) (xs : List ℕ) (offset : ℕ) (buf : List ℕ)
      → Shows h contents position s xs
      → (r whole : List ℕ × ℕ) × (read h s offset buf ≡ ok r)
        × (Memory.read (holding xs) offset buf ≡ ok whole)
        × IsStart r whole
  unfolding read
  file-read s xs offset buf shows =
      let (at, placed) = laws.seeks s.file offset in
      let (r, got, start) = laws.reads at.after buf in
      (
        r,
        delivered offset xs buf,
        ground (arith, at.returns, got.returns),
        memory_delivers xs offset buf,
        subst (IsStart r)
            (ap₂ (λ (p : ℕ) (c : List ℕ). delivered p c buf) placed
              (at.contents_after ∙ shows.known_contents))
            start,
      )

  file-stored :
      (f : h.File) (xs : List ℕ) (offset : ℕ) (data_bytes : List ℕ)
      → position f ≡ offset
      → contents f ≡ xs
      → Touches xs offset data_bytes
      → Succeeds contents (h.write_all data_bytes) f tt (stored offset data_bytes xs)
  file-stored f xs offset [] placed known (inl some_byte) = absurd (omega arith)
  file-stored f xs offset [] placed known (inr inside) =
      let put = laws.writes_nothing f [] refl in
      record {
        after = put.after;
        returns = put.returns;
        contents_after = put.contents_after ∙ known ∙ sym (stored_nothing offset xs inside);
      }
  file-stored f xs offset (b ∷ bytes) placed known touches =
      let put = laws.writes f (b ∷ bytes) (omega arith) in
      record {
        after = put.after;
        returns = put.returns;
        contents_after =
            put.contents_after ∙ ap₂ (λ (p : ℕ) (c : List ℕ). stored p (b ∷ bytes) c) placed known;
      }

  file-write :
      (s : FileOrigin h) (xs : List ℕ) (offset : ℕ) (data_bytes : List ℕ)
      → Shows h contents position s xs
      → Touches xs offset data_bytes
      → offset + length data_bytes < 2 ^ 64
      → (s' : FileOrigin h) × (ys : List ℕ) × (write h offset data_bytes s ≡ done tt s')
        × (Memory.write offset data_bytes (holding xs) ≡ done tt (holding ys))
        × Shows h contents position s' ys
  unfolding write
  file-write s xs offset data_bytes shows touches fits =
      let (at, placed) = laws.seeks s.file offset in
      let put =
        file-stored at.after xs offset data_bytes placed (at.contents_after ∙ shows.known_contents)
          touches in
      let end = offset + length data_bytes in
      (
        record { file = put.after; len = max (length xs) end },
        stored offset data_bytes xs,
        ground (arith, fits, at.returns, put.returns, shows.known_len),
        memory_stores xs offset data_bytes fits,
        record {
          known_len = sym (length-stored offset data_bytes xs);
          known_contents = put.contents_after;
        },
      )

  file-flush :
      (s : FileOrigin h) (xs : List ℕ)
      → Shows h contents position s xs
      → (s' : FileOrigin h) × (flush h s ≡ done tt s') × Shows h contents position s' xs
  unfolding flush
  file-flush s xs shows =
      let first = laws.flushes s.file in
      let second = laws.syncs first.after in
      (
        record { file = second.after; len = s.len },
        ground (arith, first.returns, second.returns),
        record {
          known_len = shows.known_len;
          known_contents = second.contents_after ∙ first.contents_after ∙ shows.known_contents;
        },
      )

  -- On a host whose calls succeed, opening a file gives an origin with its bytes and length. Beside a
  -- memory origin with the same bytes, an origin whose length is that of its file has the same length;
  -- a read returns a start of what memory delivers, which may be short but is not empty unless that
  -- is; a write that ends below 2 ^ 64, and is not an empty one that begins past the end, leaves the
  -- bytes that memory has; a flush leaves the bytes alone. A write that would end at 2 ^ 64 or beyond
  -- changes nothing: the file origin refuses it as unsupported, memory as out of bounds.
  pub file-Simulates :
      Simulates contents
        (open_file h)
        (len h)
        (read h)
        (write h)
        (flush h)
        (Shows h contents position)
        Touches
        IsStart
        (λ offset. unsupported)
  unfolding write
  file-Simulates = record {
    opens = file_opens;
    same_len = λ s xs shows. shows.known_len;
    same_read = file-read;
    same_write = λ s xs offset data_bytes shows touches.
        elim (dec_lt (offset + length data_bytes) (2 ^ 64)) [
          | yes fits ↦ inl (fits, file-write s xs offset data_bytes shows touches fits)
          | no past ↦
              inr (
                omega arith,
                ground (arith, past),
                memory_refuses xs offset data_bytes (omega arith),
              )
        ];
    same_flush = file-flush;
  }
