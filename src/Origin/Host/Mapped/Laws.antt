-- ===== src/Origin/Host/Mapped/Laws.antt =====
-- A mapped-file origin beside a memory origin with the same bytes.
use chton.Prelude.{
  ℕ, ◌+◌, ◌-◌, ◌^◌, ◌≤◌, ◌<◌, ◌≡◌, ◌⊎◌, inl, inr, min, none, some, List, [], ◌∷◌, length, arith,
  refl, ap, ◌∙◌, sym, subst, leb, Bool-cases,
}
use native.Mathlib.Decide.{dec_lt}
use chton.Prelude.Splice.{splice}
use chton.Prelude.Outcome.{ok, done, error}
use chton.Origin.{out_of_bounds}
use chton.Origin.Memory.{grown}
use chton.Origin.Memory
use chton.Origin.Memory.Medium.{length-grown}
use chton.Origin.Host.{Host, HostLaws, delivered}
use chton.Origin.Host.Mapped.{MappedFileOrigin, len, read, write, extend, copy_in, flush, open_file}
use chton.Origin.Host.Simulates.{
  Simulates, holding, stored, stored_nothing, length-stored, memory_delivers, memory_stores,
  memory_refuses,
}

module _ (h : Host) (contents : h.File → List ℕ) (position : h.File → ℕ) where
  -- The mapping covers the file, and there is none while the file is empty.
  pub record Shows (s : MappedFileOrigin h) (xs : List ℕ) : Type 0 where
    pub known_len : s.len ≡ length xs
    pub known_contents : contents s.file ≡ xs
    pub known_map : (s.map ≡ none) × (length xs ≡ 0) ⊎ (s.map ≡ some (length xs)) × (0 < length xs)

grown_long : (xs : List ℕ) (end : ℕ) → end ≤ length xs → grown xs end ≡ xs
grown_long xs end h = ground arith

stored_none :
    (offset : ℕ) (data_bytes xs : List ℕ)
    → offset + length data_bytes ≤ length xs
    → length data_bytes ≡ 0
    → stored offset data_bytes xs ≡ xs
stored_none offset [] xs h e = stored_nothing offset xs (omega arith)
stored_none offset (b ∷ bytes) xs h e = absurd (omega arith)

module _ {h : Host} {contents : h.File → List ℕ} {position : h.File → ℕ}
    (laws : HostLaws h contents position) where
  mapped_opens :
      (f : h.File)
      → (s : MappedFileOrigin h) × (open_file h (ok f) ≡ ok s)
        × Shows h contents position s (contents f)
  unfolding open_file
  mapped_opens f = elim (dec_lt 0 (length (contents f))) [
    | yes some_byte ↦ (
      record { file = f; map = some (length (contents f)); len = length (contents f) },
      ground (arith, laws.len_known f, laws.maps f some_byte, some_byte),
      record { known_len = refl; known_contents = refl; known_map = inr (refl, some_byte) },
    )
    | no empty ↦ (
      record { file = f; map = none; len = length (contents f) },
      ground (arith, laws.len_known f, empty),
      record { known_len = refl; known_contents = refl; known_map = inl (refl, omega arith) },
    )
  ]

  whole_mapping : (f : h.File) (xs : List ℕ) → contents f ≡ xs → h.mapped (length xs) f ≡ xs
  whole_mapping f xs known =
      ap (λ (ys : List ℕ). h.mapped (length ys) f) (sym known) ∙ laws.mapped_lem f ∙ known

  mapped_read :
      (s : MappedFileOrigin h) (xs : List ℕ) (offset : ℕ) (buf : List ℕ)
      → Shows h contents position s xs
      → (r whole : List ℕ × ℕ) × (read h s offset buf ≡ ok r)
        × (Memory.read (holding xs) offset buf ≡ ok whole)
        × (r ≡ whole)
  unfolding read
  mapped_read s xs offset buf shows = (
    delivered offset xs buf,
    delivered offset xs buf,
    elim (Bool-cases (leb (length xs) offset)) [
      | inl past ↦
          let nothing : min (length xs - offset) (length buf) ≡ 0 = ground arith in
          rw (shows.known_len, past, nothing)
      | inr before ↦ elim shows.known_map [
        | inl (unmapped, empty) ↦ absurd (ground arith)
        | inr (covers, some_byte) ↦
            ground
              (arith, before, covers, shows.known_len, whole_mapping s.file xs shows.known_contents)
      ]
    ],
    memory_delivers xs offset buf,
    refl,
  )

  -- The copy into a mapping that covers the file.
  copied :
      (s : MappedFileOrigin h) (xs : List ℕ) (offset : ℕ) (data_bytes : List ℕ)
      → Shows h contents position s xs
      → 0 < length xs
      → offset + length data_bytes ≤ length xs
      → (s' : MappedFileOrigin h) × (copy_in h offset data_bytes s ≡ done tt s')
        × Shows h contents position s' (stored offset data_bytes xs)
  unfolding copy_in
  copied s xs offset data_bytes shows some_byte inside = elim shows.known_map [
    | inl (unmapped, empty) ↦ absurd (omega arith)
    | inr (covers, some_byte') ↦
        let size : length (stored offset data_bytes xs) ≡ length xs =
          omega (arith, length-stored offset data_bytes xs) in
        let fits : offset + length data_bytes ≤ length (contents s.file) =
          omega (arith, ap (λ (ys : List ℕ). length ys) shows.known_contents) in
        (
          record s { file = h.store offset data_bytes s.file },
          ground (arith, covers, inside),
          record {
            known_len = shows.known_len ∙ sym size;
            known_contents =
                laws.stores s.file offset data_bytes fits
                ∙ ap (λ (ys : List ℕ). splice ys offset data_bytes)
                    (shows.known_contents
                      ∙ sym (grown_long xs (offset + length data_bytes) inside));
            known_map = inr (covers ∙ ap some (sym size), omega arith);
          },
        )
  ]

  -- The file extended and mapped again.
  extended :
      (s : MappedFileOrigin h) (xs : List ℕ) (end : ℕ)
      → Shows h contents position s xs
      → length xs < end
      → (s' : MappedFileOrigin h) × (extend h end s ≡ done tt s')
        × Shows h contents position s' (grown xs end)
  unfolding extend
  extended s xs end shows longer =
      let long : length (contents s.file) < end =
        omega (arith, ap (λ (ys : List ℕ). length ys) shows.known_contents) in
      let file = laws.extends s.file end long in
      let known : contents file.after ≡ grown xs end =
        file.contents_after ∙ ap (λ (ys : List ℕ). grown ys end) shows.known_contents in
      let size : length (contents file.after) ≡ end =
        omega (arith, ap (λ (ys : List ℕ). length ys) known, length-grown xs end) in
      (
        record { file = file.after; map = some end; len = end },
        ground (arith, file.returns, laws.maps file.after, size, longer),
        record {
          known_len = omega (arith, length-grown xs end);
          known_contents = known;
          known_map =
              inr
                (ap some (omega (arith, length-grown xs end)), omega (arith, length-grown xs end));
        },
      )

  mapped_write :
      (s : MappedFileOrigin h) (xs : List ℕ) (offset : ℕ) (data_bytes : List ℕ)
      → Shows h contents position s xs
      → offset + length data_bytes < 2 ^ 64
      → (s' : MappedFileOrigin h) × (ys : List ℕ) × (write h offset data_bytes s ≡ done tt s')
        × (Memory.write offset data_bytes (holding xs) ≡ done tt (holding ys))
        × Shows h contents position s' ys
  unfolding write
  mapped_write s xs offset data_bytes shows fits =
      elim (dec_lt (length xs) (offset + length data_bytes)) [
        | yes longer ↦
            let end = offset + length data_bytes in
            let (s', grows, shows') = extended s xs end shows longer in
            let size : length (grown xs end) ≡ end = omega (arith, length-grown xs end) in
            let (s'', copies, shows'') =
              copied s' (grown xs end) offset data_bytes shows' (omega arith) (omega arith) in
            let same : grown (grown xs end) end ≡ grown xs end =
              grown_long (grown xs end) end (omega arith) in
            (
              s'',
              stored offset data_bytes xs,
              ground (arith, fits, longer, shows.known_len, grows, copies),
              memory_stores xs offset data_bytes fits,
              subst (λ (ys : List ℕ). Shows h contents position s'' (splice ys offset data_bytes))
                  same shows'',
            )
        | no inside ↦ elim shows.known_map [
          | inl (unmapped, empty) ↦ (
            s,
            stored offset data_bytes xs,
            ground (arith, fits, inside, shows.known_len, unmapped),
            memory_stores xs offset data_bytes fits,
            subst (λ (ys : List ℕ). Shows h contents position s ys)
                (sym (stored_none offset data_bytes xs (omega arith) (omega arith))) shows,
          )
          | inr (covers, some_byte) ↦
              let (s', copies, shows') =
                copied s xs offset data_bytes shows some_byte (omega arith) in
              (
                s',
                stored offset data_bytes xs,
                ground (arith, fits, inside, shows.known_len, covers, copies),
                memory_stores xs offset data_bytes fits,
                shows',
              )
        ]
      ]

  mapped_flush :
      (s : MappedFileOrigin h) (xs : List ℕ)
      → Shows h contents position s xs
      → (s' : MappedFileOrigin h) × (flush h s ≡ done tt s') × Shows h contents position s' xs
  unfolding flush
  mapped_flush s xs shows = elim shows.known_map [
    | inl (unmapped, empty) ↦
        let second = laws.syncs s.file in
        (
          record s { file = second.after },
          ground (arith, unmapped, second.returns),
          record {
            known_len = shows.known_len;
            known_contents = second.contents_after ∙ shows.known_contents;
            known_map = shows.known_map;
          },
        )
    | inr (covers, some_byte) ↦
        let first = laws.map_flushes s.file in
        let second = laws.syncs first.after in
        (
          record s { file = second.after },
          ground (arith, covers, first.returns, second.returns),
          record {
            known_len = shows.known_len;
            known_contents = second.contents_after ∙ first.contents_after ∙ shows.known_contents;
            known_map = shows.known_map;
          },
        )
  ]

  -- On a host whose calls succeed, opening a file gives a mapped-file origin with its bytes, whose
  -- mapping covers the file, none if the file is empty. Such an origin never panics: a read delivers
  -- what a memory origin with the same bytes delivers, a write that ends below 2 ^ 64 leaves the bytes
  -- that memory has, a flush leaves the bytes alone, and its mapping and length stay in step with the
  -- file. A write that would end at 2 ^ 64 or beyond changes nothing, and both refuse it with the same
  -- out-of-bounds error.
  pub mapped-Simulates :
      Simulates contents
        (open_file h)
        (len h)
        (read h)
        (write h)
        (flush h)
        (Shows h contents position)
        (λ xs offset data_bytes. Unit {0})
        (λ r whole. r ≡ whole)
        (λ offset. error (out_of_bounds offset (2 ^ 64 - 1)))
  unfolding write
  mapped-Simulates = record {
    opens = mapped_opens;
    same_len = λ s xs shows. shows.known_len;
    same_read = mapped_read;
    same_write = λ s xs offset data_bytes shows any.
        elim (dec_lt (offset + length data_bytes) (2 ^ 64)) [
          | yes fits ↦ inl (fits, mapped_write s xs offset data_bytes shows fits)
          | no past ↦
              inr (
                omega arith,
                ground (arith, past),
                memory_refuses xs offset data_bytes (omega arith),
              )
        ];
    same_flush = mapped_flush;
  }
