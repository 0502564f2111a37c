-- ===== src/Map/Inscribe.antt =====
-- `write_record`: the value of one record is replaced.
use chton.Prelude.{ℕ, ◌+◌, ◌%◌, ◌^◌, ◌≤◌, ◌<◌, ◌≡◌, ◌≢◌, inr, List, [], ◌∷◌, length}
use chton.Prelude.{arith, refl, ap, sym, subst, ◌∙◌}
use chton.Prelude.Outcome.{done}
use chton.Prelude.Bytes.{to_le, length-to_le, bytes_at}
use chton.Prelude.Word.{word, Keeps, patch-Keeps, word-patch_self, word-Keeps, bytes_at-patch_self}
use chton.Tagma.{Tagma}
use chton.Origin.{Origin}
use chton.Origin.Laws.{IsMedium, Written}
use chton.Binding.Holds.{Holds, RecordsBut, RecordAt, IsLeaf}
use chton.Binding.Holds.Frame.{extent-leaf}
use chton.Binding.Holds.Touch.{touch-Holds, touch-records}
use chton.Map.{CoordMapStore}
use chton.Map.Record.{record_slot_size}
use chton.Map.Store.{write_record}

abbrev pub moved : {S : Type 0} → CoordMapStore S → S → CoordMapStore S
moved m s = record m { bound = record m.bound { medium = s } }

module _ ⦃t : Tagma⦄ {S : Type 0} ⦃o : Origin S⦄ (byte : S → ℕ → ℕ) where
  pub record Inscribed (m : CoordMapStore S) (T : List ℕ → ℕ) (free p : List ℕ)
      (vals : List ℕ → List ℕ) (v : List ℕ) : Type 0 where
    pub after : S
    pub returns : write_record (T p) v m ≡ done tt (moved m after)
    pub holds : Holds byte (record m.bound { medium = after }) T free
    pub others : RecordsBut p (byte after) (o.len after) (record_slot_size m) T vals
    pub written : RecordAt (byte after) (o.len after) (record_slot_size m) (T p) v

module _ ⦃t : Tagma⦄ {S : Type 0} ⦃o : Origin S⦄ {byte : S → ℕ → ℕ} (medium : IsMedium o byte)
    (m : CoordMapStore S) (T : List ℕ → ℕ) (free p : List ℕ) (vals : List ℕ → List ℕ) (v : List ℕ)
    (h : Holds byte m.bound T free) (leaf : IsLeaf p) (present : T p ≢ 0)
    (rs : RecordsBut p (byte m.bound.medium) (o.len m.bound.medium) (record_slot_size m) T vals)
    (room : 8 + length v ≤ record_slot_size m) where
  abbrev s : S
  s = m.bound.medium

  record_fits : T p + record_slot_size m < 2 ^ 64
  record_fits =
      omega (
        arith,
        h.tree.high p leaf.0 present,
        extent-leaf (record_slot_size m) p leaf.1,
        h.bump_small,
      )

  width : length (to_le 8 (length v)) ≡ 8
  width = length-to_le 8 (length v)

  prefix_fits : T p + length (to_le 8 (length v)) < 2 ^ 64
  prefix_fits = omega (arith, width, record_fits)

  abbrev first : Written o byte (T p) (to_le 8 (length v)) s
  first = medium.writes s (T p) (to_le 8 (length v)) prefix_fits

  kept : Keeps (byte s) (byte first.after) (T p) 8
  kept =
      subst (λ (n : ℕ). Keeps (byte s) (byte first.after) (T p) n) width
        (patch-Keeps (byte s) (byte first.after) (T p) (to_le 8 (length v)) first.byte_after)

  prefix-word : word (byte first.after) (T p) ≡ length v
  prefix-word =
      word-patch_self (byte s) (byte first.after) (T p) (length v) (omega (arith, record_fits))
        first.byte_after

  prefix-Holds : Holds byte (record m.bound { medium = first.after }) T free
  prefix-Holds =
      touch-Holds m.bound T free p first.after (T p) 8 h leaf present (omega arith) (omega arith)
        kept (omega (arith, first.len_after))

  prefix-others : RecordsBut p (byte first.after) (o.len first.after) (record_slot_size m) T vals
  prefix-others =
      touch-records m.bound T free p first.after (T p) 8 h leaf present (omega arith) (omega arith)
        kept (omega (arith, first.len_after)) vals rs

  inscribe_empty : v ≡ [] → Inscribed byte m T free p vals v
  unfolding write_record
  inscribe_empty e =
      let none_left : length v ≡ 0 = ap (λ (l : List ℕ). length l) e in
      record {
        after = first.after;
        returns = ground (arith, first.returns, none_left);
        holds = prefix-Holds;
        others = prefix-others;
        written = record {
          exists = omega (arith, none_left, first.len_after, width);
          room = room;
          prefix = prefix-word;
          payload =
              subst (λ (l : List ℕ). bytes_at (byte first.after) (T p + 8) (length l) ≡ l) (sym e)
                refl;
        };
      }

  inscribe_payload : length v ≢ 0 → Inscribed byte m T free p vals v
  unfolding write_record
  inscribe_payload n =
      let second = medium.writes first.after (T p + 8) v (omega (arith, record_fits)) in
      let next : (T p + 8) % 2 ^ 64 ≡ T p + 8 = omega (arith, record_fits) in
      let kept' =
        patch-Keeps (byte first.after) (byte second.after) (T p + 8) v second.byte_after in
      record {
        after = second.after;
        returns = ground (arith, first.returns, next, second.returns);
        holds =
            touch-Holds (record m.bound { medium = first.after }) T free p second.after (T p + 8)
              (length v) prefix-Holds leaf present (omega arith) (omega arith) kept'
              (omega (arith, second.len_after));
        others =
            touch-records (record m.bound { medium = first.after }) T free p second.after (T p + 8)
              (length v) prefix-Holds leaf present (omega arith) (omega arith) kept'
              (omega (arith, second.len_after)) vals prefix-others;
        written = record {
          exists = omega (arith, second.len_after);
          room = room;
          prefix =
              word-Keeps (byte first.after) (byte second.after) (T p + 8) (length v) (T p) kept'
                (inr (omega arith))
              ∙ prefix-word;
          payload =
              bytes_at-patch_self (byte first.after) (byte second.after) (T p + 8) v
                second.byte_after;
        };
      }

  -- Afterwards the record has the value, and the tree, the free list and all other records are as
  -- before.
  pub inscribe : Inscribed byte m T free p vals v
  inscribe = by_cases v refl
    where
      by_cases : (l : List ℕ) → v ≡ l → Inscribed byte m T free p vals v
      by_cases [] e = inscribe_empty e
      by_cases (x ∷ l) e = inscribe_payload (λ z. cc (ap (λ (k : List ℕ). length k) e))
