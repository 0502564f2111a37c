-- ===== src/Store/Materialized/Reads.antt =====
-- What `get_entry` and `contains_entry` of `MapEntityStore` return.
use chton.Prelude.{ℕ, suc, ◌≤◌, ◌≡◌, Option, none, some, Option-cases, inl, inr, List}
use chton.Prelude.{arith}
use chton.Prelude.Outcome.{ok}
use chton.Tagma.{Tagma, TagmaLaws}
use chton.Origin.{Origin}
use chton.Origin.Laws.{IsMedium}
use chton.Map.{CoordMapStore}
use chton.Map.Contents.{get_path-Represents}
use chton.Store.Key.{base}
use chton.Store.Entity.{Key, IsText, is_some}
use chton.Store.OnKeys.{path_of, probe-some, probe-none}
use chton.Store.Materialized.Models.{IsCodec, Models}
use chton.Store.Materialized.{Codec, decoded}
use chton.Store.Materialized.{get_entry, contains_entry, decode_value}

module _ ⦃t : Tagma⦄ {S : Type 0} ⦃o : Origin S⦄ {byte : S → ℕ → ℕ} (medium : IsMedium o byte)
    (last : ℕ) (depth_eq : suc last ≡ t.depth) {V : Type 0} (codec : Codec V)
    (is_codec : IsCodec codec) (chars : List ℕ → List ℕ) (laws : TagmaLaws t)
    (wide : base ≤ t.n_valid) (decodes : (x y : List ℕ) → chars x ≡ chars y → x ≡ y) where
  deep : 1 ≤ t.depth
  deep = omega arith

  pub gets :
      (m : CoordMapStore S) (F : Key → Option V) (key : Key)
      → Models byte codec chars last m F
      → IsText key
      → get_entry codec chars key m ≡ ok (F key)
  unfolding get_entry
  gets m F key h text = elim (Option-cases (path_of chars key)) [
    | inl missing ↦
        ground (
          arith,
          probe-none chars laws deep wide decodes key text missing,
          h.found key text,
          missing,
        )
    | inr (p, found) ↦ ground (
      arith,
      probe-some chars laws deep wide decodes key p found,
      get_path-Represents laws medium last depth_eq m h.contents p h.represents,
      h.coded p,
      h.found key text,
      found,
    )
  ]

  -- A stored value is there exactly if its decoding is.
  decoded-is_some :
      (stored : Option (List ℕ)) (r : Option V)
      → decoded codec stored ≡ ok r
      → is_some stored ≡ is_some r
  unfolding decoded decode_value
  decoded-is_some none r e = ground (arith, e)
  decoded-is_some (some bytes) r e = elim (Option-cases (codec.from_bytes bytes)) [
    | inl bad ↦ absurd (ground (arith, bad))
    | inr (v, good) ↦ ground (arith, good)
  ]

  pub contains :
      (m : CoordMapStore S) (F : Key → Option V) (key : Key)
      → Models byte codec chars last m F
      → IsText key
      → contains_entry codec chars key m ≡ ok (is_some (F key))
  unfolding contains_entry
  contains m F key h text = elim (Option-cases (path_of chars key)) [
    | inl missing ↦
        ground (
          arith,
          probe-none chars laws deep wide decodes key text missing,
          h.found key text,
          missing,
        )
    | inr (p, found) ↦ ground (
      arith,
      probe-some chars laws deep wide decodes key p found,
      get_path-Represents laws medium last depth_eq m h.contents p h.represents,
      decoded-is_some (h.contents p) (h.values p) (h.coded p),
      h.found key text,
      found,
    )
  ]
