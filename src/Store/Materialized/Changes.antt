-- ===== src/Store/Materialized/Changes.antt =====
-- What `insert_entry` and `remove_entry` of `MapEntityStore` change.
use chton.Prelude.{
  ◌∙◌, ℕ, suc, ◌+◌, ◌^◌, ◌≤◌, ◌<◌, ◌≡◌, Option, none, some, Option-cases, inl, inr, List,
}
use chton.Prelude.{arith, refl}
use chton.Prelude.Outcome.{ok, done}
use chton.Tagma.{Tagma, TagmaLaws}
use chton.Origin.{Origin}
use chton.Origin.Laws.{IsMedium}
use chton.Map.{CoordMapStore}
use chton.Map.Record.{record_slot_size}
use chton.Map.Contents.{Represents}
use chton.Map.Put.{len_with, update, update_self, update-ne, put_path-Represents}
use chton.Map.Remove.{len_without, remove_path-Represents}
use chton.Store.Key.{base}
use chton.Map.Space.{cost}
use chton.Store.Entity.{count_without, Counted, count_with, Key, IsText, assign}
use chton.Store.OnKeys.{
  path_of, probe-some, probe-none, map_key_some, on_keys-assign, on_keys-nothing,
}
use chton.Store.Materialized.Models.{IsCodec, Models, Fits, Accepts}
use chton.Store.Materialized.{entry_count, put_path, Codec, decoded}
use chton.Store.Materialized.{insert_entry, remove_entry, decode_value, encode_value}

module _ ⦃t : Tagma⦄ {S : Type 0} ⦃o : Origin S⦄ {byte : S → ℕ → ℕ} (medium : IsMedium o byte)
    (last : ℕ) (depth_eq : suc last ≡ t.depth) {V : Type 0} (codec : Codec V)
    (is_codec : IsCodec codec) (chars : List ℕ → List ℕ) (laws : TagmaLaws t)
    (wide : base ≤ t.n_valid) (decodes : (x y : List ℕ) → chars x ≡ chars y → x ≡ y) where
  deep : 1 ≤ t.depth
  deep = omega arith

  -- A change at one path, of the encoded value and of the value.
  module _ (m m' : CoordMapStore S) (F : Key → Option V) (h : Models byte codec chars last m F)
      (key : Key) (text : IsText key) (p : t.CoordPath) (found : path_of chars key ≡ some p)
      (stored : Option (List ℕ)) (r : Option V) (coded : decoded codec stored ≡ ok r)
      (after : Represents byte last m' (update last h.contents p stored)) where
    changed-Models : Models byte codec chars last m' (assign F key r)
    changed-Models = record {
      contents = update last h.contents p stored;
      values = update last h.values p r;
      represents = after;
      coded = λ k. ground (arith, coded, h.coded k);
      found = λ q text'. ground (
        arith,
        on_keys-assign chars laws deep wide decodes h.values (update last h.values p r) key p r q
            text text' found (update_self last h.values p r)
            (λ k ne. update-ne last h.values p r k laws depth_eq ne),
        h.found q text',
      );
    }

  -- The put of an insertion, from a store that models `F`.
  pub record Stored (m : CoordMapStore S) (F : Key → Option V) (key : Key) (v : V) (p : t.CoordPath)
      (bytes : List ℕ) : Type 0 where
    pub after : CoordMapStore S
    pub old : Option (List ℕ)
    pub returns : put_path p bytes m ≡ done old after
    pub was : decoded codec old ≡ ok (F key)
    pub count : after.len ≡ count_with (F key) m.len
    pub models : Models byte codec chars last after (assign F key (some v))
    pub same_size : record_slot_size after ≡ record_slot_size m
    pub space_used :
        after.bound.strategy.bump ≤ m.bound.strategy.bump + cost last (record_slot_size m)

  decoded_bytes :
      (v : V) (bytes : List ℕ)
      → codec.to_bytes v ≡ some bytes
      → decoded codec (some bytes) ≡ ok (some v)
  unfolding decoded decode_value
  decoded_bytes v bytes e = ground (arith, is_codec v bytes e)

  -- A stored value counts as its decoding does.
  len_with-decoded :
      (stored : Option (List ℕ)) (r : Option V) (n : ℕ)
      → decoded codec stored ≡ ok r
      → len_with stored n ≡ count_with r n
  unfolding decoded decode_value
  len_with-decoded none r n e = ground arith
  len_with-decoded (some bytes) r n e = elim (Option-cases (codec.from_bytes bytes)) [
    | inl bad ↦ absurd (ground (arith, bad))
    | inr (v, good) ↦ ground (arith, good)
  ]

  len_without-decoded :
      (stored : Option (List ℕ)) (r : Option V) (n : ℕ)
      → decoded codec stored ≡ ok r
      → len_without stored n ≡ count_without r n
  unfolding decoded decode_value
  len_without-decoded none r n e = ground arith
  len_without-decoded (some bytes) r n e = elim (Option-cases (codec.from_bytes bytes)) [
    | inl bad ↦ absurd (ground (arith, bad))
    | inr (v, good) ↦ ground (arith, good)
  ]

  pub store_one :
      (m : CoordMapStore S) (F : Key → Option V) (key : Key) (v : V)
      → Models byte codec chars last m F
      → IsText key
      → (fits : Fits codec chars (record_slot_size m) key v)
      → m.bound.strategy.bump + cost last (record_slot_size m) < 2 ^ 64
      → Stored m F key v fits.path fits.bytes
  store_one m F key v h text fits space =
      let put =
        put_path-Represents laws medium fits.path last depth_eq m h.contents fits.bytes h.represents
          fits.room (omega arith) in
      record {
        after = put.after;
        old = h.contents fits.path;
        returns = put.returns;
        was = ground (arith, h.coded fits.path, h.found key text, fits.has_path);
        count =
            put.len_after
            ∙ len_with-decoded (h.contents fits.path) (F key) m.len
                (ground (arith, h.coded fits.path, h.found key text, fits.has_path));
        models =
            changed-Models m put.after F h key text fits.path fits.has_path (some fits.bytes)
              (some v) (decoded_bytes v fits.bytes fits.encodes) put.represents;
        same_size = put.same_size;
        space_used = omega (arith, put.space_used);
      }

  pub inserts :
      (m : CoordMapStore S) (F : Key → Option V) (key : Key) (v : V)
      → Models byte codec chars last m F
      → IsText key
      → Accepts byte codec chars last key v m
      → Counted
          (Models byte codec chars last)
          (entry_count codec chars)
          (insert_entry codec chars key v m)
          (F key)
          (assign F key (some v))
          (count_with (F key) m.len)
  unfolding insert_entry encode_value
  inserts m F key v h text accepts =
      let fits = accepts.fits in
      let put = store_one m F key v h text fits accepts.space in
      record {
        after = put.after;
        returns = ground (
          arith,
          map_key_some chars laws deep wide decodes key fits.path fits.has_path,
          fits.encodes,
          put.returns,
          put.was,
        );
        models = put.models;
        count = put.count;
      }

  pub removes :
      (m : CoordMapStore S) (F : Key → Option V) (key : Key)
      → Models byte codec chars last m F
      → IsText key
      → Counted
          (Models byte codec chars last)
          (entry_count codec chars)
          (remove_entry codec chars key m)
          (F key)
          (assign F key none)
          (count_without (F key) m.len)
  unfolding remove_entry
  removes m F key h text = elim (Option-cases (path_of chars key)) [
    | inl missing ↦ record {
      after = m;
      returns = ground (
        arith,
        probe-none chars laws deep wide decodes key text missing,
        h.found key text,
        missing,
      );
      models = record {
        contents = h.contents;
        values = h.values;
        represents = h.represents;
        coded = h.coded;
        found = λ q text'. ground (
          arith,
          on_keys-nothing chars laws deep wide decodes h.values h.values key q missing,
          h.found q text',
        );
      };
      count = ground (arith, h.found key text, missing);
    }
    | inr (p, found) ↦
        let gone = remove_path-Represents laws medium p last depth_eq m h.contents h.represents in
        record {
          after = gone.after;
          returns = ground (
            arith,
            probe-some chars laws deep wide decodes key p found,
            gone.returns,
            h.coded p,
            h.found key text,
            found,
          );
          models = changed-Models m gone.after F h key text p found none none refl gone.represents;
          count =
              gone.len_after
              ∙ len_without-decoded (h.contents p) (F key) m.len
                  (ground (arith, h.coded p, h.found key text, found));
        }
  ]
