-- ===== src/Store/Materialized/Laws.antt =====
-- `MapEntityStore` is a map from keys to values.
use chton.Prelude.{
  ap, ℕ, suc, ◌+◌, ◌^◌, ◌≤◌, ◌<◌, ◌≡◌, Option, none, some, Option-cases, inl, inr, List, [], ◌∷◌,
  All,
}
use chton.Prelude.{arith, refl, ◌∙◌}
use chton.Prelude.Outcome.{ok, done}
use chton.Tagma.{Tagma, TagmaLaws}
use chton.Origin.{Origin}
use chton.Origin.Laws.{IsMedium}
use chton.Map.{CoordMapStore}
use chton.Map.Record.{record_slot_size}
use chton.Map.Contents.{Represents}
use chton.Map.Clear.{clear-Represents}
use chton.Map.Surface.{ByteKeys}
use chton.Store.Key.{base}
use chton.Map.Space.{cost_all}
use chton.Store.Entity.{
  Counted-Returns, Tallies, count_all, Counted, Key, IsText, Implements, assign, assign_all,
}
use chton.Store.OnKeys.{path_of, map_key_some}
use chton.Store.Materialized.Models.{IsCodec, Models, Fits, Accepts, AcceptsAll}
use chton.Store.Materialized.{entry_count, Codec, decoded, encode_all, put_all, map_store}
use chton.Store.Materialized.{clear_entries, replace_entries, encode_value}
use chton.Store.Materialized.Values.{all_values-Valued}
use chton.Store.Materialized.Reads.{gets, contains}
use chton.Store.Materialized.Changes.{store_one, inserts, removes}

module _ ⦃t : Tagma⦄ {S : Type 0} ⦃o : Origin S⦄ {byte : S → ℕ → ℕ} (medium : IsMedium o byte)
    (last : ℕ) (depth_eq : suc last ≡ t.depth) {V : Type 0} (codec : Codec V)
    (is_codec : IsCodec codec) (chars : List ℕ → List ℕ) (laws : TagmaLaws t)
    (wide : base ≤ t.n_valid) (decodes : (x y : List ℕ) → chars x ≡ chars y → x ≡ y) where
  deep : 1 ≤ t.depth
  deep = omega arith

  -- The loop of `replace_entries`, over what was collected before.
  record Replaced (entries : List (Key × V)) (m : CoordMapStore S) (G : Key → Option V) (n : ℕ)
      : Type 0 where
    pub encoded : List (t.CoordPath × List ℕ)
    pub collected : encode_all codec chars entries ≡ ok encoded
    pub after : CoordMapStore S
    pub returns : put_all codec chars encoded m ≡ done tt after
    pub models : Models byte codec chars last after G
    pub count : after.len ≡ n

  stores_all :
      (entries : List (Key × V)) (size : ℕ) (m : CoordMapStore S) (F : Key → Option V)
      → Models byte codec chars last m F
      → record_slot_size m ≡ size
      → All (λ entry. IsText entry.0) entries
      → All (λ entry. Fits codec chars size entry.0 entry.1) entries
      → m.bound.strategy.bump + cost_all last entries size < 2 ^ 64
      → Replaced entries m (assign_all entries F) (count_all entries F m.len)
  unfolding encode_all put_all assign_all encode_value count_all
  stores_all [] size m F h same texts fits space = record {
    encoded = [];
    collected = refl;
    after = m;
    returns = refl;
    models = h;
    count = refl;
  }
  stores_all ((key, v) ∷ entries) size m F h same (text, texts) (fit, fits) space =
      let fit' : Fits codec chars (record_slot_size m) key v = record {
        path = fit.path;
        bytes = fit.bytes;
        has_path = fit.has_path;
        encodes = fit.encodes;
        room = omega (arith, fit.room);
      } in
      let one =
        store_one medium last depth_eq codec is_codec chars laws wide decodes m F key v h text fit'
          (omega arith) in
      let rest =
        stores_all entries size one.after (assign F key (some v)) one.models (one.same_size ∙ same)
          texts fits (omega (arith, one.space_used)) in
      record {
        encoded = (fit.path, fit.bytes) ∷ rest.encoded;
        collected = ground (
          arith,
          map_key_some chars laws deep wide decodes key fit.path fit.has_path,
          fit.encodes,
          rest.collected,
        );
        after = rest.after;
        returns = ground (arith, one.returns, rest.returns);
        models = rest.models;
        count = rest.count ∙ ap (λ (n : ℕ). count_all entries (assign F key (some v)) n) one.count;
      }

  no_values :
      (m : CoordMapStore S)
      → Represents byte last m (λ key. none)
      → Models byte codec chars last m (λ key. none)
  unfolding decoded
  no_values m r = record {
    contents = λ p. none;
    values = λ p. none;
    represents = r;
    coded = λ p. refl;
    found = λ key text. elim (Option-cases (path_of chars key)) [
      | inl missing ↦ ground (arith, missing)
      | inr (p, found) ↦ ground (arith, found)
    ];
  }

  clears :
      (m : CoordMapStore S) (F : Key → Option V)
      → Models byte codec chars last m F
      → Counted
          (Models byte codec chars last)
          (entry_count codec chars)
          (clear_entries codec chars m)
          tt
          (λ key. none)
          0
  unfolding clear_entries
  clears m F h =
      let gone = clear-Represents medium last depth_eq m h.contents h.represents in
      record {
        after = gone.after;
        returns = ground (arith, gone.returns);
        models = no_values gone.after gone.represents;
        count = gone.no_values;
      }

  replaces :
      (m : CoordMapStore S) (F : Key → Option V) (entries : List (Key × V))
      → Models byte codec chars last m F
      → All (λ entry. IsText entry.0) entries
      → AcceptsAll byte codec chars last entries m
      → Counted
          (Models byte codec chars last)
          (entry_count codec chars)
          (replace_entries codec chars entries m)
          tt
          (assign_all entries (λ key. none))
          (count_all entries (λ key. none) 0)
  unfolding replace_entries
  replaces m F entries h texts accepts =
      let gone = clear-Represents medium last depth_eq m h.contents h.represents in
      let all =
        stores_all entries (record_slot_size m) gone.after (λ key. none)
          (no_values gone.after gone.represents) gone.same_size texts accepts.fits
          (omega (arith, accepts.space, gone.bump_after)) in
      record {
        after = all.after;
        returns = ground (arith, all.collected, gone.returns, all.returns);
        models = all.models;
        count =
            all.count ∙ ap (λ (n : ℕ). count_all entries (λ (key : Key). none) n) gone.no_values;
      }

  -- Over a working medium, with a codec that decodes what it encoded and coordinates for all
  -- digits of the base, a materialized store is a map from keys of bytes to values. No call of the
  -- trait panics, given what insertions need. `get` and `contains_key` answer as the map does,
  -- `values` lists the value of every key, `insert`, `remove`, `clear` and `replace_from` return
  -- what the map had and leave the changed map. `len` is 0 after a clear, grows by one, as a
  -- `usize`, with a key that had no value, and falls by one with the removal of a value, not below
  -- 0. An insertion needs a key that has a path, an encoding that fits a record, and room for a
  -- path of nodes and a record below 2 ^ 64; a replacement needs this of all its entries at once.
  pub map_store-Implements :
      (keys : ByteKeys t)
      → Implements
          (map_store codec chars keys)
          (Models byte codec chars last)
          (Accepts byte codec chars last)
          (AcceptsAll byte codec chars last)
        × Tallies
            (map_store codec chars keys)
            (Models byte codec chars last)
            (Accepts byte codec chars last)
            (AcceptsAll byte codec chars last)
  unfolding map_store
  map_store-Implements keys =
      let stores = inserts medium last depth_eq codec is_codec chars laws wide decodes in
      let drops = removes medium last depth_eq codec is_codec chars laws wide decodes in
      (
        record {
          gets = gets medium last depth_eq codec is_codec chars laws wide decodes;
          contains = contains medium last depth_eq codec is_codec chars laws wide decodes;
          inserts = λ m F key v h text accepts. Counted-Returns (stores m F key v h text accepts);
          removes = λ m F key h text. Counted-Returns (drops m F key h text);
          clears = λ m F h. Counted-Returns (clears m F h);
          replaces =
              λ m F entries h texts accepts. Counted-Returns (replaces m F entries h texts accepts);
        },
        record {
          valued = all_values-Valued laws medium last depth_eq codec chars keys;
          insert_count = stores;
          remove_count = drops;
          clear_count = clears;
          replace_count = replaces;
        },
      )
