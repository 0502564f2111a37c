-- ===== src/Store/Spatial/Laws.antt =====
-- `CoordEntityStore` is a map from keys to values.
use chton.Prelude.{
  ℕ, ◌≤◌, ◌≡◌, ◌≢◌, Option, none, some, Option-cases, inl, inr, List, [], ◌∷◌, All, arith, refl,
}
use chton.Prelude.Outcome.{ok}
use chton.Tagma.{Tagma, TagmaLaws}
use chton.Store.Key.{base}
use chton.Store.Entity.{Key, IsText, Returns, Implements, assign, assign_all, is_some}
use chton.Store.OnKeys.{
  path_of, on_keys, probe-some, probe-none, map_key_some, on_keys-assign, on_keys-nothing,
}
use chton.Store.Spatial.{
  CoordSpaceN, coord_store, place_all, get_entry, insert_entry, remove_entry, contains_entry,
  clear_entries, replace_entries,
}

-- What the code relies on of a space: it is a map from paths to values.
pub record SpaceLaws {t : Tagma} {V : Type 0} (c : CoordSpaceN t V) : Type 0 where
  pub at-new : (p : t.CoordPath) → c.at_path p c.space_new ≡ none
  pub at-cleared : (s : c.Space) (p : t.CoordPath) → c.at_path p (c.cleared s) ≡ none
  pub placed : (s : c.Space) (p : t.CoordPath) (v : V) → (c.place_path p v s).0 ≡ c.at_path p s
  pub at-place :
      (s : c.Space) (p : t.CoordPath) (v : V) → c.at_path p (c.place_path p v s).1 ≡ some v
  pub at-place_ne :
      (s : c.Space) (p : t.CoordPath) (v : V) (q : t.CoordPath)
      → q ≢ p
      → c.at_path q (c.place_path p v s).1 ≡ c.at_path q s
  pub vacated : (s : c.Space) (p : t.CoordPath) → (c.vacate_path p s).0 ≡ c.at_path p s
  pub at-vacate : (s : c.Space) (p : t.CoordPath) → c.at_path p (c.vacate_path p s).1 ≡ none
  pub at-vacate_ne :
      (s : c.Space) (p : t.CoordPath) (q : t.CoordPath)
      → q ≢ p
      → c.at_path q (c.vacate_path p s).1 ≡ c.at_path q s

module _ ⦃t : Tagma⦄ {V : Type 0} (c : CoordSpaceN t V) (space : SpaceLaws c)
    (chars : List ℕ → List ℕ) where
  -- A key has the value that stands at its path.
  abbrev pub Models : c.Space → (Key → Option V) → Type 0
  Models s F = (key : Key) → IsText key → F key ≡ on_keys chars (λ p. c.at_path p s) key

  abbrev pub HasPath : Key → Type 0
  HasPath key = (p : t.CoordPath) × (path_of chars key ≡ some p)

  module _ (laws : TagmaLaws t) (deep : 1 ≤ t.depth) (wide : base ≤ t.n_valid)
      (decodes : (x y : List ℕ) → chars x ≡ chars y → x ≡ y) where
    gets :
        (s : c.Space) (F : Key → Option V) (key : Key)
        → Models s F
        → IsText key
        → get_entry c chars key s ≡ ok (F key)
    unfolding get_entry
    gets s F key h text = elim (Option-cases (path_of chars key)) [
      | inl missing ↦
          ground
            (arith, probe-none chars laws deep wide decodes key text missing, h key text, missing)
      | inr (p, found) ↦
          ground (arith, probe-some chars laws deep wide decodes key p found, h key text, found)
    ]

    contains :
        (s : c.Space) (F : Key → Option V) (key : Key)
        → Models s F
        → IsText key
        → contains_entry c chars key s ≡ ok (is_some (F key))
    unfolding contains_entry
    contains s F key h text = elim (Option-cases (path_of chars key)) [
      | inl missing ↦
          ground
            (arith, probe-none chars laws deep wide decodes key text missing, h key text, missing)
      | inr (p, found) ↦
          ground (arith, probe-some chars laws deep wide decodes key p found, h key text, found)
    ]

    inserts :
        (s : c.Space) (F : Key → Option V) (key : Key) (v : V)
        → Models s F
        → IsText key
        → HasPath key
        → Returns Models (insert_entry c chars key v s) (F key) (assign F key (some v))
    unfolding insert_entry
    inserts s F key v h text (p, found) = record {
      after = (c.place_path p v s).1;
      returns = ground (
        arith,
        map_key_some chars laws deep wide decodes key p found,
        space.placed s p v,
        h key text,
        found,
      );
      models = λ q text'. ground (
        arith,
        on_keys-assign chars laws deep wide decodes (λ k. c.at_path k s)
            (λ k. c.at_path k (c.place_path p v s).1) key p (some v) q text text' found
            (space.at-place s p v) (space.at-place_ne s p v),
        h q text',
      );
    }

    removes :
        (s : c.Space) (F : Key → Option V) (key : Key)
        → Models s F
        → IsText key
        → Returns Models (remove_entry c chars key s) (F key) (assign F key none)
    unfolding remove_entry
    removes s F key h text = elim (Option-cases (path_of chars key)) [
      | inl missing ↦ record {
        after = s;
        returns =
            ground (
              arith,
              probe-none chars laws deep wide decodes key text missing,
              h key text,
              missing,
            );
        models = λ q text'. ground (
          arith,
          on_keys-nothing chars laws deep wide decodes (λ k. c.at_path k s) (λ k. c.at_path k s) key
              q missing,
          h q text',
        );
      }
      | inr (p, found) ↦ record {
        after = (c.vacate_path p s).1;
        returns = ground (
          arith,
          probe-some chars laws deep wide decodes key p found,
          space.vacated s p,
          h key text,
          found,
        );
        models = λ q text'. ground (
          arith,
          on_keys-assign chars laws deep wide decodes (λ k. c.at_path k s)
              (λ k. c.at_path k (c.vacate_path p s).1) key p none q text text' found
              (space.at-vacate s p) (space.at-vacate_ne s p),
          h q text',
        );
      }
    ]

    nothing_left : (s : c.Space) → Models (c.cleared s) (λ key. none)
    nothing_left s key text = elim (Option-cases (path_of chars key)) [
      | inl missing ↦ ground (arith, missing)
      | inr (p, found) ↦ ground (arith, found, space.at-cleared s p)
    ]

    places :
        (entries : List (Key × V)) (s : c.Space) (F : Key → Option V)
        → Models s F
        → All (λ entry. IsText entry.0) entries
        → All (λ entry. HasPath entry.0) entries
        → Returns Models (place_all c chars entries s) tt (assign_all entries F)
    unfolding place_all assign_all
    places [] s F h texts paths = record { after = s; returns = refl; models = h }
    places ((key, v) ∷ entries) s F h (text, texts) (path, paths) =
        let first = inserts s F key v h text path in
        let rest = places entries first.after (assign F key (some v)) first.models texts paths in
        record {
          after = rest.after;
          returns = ground (arith, first.returns, rest.returns);
          models = rest.models;
        }

    -- Over a space that is a map, a coordinate store is a map from keys of bytes to values; an
    -- insertion needs a key that has a path.
    pub coord_store-Implements :
        Implements
          (coord_store c chars)
          Models
          (λ key v s. HasPath key)
          (λ entries s. All (λ entry. HasPath entry.0) entries)
    unfolding coord_store clear_entries replace_entries
    coord_store-Implements = record {
      gets = gets;
      contains = contains;
      inserts = inserts;
      removes = removes;
      clears = λ s F h. record { after = c.cleared s; returns = refl; models = nothing_left s };
      replaces = λ s F entries h texts paths.
          places entries (c.cleared s) (λ key. none) (nothing_left s) texts paths;
    }
