-- ===== src/Store/OnKeys.antt =====
-- A map from paths, seen through the paths of keys.
use chton.Prelude.{
  ℕ, ◌≤◌, ◌≡◌, ◌≢◌, Option, none, some, Option-cases, inl, inr, List, arith, refl, ap, ◌∙◌,
}
use chton.Prelude.Outcome.{Result, ok, err, Fault, panic, error}
use chton.Tagma.{Tagma, TagmaLaws}
use chton.Binding.Shape.{path_discrete}
use chton.Store.Key.{KeyError, base, str_to_coordpath, map_key_or_panic}
use chton.Store.Injective.{str_to_coordpath-injective}
use chton.Store.Safe.{str_to_coordpath-safe}
use chton.Store.Probe.{probe, probed}
use chton.Store.Entity.{Key, IsText, assign}

abbrev pub found_path : {P : Type 0} → Result (Fault KeyError) P → Option P
found_path (ok p) = some p
found_path (err e) = none

some_path : {P : Type 0} (r : Result (Fault KeyError) P) (p : P) → found_path r ≡ some p → r ≡ ok p
some_path (ok q) p e = ground (arith, e)
some_path (err f) p e = ground (arith, e)

no_path :
    {P : Type 0} (r : Result (Fault KeyError) P)
    → r ≢ err panic
    → found_path r ≡ none
    → probed r ≡ ok none
no_path (ok q) safe e = ground (arith, e)
no_path (err panic) safe e = absurd (safe refl)
no_path (err (error f)) safe e = refl

module _ ⦃t : Tagma⦄ (chars : List ℕ → List ℕ) where
  -- The path of a key that has one.
  abbrev pub path_of : Key → Option t.CoordPath
  path_of key = found_path (str_to_coordpath chars key)

  abbrev pub on_keys : {V : Type 0} → (t.CoordPath → Option V) → Key → Option V
  on_keys G key = elim (path_of key) [ none ↦ none | some p ↦ G p ]

  module _ (laws : TagmaLaws t) (deep : 1 ≤ t.depth) (wide : base ≤ t.n_valid)
      (decodes : (x y : List ℕ) → chars x ≡ chars y → x ≡ y) where
    pub probe-some :
        (key : Key) (p : t.CoordPath) → path_of key ≡ some p → probe chars key ≡ ok (some p)
    unfolding probe
    probe-some key p e = ap probed (some_path (str_to_coordpath chars key) p e)

    pub probe-none : (key : Key) → IsText key → path_of key ≡ none → probe chars key ≡ ok none
    unfolding probe
    probe-none key text e =
        no_path (str_to_coordpath chars key) (str_to_coordpath-safe laws wide chars key text) e

    pub map_key_some :
        (key : Key) (p : t.CoordPath) → path_of key ≡ some p → map_key_or_panic chars key ≡ some p
    unfolding map_key_or_panic
    map_key_some key p e = ground (arith, some_path (str_to_coordpath chars key) p e)

    -- Different keys with paths have different paths.
    pub paths_differ :
        (key q : Key) (p : t.CoordPath)
        → IsText key
        → IsText q
        → path_of key ≡ some p
        → path_of q ≡ some p
        → q ≡ key
    paths_differ key q p text text' e e' =
        str_to_coordpath-injective laws deep chars decodes q key p text' text
          (some_path (str_to_coordpath chars q) p e') (some_path (str_to_coordpath chars key) p e)

    module _ {V : Type 0} (G H : t.CoordPath → Option V) where
      -- A change at the path of a key is a change at that key.
      pub on_keys-assign :
          (key : Key) (p : t.CoordPath) (r : Option V) (q : Key)
          → IsText key
          → IsText q
          → path_of key ≡ some p
          → H p ≡ r
          → ((k : t.CoordPath) → k ≢ p → H k ≡ G k)
          → on_keys H q ≡ assign (on_keys G) key r q
      on_keys-assign key p r q text text' e self others = elim (path_discrete q key) [
        | yes same ↦ ground (arith, e, ap (λ (k : Key). path_of k) same, self)
        | no differs ↦ elim (Option-cases (path_of q)) [
          | inl missing ↦ ground (arith, missing, differs)
          | inr (k, found) ↦
              let other : k ≢ p =
                λ z. differs (paths_differ key q p text text' e (found ∙ ap some z)) in
              ground (arith, found, differs, others k other)
        ]
      ]

      -- A key without a path has no value to lose.
      pub on_keys-nothing :
          (key q : Key) → path_of key ≡ none → on_keys G q ≡ assign (on_keys G) key none q
      on_keys-nothing key q e = elim (path_discrete q key) [
        | yes same ↦ ground (arith, e, ap (λ (k : Key). path_of k) same)
        | no differs ↦ ground (arith, differs)
      ]
