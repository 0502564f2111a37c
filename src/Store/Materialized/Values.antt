-- ===== src/Store/Materialized/Values.antt =====
-- What `all_values` of `MapEntityStore` returns.
use chton.Prelude.{
  ◌∙◌, sym, subst, ap, some, ℕ, suc, ◌≡◌, ◌≢◌, refl, arith, Option, none, Option-cases, inl, inr,
  List, [], ◌∷◌, map,
}
use mathlib.Core.Logic.Or
use mathlib.Core.List.{
  mem-cons_of_mem, eq-or-mem_of_mem-cons, Mem-prop, mem-cons_self, not-mem-nil, Mem,
}
use chton.Prelude.Outcome.{ok}
use chton.Tagma.{Tagma, TagmaLaws}
use chton.Origin.{Origin}
use chton.Origin.Laws.{IsMedium}
use chton.Binding.Shape.{trail}
use chton.Binding.Shape.Trail.{trail-injective}
use chton.Binding.Enumerate.Distinct.{IsDistinct}
use chton.Map.{CoordMapStore}
use chton.Map.Surface.{ByteKeys}
use chton.Map.Answers.{listed}
use chton.Map.Enumerate.{projected, iter-Enumerated}
use chton.Store.Entity.{Valued, Key}
use chton.Store.Materialized.{map_store, Codec, decoded, decode_value, decode_all, all_values}
use chton.Store.Materialized.Models.{Models}
use chton.Store.OnKeys.{path_of}

module _ ⦃t : Tagma⦄ {V : Type 0} (codec : Codec V) (keys : ByteKeys t)
    (contents : t.CoordPath → Option (List ℕ)) (values : t.CoordPath → Option V)
    (coded : (p : t.CoordPath) → decoded codec (contents p) ≡ ok (values p)) where
  -- The stored values along some paths decode to the values there.
  decode_listed :
      (paths : List t.CoordPath)
      → decode_all codec (projected keys (listed contents paths))
        ≡ ok (map (λ e. e.1) (listed values paths))
  unfolding decode_all decoded decode_value
  decode_listed [] = refl
  decode_listed (p ∷ paths) = elim (Option-cases (contents p)) [
    | inl missing ↦ ground (arith, missing, coded p, decode_listed paths)
    | inr (bytes, stored) ↦ elim (Option-cases (codec.from_bytes bytes)) [
      | inl bad ↦ absurd (ground (arith, stored, coded p, bad))
      | inr (v, good) ↦ ground (arith, stored, coded p, good, decode_listed paths)
    ]
  ]

module _ ⦃t : Tagma⦄ {S : Type 0} ⦃o : Origin S⦄ {V : Type 0} (codec : Codec V)
    (chars : List ℕ → List ℕ) (keys : ByteKeys t) where
  -- A listing that returned: the values along some paths, all different, among which is every path with
  -- a value.
  pub record Listing (m : CoordMapStore S) (values : t.CoordPath → Option V) : Type 0 where
    pub paths : List t.CoordPath
    pub returns : all_values codec chars keys m ≡ ok (map (λ e. e.1) (listed values paths))
    pub distinct : IsDistinct paths
    pub complete :
        (p : t.CoordPath)
        → values p ≢ none
        → Mem (trail p t.depth) (map (λ q. trail q t.depth) paths)

module _ ⦃t : Tagma⦄ (laws : TagmaLaws t) {S : Type 0} ⦃o : Origin S⦄ {byte : S → ℕ → ℕ}
    (medium : IsMedium o byte) (last : ℕ) (depth_eq : suc last ≡ t.depth) {V : Type 0}
    (codec : Codec V) (chars : List ℕ → List ℕ) (keys : ByteKeys t) where
  -- A materialized store that models a map returns, from `all_values`, the value of every path that
  -- has one, once each, and nothing else.
  pub all_values-Listing :
      (m : CoordMapStore S) (F : Key → Option V) (h : Models byte codec chars last m F)
      → Listing codec chars keys m h.values
  unfolding all_values decoded
  all_values-Listing m F h =
      let found = iter-Enumerated laws medium last depth_eq m h.contents h.represents keys in
      record {
        paths = found.paths;
        returns = ground (
          arith,
          found.returns,
          decode_listed codec keys h.contents h.values h.coded found.paths,
        );
        distinct = found.distinct;
        complete = λ p n. found.complete p (λ e. n (ground (arith, e, h.coded p)));
      }

  more :
      (values : t.CoordPath → Option V) (v : V) (q : t.CoordPath) (paths : List t.CoordPath)
      → Mem v (map (λ e. e.1) (listed values paths))
      → Mem v (map (λ e. e.1) (listed values (q ∷ paths)))
  more values v q paths m = elim (Option-cases (values q)) [
    | inl missing ↦
        let same : map (λ e. e.1) (listed values paths)
            ≡ map (λ e. e.1) (listed values (q ∷ paths)) =
          ground (arith, missing) in
        subst (Mem v) same m
    | inr (w, found) ↦
        let same : w ∷ map (λ e. e.1) (listed values paths)
            ≡ map (λ e. e.1) (listed values (q ∷ paths)) =
          ground (arith, found) in
        subst (Mem v) same (mem-cons_of_mem w m)
  ]

  -- The value of a path is among those of a list that has the path.
  listed-Mem :
      (values : t.CoordPath → Option V) (p : t.CoordPath) (v : V) (paths : List t.CoordPath)
      → values p ≡ some v
      → Mem (trail p t.depth) (map (λ q. trail q t.depth) paths)
      → Mem v (map (λ e. e.1) (listed values paths))
  listed-Mem values p v [] at m = absurd (not-mem-nil m)
  listed-Mem values p v (q ∷ paths) at m =
      let rest = listed values paths in
      Or.elim (Mem-prop {a = v} {l = map (λ e. e.1) (listed values (q ∷ paths))})
        (eq-or-mem_of_mem-cons m)
        (λ same.
          let here : values q ≡ some v = ap values (sym (trail-injective laws p q same)) ∙ at in
          let first : map (λ e. e.1) (listed values (q ∷ paths)) ≡ v ∷ map (λ e. e.1) rest =
            ground (arith, here) in
          subst (Mem v) (sym first) mem-cons_self)
        (λ later. more values v q paths (listed-Mem values p v paths at later))

  pub all_values-Valued :
      (m : CoordMapStore S) (F : Key → Option V)
      → Models byte codec chars last m F
      → Valued (map_store codec chars keys) m F
  unfolding map_store
  all_values-Valued m F h =
      let listing = all_values-Listing m F h in
      record {
        all = map (λ e. e.1) (listed h.values listing.paths);
        returns = listing.returns;
        complete = λ key v text has. elim (Option-cases (path_of chars key)) [
          | inl missing ↦ absurd (ground (arith, h.found key text, has, missing))
          | inr (p, found) ↦
              let at : h.values p ≡ some v = ground (arith, h.found key text, has, found) in
              listed-Mem h.values p v listing.paths at
                (listing.complete p (λ gone. ground (arith, at, gone)))
        ];
      }
