-- ===== src/Map/Enumerate.antt =====
-- Enumeration of a store that represents a map.
use chton.Prelude.{
  ℕ, suc, ◌≤◌, ◌≡◌, ◌≢◌, refl, ap, ap₂, sym, subst, ◌∙◌, arith, Option, none, some, List, [], ◌∷◌,
  All, map,
}
use mathlib.Core.List.{Mem}
use chton.Prelude.Outcome.{ok}
use chton.Tagma.{Tagma, TagmaLaws}
use chton.Origin.{Origin}
use chton.Origin.Laws.{IsMedium}
use chton.Binding.Shape.{trail}
use chton.Binding.Holds.Locate.{below_absent}
use chton.Binding.Enumerate.{leaves}
use chton.Binding.Enumerate.Slots.{entry_of, tagged}
use chton.Binding.Enumerate.Laws.{iter-leaves}
use chton.Binding.Enumerate.Distinct.{IsDistinct, IsDistinct-map, leaves-IsDistinct}
use chton.Binding.Enumerate.Complete.{leaves_held, leaves_member}
use chton.Map.{CoordMapStore}
use chton.Map.Record.{read_record}
use chton.Map.Contents.{Represents, read_tree}
use chton.Map.Surface.{ByteKeys, project_byte_key, entries, iter}
use chton.Map.Answers.{listed}

module _ ⦃t : Tagma⦄ (keys : ByteKeys t) where
  -- The pairs with their keys projected to bytes.
  abbrev pub projected : List (t.CoordPath × List ℕ) → List (keys.CoordKey × List ℕ)
  projected es = map (λ e. (project_byte_key keys e.0, e.1)) es

  -- An enumeration that returned: the values of the map along some keys, all different, among which is
  -- every key that has a value.
  pub record Enumerated {S : Type 0} ⦃o : Origin S⦄ (m : CoordMapStore S)
      (V : t.CoordPath → Option (List ℕ)) : Type 0 where
    pub paths : List t.CoordPath
    pub returns : iter keys m ≡ ok (projected (listed V paths))
    pub distinct : IsDistinct paths
    pub valued : All (λ p. V p ≢ none) paths
    pub complete :
        (key : t.CoordPath)
        → V key ≢ none
        → Mem (trail key t.depth) (map (λ p. trail p t.depth) paths)

module _ ⦃t : Tagma⦄ (laws : TagmaLaws t) {S : Type 0} ⦃o : Origin S⦄ {byte : S → ℕ → ℕ}
    (medium : IsMedium o byte) (last : ℕ) (depth_eq : suc last ≡ t.depth) (m : CoordMapStore S)
    (V : t.CoordPath → Option (List ℕ)) (r : Represents byte last m V) where
  abbrev T : List ℕ → ℕ
  T = r.tree

  -- An entry of the tree.
  abbrev IsEntry : t.CoordPath × ℕ → Type 0
  IsEntry e = (e.1 ≡ T (trail e.0 t.depth)) × (T (trail e.0 t.depth) ≢ 0)

  are_entries :
      (out : List (t.CoordPath × ℕ)) (qs : List (List ℕ))
      → All (λ q. T q ≢ 0) qs
      → map entry_of out ≡ tagged T qs
      → All IsEntry out
  are_entries [] qs h e = tt
  are_entries (x ∷ out) [] h e = absurd (cc)
  are_entries (x ∷ out) (q ∷ qs) (n, h) e =
      let here : entry_of x ≡ (q, T q) = cc (e) in
      let rest : map entry_of out ≡ tagged T qs = cc (e) in
      let named : trail x.0 t.depth ≡ q = ap (λ p. p.0) here in
      let at : x.1 ≡ T (trail x.0 t.depth) = ap (λ p. p.1) here ∙ ap T (sym named) in
      ((at, λ z. n (ap T (sym named) ∙ z)), are_entries out qs h rest)

  named_paths :
      (out : List (t.CoordPath × ℕ)) (qs : List (List ℕ))
      → map entry_of out ≡ tagged T qs
      → map (λ p. trail p t.depth) (map (λ e. e.0) out) ≡ qs
  named_paths [] [] e = refl
  named_paths [] (q ∷ qs) e = absurd (cc)
  named_paths (x ∷ out) [] e = absurd (cc)
  named_paths (x ∷ out) (q ∷ qs) e =
      let here : entry_of x ≡ (q, T q) = cc (e) in
      let rest : map entry_of out ≡ tagged T qs = cc (e) in
      ap₂ ◌∷◌ (ap (λ p. p.0) here) (named_paths out qs rest)

  value_of :
      (key : t.CoordPath) → T (trail key t.depth) ≢ 0 → V key ≡ some (r.vals (trail key t.depth))
  value_of key n =
      subst (λ (d : ℕ). T (trail key d) ≢ 0 → V key ≡ some (r.vals (trail key d))) depth_eq
        (r.present key) n

  all_valued :
      (out : List (t.CoordPath × ℕ)) → All IsEntry out → All (λ p. V p ≢ none) (map (λ e. e.0) out)
  all_valued [] h = tt
  all_valued (x ∷ out) ((at, n), h) =
      ((λ missing. ground (arith, value_of x.0 n, missing)), all_valued out h)

  record_read :
      (key : t.CoordPath)
      → T (trail key t.depth) ≢ 0
      → read_record m (T (trail key t.depth)) ≡ ok (r.vals (trail key t.depth))
  record_read key n =
      subst
        (λ (d : ℕ).
          T (trail key d) ≢ 0 → read_record m (T (trail key d)) ≡ ok (r.vals (trail key d)))
        depth_eq (read_tree laws medium last depth_eq m T r.free r.vals key r.ready r.size_small) n

  entries-listed :
      (keys : ByteKeys t) (out : List (t.CoordPath × ℕ))
      → All IsEntry out
      → entries keys out m ≡ ok (projected keys (listed V (map (λ e. e.0) out)))
  unfolding entries
  entries-listed keys [] h = refl
  entries-listed keys (e ∷ out) ((at, n), h) =
      let read : read_record m e.1 ≡ ok (r.vals (trail e.0 t.depth)) =
        ap (λ (x : ℕ). read_record m x) at ∙ record_read e.0 n in
      ground (arith, read, value_of e.0 n, entries-listed keys out h)

  -- Every node on the way to a value is there.
  on_trail : (key : t.CoordPath) → V key ≢ none → (n : ℕ) → n ≤ t.depth → T (trail key n) ≢ 0
  on_trail key some_value n le e =
      let gone =
        below_absent medium m.bound T r.free r.ready.holds r.ready.root key n t.depth laws le
          (omega arith) e in
      some_value
        (subst (λ (d : ℕ). T (trail key d) ≡ 0 → V key ≡ none) depth_eq (r.absent key) gone)

  -- On a store that represents a map, `iter` does not panic, and lists the values of the map along
  -- some keys, each with the projection of its key to bytes, which keeps the low byte of every
  -- coordinate. No key is twice among them, all of them have a value, and every key that has a value is
  -- among them.
  pub iter-Enumerated : (keys : ByteKeys t) → Enumerated keys m V
  unfolding iter
  iter-Enumerated keys =
      let (out, walk, named) =
        iter-leaves medium m.bound T r.free r.ready.holds r.ready.root laws last depth_eq in
      let es = are_entries out (leaves T t.depth []) (leaves_held T t.depth []) named in
      record {
        paths = map (λ e. e.0) out;
        returns = ground (arith, walk, entries-listed keys out es);
        distinct =
            IsDistinct-map (λ p. trail p t.depth) (map (λ e. e.0) out)
              (subst (λ (ps : List (List ℕ)). IsDistinct ps)
                (sym (named_paths out (leaves T t.depth []) named))
                (leaves-IsDistinct T t.depth []));
        valued = all_valued out es;
        complete = λ key n.
            subst (Mem (trail key t.depth)) (sym (named_paths out (leaves T t.depth []) named))
              (leaves_member T laws key (on_trail key n) t.depth 0 (omega arith));
      }
