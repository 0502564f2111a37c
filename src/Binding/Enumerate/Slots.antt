-- ===== src/Binding/Enumerate/Slots.antt =====
-- The loop of `iter_node` over the slots of one node.
use chton.Prelude.{
  some, ℕ, zero, suc, ◌+◌, ◌<◌, ◌≡◌, ◌≢◌, refl, ap, ap₂, sym, ◌∙◌, arith, List, [], ◌∷◌, ◌++◌, map,
  length, set, ◌==◌,
}
use native.Mathlib.Decide.{ℕ_discrete}
use mathlib.Core.List.{append-nil, append_assoc}
use chton.Prelude.Outcome.{Result, ok, Fault}
use chton.Tagma.{Tagma, TagmaLaws}
use chton.Store.Coords.{new-index}
use chton.Origin.{Origin}
use chton.Origin.Laws.{IsMedium}
use chton.Binding.{BindingError, Bound}
use chton.Binding.Walk.{Found, is_clear, iter_slots}
use chton.Binding.Shape.{IsPath, trail}
use chton.Binding.Holds.{Holds, RootReady}
use chton.Binding.Holds.Locate.{read_slot-tree, check_child-tree}
use chton.Binding.Enumerate.{leaves, leaves_from, leaves_absent, leaves_here}
use chton.Binding.Enumerate.Spelling.{spell, spell-set_same, length-set, trail-path_new}

pub map-append {ℓ κ} :
    {A : Type ℓ} {B : Type κ} (f : A → B) (xs ys : List A) → map f (xs ++ ys) ≡ map f xs ++ map f ys
map-append f [] ys = refl
map-append f (x ∷ xs) ys = ap (λ l. f x ∷ l) (map-append f xs ys)

abbrev rest_of : List ℕ → List ℕ
rest_of [] = []
rest_of (i ∷ q) = q

module _ ⦃t : Tagma⦄ where
  -- What an entry says of the tree: the indices of its key, and its record.
  abbrev pub entry_of : t.CoordPath × ℕ → List ℕ × ℕ
  entry_of e = (trail e.0 t.depth, e.1)

  abbrev pub tagged : (List ℕ → ℕ) → List (List ℕ) → List (List ℕ × ℕ)
  tagged T qs = map (λ q. (q, T q)) qs

  -- The array spells `q` on the levels above the node.
  pub record IsAt (found : Found) (q : List ℕ) : Type 0 where
    pub full : length found.path ≡ t.depth
    pub spelled : spell found.path (length q) ≡ q

  -- A part of the walk that returned: it appended the entries `extra`.
  pub record Walked (found : Found) (q : List ℕ) (extra : List (List ℕ × ℕ))
      (out : Result (Fault BindingError) Found) : Type 0 where
    pub after : Found
    pub returns : out ≡ ok after
    pub place : IsAt after q
    pub listed : map entry_of after.out ≡ map entry_of found.out ++ extra

  -- The array with one more level filled in.
  place_child :
      (laws : TagmaLaws t) (found : Found) (q : List ℕ) (i : ℕ) (c : t.Coord)
      → IsAt found q
      → length q < t.depth
      → t.index c ≡ i
      → IsAt (record found { path = set found.path (length q) c }) (i ∷ q)
  place_child laws found q i c at short e = record {
    full = length-set found.path (length q) c ∙ at.full;
    spelled =
        spell-set_same found.path (length q) c (omega (arith, at.full)) ∙ ap₂ ◌∷◌ e at.spelled;
  }

  place_parent : (found : Found) (q : List ℕ) (i : ℕ) → IsAt found (i ∷ q) → IsAt found q
  place_parent found q i at = record { full = at.full; spelled = ap rest_of at.spelled }

  module _ {S : Type 0} ⦃o : Origin S⦄ {byte : S → ℕ → ℕ} (medium : IsMedium o byte) (b : Bound S)
      (T : List ℕ → ℕ) (free : List ℕ) (h : Holds byte b T free) (root : RootReady (o.len b.medium))
      (laws : TagmaLaws t) (q : List ℕ) (v : IsPath q) (node : T q ≢ 0) (levels : ℕ)
      (here : length q + 1 + levels ≡ t.depth)
      (child : ℕ → Found → Result (Fault BindingError) Found)
      (descends : (i : ℕ) (found : Found)
        → IsPath (i ∷ q)
        → T (i ∷ q) ≢ 0
        → length q + 1 ≢ t.depth
        → IsAt found (i ∷ q)
        → Walked found (i ∷ q) (tagged T (leaves T levels (i ∷ q))) (child (T (i ∷ q)) found))
      (bitmap : List ℕ)
      (bits : (i : ℕ) → i < t.n_valid → is_clear bitmap i ≡ (T (i ∷ q) == 0)) where
    abbrev Rest : ℕ → ℕ → Found → Type 0
    Rest left index found =
        Walked found q (tagged T (leaves_from (λ p. leaves T levels p) q left index))
          (iter_slots child b.medium bitmap (T q) (length q) left index found)

    abbrev others : ℕ → ℕ → List (List ℕ)
    others left index = leaves_from (λ p. leaves T levels p) q left (index + 1)

    -- The entries of one slot, then those of the slots after it.
    joined :
        (found next : Found) (index left : ℕ) (new after : List (List ℕ × ℕ))
        → map entry_of next.out ≡ map entry_of found.out ++ new
        → new ≡ tagged T (leaves T levels (index ∷ q))
        → after ≡ map entry_of next.out ++ tagged T (others left index)
        → after
          ≡ map entry_of found.out ++ tagged T (leaves T levels (index ∷ q) ++ others left index)
    joined found next index left new after e e' e'' =
        e''
        ∙ ap (λ l. l ++ tagged T (others left index)) e
        ∙ append_assoc (map entry_of found.out) new (tagged T (others left index))
        ∙ ap (λ l. map entry_of found.out ++ (l ++ tagged T (others left index))) e'
        ∙ ap (λ l. map entry_of found.out ++ l)
            (sym (map-append (λ p. (p, T p)) (leaves T levels (index ∷ q)) (others left index)))

    -- One slot that holds something, with what the walk does below it.
    one_slot :
        (left index : ℕ) (found : Found) (c : t.Coord)
        → IsPath (index ∷ q)
        → T (index ∷ q) ≢ 0
        → IsAt found q
        → t.coord_new index ≡ some c
        → ((next : Found) → IsAt next q → Rest left (index + 1) next)
        → Rest (suc left) index found
    unfolding leaves_from iter_slots
    one_slot left index found c path held at new rest =
        let read = read_slot-tree medium b T free h root q index path node in
        let bit = bits index path.0.0 in
        let path' = set found.path (length q) c in
        let at' =
          place_child laws found q index c at (omega (arith, path.1))
            (new-index laws index c new) in
        elim (ℕ_discrete (length q + 1) t.depth) [
          | yes leaf ↦
              let entry : t.CoordPath × ℕ = (t.path_new path', T (index ∷ q)) in
              let next : Found = record { path = path'; out = found.out ++ (entry ∷ []) } in
              let after =
                rest next (record { full = at'.full; spelled = ap rest_of at'.spelled }) in
              let named : trail (t.path_new path') t.depth ≡ index ∷ q =
                trail-path_new laws path' t.depth at'.full
                ∙ ap (λ (n : ℕ). spell path' n) {x = t.depth} {y = suc (length q)} (omega arith)
                ∙ at'.spelled in
              record {
                after = after.after;
                returns = ground (arith, bit, held, read, new, leaf, after.returns);
                place = after.place;
                listed =
                    joined found next index left (entry_of entry ∷ [])
                      (map entry_of after.after.out) (map-append entry_of found.out (entry ∷ []))
                      (ap (λ (p : List ℕ). (p, T (index ∷ q)) ∷ []) named
                        ∙ ap (tagged T) (sym (leaves_here T levels (index ∷ q) (omega arith) held)))
                      after.listed;
              }
          | no inner ↦
              let found' : Found = record found { path = path' } in
              let w = descends index found' path held inner at' in
              let after = rest w.after (place_parent w.after q index w.place) in
              let check =
                check_child-tree medium b T free h root (index ∷ q) path (λ e. cc)
                  (omega (arith, path.1)) held in
              record {
                after = after.after;
                returns =
                    ground (arith, bit, held, read, new, inner, check, w.returns, after.returns);
                place = after.place;
                listed =
                    joined found w.after index left (tagged T (leaves T levels (index ∷ q)))
                      (map entry_of after.after.out) w.listed refl after.listed;
              }
        ]

    pub slots-Walked :
        (left index : ℕ) (found : Found)
        → index + left ≡ t.n_valid
        → IsAt found q
        → Rest left index found
    unfolding leaves_from iter_slots
    slots-Walked zero index found whole at = record {
      after = found;
      returns = refl;
      place = at;
      listed = sym (append-nil (map entry_of found.out));
    }
    slots-Walked (suc left) index found whole at = elim (ℕ_discrete (T (index ∷ q)) 0) [
      | yes empty ↦
          let rest = slots-Walked left (index + 1) found (omega arith) at in
          record {
            after = rest.after;
            returns = ground (arith, bits index (omega arith), empty, rest.returns);
            place = rest.place;
            listed =
                rest.listed
                ∙ ap
                    (λ (l : List (List ℕ)).
                      map entry_of found.out ++ tagged T (l ++ others left index))
                    (sym (leaves_absent T levels (index ∷ q) empty));
          }
      | no held ↦
          let (c, new, e) = laws.new_valid index (omega arith) in
          one_slot left index found c ((omega arith, v.0), omega arith) held at new
            (λ next place. slots-Walked left (index + 1) next (omega arith) place)
    ]
