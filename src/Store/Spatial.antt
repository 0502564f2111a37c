-- ===== src/Store/Spatial.antt =====
-- `CoordEntityStore`: entries under the paths of their keys in a `CoordSpaceN`. The space belongs to
-- the crate tagma_core and is a parameter.
pub mod Laws
pub mod Filter
use chton.Prelude.{
  ℕ, suc, ◌+◌, ◌-◌, Bool, true, false, Option, none, some, List, [], ◌∷◌, ◌++◌, map, length,
  get_elem?,
}
use chton.Prelude.{ltb, leb, ◌==◌, not, ◌&&◌, if◌then◌else◌}
use chton.Prelude.Outcome.{Result, ok, err, Outcome, done, failed}
use chton.Prelude.Outcome.Stateful.{M}
use chton.Tagma.{Tagma}
use chton.Store.Key.{map_key_or_panic}
use chton.Store.Entity.{Panic, panicked, Key, EntityStore, is_some}
use chton.Store.Probe.{probe}

-- `CoordSpaceN<N, V>`; a change returns the value that was there. `iter_tree` and `iter_prefix` are
-- the entries in the order of iteration.
pub record CoordSpaceN (t : Tagma) (V : Type 0) : Type 1 where
  pub Space : Type 0
  pub space_new : Space
  pub at_path : t.CoordPath → Space → Option V
  pub place_path : t.CoordPath → V → Space → Option V × Space
  pub vacate_path : t.CoordPath → Space → Option V × Space
  pub count : Space → ℕ
  pub cleared : Space → Space
  pub iter_tree : Space → List (t.CoordPath × V)
  pub iter_prefix : List t.Coord → Space → Option (List (t.CoordPath × V))

-- The values of the entries that pass a test, in order.
unfoldable pub passing : {P V : Type 0} → (P × V → Bool) → List (P × V) → List V
passing test [] = []
passing test (entry ∷ entries) =
    let rest = passing test entries in if test entry then entry.1 ∷ rest else rest

-- The loop that measures the contiguous prefix: `i` checks were seen, all contiguous.
unfoldable pub prefix_len : ℕ → List (ℕ × ℕ) → ℕ
prefix_len i [] = i
prefix_len i ((axis, val) ∷ checks) =
    let further = prefix_len (i + 1) checks in if axis == i then further else i

unfoldable pub contiguous_prefix : List (ℕ × ℕ) → Option ℕ
unfolding prefix_len
contiguous_prefix checks =
    let n = prefix_len 0 checks in if ltb 0 n && n == length checks then some n else none

module _ ⦃t : Tagma⦄ where
  -- The coordinates of the prefix; `none` where a value is no coordinate.
  unfoldable pub prefix_coords : List (ℕ × ℕ) → Option (List t.Coord)
  prefix_coords [] = some []
  prefix_coords ((axis, val) ∷ checks) =
      let rest = prefix_coords checks in
      elim (t.coord_new val) [
        | none ↦ none
        | some c ↦ elim rest [ none ↦ none | some cs ↦ some (c ∷ cs) ]
      ]

  -- The inner loop of the full scan; `coords` has `N` entries.
  unfoldable pub passes : List (ℕ × ℕ) → List t.Coord → Bool
  passes [] coords = true
  passes ((axis, val) ∷ checks) coords =
      let rest = passes checks coords in
      if leb t.depth axis then false else (elim (get_elem? coords axis) [
        | none ↦ false
        | some c ↦ if t.index c == val then rest else false
      ])

module _ ⦃t : Tagma⦄ {V : Type 0} (c : CoordSpaceN t V) (chars : List ℕ → List ℕ) where
  open c use {Space}

  abbrev pub new : Space
  new = c.space_new

  unfoldable pub iter_filtered : (V → Bool) → Space → List V
  unfolding passing
  iter_filtered predicate s =
      passing (λ (entry : t.CoordPath × V). predicate entry.1) (c.iter_tree s)

  unfoldable pub axis_filtered : List (ℕ × ℕ) → Space → List V
  unfolding passing contiguous_prefix prefix_coords passes
  axis_filtered checks s = elim (contiguous_prefix checks) [
    | some n ↦ elim (prefix_coords checks) [
      | none ↦ []
      | some prefix ↦ elim (c.iter_prefix prefix s) [
        | none ↦ []
        | some entries ↦ map (λ entry. entry.1) entries
      ]
    ]
    | none ↦ passing (λ (entry : t.CoordPath × V). passes checks (t.coords entry.0)) (c.iter_tree s)
  ]

  unfoldable pub iter_prefix_filtered : List t.Coord → (V → Bool) → Space → Option (List V)
  unfolding passing
  iter_prefix_filtered prefix predicate s = elim (c.iter_prefix prefix s) [
    | none ↦ none
    | some entries ↦ some (passing (λ (entry : t.CoordPath × V). predicate entry.1) entries)
  ]

  unfoldable pub get_entry : Key → Space → Result Panic (Option V)
  get_entry key s = elim (probe chars key) [
    | err e ↦ err e
    | ok found ↦ elim found [ none ↦ ok none | some path ↦ ok (c.at_path path s) ]
  ]

  unfoldable pub insert_entry : Key → V → M Space Panic (Option V)
  insert_entry key value s = elim (map_key_or_panic chars key) [
    | none ↦ failed panicked s
    | some path ↦ done (c.place_path path value s).0 (c.place_path path value s).1
  ]

  unfoldable pub remove_entry : Key → M Space Panic (Option V)
  remove_entry key s = elim (probe chars key) [
    | err e ↦ failed e s
    | ok found ↦ elim found [
      | none ↦ done none s
      | some path ↦ done (c.vacate_path path s).0 (c.vacate_path path s).1
    ]
  ]

  unfoldable pub contains_entry : Key → Space → Result Panic Bool
  contains_entry key s = elim (probe chars key) [
    | err e ↦ err e
    | ok found ↦ elim found [ none ↦ ok false | some path ↦ ok (is_some (c.at_path path s)) ]
  ]

  unfoldable pub entry_count : Space → ℕ
  entry_count s = c.count s

  unfoldable pub all_values : Space → List V
  all_values s = map (λ (entry : t.CoordPath × V). entry.1) (c.iter_tree s)

  unfoldable pub clear_entries : M Space Panic (Unit {0})
  clear_entries s = done tt (c.cleared s)

  -- The loop of `replace_entries`; a key without a path panics, and keeps the entries before it.
  unfoldable pub place_all : List (Key × V) → M Space Panic (Unit {0})
  unfolding insert_entry
  place_all [] s = done tt s
  place_all ((key, value) ∷ entries) s = elim (insert_entry key value s) [
    | failed e s' ↦ failed e s'
    | done old s' ↦ place_all entries s'
  ]

  unfoldable pub replace_entries : List (Key × V) → M Space Panic (Unit {0})
  unfolding place_all
  replace_entries entries s = place_all entries (c.cleared s)

  unfoldable pub coord_store : EntityStore Space V
  unfolding get_entry insert_entry remove_entry contains_entry entry_count all_values clear_entries
      replace_entries
  coord_store = record {
    get = get_entry;
    insert = insert_entry;
    remove = remove_entry;
    contains_key = contains_entry;
    len = entry_count;
    values = λ s. ok (all_values s);
    clear = clear_entries;
    replace_from = replace_entries;
  }
