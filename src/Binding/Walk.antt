-- ===== src/Binding/Walk.antt =====
-- Enumeration: `iter` and `count_records` walk the bitmaps of the whole tree, depth first.
use chton.Prelude.{Bool, ℕ, zero, suc, ◌+◌, ◌/◌, ◌%◌, ◌^◌, none, some, get_or, set}
use chton.Prelude.{List, [], ◌∷◌, ◌++◌, replicate, ◌==◌, if◌then◌else◌}
use Prim.Native.Nat.{bit_and}
use chton.Prelude.Outcome.{Result, ok, err, map_err, Fault, panic, error}
use chton.Prelude.Outcome.Fallible.{◌>>=◌, ◌>>◌}
use chton.Tagma.{Tagma}
use chton.Origin.{Origin}
use chton.Binding.{BindingError, absent, root_offset}
use chton.Binding.Read.{slot_pos, read_slot, read_bitmap, check_child_in_bounds}

-- `bitmap[index / 8] & (1 << (index % 8)) == 0`
unfoldable pub is_clear : List ℕ → ℕ → Bool
is_clear bitmap index = bit_and (get_or bitmap (index / 8) 0) (2 ^ (index % 8)) == 0

module _ ⦃t : Tagma⦄ where
  -- `unwrap` and `expect` of `Coord::new`.
  abbrev pub expect_coord : ℕ → Result (Fault BindingError) t.Coord
  expect_coord i = elim (t.coord_new i) [ none ↦ err panic | some c ↦ ok c ]

  -- The path being built and the records found so far.
  pub record Found : Type 0 where
    pub path : List t.Coord
    pub out : List (t.CoordPath × ℕ)

module _ ⦃t : Tagma⦄ {S : Type 0} ⦃o : Origin S⦄ where
  -- The loop over the slots of one node, with `left` of them to go; `child` is the recursive call
  -- on a node one level down.
  unfoldable pub iter_slots :
      (ℕ → Found → Result (Fault BindingError) Found)
      → S
      → List ℕ
      → ℕ
      → ℕ
      → ℕ
      → ℕ
      → Found
      → Result (Fault BindingError) Found
  unfolding is_clear
  iter_slots child s bitmap node depth zero index found = ok found
  iter_slots child s bitmap node depth (suc left) index found =
      let next = iter_slots child s bitmap node depth left (index + 1) in
      if is_clear bitmap index then next found else do
        value ← map_err error (read_slot s (slot_pos node index))
        if value == absent then next found else do
          coord ← expect_coord index
          let path = set found.path depth coord
          found' ←
              (if depth + 1 == t.depth
                then ok (record { path = path; out = found.out ++ ((t.path_new path, value) ∷ []) })
                else (map_err error (check_child_in_bounds s value)
                    >> child value (record found { path = path })))
          next found'

  -- The recursion descends one level at a time, so the depth bounds it.
  unfoldable pub iter_node : S → ℕ → ℕ → ℕ → Found → Result (Fault BindingError) Found
  unfolding iter_slots
  iter_node s zero node depth found = err panic
  iter_node s (suc left) node depth found =
      let child = (λ (value : ℕ) (f : Found). iter_node s left value (depth + 1) f) in
      (do
        bitmap ← map_err error (read_bitmap s node)
        iter_slots child s bitmap node depth t.n_valid 0 found)

  unfoldable pub iter : S → Result (Fault BindingError) (List (t.CoordPath × ℕ))
  unfolding iter_node
  iter s = if t.depth == 0 then ok [] else do
    coord ← expect_coord 0
    found ← iter_node s t.depth root_offset 0 (record { path = replicate t.depth coord; out = [] })
    ok found.out

  -- `count += …` on a `u64`.
  unfoldable pub count_slots :
      (ℕ → Result (Fault BindingError) ℕ)
      → S
      → List ℕ
      → ℕ
      → ℕ
      → ℕ
      → ℕ
      → ℕ
      → Result (Fault BindingError) ℕ
  unfolding is_clear
  count_slots child s bitmap node depth zero index count = ok count
  count_slots child s bitmap node depth (suc left) index count =
      let next = (λ (n : ℕ). count_slots child s bitmap node depth left (index + 1) n) in
      if is_clear bitmap index then next count else do
        value ← map_err error (read_slot s (slot_pos node index))
        if value == absent then next count else do
          below ←
              (if depth + 1 == t.depth
                then ok 1
                else (map_err error (check_child_in_bounds s value) >> child value))
          next ((count + below) % 2 ^ 64)

  -- At `N = 0` only the root is read; the code would descend from a node there without a bound, which is
  -- a panic here.
  unfoldable pub count_node : S → ℕ → ℕ → ℕ → Result (Fault BindingError) ℕ
  unfolding count_slots
  count_node s zero node depth = do
    bitmap ← map_err error (read_bitmap s node)
    count_slots (λ (value : ℕ). err panic) s bitmap node depth t.n_valid 0 0
  count_node s (suc left) node depth =
      let child = (λ (value : ℕ). count_node s left value (depth + 1)) in
      (do
        bitmap ← map_err error (read_bitmap s node)
        count_slots child s bitmap node depth t.n_valid 0 0)

  unfoldable pub count_records : S → Result (Fault BindingError) ℕ
  unfolding count_node
  count_records s = count_node s t.depth root_offset 0
