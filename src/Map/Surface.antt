-- ===== src/Map/Surface.antt =====
-- The surface that `CoordMapStore` offers: enumeration and the traits `CoordMap`, `CoordMapKey` and
-- `CoordCubeMap`. Their methods have no error to return, so a failing call is a panic. Keys of bytes,
-- cubes and boxes belong to the crates tagma_map and tagma_geo and are parameters.
use chton.Prelude.{
  ◌+◌, ◌*◌, ltb, ℕ, Bool, ◌%◌, ◌^◌, Option, none, some, List, [], ◌∷◌, map, length, ◌==◌, not,
  if◌then◌else◌,
}
use chton.Prelude.Outcome.{Result, ok, err, map_err, done, failed, Fault, panic, error}
use chton.Prelude.Outcome.Fallible.{◌>>=◌}
use chton.Prelude.Outcome.Stateful.{M}
use chton.Tagma.{Tagma}
use chton.Origin.{Origin}
use chton.Binding.{BindingError}
use chton.Binding.Walk
use chton.Map.{MapError, binding, CoordMapStore}
use chton.Map.Record.{read_record}
use chton.Map.Store.{get_path, put_path, remove_path, clear_checked}

-- `CoordKey<N>` with its constructors and its path.
pub record ByteKeys (t : Tagma) : Type 1 where
  pub CoordKey : Type 0
  pub key_new : List ℕ → CoordKey
  pub from_str : List ℕ → CoordKey
  pub to_coord_path : CoordKey → t.CoordPath

-- `unwrap_or_else(|e| panic!(…))`
abbrev pub or_panic : {S E A : Type 0} → M S E A → M S (Fault E) A
or_panic m s = elim (m s) [ done a s' ↦ done a s' | failed e s' ↦ failed panic s' ]

abbrev pub expect : {E A : Type 0} → Result E A → Result (Fault E) A
expect (ok a) = ok a
expect (err e) = err panic

abbrev pub len : {S : Type 0} → CoordMapStore S → ℕ
len m = m.len

unfoldable pub is_empty : {S : Type 0} → CoordMapStore S → Bool
is_empty m = m.len == 0

abbrev pub of_binding : Fault BindingError → Fault MapError
of_binding panic = panic
of_binding (error e) = error (binding e)

-- An intermediate result of `usize`: an overflow panics in a build that checks for it, and wraps in
-- another.
unfoldable pub word : Bool → ℕ → Option ℕ
word checks n = if ltb n (2 ^ 64) then some n else if checks then none else some (n % 2 ^ 64)

-- `Vec::with_capacity` before `results` are collected, for items of `item` bytes; it panics beyond
-- `isize::MAX` bytes. `none` is a capacity whose computation panicked.
unfoldable pub reserved : {E A : Type 0} → ℕ → Option ℕ → Result (Fault E) A → Result (Fault E) A
reserved item none results = err panic
reserved item (some capacity) results =
    if ltb (capacity * item) (2 ^ 63) then results else err panic

-- The low byte of every coordinate.
unfoldable pub project_byte_key : ⦃t : Tagma⦄ (keys : ByteKeys t) → t.CoordPath → keys.CoordKey
project_byte_key ⦃t⦄ keys path = keys.key_new (map (λ c. t.index c % 2 ^ 8) (t.coords path))

module _ ⦃t : Tagma⦄ where
  -- `(2 * radius + 1).pow(N as u32)`
  unfoldable pub cube_capacity : Bool → ℕ → Option ℕ
  unfolding word
  cube_capacity checks radius = elim (word checks (2 * radius + 1)) [
    | none ↦ none
    | some side ↦ word checks (side ^ t.depth)
  ]

module _ ⦃t : Tagma⦄ {S : Type 0} ⦃o : Origin S⦄ where
  unfoldable pub clear : M (CoordMapStore S) (Fault MapError) (Unit {0})
  clear = or_panic clear_checked

  -- The values that `get_path` finds on the paths of an iterator.
  unfoldable pub found_on :
      List t.CoordPath → CoordMapStore S → Result (Fault MapError) (List (t.CoordPath × List ℕ))
  found_on [] m = ok []
  found_on (path ∷ paths) m =
      let rest = found_on paths m in
      (do
        val ← expect (get_path path m)
        others ← rest
        ok (elim val [ none ↦ others | some v ↦ (path, v) ∷ others ]))

  -- `cube center radius` are the paths of `CoordCube::from_path(center).proximity(radius)`, and `item`
  -- the bytes of a pair of a path and a vector.
  unfoldable pub proximity :
      Bool
      → ℕ
      → (t.CoordPath → ℕ → List t.CoordPath)
      → t.CoordPath
      → ℕ
      → CoordMapStore S
      → Result (Fault MapError) (List (t.CoordPath × List ℕ))
  unfolding found_on reserved cube_capacity
  proximity checks item cube center radius m =
      reserved item (cube_capacity checks radius) (found_on (cube center radius) m)

  -- `box ranges` are the paths of `BoundingBoxIter::new(ranges)`, and `count_paths ranges` is the count
  -- that the iterator gives, `none` where it panics.
  unfoldable pub bounding_box_range :
      ℕ
      → (List (ℕ × ℕ) → Option ℕ)
      → (List (ℕ × ℕ) → List t.CoordPath)
      → List (ℕ × ℕ)
      → CoordMapStore S
      → Result (Fault MapError) (List (t.CoordPath × List ℕ))
  unfolding found_on reserved
  bounding_box_range item count_paths box ranges m =
      reserved item (count_paths ranges) (found_on (box ranges) m)

  module _ (keys : ByteKeys t) where
    -- The values of the records that the tree lists.
    unfoldable pub entries :
        List (t.CoordPath × ℕ)
        → CoordMapStore S
        → Result (Fault MapError) (List (keys.CoordKey × List ℕ))
    unfolding project_byte_key
    entries [] m = ok []
    entries ((path, offset) ∷ more) m =
        let rest = entries more m in
        (do
          value ← map_err error (read_record m offset)
          others ← rest
          ok ((project_byte_key keys path, value) ∷ others))

    unfoldable pub iter : CoordMapStore S → Result (Fault MapError) (List (keys.CoordKey × List ℕ))
    unfolding entries
    iter m = do records ← map_err of_binding (Walk.iter m.bound.medium); entries records m

    unfoldable pub insert_by_coordkey :
        keys.CoordKey → List ℕ → M (CoordMapStore S) (Fault MapError) (Option (List ℕ))
    insert_by_coordkey key value = or_panic (put_path (keys.to_coord_path key) value)

    unfoldable pub get_by_coordkey :
        keys.CoordKey → CoordMapStore S → Result (Fault MapError) (Option (List ℕ))
    get_by_coordkey key m = expect (get_path (keys.to_coord_path key) m)

    unfoldable pub remove_by_coordkey :
        keys.CoordKey → M (CoordMapStore S) (Fault MapError) (Option (List ℕ))
    remove_by_coordkey key = or_panic (remove_path (keys.to_coord_path key))

    unfoldable pub insert : List ℕ → List ℕ → M (CoordMapStore S) (Fault MapError) (Option (List ℕ))
    unfolding insert_by_coordkey
    insert key value = insert_by_coordkey (keys.from_str key) value

    -- A key is given by its bytes; one of another length than `N` is not found.
    unfoldable pub get : List ℕ → CoordMapStore S → Result (Fault MapError) (Option (List ℕ))
    unfolding get_by_coordkey
    get key m =
        if not (length key == t.depth) then ok none else get_by_coordkey (keys.from_str key) m

    unfoldable pub remove : List ℕ → M (CoordMapStore S) (Fault MapError) (Option (List ℕ))
    unfolding remove_by_coordkey
    remove key m =
        if not (length key == t.depth)
        then done none m
        else remove_by_coordkey (keys.from_str key) m
