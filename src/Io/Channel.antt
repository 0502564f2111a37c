-- ===== src/Io/Channel.antt =====
-- `CoordMapStoreIo`: the channel's operations. The cell around the store lets methods on a shared
-- reference change it, so they are methods on the store here.
use chton.Prelude.{
  ℕ, Bool, true, false, Option, none, some, List, [], ◌∷◌, ◌&&◌, ◌==◌, if◌then◌else◌,
}
use chton.Prelude.Outcome.{Result, ok, err, map_err, done, failed, Fault, panic, error}
use chton.Prelude.Outcome.Fallible.{◌>>=◌}
use chton.Prelude.Outcome.Stateful.{M, within}
use chton.Tagma.{Tagma}
use chton.Origin.{Origin}
use chton.Map.{MapError, CoordMapStore}
use chton.Map.Store
use chton.Map.Store.{get_path, put_path, remove_path}
use chton.Map.Surface.{ByteKeys}
use chton.Map.Surface
use chton.Io.Value.{IoError, map_error, encode_value, decode_value, key_of}

pub data WriteOp : Type 0 where
  write_op : List ℕ → List ℕ → WriteOp
  delete_op : List ℕ → WriteOp

-- `starts_with`
abbrev pub starts_with : List ℕ → List ℕ → Bool
starts_with path [] = true
starts_with [] (p ∷ ps) = false
starts_with (x ∷ xs) (p ∷ ps) = (x == p) && starts_with xs ps

abbrev pub call : {S A : Type 0} → M (CoordMapStore S) MapError A → M (CoordMapStore S) IoError A
call = within (λ m. m) (λ m' m. m') map_error

module _ ⦃t : Tagma⦄ {S : Type 0} ⦃o : Origin S⦄ where
  abbrev pub is_buffered : CoordMapStore S → Bool
  is_buffered m = Store.is_buffered m

  unfoldable pub flush : M (CoordMapStore S) IoError (Unit {0})
  flush = call Store.flush

abbrev pub of_map : Fault MapError → Fault IoError
of_map panic = panic
of_map (error e) = error (map_error e)

module _ ⦃t : Tagma⦄ (keys : ByteKeys t) where
  -- The path of a key.
  unfoldable pub path_of : List ℕ → Result IoError t.CoordPath
  unfolding key_of
  path_of path = do bytes ← key_of t.depth path; ok (keys.to_coord_path (keys.key_new bytes))

  -- The paths among the values that decode; the others are passed over.
  unfoldable pub matching : (List ℕ → Bool) → List ℕ → List (keys.CoordKey × List ℕ) → List (List ℕ)
  matching utf8 prefix [] = []
  matching utf8 prefix ((key, value) ∷ entries) =
      let rest = matching utf8 prefix entries in
      elim (decode_value utf8 value) [
        | err e ↦ rest
        | ok found ↦ if starts_with found.0 prefix then found.0 ∷ rest else rest
      ]

module _ ⦃t : Tagma⦄ {S : Type 0} ⦃o : Origin S⦄ (keys : ByteKeys t) where
  unfoldable pub read :
      (List ℕ → Bool) → List ℕ → CoordMapStore S → Result IoError (Option (List ℕ))
  unfolding path_of
  read utf8 path m = do
    key ← path_of keys path
    found ← map_err map_error (get_path key m)
    (elim found [
      | none ↦ ok none
      | some value ↦ elim (decode_value utf8 value) [ ok v ↦ ok (some v.1) | err e ↦ err e ]
    ])

  unfoldable pub write : List ℕ → List ℕ → M (CoordMapStore S) IoError (Unit {0})
  unfolding path_of encode_value
  write path data_bytes m = elim (path_of keys path) [
    | err e ↦ failed e m
    | ok key ↦ elim (call (put_path key (encode_value path data_bytes)) m) [
      | failed e m' ↦ failed e m'
      | done old m' ↦ done tt m'
    ]
  ]

  unfoldable pub delete : List ℕ → M (CoordMapStore S) IoError (Unit {0})
  unfolding path_of
  delete path m = elim (path_of keys path) [
    | err e ↦ failed e m
    | ok key ↦ elim (call (remove_path key) m) [
      | failed e m' ↦ failed e m'
      | done old m' ↦ done tt m'
    ]
  ]

  abbrev pub apply_op : WriteOp → M (CoordMapStore S) IoError (Unit {0})
  apply_op (write_op path data_bytes) = write path data_bytes
  apply_op (delete_op path) = delete path

  -- `default_apply_batch`, which is also the loop of this channel's `apply_batch`.
  unfoldable pub default_apply_batch : List WriteOp → M (CoordMapStore S) IoError (Unit {0})
  unfolding write delete
  default_apply_batch [] m = done tt m
  default_apply_batch (op ∷ ops) m = elim (apply_op op m) [
    | failed e m' ↦ failed e m'
    | done _ m' ↦ default_apply_batch ops m'
  ]

  unfoldable pub apply_batch : List WriteOp → M (CoordMapStore S) IoError (Unit {0})
  unfolding default_apply_batch flush
  apply_batch ops m = elim (default_apply_batch ops m) [
    | failed e m' ↦ failed e m'
    | done _ m' ↦ if is_buffered m' then flush m' else done tt m'
  ]

  unfoldable pub list :
      (List ℕ → Bool) → List ℕ → CoordMapStore S → Result (Fault IoError) (List (List ℕ))
  unfolding matching
  list utf8 prefix m = do
    entries ← map_err of_map (Surface.iter keys m)
    ok (matching keys utf8 prefix entries)
