-- ===== src/Store/Materialized/Models.antt =====
-- What a materialized store models, and what it needs for an insertion.
use chton.Prelude.{ℕ, ◌+◌, ◌^◌, ◌≤◌, ◌<◌, ◌≡◌, Option, some, List, All, length}
use chton.Prelude.Outcome.{ok}
use chton.Tagma.{Tagma}
use chton.Origin.{Origin}
use chton.Binding.{node_bytes, root_offset}
use chton.Map.{CoordMapStore}
use chton.Map.Record.{record_slot_size}
use chton.Map.Contents.{Represents}
use chton.Map.Space.{cost, cost_all}
use chton.Store.Entity.{Key, IsText}
use chton.Store.OnKeys.{path_of, on_keys}
use chton.Store.Materialized.{Codec, decoded}

-- What the code relies on of the codec: what was encoded decodes.
abbrev pub IsCodec : {V : Type 0} → Codec V → Type 0
IsCodec {V} codec =
    (v : V) (bytes : List ℕ) → codec.to_bytes v ≡ some bytes → codec.from_bytes bytes ≡ some v

module _ ⦃t : Tagma⦄ {V : Type 0} (codec : Codec V) (chars : List ℕ → List ℕ) where
  -- A key with a path, and a value whose encoding fits a record of `size` bytes.
  pub record Fits (size : ℕ) (key : Key) (v : V) : Type 0 where
    pub path : t.CoordPath
    pub bytes : List ℕ
    pub has_path : path_of chars key ≡ some path
    pub encodes : codec.to_bytes v ≡ some bytes
    pub room : 8 + length bytes ≤ size

module _ ⦃t : Tagma⦄ {S : Type 0} ⦃o : Origin S⦄ {V : Type 0} (byte : S → ℕ → ℕ) (codec : Codec V)
    (chars : List ℕ → List ℕ) (last : ℕ) where
  -- The store represents a map of encoded values, and a key has the value that is encoded at its path.
  pub record Models (m : CoordMapStore S) (F : Key → Option V) : Type 0 where
    pub contents : t.CoordPath → Option (List ℕ)
    pub values : t.CoordPath → Option V
    pub represents : Represents byte last m contents
    pub coded : (p : t.CoordPath) → decoded codec (contents p) ≡ ok (values p)
    pub found : (key : Key) → IsText key → F key ≡ on_keys chars values key

  pub record Accepts (key : Key) (v : V) (m : CoordMapStore S) : Type 0 where
    pub fits : Fits codec chars (record_slot_size m) key v
    pub space : m.bound.strategy.bump + cost last (record_slot_size m) < 2 ^ 64

  -- All entries fit, after a clear, below 2 ^ 64.
  pub record AcceptsAll (entries : List (Key × V)) (m : CoordMapStore S) : Type 0 where
    pub fits : All (λ entry. Fits codec chars (record_slot_size m) entry.0 entry.1) entries
    pub space : root_offset + node_bytes + cost_all last entries (record_slot_size m) < 2 ^ 64
