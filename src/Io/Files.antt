-- ===== src/Io/Files.antt =====
-- The channel as a map from paths to contents: what one call reads and changes.
use chton.Prelude.{
  zero, length-replicate, length-append, ℕ, suc, ◌+◌, ◌-◌, ◌^◌, ◌≤◌, ◌<◌, ◌≡◌, ◌≢◌, Bool, true,
  Option, none, some, Option-cases, inl, inr,
}
use chton.Prelude.{List, [], ◌∷◌, ◌++◌, All, length, replicate, arith, ap, sym, ◌∙◌}
use chton.Prelude.Outcome.{ok, done}
use chton.Prelude.Bytes.{IsByte}
use chton.Tagma.{Tagma, TagmaLaws}
use chton.Origin.{Origin}
use chton.Origin.Laws.{IsMedium}
use chton.Binding.Shape.{path_discrete}
use chton.Map.{CoordMapStore}
use chton.Map.Record.{record_slot_size}
use chton.Map.Contents.{Represents, get_path-Represents}
use chton.Map.Put.{update, update_self, update-ne, put_path-Represents}
use chton.Map.Remove.{remove_path-Represents}
use chton.Map.Space.{cost}
use chton.Map.Surface.{ByteKeys}
use chton.Store.Entity.{assign}
use chton.Io.Value.{encode_value, key_of}
use chton.Io.RoundTrip.{decode_value-encode_value, key_of-injective, padded}
use chton.Io.Channel.{read, write, delete}
use chton.Io.ReadBack.{IsShort, key, path_of-short, length-encode_value}

abbrev pub encoded : List ℕ → Option (List ℕ) → Option (List ℕ)
encoded path none = none
encoded path (some content) = some (encode_value path content)

module _ ⦃t : Tagma⦄ (keys : ByteKeys t) where
  -- What the code relies on of byte keys: different arrays of `N` bytes have different paths.
  abbrev pub IsKeys : Type 0
  IsKeys =
      (a b : List ℕ)
      → length a ≡ t.depth
      → length b ≡ t.depth
      → All IsByte a
      → All IsByte b
      → keys.to_coord_path (keys.key_new a) ≡ keys.to_coord_path (keys.key_new b)
      → a ≡ b

  module _ (utf8 : List ℕ → Bool) where
    -- A path of the channel: bytes of UTF-8, from 1 to 255 and below the depth.
    pub record IsFile (path : List ℕ) : Type 0 where
      pub short : IsShort t.depth path
      pub bytes : All IsByte path
      pub text : utf8 path ≡ true

All-append : (xs ys : List ℕ) → All IsByte xs → All IsByte ys → All IsByte (xs ++ ys)
All-append [] ys h h' = h'
All-append (x ∷ xs) ys h h' = (h.0, All-append xs ys h.1 h')

zeros-IsByte : (n : ℕ) → All IsByte (replicate n 0)
zeros-IsByte zero = tt
zeros-IsByte (suc n) = (omega arith, zeros-IsByte n)

module _ ⦃t : Tagma⦄ where
  padded-length : (path : List ℕ) → IsShort t.depth path → length (padded t.depth path) ≡ t.depth
  padded-length path (some_byte, fits, small) = omega (
    arith,
    length-append path (replicate (t.depth - 1 - length path) 0),
    length-replicate {A = ℕ} (t.depth - 1 - length path) 0,
  )

  padded-IsByte :
      (path : List ℕ) → IsShort t.depth path → All IsByte path → All IsByte (padded t.depth path)
  padded-IsByte path (some_byte, fits, small) bytes =
      (small, All-append path (replicate (t.depth - 1 - length path) 0) bytes (zeros-IsByte _))

  key_of-padded :
      (path : List ℕ) → IsShort t.depth path → key_of t.depth path ≡ ok (padded t.depth path)
  unfolding key_of
  key_of-padded path (some_byte, fits, small) = ground arith

module _ ⦃t : Tagma⦄ {keys : ByteKeys t} (injective : IsKeys keys) {utf8 : List ℕ → Bool} where
  -- Different files have different keys.
  pub keys_differ :
      (p q : List ℕ) → IsFile keys utf8 p → IsFile keys utf8 q → key keys p ≡ key keys q → p ≡ q
  keys_differ p q f g e =
      let same =
        injective (padded t.depth p) (padded t.depth q) (padded-length p f.short)
          (padded-length q g.short) (padded-IsByte p f.short f.bytes)
          (padded-IsByte q g.short g.bytes) e in
      key_of-injective t.depth p q (padded t.depth p) (key_of-padded p f.short)
        (key_of-padded q g.short ∙ ap ok (sym same))

module _ ⦃t : Tagma⦄ {S : Type 0} ⦃o : Origin S⦄ (byte : S → ℕ → ℕ) (keys : ByteKeys t)
    (utf8 : List ℕ → Bool) (last : ℕ) where
  -- The store represents a map that has the value of each file under its key.
  pub record Files (m : CoordMapStore S) (F : List ℕ → Option (List ℕ)) : Type 0 where
    pub contents : t.CoordPath → Option (List ℕ)
    pub represents : Represents byte last m contents
    pub len_small : m.len < 2 ^ 64
    pub found :
        (path : List ℕ) → IsFile keys utf8 path → contents (key keys path) ≡ encoded path (F path)

  -- A call that returned, and the files afterwards.
  pub record Changed (m after : CoordMapStore S) (G : List ℕ → Option (List ℕ)) : Type 0 where
    pub files : Files after G
    pub same_size : record_slot_size after ≡ record_slot_size m
    pub space_used :
        after.bound.strategy.bump ≤ m.bound.strategy.bump + cost last (record_slot_size m)

module _ ⦃t : Tagma⦄ (laws : TagmaLaws t) {S : Type 0} ⦃o : Origin S⦄ {byte : S → ℕ → ℕ}
    (medium : IsMedium o byte) {keys : ByteKeys t} (injective : IsKeys keys) {utf8 : List ℕ → Bool}
    (last : ℕ) (depth_eq : suc last ≡ t.depth) (m : CoordMapStore S) (F : List ℕ → Option (List ℕ))
    (files : Files byte keys utf8 last m F) (path : List ℕ) (file : IsFile keys utf8 path) where
  -- A change under the key of one file leaves the other files.
  found-assign :
      (r : Option (List ℕ)) (q : List ℕ)
      → IsFile keys utf8 q
      → update last files.contents (key keys path) (encoded path r) (key keys q)
        ≡ encoded q (assign F path r q)
  found-assign r q file' = elim (path_discrete q path) [
    | yes same ↦ ground (
      arith,
      same,
      ap (λ (p : List ℕ). key keys p) same,
      update_self last files.contents (key keys path) (encoded path r),
      ap (λ (p : List ℕ). encoded p r) same,
    )
    | no differs ↦
        let other : key keys q ≢ key keys path =
          λ e. differs (keys_differ injective q path file' file e) in
        ground (
          arith,
          differs,
          update-ne last files.contents (key keys path) (encoded path r) (key keys q) laws depth_eq
              other,
          files.found q file',
        )
  ]

  pub read-Files : read keys utf8 path m ≡ ok (F path)
  unfolding read
  read-Files = elim (Option-cases (F path)) [
    | inl missing ↦ ground (
      arith,
      path_of-short keys path file.short,
      get_path-Represents laws medium last depth_eq m files.contents (key keys path)
          files.represents,
      files.found path file,
      missing,
    )
    | inr (content, there) ↦ ground (
      arith,
      path_of-short keys path file.short,
      get_path-Represents laws medium last depth_eq m files.contents (key keys path)
          files.represents,
      files.found path file,
      there,
      decode_value-encode_value utf8 path content (omega (arith, file.short.2)) file.text,
    )
  ]

  pub write-Files :
      (content : List ℕ)
      → 12 + length path + length content ≤ record_slot_size m
      → m.bound.strategy.bump + cost last (record_slot_size m) < 2 ^ 64
      → (after : CoordMapStore S) × (write keys path content m ≡ done tt after)
        × Changed byte keys utf8 last m after (assign F path (some content))
        × (after.dirty ≡ true)
  unfolding write
  write-Files content room space =
      let value = encode_value path content in
      let put =
        put_path-Represents laws medium (key keys path) last depth_eq m files.contents value
          files.represents (omega (arith, length-encode_value path content)) (omega arith) in
      (
        put.after,
        ground (arith, path_of-short keys path file.short, put.returns),
        record {
          files = record {
            contents = update last files.contents (key keys path) (some value);
            represents = put.represents;
            len_small = elim (Option-cases (files.contents (key keys path))) [
              | inl missing ↦ ground (arith, put.len_after, missing)
              | inr (v, there) ↦ ground (arith, put.len_after, there, files.len_small)
            ];
            found = found-assign (some content);
          };
          same_size = put.same_size;
          space_used = omega (arith, put.space_used);
        },
        put.buffered,
      )

  pub delete-Files :
      (after : CoordMapStore S) × (delete keys path m ≡ done tt after)
      × Changed byte keys utf8 last m after (assign F path none)
  unfolding delete
  delete-Files =
      let gone =
        remove_path-Represents laws medium (key keys path) last depth_eq m files.contents
          files.represents in
      (
        gone.after,
        ground (arith, path_of-short keys path file.short, gone.returns),
        record {
          files = record {
            contents = update last files.contents (key keys path) none;
            represents = gone.represents;
            len_small = elim (Option-cases (files.contents (key keys path))) [
              | inl missing ↦ ground (arith, gone.len_after, missing, files.len_small)
              | inr (v, there) ↦ ground (arith, gone.len_after, there, files.len_small)
            ];
            found = found-assign none;
          };
          same_size = gone.same_size;
          space_used = omega (arith, gone.same_bump);
        },
      )
