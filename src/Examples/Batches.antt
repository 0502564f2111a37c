-- ===== src/Examples/Batches.antt =====
-- A batch on a channel whose keys are pairs of bytes.
use chton.Prelude.{
  ℕ, ◌≡◌, Bool, true, Option, none, some, List, [], ◌∷◌, arith, refl, ap, ap₂, sym, ◌∙◌, get_or,
}
use chton.Prelude.Bytes.{IsByte}
use chton.Origin.Memory.{MemoryOrigin, memory_origin}
use chton.Origin.Memory.Medium.{byte_of, memory-IsMedium}
use chton.Binding.{node_bytes, bitmap_bytes}
use chton.Map.{CoordMapStore}
use chton.Map.Surface.{ByteKeys}
use chton.Map.Fresh.{fresh_store, fresh-Represents}
use chton.Io.Channel.{WriteOp, write_op, delete_op}
use chton.Io.Files.{IsKeys, IsFile, Files}
use chton.Io.Batch.{Settled, apply_batch-Files}
use chton.Examples.Hangul.{
  Word, Syllable, hangul, hangul-laws, syllable, ga, syllable_valid, word_of,
}
use chton.Examples.Stores.{no_bytes}

abbrev or_ga : Option Syllable → Syllable
or_ga none = ga
or_ga (some c) = c

abbrev word_of_bytes : List ℕ → Word
word_of_bytes bytes =
    word_of (or_ga (syllable (get_or bytes 0 0)) ∷ or_ga (syllable (get_or bytes 1 0)) ∷ [])

abbrev byte_keys : ByteKeys hangul
byte_keys = record {
  CoordKey = List ℕ;
  key_new = λ bytes. bytes;
  from_str = λ bytes. bytes;
  to_coord_path = word_of_bytes;
}

byte-number : (b : ℕ) → IsByte b → (or_ga (syllable b)).0 ≡ b
byte-number b small =
    let (c, at, same) = syllable_valid b (omega arith) in
    ap (λ (o : Option Syllable). (or_ga o).0) at ∙ same

byte_keys-IsKeys : IsKeys ⦃t = hangul⦄ byte_keys
byte_keys-IsKeys (a ∷ b ∷ []) (c ∷ d ∷ []) l l' (x, (y, z)) (x', (y', z')) e =
    let first : a ≡ c = sym (byte-number a x) ∙ ap (λ (w : Word). w.first.0) e ∙ byte-number c x' in
    let second : b ≡ d =
      sym (byte-number b y) ∙ ap (λ (w : Word). w.second.0) e ∙ byte-number d y' in
    ap₂ (λ (p q : ℕ). p ∷ q ∷ []) first second
byte_keys-IsKeys [] ys l l' h h' e = absurd (omega arith)
byte_keys-IsKeys (a ∷ []) ys l l' h h' e = absurd (omega arith)
byte_keys-IsKeys (a ∷ b ∷ c ∷ xs) ys l l' h h' e = absurd (omega arith)
byte_keys-IsKeys (a ∷ b ∷ []) [] l l' h h' e = absurd (omega arith)
byte_keys-IsKeys (a ∷ b ∷ []) (c ∷ []) l l' h h' e = absurd (omega arith)
byte_keys-IsKeys (a ∷ b ∷ []) (c ∷ d ∷ f ∷ ys) l l' h h' e = absurd (omega arith)

abbrev ascii : List ℕ → Bool
ascii bytes = true

abbrev shelf : CoordMapStore MemoryOrigin
shelf = fresh_store ⦃t = hangul⦄ no_bytes 32

abbrev no_files : List ℕ → Option (List ℕ)
no_files path = none

shelf-Files : Files ⦃t = hangul⦄ byte_of byte_keys ascii 1 shelf no_files
unfolding node_bytes bitmap_bytes
shelf-Files = record {
  contents = λ key. none;
  represents =
      fresh-Represents ⦃t = hangul⦄ memory-IsMedium 1 refl no_bytes 32 refl (omega arith)
        (omega arith) (omega arith);
  len_small = omega arith;
  found = λ path file. refl;
}

a-IsFile : IsFile ⦃t = hangul⦄ byte_keys ascii (97 ∷ [])
a-IsFile = record {
  short = (omega arith, omega arith, omega arith);
  bytes = (omega arith, tt);
  text = refl;
}

b-IsFile : IsFile ⦃t = hangul⦄ byte_keys ascii (98 ∷ [])
b-IsFile = record {
  short = (omega arith, omega arith, omega arith);
  bytes = (omega arith, tt);
  text = refl;
}

-- Write `a`, write `b`, delete `a`.
abbrev three_ops : List WriteOp
three_ops = write_op (97 ∷ []) (1 ∷ 2 ∷ []) ∷ write_op (98 ∷ []) (3 ∷ []) ∷ delete_op (97 ∷ []) ∷ []

apply_batch-Files_example : Settled ⦃t = hangul⦄ byte_of byte_keys ascii 1 shelf three_ops no_files
unfolding node_bytes bitmap_bytes
apply_batch-Files_example =
    apply_batch-Files ⦃t = hangul⦄ hangul-laws memory-IsMedium {keys = byte_keys} byte_keys-IsKeys
      {utf8 = ascii} 1 refl three_ops shelf no_files shelf-Files (omega arith)
      ((a-IsFile, omega arith), ((b-IsFile, omega arith), (a-IsFile, tt))) (omega arith)
