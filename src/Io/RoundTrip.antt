-- ===== src/Io/RoundTrip.antt =====
-- Values decode to what was encoded, and different paths have different keys.
use chton.Prelude.{
  take-append, drop-append, ℕ, ◌+◌, ◌-◌, ◌%◌, ◌^◌, ◌<◌, ◌≡◌, Bool, true, List, ◌∷◌, ◌++◌, length,
  get_or, take, drop, replicate,
}
use chton.Prelude.{arith, refl, ap, sym, ◌∙◌, length-append}
use chton.Prelude.Outcome.{ok}
use chton.Prelude.Bytes.{to_le, from_le, length-to_le, from_le-to_le}
use chton.Io.Value.{encode_value, decode_value, key_of}

-- A value decodes to the path and the content that it was made of, if the path is UTF-8 and its
-- length fits 32 bits.
pub decode_value-encode_value :
    (utf8 : List ℕ → Bool) (path content : List ℕ)
    → length path < 2 ^ 32
    → utf8 path ≡ true
    → decode_value utf8 (encode_value path content) ≡ ok (path, content)
unfolding decode_value encode_value
decode_value-encode_value utf8 path content small valid =
    let prefix = to_le 4 (length path) in
    let same : length path % 2 ^ 32 ≡ length path = omega arith in
    let width : length prefix ≡ 4 = length-to_le 4 (length path) in
    let back : from_le prefix ≡ length path = from_le-to_le 4 (length path) (omega arith) in
    let front = take-append 4 prefix (path ++ content) (omega (arith, width)) in
    let middle = drop-append 4 0 prefix (path ++ content) (omega (arith, width)) in
    let rest =
      drop-append (4 + length path) (length path) prefix (path ++ content) (omega (arith, width))
      ∙ drop-append (length path) 0 path content (omega arith) in
    ground (
      arith,
      same,
      front,
      back,
      middle,
      rest,
      take-append (length path) path content refl,
      valid,
      length-append prefix (path ++ content),
      length-append path content,
      width,
    )

abbrev pub padded : ℕ → List ℕ → List ℕ
padded n p = length p ∷ (p ++ replicate (n - 1 - length p) 0)

pub key_of-shape : (n : ℕ) (p key : List ℕ) → key_of n p ≡ ok key → padded n p ≡ key
unfolding key_of
key_of-shape n p key e = ground arith

-- Two paths with the same key are the same.
pub key_of-injective :
    (n : ℕ) (p q key : List ℕ) → key_of n p ≡ ok key → key_of n q ≡ ok key → p ≡ q
unfolding key_of
key_of-injective n p q key e e' =
    let same = key_of-shape n p key e ∙ sym (key_of-shape n q key e') in
    let length_same : length p ≡ length q = ap (λ (l : List ℕ). get_or l 0 0) same in
    let rest = ap (λ (l : List ℕ). take (length p) (drop 1 l)) same in
    sym (take-append (length p) p _ refl) ∙ rest ∙ take-append (length p) q _ length_same
