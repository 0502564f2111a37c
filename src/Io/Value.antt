-- ===== src/Io/Value.antt =====
-- Values and keys of the channel: `encode_value`, `decode_value` and `key_of`. A path is given by its
-- bytes; `utf8` is the standard library's test of UTF-8.
use chton.Prelude.{ℕ, ◌+◌, ◌-◌, ◌%◌, ◌^◌, Bool, List, ◌∷◌, ◌++◌, length, take, drop, replicate}
use chton.Prelude.{ltb, ◌==◌, if◌then◌else◌}
use chton.Prelude.Outcome.{Result, ok, err}
use chton.Prelude.Bytes.{to_le, from_le}
use chton.Map.{MapError}

-- The messages of the errors, which are strings in the code.
pub data IoError : Type 0 where
  value_too_short path_truncated path_not_utf8 empty_path : IoError
  path_too_long : ℕ → ℕ → IoError
  prefix_too_long : ℕ → IoError
  map_error : MapError → IoError

-- `[u32 length of the path][path][content]`
unfoldable pub encode_value : List ℕ → List ℕ → List ℕ
encode_value path content = to_le 4 (length path % 2 ^ 32) ++ (path ++ content)

unfoldable pub decode_value : (List ℕ → Bool) → List ℕ → Result IoError (List ℕ × List ℕ)
decode_value utf8 value =
    let path_len = from_le (take 4 value) in
    let path = take path_len (drop 4 value) in
    if ltb (length value) 4
    then err value_too_short
    else if ltb (length value) (4 + path_len)
    then err path_truncated
    else if utf8 path
    then ok (path, drop (4 + path_len) value)
    else err path_not_utf8

-- The bytes of the key at depth `n`: the length, the path, and zeros.
unfoldable pub key_of : ℕ → List ℕ → Result IoError (List ℕ)
key_of n path =
    let len = length path in
    if len == 0
    then err empty_path
    else if ltb (n - 1) len
    then err (path_too_long len (n - 1))
    else if ltb len 256
    then ok (len ∷ (path ++ replicate (n - 1 - len) 0))
    else err (prefix_too_long len)
