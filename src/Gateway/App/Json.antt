-- ===== src/Gateway/App/Json.antt =====
-- The Python values that `request.json()` makes of a body, and the size of a `str` in UTF-8.
use distributed_model_server.Prelude.{
  ℕ, ◌+◌, Text, Bool, ◌&&◌, List, [], ◌∷◌, Option, none, some, text_eq, ltb, leb, if◌then◌else◌,
}
use distributed_model_server.Protocol.{Double}

-- An integer is `natural n` or `negative n`, which stands for -(n + 1).
mutual
  pub data Json : Type 0 where
    null : Json
    boolean : Bool → Json
    natural negative : ℕ → Json
    real : Double → Json
    string : Text → Json
    array : Elements → Json
    object : Members → Json

  pub data Elements : Type 0 where
    empty : Elements
    element : Json → Elements → Elements

  -- the items of a dict, which has each key once
  pub data Members : Type 0 where
    end : Members
    member : Text → Json → Members → Members

-- `payload.keys()`
abbrev pub keys : Members → List Text
keys end = []
keys (member k v ms) = k ∷ keys ms

-- `payload.get(key)`, with `none` for a key that is not there.
unfoldable pub get : Text → Members → Option Json
get key end = none
get key (member k v ms) = if text_eq k key then some v else get key ms

-- A code point is encoded by one to four bytes; a surrogate has no encoding.
abbrev pub char_bytes : ℕ → Option ℕ
char_bytes c =
    if ltb c 128
    then some 1
    else if ltb c 2048
    then some 2
    else if leb 55296 c && ltb c 57344
    then none
    else if ltb c 65536
    then some 3
    else some 4

abbrev pub add_bytes : Option ℕ → Option ℕ → Option ℕ
add_bytes (some m) (some n) = some (m + n)
add_bytes _ _ = none

-- `len(inp.encode("utf-8"))`, with `none` for a `UnicodeEncodeError`.
unfoldable pub utf8_length : Text → Option ℕ
utf8_length [] = some 0
utf8_length (c ∷ t) = add_bytes (char_bytes c) (utf8_length t)
