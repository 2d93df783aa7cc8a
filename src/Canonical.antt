-- ===== src/Canonical.antt =====
-- src/mncs_commons/canonical.py: canonical JSON text, and the digest that names a document.
pub mod Identity
use Prim.Native.Char.{Char, code}
use Prim.Native.Nat.{◌/◌, ◌%◌}
use Prim.Native.String.{compare}
use package.text.Mathlib.Text.{is_le}
use mncs_commons.Base.{
  ℕ, zero, suc, ◌+◌, ◌-◌, pos, negsuc, String, ◌<>◌, Bool, true, false, ◌||◌, Option, none, some,
  List, [], ◌∷◌, ◌++◌, ◌==◌, eqb, ltb, if◌then◌else◌,
}
use mncs_commons.Json.{
  Json, null, bool, num, text, arr, obj, Items, nil, cons, Fields, end, field, to_list, from_list,
  get, set, pop,
}
use mncs_commons.Result.{Runtime}

-- A decimal or hexadecimal digit.
abbrev digit : ℕ → String
digit n =
    if eqb n 0
    then "0"
    else if eqb n 1
    then "1"
    else if eqb n 2
    then "2"
    else if eqb n 3
    then "3"
    else if eqb n 4
    then "4"
    else if eqb n 5
    then "5"
    else if eqb n 6
    then "6"
    else if eqb n 7
    then "7"
    else if eqb n 8
    then "8"
    else if eqb n 9
    then "9"
    else if eqb n 10
    then "a"
    else if eqb n 11
    then "b"
    else if eqb n 12
    then "c"
    else if eqb n 13
    then "d"
    else if eqb n 14
    then "e"
    else "f"

-- The decimal digits of a number; its successor is fuel enough, since each round divides by ten.
unfoldable pub decimal_fuel : ℕ → ℕ → String
decimal_fuel zero n = ""
decimal_fuel (suc f) n =
    let rest = decimal_fuel f (n / 10) in if ltb n 10 then digit n else rest <> digit (n % 10)

unfoldable pub decimal : ℕ → String
unfolding decimal_fuel
decimal n = decimal_fuel (suc n) n

-- `json.dumps` of one character inside a text, with `ensure_ascii=False`.
escape : Char → String
escape c =
    let n = code c in
    if eqb n 34
    then "\\\""
    else if eqb n 92
    then "\\\\"
    else if eqb n 8
    then "\\b"
    else if eqb n 9
    then "\\t"
    else if eqb n 10
    then "\\n"
    else if eqb n 12
    then "\\f"
    else if eqb n 13
    then "\\r"
    else if ltb n 32
    then "\\u00" <> digit (n / 16) <> digit (n % 16)
    else String.◌∷◌ c String.[]

escaped : String → String
unfolding escape
escaped String.[] = ""
escaped (String.◌∷◌ c s) = escape c <> escaped s

quoted : String → String
unfolding escaped
quoted s = "\"" <> escaped s <> "\""

-- `sorted(pairs, key=first)`, a stable insertion sort by code points (the order of the UTF-8 too).
module _ {A : Type 0} where
  insert_key : String → A → List (String × A) → List (String × A)
  insert_key k v [] = (k, v) ∷ []
  insert_key k v ((j, w) ∷ rest) =
      if is_le (compare k j) then (k, v) ∷ (j, w) ∷ rest else (j, w) ∷ insert_key k v rest

  sort_keys : List (String × A) → List (String × A)
  unfolding insert_key
  sort_keys [] = []
  sort_keys ((k, v) ∷ rest) = insert_key k v (sort_keys rest)

  abbrev values : List (String × A) → List A
  values [] = []
  values ((k, v) ∷ rest) = v ∷ values rest

abbrev joined : List String → String
joined [] = ""
joined (s ∷ []) = s
joined (s ∷ t ∷ rest) = s <> "," <> joined (t ∷ rest)

abbrev members : List (String × String) → List String
members [] = []
members ((k, v) ∷ rest) = (quoted k <> ":" <> v) ∷ members rest

-- `_encode`: compact separators, keys sorted.
unfoldable mutual
  unfolding decimal quoted sort_keys

  pub encode : Json → String
  encode null = "null"
  encode (bool true) = "true"
  encode (bool false) = "false"
  encode (num (pos n)) = decimal n
  encode (num (negsuc n)) = "-" <> decimal (n + 1)
  encode (text s) = quoted s
  encode (arr vs) = "[" <> joined (encode_items vs) <> "]"
  encode (obj fs) = "{" <> joined (members (sort_keys (encode_fields fs))) <> "}"

  encode_items : Items → List String
  encode_items nil = []
  encode_items (cons v vs) = encode v ∷ encode_items vs

  encode_fields : Fields → List (String × String)
  encode_fields end = []
  encode_fields (field k v fs) = (k, encode v) ∷ encode_fields fs

-- Whether a path is in `_UNORDERED_ARRAY_PATHS`. Paths are held with the last key first.
abbrev is_unordered : List String → Bool
is_unordered (k ∷ []) =
    k == "evidence" || k == "relationships" || k == "dependencies" || k == "affectedContracts"
is_unordered (k ∷ j ∷ []) =
    if j == "scope"
    then k == "reviewWhen"
    else if j == "provenance"
    then k == "sourceRecords" || k == "ancestry"
    else false
is_unordered _ = false

abbrev keyed : List Json → List (String × Json)
keyed [] = []
keyed (v ∷ vs) = (encode v, v) ∷ keyed vs

-- `sorted(items, key=_encode)`
sorted_items : Items → Items
unfolding sort_keys encode
sorted_items vs = from_list (values (sort_keys (keyed (to_list vs))))

unfoldable mutual
  unfolding sorted_items

  pub canonicalize : List String → Json → Json
  canonicalize path null = null
  canonicalize path (bool b) = bool b
  canonicalize path (num n) = num n
  canonicalize path (text s) = text s
  canonicalize path (arr vs) =
      let items = canonicalize_items path vs in
      arr (if is_unordered path then sorted_items items else items)
  canonicalize path (obj fs) = obj (canonicalize_fields path fs)

  canonicalize_items : List String → Items → Items
  canonicalize_items path nil = nil
  canonicalize_items path (cons v vs) = cons (canonicalize path v) (canonicalize_items path vs)

  pub canonicalize_fields : List String → Fields → Fields
  canonicalize_fields path end = end
  canonicalize_fields path (field k v fs) =
      field k (canonicalize (k ∷ path) v) (canonicalize_fields path fs)

unfoldable pub canonical_json : Json → String
unfolding canonicalize encode
canonical_json value = encode (canonicalize [] value)

abbrev without_digest : Json → Fields → Fields
without_digest (obj metadata) fs = set "metadata" (obj (pop "contentDigest" metadata)) fs
without_digest _ fs = fs

-- The self-digest, at the top and under `metadata`, is no part of what is hashed.
unfoldable pub identity_projection : Fields → Fields
unfolding canonicalize
identity_projection value =
    let projection = canonicalize_fields [] value in
    pop "contentDigest" (without_digest (get "metadata" projection) projection)

-- `canonical_digest(value)`
unfoldable pub canonical_digest : Runtime → Fields → String
unfolding identity_projection encode
canonical_digest R value = "sha256:" <> R.sha256 (encode (obj (identity_projection value)))

-- `canonical_digest(value, projected=False)`
unfoldable pub plain_digest : Runtime → Fields → String
unfolding canonicalize encode
plain_digest R value = "sha256:" <> R.sha256 (encode (obj (canonicalize_fields [] value)))
