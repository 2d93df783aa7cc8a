-- ===== src/Json.antt =====
-- The documents that the program passes around: what `json.loads` returns, with whole numbers.
-- A Python dict is its items in insertion order, each key once; `get` is `dict.get`.
pub mod Laws
pub mod Equality
pub mod Reflexive
use mncs_commons.Base.{
  ℕ, zero, suc, ◌+◌, ℤ, pos, String, Bool, true, false, not, Option, none, some, List, [], ◌∷◌,
  ◌==◌, if◌then◌else◌, or_else, is_some,
}

mutual
  pub data Json : Type 0 where
    null : Json
    bool : Bool → Json
    num : ℤ → Json
    text : String → Json
    arr : Items → Json
    obj : Fields → Json

  pub data Items : Type 0 where
    nil : Items
    cons : Json → Items → Items

  pub data Fields : Type 0 where
    end : Fields
    field : String → Json → Fields → Fields

abbrev pub to_list : Items → List Json
to_list nil = []
to_list (cons v vs) = v ∷ to_list vs

abbrev pub from_list : List Json → Items
from_list [] = nil
from_list (v ∷ vs) = cons v (from_list vs)

-- `[str, …]` as a document
abbrev pub texts : List String → Items
texts [] = nil
texts (s ∷ ss) = cons (text s) (texts ss)

unfoldable pub lookup : String → Fields → Option Json
lookup k end = none
lookup k (field j v fs) = if j == k then some v else lookup k fs

-- `fs.get(k)`
unfoldable pub get : String → Fields → Json
unfolding lookup
get k fs = or_else (lookup k fs) null

-- `fs.get(k, d)`
unfoldable pub get_or : String → Json → Fields → Json
unfolding lookup
get_or k d fs = or_else (lookup k fs) d

-- `k in fs`
unfoldable pub has : String → Fields → Bool
unfolding lookup
has k fs = is_some (lookup k fs)

-- `fs[k] = v`
unfoldable pub set : String → Json → Fields → Fields
set k v end = field k v end
set k v (field j w fs) = if j == k then field j v fs else field j w (set k v fs)

-- `fs.pop(k, None)`
unfoldable pub pop : String → Fields → Fields
pop k end = end
pop k (field j w fs) = if j == k then fs else field j w (pop k fs)

abbrev pub keys : Fields → List String
keys end = []
keys (field k v fs) = k ∷ keys fs

-- `value.get("a", {}).get("b")` reads through this: what is no mapping has no fields.
abbrev pub fields_of : Json → Fields
fields_of (obj fs) = fs
fields_of _ = end

abbrev pub is_mapping : Json → Bool
is_mapping (obj fs) = true
is_mapping _ = false

abbrev pub is_list : Json → Bool
is_list (arr vs) = true
is_list _ = false

abbrev pub is_null : Json → Bool
is_null null = true
is_null _ = false

abbrev pub is_text : Json → Bool
is_text (text s) = true
is_text _ = false

abbrev pub items_of : Json → List Json
items_of (arr vs) = to_list vs
items_of _ = []

abbrev pub as_text : Json → Option String
as_text (text s) = some s
as_text _ = none

-- `value == "..."`
abbrev pub equals : Json → String → Bool
equals (text s) k = s == k
equals _ k = false

-- Python's `bool(value)`
unfoldable pub truthy : Json → Bool
truthy null = false
truthy (bool b) = b
truthy (num (pos zero)) = false
truthy (num n) = true
truthy (text s) = not (s == "")
truthy (arr nil) = false
truthy (arr (cons v vs)) = true
truthy (obj end) = false
truthy (obj (field k v fs)) = true
