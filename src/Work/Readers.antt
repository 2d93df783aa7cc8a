-- ===== src/Work/Readers.antt =====
-- The bounded readers of work.py: each returns the value that it read, or raises.
use mncs_commons.Base.{
  ℕ, pos, String, ◌<>◌, Bool, true, false, not, ◌&&◌, Option, none, some, List, [], ◌∷◌, any,
  contains, count, has_nul, is_blank, strip, leb, length, if◌then◌else◌, ℤ,
}
use mncs_commons.Json.{
  Json, null, bool, num, text, arr, obj, Fields, end, field, get, to_list, keys,
}
use mncs_commons.Result.{
  Runtime, Result, ok, err, refused, uncaught, require, reject, each, ◌>>=◌, ◌>>◌,
}

abbrev pub max_text : ℕ
max_text = 16384

abbrev pub max_items : ℕ
max_items = 128

abbrev pub invalid {ℓ} : {A : Type ℓ} → String → Result A
invalid message = err (refused "WORK_INVALID" message)

-- The first test of `_text`, for a text.
unfoldable pub is_bounded : ℕ → String → Bool
is_bounded maximum s = not (is_blank s) && leb (count s) maximum && not (has_nul s)

-- `_text(value, field, maximum=…)`
unfoldable pub bounded_text : ℕ → Json → String → Result String
bounded_text maximum (text s) name =
    if is_bounded maximum s
    then ok (strip s)
    else invalid (name <> " must be bounded non-empty text")
bounded_text maximum _ name = invalid (name <> " must be bounded non-empty text")

-- `_optional_text`
unfoldable pub optional_text : Json → String → Result (Option String)
unfolding bounded_text
optional_text null name = ok none
optional_text value name = do s ← bounded_text max_text value name; ok (some s)

-- `_string_list` and `_bounded_string_list`
unfoldable pub string_list : Json → String → Result (List String)
string_list null name = ok []
string_list (arr items) name = do
  require (leb (length (to_list items)) max_items) "WORK_INVALID"
      (name <> " must be a bounded list")
  each (λ item. bounded_text max_text item (name <> "[]")) (to_list items)
string_list _ name = invalid (name <> " must be a bounded list")

-- `_mapping(value, field, required=True)`
unfoldable pub mapping : Json → String → Result Fields
mapping (obj fs) name = do
  require (leb (length (keys fs)) max_items) "WORK_INVALID" (name <> " must be a bounded object")
  ok fs
mapping _ name = invalid (name <> " must be a bounded object")

-- `_mapping(value, field)`
unfoldable pub optional_mapping : Json → String → Result Fields
unfolding mapping
optional_mapping null name = ok end
optional_mapping value name = mapping value name

abbrev bounded_item : String → Json → Result Json
bounded_item name (obj fs) = do
  require (leb (length (keys fs)) max_items) "WORK_INVALID" (name <> "[] must be a bounded object")
  ok (obj fs)
bounded_item name _ = invalid (name <> "[] must be a bounded object")

-- `_bounded_mapping_list`
unfoldable pub mapping_list : Json → String → Result (List Json)
mapping_list null name = ok []
mapping_list (arr items) name = do
  require (leb (length (to_list items)) max_items) "WORK_INVALID"
      (name <> " must be a bounded list")
  each (bounded_item name) (to_list items)
mapping_list _ name = invalid (name <> " must be a bounded list")

-- An integer that is no Boolean, between 0 and the bound.
abbrev pub is_bounded_int : ℕ → Json → Bool
is_bounded_int bound (num (pos n)) = leb n bound
is_bounded_int bound _ = false

-- `_bounded_priority`
unfoldable pub bounded_priority : Json → Result Json
bounded_priority value =
    if is_bounded_int 1000 value
    then ok value
    else invalid "priority must be an integer between 0 and 1000"

-- `_actor`
unfoldable pub actor_of : Json → String → Result Fields
actor_of value name = do
  actor ← mapping value name
  reject (any (λ k. not (contains ("type" ∷ "id" ∷ []) k)) (keys actor)) "WORK_INVALID"
      (name <> " contains unexpected fields")
  kind ← bounded_text 128 (get "type" actor) (name <> ".type")
  id ← bounded_text 1024 (get "id" actor) (name <> ".id")
  ok (field "type" (text kind) (field "id" (text id) end))

-- Python's `int(value)`
unfoldable pub to_int : Runtime → Json → Result ℤ
to_int R (num n) = ok n
to_int R (bool true) = ok (pos 1)
to_int R (bool false) = ok (pos 0)
to_int R (text s) = elim (R.parse_int s) [ some n ↦ ok n | none ↦ err (uncaught "ValueError") ]
to_int R _ = err (uncaught "TypeError")
