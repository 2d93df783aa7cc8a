-- ===== src/Json/Equality.antt =====
-- Python's `==` on documents: dicts compare by key whatever their order, `True == 1`, `False == 0`.
use mncs_commons.Base.{
  ℕ, suc, pos, Bool, true, false, ◌&&◌, none, some, ◌==◌, eqb, eqb_ℤ, if◌then◌else◌,
}
use mncs_commons.Json.{
  Json, null, bool, num, text, arr, obj, Items, nil, cons, Fields, end, field, lookup,
}

abbrev flag : Bool → Json
flag true = num (pos 1)
flag false = num (pos 0)

-- A Boolean is the integer that it stands for.
abbrev numeric : Json → Json
numeric (bool b) = flag b
numeric v = v

unfoldable pub size_fields : Fields → ℕ
size_fields end = 0
size_fields (field k v fs) = suc (size_fields fs)

unfoldable mutual
  unfolding size_fields lookup

  pub py_eq : Json → Json → Bool
  py_eq null w = elim w [ null ↦ true | _ ↦ false ]
  py_eq (bool b) w = elim (numeric w) [ num n ↦ eqb_ℤ (if b then pos 1 else pos 0) n | _ ↦ false ]
  py_eq (num n) w = elim (numeric w) [ num m ↦ eqb_ℤ n m | _ ↦ false ]
  py_eq (text s) w = elim w [ text t ↦ s == t | _ ↦ false ]
  py_eq (arr vs) w = elim w [ arr ws ↦ eq_items vs ws | _ ↦ false ]
  py_eq (obj fs) w = elim w [
    | obj gs ↦ eqb (size_fields fs) (size_fields gs) && within fs gs
    | _ ↦ false
  ]

  pub eq_items : Items → Items → Bool
  eq_items nil ws = elim ws [ nil ↦ true | cons w rest ↦ false ]
  eq_items (cons v vs) ws = elim ws [ nil ↦ false | cons w rest ↦ py_eq v w && eq_items vs rest ]

  -- Each item of the first dict is in the second.
  pub within : Fields → Fields → Bool
  within end gs = true
  within (field k v fs) gs =
      elim (lookup k gs) [ none ↦ false | some w ↦ py_eq v w ] && within fs gs
