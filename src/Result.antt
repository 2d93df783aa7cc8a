-- ===== src/Result.antt =====
-- Exceptions as values, and the functions of Python's library that the model takes as given.
use mncs_commons.Base.{ℕ, ℤ, String, Bool, true, false, ◌≡◌, refl, Option, List, [], ◌∷◌}
use mncs_commons.Json.{Json}

-- `refused` is an exception class of the program (its code and message), `uncaught` one of Python's
-- own, by its class name.
pub data Error : Type 0 where
  refused : String → String → Error
  uncaught : String → Error

pub data Result {ℓ} (Value : Type ℓ) : Type ℓ where
  err : Error → Result Value
  ok : Value → Result Value

-- The continuation runs on the value of a call that returned.
abbrev pub ◌>>=◌ {ℓ κ} :
    {Value : Type ℓ} {Next : Type κ} → Result Value → (Value → Result Next) → Result Next
err raised >>= continue = err raised
ok value >>= continue = continue value

-- For a call whose value is not used.
abbrev pub ◌>>◌ {κ} : {Next : Type κ} → Result (Unit {0}) → Result Next → Result Next
checked >> rest = checked >>= λ done. rest

infixl 5 ◌>>=◌ ◌>>◌
-- `if not condition: raise …`
abbrev pub require : Bool → String → String → Result (Unit {0})
require true code message = ok tt
require false code message = err (refused code message)

-- `if condition: raise …`
abbrev pub reject : Bool → String → String → Result (Unit {0})
reject false code message = ok tt
reject true code message = err (refused code message)

-- `[f(x) for x in xs]`, where `f` may raise.
module _ {ℓ κ} {A : Type ℓ} {B : Type κ} (f : A → Result B) where
  unfoldable pub each : List A → Result (List B)
  each [] = ok []
  each (x ∷ xs) = do y ← f x; ys ← each xs; ok (y ∷ ys)

-- A chain that returns: its first call returned, and so did the rest on that value.
pub >>=-eq-ok {ℓ κ} :
    {Value : Type ℓ} {Next : Type κ} (call : Result Value) (rest : Value → Result Next)
    {result : Next}
    → (call >>= rest) ≡ ok result
    → (value : Value) × (call ≡ ok value) × (rest value ≡ ok result)
>>=-eq-ok (err raised) rest returned = cc
>>=-eq-ok (ok value) rest returned = (value, refl, returned)

pub ok-injective {ℓ} : {Value : Type ℓ} {v w : Value} → ok v ≡ ok w → v ≡ w
ok-injective same = cc

pub require-eq-ok :
    (b : Bool) (code message : String) {u : Unit {0}} → require b code message ≡ ok u → b ≡ true
require-eq-ok true code message h = refl
require-eq-ok false code message h = cc

pub reject-eq-ok :
    (b : Bool) (code message : String) {u : Unit {0}} → reject b code message ≡ ok u → b ≡ false
reject-eq-ok false code message h = refl
reject-eq-ok true code message h = cc

-- Functions of Python's standard library, as they are at one run.
pub record Runtime : Type 0 where
  -- `str(value)` where `value` is no text
  pub repr : Json → String
  -- `int(text)`, `none` for a `ValueError`
  pub parse_int : String → Option ℤ
  -- `hashlib.sha256(text.encode("utf-8")).hexdigest()`
  pub sha256 : String → String
  -- `text.lower()`
  pub lower : String → String
  -- `urlparse(text).hostname` and `urlparse(text).path`
  pub hostname : String → Option String
  pub url_path : String → String
  -- `datetime.fromisoformat(text)`: `none` for a `ValueError`; else whether the instant has a
  -- time zone, and the instant in UTC, as text with `Z` for the offset
  pub instant : String → Option (Bool × String)
  -- `json.loads(text)`: `none` for a `JSONDecodeError`
  pub loads : String → Option Json
  -- `Path(text)`: whether it is absolute, and its parts
  pub path : String → Bool × List String
  -- `len(text.encode("utf-8"))`
  pub size : String → ℕ
