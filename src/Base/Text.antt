-- ===== src/Base/Text.antt =====
-- What the program uses of Python's `str`: white space, bounds, membership and splitting.
use Prim.Native.Char.{Char, code}
use Prim.Native.String.count
use Prim.Native.String.{String, count}
use mathlib.Core.Bool.{Bool, true, false, not, ◌&&◌, ◌||◌}
use mathlib.Core.Path.{◌≡◌, refl, ap}
use mathlib.Core.Logic.{inl, inr}
use native.Mathlib.Omega.{arith}
use mathlib.Core.List.{List, [], ◌∷◌, ◌++◌}
use text.Mathlib.Text.{◌==◌}
use Prim.Native.Nat.{◌≤◌, ℕ, zero, suc}
use mncs_commons.Base.Tests.{leb, eqb, if◌then◌else◌, Bool-cases}

-- The characters that `str.strip` removes.
unfoldable pub is_space : ℕ → Bool
is_space c =
    (leb 9 c && leb c 13)
    || (leb 28 c && leb c 32)
    || eqb c 133
    || eqb c 160
    || eqb c 5760
    || (leb 8192 c && leb c 8202)
    || eqb c 8232
    || eqb c 8233
    || eqb c 8239
    || eqb c 8287
    || eqb c 12288

-- `not value.strip()`
unfoldable pub is_blank : String → Bool
is_blank String.[] = true
is_blank (String.◌∷◌ c s) = is_space (code c) && is_blank s

strip_left : String → String
strip_left String.[] = String.[]
strip_left (String.◌∷◌ c s) =
    let rest = strip_left s in if is_space (code c) then rest else String.◌∷◌ c s

strip_right : String → String
unfolding is_blank
strip_right String.[] = String.[]
strip_right (String.◌∷◌ c s) =
    let rest = strip_right s in if is_blank (String.◌∷◌ c s) then String.[] else String.◌∷◌ c rest

unfoldable pub strip : String → String
unfolding strip_left strip_right
strip s = strip_right (strip_left s)

is_blank-strip_right : (s : String) → is_blank s ≡ true → strip_right s ≡ String.[]
unfolding strip_right is_blank
is_blank-strip_right String.[] h = refl
is_blank-strip_right (String.◌∷◌ c s) h = ground arith

is_blank-of_strip_right : (s : String) → is_blank (strip_right s) ≡ is_blank s
unfolding strip_right is_blank
is_blank-of_strip_right String.[] = refl
is_blank-of_strip_right (String.◌∷◌ c s) = elim (Bool-cases (is_space (code c) && is_blank s)) [
  | inl blank ↦ rw blank
  | inr solid ↦ rw solid (rw (is_blank-of_strip_right s) solid)
]

strip_right_idem : (s : String) → strip_right (strip_right s) ≡ strip_right s
unfolding strip_right is_blank
strip_right_idem String.[] = refl
strip_right_idem (String.◌∷◌ c s) = elim (Bool-cases (is_space (code c) && is_blank s)) [
  | inl blank ↦ rw blank
  | inr solid ↦
      rw solid (rw (is_blank-of_strip_right s) (rw solid (ap (String.◌∷◌ c) (strip_right_idem s))))
]

-- The first character, if any, is no space.
starts_solid : String → Bool
starts_solid String.[] = true
starts_solid (String.◌∷◌ c s) = not (is_space (code c))

starts_solid-strip_left : (s : String) → starts_solid (strip_left s) ≡ true
unfolding starts_solid strip_left
starts_solid-strip_left String.[] = refl
starts_solid-strip_left (String.◌∷◌ c s) = ground (arith, starts_solid-strip_left s)

starts_solid-strip_right :
    (s : String) → starts_solid s ≡ true → starts_solid (strip_right s) ≡ true
unfolding starts_solid strip_right
starts_solid-strip_right String.[] h = refl
starts_solid-strip_right (String.◌∷◌ c s) h = ground arith

strip_left-of_solid : (s : String) → starts_solid s ≡ true → strip_left s ≡ s
unfolding starts_solid strip_left
strip_left-of_solid String.[] h = refl
strip_left-of_solid (String.◌∷◌ c s) h = ground arith

pub strip-strip : (s : String) → strip (strip s) ≡ strip s
unfolding strip
strip-strip s =
    rw
      (strip_left-of_solid (strip_right (strip_left s))
        (starts_solid-strip_right (strip_left s) (starts_solid-strip_left s)))
      (strip_right_idem (strip_left s))

-- `"\x00" in value`
unfoldable pub has_nul : String → Bool
has_nul String.[] = false
has_nul (String.◌∷◌ c s) = eqb (code c) 0 || has_nul s

-- `value in items`
abbrev pub contains : List String → String → Bool
contains [] k = false
contains (x ∷ xs) k = x == k || contains xs k

-- `set(left) <= set(right)`
abbrev pub subset : List String → List String → Bool
subset [] ys = true
subset (x ∷ xs) ys = contains ys x && subset xs ys

-- `set(values)`, by first occurrence: the order carries no meaning.
abbrev pub insert : String → List String → List String
insert x xs = if contains xs x then xs else x ∷ xs

pub contains-append :
    (xs ys : List String) (k : String) → contains (xs ++ ys) k ≡ (contains xs k || contains ys k)
contains-append [] ys k = refl
contains-append (x ∷ xs) ys k = ground (arith, contains-append xs ys k)

-- `s[n:]`
abbrev pub skip : ℕ → String → String
skip zero s = s
skip (suc n) String.[] = String.[]
skip (suc n) (String.◌∷◌ c s) = skip n s

-- Every character of a text is a lower-case hexadecimal digit.
unfoldable pub is_hex : String → Bool
is_hex String.[] = true
is_hex (String.◌∷◌ c s) =
    ((leb 48 (code c) && leb (code c) 57) || (leb 97 (code c) && leb (code c) 102)) && is_hex s

is_blank-of_strip_left : (s : String) → is_blank (strip_left s) ≡ is_blank s
unfolding strip_left is_blank
is_blank-of_strip_left String.[] = refl
is_blank-of_strip_left (String.◌∷◌ c s) = ground (arith, is_blank-of_strip_left s)

pub is_blank-strip : (s : String) → is_blank (strip s) ≡ is_blank s
unfolding strip
is_blank-strip s = rw (is_blank-of_strip_right (strip_left s)) (is_blank-of_strip_left s)

count-cons : (c : Char) (s : String) → count (String.◌∷◌ c s) ≡ suc (count s)
count-cons c s = count.cons c s

count-strip_left : (s : String) → count (strip_left s) ≤ count s
unfolding strip_left
count-strip_left String.[] = ground arith
count-strip_left (String.◌∷◌ c s) = elim (Bool-cases (is_space (code c))) [
  | inl space ↦ rw space (ground (arith, count-strip_left s, count-cons c s))
  | inr solid ↦ rw solid (ground arith)
]

count-strip_right : (s : String) → count (strip_right s) ≤ count s
unfolding strip_right is_blank
count-strip_right String.[] = ground arith
count-strip_right (String.◌∷◌ c s) = elim (Bool-cases (is_space (code c) && is_blank s)) [
  | inl blank ↦ rw blank (ground (arith, count-cons c s))
  | inr solid ↦
      rw solid (ground (arith, count-strip_right s, count-cons c s, count-cons c (strip_right s)))
]

pub count-strip : (s : String) → count (strip s) ≤ count s
unfolding strip
count-strip s = ground (arith, count-strip_left s, count-strip_right (strip_left s))

has_nul-strip_left : (s : String) → has_nul s ≡ false → has_nul (strip_left s) ≡ false
unfolding strip_left has_nul
has_nul-strip_left String.[] h = refl
has_nul-strip_left (String.◌∷◌ c s) h = ground (arith, has_nul-strip_left s)

has_nul-strip_right : (s : String) → has_nul s ≡ false → has_nul (strip_right s) ≡ false
unfolding strip_right has_nul is_blank
has_nul-strip_right String.[] h = refl
has_nul-strip_right (String.◌∷◌ c s) h = elim (Bool-cases (is_space (code c) && is_blank s)) [
  | inl blank ↦ rw blank refl
  | inr solid ↦ rw solid (ground (arith, has_nul-strip_right s))
]

pub has_nul-strip : (s : String) → has_nul s ≡ false → has_nul (strip s) ≡ false
unfolding strip
has_nul-strip s h = has_nul-strip_right (strip_left s) (has_nul-strip_left s h)
