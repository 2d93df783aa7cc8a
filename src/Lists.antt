-- ===== src/Lists.antt =====
-- A property of every item of a list, and the list functions that keep it.
use mathlib.Core.Path.{subst}
use mncs_commons.Base.{
  ap, map, ◌⊎◌, sym, ◌≡◌, Bool, true, List, [], ◌∷◌, keep, Bool-cases, inl, inr, ◌++◌, refl,
}
use mncs_commons.Result.{Result, ok, each, >>=-eq-ok, ok-injective}

-- A property of every item of a list.
module _ {A : Type 0} (P : A → Type 0) where
  abbrev pub Every : List A → Type 0
  Every [] = Unit
  Every (x ∷ xs) = P x × Every xs

module _ {A B : Type 0} (f : A → Result B) (P : B → Type 0)
    (sound : (x : A) (y : B) → f x ≡ ok y → P y) where
  pub each-Every : (xs : List A) (ys : List B) → each f xs ≡ ok ys → Every P ys
  unfolding each
  each-Every [] ys h = rw (← ok-injective h) tt
  each-Every (x ∷ xs) ys h =
      let (y, e1, r1) = >>=-eq-ok (f x) _ h in
      let (rest, e2, r2) = >>=-eq-ok (each f xs) _ r1 in
      rw (← ok-injective r2) ((sound x y e1, each-Every xs rest e2))

module _ {A : Type 0} (p : A → Bool) (P : A → Type 0) where
  pub keep-Every : (xs : List A) → Every P xs → Every (λ x. P x × (p x ≡ true)) (keep p xs)
  unfolding keep
  keep-Every [] h = tt
  keep-Every (x ∷ xs) h = elim (Bool-cases (p x)) [
    | inl kept ↦ rw kept (((h.0, kept), keep-Every xs h.1))
    | inr cut ↦ rw cut (keep-Every xs h.1)
  ]

-- A concatenation that is empty.
pub append-nil-left : {A : Type 0} (xs ys : List A) → xs ++ ys ≡ [] → xs ≡ []
append-nil-left [] ys h = refl
append-nil-left (x ∷ xs) ys h = cc

pub append-nil-right : {A : Type 0} (xs ys : List A) → xs ++ ys ≡ [] → ys ≡ []
append-nil-right [] ys h = h
append-nil-right (x ∷ xs) ys h = cc

pub append-nil : {A : Type 0} (xs ys : List A) → xs ≡ [] → ys ≡ [] → xs ++ ys ≡ []
append-nil [] ys h k = k
append-nil (x ∷ xs) ys h k = cc

-- An item stands in a list.
abbrev pub Occurs : {A : Type 0} → A → List A → Type 0
Occurs x [] = ⊥
Occurs x (y ∷ ys) = (x ≡ y) ⊎ Occurs x ys

pub Every-Occurs :
    {A : Type 0} (P : A → Type 0) (x : A) (xs : List A) → Every P xs → Occurs x xs → P x
Every-Occurs P x [] h m = absurd m
Every-Occurs P x (y ∷ ys) h (inl here) = subst P (sym here) h.0
Every-Occurs P x (y ∷ ys) h (inr later) = Every-Occurs P x ys h.1 later

pub keep-Occurs :
    {A : Type 0} (p : A → Bool) (x : A) (xs : List A)
    → p x ≡ true
    → Occurs x xs
    → Occurs x (keep p xs)
unfolding keep
keep-Occurs p x [] h m = m
keep-Occurs p x (y ∷ ys) h (inl here) = rw (subst (λ z. p z ≡ true) here h) (inl here)
keep-Occurs p x (y ∷ ys) h (inr later) = elim (Bool-cases (p y)) [
  | inl kept ↦ rw kept (inr (keep-Occurs p x ys h later))
  | inr cut ↦ rw cut (keep-Occurs p x ys h later)
]

pub Every-map :
    {A : Type 0} (P Q : A → Type 0) (xs : List A) → ((x : A) → P x → Q x) → Every P xs → Every Q xs
Every-map P Q [] f h = tt
Every-map P Q (x ∷ xs) f h = (f x h.0, Every-map P Q xs f h.1)

pub append-end : {A : Type 0} (xs : List A) → xs ++ [] ≡ xs
append-end [] = refl
append-end (x ∷ xs) = ap (λ zs. x ∷ zs) (append-end xs)

pub append-cons :
    {A : Type 0} (xs : List A) (x : A) (ys : List A) → (xs ++ x ∷ []) ++ ys ≡ xs ++ x ∷ ys
append-cons [] x ys = refl
append-cons (first ∷ xs) x ys = ap (λ zs. first ∷ zs) (append-cons xs x ys)

pub map-append :
    {A B : Type 0} (f : A → B) (xs : List A) (x : A) → map f (xs ++ x ∷ []) ≡ map f xs ++ f x ∷ []
map-append f [] x = refl
map-append f (y ∷ ys) x = ap (λ zs. f y ∷ zs) (map-append f ys x)
