-- ===== src/Base/Updates.antt =====
-- What an update at an index changes, the sums of updated lists, and quotients.
use trinity_eth.Base.Tests.{◌==◌}
use trinity_eth.Base.Exceptions.{
  ok, >>=-eq-ok, ok_injective, update_at, index-some, floor_div, if-eq-ok,
}
use trinity_eth.Base.Lists.{get_elem?, set, sum}
use Prim.Native.Nat.{ℕ, zero, suc, ◌+◌, ◌/◌, ◌≤◌, ◌<◌}
use mathlib.Core.Path.{◌≡◌, refl, sym, subst, ◌∙◌, ap}
use mathlib.Core.Logic.{◌≢◌, inl, inr}
use mathlib.Core.Option
use mathlib.Core.Option.{Option, some, none}
use mathlib.Core.List.{List, [], ◌∷◌, ◌++◌, map}
use native.Mathlib.Omega.{arith}
use native.Mathlib.Nat.{le-div_iff_mul-le, div-mul-le_self, le_trans}

-- An update that returns found an item, and replaced it.
pub update_at-eq-ok {ℓ} :
    {A : Type ℓ} (xs : List A) (i : ℕ) (f : A → A) {ys : List A}
    → update_at xs i f ≡ ok ys
    → (x : A) × (get_elem? xs i ≡ some x) × (ys ≡ set xs i (f x))
unfolding update_at
update_at-eq-ok xs i f e =
    let (x, found, done) = >>=-eq-ok _ _ e in (x, index-some xs i found, sym (ok_injective done))

or_default {ℓ} : {A : Type ℓ} → A → Option A → A
or_default x none = x
or_default x (some y) = y

-- What one index holds is one item.
pub get_elem?_unique {ℓ} :
    {A : Type ℓ} (xs : List A) (i : ℕ) {x y : A}
    → get_elem? xs i ≡ some x
    → get_elem? xs i ≡ some y
    → x ≡ y
unfolding or_default
get_elem?_unique xs i {x} h k = ap (or_default x) (sym h ∙ k)

get_elem?-set_same {ℓ} :
    {A : Type ℓ} (xs : List A) (i : ℕ) {x : A} (y : A)
    → get_elem? xs i ≡ some x
    → get_elem? (set xs i y) i ≡ some y
get_elem?-set_same [] i y h = cc
get_elem?-set_same (z ∷ xs) zero y h = refl
get_elem?-set_same (z ∷ xs) (suc i) y h = get_elem?-set_same xs i y h

-- The item at the index of an update is the function's value at the item before.
pub get_elem?-update_at {ℓ} :
    {A : Type ℓ} (xs : List A) (i : ℕ) (f : A → A) {ys : List A}
    → update_at xs i f ≡ ok ys
    → (x : A) × (get_elem? xs i ≡ some x) × (get_elem? ys i ≡ some (f x))
get_elem?-update_at xs i f e =
    let (x, found, same) = update_at-eq-ok xs i f e in
    (
      x,
      found,
      subst (λ ys. get_elem? ys i ≡ some (f x)) (sym same) (get_elem?-set_same xs i _ found),
    )

sum-set :
    (xs : List ℕ) (i : ℕ) {x : ℕ} (d : ℕ)
    → get_elem? xs i ≡ some x
    → sum (set xs i (x + d)) ≡ sum xs + d
sum-set [] i d h = cc
sum-set (y ∷ xs) zero d h = ground arith
sum-set (y ∷ xs) (suc i) d h = omega (arith, sum-set xs i d h)

-- To add to one item is to add to the sum.
pub sum-update_at :
    (xs : List ℕ) (i d : ℕ) {ys : List ℕ}
    → update_at xs i (λ x. x + d) ≡ ok ys
    → sum ys ≡ sum xs + d
sum-update_at xs i d e =
    let (x, found, same) = update_at-eq-ok xs i _ e in
    subst (λ ys. sum ys ≡ sum xs + d) (sym same) (sum-set xs i d found)

pub sum-append : (xs ys : List ℕ) → sum (xs ++ ys) ≡ sum xs + sum ys
sum-append [] ys = omega arith
sum-append (x ∷ xs) ys = omega (arith, sum-append xs ys)

pub floor_div-eq-ok : (a b : ℕ) {q : ℕ} → floor_div a b ≡ ok q → (0 < b) × (a / b ≡ q)
floor_div-eq-ok a b e = elim (if-eq-ok (b == 0) _ _ e) [
  | inl (_, raised) ↦ cc
  | inr (positive, done) ↦ (ground arith, ok_injective done)
]

pub div_mono : {a b : ℕ} (k : ℕ) → 0 < k → a ≤ b → a / k ≤ b / k
div_mono {a} k positive h = (le-div_iff_mul-le positive).1 (le_trans (div-mul-le_self a k) h)

pub get_elem?-map {ℓ κ} :
    {A : Type ℓ} {B : Type κ} (f : A → B) (xs : List A) (i : ℕ) {x : A}
    → get_elem? xs i ≡ some x
    → get_elem? (map f xs) i ≡ some (f x)
get_elem?-map f [] i h = cc
get_elem?-map f (x ∷ xs) zero h = ap (Option.map f) h
get_elem?-map f (x ∷ xs) (suc i) h = get_elem?-map f xs i h

get_elem?-set_other {ℓ} :
    {A : Type ℓ} (xs : List A) (i j : ℕ) (y : A) → i ≢ j → get_elem? (set xs i y) j ≡ get_elem? xs j
get_elem?-set_other [] i j y h = refl
get_elem?-set_other (x ∷ xs) zero zero y h = absurd (h refl)
get_elem?-set_other (x ∷ xs) zero (suc j) y h = refl
get_elem?-set_other (x ∷ xs) (suc i) zero y h = refl
get_elem?-set_other (x ∷ xs) (suc i) (suc j) y h = get_elem?-set_other xs i j y (λ e. h (ap suc e))

-- An update leaves every other index as it was.
pub get_elem?-update_at_other {ℓ} :
    {A : Type ℓ} (xs : List A) (i j : ℕ) (f : A → A) {ys : List A}
    → update_at xs i f ≡ ok ys
    → i ≢ j
    → get_elem? ys j ≡ get_elem? xs j
get_elem?-update_at_other xs i j f e differ =
    let (x, _, same) = update_at-eq-ok xs i f e in
    subst (λ ys. get_elem? ys j ≡ get_elem? xs j) (sym same)
      (get_elem?-set_other xs i j (f x) differ)
