-- ===== src/Base/Items.antt =====
-- Properties of every item of a list, by position.
use trinity_eth.Base.Lists.{get_elem?, set, drop, length, get_elem?-some}
use trinity_eth.Base.Exceptions.{ok, index, update_at, ◌>>=◌}
use Prim.Native.Nat.{ℕ, zero, suc, ◌+◌, ◌<◌, max}
use mathlib.Core.Path.{◌≡◌, refl, ap, sym, subst, ◌∙◌}
use mathlib.Core.Option.{none, some}
use mathlib.Core.List.{List, [], ◌∷◌, ◌++◌}
use native.Mathlib.Omega.{arith}

pub some_injective {ℓ} : {A : Type ℓ} {a b : A} → some a ≡ some b → a ≡ b
some_injective {a} h = ap (λ o. elim o [ none ↦ a | some c ↦ c ]) h

abbrev pub EachItem {ℓ κ} : {A : Type ℓ} → (ℕ → A → Type κ) → List A → Type (ℓ ⊔ κ)
EachItem {A} P xs = (i : ℕ) (x : A) → get_elem? xs i ≡ some x → P i x

module _ {ℓ κ} {A : Type ℓ} where
  pub EachItem-set :
      (P : ℕ → A → Type κ) (xs : List A) (i : ℕ) (v : A)
      → EachItem P xs
      → P i v
      → EachItem P (set xs i v)
  EachItem-set P [] i v each at j x h = each j x h
  EachItem-set P (x ∷ xs) zero v each at zero y h = subst (P 0) (some_injective h) at
  EachItem-set P (x ∷ xs) zero v each at (suc j) y h = each (suc j) y h
  EachItem-set P (x ∷ xs) (suc i) v each at zero y h = each 0 y h
  EachItem-set P (x ∷ xs) (suc i) v each at (suc j) y h =
      EachItem-set (λ k. P (suc k)) xs i v (λ k. each (suc k)) at j y h

  pub EachItem-cons :
      (P : ℕ → A → Type κ) (x : A) (xs : List A)
      → P 0 x
      → EachItem (λ i. P (suc i)) xs
      → EachItem P (x ∷ xs)
  EachItem-cons P x xs here each zero y h = subst (P 0) (some_injective h) here
  EachItem-cons P x xs here each (suc i) y h = each i y h

  pub EachItem-snoc :
      (P : ℕ → A → Type κ) (xs : List A) (v : A)
      → EachItem P xs
      → P (length xs) v
      → EachItem P (xs ++ v ∷ [])
  EachItem-snoc P [] v each at zero y h = subst (P 0) (some_injective h) at
  EachItem-snoc P [] v each at (suc i) y h = cc
  EachItem-snoc P (x ∷ xs) v each at zero y h = each 0 y h
  EachItem-snoc P (x ∷ xs) v each at (suc i) y h =
      EachItem-snoc (λ k. P (suc k)) xs v (λ k. each (suc k)) at i y h

  get_elem?-drop : (n : ℕ) (xs : List A) (i : ℕ) → get_elem? (drop n xs) i ≡ get_elem? xs (n + i)
  get_elem?-drop zero xs i = ap (get_elem? xs) (omega arith)
  get_elem?-drop (suc n) [] i = refl
  get_elem?-drop (suc n) (x ∷ xs) i =
      get_elem?-drop n xs i ∙ ap (get_elem? (x ∷ xs)) {x = suc (n + i)} (omega arith)

  pub EachItem-drop :
      (P : ℕ → A → Type κ) (n : ℕ) (xs : List A)
      → EachItem P xs
      → EachItem (λ i. P (n + i)) (drop n xs)
  EachItem-drop P n xs each i x h = each (n + i) x (sym (get_elem?-drop n xs i) ∙ h)

module _ {ℓ} {A : Type ℓ} where
  pub index-ok :
      (xs : List A) (i : ℕ)
      → i < length xs
      → (x : A) × (index xs i ≡ ok x) × (get_elem? xs i ≡ some x)
  index-ok xs i h = let (x, e) = get_elem?-some xs i h in (x, rw e refl, e)

  pub update_at-ok :
      (xs : List A) (i : ℕ) (f : A → A) {x : A}
      → get_elem? xs i ≡ some x
      → update_at xs i f ≡ ok (set xs i (f x))
  unfolding update_at ◌>>=◌
  update_at-ok xs i f e = rw e refl

  pub length-drop : (n : ℕ) (xs : List A) → length (drop n xs) + n ≡ max n (length xs)
  length-drop zero xs = omega arith
  length-drop (suc n) [] = omega arith
  length-drop (suc n) (x ∷ xs) = omega (arith, length-drop n xs)
