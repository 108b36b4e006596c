-- ===== src/Base/Exceptions.antt =====
-- Python's exceptions as values: a function that may raise returns a `Result`.
use trinity_eth.Base.Tests.{◌==◌, if◌then◌else◌}
use trinity_eth.Base.Lists.{get_elem?, set}
use Prim.Native.Nat.{ℕ, ◌/◌, ◌%◌}
use mathlib.Core.Path.{◌≡◌, refl, ap, subst}
use mathlib.Core.Logic.{◌⊎◌, inl, inr}
use mathlib.Core.Bool.{Bool, true, false}
use mathlib.Core.Option.{Option, none, some}
use mathlib.Core.List.{List, [], ◌∷◌, ◌++◌}
use native.Mathlib.Omega.{arith}

-- The exception classes that the modelled code raises, by class and without the message.
pub data Error : Type 0 where
  validation_error : Error
  invalid_epoch_error : Error
  signature_error : Error
  public_key_error : Error
  index_error : Error
  value_error : Error
  overflow_error : Error
  zero_division_error : Error
  assertion_error : Error
  -- a bare `Exception`
  exception : Error
  key_error : Error
  type_error : Error
  not_implemented_error : Error
  attribute_error : Error
  -- No exception of the program: a loop of the model used up its rounds.
  out_of_rounds : Error

pub data Result {ℓ} (A : Type ℓ) : Type ℓ where
  ok : A → Result A
  raise : Error → Result A

-- It stays shut: the rules of `Postconditions` go by it.
infixl 5 ◌>>=◌ ◌>>◌
unfoldable pub ◌>>=◌ {ℓ κ} : {A : Type ℓ} {B : Type κ} → Result A → (A → Result B) → Result B
ok a >>= next = next a
raise error >>= next = raise error

abbrev pub ◌>>◌ {ℓ} : {B : Type ℓ} → Result (Unit {0}) → Result B → Result B
check >> rest = check >>= λ _. rest

-- `if failed: raise e`.
abbrev pub raise_if : Bool → Error → Result (Unit {0})
raise_if true e = raise e
raise_if false e = ok tt

abbrev pub or_raise {ℓ} : {A : Type ℓ} → Option A → Error → Result A
or_raise none e = raise e
or_raise (some a) e = ok a

-- `xs[i]`.
abbrev pub index {ℓ} : {A : Type ℓ} → List A → ℕ → Result A
index xs i = or_raise (get_elem? xs i) index_error

-- Replace the item at `i` by `f` of it, with an `IndexError` where there is none.
unfoldable pub update_at {ℓ} : {A : Type ℓ} → List A → ℕ → (A → A) → Result (List A)
update_at xs i f = index xs i >>= λ x. ok (set xs i (f x))

-- `a // b` on non-negative integers.
abbrev pub floor_div : ℕ → ℕ → Result ℕ
floor_div a b = if b == 0 then raise zero_division_error else ok (a / b)

-- `a % b` on non-negative integers.
abbrev pub modulo : ℕ → ℕ → Result ℕ
modulo a b = if b == 0 then raise zero_division_error else ok (a % b)

module _ {ℓ κ} {A : Type ℓ} {B : Type κ} where
  -- A comprehension over a fallible function: the first failure ends it.
  unfoldable pub for_each : List A → (A → Result B) → Result (List B)
  for_each [] f = ok []
  for_each (x ∷ xs) f = f x >>= λ y. for_each xs f >>= λ ys. ok (y ∷ ys)

  -- A `for` loop that carries a state.
  unfoldable pub fold_list : List A → (B → A → Result B) → B → Result B
  fold_list [] f s = ok s
  fold_list (x ∷ xs) f s = f s x >>= fold_list xs f

-- A filter with a fallible condition.
unfoldable pub filter_list {ℓ} : {A : Type ℓ} → List A → (A → Result Bool) → Result (List A)
filter_list [] p = ok []
filter_list (x ∷ xs) p =
    p x >>= λ keep. filter_list xs p >>= λ rest. ok (if keep then x ∷ rest else rest)

-- Inversion of a successful bind.
pub >>=-eq-ok {ℓ κ} :
    {A : Type ℓ} {B : Type κ} (first : Result A) (next : A → Result B) {last : B}
    → (first >>= next) ≡ ok last
    → (a : A) × (first ≡ ok a) × (next a ≡ ok last)
unfolding ◌>>=◌
>>=-eq-ok (ok a) next e = (a, refl, e)
>>=-eq-ok (raise error) next e = cc

pub Result-cases {ℓ} :
    {A : Type ℓ} (r : Result A) → ((a : A) × (r ≡ ok a)) ⊎ ((e : Error) × (r ≡ raise e))
Result-cases (ok a) = inl (a, refl)
Result-cases (raise e) = inr (e, refl)

pub index-some {ℓ} :
    {A : Type ℓ} (xs : List A) (i : ℕ) {a : A} → index xs i ≡ ok a → get_elem? xs i ≡ some a
index-some xs i h = ground arith

pub or_raise-eq-ok {ℓ} :
    {A : Type ℓ} (o : Option A) (e : Error) {a : A} → or_raise o e ≡ ok a → o ≡ some a
or_raise-eq-ok o e h = ground arith

-- The result, or a default where the call raised.
abbrev pub get_ok {ℓ} : {A : Type ℓ} → A → Result A → A
get_ok a (ok b) = b
get_ok a (raise e) = a

pub ok_injective {ℓ} : {A : Type ℓ} {a b : A} → ok a ≡ ok b → a ≡ b
ok_injective {a} h = ap (get_ok a) h

-- A check that did not raise had a false condition.
pub raise_if-eq-ok : (b : Bool) (e : Error) {u : Unit {0}} → raise_if b e ≡ ok u → b ≡ false
raise_if-eq-ok true e h = cc
raise_if-eq-ok false e h = refl

-- A comprehension over two lists in turn.
pub for_each-append {ℓ κ} :
    {A : Type ℓ} {B : Type κ} (xs ys : List A) (f : A → Result B) (as' bs : List B)
    → for_each xs f ≡ ok as'
    → for_each ys f ≡ ok bs
    → for_each (xs ++ ys) f ≡ ok (as' ++ bs)
unfolding for_each ◌>>=◌
for_each-append [] ys f as' bs ex ey =
    subst (λ zs. for_each ys f ≡ ok (zs ++ bs)) (ok_injective ex) ey
for_each-append (x ∷ xs) ys f as' bs ex ey =
    let (b, eb, rest) = >>=-eq-ok (f x) (λ y. for_each xs f >>= λ ys'. ok (y ∷ ys')) ex in
    let (cs, ecs, last) = >>=-eq-ok (for_each xs f) (λ ys'. ok (b ∷ ys')) rest in
    rw eb (rw (for_each-append xs ys f cs bs ecs ey) (ap (λ zs. ok (zs ++ bs)) (ok_injective last)))

-- Where a choice returned, one of its branches did.
pub if-eq-ok {ℓ} :
    {A : Type ℓ} (b : Bool) (r s : Result A) {a : A}
    → (if b then r else s) ≡ ok a
    → ((b ≡ true) × (r ≡ ok a)) ⊎ ((b ≡ false) × (s ≡ ok a))
if-eq-ok true r s h = inl (refl, h)
if-eq-ok false r s h = inr (refl, h)
