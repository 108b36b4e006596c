-- ===== src/Base/Postconditions.antt =====
-- Postconditions of functions that may raise, with a rule for each way to build such a function.
use trinity_eth.Base.Tests.{if◌then◌else◌}
use trinity_eth.Base.Exceptions.{
  Error, Result, ok, raise, ◌>>=◌, fold_list, ok_injective, update_at,
}
use trinity_eth.Base.Lists.{length, length-set}
use Prim.Native.Nat.{ℕ}
use mathlib.Core.Path.{◌≡◌, refl, subst}
use mathlib.Core.Bool.{Bool, true, false}
use mathlib.Core.List.{List, [], ◌∷◌}

-- Whatever the call returns, where it returns, satisfies `P`.
pub record Ensures {ℓ κ} {A : Type ℓ} (P : A → Type κ) (r : Result A) : Type (ℓ ⊔ κ) where
  pub at : (a : A) → r ≡ ok a → P a

module _ {ℓ κ} {A : Type ℓ} {P : A → Type κ} where
  pub Ensures-ok : (a : A) → P a → Ensures P (ok a)
  Ensures-ok a p = record { at = λ b h. subst P (ok_injective h) p }

  pub Ensures-raise : (e : Error) → Ensures P (raise e)
  Ensures-raise e = record { at = λ b h. cc }

  pub Ensures-if :
      (b : Bool) (r s : Result A)
      → (b ≡ true → Ensures P r)
      → (b ≡ false → Ensures P s)
      → Ensures P (if b then r else s)
  Ensures-if true r s hr hs = hr refl
  Ensures-if false r s hr hs = hs refl

module _ {ℓ κ ι} {A : Type ℓ} {B : Type κ} {P : B → Type ι} where
  -- The rest may use what is known of the first call's result.
  pub Ensures-bind :
      (m : Result A) (f : A → Result B)
      → ((a : A) → m ≡ ok a → Ensures P (f a))
      → Ensures P (m >>= f)
  unfolding ◌>>=◌
  Ensures-bind (ok a) f rest = rest a refl
  Ensures-bind (raise e) f rest = Ensures-raise e

  pub Ensures-fold :
      (xs : List A) (f : B → A → Result B) (s : B)
      → P s
      → ((t : B) (x : A) → P t → Ensures P (f t x))
      → Ensures P (fold_list xs f s)
  unfolding fold_list ◌>>=◌
  Ensures-fold [] f s p step = Ensures-ok s p
  Ensures-fold (x ∷ xs) f s p step = go (f s x) (step s x p) (λ t q. Ensures-fold xs f t q step)
    where
      go :
          (r : Result B)
          → Ensures P r
          → ((t : B) → P t → Ensures P (fold_list xs f t))
          → Ensures P (r >>= fold_list xs f)
      go (ok t) h rest = rest t (h.at t refl)
      go (raise e) h rest = Ensures-raise e

-- A replacement keeps the length.
pub length-update_at {ℓ} :
    {A : Type ℓ} (xs : List A) (i : ℕ) (f : A → A)
    → Ensures (λ ys. length ys ≡ length xs) (update_at xs i f)
unfolding update_at
length-update_at xs i f = Ensures-bind _ _ λ x e. Ensures-ok _ (length-set xs i (f x))
