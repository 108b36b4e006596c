-- ===== src/Base/Maps.antt =====
-- Python's dictionaries with byte strings as keys, in the order of insertion.
use trinity_eth.Base.Tests.{if◌then◌else◌, Bool-cases}
use trinity_eth.Base.Lists.{same_bytes, same_bytes_refl, same_bytes→eq}
use Prim.Native.Nat.{ℕ}
use mathlib.Core.Path.{◌≡◌, refl, sym}
use mathlib.Core.Logic.{inl, inr}
use mathlib.Core.Bool.{Bool, true, false}
use mathlib.Core.Option.{Option, none, some}
use mathlib.Core.List.{List, [], ◌∷◌}

abbrev pub Dict {ℓ} : Type ℓ → Type ℓ
Dict V = List (List ℕ × V)

-- `d.get(key)`
abbrev pub dict_get {ℓ} : {V : Type ℓ} → List ℕ → Dict V → Option V
dict_get key [] = none
dict_get key (entry ∷ d) = if same_bytes entry.0 key then some entry.1 else dict_get key d

abbrev pub is_some {ℓ} : {A : Type ℓ} → Option A → Bool
is_some none = false
is_some (some a) = true

-- `key in d`
abbrev pub dict_has {ℓ} : {V : Type ℓ} → List ℕ → Dict V → Bool
dict_has key d = is_some (dict_get key d)

-- `d[key] = value`
abbrev pub dict_set {ℓ} : {V : Type ℓ} → List ℕ → V → Dict V → Dict V
dict_set key value [] = (key, value) ∷ []
dict_set key value (entry ∷ d) =
    if same_bytes entry.0 key then (key, value) ∷ d else entry ∷ dict_set key value d

-- `del d[key]` of a key that is there
abbrev pub dict_del {ℓ} : {V : Type ℓ} → List ℕ → Dict V → Dict V
dict_del key [] = []
dict_del key (entry ∷ d) = if same_bytes entry.0 key then d else entry ∷ dict_del key d

module _ {ℓ} {V : Type ℓ} where
  pub dict_get-dict_set :
      (key : List ℕ) (value : V) (d : Dict V) → dict_get key (dict_set key value d) ≡ some value
  dict_get-dict_set key value [] = rw (same_bytes_refl key) refl
  dict_get-dict_set key value (entry ∷ d) = elim (Bool-cases (same_bytes entry.0 key)) [
    | inl same ↦ rw (same, same_bytes_refl key) refl
    | inr other ↦ rw (other, other) (dict_get-dict_set key value d)
  ]

  pub dict_get-dict_set_other :
      (key key' : List ℕ) (value : V) (d : Dict V)
      → same_bytes key' key ≡ false
      → dict_get key (dict_set key' value d) ≡ dict_get key d
  dict_get-dict_set_other key key' value [] differ = rw differ refl
  dict_get-dict_set_other key key' value (entry ∷ d) differ =
      elim (Bool-cases (same_bytes entry.0 key')) [
        | inl same ↦ rw (same, differ, same_bytes→eq entry.0 key' same, differ) refl
        | inr other ↦ elim (Bool-cases (same_bytes entry.0 key)) [
          | inl here ↦ rw (other, here) refl
          | inr there ↦ rw (other, there) (dict_get-dict_set_other key key' value d differ)
        ]
      ]

  -- A key that is there stays there.
  pub dict_has-dict_set :
      (key key' : List ℕ) (value : V) (d : Dict V)
      → dict_has key d ≡ true
      → dict_has key (dict_set key' value d) ≡ true
  dict_has-dict_set key key' value d there = elim (Bool-cases (same_bytes key' key)) [
    | inl same ↦ rw (sym (same_bytes→eq key' key same), dict_get-dict_set key' value d) refl
    | inr other ↦ rw (dict_get-dict_set_other key key' value d other) there
  ]
