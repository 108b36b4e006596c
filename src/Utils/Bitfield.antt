-- ===== src/Utils/Bitfield.antt =====
-- eth2/_utils/bitfield.py and eth2/_utils/tuple.py.
use trinity_eth.Base.{
  ℕ, ◌+◌, ◌/◌, Bool, true, false, List, Result, ok, raise, validation_error, ◌>>=◌, Ensures,
  Ensures-ok, Ensures-raise, Option-cases, inl, inr, ◌≡◌, length-set, get_elem?, set, replicate,
  none, some, length, index, filter_list, range,
}

-- `list_data[index] = fn(list_data[index])`, an `IndexError` turned into a `ValidationError`.
unfoldable pub update_tuple_item_with_fn {ℓ} : {A : Type ℓ} → List A → ℕ → (A → A) → Result (List A)
update_tuple_item_with_fn items i fn = elim (get_elem? items i) [
  | none ↦ raise validation_error
  | some old ↦ ok (set items i (fn old))
]

abbrev pub update_tuple_item {ℓ} : {A : Type ℓ} → List A → ℕ → A → Result (List A)
update_tuple_item items i value = update_tuple_item_with_fn items i (λ _. value)

-- Both replace an item, and keep the length.
pub length-update_tuple_item_with_fn {ℓ} :
    {A : Type ℓ} (items : List A) (i : ℕ) (fn : A → A)
    → Ensures (λ ys. length ys ≡ length items) (update_tuple_item_with_fn items i fn)
unfolding update_tuple_item_with_fn
length-update_tuple_item_with_fn items i fn = elim (Option-cases (get_elem? items i)) [
  | inl absent ↦ rw (absent, update_tuple_item_with_fn) (Ensures-raise validation_error)
  | inr (old, found) ↦
      rw (found, update_tuple_item_with_fn) (Ensures-ok _ (length-set items i (fn old)))
]

abbrev pub has_voted : List Bool → ℕ → Result Bool
has_voted bitfield i = index bitfield i

abbrev pub set_voted : List Bool → ℕ → Result (List Bool)
set_voted bitfield i = update_tuple_item bitfield i true

unfoldable pub get_bitfield_length : ℕ → ℕ
get_bitfield_length bit_count = (bit_count + 7) / 8

abbrev pub get_empty_bitfield : ℕ → List Bool
get_empty_bitfield bit_count = replicate bit_count false

unfoldable pub get_vote_count : List Bool → Result ℕ
get_vote_count bitfield =
    filter_list (range 0 (length bitfield)) (has_voted bitfield) >>= λ voted. ok (length voted)
