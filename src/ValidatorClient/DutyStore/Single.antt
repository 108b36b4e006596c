-- ===== src/ValidatorClient/DutyStore/Single.antt =====
-- The store keeps one duty for each validator at each tick.
use trinity_eth.Base.{
  dict_get-dict_set, dict_get-dict_set_other, Bool-cases, Option-cases, length, get_elem?,
  same_bytes, same_bytes_refl, same_bytes→eq, dict_get, dict_set, dict_get-dict_set,
  dict_get-dict_set_other, some_injective, EachItem, EachItem-cons, EachItem-snoc, ℕ, zero, suc,
  ◌≡◌, refl, sym, ap, subst, ◌∙◌, ◌≢◌, ◌⊎◌, inl, inr, true, false, some, List, [], ◌∷◌, ◌++◌,
}
use trinity_eth.ValidatorClient.Duties.{Duty}
use trinity_eth.ValidatorClient.DutyStore.{
  DutyMap, to_tick_count, contains_duty_at_tick, or_nothing, add_duty, add_duties,
}

-- The duties at one tick: they are due at it, and no two are for one validator.
pub record IsKept (target : List ℕ) (duties : List Duty) : Type 0 where
  pub due : EachItem (λ i d. to_tick_count d.tick_for_execution ≡ target) duties
  pub single :
      (i j : ℕ) (d e : Duty)
      → get_elem? duties i ≡ some d
      → get_elem? duties j ≡ some e
      → d.validator_public_key ≡ e.validator_public_key
      → i ≡ j

abbrev pub IsKeptStore : DutyMap → Type 0
IsKeptStore store =
    (target : List ℕ) (duties : List Duty)
    → dict_get target store ≡ some duties
    → IsKept target duties

IsKept-nothing : (target : List ℕ) → IsKept target []
IsKept-nothing target = record { due = λ i d at. cc; single = λ i j d e at. cc }

not_contained :
    (duties : List Duty) (duty : Duty)
    → contains_duty_at_tick duties duty ≡ false
    → EachItem (λ i d. d.validator_public_key ≢ duty.validator_public_key) duties
not_contained [] duty new = λ i d at. cc
not_contained (d ∷ duties) duty new =
    elim (Bool-cases (same_bytes d.validator_public_key duty.validator_public_key)) [
      | inl same ↦ λ i x at. let clash : true ≡ false = rw same at new in cc
      | inr other ↦
          EachItem-cons _ d duties
            (λ equal.
              let clash : true ≡ false =
                sym (same_bytes_refl duty.validator_public_key)
                ∙ ap (λ k. same_bytes k duty.validator_public_key) (sym equal)
                ∙ other in
              cc)
            (not_contained duties duty (rw other at new))
    ]

snoc-cases :
    {A : Type 0} (xs : List A) (v : A) (i : ℕ) {x : A}
    → get_elem? (xs ++ v ∷ []) i ≡ some x
    → (get_elem? xs i ≡ some x) ⊎ ((i ≡ length xs) × (v ≡ x))
snoc-cases [] v zero at = inr (refl, some_injective at)
snoc-cases [] v (suc i) at = cc
snoc-cases (y ∷ xs) v zero at = inl at
snoc-cases (y ∷ xs) v (suc i) at = elim (snoc-cases xs v i at) [
  | inl old ↦ inl old
  | inr (last, new) ↦ inr (ap suc last, new)
]

IsKept-snoc :
    (target : List ℕ) (duties : List Duty) (duty : Duty)
    → to_tick_count duty.tick_for_execution ≡ target
    → contains_duty_at_tick duties duty ≡ false
    → IsKept target duties
    → IsKept target (duties ++ duty ∷ [])
IsKept-snoc target duties duty due new kept =
    let others = not_contained duties duty new in
    record {
      due = EachItem-snoc _ duties duty kept.due due;
      single = λ i j d e at_i at_j same. elim (snoc-cases duties duty i at_i) [
        | inl old_i ↦ elim (snoc-cases duties duty j at_j) [
          | inl old_j ↦ kept.single i j d e old_i old_j same
          | inr (last_j, is_e) ↦ absurd (others i d old_i (rw is_e same))
        ]
        | inr (last_i, is_d) ↦ elim (snoc-cases duties duty j at_j) [
          | inl old_j ↦ absurd (others j e old_j (rw is_d (sym same)))
          | inr (last_j, is_e) ↦ last_i ∙ sym last_j
        ]
      ];
    }

IsKeptStore-dict_set :
    (store : DutyMap) (target : List ℕ) (duties : List Duty)
    → IsKept target duties
    → IsKeptStore store
    → IsKeptStore (dict_set target duties store)
IsKeptStore-dict_set store target duties kept kept_store target' duties' e =
    elim (Bool-cases (same_bytes target target')) [
      | inl same ↦
          let here = same_bytes→eq target target' same in
          let stored =
            sym (dict_get-dict_set target duties store)
            ∙ ap (λ t. dict_get t (dict_set target duties store)) here
            ∙ e in
          subst (λ t. IsKept t duties') here (subst (IsKept target) (some_injective stored) kept)
      | inr other ↦
          kept_store target' duties'
            (sym (dict_get-dict_set_other target' target duties store other) ∙ e)
    ]

read_duties-IsKept :
    (store : DutyMap) (target : List ℕ)
    → IsKeptStore store
    → IsKept target (or_nothing (dict_get target store))
read_duties-IsKept store target kept = elim (Option-cases (dict_get target store)) [
  | inl e ↦ rw e (IsKept-nothing target)
  | inr (duties, e) ↦ rw e (kept target duties e)
]

add_duty-IsKeptStore :
    (store : DutyMap) (duty : Duty) → IsKeptStore store → IsKeptStore (add_duty store duty)
unfolding add_duty
add_duty-IsKeptStore store duty kept =
    let target = to_tick_count duty.tick_for_execution in
    let duties = or_nothing (dict_get target store) in
    let here = read_duties-IsKept store target kept in
    let read = IsKeptStore-dict_set store target duties here kept in
    elim (Bool-cases (contains_duty_at_tick duties duty)) [
      | inl there ↦ rw there read
      | inr new ↦ rw new (
          IsKeptStore-dict_set (dict_set target duties store) target (duties ++ duty ∷ [])
            (IsKept-snoc target duties duty refl new here) read)
    ]

-- Adding duties to a store, in which the duties kept for each tick are due at it and no two of
-- them are for one validator, keeps it so.
pub add_duties-IsKeptStore :
    (store : DutyMap) (duties : List Duty)
    → IsKeptStore store
    → IsKeptStore (add_duties store duties)
unfolding add_duties
add_duties-IsKeptStore store [] kept = kept
add_duties-IsKeptStore store (duty ∷ duties) kept =
    add_duties-IsKeptStore (add_duty store duty) duties (add_duty-IsKeptStore store duty kept)
