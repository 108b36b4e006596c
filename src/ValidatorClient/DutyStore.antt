-- ===== src/ValidatorClient/DutyStore.antt =====
-- eth2/validator_client/duty_store.py. A pair of a slot and a count is a list of the two numbers.
-- The lock makes each call one step.
pub mod Single
use trinity_eth.Base.{
  ℕ, Bool, true, false, if◌then◌else◌, Option, none, some, List, [], ◌∷◌, ◌++◌, same_bytes, Dict,
  dict_get, dict_set,
}
use trinity_eth.Types.{BlsPubkey}
use trinity_eth.ValidatorClient.Duties.{Tick, Duty}

abbrev pub DutyMap : Type 0
DutyMap = Dict (List Duty)

abbrev pub to_tick_count : Tick → List ℕ
to_tick_count tick = tick.slot ∷ tick.count ∷ []

abbrev pub contains_duty_at_tick : List Duty → Duty → Bool
contains_duty_at_tick [] duty = false
contains_duty_at_tick (d ∷ duties) duty =
    if same_bytes d.validator_public_key duty.validator_public_key
    then true
    else contains_duty_at_tick duties duty

abbrev pub or_nothing : Option (List Duty) → List Duty
or_nothing none = []
or_nothing (some duties) = duties

-- `self._store[target]` of a `defaultdict`, which keeps the empty tuple that it makes.
abbrev pub read_duties : DutyMap → List ℕ → List Duty × DutyMap
read_duties store target =
    let duties = or_nothing (dict_get target store) in (duties, dict_set target duties store)

unfoldable pub duties_at_tick : DutyMap → Tick → List Duty × DutyMap
duties_at_tick store tick = read_duties store (to_tick_count tick)

-- The round of the loop for one duty.
unfoldable pub add_duty : DutyMap → Duty → DutyMap
add_duty store duty =
    let target = to_tick_count duty.tick_for_execution in
    let (existing_duties, store') = read_duties store target in
    if contains_duty_at_tick existing_duties duty
    then store'
    else dict_set target (existing_duties ++ duty ∷ []) store'

unfoldable pub add_duties : DutyMap → List Duty → DutyMap
add_duties store [] = store
add_duties store (duty ∷ duties) = add_duties (add_duty store duty) duties
