-- ===== src/ForkChoice/Votes/Counted.antt =====
-- `ProtoArrayForkChoice`: the weight of a block is the balance behind the latest messages in its
-- subtree, once the votes are applied.
use trinity_eth.Base.{
  length, ◌+ℤ◌, int_laws, ℤ, dict_get, ◌>>=◌, ℕ, ◌<◌, ◌≡◌, refl, sym, ap, subst, ◌∙◌, ◌≢◌, some,
  List, map, arith, ok,
}
use mathlib.Core.Path.{ap₂}
use trinity_eth.Types.{Gwei, Epoch, zero_hash32, Checkpoint}
use trinity_eth.ForkChoice.ProtoArray.{ProtoArray}
use trinity_eth.ForkChoice.ProtoArray.Links.{WellLinked}
use trinity_eth.ForkChoice.ProtoArray.Reads.{delta_at}
use trinity_eth.ForkChoice.ProtoArray.Weights.{
  children_weight, IsSumAt, Scored, apply_score_changes-Scored, length-indices,
}
use trinity_eth.ForkChoice.ProtoArray.Growth.{dict_get-entries}
use trinity_eth.ForkChoice.Votes.{ProtoArrayForkChoice, apply_votes, update_justified}
use trinity_eth.ForkChoice.Votes.Deltas.{InArray, place, vote_sum, compute_deltas-AllMoved}
use trinity_eth.ForkChoice.Votes.Changes.{settle}

-- What the votes give to the node at a position by the roots that they are counted for.
abbrev pub own_votes : ProtoArrayForkChoice → ℕ → ℤ
own_votes f = vote_sum f.proto_array.indices f.proto_array.index_offset f.balances 0 f.votes

-- A position that does not stand for the default root.
abbrev pub IsCountedPosition : ProtoArray → ℕ → Type 0
IsCountedPosition a i = (i < length a.nodes) × (place a.indices a.index_offset zero_hash32 ≢ some i)

-- Each weight is the sum of the votes for the block and of the weights of its children, but that
-- of a block that stands for the default root.
pub record Counted (f : ProtoArrayForkChoice) : Type 0 where
  pub well_linked : WellLinked f.proto_array
  pub sums : (i : ℕ) → IsCountedPosition f.proto_array i → IsSumAt f.proto_array (own_votes f) i

pub InArray-WellLinked :
    (a : ProtoArray) → WellLinked a → InArray a.indices a.index_offset (length a.indices)
InArray-WellLinked a linked root i e =
    let (low, high) =
      dict_get-entries root a.index_offset a.nodes (ap (dict_get root) (sym linked.roots) ∙ e) in
    let long = length-indices a linked in (low, omega arith)

+ℤ_comm : (a b : ℤ) → a +ℤ b ≡ b +ℤ a
+ℤ_comm a b = omega int_laws

counted_again :
    (f : ProtoArrayForkChoice) (a' : ProtoArray) (new_balances : List Gwei) (deltas : List ℤ)
    (j e : Epoch)
    → Scored f.proto_array deltas j e a'
    → ((i : ℕ)
        → place f.proto_array.indices f.proto_array.index_offset zero_hash32 ≢ some i
        → delta_at deltas i +ℤ own_votes f i
          ≡ vote_sum f.proto_array.indices f.proto_array.index_offset new_balances 0
              (map settle f.votes)
              i)
    → ((i : ℕ) → IsCountedPosition f.proto_array i → IsSumAt f.proto_array (own_votes f) i)
    → (i : ℕ) → IsCountedPosition a' i
    → IsSumAt a' (vote_sum a'.indices a'.index_offset new_balances 0 (map settle f.votes)) i
counted_again f a' new_balances deltas j e scored moved sums i (below, other) =
    let other' : place f.proto_array.indices f.proto_array.index_offset zero_hash32 ≢ some i =
      λ h. other (ap₂ (λ d k. place d k zero_hash32) scored.same_indices scored.same_offset ∙ h) in
    let below' = subst (λ n. i < n) scored.tree.same_length below in
    scored.sums (own_votes f) i below' (sums i (below', other'))
    ∙ ap (λ z. z +ℤ children_weight a' i)
        (+ℤ_comm (own_votes f i) (delta_at deltas i)
          ∙ moved i other'
          ∙ ap₂ (λ d k. vote_sum d k new_balances 0 (map settle f.votes) i)
              (sym scored.same_indices) (sym scored.same_offset))

pub apply_votes-Counted :
    (f : ProtoArrayForkChoice) (new_balances : List Gwei) (j e : Epoch)
    → Counted f
    → (f' : ProtoArrayForkChoice) × (apply_votes f new_balances j e ≡ ok f')
      × Counted f'
      × (f'.votes ≡ map settle f.votes)
      × (f'.balances ≡ new_balances)
      × (f'.justified ≡ f.justified)
      × (f'.finalized ≡ f.finalized)
unfolding ◌>>=◌
apply_votes-Counted f new_balances j e counted =
    let a = f.proto_array in
    let linked = counted.well_linked in
    let (deltas, computed, long, moved) =
      compute_deltas-AllMoved a.indices a.index_offset f.votes f.balances new_balances
        (InArray-WellLinked a linked) in
    let (a', scored, applied) =
      apply_score_changes-Scored a deltas j e linked (long ∙ length-indices a linked) in
    (
      record f { proto_array = a'; votes = map settle f.votes; balances = new_balances },
      rw (computed, applied) refl,
      record {
        well_linked = scored.well_linked;
        sums = λ i position.
            counted_again f a' new_balances deltas j e scored moved (counted.sums) i position;
      },
      refl,
      refl,
      refl,
      refl,
    )

-- Where each weight, but that of a block which stands for the default root, is the sum of the
-- balances whose votes are counted for the block and of the weights of its children,
-- update_justified returns, counts every vote for the root that it names last, takes the new
-- balances, and the weights are such sums again.
pub update_justified-Counted :
    (f : ProtoArrayForkChoice) (justified finalized : Checkpoint) (balances : List Gwei)
    → Counted f
    → (f' : ProtoArrayForkChoice) × (update_justified f justified finalized balances ≡ ok f')
      × Counted f'
      × (f'.votes ≡ map settle f.votes)
      × (f'.balances ≡ balances)
unfolding update_justified ◌>>=◌
update_justified-Counted f justified finalized balances counted =
    let (f', applied, counted', votes, balances', same_justified, same_finalized) =
      apply_votes-Counted f balances justified.epoch finalized.epoch counted in
    (
      record f' { justified = some justified; finalized = some finalized },
      rw applied refl,
      record { well_linked = counted'.well_linked; sums = counted'.sums },
      votes,
      balances',
    )
