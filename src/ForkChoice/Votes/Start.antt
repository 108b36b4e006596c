-- ===== src/ForkChoice/Votes/Start.antt =====
-- The fork choice as it starts, with the finalized block alone.
use trinity_eth.Base.{
  ◌+ℤ◌, >>=-eq-ok, ok_injective, ℕ, zero, suc, ◌<◌, ◌≡◌, refl, subst, arith, ok, pos,
}
use trinity_eth.Types.{Epoch, Checkpoint, Eth2Config}
use trinity_eth.ForkChoice.ProtoArray.{BlockNode, new_proto_array}
use trinity_eth.ForkChoice.ProtoArray.Histories.{new_proto_array-WellLinked}
use trinity_eth.ForkChoice.ProtoArray.Weights.{IsSumAt}
use trinity_eth.ForkChoice.Votes.{ProtoArrayForkChoice, new_fork_choice}
use trinity_eth.ForkChoice.Votes.Counted.{Counted}

-- The weight of the only node is that of no vote and no child.
first_sum :
    (justified_epoch : Epoch) (block : BlockNode) (config : Eth2Config) (i : ℕ)
    → i < 1
    → IsSumAt (new_proto_array justified_epoch block config) (λ k. pos 0) i
unfolding ◌+ℤ◌
first_sum justified_epoch block config zero below = refl
first_sum justified_epoch block config (suc i) below = absurd (omega arith)

-- A fork choice that can be made counts its votes, of which there is none.
pub new_fork_choice-Counted :
    (block : BlockNode) (finalized justified : Checkpoint) (config : Eth2Config)
    (f : ProtoArrayForkChoice)
    → new_fork_choice block finalized justified config ≡ ok f
    → Counted f
unfolding new_fork_choice
new_fork_choice-Counted block finalized justified config f e =
    let (checked, passed, made) = >>=-eq-ok _ _ e in
    subst Counted (ok_injective made) (record {
      well_linked = new_proto_array-WellLinked justified.epoch block config;
      sums = λ i (below, other). first_sum justified.epoch block config i below;
    })
