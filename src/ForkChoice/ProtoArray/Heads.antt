-- ===== src/ForkChoice/ProtoArray/Heads.antt =====
-- What `find_head` has read where it returns.
use trinity_eth.Base.{
  ltb→ge, get_elem?, dict_get, >>=-eq-ok, index-some, or_raise-eq-ok, ok_injective, raise_if-eq-ok,
  ℕ, ◌-◌, ◌≤◌, ◌<◌, ◌≡◌, sym, ap, ◌∙◌, some, ok,
}
use trinity_eth.Types.{Root}
use trinity_eth.ForkChoice.ProtoArray.{BlockNode, ProtoNode, ProtoArray, get_node, find_head}
use trinity_eth.ForkChoice.ProtoArray.Links.{high_of, WellLinked}
use trinity_eth.ForkChoice.ProtoArray.Growth.{dict_get-entries}

-- A root of the dictionary has an index in the array.
pub in_array :
    (a : ProtoArray) (root : Root) {i : ℕ}
    → WellLinked a
    → dict_get root a.indices ≡ some i
    → (a.index_offset ≤ i) × (i < high_of a)
in_array a root linked e =
    dict_get-entries root a.index_offset a.nodes (ap (dict_get root) (sym linked.roots) ∙ e)

pub get_node-eq-ok :
    (a : ProtoArray) (i : ℕ) {n : ProtoNode}
    → get_node a i ≡ ok n
    → (a.index_offset ≤ i) × (get_elem? a.nodes (i - a.index_offset) ≡ some n)
unfolding get_node
get_node-eq-ok a i e =
    let (u, above, e₁) = >>=-eq-ok _ _ e in
    let (v, within, e₂) = >>=-eq-ok _ _ e₁ in
    (ltb→ge i a.index_offset (raise_if-eq-ok _ _ above), index-some a.nodes _ e₂)

-- A head that was found belongs to an anchor and to a node.
pub find_head-known :
    (a : ProtoArray) (anchor_root : Root) {head : BlockNode}
    → find_head a anchor_root ≡ ok head
    → (i d : ℕ) × (n : ProtoNode) × (dict_get anchor_root a.indices ≡ some i)
      × (get_node a d ≡ ok n)
      × (n.node ≡ head)
unfolding find_head
find_head-known a anchor_root e =
    let (i, known, e₁) = >>=-eq-ok _ _ e in
    let (anchor, anchor_found, e₂) = >>=-eq-ok _ _ e₁ in
    let (best, best_found, e₃) = >>=-eq-ok _ _ e₂ in
    let (u, checked, e₄) = >>=-eq-ok _ _ e₃ in
    (i, _, best, or_raise-eq-ok _ _ known, best_found, ok_injective e₄)
