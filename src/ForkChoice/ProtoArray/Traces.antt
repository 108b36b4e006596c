-- ===== src/ForkChoice/ProtoArray/Traces.antt =====
-- Best descendants are descendants: the invariant, for a function that gives the parent of each
-- index, also of those that were pruned.
use trinity_eth.Types.{Epoch}
use trinity_eth.Base.{
  ◌==◌, if◌then◌else◌, ==→eq, ==_refl, ne→==, Bool-cases, get_elem?, set, lt_of_get_elem?, EachItem,
  EachItem-set, EachItem-snoc, ℕ, ◌+◌, ◌-◌, ◌≤◌, ◌<◌, ◌≡◌, refl, sym, subst, ◌∙◌, inl, inr, Option,
  some, arith,
}
use trinity_eth.ForkChoice.ProtoArray.{
  BlockNode, ProtoNode, new_proto_node, ProtoArray, with_new_node,
}
use trinity_eth.ForkChoice.ProtoArray.Links.{Relinked, high_of, LinksOf}

-- `d` is `i`, or a child, grandchild and so on of `i`.
pub data Under (parent : ℕ → Option ℕ) (i : ℕ) : ℕ → Type 0 where
  itself : Under parent i i
  child : (d p : ℕ) → parent d ≡ some p → Under parent i p → Under parent i d

pub record TracedNode (parent : ℕ → Option ℕ) (index : ℕ) (n : ProtoNode) : Type 0 where
  pub same_parent : n.parent ≡ parent index
  pub descendant : (d : ℕ) → n.best_descendant ≡ some d → Under parent index d

pub record Traced (parent : ℕ → Option ℕ) (a : ProtoArray) : Type 0 where
  pub parent_before : (d p : ℕ) → parent d ≡ some p → p < d
  pub nodes : EachItem (λ k n. TracedNode parent (a.index_offset + k) n) a.nodes

Under-trans :
    {parent : ℕ → Option ℕ} (i j : ℕ) {d : ℕ}
    → Under parent i j
    → Under parent j d
    → Under parent i d
Under-trans i j first itself = first
Under-trans i j first (child d p e second) = child d p e (Under-trans i j first second)

-- Giving a node another weight, or best links that come from a child, keeps the array traced.
pub Traced-set :
    (parent : ℕ → Option ℕ) (a : ProtoArray) (i : ℕ) (n' : ProtoNode)
    → Traced parent a
    → TracedNode parent (a.index_offset + i) n'
    → Traced parent (record a { nodes = set a.nodes i n' })
Traced-set parent a i n' traced new = record {
  parent_before = traced.parent_before;
  nodes = EachItem-set _ a.nodes i n' traced.nodes new;
}

pub Traced-Relinked :
    (parent : ℕ → Option ℕ) (a : ProtoArray) (p c : ℕ) (n n' m : ProtoNode)
    → a.index_offset ≤ p
    → p < c
    → get_elem? a.nodes (p - a.index_offset) ≡ some n
    → get_elem? a.nodes (c - a.index_offset) ≡ some m
    → parent c ≡ some p
    → Relinked p (high_of a) c m n n'
    → Traced parent a
    → Traced parent (record a { nodes = set a.nodes (p - a.index_offset) n' })
Traced-Relinked parent a p c n n' m start above at m_at of_c new traced =
    let here : a.index_offset + (p - a.index_offset) ≡ p = omega arith in
    let there : a.index_offset + (c - a.index_offset) ≡ c = omega arith in
    let old = subst (λ k. TracedNode parent k n) here (traced.nodes (p - a.index_offset) n at) in
    let from =
      subst (λ k. TracedNode parent k m) there (traced.nodes (c - a.index_offset) m m_at) in
    Traced-set parent a (p - a.index_offset) n' traced (
      subst (λ k. TracedNode parent k n') (sym here)
        (record {
          same_parent = new.same_parent ∙ old.same_parent;
          descendant = λ d e. elim (new.origin d e) [
            | inl kept ↦ old.descendant d kept
            | inr (inl is_c) ↦ rw is_c (child c p of_c itself)
            | inr (inr of_child) ↦
                Under-trans p c (child c p of_c itself) (from.descendant d of_child)
          ];
        }))

abbrev pub Traceable : ProtoArray → Type 0
Traceable a = (parent : ℕ → Option ℕ) × Traced parent a

-- The parents with one more index.
abbrev pub with_parent : (ℕ → Option ℕ) → ℕ → Option ℕ → ℕ → Option ℕ
with_parent parent high o k = if k == high then o else parent k

with_parent_below :
    (parent : ℕ → Option ℕ) (high : ℕ) (o : Option ℕ) (k : ℕ)
    → k < high
    → with_parent parent high o k ≡ parent k
with_parent_below parent high o k below = rw (ne→== k high (omega arith)) refl

pub with_parent_here :
    (parent : ℕ → Option ℕ) (high : ℕ) (o : Option ℕ) → with_parent parent high o high ≡ o
with_parent_here parent high o = rw (==_refl high) refl

Under-with_parent :
    (parent : ℕ → Option ℕ) (high : ℕ) (o : Option ℕ) (i : ℕ) {d : ℕ}
    → ((d p : ℕ) → parent d ≡ some p → p < d)
    → d < high
    → Under parent i d
    → Under (with_parent parent high o) i d
Under-with_parent parent high o i before below itself = itself
Under-with_parent parent high o i before below (child d p e under) =
    let earlier = before d p e in
    child d p (with_parent_below parent high o d below ∙ e)
      (Under-with_parent parent high o i before (omega arith) under)

pub Traced-with_new_node :
    (parent : ℕ → Option ℕ) (a : ProtoArray) (block : BlockNode) (o : Option ℕ) (j f : Epoch)
    → LinksOf a
    → ((p : ℕ) → o ≡ some p → p < high_of a)
    → Traced parent a
    → Traced (with_parent parent (high_of a) o) (with_new_node a block o j f)
Traced-with_new_node parent a block o j f links within traced = record {
  parent_before = λ d p e. elim (Bool-cases (d == high_of a)) [
    | inl last ↦ rw (==→eq d (high_of a) last) (within p (rw last at e))
    | inr other ↦ traced.parent_before d p (rw other at e)
  ];
  nodes =
      EachItem-snoc _ a.nodes (new_proto_node block o j f)
        (λ k n at.
          let below = lt_of_get_elem? a.nodes k at in
          record {
            same_parent =
                (traced.nodes k n at).same_parent
                ∙ sym (with_parent_below parent (high_of a) o (a.index_offset + k) (omega arith));
            descendant = λ d e.
                Under-with_parent parent (high_of a) o (a.index_offset + k) traced.parent_before
                  ((links k n at).descendant_behind d e).1 ((traced.nodes k n at).descendant d e);
          })
        (record {
          same_parent = sym (with_parent_here parent (high_of a) o);
          descendant = λ d e. cc;
        });
}
