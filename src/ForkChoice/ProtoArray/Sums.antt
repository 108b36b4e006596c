-- ===== src/ForkChoice/ProtoArray/Sums.antt =====
-- Weights of a tree whose parents come before their children, as functions of the position: a
-- backwards pass that adds each delta to its node and hands it on to the parent.
use mathlib.Core.Path.{ap₂}
use trinity_eth.Base.{
  ◌==◌, if◌then◌else◌, ==→eq, ==→ne, Bool-cases, ◌+ℤ◌, int_laws, ℤ, ℕ, zero, suc, ◌+◌, ◌≤◌, ◌<◌,
  ◌≡◌, refl, sym, ap, ◌∙◌, ◌≢◌, inl, inr, Option, none, some, arith, pos,
}

-- The share of `x` that a node with parent `o` hands on to the node at `i`.
abbrev pub share : Option ℕ → ℕ → ℤ → ℤ
share none i x = pos 0
share (some q) i x = if q == i then x else pos 0

-- `f k + f (k + 1) + ...`, `n` of them.
abbrev pub sum_from : ℕ → ℕ → (ℕ → ℤ) → ℤ
sum_from k zero f = pos 0
sum_from k (suc n) f = f k +ℤ sum_from (suc k) n f

-- The sum over the children of `i` among the positions from `k` on.
abbrev pub child_sum : (ℕ → Option ℕ) → (ℕ → ℤ) → ℕ → ℕ → ℕ → ℤ
child_sum parent w i k n = sum_from k n (λ j. share (parent j) i (w j))

-- What the round for the node at `p` does to the weights and the deltas.
pub record IsRound (o : Option ℕ) (p : ℕ) (w d w' d' : ℕ → ℤ) : Type 0 where
  pub weight_here : w' p ≡ w p +ℤ d p
  pub weight_elsewhere : (j : ℕ) → j ≢ p → w' j ≡ w j
  pub delta : (i : ℕ) → d' i ≡ d i +ℤ share o i (d p)

-- After the rounds for the `n` positions from `k` on, from the weights `w₀` and the deltas `d₀`.
pub record Progress (parent : ℕ → Option ℕ) (w₀ d₀ : ℕ → ℤ) (k n : ℕ) (w d : ℕ → ℤ) : Type 0 where
  pub untouched : (j : ℕ) → j < k → w j ≡ w₀ j
  pub raised : (j : ℕ) → k ≤ j → j < k + n → w j ≡ w₀ j +ℤ d j
  pub gathered : (i : ℕ) → d i ≡ d₀ i +ℤ child_sum parent d i k n

pub sum_from-congruent :
    (k n : ℕ) (f g : ℕ → ℤ)
    → ((j : ℕ) → k ≤ j → j < k + n → f j ≡ g j)
    → sum_from k n f ≡ sum_from k n g
sum_from-congruent k zero f g same = refl
sum_from-congruent k (suc n) f g same =
    rw
      (
        same k (omega arith) (omega arith),
        sum_from-congruent (suc k) n f g (λ j low high. same j (omega arith) (omega arith)),
      )
      refl

pub +ℤ_zero : (a : ℤ) → a +ℤ pos 0 ≡ a
+ℤ_zero a = omega int_laws

+ℤ_interchange : (a b c d : ℤ) → (a +ℤ b) +ℤ (c +ℤ d) ≡ (a +ℤ c) +ℤ (b +ℤ d)
+ℤ_interchange a b c d = omega int_laws

+ℤ_rotate : (a b c : ℤ) → (a +ℤ b) +ℤ c ≡ a +ℤ (c +ℤ b)
+ℤ_rotate a b c = omega int_laws

sum_from-+ℤ :
    (k n : ℕ) (f g : ℕ → ℤ) → sum_from k n f +ℤ sum_from k n g ≡ sum_from k n (λ j. f j +ℤ g j)
sum_from-+ℤ k zero f g = +ℤ_zero (pos 0)
sum_from-+ℤ k (suc n) f g =
    +ℤ_interchange _ _ _ _ ∙ ap (λ s. (f k +ℤ g k) +ℤ s) (sum_from-+ℤ (suc k) n f g)

share-+ℤ : (o : Option ℕ) (i : ℕ) (x y : ℤ) → share o i x +ℤ share o i y ≡ share o i (x +ℤ y)
share-+ℤ none i x y = +ℤ_zero (pos 0)
share-+ℤ (some q) i x y = elim (Bool-cases (q == i)) [
  | inl e ↦ rw e refl
  | inr e ↦ rw e (+ℤ_zero (pos 0))
]

pub share_elsewhere : (o : Option ℕ) (i : ℕ) (x : ℤ) → o ≢ some i → share o i x ≡ pos 0
share_elsewhere none i x other = refl
share_elsewhere (some q) i x other = elim (Bool-cases (q == i)) [
  | inl e ↦ absurd (other (ap some (==→eq q i e)))
  | inr e ↦ rw e refl
]

-- A round leaves the deltas from its node on as they are.
kept_delta :
    (o : Option ℕ) (p : ℕ) {w d w' d' : ℕ → ℤ}
    → ((q : ℕ) → o ≡ some q → q < p)
    → IsRound o p w d w' d'
    → (j : ℕ) → p ≤ j
    → d' j ≡ d j
kept_delta o p {w} {d} before round j low =
    round.delta j
    ∙ ap (λ x. d j +ℤ x) (share_elsewhere o j (d p) (λ e. omega (arith, before j e)))
    ∙ +ℤ_zero (d j)

module _ {parent : ℕ → Option ℕ} {w₀ d₀ : ℕ → ℤ} where
  pub start-Progress : (n : ℕ) → Progress parent w₀ d₀ n 0 w₀ d₀
  start-Progress n = record {
    untouched = λ j below. refl;
    raised = λ j low high. absurd (omega arith);
    gathered = λ i. sym (+ℤ_zero (d₀ i));
  }

  pub round-Progress :
      (p n : ℕ) {w d w' d' : ℕ → ℤ}
      → ((q : ℕ) → parent p ≡ some q → q < p)
      → Progress parent w₀ d₀ (suc p) n w d
      → IsRound (parent p) p w d w' d'
      → Progress parent w₀ d₀ p (suc n) w' d'
  round-Progress p n {w} {d} {w'} {d'} before done round =
      let kept = kept_delta (parent p) p before round in
      record {
        untouched =
            λ j below. round.weight_elsewhere j (omega arith) ∙ done.untouched j (omega arith);
        raised = λ j low high. elim (Bool-cases (j == p)) [
          | inl e ↦ rw (==→eq j p e) (
              round.weight_here
              ∙ ap₂ ◌+ℤ◌ (done.untouched p (omega arith)) (sym (kept p (omega arith))))
          | inr e ↦
              round.weight_elsewhere j (==→ne j p e)
              ∙ done.raised j (omega (arith, ==→ne j p e)) (omega arith)
              ∙ ap (λ x. w₀ j +ℤ x) (sym (kept j low))
        ];
        gathered = λ i.
            round.delta i
            ∙ ap (λ x. x +ℤ share (parent p) i (d p)) (done.gathered i)
            ∙ +ℤ_rotate (d₀ i) _ _
            ∙ ap (λ x. d₀ i +ℤ x)
                (ap₂ ◌+ℤ◌ (ap (share (parent p) i) (sym (kept p (omega arith)))) (
                  sum_from-congruent (suc p) n _ _
                    (λ j low high. ap (share (parent j) i) (sym (kept j (omega arith))))));
      }

  pub end-Progress :
      (own : ℕ → ℤ) (n : ℕ) {w d : ℕ → ℤ}
      → Progress parent w₀ d₀ 0 n w d
      → (i : ℕ) → i < n
      → w₀ i ≡ own i +ℤ child_sum parent w₀ i 0 n
      → w i ≡ (own i +ℤ d₀ i) +ℤ child_sum parent w i 0 n
  end-Progress own n {w} {d} done i below sums =
      done.raised i (omega arith) (omega arith)
      ∙ ap₂ ◌+ℤ◌ sums (done.gathered i)
      ∙ +ℤ_interchange (own i) _ (d₀ i) _
      ∙ ap (λ x. (own i +ℤ d₀ i) +ℤ x)
          (sum_from-+ℤ 0 n _ _
            ∙ sum_from-congruent 0 n _ _ (λ j low high.
              share-+ℤ (parent j) i (w₀ j) (d j)
              ∙ ap (share (parent j) i) (sym (done.raised j low high))))
