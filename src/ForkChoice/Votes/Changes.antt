-- ===== src/ForkChoice/Votes/Changes.antt =====
-- One change of a delta, and the tests of a vote that decide on it.
use trinity_eth.Base.{
  ◌==◌, if◌then◌else◌, ne→==, Bool-cases, eq_suc, get_elem?, set, replicate, same_bytes,
  same_bytes→eq, ◌+ℤ◌, ◌-ℤ◌, int_laws, ℤ, some_injective, ℕ, zero, suc, ◌≡◌, refl, sym, ap, ◌∙◌,
  inl, inr, Bool, true, false, not, ◌&&◌, ◌||◌, Option, none, some, List, [], ◌∷◌, arith, pos,
}
use trinity_eth.Types.{zero_hash32}
use trinity_eth.ForkChoice.ProtoArray.Sums.{share, +ℤ_zero}
use trinity_eth.ForkChoice.ProtoArray.Reads.{delta_at}
use trinity_eth.ForkChoice.Votes.{VoteTracker, is_idle}

-- A value after a change at the position `o`.
abbrev pub changed_at : Option ℕ → ℕ → (ℤ → ℤ) → ℤ → ℤ
changed_at none i change z = z
changed_at (some q) i change z = if q == i then change z else z

pub changed_at-share :
    (o : Option ℕ) (i : ℕ) (x z : ℤ) → changed_at o i (λ d. d +ℤ x) z ≡ z +ℤ share o i x
changed_at-share none i x z = sym (+ℤ_zero z)
changed_at-share (some q) i x z = elim (Bool-cases (q == i)) [
  | inl e ↦ rw e refl
  | inr e ↦ rw e (sym (+ℤ_zero z))
]

pub -ℤ_back : (x z : ℤ) → (z -ℤ x) +ℤ x ≡ z
-ℤ_back x z = omega int_laws

pub changed_at_back :
    (o : Option ℕ) (i : ℕ) (x z : ℤ) → changed_at o i (λ d. d -ℤ x) z +ℤ share o i x ≡ z
changed_at_back none i x z = +ℤ_zero z
changed_at_back (some q) i x z = elim (Bool-cases (q == i)) [
  | inl e ↦ rw e (-ℤ_back x z)
  | inr e ↦ rw e (+ℤ_zero z)
]

pub delta_at-changed_at :
    (deltas : List ℤ) (q i : ℕ) (change : ℤ → ℤ) (d : ℤ)
    → get_elem? deltas q ≡ some d
    → delta_at (set deltas q (change d)) i ≡ changed_at (some q) i change (delta_at deltas i)
delta_at-changed_at [] q i change d at = cc
delta_at-changed_at (y ∷ deltas) zero zero change d at = ap change (sym (some_injective at))
delta_at-changed_at (y ∷ deltas) zero (suc i) change d at = rw (ne→== 0 (suc i) (omega arith)) refl
delta_at-changed_at (y ∷ deltas) (suc q) zero change d at = rw (ne→== (suc q) 0 (omega arith)) refl
delta_at-changed_at (y ∷ deltas) (suc q) (suc i) change d at =
    rw (eq_suc q i) (delta_at-changed_at deltas q i change d at)

pub +ℤ_swap : (a b c : ℤ) → (a +ℤ b) +ℤ c ≡ (a +ℤ c) +ℤ b
+ℤ_swap a b c = omega int_laws

pub +ℤ_turn : (a b c : ℤ) → a +ℤ (b +ℤ c) ≡ (a +ℤ c) +ℤ b
+ℤ_turn a b c = omega int_laws

pub +ℤ_assoc : (a b c : ℤ) → (a +ℤ b) +ℤ c ≡ a +ℤ (b +ℤ c)
+ℤ_assoc a b c = omega int_laws

pub zero_+ℤ : (a : ℤ) → pos 0 +ℤ a ≡ a
zero_+ℤ a = omega int_laws

pub delta_at-replicate : (n i : ℕ) → delta_at (replicate n (pos 0)) i ≡ pos 0
delta_at-replicate zero i = refl
delta_at-replicate (suc n) zero = refl
delta_at-replicate (suc n) (suc i) = delta_at-replicate n i

pub both_true : (a b : Bool) → (a && b) ≡ true → (a ≡ true) × (b ≡ true)
both_true true b h = (refl, h)
both_true false b h = cc

pub neither : (a b : Bool) → (not a || not b) ≡ false → (a ≡ true) × (b ≡ true)
neither true true h = (refl, refl)
neither true false h = cc
neither false b h = cc

pub idle_roots :
    (vote : VoteTracker)
    → is_idle vote ≡ true
    → (vote.current_root ≡ zero_hash32) × (vote.next_root ≡ zero_hash32)
idle_roots vote idle =
    let (current, next) = both_true (same_bytes vote.current_root zero_hash32) _ idle in
    (same_bytes→eq _ _ current, same_bytes→eq _ _ next)

-- A vote counted for the root that it names, with nothing else changed.
abbrev pub settle : VoteTracker → VoteTracker
settle vote = record vote { current_root = vote.next_root }

pub move_twice :
    (x m d a b s s' : ℤ) → x +ℤ s ≡ m +ℤ s' → m +ℤ a ≡ d +ℤ b → x +ℤ (a +ℤ s) ≡ d +ℤ (b +ℤ s')
move_twice x m d a b s s' later here =
    +ℤ_turn x a s
    ∙ ap (λ z. z +ℤ a) later
    ∙ +ℤ_swap m s' a
    ∙ ap (λ z. z +ℤ s') here
    ∙ +ℤ_assoc d b s'
