-- ===== src/Routing/Balance.antt =====
-- The arithmetic of current weights (WeightedRoundRobinBalancer, api-gateway/internal/routing/load_balancer.go).
use native.Mathlib.Nat.{mul-le-mul}
use pyairtable_go_services.Prelude.{
  ℕ, suc, ◌+◌, ◌*◌, ◌≤◌, ◌<◌, ◌≡◌, refl, ap, inl, inr, Bool, true, false, ℤ, pos, negsuc, arith,
  pos_part, neg_part, ◌+ℤ◌, ◌-ℤ◌, +ℤ_parts, -ℤ_parts, int64_max, ltb, if◌then◌else◌, Bool-cases,
}
use pyairtable_go_services.Routing.Weighted.{one_part}

-- The current weight of an instance after k calls that selected it `times` times, where all weights
-- add up to `sum`.
abbrev pub Balanced : ℕ → ℕ → ℕ → ℕ → ℤ → Type 0
Balanced sum k weight times w =
    (pos_part w + sum * times ≡ k * weight + neg_part w) × (neg_part w < sum)

bounded :
    (sum k weight times : ℕ) (w : ℤ)
    → Balanced sum k weight times w
    → k < sum
    → weight ≤ sum
    → pos_part w ≤ sum * sum
bounded sum k weight times w (e, low) h l =
    let most : k * weight ≤ sum * sum = mul-le-mul (omega arith) l in ground (arith, one_part w)

-- One more call adds the weight to the current weight.
pub gain :
    (sum k times : ℕ) (w weight : ℤ)
    → Balanced sum k (pos_part weight) times w
    → k < sum
    → neg_part weight ≡ 0
    → pos_part weight ≤ sum
    → sum * sum + sum ≤ int64_max
    → Balanced sum (suc k) (pos_part weight) times (w +ℤ weight)
      × (pos_part (w +ℤ weight) ≤ sum * sum + sum)
gain sum k times w weight b h unsigned l fits =
    let most = bounded sum k (pos_part weight) times w b h l in
    let exact = +ℤ_parts w weight (omega arith) (omega arith) in
    let more : suc k * pos_part weight ≡ k * pos_part weight + pos_part weight = grind arith in
    ground (arith, one_part (w +ℤ weight), one_part w)

-- The instance that is selected pays the sum of the weights.
pay :
    (sum k weight times : ℕ) (w : ℤ)
    → Balanced sum k weight times w
    → pos_part w ≤ sum * sum + sum
    → 0 < pos_part w
    → sum * sum + sum ≤ int64_max
    → Balanced sum k weight (1 + times) (w -ℤ pos sum)
pay sum k weight times w b most positive fits =
    let exact = -ℤ_parts w (pos sum) (omega arith) (ground (arith, one_part w)) in
    let more : sum * (1 + times) ≡ sum + sum * times = grind arith in
    ground (arith, one_part (w -ℤ pos sum), one_part w)

-- The instance that won pays, and the others keep what they gained.
pub balance_after :
    (won : Bool) (sum k weight times : ℕ) (w : ℤ)
    → Balanced sum k weight times w
    → pos_part w ≤ sum * sum + sum
    → (won ≡ true → 0 < pos_part w)
    → sum * sum + sum ≤ int64_max
    → Balanced sum k weight ((if won then 1 else 0) + times) (if won then w -ℤ pos sum else w)
balance_after true sum k weight times w b most won fits =
    pay sum k weight times w b most (won refl) fits
balance_after false sum k weight times w b most won fits = ground arith

-- After `sum` calls no instance was selected more often than its weight says.
pub at_most_weight :
    (sum weight times : ℕ) (w : ℤ) → Balanced sum sum weight times w → times ≤ weight
at_most_weight sum weight times w (e, low) = elim (Bool-cases (ltb weight times)) [
  | inl more ↦
      let over : sum * suc weight ≤ sum * times = mul-le-mul (omega arith) (ground arith) in
      let split : sum * suc weight ≡ sum + sum * weight = grind arith in absurd (omega arith)
  | inr fine ↦ ground arith
]

pub paid_off : (sum weight : ℕ) (w : ℤ) → Balanced sum sum weight weight w → w ≡ pos 0
paid_off sum weight w (e, low) =
    let equal : pos_part w ≡ neg_part w = omega arith in zero_parts w equal
  where
    zero_parts : (w : ℤ) → pos_part w ≡ neg_part w → w ≡ pos 0
    zero_parts (pos n) h = ap pos (omega arith)
    zero_parts (negsuc n) h = absurd (omega arith)

pub overpaid : (k sum paid : ℕ) → paid ≡ k → 0 < sum → suc k * sum ≤ sum * paid → ⊥
overpaid k sum paid counted positive h = grind arith
