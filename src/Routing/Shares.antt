-- ===== src/Routing/Shares.antt =====
-- The shares of WeightedRoundRobinBalancer (api-gateway/internal/routing/load_balancer.go): over a
-- cycle of calls each instance is selected as often as its weight says.
use mathlib.Core.Path.{fun_ext}
use pyairtable_go_services.Prelude.{
  ℕ, zero, suc, ◌+◌, ◌*◌, ◌≤◌, ◌<◌, ◌≡◌, refl, ◌∙◌, ap, subst, inl, inr, true, List, [], ◌∷◌, some,
  ℤ, pos, Dict, arith, All, All-member, All-of_member, member, count, pos_part, neg_part, ◌≤ℤ◌,
  ◌+ℤ◌, ◌-ℤ◌, int64_max, ◌==◌, ==_iff, if◌then◌else◌, Bool-cases,
}
use pyairtable_go_services.Routing.{Ref, Heap}
use pyairtable_go_services.Routing.Balancers.{
  Selected, chosen, current_weight, Race, start_race, weigh_all, total_weight, settle,
  select_weighted,
}
use pyairtable_go_services.Routing.RoundRobin.{is_chosen}
use pyairtable_go_services.Routing.Argmax.{
  key, Distinct, current, gained, current_weight-insert, init_weights_reads, weigh_all_weights,
  weigh_all_winner,
}
use pyairtable_go_services.Routing.Weighted.{
  sum_of, sum_of_le, sum_of_add, le-sum_of, eq_of_sum_of, one_part, weight_of, total, NonNegative,
  total_weight_lem, key_eq, one_at, sum_of_one,
}
use pyairtable_go_services.Routing.Balance.{
  Balanced, gain, balance_after, at_most_weight, paid_off, overpaid,
}

module _ (heap : Heap) where
  -- What a run of calls selects, and the weights that it leaves.
  unfoldable pub weighted_rounds : List Ref → ℕ → Dict ℤ → List Selected × Dict ℤ
  weighted_rounds instances zero weights = ([], weights)
  weighted_rounds instances (suc calls) weights =
      let (result, weights') = select_weighted heap instances weights in
      let (results, last) = weighted_rounds instances calls weights' in (result ∷ results, last)

module _ (heap : Heap) (first : Ref) (rest : List Ref) where
  abbrev instances : List Ref
  instances = first ∷ rest

  abbrev sum : ℕ
  sum = total heap instances

  abbrev AllBalanced : ℕ → (Ref → ℕ) → Dict ℤ → Type 0
  AllBalanced k times weights =
      All (λ x. Balanced sum k (weight_of heap x) (times x) (current heap weights x)) instances

  module _ (distinct : Distinct heap instances) (unsigned : NonNegative heap instances)
      (positive : 0 < sum) (fits : sum * sum + sum ≤ int64_max) where
    weight_below : (x : Ref) → member x instances ≡ true → weight_of heap x ≤ sum
    weight_below x m =
        All-member (λ y. weight_of heap y ≤ sum) instances x (le-sum_of (weight_of heap) instances)
          m

    no_sign : (x : Ref) → member x instances ≡ true → neg_part (heap x).weight ≡ 0
    no_sign x m = All-member (λ y. neg_part (heap y).weight ≡ 0) instances x unsigned m

    gains :
        (k : ℕ) (times : Ref → ℕ) (weights : Dict ℤ)
        → AllBalanced k times weights
        → k < sum
        → (x : Ref) → member x instances ≡ true
        → Balanced sum (suc k) (weight_of heap x) (times x) (gained heap weights x)
          × (pos_part (gained heap weights x) ≤ sum * sum + sum)
    gains k times weights b h x m =
        gain sum k (times x) (current heap weights x) (heap x).weight
          (All-member (λ y. Balanced sum k (weight_of heap y) (times y) (current heap weights y))
            instances x b m)
          h (no_sign x m) (weight_below x m) fits

    -- The greatest weight is positive: the weights add up to more than was paid.
    greatest_positive :
        (k : ℕ) (times : Ref → ℕ) (weights : Dict ℤ) (w : Ref)
        → AllBalanced k times weights
        → sum_of times instances ≡ k
        → k < sum
        → All (λ x. gained heap weights x ≤ℤ gained heap weights w) instances
        → 0 < pos_part (gained heap weights w)
    greatest_positive k times weights w b counted h greatest =
        elim (Bool-cases (pos_part (gained heap weights w) == 0)) [
          | inl e ↦
              let unpaid = sum_of_le (suc k) sum (weight_of heap) times instances (
                All-of_member (λ x. suc k * weight_of heap x ≤ sum * times x) instances
                  (λ x m.
                    let bound =
                      All-member (λ y. gained heap weights y ≤ℤ gained heap weights w) instances x
                        greatest m in
                    let ((owed, _), _) = gains k times weights b h x m in
                    ground (arith, one_part (gained heap weights x)))) in
              absurd (overpaid k sum (sum_of times instances) counted positive unpaid)
          | inr e ↦ ground arith
        ]

    settled :
        (race : Race) (w x : Ref)
        → race.selected ≡ some w
        → member w instances ≡ true
        → member x instances ≡ true
        → current heap (settle heap instances race).1 x
          ≡ (if w == x then current heap race.weights w -ℤ pos sum else current heap race.weights x)
    unfolding settle
    settled race w x sel mw mx =
        let adds_up : total_weight heap (pos 0) instances ≡ pos sum =
          total_weight_lem heap instances 0 unsigned (omega arith) ∙ ap pos (omega arith) in
        rw
          (
            sel,
            current_weight-insert (key heap w) (key heap x)
                (current_weight (key heap w) race.weights -ℤ total_weight heap (pos 0) instances)
                race.weights,
            adds_up,
            key_eq heap instances w x distinct mw mx,
          )
          refl

    settle_winner :
        (race : Race) (w : Ref) → race.selected ≡ some w → (settle heap instances race).0 ≡ chosen w
    unfolding settle
    settle_winner race w sel = rw (sel) refl

    -- The weights at the end of a call, from what each instance gained.
    settled_gains :
        (v : Ref → ℤ) (race : Race) (w x : Ref)
        → race.selected ≡ some w
        → All (λ y. current heap race.weights y ≡ v y) instances
        → member w instances ≡ true
        → member x instances ≡ true
        → current heap (settle heap instances race).1 x ≡ (if w == x then v x -ℤ pos sum else v x)
    settled_gains v race w x sel ends mw mx =
        let at_end =
          λ (y : Ref). All-member (λ z. current heap race.weights z ≡ v z) instances y ends in
        settled race w x sel mw mx ∙ elim (Bool-cases (w == x)) [
          | inl e ↦
              rw (e, at_end w mw)
                (subst (λ z. (v w -ℤ pos sum) ≡ (v z -ℤ pos sum)) ((==_iff w x).0 e) refl)
          | inr e ↦ rw (e, at_end x mx) refl
        ]

    call-AllBalanced :
        (k : ℕ) (times : Ref → ℕ) (weights : Dict ℤ) (race : Race) (w : Ref)
        → AllBalanced k times weights
        → sum_of times instances ≡ k
        → k < sum
        → race.selected ≡ some w
        → All (λ y. current heap race.weights y ≡ gained heap weights y) instances
        → member w instances ≡ true
        → All (λ y. gained heap weights y ≤ℤ gained heap weights w) instances
        → AllBalanced (suc k) (λ x. one_at heap w x + times x) (settle heap instances race).1
    call-AllBalanced k times weights race w b counted h sel ends mw greatest =
        All-of_member
          (λ x.
            Balanced sum (suc k) (weight_of heap x) (one_at heap w x + times x)
              (current heap (settle heap instances race).1 x))
          instances
          (λ x mx.
            let (gain_x, most) = gains k times weights b h x mx in
            rw (settled_gains (gained heap weights) race w x sel ends mw mx) (
              balance_after (w == x) sum (suc k) (weight_of heap x) (times x)
                (gained heap weights x) gain_x most
                (λ e.
                  subst (λ z. 0 < pos_part (gained heap weights z)) ((==_iff w x).0 e)
                    (greatest_positive k times weights w b counted h greatest))
                fits))

    -- One call keeps the balance; the instance that it selects is counted once more.
    select_weighted-AllBalanced :
        (k : ℕ) (times : Ref → ℕ) (weights : Dict ℤ)
        → AllBalanced k times weights
        → sum_of times instances ≡ k
        → k < sum
        → (w : Ref) × ((select_weighted heap instances weights).0 ≡ chosen w)
          × (member w instances ≡ true)
          × AllBalanced
              (suc k)
              (λ x. one_at heap w x + times x)
              (select_weighted heap instances weights).1
    unfolding select_weighted
    select_weighted-AllBalanced k times weights b counted h =
        let race = start_race heap instances weights in
        let v = λ (x : Ref). gained heap weights x in
        let starts : All (λ x. gained heap race.weights x ≡ v x) instances =
          All-of_member (λ x. gained heap race.weights x ≡ v x) instances
            (λ x m.
              ap (λ c. c +ℤ (heap x).weight)
                (init_weights_reads heap instances (key heap x) weights)) in
        let (w, sel, mw, greatest) = weigh_all_winner heap v first rest race distinct starts refl in
        let ends = weigh_all_weights heap v instances race distinct starts in
        let after = weigh_all heap instances race in
        (
          w,
          settle_winner after w sel,
          mw,
          call-AllBalanced k times weights after w b counted h sel ends mw greatest,
        )

    abbrev Counted : ℕ → (Ref → ℕ) → Dict ℤ → Type 0
    Counted k times weights = AllBalanced k times weights × (sum_of times instances ≡ k)

    same_counts :
        (k k' : ℕ) (f g : Ref → ℕ) (weights : Dict ℤ)
        → k ≡ k'
        → ((x : Ref) → f x ≡ g x)
        → Counted k f weights
        → Counted k' g weights
    same_counts k k' f g weights e p c =
        subst (λ i. Counted i g weights) e (subst (λ h. Counted k h weights) (fun_ext p) c)

    abbrev times_chosen : ℕ → Dict ℤ → Ref → ℕ
    times_chosen calls weights x =
        count (is_chosen x) (weighted_rounds heap instances calls weights).0

    weighted_rounds-Counted :
        (calls k : ℕ) (times : Ref → ℕ) (weights : Dict ℤ)
        → Counted k times weights
        → k + calls ≤ sum
        → Counted
            (k + calls)
            (λ x. times_chosen calls weights x + times x)
            (weighted_rounds heap instances calls weights).1
    unfolding weighted_rounds
    weighted_rounds-Counted zero k times weights c h =
        same_counts k (k + 0) times (λ x. times_chosen 0 weights x + times x) weights (omega arith)
          (λ x. omega arith) c
    weighted_rounds-Counted (suc calls) k times weights c h =
        let (w, result, mw, b) =
          select_weighted-AllBalanced k times weights c.0 c.1 (omega arith) in
        let weights' = (select_weighted heap instances weights).1 in
        let counted : sum_of (λ x. one_at heap w x + times x) instances ≡ suc k =
          sum_of_add (one_at heap w) times instances
          ∙ omega (arith, sum_of_one heap instances w distinct mw, c.1) in
        same_counts (suc k + calls) (k + suc calls)
          (λ x. times_chosen calls weights' x + (one_at heap w x + times x))
          (λ x. times_chosen (suc calls) weights x + times x)
          (weighted_rounds heap instances calls weights').1 (omega arith)
          (λ x. rw result (omega arith))
          (weighted_rounds-Counted calls (suc k) (λ x. one_at heap w x + times x) weights'
            (b, counted) (omega arith))

    fresh-Counted :
        (weights : Dict ℤ)
        → All (λ x. current heap weights x ≡ pos 0) instances
        → Counted 0 (λ x. 0) weights
    fresh-Counted weights zeros = (
      All-of_member (λ x. Balanced sum 0 (weight_of heap x) 0 (current heap weights x)) instances
          (λ x m.
            rw (All-member (λ y. current heap weights y ≡ pos 0) instances x zeros m)
              (omega arith, positive)),
      sum_of_zero instances,
    )
      where
        sum_of_zero : (refs : List Ref) → sum_of (λ x. 0) refs ≡ 0
        sum_of_zero [] = refl
        sum_of_zero (r ∷ refs) = omega (arith, sum_of_zero refs)

  -- A cycle of as many calls as the weights add up to selects every instance exactly as often as its
  -- weight says, and leaves all current weights at 0, as it found them. The instances have distinct
  -- identifiers and no negative weight, not all weights are 0, and the square of the sum of the weights
  -- plus that sum fits an int64.
  pub weighted_shares :
      (weights : Dict ℤ)
      → Distinct heap instances
      → NonNegative heap instances
      → 0 < sum
      → sum * sum + sum ≤ int64_max
      → All (λ x. current heap weights x ≡ pos 0) instances
      → All
          (λ x.
            count (is_chosen x) (weighted_rounds heap instances sum weights).0 ≡ weight_of heap x)
          instances
        × All (λ x. current heap (weighted_rounds heap instances sum weights).1 x ≡ pos 0) instances
  weighted_shares weights distinct unsigned positive fits zeros =
      let last = (weighted_rounds heap instances sum weights).1 in
      let times = λ (x : Ref). count (is_chosen x) (weighted_rounds heap instances sum weights).0 in
      let (balanced, counted) =
        same_counts distinct unsigned positive fits (0 + sum) sum (λ x. times x + 0) times last
          (omega arith) (λ x. omega arith)
          (weighted_rounds-Counted distinct unsigned positive fits sum 0 (λ x. 0) weights
            (fresh-Counted distinct unsigned positive fits weights zeros) (omega arith)) in
      let balance = λ (x : Ref).
        All-member (λ y. Balanced sum sum (weight_of heap y) (times y) (current heap last y))
          instances x balanced in
      let exact =
        eq_of_sum_of times (weight_of heap) instances
          (All-of_member (λ x. times x ≤ weight_of heap x) instances
            (λ x m.
              at_most_weight sum (weight_of heap x) (times x) (current heap last x) (balance x m)))
          counted in
      (
        exact,
        All-of_member (λ x. current heap last x ≡ pos 0) instances
            (λ x m.
              let once = All-member (λ y. times y ≡ weight_of heap y) instances x exact m in
              paid_off sum (weight_of heap x) (current heap last x) (
                subst (λ n. Balanced sum sum (weight_of heap x) n (current heap last x)) once
                  (balance x m))),
      )
