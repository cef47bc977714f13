-- ===== src/Routing/Argmax.antt =====
-- The loops of WeightedRoundRobinBalancer.SelectInstance
-- (api-gateway/internal/routing/load_balancer.go) over instances whose identifiers differ: what they
-- write to the map of weights, and that the instance they select has the greatest weight.
use pyairtable_go_services.Prelude.{
  ◌≡◌, ◌⊎◌, refl, ◌∙◌, ap, inl, inr, String, true, false, ◌||◌, List, [], ◌∷◌, none, some, ℤ, pos,
  Dict, arith, All, member, lookup, insert, lookup-insert, ltb_ℤ, ◌≤ℤ◌, ◌+ℤ◌, str_eq, eq_iff,
  eq_refl, if◌then◌else◌, Bool-cases, Option-cases,
}
use pyairtable_go_services.Routing.{Ref, Heap}
use pyairtable_go_services.Routing.Balancers.{
  current_weight, init_weight, init_weights, is_nil, Race, weigh, weigh_all,
}

pub current_weight-insert :
    (written key : String) (value : ℤ) (weights : Dict ℤ)
    → current_weight key (insert written value weights)
      ≡ (if str_eq written key then value else current_weight key weights)
current_weight-insert written key value weights =
    rw (current_weight, lookup-insert written key value weights)
      (elim (Bool-cases (str_eq written key)) [ inl e ↦ rw e refl | inr e ↦ rw e refl ])

init_weight_reads :
    (key id : String) (weights : Dict ℤ)
    → current_weight key (init_weight id weights) ≡ current_weight key weights
init_weight_reads key id weights = elim (Option-cases (lookup id weights)) [
  | inl e ↦
      rw (init_weight, e) (ground (arith, lookup-insert id key (pos 0) weights, eq_iff id key))
  | inr (w, e) ↦ rw (init_weight, e) refl
]

module _ (heap : Heap) where
  abbrev pub key : Ref → String
  key r = (heap r).id

  abbrev pub Differs : String → List Ref → Type 0
  Differs id refs = All (λ r. str_eq id (key r) ≡ false) refs

  -- The identifiers of the instances are distinct.
  abbrev pub Distinct : List Ref → Type 0
  Distinct [] = Unit
  Distinct (r ∷ rest) = Differs (key r) rest × Distinct rest

  abbrev pub current : Dict ℤ → Ref → ℤ
  current weights r = current_weight (key r) weights

  pub init_weights_reads :
      (refs : List Ref) (id : String) (weights : Dict ℤ)
      → current_weight id (init_weights heap refs weights) ≡ current_weight id weights
  unfolding init_weights
  init_weights_reads [] id weights = refl
  init_weights_reads (r ∷ refs) id weights =
      init_weights_reads refs id (init_weight (key r) weights)
      ∙ init_weight_reads id (key r) weights

  abbrev pub gained : Dict ℤ → Ref → ℤ
  gained weights r = current weights r +ℤ (heap r).weight

  weigh_weights :
      (r : Ref) (race : Race)
      → (weigh heap r race).weights ≡ insert (key r) (gained race.weights r) race.weights
  unfolding weigh
  weigh_weights r race =
      elim (Bool-cases
        (is_nil race.selected || ltb_ℤ race.max_current_weight (gained race.weights r))) [
          | inl e ↦ rw e refl
          | inr e ↦ rw e refl
        ]

  weigh_others :
      (r : Ref) (race : Race) (id : String)
      → str_eq (key r) id ≡ false
      → current_weight id (weigh heap r race).weights ≡ current_weight id race.weights
  weigh_others r race id h =
      rw
        (
          weigh_weights r race,
          current_weight-insert (key r) id (gained race.weights r) race.weights,
          h,
        )
        refl

  weigh_self :
      (r : Ref) (race : Race) → current (weigh heap r race).weights r ≡ gained race.weights r
  weigh_self r race =
      rw
        (
          weigh_weights r race,
          current_weight-insert (key r) (key r) (gained race.weights r) race.weights,
          eq_refl (key r),
        )
        refl

  weigh_all_others :
      (refs : List Ref) (race : Race) (id : String)
      → All (λ r. str_eq (key r) id ≡ false) refs
      → current_weight id (weigh_all heap refs race).weights ≡ current_weight id race.weights
  unfolding weigh_all
  weigh_all_others [] race id h = refl
  weigh_all_others (r ∷ refs) race id h =
      weigh_all_others refs (weigh heap r race) id h.1 ∙ weigh_others r race id h.0

  flip :
      (id : String) (refs : List Ref) → Differs id refs → All (λ r. str_eq (key r) id ≡ false) refs
  flip id [] h = tt
  flip id (r ∷ refs) h =
      (ground (arith, eq_iff id (key r), eq_iff (key r) id, h.0), flip id refs h.1)

  -- What is gained is not changed by a write to another instance's weight.
  gained_after :
      (v : Ref → ℤ) (r : Ref) (race : Race) (refs : List Ref)
      → Differs (key r) refs
      → All (λ x. gained race.weights x ≡ v x) refs
      → All (λ x. gained (weigh heap r race).weights x ≡ v x) refs
  gained_after v r race [] other h = tt
  gained_after v r race (x ∷ refs) other h = (
    ap (λ w. w +ℤ (heap x).weight) (weigh_others r race (key x) other.0) ∙ h.0,
    gained_after v r race refs other.1 h.1,
  )

  -- At the end of the loop each instance's weight has grown by the weight it is configured with.
  pub weigh_all_weights :
      (v : Ref → ℤ) (refs : List Ref) (race : Race)
      → Distinct refs
      → All (λ x. gained race.weights x ≡ v x) refs
      → All (λ x. current (weigh_all heap refs race).weights x ≡ v x) refs
  unfolding weigh_all
  weigh_all_weights v [] race distinct h = tt
  weigh_all_weights v (r ∷ refs) race distinct h = (
    weigh_all_others refs (weigh heap r race) (key r) (flip (key r) refs distinct.0)
        ∙ (weigh_self r race ∙ h.0),
    weigh_all_weights v refs (weigh heap r race) distinct.1
        (gained_after v r race refs distinct.0 h.1),
  )

  weigh_takes :
      (r : Ref) (race : Race)
      → (is_nil race.selected || ltb_ℤ race.max_current_weight (gained race.weights r)) ≡ true
      → ((weigh heap r race).selected ≡ some r)
        × ((weigh heap r race).max_current_weight ≡ gained race.weights r)
  unfolding weigh
  weigh_takes r race h = rw h (refl, refl)

  weigh_keeps :
      (r : Ref) (race : Race)
      → (is_nil race.selected || ltb_ℤ race.max_current_weight (gained race.weights r)) ≡ false
      → ((weigh heap r race).selected ≡ race.selected)
        × ((weigh heap r race).max_current_weight ≡ race.max_current_weight)
  unfolding weigh
  weigh_keeps r race h = rw h (refl, refl)

  -- The instance that a race has selected once the given instances are done.
  pub record Wins (v : Ref → ℤ) (before : Ref) (refs : List Ref) (race : Race) : Type 0 where
    pub winner : Ref
    pub selected : race.selected ≡ some winner
    pub top : race.max_current_weight ≡ v winner
    pub above : v before ≤ℤ v winner
    pub greatest : All (λ x. v x ≤ℤ v winner) refs
    pub one_of : (winner ≡ before) ⊎ (member winner refs ≡ true)

  weigh_all-Wins :
      (v : Ref → ℤ) (refs : List Ref) (before : Ref) (race : Race)
      → Distinct refs
      → All (λ x. gained race.weights x ≡ v x) refs
      → race.selected ≡ some before
      → race.max_current_weight ≡ v before
      → Wins v before refs (weigh_all heap refs race)
  unfolding weigh_all
  weigh_all-Wins v [] before race distinct h s m = record {
    winner = before;
    selected = s;
    top = m;
    above = omega arith;
    greatest = tt;
    one_of = inl refl;
  }
  weigh_all-Wins v (r ∷ refs) before race distinct h s m =
      let later = gained_after v r race refs distinct.0 h.1 in
      elim (Bool-cases (ltb_ℤ (v before) (v r))) [
        | inl e ↦
            let (took, top) = weigh_takes r race (rw (s, m, h.0, is_nil) e) in
            let rest =
              weigh_all-Wins v refs r (weigh heap r race) distinct.1 later took (top ∙ h.0) in
            record {
              winner = rest.winner;
              selected = rest.selected;
              top = rest.top;
              above = ground (arith, rest.above);
              greatest = (rest.above, rest.greatest);
              one_of = ground (arith, rest.one_of);
            }
        | inr e ↦
            let (kept, top) = weigh_keeps r race (rw (s, m, h.0, is_nil) e) in
            let rest =
              weigh_all-Wins v refs before (weigh heap r race) distinct.1 later (kept ∙ s)
                (top ∙ m) in
            record {
              winner = rest.winner;
              selected = rest.selected;
              top = rest.top;
              above = rest.above;
              greatest = (ground (arith, rest.above), rest.greatest);
              one_of = ground (arith, rest.one_of);
            }
      ]

  -- From nil on, the first instance is taken: the winner is an instance, and none weighs more.
  pub weigh_all_winner :
      (v : Ref → ℤ) (r : Ref) (refs : List Ref) (race : Race)
      → Distinct (r ∷ refs)
      → All (λ x. gained race.weights x ≡ v x) (r ∷ refs)
      → race.selected ≡ none
      → (winner : Ref) × ((weigh_all heap (r ∷ refs) race).selected ≡ some winner)
        × (member winner (r ∷ refs) ≡ true)
        × All (λ x. v x ≤ℤ v winner) (r ∷ refs)
  unfolding weigh_all
  weigh_all_winner v r refs race distinct h s =
      let later = gained_after v r race refs distinct.0 h.1 in
      let (took, top) = weigh_takes r race (rw (s, is_nil) refl) in
      let wins = weigh_all-Wins v refs r (weigh heap r race) distinct.1 later took (top ∙ h.0) in
      (wins.winner, wins.selected, ground (arith, wins.one_of), (wins.above, wins.greatest))
