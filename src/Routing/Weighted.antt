-- ===== src/Routing/Weighted.antt =====
-- Fairness of WeightedRoundRobinBalancer (api-gateway/internal/routing/load_balancer.go): how often a
-- run of calls selects each instance.
use pyairtable_go_services.Prelude.{
  ℕ, ◌+◌, ◌*◌, ◌≤◌, ◌≡◌, ◌⊎◌, refl, sym, ◌∙◌, ap, subst, inl, inr, true, false, List, [], ◌∷◌, ℤ,
  pos, negsuc, arith, All, All-member, All-of_member, member, pos_part, neg_part, ◌+ℤ◌, +ℤ_parts,
  int64_max, str_eq, eq_iff, eq_refl, ◌==◌, ==_iff, if◌then◌else◌, Bool-cases,
}
use pyairtable_go_services.Routing.{Ref, Heap}
use pyairtable_go_services.Routing.Balancers.{total_weight}
use pyairtable_go_services.Routing.Argmax.{key, Distinct, Differs}

abbrev pub sum_of : (Ref → ℕ) → List Ref → ℕ
sum_of f [] = 0
sum_of f (r ∷ refs) = f r + sum_of f refs

pub sum_of_le :
    (a b : ℕ) (f g : Ref → ℕ) (refs : List Ref)
    → All (λ x. a * f x ≤ b * g x) refs
    → a * sum_of f refs ≤ b * sum_of g refs
sum_of_le a b f g [] h = omega arith
sum_of_le a b f g (r ∷ refs) h = grind (arith, sum_of_le a b f g refs h.1)

pub sum_of_add :
    (f g : Ref → ℕ) (refs : List Ref) → sum_of (λ x. f x + g x) refs ≡ sum_of f refs + sum_of g refs
sum_of_add f g [] = omega arith
sum_of_add f g (r ∷ refs) = omega (arith, sum_of_add f g refs)

pub le-sum_of : (f : Ref → ℕ) (refs : List Ref) → All (λ x. f x ≤ sum_of f refs) refs
le-sum_of f refs = All-of_member (λ x. f x ≤ sum_of f refs) refs (le_sum f refs)
  where
    le_sum : (f : Ref → ℕ) (refs : List Ref) (x : Ref) → member x refs ≡ true → f x ≤ sum_of f refs
    le_sum f [] x h = absurd (cc)
    le_sum f (r ∷ refs) x h = elim (Bool-cases (r == x)) [
      | inl e ↦ subst (λ y. f y ≤ f r + sum_of f refs) ((==_iff r x).0 e) (omega arith)
      | inr e ↦ omega (arith, le_sum f refs x (ground arith))
    ]

-- Bounded term by term, with equal sums: equal.
pub eq_of_sum_of :
    (f g : Ref → ℕ) (refs : List Ref)
    → All (λ x. f x ≤ g x) refs
    → sum_of f refs ≡ sum_of g refs
    → All (λ x. f x ≡ g x) refs
eq_of_sum_of f g [] h e = tt
eq_of_sum_of f g (r ∷ refs) h e =
    let rest = sum_of_mono f g refs h.1 in (omega arith, eq_of_sum_of f g refs h.1 (omega arith))
  where
    sum_of_mono :
        (f g : Ref → ℕ) (refs : List Ref)
        → All (λ x. f x ≤ g x) refs
        → sum_of f refs ≤ sum_of g refs
    sum_of_mono f g [] h = omega arith
    sum_of_mono f g (r ∷ refs) h = omega (arith, sum_of_mono f g refs h.1)

pub one_part : (a : ℤ) → (pos_part a ≡ 0) ⊎ (neg_part a ≡ 0)
one_part (pos n) = inr refl
one_part (negsuc n) = inl refl

eq_of_parts : (a : ℤ) (n : ℕ) → pos_part a ≡ neg_part a + n → a ≡ pos n
eq_of_parts (pos m) n h = ap pos (omega arith)
eq_of_parts (negsuc m) n h = absurd (omega arith)

module _ (heap : Heap) where
  abbrev pub weight_of : Ref → ℕ
  weight_of r = pos_part (heap r).weight

  abbrev pub total : List Ref → ℕ
  total refs = sum_of weight_of refs

  abbrev pub NonNegative : List Ref → Type 0
  NonNegative refs = All (λ r. neg_part (heap r).weight ≡ 0) refs

  -- The total that the code adds up is the sum, where that fits.
  pub total_weight_lem :
      (refs : List Ref) (so_far : ℕ)
      → NonNegative refs
      → so_far + total refs ≤ int64_max
      → total_weight heap (pos so_far) refs ≡ pos (so_far + total refs)
  unfolding total_weight
  total_weight_lem [] so_far h fits = ap pos (omega arith)
  total_weight_lem (r ∷ refs) so_far h fits =
      let added : pos so_far +ℤ (heap r).weight ≡ pos (so_far + weight_of r) =
        eq_of_parts (pos so_far +ℤ (heap r).weight) (so_far + weight_of r)
          (omega (arith, +ℤ_parts (pos so_far) (heap r).weight (omega arith) (omega arith))) in
      rw added
        (total_weight_lem refs (so_far + weight_of r) h.1 (omega arith) ∙ ap pos (omega arith))

  ==_of_key : (x y : Ref) → str_eq (key heap x) (key heap y) ≡ false → (x == y) ≡ false
  ==_of_key x y h = elim (Bool-cases (x == y)) [
    | inl e ↦
        let same =
          subst (λ z. str_eq (key heap x) (key heap z) ≡ true) ((==_iff x y).0 e)
            (eq_refl (key heap x)) in
        absurd (cc)
    | inr e ↦ e
  ]

  key_sym : (x y : Ref) → str_eq (key heap x) (key heap y) ≡ str_eq (key heap y) (key heap x)
  key_sym x y = ground (arith, eq_iff (key heap x) (key heap y), eq_iff (key heap y) (key heap x))

  apart_at :
      (refs : List Ref) (r x : Ref)
      → Differs heap (key heap r) refs
      → member x refs ≡ true
      → str_eq (key heap r) (key heap x) ≡ false
  apart_at refs r x h m = All-member (λ y. str_eq (key heap r) (key heap y) ≡ false) refs x h m

  -- Among instances with distinct identifiers, the identifier tells the instance.
  pub key_eq :
      (refs : List Ref) (x y : Ref)
      → Distinct heap refs
      → member x refs ≡ true
      → member y refs ≡ true
      → str_eq (key heap x) (key heap y) ≡ (x == y)
  key_eq [] x y d mx my = absurd (cc)
  key_eq (r ∷ refs) x y d mx my = elim (Bool-cases (r == x)) [
    | inl ex ↦ elim (Bool-cases (r == y)) [
      | inl ey ↦
          subst (λ z. str_eq (key heap z) (key heap y) ≡ (z == y)) ((==_iff r x).0 ex)
            (subst (λ z. str_eq (key heap r) (key heap z) ≡ (r == z)) ((==_iff r y).0 ey)
              (eq_refl (key heap r) ∙ sym ((==_iff r r).1 refl)))
      | inr ey ↦
          let apart = apart_at refs r y d.0 (ground arith) in
          subst (λ z. str_eq (key heap z) (key heap y) ≡ (z == y)) ((==_iff r x).0 ex)
            (apart ∙ sym (==_of_key r y apart))
    ]
    | inr ex ↦ elim (Bool-cases (r == y)) [
      | inl ey ↦
          let apart = key_sym x r ∙ apart_at refs r x d.0 (ground arith) in
          subst (λ z. str_eq (key heap x) (key heap z) ≡ (x == z)) ((==_iff r y).0 ey)
            (apart ∙ sym (==_of_key x r apart))
      | inr ey ↦ key_eq refs x y d.1 (ground arith) (ground arith)
    ]
  ]

  abbrev pub one_at : Ref → Ref → ℕ
  one_at w x = if w == x then 1 else 0

  sum_of_none :
      (refs : List Ref) (w : Ref) → Differs heap (key heap w) refs → sum_of (one_at w) refs ≡ 0
  sum_of_none [] w h = refl
  sum_of_none (r ∷ refs) w h = rw (==_of_key w r h.0) (omega (arith, sum_of_none refs w h.1))

  pub sum_of_one :
      (refs : List Ref) (w : Ref)
      → Distinct heap refs
      → member w refs ≡ true
      → sum_of (one_at w) refs ≡ 1
  sum_of_one [] w d m = absurd (cc)
  sum_of_one (r ∷ refs) w d m = elim (Bool-cases (r == w)) [
    | inl e ↦
        subst (λ z. sum_of (one_at z) (r ∷ refs) ≡ 1) ((==_iff r w).0 e)
          (rw ((==_iff r r).1 refl) (omega (arith, sum_of_none refs r d.0)))
    | inr e ↦
        let w_is_not : (w == r) ≡ false = ground arith in
        rw w_is_not (omega (arith, sum_of_one refs w d.1 (ground arith)))
  ]
