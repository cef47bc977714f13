-- ===== src/Routing/Loops.antt =====
-- The loops of the balancers that select the best instance (api-gateway/internal/routing/load_balancer.go).
use pyairtable_go_services.Prelude.{
  ◌≡◌, ◌⊎◌, refl, inl, inr, Bool, true, false, ◌||◌, List, [], ◌∷◌, Option, none, some, arith,
  member, if◌then◌else◌, Bool-cases,
}
use pyairtable_go_services.Routing.{Ref}
use pyairtable_go_services.Routing.Balancers.{
  Selected, chosen, no_healthy_instances, is_nil, pointer,
}

-- The error where there is no instance, and one of the instances otherwise.
abbrev pub Answers : List Ref → Selected → Type 0
Answers [] result = result ≡ no_healthy_instances
Answers (first ∷ rest) result = (r : Ref) × (result ≡ chosen r) × (member r (first ∷ rest) ≡ true)

pub member_self : (r : Ref) (rest : List Ref) → member r (r ∷ rest) ≡ true
member_self r rest = ground arith

-- The variable `selected` of a loop: nil before the first instance, and then one of those seen.
abbrev pub Seen : List Ref → Option Ref → Type 0
Seen all none = Unit
Seen all (some r) = member r all ≡ true

abbrev pub Within : List Ref → List Ref → Type 0
Within rest all = (r : Ref) → member r rest ≡ true → member r all ≡ true

pub tail-Within :
    (all : List Ref) (r : Ref) (rest : List Ref) → Within (r ∷ rest) all → Within rest all
tail-Within all r rest within q h = within q (ground arith)

pointer-Answers :
    (first : Ref) (rest : List Ref) (o : Option Ref)
    → Seen (first ∷ rest) o
    → is_nil o ≡ false
    → Answers (first ∷ rest) (pointer o)
pointer-Answers first rest none seen h = absurd (cc)
pointer-Answers first rest (some r) seen h = (r, refl, seen)

-- A loop whose step keeps the instance selected so far or takes the one at hand, and does not leave
-- nil: what it has selected at the end is an instance of the list.
module _ {ℓ} {S : Type ℓ} (selected : S → Option Ref) (step : Ref → S → S) where
  abbrev pub Picks : Type ℓ
  Picks =
      (r : Ref) (s : S)
      → (selected (step r s) ≡ some r)
        ⊎ ((selected (step r s) ≡ selected s) × (is_nil (selected s) ≡ false))

  unfoldable pub loop : List Ref → S → S
  loop [] s = s
  loop (r ∷ rest) s = loop rest (step r s)

  loop-Seen :
      (picks : Picks) (all rest : List Ref) (s : S)
      → Within rest all
      → Seen all (selected s)
      → Seen all (selected (loop rest s))
  unfolding loop
  loop-Seen picks all [] s within seen = seen
  loop-Seen picks all (r ∷ rest) s within seen =
      loop-Seen picks all rest (step r s) (tail-Within all r rest within)
        (elim (picks r s) [ inl e ↦ rw e (within r (member_self r rest)) | inr (e, _) ↦ rw e seen ])

  loop_keeps :
      (picks : Picks) (rest : List Ref) (s : S)
      → is_nil (selected s) ≡ false
      → is_nil (selected (loop rest s)) ≡ false
  unfolding loop
  loop_keeps picks [] s h = h
  loop_keeps picks (r ∷ rest) s h =
      loop_keeps picks rest (step r s)
        (elim (picks r s) [ inl e ↦ rw e refl | inr (e, _) ↦ rw e h ])

  first-Seen :
      (picks : Picks) (first : Ref) (s : S)
      → selected s ≡ none
      → selected (step first s) ≡ some first
  first-Seen picks first s at_start = elim (picks first s) [
    | inl e ↦ e
    | inr (_, some_already) ↦ absurd (cc (at_start, some_already))
  ]

  pub loop-Answers :
      (picks : Picks) (first : Ref) (rest : List Ref) (s : S)
      → selected s ≡ none
      → Answers (first ∷ rest) (pointer (selected (loop (first ∷ rest) s)))
  unfolding loop
  loop-Answers picks first rest s at_start =
      let seen = loop-Seen picks (first ∷ rest) (first ∷ rest) s (λ r h. h) (rw at_start tt) in
      let not_nil =
        loop_keeps picks rest (step first s) (rw (first-Seen picks first s at_start) refl) in
      pointer-Answers first rest (selected (loop (first ∷ rest) s)) seen not_nil

  -- The test of the three loops: nil, or one more condition.
  pub guarded :
      (r : Ref) (better : Bool) (s taken kept : S)
      → selected taken ≡ some r
      → selected kept ≡ selected s
      → (selected (if is_nil (selected s) || better then taken else kept) ≡ some r)
        ⊎ ((selected (if is_nil (selected s) || better then taken else kept) ≡ selected s)
            × (is_nil (selected s) ≡ false))
  guarded r true s taken kept h k = elim (Bool-cases (is_nil (selected s))) [
    | inl e ↦ inl (rw e h)
    | inr e ↦ inl (rw e h)
  ]
  guarded r false s taken kept h k = elim (Bool-cases (is_nil (selected s))) [
    | inl e ↦ inl (rw e h)
    | inr e ↦ inr (rw e k, e)
  ]
