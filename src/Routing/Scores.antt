-- ===== src/Routing/Scores.antt =====
-- The balancer by health scores selects one of the instances (api-gateway/internal/routing/load_balancer.go).
use pyairtable_go_services.Prelude.{
  suc, ◌+◌, ◌<◌, ◌≡◌, refl, inl, inr, All, true, List, [], ◌∷◌, arith, length, member, Bool-cases,
}
use pyairtable_go_services.Routing.{Ref, Heap}
use pyairtable_go_services.Routing.Balancers.{
  chosen, index_out_of_range, Floats, health_score, insert_score, sort_scores, select_health_score,
}
use pyairtable_go_services.Routing.Loops.{Answers, Within, tail-Within, member_self}

module _ (floats : Floats) where
  open floats use {Float, less}

  abbrev pub AllSeen : List Ref → List (Ref × Float) → Type 0
  AllSeen all scores = All (λ entry. member entry.0 all ≡ true) scores

  insert_score-AllSeen :
      (all : List Ref) (entry : Ref × Float) (sorted : List (Ref × Float))
      → member entry.0 all ≡ true
      → AllSeen all sorted
      → AllSeen all (insert_score floats entry sorted)
  unfolding insert_score
  insert_score-AllSeen all entry [] h seen = (h, tt)
  insert_score-AllSeen all entry (other ∷ sorted) h seen =
      elim (Bool-cases (less entry.1 other.1)) [
        | inl e ↦ rw e (h, seen)
        | inr e ↦ rw e (seen.0, insert_score-AllSeen all entry sorted h seen.1)
      ]

  length-insert_score :
      (entry : Ref × Float) (sorted : List (Ref × Float))
      → length (insert_score floats entry sorted) ≡ suc (length sorted)
  unfolding insert_score
  length-insert_score entry [] = refl
  length-insert_score entry (other ∷ sorted) = elim (Bool-cases (less entry.1 other.1)) [
    | inl e ↦ rw e refl
    | inr e ↦ rw e (omega (arith, length-insert_score entry sorted))
  ]

  sort_scores-AllSeen :
      (heap : Heap) (all : List Ref) (sorted : List (Ref × Float)) (rest : List Ref)
      → Within rest all
      → AllSeen all sorted
      → AllSeen all (sort_scores floats heap sorted rest)
  unfolding sort_scores
  sort_scores-AllSeen heap all sorted [] within seen = seen
  sort_scores-AllSeen heap all sorted (r ∷ rest) within seen =
      let entry : Ref × Float = (r, health_score floats (heap r)) in
      sort_scores-AllSeen heap all (insert_score floats entry sorted) rest
        (tail-Within all r rest within)
        (insert_score-AllSeen all entry sorted (within r (member_self r rest)) seen)

  length-sort_scores :
      (heap : Heap) (sorted : List (Ref × Float)) (rest : List Ref)
      → length (sort_scores floats heap sorted rest) ≡ length sorted + length rest
  unfolding sort_scores
  length-sort_scores heap sorted [] = omega arith
  length-sort_scores heap sorted (r ∷ rest) =
      let entry : Ref × Float = (r, health_score floats (heap r)) in
      omega (
        arith,
        length-sort_scores heap (insert_score floats entry sorted) rest,
        length-insert_score entry sorted,
      )

  best_score :
      (first : Ref) (rest : List Ref) (scores : List (Ref × Float))
      → AllSeen (first ∷ rest) scores
      → 0 < length scores
      → Answers (first ∷ rest) (elim scores [ [] ↦ index_out_of_range | best ∷ _ ↦ chosen best.0 ])
  best_score first rest [] seen h = absurd (omega arith)
  best_score first rest (best ∷ more) seen h = (best.0, refl, seen.0)

  pub select_health_score-Answers :
      (heap : Heap) (instances : List Ref)
      → Answers instances (select_health_score floats heap instances)
  unfolding select_health_score
  select_health_score-Answers heap [] = refl
  select_health_score-Answers heap (first ∷ rest) =
      best_score first rest (sort_scores floats heap [] (first ∷ rest))
        (sort_scores-AllSeen heap (first ∷ rest) [] (first ∷ rest) (λ r h. h) tt)
        (omega (arith, length-sort_scores heap [] (first ∷ rest)))
