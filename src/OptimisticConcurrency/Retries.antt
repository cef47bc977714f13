-- ===== src/OptimisticConcurrency/Retries.antt =====
-- The answers of the retry resolver (pkg/repository/optimistic_concurrency.go).
use text.Mathlib.TextEquality.{eq_iff}
use pyairtable_go_services.Prelude.{
  ℕ, ◌+◌, ◌≤◌, ◌<◌, ◌≡◌, refl, inl, inr, String, true, false, List, [], ◌∷◌, none, some, ℤ, pos,
  ◌+ℤ◌, ltb_ℤ, int64_max, increment_exact, ap, ◌∙◌, sym, subst, Dict, insert, erase, lookup-insert,
  lookup-erase, str_eq, ltb, count, arith, if◌then◌else◌, Bool-cases,
}
use pyairtable_go_services.OptimisticConcurrency.{
  retry, abort, ConflictResolver, retry_on_conflict, Candidate, max_retries_exceeded, Resolution,
  or_zero, retries_of, resolve_by_retry, resolve_conflict,
}

-- The resolver after conflicts of some aggregates, one after the other.
unfoldable pub after_conflicts : List Candidate → ConflictResolver → ConflictResolver
unfolding resolve_conflict
after_conflicts [] resolver = resolver
after_conflicts (c ∷ cs) resolver = after_conflicts cs (resolve_conflict c resolver).1

abbrev pub conflicts_of : String → List Candidate → ℕ
conflicts_of id cs = count (λ c. str_eq c.id id) cs

-- What it answers to an aggregate that has met `k` conflicts, where `n` retries are allowed.
abbrev pub answer_after : ℕ → ℕ → Resolution
answer_after n k = if ltb k n then (retry, none) else (abort, some max_retries_exceeded)

-- The resolver whose aggregate has met `k` conflicts.
abbrev Counted : String → ℕ → ℕ → ConflictResolver → Type 0
Counted id n k resolver =
    (counts : Dict ℤ) × (resolver ≡ retry_on_conflict (pos n) counts)
    × (retries_of id counts ≡ pos k)

answer :
    (c : Candidate) (n k : ℕ) (counts : Dict ℤ)
    → retries_of c.id counts ≡ pos k
    → (resolve_by_retry c.id (pos n) counts).0 ≡ answer_after n k
answer c n k counts counted = rw counted (ground arith)

retries_of-insert :
    (written id : String) (value : ℤ) (counts : Dict ℤ)
    → retries_of id (insert written value counts)
      ≡ (if str_eq written id then value else retries_of id counts)
retries_of-insert written id value counts =
    ap or_zero (lookup-insert written id value counts) ∙ ground arith

retries_of-erase :
    (gone id : String) (counts : Dict ℤ)
    → retries_of id (erase gone counts) ≡ (if str_eq gone id then pos 0 else retries_of id counts)
retries_of-erase gone id counts = ap or_zero (lookup-erase gone id counts) ∙ ground arith

other_count :
    (id : String) (n k : ℕ) (c : Candidate) (counts : Dict ℤ)
    → str_eq c.id id ≡ false
    → retries_of id counts ≡ pos k
    → Counted id n k (resolve_by_retry c.id (pos n) counts).1
other_count id n k c counts other counted =
    elim (Bool-cases (ltb_ℤ (retries_of c.id counts) (pos n))) [
      | inl below ↦ rw below (
        _,
        refl,
        ground (
          arith,
          retries_of-insert c.id id (retries_of c.id counts +ℤ pos 1) counts,
          other,
          counted,
        ),
      )
      | inr over ↦
          rw over (_, refl, ground (arith, retries_of-erase c.id id counts, other, counted))
    ]

own_count :
    (c : Candidate) (n k : ℕ) (counts : Dict ℤ)
    → k < n
    → n ≤ int64_max
    → retries_of c.id counts ≡ pos k
    → Counted c.id n (k + 1) (resolve_by_retry c.id (pos n) counts).1
own_count c n k counts below fits counted =
    let again : ltb_ℤ (pos k) (pos n) ≡ true = ground arith in
    rw (counted, again)
      (
        _,
        refl,
        ground (
          arith,
          retries_of-insert c.id c.id (pos k +ℤ pos 1) counts,
          eq_iff c.id c.id,
          increment_exact k (omega arith),
        ),
      )

after_conflicts-Counted :
    (id : String) (n k total : ℕ) (cs : List Candidate) (counts : Dict ℤ)
    → n ≤ int64_max
    → total ≡ k + conflicts_of id cs
    → total ≤ n
    → retries_of id counts ≡ pos k
    → Counted id n total (after_conflicts cs (retry_on_conflict (pos n) counts))
unfolding after_conflicts resolve_conflict
after_conflicts-Counted id n k total [] counts fits all few counted =
    (counts, refl, counted ∙ ap pos (omega arith))
after_conflicts-Counted id n k total (c ∷ cs) counts fits all few counted =
    elim (Bool-cases (str_eq c.id id)) [
      | inl same ↦
          let e : c.id ≡ id = ground (arith, same, eq_iff c.id id) in
          let step =
            own_count c n k counts (ground arith) fits
              (ap (λ x. retries_of x counts) e ∙ counted) in
          subst (λ r. Counted id n total (after_conflicts cs r)) (sym step.1)
            (after_conflicts-Counted id n (k + 1) total cs step.0 fits (ground arith) few
              (ap (λ x. retries_of x step.0) (sym e) ∙ step.2))
      | inr other ↦
          let step = other_count id n k c counts other counted in
          subst (λ r. Counted id n total (after_conflicts cs r)) (sym step.1)
            (after_conflicts-Counted id n k total cs step.0 fits (ground arith) few step.2)
    ]

-- A resolver that allows n retries and has counted none for an aggregate answers a conflict of it, after
-- conflicts of any aggregates of which at most n are its own: with a retry while fewer than n are, and
-- with an abort once n are, whatever the conflicts of others have been. So the retries of an aggregate end.
pub retries_end :
    (n : ℕ) (cs : List Candidate) (c : Candidate) (counts : Dict ℤ)
    → n ≤ int64_max
    → retries_of c.id counts ≡ pos 0
    → conflicts_of c.id cs ≤ n
    → (resolve_conflict c (after_conflicts cs (retry_on_conflict (pos n) counts))).0
      ≡ answer_after n (conflicts_of c.id cs)
unfolding resolve_conflict
retries_end n cs c counts fits fresh few =
    let after =
      after_conflicts-Counted c.id n 0 (conflicts_of c.id cs) cs counts fits (omega arith) few
        fresh in
    subst (λ r. (resolve_conflict c r).0 ≡ answer_after n (conflicts_of c.id cs)) (sym after.1)
      (answer c n (conflicts_of c.id cs) after.0 after.2)
