-- ===== src/Webhooks/Ends.antt =====
-- How a webhook delivery ends (webhook-service/internal/services/delivery_service.go): with a delivery, a
-- dead letter, or a panic.
use pyairtable_go_services.Prelude.{
  ℕ, ◌+◌, ◌≤◌, ◌<◌, ◌≡◌, refl, sym, ◌∙◌, ap, subst, inl, inr, String, Bool, true, false, not, List,
  [], ◌∷◌, Option, none, some, ℤ, pos, ◌+ℤ◌, ltb_ℤ, int64_max, increment_exact, length, arith,
  if◌then◌else◌, Bool-cases,
}
use pyairtable_go_services.Webhooks.{
  delivered, retrying, abandoned, DeliveryAttempt, DeadLetter, Ledger, DeliveryResult, Exchange,
  not_prepared, not_answered, response, Answers, settled, unanswered_result, answered_result,
  attempt_delivery, update_delivery_attempt, update_stats, Ending, returned, panicked,
  move_to_dead_letter, handle_failed_delivery, conclude, try_delivery, retry_delivery, is_retrying,
}

-- A database that stores everything.
abbrev pub storing : ℕ → ℕ → Answers
storing now unix = record {
  now = now;
  unix = unix;
  result_not_stored = false;
  end_not_stored = false;
  stats_not_stored = false;
  dead_letter_error = none;
}

-- An exchange that gives a result: the request could be made.
abbrev pub is_prepared : Exchange → Bool
is_prepared (not_prepared error) = false
is_prepared other = true

-- The row after the attempt with a number, where so many attempts are allowed.
pub data Stage (m number : ℕ) (l : Ledger) : Type 0 where
  arrived : l.row.status ≡ delivered → Stage m number l
  given_up :
      (letter : DeadLetter) (before : List DeadLetter)
      → l.row.status ≡ abandoned
      → l.dead_letters ≡ letter ∷ before
      → letter.attempt_count ≡ pos number
      → m ≤ number
      → Stage m number l
  waiting :
      l.row.status ≡ retrying
      → l.row.attempt_number ≡ pos number
      → l.webhook.max_retries ≡ pos m
      → number < m
      → Stage m number l

true_of_not : {b : Bool} → not b ≡ false → b ≡ true
true_of_not {b} h = ground arith

abbrev Concludes : ℕ → ℕ → Ledger × Ending → Type 0
Concludes m number result = (result.1 ≡ returned none) × Stage m number result.0

below_of : {a b : ℤ} {n m : ℕ} → a ≡ pos n → b ≡ pos m → ltb_ℤ a b ≡ true → n < m
below_of {a} {b} {n} {m} ea eb h = ground arith

most_of : {a b : ℤ} {n m : ℕ} → a ≡ pos n → b ≡ pos m → ltb_ℤ a b ≡ false → m ≤ n
most_of {a} {b} {n} {m} ea eb h = ground arith

settled_number :
    (now : ℕ) (r : DeliveryResult) (a : DeliveryAttempt) {n : ℕ}
    → a.attempt_number ≡ pos n
    → (settled now r a).attempt_number ≡ pos n
settled_number now r a h = elim (Bool-cases r.success) [ inl fine ↦ rw fine h | inr bad ↦ rw bad h ]

settled_status :
    (now : ℕ) (r : DeliveryResult) (a : DeliveryAttempt)
    → r.success ≡ true
    → (settled now r a).status ≡ delivered
settled_status now r a fine = rw fine refl

if_Concludes :
    {m number : ℕ} (b : Bool) (x y : Ledger × Ending)
    → (b ≡ true → Concludes m number x)
    → (b ≡ false → Concludes m number y)
    → Concludes m number (if b then x else y)
if_Concludes true x y p q = p refl
if_Concludes false x y p q = q refl

module _ (now unix m number : ℕ) where
  failed_Concludes :
      (r : DeliveryResult) (error : Option String) (l : Ledger)
      → l.attempt.attempt_number ≡ pos number
      → l.webhook.max_retries ≡ pos m
      → Concludes m number (handle_failed_delivery (storing now unix) (some r) error l)
  unfolding handle_failed_delivery update_stats move_to_dead_letter
  failed_Concludes r error l at_number allowed =
      elim (Bool-cases (ltb_ℤ l.attempt.attempt_number l.webhook.max_retries)) [
        | inl again ↦
            let below : number < m = below_of at_number allowed again in
            rw again (refl, waiting refl at_number allowed below)
        | inr over ↦
            let most : m ≤ number = most_of at_number allowed over in
            rw over (refl, given_up _ _ refl refl at_number most)
      ]

  result_Concludes :
      (r : DeliveryResult) (error : Option String) (l : Ledger)
      → l.attempt.attempt_number ≡ pos number
      → l.webhook.max_retries ≡ pos m
      → Concludes m number (conclude (storing now unix) (some r) error l)
  unfolding conclude update_delivery_attempt
  result_Concludes r (some e) l at_number allowed =
      failed_Concludes r (some e) (update_delivery_attempt (storing now unix) (some r) (some e) l)
        (settled_number now r (record l.attempt { attempted_at = some now }) at_number) allowed
  result_Concludes r none l at_number allowed =
      if_Concludes (not r.success) _ _
        (λ bad.
          failed_Concludes r none (update_delivery_attempt (storing now unix) (some r) none l)
            (settled_number now r (record l.attempt { attempted_at = some now }) at_number) allowed)
        (λ fine. (
          refl,
          arrived (
              settled_status now r (record l.attempt { attempted_at = some now })
                (true_of_not fine)),
        ))

  -- An attempt whose request could be made.
  try_Concludes :
      (exchange : Exchange) (l : Ledger)
      → is_prepared exchange ≡ true
      → l.attempt.attempt_number ≡ pos number
      → l.webhook.max_retries ≡ pos m
      → Concludes m number (try_delivery (storing now unix) exchange l)
  unfolding try_delivery attempt_delivery
  try_Concludes (not_prepared error) l prepared at_number allowed = absurd (cc)
  try_Concludes (not_answered duration error) l prepared at_number allowed =
      result_Concludes (unanswered_result duration error) (some error) l at_number allowed
  try_Concludes (response duration code body text) l prepared at_number allowed =
      result_Concludes (answered_result duration code body text) none l at_number allowed

-- A time, a number of seconds, and an exchange, for each retry.
abbrev pub Retry : Type 0
Retry = ℕ × ℕ × Exchange

abbrev pub AllPrepared : List Retry → Type 0
AllPrepared [] = Unit
AllPrepared (t ∷ tries) = (is_prepared t.2 ≡ true) × AllPrepared tries

-- The retries of one delivery, while its row is marked for one.
unfoldable pub pursue : List Retry → Ledger → Ledger
unfolding retry_delivery
pursue [] l = l
pursue (t ∷ tries) l =
    pursue tries
      (if is_retrying l.row.status then (retry_delivery (storing t.0 t.1) t.2 l).0 else l)

-- Delivered, or given up with a dead letter that counts all attempts.
pub data Ended (m : ℕ) (l : Ledger) : Type 0 where
  success : l.row.status ≡ delivered → Ended m l
  dead :
      (letter : DeadLetter) (before : List DeadLetter) (number : ℕ)
      → l.row.status ≡ abandoned
      → l.dead_letters ≡ letter ∷ before
      → letter.attempt_count ≡ pos number
      → m ≤ number
      → Ended m l

ended_stays :
    (m : ℕ) (tries : List Retry) (l : Ledger)
    → is_retrying l.row.status ≡ false
    → pursue tries l ≡ l
unfolding pursue
ended_stays m [] l h = refl
ended_stays m (t ∷ tries) l h = rw h (ended_stays m tries l h)

pursue_step :
    (t : Retry) (tries : List Retry) (l : Ledger)
    → l.row.status ≡ retrying
    → pursue (t ∷ tries) l ≡ pursue tries (retry_delivery (storing t.0 t.1) t.2 l).0
unfolding pursue
pursue_step t tries l e = rw (ap is_retrying e) refl

retry_Concludes :
    (now unix m number : ℕ) (exchange : Exchange) (l : Ledger)
    → is_prepared exchange ≡ true
    → l.row.attempt_number ≡ pos number
    → l.webhook.max_retries ≡ pos m
    → number < int64_max
    → Concludes m (number + 1) (retry_delivery (storing now unix) exchange l)
unfolding retry_delivery
retry_Concludes now unix m number exchange l prepared at_number allowed fits =
    try_Concludes now unix m (number + 1) exchange
      (record l { attempt = record l.row { attempt_number = l.row.attempt_number +ℤ pos 1 } })
      prepared (ap (λ n. n +ℤ pos 1) at_number ∙ increment_exact number fits) allowed

pursue_from :
    (m number : ℕ) (tries : List Retry) (l : Ledger)
    → Stage m number l
    → AllPrepared tries
    → m ≤ number + length tries
    → m < int64_max
    → Ended m (pursue tries l)
pursue_from m number tries l (arrived e) prepared enough fits =
    rw (ended_stays m tries l (ap is_retrying e)) (success e)
pursue_from m number tries l (given_up letter before e letters counts most) prepared enough fits =
    rw (ended_stays m tries l (ap is_retrying e)) (dead letter before number e letters counts most)
pursue_from m number [] l (waiting e at_number allowed below) prepared enough fits =
    absurd (omega arith)
pursue_from m number (t ∷ tries) l (waiting e at_number allowed below) prepared enough fits =
    let done =
      retry_Concludes (t.0) (t.1) m number t.2 l prepared.0 at_number allowed (omega arith) in
    subst (Ended m) (sym (pursue_step t tries l e)) (
      pursue_from m (number + 1) tries (retry_delivery (storing t.0 t.1) t.2 l).0 done.1 prepared.1
        (omega arith) fits)

-- A delivery to a webhook that allows m attempts ends with the last of them: of its first attempt and
-- m - 1 retries, whose times and exchanges may be any, one delivers the event, or the row is abandoned
-- and a dead letter counts at least m attempts. The requests can be made and the database stores all.
pub delivery_ends :
    (now unix m : ℕ) (exchange : Exchange) (tries : List Retry) (l : Ledger)
    → l.attempt.attempt_number ≡ pos 1
    → l.webhook.max_retries ≡ pos m
    → is_prepared exchange ≡ true
    → AllPrepared tries
    → m ≤ 1 + length tries
    → m < int64_max
    → Ended m (pursue tries (try_delivery (storing now unix) exchange l).0)
delivery_ends now unix m exchange tries l at_number allowed prepared all enough fits =
    pursue_from m 1 tries (try_delivery (storing now unix) exchange l).0
      (try_Concludes now unix m 1 exchange l prepared at_number allowed).1 all enough fits

-- An attempt that is the last one and whose request cannot be made ends the service's call with a panic:
-- the dead letter reads the status code of a result that is nil, and no dead letter is created.
unprepared_panics :
    (a : Answers) (error : String) (l : Ledger)
    → ltb_ℤ l.attempt.attempt_number l.webhook.max_retries ≡ false
    → ((try_delivery a (not_prepared error) l).1 ≡ panicked)
      × ((try_delivery a (not_prepared error) l).0.dead_letters ≡ l.dead_letters)
unfolding try_delivery attempt_delivery conclude handle_failed_delivery move_to_dead_letter
    update_stats update_delivery_attempt
unprepared_panics a error l last = elim (Bool-cases a.result_not_stored) [
  | inl lost ↦ elim (Bool-cases a.stats_not_stored) [
    | inl f ↦ rw (lost, f, last) (refl, refl)
    | inr f ↦ rw (lost, f, last) (refl, refl)
  ]
  | inr kept ↦ elim (Bool-cases a.stats_not_stored) [
    | inl f ↦ rw (kept, f, last) (refl, refl)
    | inr f ↦ rw (kept, f, last) (refl, refl)
  ]
]
