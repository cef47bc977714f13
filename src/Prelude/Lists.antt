-- ===== src/Prelude/Lists.antt =====
-- Lists measured by native numbers, and predicates on all their entries.
use Prim.Native.Nat.{ℕ, zero, suc, ◌+◌, ◌<◌}
use mathlib.Core.Path.{◌≡◌, refl, subst}
use mathlib.Core.Logic.{inl, inr}
use mathlib.Core.Bool.{Bool, true, false, ◌||◌}
use mathlib.Core.Option.{Option, none, some}
use mathlib.Core.List.{List, [], ◌∷◌, ◌++◌}
use native.Mathlib.Omega.{arith}
use pyairtable_go_services.Prelude.Tests.{◌==◌, ==_iff, Bool-cases, if◌then◌else◌}

module _ {ℓ} {A : Type ℓ} where
  abbrev pub length : List A → ℕ
  length [] = 0
  length (x ∷ xs) = suc (length xs)

  length-append : (xs ys : List A) → length (xs ++ ys) ≡ length xs + length ys
  length-append [] ys = omega arith
  length-append (x ∷ xs) ys = omega (arith, length-append xs ys)

  -- A Go loop that returns true at the first entry that passes.
  abbrev pub exists : (A → Bool) → List A → Bool
  exists p [] = false
  exists p (x ∷ xs) = p x || exists p xs

  -- The first n entries, or all where there are fewer.
  abbrev pub take : ℕ → List A → List A
  take zero xs = []
  take (suc n) [] = []
  take (suc n) (x ∷ xs) = x ∷ take n xs

  abbrev pub get_elem? : List A → ℕ → Option A
  get_elem? [] i = none
  get_elem? (x ∷ xs) zero = some x
  get_elem? (x ∷ xs) (suc i) = get_elem? xs i

  pub get_elem?-lt_length :
      (xs : List A) (i : ℕ) → i < length xs → (x : A) × (get_elem? xs i ≡ some x)
  get_elem?-lt_length [] i h = absurd (omega arith)
  get_elem?-lt_length (x ∷ xs) zero h = (x, refl)
  get_elem?-lt_length (x ∷ xs) (suc i) h = get_elem?-lt_length xs i (omega arith)

  -- How many entries pass.
  abbrev pub count : (A → Bool) → List A → ℕ
  count p [] = 0
  count p (x ∷ xs) = (if p x then 1 else 0) + count p xs

  pub count-append : (p : A → Bool) (xs ys : List A) → count p (xs ++ ys) ≡ count p xs + count p ys
  count-append p [] ys = omega arith
  count-append p (x ∷ xs) ys = omega (arith, count-append p xs ys)

  -- The entries that pass, in their order.
  abbrev pub filter : (A → Bool) → List A → List A
  filter p [] = []
  filter p (x ∷ xs) = if p x then x ∷ filter p xs else filter p xs

abbrev pub member : ℕ → List ℕ → Bool
member n [] = false
member n (x ∷ xs) = x == n || member n xs

pub member-get_elem? : (xs : List ℕ) (i : ℕ) {x : ℕ} → get_elem? xs i ≡ some x → member x xs ≡ true
member-get_elem? [] i h = cc
member-get_elem? (y ∷ xs) zero h = ground arith
member-get_elem? (y ∷ xs) (suc i) h = ground (arith, member-get_elem? xs i h)

module _ {ℓ κ} {A : Type ℓ} where
  abbrev pub All : (A → Type κ) → List A → Type κ
  All P [] = Unit
  All P (x ∷ rest) = P x × All P rest

  pub All-append :
      (P : A → Type κ) (front back : List A) → All P front → All P back → All P (front ++ back)
  All-append P [] back front_holds both = both
  All-append P (x ∷ front) back holds both = (holds.0, All-append P front back holds.1 both)

module _ {κ} where
  pub All-member : (P : ℕ → Type κ) (xs : List ℕ) (n : ℕ) → All P xs → member n xs ≡ true → P n
  All-member P [] n all m = absurd (cc)
  All-member P (x ∷ xs) n all m = elim (Bool-cases (x == n)) [
    | inl e ↦ subst P ((==_iff x n).0 e) all.0
    | inr e ↦ All-member P xs n all.1 (ground arith)
  ]

  pub All-of_member :
      (P : ℕ → Type κ) (xs : List ℕ) → ((n : ℕ) → member n xs ≡ true → P n) → All P xs
  All-of_member P [] h = tt
  All-of_member P (x ∷ xs) h = (h x (ground arith), All-of_member P xs (λ n m. h n (ground arith)))

  pub All-implies : (P Q : ℕ → Type κ) (xs : List ℕ) → ((n : ℕ) → P n → Q n) → All P xs → All Q xs
  All-implies P Q [] f all = tt
  All-implies P Q (x ∷ xs) f all = (f x all.0, All-implies P Q xs f all.1)
