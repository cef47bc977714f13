-- ===== src/CircuitBreaker/Counting.antt =====
-- Requests under way, counted by their generations (pkg/circuitbreaker).
use pyairtable_go_services.Prelude.{
  ℕ, suc, ◌≤◌, ◌<◌, ◌≡◌, refl, List, [], ◌∷◌, ◌++◌, All, arith, ◌==◌, if◌then◌else◌,
}

abbrev pub count : ℕ → List ℕ → ℕ
count g [] = 0
count g (x ∷ xs) = let rest = count g xs in if x == g then suc rest else rest

pub count-fresh : (g h : ℕ) (xs : List ℕ) → All (λ x. x ≤ g) xs → g < h → count h xs ≡ 0
count-fresh g h [] a l = refl
count-fresh g h (x ∷ xs) a l = ground (arith, count-fresh g h xs a.1 l)

pub count-split :
    (g h : ℕ) (xs ys : List ℕ)
    → count g (xs ++ h ∷ ys) ≡ (if h == g then suc (count g (xs ++ ys)) else count g (xs ++ ys))
count-split g h [] ys = refl
count-split g h (x ∷ xs) ys = ground (arith, count-split g h xs ys)

pub All-mono : (g h : ℕ) (xs : List ℕ) → g ≤ h → All (λ x. x ≤ g) xs → All (λ x. x ≤ h) xs
All-mono g h [] l a = tt
All-mono g h (x ∷ xs) l a = (omega arith, All-mono g h xs l a.1)

pub All-drop :
    (g h : ℕ) (xs ys : List ℕ) → All (λ x. x ≤ g) (xs ++ h ∷ ys) → All (λ x. x ≤ g) (xs ++ ys)
All-drop g h [] ys a = a.1
All-drop g h (x ∷ xs) ys a = (a.0, All-drop g h xs ys a.1)
