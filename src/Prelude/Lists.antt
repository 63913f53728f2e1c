-- ===== src/Prelude/Lists.antt =====
-- Lists with native lengths and indices, and association lists keyed by numbers.
use Prim.Native.Nat.{ℕ, zero, suc, ◌+◌, ◌≤◌}
use mathlib.Core.Path.{◌≡◌, refl, ap}
use mathlib.Core.Logic.{◌≢◌}
use mathlib.Core.Option.{Option, none, some}
use mathlib.Core.List.{List, [], ◌∷◌, ◌++◌}
use native.Mathlib.Omega.{arith}
use knowledge_acquisition.Prelude.Tests.{◌==◌, if◌then◌else◌}

module _ {ℓ} {A : Type ℓ} where
  abbrev pub length : List A → ℕ
  length [] = 0
  length (x ∷ xs) = suc (length xs)

  abbrev pub get_elem? : List A → ℕ → Option A
  get_elem? [] i = none
  get_elem? (x ∷ xs) zero = some x
  get_elem? (x ∷ xs) (suc i) = get_elem? xs i

  -- A write out of bounds changes nothing; the code that writes tests the index before.
  abbrev pub set : List A → ℕ → A → List A
  set [] i v = []
  set (x ∷ xs) zero v = v ∷ xs
  set (x ∷ xs) (suc i) v = x ∷ set xs i v

  abbrev pub replicate : ℕ → A → List A
  replicate zero a = []
  replicate (suc n) a = a ∷ replicate n a

  abbrev pub All {κ} : (A → Type κ) → List A → Type κ
  All P [] = Unit {κ}
  All P (x ∷ xs) = P x × All P xs

  pub length-append : (xs ys : List A) → length (xs ++ ys) ≡ length xs + length ys
  length-append [] ys = omega arith
  length-append (x ∷ xs) ys = omega (arith, length-append xs ys)

  pub length-replicate : (n : ℕ) (a : A) → length (replicate n a) ≡ n
  length-replicate zero a = refl
  length-replicate (suc n) a = omega (arith, length-replicate n a)

  pub length-set : (xs : List A) (i : ℕ) (v : A) → length (set xs i v) ≡ length xs
  length-set [] i v = refl
  length-set (x ∷ xs) zero v = refl
  length-set (x ∷ xs) (suc i) v = omega (arith, length-set xs i v)

  pub get_elem?-set_other :
      (xs : List A) (i j : ℕ) (w : A) → i ≢ j → get_elem? (set xs i w) j ≡ get_elem? xs j
  get_elem?-set_other [] i j w n = refl
  get_elem?-set_other (x ∷ xs) zero zero w n = absurd (n refl)
  get_elem?-set_other (x ∷ xs) zero (suc j) w n = refl
  get_elem?-set_other (x ∷ xs) (suc i) zero w n = refl
  get_elem?-set_other (x ∷ xs) (suc i) (suc j) w n =
      get_elem?-set_other xs i j w (λ e. n (ap suc e))

  pub get_elem?-set_here :
      (xs : List A) (i : ℕ) (v w : A) → get_elem? xs i ≡ some v → get_elem? (set xs i w) i ≡ some w
  get_elem?-set_here [] i v w e = cc
  get_elem?-set_here (x ∷ xs) zero v w e = refl
  get_elem?-set_here (x ∷ xs) (suc i) v w e = get_elem?-set_here xs i v w e

  pub All-append {κ} : (P : A → Type κ) (xs ys : List A) → All P xs → All P ys → All P (xs ++ ys)
  All-append P [] ys h k = k
  All-append P (x ∷ xs) ys h k = (h.0, All-append P xs ys h.1 k)

-- Sums over a list.
module _ {ℓ} {A : Type ℓ} (f : A → ℕ) where
  abbrev pub total : List A → ℕ
  total [] = 0
  total (x ∷ xs) = f x + total xs

  pub total-append : (xs ys : List A) → total (xs ++ ys) ≡ total xs + total ys
  total-append [] ys = omega arith
  total-append (x ∷ xs) ys = omega (arith, total-append xs ys)

  pub total-set :
      (xs : List A) (i : ℕ) (v w : A)
      → get_elem? xs i ≡ some v
      → total (set xs i w) + f v ≡ total xs + f w
  total-set [] i v w e = cc
  total-set (x ∷ xs) zero v w e = let q : f x ≡ f v = ground (arith, e) in omega arith
  total-set (x ∷ xs) (suc i) v w e = omega (arith, total-set xs i v w e)

  pub total-le : (xs : List A) → ((x : A) → f x ≤ 1) → total xs ≤ length xs
  total-le [] h = omega arith
  total-le (x ∷ xs) h = omega (arith, h x, total-le xs h)

-- `std::map` and `std::unordered_map` with numbers for keys.
module _ {ℓ} {V : Type ℓ} where
  abbrev pub lookup : ℕ → List (ℕ × V) → Option V
  lookup key [] = none
  lookup key (entry ∷ rest) = if entry.0 == key then some entry.1 else lookup key rest

  -- `m[key] = value`.
  abbrev pub insert : ℕ → V → List (ℕ × V) → List (ℕ × V)
  insert key value [] = (key, value) ∷ []
  insert key value (entry ∷ rest) =
      if entry.0 == key then (key, value) ∷ rest else entry ∷ insert key value rest

  pub lookup-insert :
      (k j : ℕ) (v : V) (m : List (ℕ × V))
      → lookup j (insert k v m) ≡ (if k == j then some v else lookup j m)
  lookup-insert k j v [] = refl
  lookup-insert k j v ((i, w) ∷ m) = ground (arith, lookup-insert k j v m)

  -- `m.erase(k)`.
  abbrev pub remove : ℕ → List (ℕ × V) → List (ℕ × V)
  remove k [] = []
  remove k ((j, v) ∷ m) = if j == k then m else (j, v) ∷ remove k m

  -- No key stands twice.
  abbrev pub Fresh : ℕ → List (ℕ × V) → Type 0
  Fresh k [] = Unit {0}
  Fresh k ((j, v) ∷ m) = (j ≢ k) × Fresh k m

  abbrev pub Distinct : List (ℕ × V) → Type 0
  Distinct [] = Unit {0}
  Distinct ((k, v) ∷ m) = Fresh k m × Distinct m

  pub lookup-Fresh : (k : ℕ) (m : List (ℕ × V)) → Fresh k m → lookup k m ≡ none
  lookup-Fresh k [] f = refl
  lookup-Fresh k ((j, v) ∷ m) f = ground (arith, lookup-Fresh k m f.1)

  pub Fresh-of_lookup : (k : ℕ) (m : List (ℕ × V)) → lookup k m ≡ none → Fresh k m
  Fresh-of_lookup k [] e = tt
  Fresh-of_lookup k ((j, v) ∷ m) e = ground (arith, Fresh-of_lookup k m)

  pub Fresh-remove : (k j : ℕ) (m : List (ℕ × V)) → Fresh k m → Fresh k (remove j m)
  Fresh-remove k j [] f = tt
  Fresh-remove k j ((i, v) ∷ m) f = ground (arith, Fresh-remove k j m f.1)

  pub Distinct-remove : (j : ℕ) (m : List (ℕ × V)) → Distinct m → Distinct (remove j m)
  Distinct-remove j [] d = tt
  Distinct-remove j ((i, v) ∷ m) d = ground (arith, Fresh-remove i j m d.0, Distinct-remove j m d.1)

  pub lookup-remove :
      (k j : ℕ) (m : List (ℕ × V))
      → Distinct m
      → lookup j (remove k m) ≡ (if k == j then none else lookup j m)
  lookup-remove k j [] d = ground arith
  lookup-remove k j ((i, v) ∷ m) d = ground (arith, lookup-remove k j m d.1, lookup-Fresh k m)

  pub Fresh-insert :
      (k j : ℕ) (v : V) (m : List (ℕ × V)) → k ≢ j → Fresh k m → Fresh k (insert j v m)
  Fresh-insert k j v [] ne f = ground arith
  Fresh-insert k j v ((i, w) ∷ m) ne f = ground (arith, Fresh-insert k j v m ne f.1)

  pub Distinct-insert : (j : ℕ) (v : V) (m : List (ℕ × V)) → Distinct m → Distinct (insert j v m)
  Distinct-insert j v [] d = (tt, tt)
  Distinct-insert j v ((i, w) ∷ m) d =
      ground (arith, Fresh-insert i j v m, Distinct-insert j v m d.1)
