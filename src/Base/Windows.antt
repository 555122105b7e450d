-- ===== src/Base/Windows.antt =====
-- The run of `n` array slots from index `i` on, and how it changes under writes.
use Prim.Native.Nat.{ℕ, zero, suc, ◌+◌, ◌≤◌, ◌<◌}
use mathlib.Core.Path.{◌≡◌, refl, ap}
use mathlib.Core.List.{List, [], ◌∷◌, ◌++◌}
use mathlib.Core.Option.{some}
use native.Mathlib.Nat.{suc-add}
use native.Mathlib.Omega.{arith}
use monitor_merlin.Base.Lists.{length, get_elem?, set, take, drop, length-drop, drop-append_le}

module _ {ℓ} {A : Type ℓ} where
  abbrev pub window : List A → ℕ → ℕ → List A
  window xs i n = take n (drop i xs)

  take-set :
      (xs : List A) (n : ℕ) (v : A)
      → n < length xs
      → take (suc n) (set xs n v) ≡ take n xs ++ (v ∷ [])
  take-set [] n v h = absurd (omega arith)
  take-set (x ∷ xs) zero v h = refl
  take-set (x ∷ xs) (suc n) v h = ap (λ l. x ∷ l) (take-set xs n v (omega arith))

  drop-set :
      (xs : List A) (i n j : ℕ) (v : A) → j ≡ i + n → drop i (set xs j v) ≡ set (drop i xs) n v
  drop-set xs zero n j v h = ap (λ k. set xs k v) (omega arith)
  drop-set [] (suc i) n j v h = refl
  drop-set (x ∷ xs) (suc i) n zero v h = absurd (omega arith)
  drop-set (x ∷ xs) (suc i) n (suc j) v h = drop-set xs i n j v (omega arith)

  pub drop-set_before : (xs : List A) (i j : ℕ) (v : A) → j < i → drop i (set xs j v) ≡ drop i xs
  drop-set_before xs zero j v h = absurd (omega arith)
  drop-set_before [] (suc i) j v h = refl
  drop-set_before (x ∷ xs) (suc i) zero v h = refl
  drop-set_before (x ∷ xs) (suc i) (suc j) v h = drop-set_before xs i j v (omega arith)

  pub drop-cons :
      (xs : List A) (i : ℕ) {x : A} → get_elem? xs i ≡ some x → drop i xs ≡ x ∷ drop (i + 1) xs
  drop-cons [] i h = absurd (cc h)
  drop-cons (y ∷ xs) zero h = ground arith
  drop-cons (y ∷ xs) (suc i) h = rw suc-add (drop-cons xs i h)

  pub get_elem?_lt : (xs : List A) (i : ℕ) → i < length xs → (x : A) × (get_elem? xs i ≡ some x)
  get_elem?_lt [] i h = absurd (omega arith)
  get_elem?_lt (x ∷ xs) zero h = (x, refl)
  get_elem?_lt (x ∷ xs) (suc i) h = get_elem?_lt xs i (omega arith)

  take-append_le : (n : ℕ) (xs ys : List A) → n ≤ length xs → take n (xs ++ ys) ≡ take n xs
  take-append_le zero xs ys h = refl
  take-append_le (suc n) [] ys h = absurd (omega arith)
  take-append_le (suc n) (x ∷ xs) ys h = ap (λ l. x ∷ l) (take-append_le n xs ys (omega arith))

  -- A write just past the window makes it one longer.
  pub window-set_end :
      (xs : List A) (i n j : ℕ) (v : A)
      → j ≡ i + n
      → j < length xs
      → window (set xs j v) i (suc n) ≡ window xs i n ++ (v ∷ [])
  window-set_end xs i n j v e h =
      rw (drop-set xs i n j v e) (take-set (drop i xs) n v (omega (arith, length-drop i xs)))

  -- A write just before it makes it one longer at the front.
  pub window-set_start :
      (xs : List A) (i n : ℕ) (v : A)
      → i < length xs
      → window (set xs i v) i (suc n) ≡ v ∷ window xs (i + 1) n
  window-set_start [] i n v h = absurd (omega arith)
  window-set_start (x ∷ xs) zero n v h = refl
  window-set_start (x ∷ xs) (suc i) n v h = rw suc-add (window-set_start xs i n v (omega arith))

  -- Slots added at the end of the array are outside.
  pub window-append :
      (xs ys : List A) (i n : ℕ) → i + n ≤ length xs → window (xs ++ ys) i n ≡ window xs i n
  window-append xs ys i n h =
      rw (drop-append_le i xs ys (omega arith))
        (take-append_le n (drop i xs) ys (omega (arith, length-drop i xs)))
