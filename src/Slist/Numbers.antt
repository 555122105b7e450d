-- ===== src/Slist/Numbers.antt =====
-- Lists of numbers, sorted by insertion.
use monitor_merlin.Base.{
  ℕ, zero, suc, ◌<◌, ◌≤◌, ◌≡◌, ◌≢◌, ◌⊎◌, inl, inr, ap, sym, ◌∙◌, refl, true, some, List, [], ◌∷◌,
  length, ltb, leb, if◌then◌else◌, arith, Bool-cases,
}
use monitor_merlin.Slist.{Sign, below, equal, above}
use monitor_merlin.Slist.Bisect.{Has, Orders, SortedBy}
use monitor_merlin.Slist.Find.{Sorts}

abbrev pub compare_numbers : ℕ → ℕ → Sign
compare_numbers a b = if ltb a b then below else if ltb b a then above else equal

pub Orders-numbers : Orders compare_numbers
Orders-numbers = record {
  above_le = λ k x y a b. above_of k x (omega (arith, of_above k y a, not_above x y b));
  below_le = λ k x y a b. below_of k y (omega (arith, of_below k x a, not_above x y b));
  le_trans = λ x y z a b. le_of x z (omega (arith, not_above x y a, not_above y z b));
}
  where
    above_of : (a b : ℕ) → b < a → compare_numbers a b ≡ above
    above_of a b h = ground arith

    below_of : (a b : ℕ) → a < b → compare_numbers a b ≡ below
    below_of a b h = ground arith

    of_above : (a b : ℕ) → compare_numbers a b ≡ above → b < a
    of_above a b h = ground arith

    of_below : (a b : ℕ) → compare_numbers a b ≡ below → a < b
    of_below a b h = ground arith

    not_above : (a b : ℕ) → compare_numbers a b ≢ above → a ≤ b
    not_above a b h = ground arith

    le_of : (a b : ℕ) → a ≤ b → compare_numbers a b ≢ above
    le_of a b h = ground arith

abbrev pub insert : ℕ → List ℕ → List ℕ
insert x [] = x ∷ []
insert x (y ∷ ys) = let rest = insert x ys in if leb x y then x ∷ y ∷ ys else y ∷ rest

abbrev pub insertion_sort : List ℕ → List ℕ
insertion_sort [] = []
insertion_sort (x ∷ xs) = insert x (insertion_sort xs)

-- No number is greater than a later one.
abbrev Sorted : List ℕ → Type 0
Sorted [] = Unit
Sorted (x ∷ xs) = ((y : ℕ) → Has xs y → x ≤ y) × Sorted xs

length-insert : (x : ℕ) (xs : List ℕ) → length (insert x xs) ≡ suc (length xs)
length-insert x [] = refl
length-insert x (y ∷ ys) = ground (arith, length-insert x ys)

into_later : (x y : ℕ) (xs : List ℕ) → Has xs x → Has (y ∷ xs) x
into_later x y xs (i, e) = (suc i, e)

from_cons : (x y : ℕ) (xs : List ℕ) → Has (y ∷ xs) x → (x ≡ y) ⊎ Has xs x
from_cons x y xs (zero, e) = inl (cc e)
from_cons x y xs (suc i, e) = inr (i, e)

insert-Has : (x y : ℕ) (xs : List ℕ) → (y ≡ x) ⊎ Has xs y → Has (insert x xs) y
insert-Has x y [] (inl e) = (zero, ap some (sym e))
insert-Has x y [] (inr (i, e)) = absurd (cc e)
insert-Has x y (z ∷ zs) h =
    let later = insert-Has x y zs in
    elim (Bool-cases (leb x z)) [
      | inl t ↦ elim h [
        | inl e ↦ rw t (zero, ap some (sym e))
        | inr found ↦ rw t (into_later y x (z ∷ zs) found)
      ]
      | inr t ↦ elim h [
        | inl e ↦ rw t (into_later y z (insert x zs) (later (inl e)))
        | inr found ↦ elim (from_cons y z zs found) [
          | inl e ↦ rw t (zero, ap some (sym e))
          | inr deep ↦ rw t (into_later y z (insert x zs) (later (inr deep)))
        ]
      ]
    ]

Has-insert : (x y : ℕ) (xs : List ℕ) → Has (insert x xs) y → (y ≡ x) ⊎ Has xs y
Has-insert x y [] h = elim (from_cons y x [] h) [ inl e ↦ inl e | inr deep ↦ inr deep ]
Has-insert x y (z ∷ zs) h =
    let later = Has-insert x y zs in
    elim (Bool-cases (leb x z)) [
      | inl t ↦ from_cons y x (z ∷ zs) (rw t at h)
      | inr t ↦ elim (from_cons y z (insert x zs) (rw t at h)) [
        | inl e ↦ inr (zero, ap some (sym e))
        | inr deep ↦ elim (later deep) [ inl e ↦ inl e | inr found ↦ inr (into_later y z zs found) ]
      ]
    ]

insert-Sorted : (x : ℕ) (xs : List ℕ) → Sorted xs → Sorted (insert x xs)
insert-Sorted x [] s = (λ y h. absurd (cc h.1), tt)
insert-Sorted x (z ∷ zs) (least, s) =
    let later = insert-Sorted x zs s in
    elim (Bool-cases (leb x z)) [
      | inl t ↦ rw t (λ y h. le_head y t h, (least, s))
      | inr t ↦ rw t (
        λ y h. elim (Has-insert x y zs h) [ inl e ↦ ground arith | inr found ↦ least y found ],
        later,
      )
    ]
  where
    le_head : (y : ℕ) → leb x z ≡ true → Has (z ∷ zs) y → x ≤ y
    le_head y t h = elim (from_cons y z zs h) [
      | inl e ↦ ground arith
      | inr found ↦ (let zy = least y found in ground arith)
    ]

Sorted-SortedBy : (xs : List ℕ) → Sorted xs → SortedBy compare_numbers xs
Sorted-SortedBy [] s i j x y less hx hy = absurd (cc hx)
Sorted-SortedBy (z ∷ zs) s i zero x y less hx hy = absurd (omega arith)
Sorted-SortedBy (z ∷ zs) (least, s) zero (suc j) x y less hx hy =
    let zy = least y (j, hy) in ground (arith, hx)
Sorted-SortedBy (z ∷ zs) (least, s) (suc i) (suc j) x y less hx hy =
    Sorted-SortedBy zs s i j x y (omega arith) hx hy

pub Sorts-insertion : Sorts compare_numbers insertion_sort
Sorts-insertion = record {
  sorted = λ xs. Sorted-SortedBy (insertion_sort xs) (all_sorted xs);
  same_length = same_length;
  into = into;
  from = from;
}
  where
    all_sorted : (xs : List ℕ) → Sorted (insertion_sort xs)
    all_sorted [] = tt
    all_sorted (x ∷ xs) = insert-Sorted x (insertion_sort xs) (all_sorted xs)

    same_length : (xs : List ℕ) → length (insertion_sort xs) ≡ length xs
    same_length [] = refl
    same_length (x ∷ xs) = length-insert x (insertion_sort xs) ∙ ap suc (same_length xs)

    into : (xs : List ℕ) (x : ℕ) → Has xs x → Has (insertion_sort xs) x
    into [] x h = h
    into (y ∷ ys) x h = elim (from_cons x y ys h) [
      | inl e ↦ insert-Has y x (insertion_sort ys) (inl e)
      | inr deep ↦ insert-Has y x (insertion_sort ys) (inr (into ys x deep))
    ]

    from : (xs : List ℕ) (x : ℕ) → Has (insertion_sort xs) x → Has xs x
    from [] x h = h
    from (y ∷ ys) x h = elim (Has-insert y x (insertion_sort ys) h) [
      | inl e ↦ (zero, ap some (sym e))
      | inr deep ↦ into_later x y ys (from ys x deep)
    ]
