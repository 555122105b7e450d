-- ===== src/Slist/Ends.antt =====
-- The end of the array of a list, where tools/slist.c adds and removes items.
use monitor_merlin.Base.{
  ℕ, zero, suc, ◌-◌, ◌<◌, ◌≡◌, ◌≢◌, ◌∙◌, ap, refl, sym, Option, none, some, List, [], ◌∷◌, ◌++◌,
  map, length, get_elem?, set, length-append, arith,
}
use native.Mathlib.Decide.{dec_lt}
use monitor_merlin.Slist.{Sign, above}
use monitor_merlin.Slist.Bisect.{Orders, SortedBy}
use monitor_merlin.Slist.Find.{in_range}

module _ {Item : Type 0} where
  pub set-filled :
      (xs : List Item) (y : Option Item) (rest : List (Option Item)) (x : Item)
      → set (map some xs ++ y ∷ rest) (length xs) (some x) ≡ map some (xs ++ x ∷ []) ++ rest
  set-filled [] y rest x = refl
  set-filled (z ∷ xs) y rest x = ap (λ l. some z ∷ l) (set-filled xs y rest x)

  pub set-emptied :
      (xs : List Item) (x : Item) (rest : List (Option Item))
      → set (map some (xs ++ x ∷ []) ++ rest) (length xs) none ≡ map some xs ++ none ∷ rest
  set-emptied [] x rest = refl
  set-emptied (z ∷ xs) x rest = ap (λ l. some z ∷ l) (set-emptied xs x rest)

  get-append_lt :
      (xs ys : List Item) (i : ℕ) → i < length xs → get_elem? (xs ++ ys) i ≡ get_elem? xs i
  get-append_lt [] ys i h = absurd (omega arith)
  get-append_lt (x ∷ xs) ys zero h = refl
  get-append_lt (x ∷ xs) ys (suc i) h = get-append_lt xs ys i (omega arith)

  pub get_last : (xs : List Item) (x : Item) → get_elem? (xs ++ x ∷ []) (length xs) ≡ some x
  get_last [] x = refl
  get_last (z ∷ xs) x = get_last xs x

  some_injective : {x y : Item} → some x ≡ some y → x ≡ y
  some_injective e = cc e

  module _ (compare : Item → Item → Sign) (laws : Orders compare) where
    -- An item that is not below the last one keeps the list sorted.
    pub SortedBy-append :
        (xs : List Item) (x last : Item)
        → SortedBy compare xs
        → get_elem? xs (length xs - 1) ≡ some last
        → compare last x ≢ above
        → SortedBy compare (xs ++ x ∷ [])
    SortedBy-append xs x last sorted e fine i j y z less hy hz =
        let total = length-append xs (x ∷ []) in
        let inside = in_range (xs ++ x ∷ []) j z hz in
        let hy' : get_elem? xs i ≡ some y =
          sym (get-append_lt xs (x ∷ []) i (omega (arith, total, inside))) ∙ hy in
        elim (dec_lt j (length xs)) [
          | yes before ↦ sorted i j y z less hy' (sym (get-append_lt xs (x ∷ []) j before) ∙ hz)
          | no after ↦
              (let end : j ≡ length xs = omega (arith, total, inside) in
                let same : x ≡ z =
                  some_injective
                    (sym (get_last xs x) ∙ ap (get_elem? (xs ++ x ∷ [])) (sym end) ∙ hz) in
                elim (dec_lt i (length xs - 1)) [
                  | yes further ↦
                      rw (← same) (
                        laws.le_trans y last x (sorted i (length xs - 1) y last further hy' e) fine)
                  | no next ↦
                      (let at_last : i ≡ length xs - 1 = omega arith in
                        let y_last : y ≡ last =
                          some_injective (sym hy' ∙ ap (get_elem? xs) at_last ∙ e) in
                        rw (← same, y_last) fine)
                ])
        ]

    pub SortedBy-prefix :
        (xs : List Item) (x : Item) → SortedBy compare (xs ++ x ∷ []) → SortedBy compare xs
    SortedBy-prefix xs x sorted i j y z less hy hz =
        sorted i j y z less (get-append_lt xs (x ∷ []) i (in_range xs i y hy) ∙ hy)
          (get-append_lt xs (x ∷ []) j (in_range xs j z hz) ∙ hz)

    pub SortedBy-single : (x : Item) → SortedBy compare (x ∷ [])
    SortedBy-single x i j y z less hy hz = absurd (omega (arith, in_range (x ∷ []) j z hz))
