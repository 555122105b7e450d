-- ===== src/Slist/Bisect.antt =====
-- The bisection of `slist_find_pos` in tools/slist.c.
use monitor_merlin.Base.{
  ℕ, zero, suc, ◌+◌, ◌-◌, ◌/◌, ◌<◌, ◌≤◌, ◌≡◌, ◌≢◌, ◌∙◌, ap, refl, true, false, Option, some, List,
  [], ◌∷◌, ◌++◌, map, length, get_elem?, ◌==◌, if_true, if_false, arith, get_elem?_lt, ◌⊎◌, inl,
  inr,
}
use native.Mathlib.Decide.{dec_lt}
use monitor_merlin.Binlog.{u32, add32, sub32}
use monitor_merlin.Slist.{
  Sign, below, equal, above, Run, done, crash, Place, missing, slot, Probe, fault, seen, probe,
  bisect,
}

module _ {Item : Type 0} where
  -- The item stands in the list.
  abbrev pub Has : List Item → Item → Type 0
  Has xs x = (i : ℕ) × (get_elem? xs i ≡ some x)

  -- The comparison of a key goes along with the order of the items.
  pub record Orders (compare : Item → Item → Sign) : Type 0 where
    pub above_le : (k x y : Item) → compare k y ≡ above → compare x y ≢ above → compare k x ≡ above
    pub below_le : (k x y : Item) → compare k x ≡ below → compare x y ≢ above → compare k y ≡ below
    pub le_trans : (x y z : Item) → compare x y ≢ above → compare y z ≢ above → compare x z ≢ above

  -- No item is above a later one.
  abbrev pub SortedBy : (Item → Item → Sign) → List Item → Type 0
  SortedBy compare xs =
      (i j : ℕ) (x y : Item)
      → i < j
      → get_elem? xs i ≡ some x
      → get_elem? xs j ≡ some y
      → compare x y ≢ above

  -- What a place says of a key.
  abbrev pub Located : (Item → Item → Sign) → List Item → Item → Place → Type 0
  Located compare xs key missing =
      (i : ℕ) (x : Item) → get_elem? xs i ≡ some x → compare key x ≢ equal
  Located compare xs key (slot m) = (x : Item) × (get_elem? xs m ≡ some x) × (compare key x ≡ equal)

  pub get-slots :
      (xs : List Item) (rest : List (Option Item)) (i : ℕ) (x : Item)
      → get_elem? xs i ≡ some x
      → get_elem? (map some xs ++ rest) i ≡ some (some x)
  get-slots [] rest i x h = absurd (cc h)
  get-slots (y ∷ xs) rest zero x h = ap some h
  get-slots (y ∷ xs) rest (suc i) x h = get-slots xs rest i x h

  module _ (compare : Item → Item → Sign) (qsort : List Item → List Item) (laws : Orders compare)
      (xs : List Item) (rest : List (Option Item)) (key : Item) (sorted : SortedBy compare xs)
      (few : length xs < u32) where
    abbrev Below : ℕ → Type 0
    Below low = (i : ℕ) (x : Item) → i < low → get_elem? xs i ≡ some x → compare key x ≡ above

    abbrev Above : ℕ → Type 0
    Above high = (i : ℕ) (x : Item) → high ≤ i → get_elem? xs i ≡ some x → compare key x ≡ below

    abbrev pub Finds : Option (Run Place) → Type 0
    Finds out = (p : Place) × (out ≡ some (done p)) × Located compare xs key p

    -- How the loop goes on.
    abbrev next : ℕ → ℕ → ℕ → ℕ → Probe → Option (Run Place)
    next fuel low mid high p = elim p [
      | fault ↦ some crash
      | seen above ↦ bisect compare qsort fuel (map some xs ++ rest) key (add32 mid 1) high
      | seen below ↦ bisect compare qsort fuel (map some xs ++ rest) key low mid
      | seen equal ↦ some (done (slot mid))
    ]

    Below-next :
        (mid : ℕ) (x : Item) → get_elem? xs mid ≡ some x → compare key x ≡ above → Below (mid + 1)
    Below-next mid x e c i y less h = elim (dec_lt i mid) [
      | yes before ↦ laws.above_le key y x c (sorted i mid y x before h e)
      | no after ↦ (let same : i ≡ mid = omega arith in cc (c, same, e, h))
    ]

    Above-next :
        (mid : ℕ) (x : Item) → get_elem? xs mid ≡ some x → compare key x ≡ below → Above mid
    Above-next mid x e c i y less h = elim (dec_lt mid i) [
      | yes before ↦ laws.below_le key x y c (sorted mid i x y before e h)
      | no after ↦ (let same : i ≡ mid = omega arith in cc (c, same, e, h))
    ]

    nothing_between :
        (low high : ℕ) → high ≤ low → Below low → Above high → Located compare xs key missing
    nothing_between low high le lower upper i x h e = elim (dec_lt i low) [
      | yes before ↦ absurd (cc (lower i x before h, e))
      | no after ↦ absurd (cc (upper i x (omega arith) h, e))
    ]

    sign_cases : (s : Sign) → (s ≡ above) ⊎ (s ≡ below) ⊎ (s ≡ equal)
    sign_cases above = inl refl
    sign_cases below = inr (inl refl)
    sign_cases equal = inr (inr refl)

    middle :
        (low high : ℕ)
        → low < high
        → high < u32
        → add32 low (sub32 high low / 2) ≡ low + (high - low) / 2
    middle low high less bound = omega arith

    no_wrap : (m : ℕ) → m < length xs → add32 m 1 ≡ m + 1
    no_wrap m less = omega arith

    bisect_step :
        (fuel low high : ℕ) (x : Item)
        → low < high
        → high < u32
        → get_elem? xs (low + (high - low) / 2) ≡ some x
        → bisect compare qsort (suc fuel) (map some xs ++ rest) key low high
          ≡ next fuel low (low + (high - low) / 2) high (seen (compare key x))
    unfolding bisect probe
    bisect_step fuel low high x less bound e =
        if_false _ _ more
        ∙ ap
            (λ m.
              next fuel low m high (probe compare qsort key (get_elem? (map some xs ++ rest) m)))
            (middle low high less bound)
        ∙ ap (λ o. next fuel low (low + (high - low) / 2) high (probe compare qsort key o))
            (get-slots xs rest _ x e)
      where
        more : (sub32 high low == 0) ≡ false
        more = ground arith

    bisect_end :
        (fuel low high : ℕ)
        → low ≡ high
        → high < u32
        → bisect compare qsort (suc fuel) (map some xs ++ rest) key low high ≡ some (done missing)
    unfolding bisect
    bisect_end fuel low high same bound = if_true _ _ none_left
      where
        none_left : (sub32 high low == 0) ≡ true
        none_left = ground arith

    -- With more fuel than there are items between the bounds the loop ends, and has found the key or that
    -- there is none.
    pub bisect-Located :
        (fuel low high : ℕ)
        → low ≤ high
        → high ≤ length xs
        → high - low < fuel
        → Below low
        → Above high
        → Finds (bisect compare qsort fuel (map some xs ++ rest) key low high)
    bisect-Located zero low high le inside enough lower upper = absurd (omega arith)
    bisect-Located (suc fuel) low high le inside enough lower upper =
        let mid = low + (high - low) / 2 in
        elim (dec_lt low high) [
          | no stop ↦ (
            missing,
            bisect_end fuel low high (omega arith) (omega arith),
            nothing_between low high (omega arith) lower upper,
          )
          | yes less ↦
              (let (x, e) = get_elem?_lt xs mid (omega arith) in
                let step = bisect_step fuel low high x less (omega arith) e in
                elim (sign_cases (compare key x)) [
                  | inl c ↦
                      (let (p, answer, found) =
                          bisect-Located fuel (mid + 1) high (omega arith) inside (omega arith)
                            (Below-next mid x e c) upper in
                        (
                          p,
                          step
                              ∙ ap (λ s. next fuel low mid high (seen s)) c
                              ∙ ap (λ m. bisect compare qsort fuel (map some xs ++ rest) key m high)
                                  (no_wrap mid (omega arith))
                              ∙ answer,
                          found,
                        ))
                  | inr (inl c) ↦
                      (let (p, answer, found) =
                          bisect-Located fuel low mid (omega arith) (omega arith) (omega arith)
                            lower (Above-next mid x e c) in
                        (p, step ∙ ap (λ s. next fuel low mid high (seen s)) c ∙ answer, found))
                  | inr (inr c) ↦
                      (slot mid, step ∙ ap (λ s. next fuel low mid high (seen s)) c, (x, e, c))
                ])
        ]
