-- ===== src/Pgroup/Csstr.antt =====
-- `get_sorted_csstr` of shared/pgroup.c: the names of a comma-separated string, in order.
use monitor_merlin.Base.{
  ℕ, ◌+◌, ◌*◌, ◌/◌, ◌≡◌, refl, false, Bool, ◌||◌, Option, none, some, List, [], ◌∷◌, ◌++◌,
  if◌then◌else◌, ◌==◌, length, arith,
}
use monitor_merlin.Pgroup.Groups.{Bytes}

-- ',', ' ' and '\t'
abbrev pub comma : ℕ
comma = 44

abbrev pub is_separator : ℕ → Bool
is_separator c = (c == comma) || (c == 32) || (c == 9)

-- The bytes up to the last that is no separator: what is left in front of a comma.
unfoldable pub trim_end : Bytes → Bytes
trim_end [] = []
trim_end (c ∷ s) =
    let rest = trim_end s in
    elim rest [ [] ↦ if is_separator c then [] else c ∷ [] | x ∷ xs ↦ c ∷ x ∷ xs ]

-- The loop over the string: before a name, or behind the bytes `name` of one.
unfoldable pub split : Option Bytes → Bytes → List Bytes
split none [] = [] ∷ []
split none (c ∷ s) =
    let skipped = split none s in
    let begun = split (some (c ∷ [])) s in if is_separator c then skipped else begun
split (some name) [] = name ∷ []
split (some name) (c ∷ s) =
    let next = split none s in
    let longer = split (some (name ++ c ∷ [])) s in
    if c == comma then trim_end name ∷ next else longer

-- The last loop: a comma in front of every entry but where nothing is written yet.
unfoldable pub join : Bytes → List Bytes → Bytes
join ret [] = ret
join [] (entry ∷ entries) = join entry entries
join (c ∷ ret) (entry ∷ entries) = join (c ∷ ret ++ comma ∷ entry) entries

-- `qsort` is the first argument, and the allocations are made.
unfoldable pub get_sorted_csstr : (List Bytes → List Bytes) → Option Bytes → Option Bytes
get_sorted_csstr qsort none = none
get_sorted_csstr qsort (some str) = some (join [] (qsort (split none str)))

-- `calloc(len / 2, sizeof(char *))`: the entries that there is room for
abbrev pub entry_room : Bytes → ℕ
entry_room str = length str / 2

-- Names of one letter each, with a comma between them.
unfoldable pub letters : ℕ → List ℕ → Bytes
letters c [] = c ∷ []
letters c (d ∷ rest) = c ∷ comma ∷ letters d rest

abbrev pub NoSeparator : ℕ → List ℕ → Type 0
NoSeparator c [] = is_separator c ≡ false
NoSeparator c (d ∷ rest) = (is_separator c ≡ false) × NoSeparator d rest

length-letters : (c : ℕ) (rest : List ℕ) → length (letters c rest) ≡ 2 * length rest + 1
unfolding letters
length-letters c [] = refl
length-letters c (d ∷ rest) = omega (arith, length-letters d rest)

split-letters :
    (c : ℕ) (rest : List ℕ)
    → NoSeparator c rest
    → length (split none (letters c rest)) ≡ length rest + 1
unfolding split letters
split-letters c [] h = rw h refl
split-letters c (d ∷ rest) h = rw h.0 (omega (arith, split-letters d rest h.1))

-- A list of names of one letter each has one name more than the array has room for: the last one
-- is written behind it.
pub entries_overflow :
    (c : ℕ) (rest : List ℕ)
    → NoSeparator c rest
    → length (split none (letters c rest)) ≡ entry_room (letters c rest) + 1
entries_overflow c rest h = omega (arith, split-letters c rest h, length-letters c rest)
