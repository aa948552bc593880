-- ===== src/Sorted.antt =====
-- include/gutil.h: `addUniqueDataAndSort` and `eraseSortedData` on a sorted sequence, here of
-- 64-bit numbers. `std::lower_bound` is the first position whose element is not below the target,
-- which is what it documents on a sorted range. The same insertion is `std::set::insert`.
use gqlite.Prelude.{
  ℕ, ◌<◌, ◌≤◌, ◌≡◌, refl, Bool, true, false, List, [], ◌∷◌, arith, ltb, ◌==◌, if◌then◌else◌, ◌||◌,
}

-- The sequence after the call, and the result: whether the datum was there.
unfoldable pub add_unique : List ℕ → ℕ → List ℕ × Bool
add_unique [] src = (src ∷ [], false)
add_unique (x ∷ xs) src =
    let rest = add_unique xs src in
    if ltb x src
    then (x ∷ rest.0, rest.1)
    else if x == src
    then (x ∷ xs, true)
    else (src ∷ x ∷ xs, false)

unfoldable pub erase_sorted : List ℕ → ℕ → List ℕ × Bool
erase_sorted [] tgt = ([], false)
erase_sorted (x ∷ xs) tgt =
    let rest = erase_sorted xs tgt in
    if ltb x tgt then (x ∷ rest.0, rest.1) else if x == tgt then (xs, true) else (x ∷ xs, false)

unfoldable pub member : ℕ → List ℕ → Bool
member a [] = false
member a (x ∷ xs) = x == a || member a xs

-- Strictly ascending, every element above `low`.
abbrev pub Ascends : ℕ → List ℕ → Type 0
Ascends low [] = Unit
Ascends low (x ∷ xs) = (low < x) × Ascends x xs

abbrev pub IsSortedSet : List ℕ → Type 0
IsSortedSet [] = Unit
IsSortedSet (x ∷ xs) = Ascends x xs

Ascends-add_unique :
    (xs : List ℕ) (low src : ℕ) → Ascends low xs → low < src → Ascends low (add_unique xs src).0
unfolding add_unique
Ascends-add_unique [] low src h lt = (lt, tt)
Ascends-add_unique (x ∷ xs) low src (lx, h) lt = ground (arith, Ascends-add_unique xs x src h)

pub Ascends-mono : (xs : List ℕ) (low high : ℕ) → low ≤ high → Ascends high xs → Ascends low xs
Ascends-mono [] low high h a = tt
Ascends-mono (x ∷ xs) low high h (lt, a) = (omega arith, a)

-- A sorted sequence without repetition stays one.
pub add_unique-IsSortedSet :
    (xs : List ℕ) (src : ℕ) → IsSortedSet xs → IsSortedSet (add_unique xs src).0
unfolding add_unique
add_unique-IsSortedSet [] src h = tt
add_unique-IsSortedSet (x ∷ xs) src h = ground (arith, Ascends-add_unique xs x src h)

Ascends-erase_sorted :
    (xs : List ℕ) (low tgt : ℕ) → Ascends low xs → Ascends low (erase_sorted xs tgt).0
unfolding erase_sorted
Ascends-erase_sorted [] low tgt h = tt
Ascends-erase_sorted (x ∷ xs) low tgt (lx, h) =
    ground (arith, Ascends-erase_sorted xs x tgt h, Ascends-mono xs low x)

pub Ascends-IsSortedSet : (xs : List ℕ) (low : ℕ) → Ascends low xs → IsSortedSet xs
Ascends-IsSortedSet [] low h = tt
Ascends-IsSortedSet (x ∷ xs) low (lt, h) = h

erase-IsSortedSet :
    (x : ℕ) (xs : List ℕ) (tgt : ℕ) → Ascends x xs → IsSortedSet (erase_sorted (x ∷ xs) tgt).0
unfolding erase_sorted
erase-IsSortedSet x xs tgt h =
    ground (arith, Ascends-IsSortedSet xs x h, Ascends-erase_sorted xs x tgt h)

-- The new sequence holds the datum and what was there.
pub member-add_unique :
    (xs : List ℕ) (src a : ℕ) → member a (add_unique xs src).0 ≡ (src == a || member a xs)
unfolding add_unique member
member-add_unique [] src a = refl
member-add_unique (x ∷ xs) src a = ground (arith, member-add_unique xs src a)

not-member-Ascends : (xs : List ℕ) (low a : ℕ) → Ascends low xs → a ≤ low → member a xs ≡ false
unfolding member
not-member-Ascends [] low a h le = refl
not-member-Ascends (x ∷ xs) low a (lt, h) le = ground (arith, not-member-Ascends xs x a h)

member-erase_Ascends :
    (xs : List ℕ) (low tgt a : ℕ)
    → Ascends low xs
    → member a (erase_sorted xs tgt).0 ≡ (if tgt == a then false else member a xs)
unfolding erase_sorted member
member-erase_Ascends [] low tgt a h = ground arith
member-erase_Ascends (x ∷ xs) low tgt a (lt, h) =
    ground (arith, member-erase_Ascends xs x tgt a h, not-member-Ascends xs x a h)

member-add_unique_flag :
    (xs : List ℕ) (low src : ℕ) → Ascends low xs → (add_unique xs src).1 ≡ member src xs
unfolding add_unique member
member-add_unique_flag [] low src h = refl
member-add_unique_flag (x ∷ xs) low src (lt, h) =
    ground (arith, member-add_unique_flag xs x src h, not-member-Ascends xs x src h)

member-erase_flag :
    (xs : List ℕ) (low tgt : ℕ) → Ascends low xs → (erase_sorted xs tgt).1 ≡ member tgt xs
unfolding erase_sorted member
member-erase_flag [] low tgt h = refl
member-erase_flag (x ∷ xs) low tgt (lt, h) =
    ground (arith, member-erase_flag xs x tgt h, not-member-Ascends xs x tgt h)

-- Inserting into a strictly ascending sequence keeps it so, adds exactly the datum, and reports
-- whether the datum was there already.
pub add_unique_lem :
    (xs : List ℕ) (src : ℕ)
    → IsSortedSet xs
    → IsSortedSet (add_unique xs src).0
      × ((a : ℕ) → member a (add_unique xs src).0 ≡ (src == a || member a xs))
      × ((add_unique xs src).1 ≡ member src xs)
unfolding add_unique member
add_unique_lem [] src h = (tt, λ a. refl, refl)
add_unique_lem (x ∷ xs) src h = (
  add_unique-IsSortedSet (x ∷ xs) src h,
  member-add_unique (x ∷ xs) src,
  ground (arith, member-add_unique_flag xs x src h, not-member-Ascends xs x src h),
)

-- Erasing from a strictly ascending sequence keeps it so, removes exactly the datum, and reports
-- whether the datum was there.
pub erase_sorted_lem :
    (xs : List ℕ) (tgt : ℕ)
    → IsSortedSet xs
    → IsSortedSet (erase_sorted xs tgt).0
      × ((a : ℕ) → member a (erase_sorted xs tgt).0 ≡ (if tgt == a then false else member a xs))
      × ((erase_sorted xs tgt).1 ≡ member tgt xs)
unfolding erase_sorted member
erase_sorted_lem [] tgt h = (tt, λ a. ground arith, refl)
erase_sorted_lem (x ∷ xs) tgt h = (
  erase-IsSortedSet x xs tgt h,
  λ a. ground (arith, member-erase_Ascends xs x tgt a h, not-member-Ascends xs x a h),
  ground (arith, member-erase_flag xs x tgt h, not-member-Ascends xs x tgt h),
)
