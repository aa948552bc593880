-- ===== src/Network/Layers.antt =====
-- The edge lists of a node's layers: what writing a layer and removing an edge from it do.
use gqlite.Prelude.{
  ℕ, zero, suc, ◌+◌, ◌≤◌, ◌<◌, ◌≡◌, refl, ap, ◌∙◌, true, false, ◌&&◌, List, [], ◌∷◌, ◌++◌,
  append-nil, arith, ltb, ◌==◌, if◌then◌else◌, length, set, drop, replicate, length-set,
}
use gqlite.Sorted.{member, Ascends, IsSortedSet, Ascends-mono, Ascends-IsSortedSet}
use gqlite.Graph.{layer_of}
use gqlite.Network.{without, remove_erase, erase_from}

pub layer_of-set :
    (xs : List (List ℕ)) (i j : ℕ) (v : List ℕ)
    → i < length xs
    → layer_of (set xs i v) j ≡ (if i == j then v else layer_of xs j)
layer_of-set [] i j v h = elim h [ ]
layer_of-set (x ∷ xs) zero zero v h = refl
layer_of-set (x ∷ xs) zero (suc j) v h = ground arith
layer_of-set (x ∷ xs) (suc i) zero v h = ground arith
layer_of-set (x ∷ xs) (suc i) (suc j) v h = ground (arith, layer_of-set xs i j v)

pub layer_of-beyond : (xs : List (List ℕ)) (l : ℕ) → length xs ≤ l → layer_of xs l ≡ []
layer_of-beyond [] l h = refl
layer_of-beyond (x ∷ xs) zero h = elim h [ ]
layer_of-beyond (x ∷ xs) (suc l) h = layer_of-beyond xs l (omega arith)

pub layer_of-replicate : (k j : ℕ) → layer_of (replicate k []) j ≡ []
layer_of-replicate zero j = refl
layer_of-replicate (suc k) zero = refl
layer_of-replicate (suc k) (suc j) = layer_of-replicate k j

drop-all : (xs : List ℕ) (n : ℕ) → length xs ≤ n → drop n xs ≡ []
drop-all [] zero h = refl
drop-all [] (suc n) h = refl
drop-all (x ∷ xs) zero h = absurd (omega arith)
drop-all (x ∷ xs) (suc n) h = drop-all xs n (omega arith)

pub member-without :
    (id a : ℕ) (xs : List ℕ) → member a (without id xs) ≡ (if id == a then false else member a xs)
unfolding member without
member-without id a [] = ground arith
member-without id a (x ∷ xs) = ground (arith, member-without id a xs)

without-Ascends : (id low : ℕ) (xs : List ℕ) → Ascends low xs → Ascends low (without id xs)
unfolding without
without-Ascends id low [] h = tt
without-Ascends id low (x ∷ xs) (lt, h) =
    ground (arith, without-Ascends id x xs h, Ascends-mono (without id xs) low x)

without_above : (id : ℕ) (xs : List ℕ) → Ascends id xs → without id xs ≡ xs
unfolding without
without_above id [] h = refl
without_above id (x ∷ xs) (lt, h) =
    ground (
      arith,
      ap (λ (l : List ℕ). x ∷ l) (without_above id xs (Ascends-mono xs id x (omega arith) h)),
    )

length-without :
    (id low : ℕ) (xs : List ℕ) → Ascends low xs → length xs ≤ length (without id xs) + 1
unfolding without
length-without id low [] h = omega arith
length-without id low (x ∷ xs) (lt, h) =
    ground (arith, length-without id x xs h, without_above id xs)

length-without_sorted :
    (id x : ℕ) (xs : List ℕ) → Ascends x xs → length (x ∷ xs) ≤ length (without id (x ∷ xs)) + 1
unfolding without
length-without_sorted id x xs h = ground (arith, length-without id x xs h, without_above id xs)

-- In a strictly ascending list nothing is left behind by `std::remove`.
pub remove_erase-sorted :
    (id : ℕ) (xs : List ℕ) → IsSortedSet xs → remove_erase id xs ≡ without id xs
unfolding remove_erase
remove_erase-sorted id [] h = refl
remove_erase-sorted id (x ∷ xs) h =
    ap (λ (t : List ℕ). without id (x ∷ xs) ++ t)
      (drop-all (x ∷ xs) (length (without id (x ∷ xs)) + 1) (length-without_sorted id x xs h))
    ∙ append-nil (without id (x ∷ xs))

pub without-IsSortedSet : (id : ℕ) (xs : List ℕ) → IsSortedSet xs → IsSortedSet (without id xs)
unfolding without
without-IsSortedSet id [] h = tt
without-IsSortedSet id (x ∷ xs) h =
    ground (arith, without-Ascends id x xs h, Ascends-IsSortedSet (without id xs) x)

-- All layers are strictly ascending.
abbrev pub AllSorted : List (List ℕ) → Type 0
AllSorted layers = (l : ℕ) → IsSortedSet (layer_of layers l)

-- Every edge stands in one layer at most: `at`, if it stands anywhere.
abbrev pub OnlyAt : ℕ → ℕ → List (List ℕ) → Type 0
OnlyAt id at layers = (l : ℕ) → member id (layer_of layers l) ≡ true → l ≡ at

pub length-erase_from :
    (id k : ℕ) (layers : List (List ℕ)) → length (erase_from id k layers) ≡ length layers
unfolding erase_from
length-erase_from id zero layers = refl
length-erase_from id (suc k) layers = ground (
  arith,
  length-erase_from id k layers,
  length-set layers k (remove_erase id (layer_of layers k)),
)

module _ (id a at l : ℕ) (layers : List (List ℕ)) (sorted : AllSorted layers)
    (only : OnlyAt id at layers) where
  pub member-erase_from :
      (k : ℕ)
      → k ≤ length layers
      → member a (layer_of (erase_from id k layers) l)
        ≡ (if id == a && ltb l k then false else member a (layer_of layers l))
  unfolding erase_from
  member-erase_from zero h = ground arith
  member-erase_from (suc k) h = ground (
    arith,
    member-erase_from k (omega arith),
    layer_of-set layers k l (remove_erase id (layer_of layers k)),
    remove_erase-sorted id (layer_of layers k) (sorted k),
    member-without id a (layer_of layers k),
    only l,
    only k,
  )

  pub sorted-erase_from :
      (k : ℕ) → k ≤ length layers → IsSortedSet (layer_of (erase_from id k layers) l)
  unfolding erase_from
  sorted-erase_from zero h = sorted l
  sorted-erase_from (suc k) h = ground (
    arith,
    sorted-erase_from k (omega arith),
    layer_of-set layers k l (remove_erase id (layer_of layers k)),
    remove_erase-sorted id (layer_of layers k) (sorted k),
    without-IsSortedSet id (layer_of layers k) (sorted k),
    sorted l,
  )
