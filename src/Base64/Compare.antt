-- ===== src/Base64/Compare.antt =====
-- src/Type/Binary.cpp: the comparisons of `GBinary`, which are those of `std::vector<uint8_t>`.
use gqlite.Prelude.{
  ℕ, ◌≡◌, refl, ◌⊎◌, ◌↔◌, Bool, true, false, not, ◌||◌, List, [], ◌∷◌, ltb, if◌then◌else◌, arith,
}
use gqlite.Prelude.Eq.{bytes_beq, bytes_beq_iff}

-- The lexicographic order.
unfoldable pub lt : List ℕ → List ℕ → Bool
lt [] [] = false
lt [] (y ∷ ys) = true
lt (x ∷ xs) [] = false
lt (x ∷ xs) (y ∷ ys) =
    let rest = lt xs ys in if ltb x y then true else if ltb y x then false else rest

unfoldable pub gt : List ℕ → List ℕ → Bool
unfolding lt
gt a b = lt b a

unfoldable pub le : List ℕ → List ℕ → Bool
unfolding lt
le a b = not (lt b a)

unfoldable pub ge : List ℕ → List ℕ → Bool
unfolding lt
ge a b = not (lt a b)

unfoldable pub eq : List ℕ → List ℕ → Bool
eq a b = bytes_beq a b

unfoldable pub ne : List ℕ → List ℕ → Bool
ne a b = not (bytes_beq a b)

lt_total :
    (a b : List ℕ)
    → ((lt a b ≡ true) × (lt b a ≡ false) × (bytes_beq a b ≡ false))
      ⊎ ((lt a b ≡ false) × (lt b a ≡ true) × (bytes_beq a b ≡ false))
      ⊎ ((lt a b ≡ false) × (lt b a ≡ false) × (bytes_beq a b ≡ true))
unfolding lt
lt_total [] [] = ground arith
lt_total [] (y ∷ ys) = ground arith
lt_total (x ∷ xs) [] = ground arith
lt_total (x ∷ xs) (y ∷ ys) = ground (arith, lt_total xs ys)

pub lt_trans : (a b c : List ℕ) → lt a b ≡ true → lt b c ≡ true → lt a c ≡ true
unfolding lt
lt_trans [] [] c h k = ground arith
lt_trans [] (y ∷ ys) [] h k = ground arith
lt_trans [] (y ∷ ys) (z ∷ zs) h k = refl
lt_trans (x ∷ xs) [] c h k = ground arith
lt_trans (x ∷ xs) (y ∷ ys) [] h k = ground arith
lt_trans (x ∷ xs) (y ∷ ys) (z ∷ zs) h k = ground (arith, lt_trans xs ys zs)

-- The six comparisons of two binaries agree: `<=` is `<` or `==`, `>=` is `>` or `==`, `!=` is `<`
-- or `>`, and `==` holds of equal bytes only.
pub comparisons_agree :
    (a b : List ℕ)
    → (le a b ≡ (lt a b || eq a b))
      × (ge a b ≡ (gt a b || eq a b))
      × (ne a b ≡ (lt a b || gt a b))
      × ((eq a b ≡ true) ↔ (a ≡ b))
unfolding gt le ge eq ne
comparisons_agree a b = ground (arith, lt_total a b, bytes_beq_iff a b)
