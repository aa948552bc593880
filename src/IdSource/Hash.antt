-- ===== src/IdSource/Hash.antt =====
-- src/gutil.cpp, `hash64`: which characters the hash reads.
use gqlite.Prelude.{ℕ, ◌+◌, ◌%◌, ◌^◌, ◌≡◌, refl, List, [], ◌∷◌}
use gqlite.IdSource.{Clock, sum_blocks, padded, word, hash64}

-- Texts of as many whole blocks of eight, whose blocks agree in their first two characters.
unfoldable pub SameHeads : List ℕ → List ℕ → Type 0
SameHeads [] [] = Unit
SameHeads (a ∷ b ∷ _ ∷ _ ∷ _ ∷ _ ∷ _ ∷ _ ∷ xs) (p ∷ q ∷ _ ∷ _ ∷ _ ∷ _ ∷ _ ∷ _ ∷ ys) =
    (a ≡ p) × (b ≡ q) × SameHeads xs ys
SameHeads _ _ = ⊥

sum_blocks-SameHeads :
    (xs ys : List ℕ) (id : ℕ) → SameHeads xs ys → sum_blocks xs id ≡ sum_blocks ys id
unfolding SameHeads sum_blocks
sum_blocks-SameHeads [] [] id h = refl
sum_blocks-SameHeads (a ∷ b ∷ _ ∷ _ ∷ _ ∷ _ ∷ _ ∷ _ ∷ xs) (p ∷ q ∷ _ ∷ _ ∷ _ ∷ _ ∷ _ ∷ _ ∷ ys) id
      h =
    rw (h.0, h.1) (sum_blocks-SameHeads xs ys ((id + word p q) % 2 ^ 16) h.2)
sum_blocks-SameHeads _ _ id h = absurd h

-- Two texts whose padded blocks of eight characters agree in the first two characters have the same
-- id: the other six characters of a block are never read.
pub hash64-SameHeads :
    (s : Clock) (now : ℕ) (xs ys : List ℕ)
    → SameHeads (padded xs) (padded ys)
    → hash64 s now xs ≡ hash64 s now ys
unfolding hash64
hash64-SameHeads s now xs ys h = rw (sum_blocks-SameHeads (padded xs) (padded ys) 0 h) refl
