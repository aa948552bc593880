-- ===== src/Word.antt =====
-- The eight bytes of a `uint64_t` in memory, lowest first (the layout of the supported targets),
-- as `memcpy` writes them and `*(uint64_t*)ptr` reads them.
use gqlite.Prelude.{ℕ, zero, suc, ◌+◌, ◌*◌, ◌/◌, ◌%◌, ◌^◌, ◌<◌, ◌≡◌, List, [], ◌∷◌, arith, length}
use gqlite.Prelude.{◌++◌, Option, none, some, refl, ap}

unfoldable pub le_bytes : ℕ → ℕ → List ℕ
le_bytes zero n = []
le_bytes (suc k) n = n % 256 ∷ le_bytes k (n / 256)

unfoldable pub of_le_bytes : List ℕ → ℕ
of_le_bytes [] = 0
of_le_bytes (b ∷ bs) = b + 256 * of_le_bytes bs

-- `*(uint64_t*)ptr`: it reads eight bytes; fewer in the buffer is a read out of bounds.
unfoldable pub read_u64 : List ℕ → Option ℕ
unfolding of_le_bytes
read_u64 (a ∷ b ∷ c ∷ d ∷ e ∷ f ∷ g ∷ h ∷ rest) =
    some (of_le_bytes (a ∷ b ∷ c ∷ d ∷ e ∷ f ∷ g ∷ h ∷ []))
read_u64 _ = none

pub length-le_bytes : (k n : ℕ) → length (le_bytes k n) ≡ k
unfolding le_bytes
length-le_bytes zero n = refl
length-le_bytes (suc k) n = ap suc (length-le_bytes k (n / 256))

eight_digits :
    (n : ℕ)
    → n < 2 ^ 64
    → n % 256
        + 256
          * (n / 256 % 256
              + 256
                * (n / 256 / 256 % 256
                    + 256
                      * (n / 256 / 256 / 256 % 256
                          + 256
                            * (n / 256 / 256 / 256 / 256 % 256
                                + 256
                                  * (n / 256 / 256 / 256 / 256 / 256 % 256
                                      + 256
                                        * (n / 256 / 256 / 256 / 256 / 256 / 256 % 256
                                            + 256
                                              * (n / 256 / 256 / 256 / 256 / 256 / 256 / 256 % 256
                                                  + 256 * 0)))))))
      ≡ n
eight_digits n h = omega arith

pub read_u64-le_bytes :
    (n : ℕ) (rest : List ℕ) → n < 2 ^ 64 → read_u64 (le_bytes 8 n ++ rest) ≡ some n
unfolding le_bytes read_u64
read_u64-le_bytes n rest h = ap some (eight_digits n h)
