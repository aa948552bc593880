-- ===== src/GeoHash/Encode.antt =====
-- src/Type/Hash.cpp, `GeoHash::encode`: the text of a coordinate.
use gqlite.Prelude.{
  ℕ, ◌+◌, ◌*◌, ◌%◌, ◌<◌, ◌≡◌, refl, ap, ◌∙◌, true, false, some, List, [], ◌∷◌, ◌++◌, ◌==◌,
  get_elem?, get_elem?-exists, if◌then◌else◌, arith,
}
use gqlite.GeoHash.{Coordinates, Encoder, encode, encode_from, encode_step, char_map, char_code}

char_code_lem : (n : ℕ) → n < 32 → get_elem? char_map n ≡ some (char_code n)
char_code_lem n lt = rw (get_elem?-exists char_map n lt).1 refl

module _ {D : Type 0} (co : Coordinates D) (x y : D) where
  encode_step-plain :
      (idx : ℕ) (e : Encoder D)
      → (idx % 5 == 0) ≡ false
      → ((encode_step co x y idx e).hash ≡ e.hash)
        × ((encode_step co x y idx e).hash_char < e.hash_char * 2 + 2)
  unfolding encode_step
  encode_step-plain idx e h = ground arith

  encode_step-fifth :
      (idx : ℕ) (e : Encoder D)
      → (idx % 5 == 0) ≡ true
      → (n : ℕ) × (n < e.hash_char * 2 + 2)
        × ((encode_step co x y idx e).hash ≡ e.hash ++ char_code n ∷ [])
  unfolding encode_step
  encode_step-fifth idx e h =
      let i = if e.is_even then e.long else e.lat in
      let coord = if e.is_even then x else y in
      let bit = if co.above coord (co.midpoint i.high i.low) then 1 else 0 in
      (e.hash_char * 2 + bit, ground arith, rw h refl)

  -- Five rounds give one character.
  five_rounds :
      (e : Encoder D)
      → e.hash_char ≡ 0
      → (n : ℕ) × (n < 32) × ((encode_from co x y 5 1 e).hash ≡ e.hash ++ char_code n ∷ [])
  unfolding encode_from
  five_rounds e h =
      let e₁ = encode_step co x y 1 e in
      let e₂ = encode_step co x y 2 e₁ in
      let e₃ = encode_step co x y 3 e₂ in
      let e₄ = encode_step co x y 4 e₃ in
      let s₁ = encode_step-plain 1 e refl in
      let s₂ = encode_step-plain 2 e₁ refl in
      let s₃ = encode_step-plain 3 e₂ refl in
      let s₄ = encode_step-plain 4 e₃ refl in
      let (n, lt, same) = encode_step-fifth 5 e₄ refl in
      (
        n,
        omega arith,
        same ∙ ap (λ (xs : List ℕ). xs ++ char_code n ∷ []) (s₄.0 ∙ s₃.0 ∙ s₂.0 ∙ s₁.0),
      )

  -- A coordinate in range is written as one character of the alphabet: the loop makes five rounds for
  -- a precision of six.
  pub encode-one :
      co.in_range x y ≡ true
      → (c : ℕ) × (i : ℕ) × (encode co x y ≡ c ∷ []) × (i < 32) × (get_elem? char_map i ≡ some c)
  unfolding encode
  encode-one h =
      let start : Encoder D = record {
        lat = record { low = co.min_latitude; high = co.max_latitude };
        long = record { low = co.min_longitude; high = co.max_longitude };
        is_even = true;
        hash_char = 0;
        hash = [];
      } in
      let (n, lt, same) = five_rounds start refl in
      (char_code n, n, rw h same, lt, char_code_lem n lt)
