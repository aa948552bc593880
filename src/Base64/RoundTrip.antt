-- ===== src/Base64/RoundTrip.antt =====
-- src/Type/Binary.cpp: decoding what was encoded.
use gqlite.Prelude.{
  ℕ, zero, suc, ◌+◌, ◌*◌, ◌/◌, ◌%◌, ◌<◌, ◌≡◌, refl, ap, ◌∙◌, take, length, Bool, true, false, not,
  ◌&&◌, none, some, List, [], ◌∷◌, ◌==◌, All, arith,
}
use gqlite.Base64.{
  base64_chars, char_at, padding, strchr, sextets, letters, encode_from, base64_encode, octets,
  decode_group, decode_rest, decode_from, base64_decode, append_to,
}

-- A table entry is found at its index, and is not the padding.
good : ℕ → Bool
good i = elim (strchr base64_chars (char_at base64_chars i)) [
  | none ↦ false
  | some j ↦ (j == i) && not (char_at base64_chars i == padding)
]

all_below : ℕ → (ℕ → Bool) → Bool
all_below zero p = true
all_below (suc n) p = p n && all_below n p

all_below_lem : (n : ℕ) (p : ℕ → Bool) (i : ℕ) → all_below n p ≡ true → i < n → p i ≡ true
unfolding all_below
all_below_lem zero p i h lt = ground arith
all_below_lem (suc n) p i h lt = ground (arith, all_below_lem n p i)

all_good : all_below 64 good ≡ true
unfolding all_below good strchr
all_good = refl

strchr-char_at :
    (i : ℕ)
    → i < 64
    → (strchr base64_chars (char_at base64_chars i) ≡ some i)
      × ((char_at base64_chars i == padding) ≡ false)
unfolding good
strchr-char_at i lt = ground (arith, all_below_lem 64 good i all_good lt)

abbrev ch : ℕ → ℕ
ch i = char_at base64_chars i

decode_group-letters :
    (p q r s : ℕ)
    → p < 64
    → q < 64
    → r < 64
    → s < 64
    → decode_group (ch p) (ch q) (ch r) (ch s) ≡ some (octets p q r s)
unfolding decode_group
decode_group-letters p q r s hp hq hr hs =
    rw
      (
        (strchr-char_at p hp).0,
        (strchr-char_at q hq).0,
        (strchr-char_at r hr).0,
        (strchr-char_at s hs).0,
        decode_group,
      )
      refl

-- The NULs that fill a group up are found behind the table.
decode_group-two :
    (p q : ℕ) → p < 64 → q < 64 → decode_group (ch p) (ch q) 0 0 ≡ some (octets p q 64 64)
unfolding decode_group strchr
decode_group-two p q hp hq =
    rw ((strchr-char_at p hp).0, (strchr-char_at q hq).0, decode_group) refl

decode_group-three :
    (p q r : ℕ)
    → p < 64
    → q < 64
    → r < 64
    → decode_group (ch p) (ch q) (ch r) 0 ≡ some (octets p q r 64)
unfolding decode_group strchr
decode_group-three p q r hp hq hr =
    rw ((strchr-char_at p hp).0, (strchr-char_at q hq).0, (strchr-char_at r hr).0, decode_group)
      refl

abbrev pub IsByte : ℕ → Type 0
IsByte b = b < 256

decode_from-four :
    (p q r s : ℕ) (text : List ℕ)
    → p < 64
    → q < 64
    → r < 64
    → s < 64
    → decode_from [] (ch p ∷ ch q ∷ ch r ∷ ch s ∷ text)
      ≡ append_to (some (octets p q r s)) (decode_from [] text)
unfolding decode_from
decode_from-four p q r s text hp hq hr hs =
    rw
      (
        (strchr-char_at p hp).1,
        (strchr-char_at q hq).1,
        (strchr-char_at r hr).1,
        (strchr-char_at s hs).1,
        decode_group-letters p q r s hp hq hr hs,
        decode_from,
      )
      refl

octets-sextets :
    (a b c : ℕ)
    → a < 256
    → b < 256
    → c < 256
    → octets (a / 4) ((a % 4) * 16 + b / 16) ((b % 16) * 4 + c / 64) (c % 64) ≡ a ∷ b ∷ c ∷ []
unfolding octets
octets-sextets a b c ha hb hc = ground arith

octets_two : (a : ℕ) → a < 256 → take 1 (octets (a / 4) ((a % 4) * 16 + 0 / 16) 64 64) ≡ a ∷ []
unfolding octets
octets_two a ha = ground arith

octets_three :
    (a b : ℕ)
    → a < 256
    → b < 256
    → take 2 (octets (a / 4) ((a % 4) * 16 + b / 16) ((b % 16) * 4 + 0 / 64) 64) ≡ a ∷ b ∷ []
unfolding octets
octets_three a b ha hb = ground arith

decode_from-two :
    (p q : ℕ)
    → p < 64
    → q < 64
    → decode_from [] (ch p ∷ ch q ∷ padding ∷ padding ∷ []) ≡ some (take 1 (octets p q 64 64))
unfolding decode_from decode_rest
decode_from-two p q hp hq =
    rw
      (
        (strchr-char_at p hp).1,
        (strchr-char_at q hq).1,
        decode_group-two p q hp hq,
        decode_from,
        decode_rest,
      )
      refl

decode_from-three :
    (p q r : ℕ)
    → p < 64
    → q < 64
    → r < 64
    → decode_from [] (ch p ∷ ch q ∷ ch r ∷ padding ∷ []) ≡ some (take 2 (octets p q r 64))
unfolding decode_from decode_rest
decode_from-three p q r hp hq hr =
    rw
      (
        (strchr-char_at p hp).1,
        (strchr-char_at q hq).1,
        (strchr-char_at r hr).1,
        decode_group-three p q r hp hq hr,
        decode_from,
        decode_rest,
      )
      refl

decode_from-encode_from :
    (bin : List ℕ) → All IsByte bin → decode_from [] (encode_from [] bin) ≡ some bin
unfolding encode_from letters sextets decode_from decode_rest
decode_from-encode_from [] h = refl
decode_from-encode_from (a ∷ []) h =
    decode_from-two (a / 4) ((a % 4) * 16 + 0 / 16) (omega arith) (omega arith)
    ∙ ap (λ (xs : List ℕ). some xs) (octets_two a (h.0))
decode_from-encode_from (a ∷ b ∷ []) h =
    decode_from-three (a / 4) ((a % 4) * 16 + b / 16) ((b % 16) * 4 + 0 / 64) (omega arith)
      (omega arith) (omega arith)
    ∙ ap (λ (xs : List ℕ). some xs) (octets_three a b h.0 h.1.0)
decode_from-encode_from (a ∷ b ∷ c ∷ bin) h =
    decode_from-four (a / 4) ((a % 4) * 16 + b / 16) ((b % 16) * 4 + c / 64) (c % 64)
      (encode_from [] bin) (omega arith) (omega arith) (omega arith) (omega arith)
    ∙ rw (octets-sextets a b c h.0 h.1.0 h.1.1.0, decode_from-encode_from bin h.1.1.1) refl

-- Bytes that were encoded as base64 decode to themselves.
pub base64_decode-base64_encode :
    (bin : List ℕ) → All IsByte bin → base64_decode (base64_encode bin) ≡ some bin
unfolding base64_decode base64_encode
base64_decode-base64_encode bin h = decode_from-encode_from bin h

-- The text has four characters for each group of three bytes, the last one filled up.
pub length-base64_encode : (bin : List ℕ) → length (base64_encode bin) ≡ (length bin + 2) / 3 * 4
unfolding base64_encode encode_from letters sextets
length-base64_encode [] = refl
length-base64_encode (a ∷ []) = refl
length-base64_encode (a ∷ b ∷ []) = refl
length-base64_encode (a ∷ b ∷ c ∷ bin) = ground (arith, length-base64_encode bin)
