-- ===== src/Normalize/Replaced.antt =====
-- src/gutil.cpp: the texts that `replace_all` and `normalize` give.
use gqlite.Prelude.{
  ℕ, zero, suc, ◌+◌, ◌≤◌, ◌<◌, ◌≡◌, ◌⊎◌, refl, ap, ◌∙◌, sym, true, false, Option, none, some, [],
  ◌∷◌, ◌++◌, if◌then◌else◌, append_assoc, length, take, drop, arith, Bool-cases, inl, inr,
}
use gqlite.Split.{Bytes}
use gqlite.Normalize.{
  end, change_quotes, null_text, normalize, requote, change_quotes_lem, is_prefix, find,
  replace_from, replace_all,
}

module _ (o : ℕ) (os newer : Bytes) where
  -- From the left on, each occurrence that does not overlap the one before is replaced; `skip`
  -- characters of an occurrence are still to be left out.
  unfoldable pub replaced : ℕ → Bytes → Bytes
  replaced skip [] = []
  replaced (suc skip) (c ∷ s) = replaced skip s
  replaced zero (c ∷ s) =
      let found = newer ++ replaced (length os) s in
      let other = c ∷ replaced 0 s in if is_prefix (o ∷ os) (c ∷ s) then found else other

  replaced-drop : (skip : ℕ) (s : Bytes) → replaced skip s ≡ replaced 0 (drop skip s)
  unfolding replaced
  replaced-drop zero s = refl
  replaced-drop (suc skip) [] = refl
  replaced-drop (suc skip) (c ∷ s) = replaced-drop skip s

  -- The next occurrence, as the loop finds it: the text goes on behind `k` characters.
  record IsFound (s : Bytes) (i : ℕ) : Type 0 where
    pub k : ℕ
    pub place : k ≡ i + suc (length os)
    pub same : replaced 0 s ≡ take i s ++ (newer ++ replaced 0 (drop k s))
    pub shorter : length (drop k s) < length s

  length-drop : (k : ℕ) (s : Bytes) → length (drop k s) ≤ length s
  length-drop zero s = omega arith
  length-drop (suc k) [] = omega arith
  length-drop (suc k) (c ∷ s) = omega (arith, length-drop k s)

  here-IsFound : (c : ℕ) (s : Bytes) → is_prefix (o ∷ os) (c ∷ s) ≡ true → IsFound (c ∷ s) 0
  unfolding replaced
  here-IsFound c s e = record {
    k = suc (length os);
    place = omega arith;
    same = rw (e, replaced) (ap (λ (t : Bytes). newer ++ t) (replaced-drop (length os) s));
    shorter = omega (arith, length-drop (length os) s);
  }

  later-IsFound :
      (c i : ℕ) (s : Bytes)
      → is_prefix (o ∷ os) (c ∷ s) ≡ false
      → IsFound s i
      → IsFound (c ∷ s) (suc i)
  unfolding replaced
  later-IsFound c i s e f = record {
    k = suc (f.k);
    place = omega (arith, f.place);
    same = rw (e, replaced) (ap (λ (t : Bytes). c ∷ t) f.same);
    shorter = omega (arith, f.shorter);
  }

  find_lem :
      (s : Bytes)
      → ((find (o ∷ os) s ≡ none) × (replaced 0 s ≡ s))
        ⊎ ((i : ℕ) × (find (o ∷ os) s ≡ some i) × IsFound s i)
  unfolding find replaced
  find_lem [] = inl (refl, refl)
  find_lem (c ∷ s) = elim (Bool-cases (is_prefix (o ∷ os) (c ∷ s))) [
    | inl e ↦ inr (0, rw (e, find) refl, here-IsFound c s e)
    | inr e ↦ elim (find_lem s) [
      | inl (p, q) ↦
          inl (rw (e, find) (rw (p) refl), rw (e, replaced) (ap (λ (t : Bytes). c ∷ t) q))
      | inr (i, p, f) ↦ inr (suc i, rw (e, find) (rw (p) refl), later-IsFound c i s e f)
    ]
  ]

  replace_from_lem :
      (fuel : ℕ) (done s : Bytes)
      → length s < fuel
      → replace_from fuel (o ∷ os) newer done s ≡ some (done ++ replaced 0 s)
  unfolding replace_from
  replace_from_lem zero done s h = elim h [ ]
  replace_from_lem (suc fuel) done s h = elim (find_lem s) [
    | inl (p, q) ↦ rw (p, replace_from) (rw q refl)
    | inr (i, p, f) ↦
        let rest = drop f.k s in
        let whole : (done ++ (take i s ++ newer)) ++ replaced 0 rest ≡ done ++ replaced 0 s =
          rw f.same (grind (arith, append_assoc)) in
        rw (p, replace_from)
          (ap (λ (n : ℕ). replace_from fuel (o ∷ os) newer (done ++ (take i s ++ newer)) (drop n s))
              (sym f.place)
            ∙ (replace_from_lem fuel (done ++ (take i s ++ newer)) rest
                  (omega (arith, h, f.shorter))
                ∙ ap some whole))
  ]

  -- The loop ends, with every occurrence replaced from the left on, for a text to replace that is not
  -- empty.
  pub replace_all_lem : (s : Bytes) → replace_all s (o ∷ os) newer ≡ some (replaced 0 s)
  unfolding replace_all
  replace_all_lem s = replace_from_lem (suc (length s)) [] s (omega arith)

-- `normalize`, from what its call of `replace_all` gives.
normalize-replace_all :
    (datetimes arrays : Bytes → Bytes) (s r : Bytes)
    → replace_all (change_quotes end end s) null_text [] ≡ some r
    → normalize datetimes arrays s ≡ some (arrays (datetimes r))
unfolding normalize
normalize-replace_all datetimes arrays s r h =
    ap
      (λ (o : Option Bytes). elim o [
        | none ↦ none
        | some result ↦ some (arrays (datetimes result))
      ])
      h

-- The normalization of a text ends, with each quote but those behind a backslash replaced by an
-- apostrophe, and then the text for the null character left out from the left on, before the two
-- regular expressions are replaced.
pub normalize_lem :
    (datetimes arrays : Bytes → Bytes) (s : Bytes)
    → normalize datetimes arrays s
      ≡ some
          (arrays (datetimes (replaced 92 (117 ∷ 48 ∷ 48 ∷ 48 ∷ 48 ∷ []) [] 0 (requote false s))))
normalize_lem datetimes arrays s =
    normalize-replace_all datetimes arrays s
      (replaced 92 (117 ∷ 48 ∷ 48 ∷ 48 ∷ 48 ∷ []) [] 0 (requote false s))
      (ap (λ (t : Bytes). replace_all t null_text []) (change_quotes_lem s)
        ∙ replace_all_lem 92 (117 ∷ 48 ∷ 48 ∷ 48 ∷ 48 ∷ []) [] (requote false s))
