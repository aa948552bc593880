-- ===== src/Split.antt =====
-- src/gutil.cpp: `split` at a delimiter character and `merge`, over byte strings.
use gqlite.Prelude.{
  ℕ, ◌≡◌, ◌≢◌, refl, sym, List, [], ◌∷◌, ◌++◌, append_assoc, append-nil, arith, ◌==◌, if◌then◌else◌,
  All, ap, ◌∙◌,
}

abbrev pub Bytes : Type 0
Bytes = List ℕ

abbrev pub Lacks : ℕ → Bytes → Type 0
Lacks d = All (λ c. c ≢ d)

-- The rest of the text, the characters from `first` to `itr`, and the result so far. At the end a
-- part is pushed only if it is not empty (`first != str.end()`).
cut : ℕ → Bytes → Bytes → List Bytes → List Bytes
cut d [] [] result = result
cut d [] (c ∷ cur) result = result ++ (c ∷ cur) ∷ []
cut d (x ∷ s) cur result =
    let found = cut d s [] (result ++ cur ∷ []) in
    let next = cut d s (cur ++ x ∷ []) result in if x == d then found else next

unfoldable pub split : Bytes → ℕ → List Bytes
unfolding cut
split s d = cut d s [] []

-- `s += datum + delim`, for each datum.
glue : ℕ → List Bytes → Bytes → Bytes
glue d [] s = s
glue d (p ∷ ps) s = glue d ps (s ++ (p ++ d ∷ []))

unfoldable pub pop_back : Bytes → Bytes
pop_back [] = []
pop_back (c ∷ []) = []
pop_back (c ∷ x ∷ s) = c ∷ pop_back (x ∷ s)

unfoldable pub merge : List Bytes → ℕ → Bytes
unfolding glue pop_back
merge ps d = pop_back (glue d ps [])

pop_back-snoc : (s : Bytes) (c : ℕ) → pop_back (s ++ c ∷ []) ≡ s
unfolding pop_back
pop_back-snoc [] c = refl
pop_back-snoc (x ∷ []) c = refl
pop_back-snoc (x ∷ y ∷ s) c = ap (λ (l : Bytes). x ∷ l) (pop_back-snoc (y ∷ s) c)

module _ (d : ℕ) where
  -- Every part with the delimiter behind it.
  ended : List Bytes → Bytes
  ended [] = []
  ended (p ∷ ps) = p ++ (d ∷ ended ps)

  ended-append : (ps qs : List Bytes) → ended (ps ++ qs) ≡ ended ps ++ ended qs
  unfolding ended
  ended-append [] qs = refl
  ended-append (p ∷ ps) qs = simp (ended-append ps, append_assoc)

  glue-ended : (ps : List Bytes) (s : Bytes) → glue d ps s ≡ s ++ ended ps
  unfolding glue ended
  glue-ended [] s = sym (append-nil s)
  glue-ended (p ∷ ps) s = simp (glue-ended ps, append_assoc)

  ended-cut_delim :
      (s cur : Bytes) (result : List Bytes)
      → ended (cut d (s ++ d ∷ []) cur result) ≡ ended result ++ (cur ++ (s ++ d ∷ []))
  unfolding cut ended
  ended-cut_delim [] cur result = ground (arith, ended-append result (cur ∷ []))
  ended-cut_delim (x ∷ s) cur result = grind (arith, ended-cut_delim s, ended-append, append_assoc)

  cut_last :
      (cur : Bytes) (result : List Bytes) → cur ≢ [] → cut d [] cur result ≡ result ++ cur ∷ []
  unfolding cut
  cut_last [] result h = absurd (h refl)
  cut_last (c ∷ cur) result h = refl

  snoc-ne-nil : (s : Bytes) (c : ℕ) → s ++ c ∷ [] ≢ []
  snoc-ne-nil [] c = cc
  snoc-ne-nil (x ∷ s) c = cc

  ended-cut_other :
      (s : Bytes) (c : ℕ) (cur : Bytes) (result : List Bytes)
      → c ≢ d
      → ended (cut d (s ++ c ∷ []) cur result) ≡ ended result ++ (cur ++ (s ++ c ∷ d ∷ []))
  unfolding cut ended
  ended-cut_other [] c cur result h = grind (
    arith,
    cut_last (cur ++ c ∷ []) result (snoc-ne-nil cur c),
    ended-append result ((cur ++ c ∷ []) ∷ []),
    append_assoc cur (c ∷ []) (d ∷ []),
  )
  ended-cut_other (x ∷ s) c cur result h =
      grind (arith, ended-cut_other s, ended-append, append_assoc)

  cut-append :
      (p rest cur : Bytes) (result : List Bytes)
      → Lacks d p
      → cut d (p ++ rest) cur result ≡ cut d rest (cur ++ p) result
  unfolding cut
  cut-append [] rest cur result h = rw append-nil
  cut-append (c ∷ p) rest cur result (hc, hp) =
      ground (arith, cut-append p rest (cur ++ c ∷ []) result hp, append_assoc cur (c ∷ []) p)

  cut_at_delim :
      (s cur : Bytes) (result : List Bytes)
      → cut d (d ∷ s) cur result ≡ cut d s [] (result ++ cur ∷ [])
  unfolding cut
  cut_at_delim s cur result = ground arith

  cut-ended :
      (ps : List Bytes) (rest : Bytes) (result : List Bytes)
      → All (Lacks d) ps
      → cut d (ended ps ++ rest) [] result ≡ cut d rest [] (result ++ ps)
  unfolding ended
  cut-ended [] rest result h = rw append-nil
  cut-ended (p ∷ ps) rest result (hp, hps) =
      rw (append_assoc, cut-append p _ [] result hp, cut_at_delim)
        (rw (cut-ended ps rest (result ++ p ∷ []) hps, append_assoc) refl)

merge-ended : (ps : List Bytes) (p : Bytes) (d : ℕ) → merge (ps ++ p ∷ []) d ≡ ended d ps ++ p
unfolding merge ended
merge-ended ps p d =
    ap pop_back (glue-ended d (ps ++ p ∷ []) [] ∙ ended-append d ps (p ∷ []))
    ∙ ap pop_back (sym (append_assoc (ended d ps) p (d ∷ [])))
    ∙ pop_back-snoc (ended d ps ++ p) d

-- Parts without the delimiter, the last one not empty, are what splitting their merge gives.
pub split-merge :
    (ps : List Bytes) (p : Bytes) (d : ℕ)
    → All (Lacks d) ps
    → Lacks d p
    → p ≢ []
    → split (merge (ps ++ p ∷ []) d) d ≡ ps ++ p ∷ []
unfolding split
split-merge ps p d hs hp h =
    rw (merge-ended, cut-ended d ps p [] hs)
      (ap (λ (t : Bytes). cut d t [] ps) (sym (append-nil p))
        ∙ cut-append d p [] [] ps hp
        ∙ cut_last d p ps h)

-- Merging the parts of a text gives the text back, if it does not end with the delimiter.
pub merge-split : (s : Bytes) (c d : ℕ) → c ≢ d → merge (split (s ++ c ∷ []) d) d ≡ s ++ c ∷ []
unfolding merge split
merge-split s c d h =
    rw (glue-ended, ended-cut_other d s c [] [] h)
      (unfold ended in
        (ap pop_back (sym (append_assoc s (c ∷ []) (d ∷ []))) ∙ pop_back-snoc (s ++ c ∷ []) d))

-- A delimiter at the end of a text is lost.
pub merge-split_delim : (s : Bytes) (d : ℕ) → merge (split (s ++ d ∷ []) d) d ≡ s
unfolding merge split
merge-split_delim s d =
    rw (glue-ended, ended-cut_delim d s [] []) (unfold ended in pop_back-snoc s d)
