-- ===== src/Scan/Answers.antt =====
-- src/plan/query/ScanPlan.cpp: what the predicates answer for a row, one after the other.
use gqlite.Prelude.{◌≡◌, refl, ap, ◌∙◌, Bool, false, Option, none, some, List, [], ◌∷◌, arith}
use gqlite.EdgeId.{Key}
use gqlite.Storage.Tables.{Name}
use gqlite.Storage.Attributes.{Json}
use gqlite.Scan.{
  Attribute, Predicate, on_key, on_attribute, Rows, Verdict, holds, attribute_of, predict, visit,
}

module _ {J : Json} {D : Type 0} (R : Rows J D) where
  -- The library's `row[attr]` leaves the values of the row's attributes as they are.
  pub record IsObject : Type 0 where
    pub member-touched : (v : J.Value) (a b : Name) → R.member (R.touched v a) b ≡ R.member v b

  module _ (key : Key) (row : J.Value) where
    -- The answers of the predicates on a row, each attribute predicate with its attribute, in order;
    -- `none` where the attributes do not suffice or a comparison does not fit.
    abbrev pub answer : (Attribute D → Option Bool) → Name → Option Bool
    answer op a = elim (attribute_of R (R.member row a)) [ none ↦ some false | some x ↦ op x ]

    abbrev pub cons : Option Bool → Option (List Bool) → Option (List Bool)
    cons none o = none
    cons (some b) none = none
    cons (some b) (some bs) = some (b ∷ bs)

    unfoldable pub answers : List (Predicate D) → Option (List Name) → Option (List Bool)
    answers [] attrs = some []
    answers (on_key op ∷ ps) attrs = cons (some (op key)) (answers ps attrs)
    answers (on_attribute op ∷ ps) (some (a ∷ rest)) = cons (answer op a) (answers ps (some rest))
    answers (on_attribute op ∷ ps) _ = none

    -- The cursor stands on this row, and on these attributes if there are any.
    pub record IsAt (attrs : Option (List Name)) (at : J.Value × Option (List Name)) : Type 0 where
      pub same_row : (b : Name) → R.member at.0 b ≡ R.member row b
      pub same_attrs : (l : List Name) → attrs ≡ some l → at.1 ≡ some l

    cons-inv :
        (o : Option Bool) (r : Option (List Bool)) (bs : List Bool)
        → cons o r ≡ some bs
        → (b : Bool) × (bs' : List Bool) × (o ≡ some b) × (r ≡ some bs') × (bs ≡ b ∷ bs')
    cons-inv none r bs h = cc
    cons-inv (some b) none bs h = cc
    cons-inv (some b) (some bs') bs h = (b, bs', refl, refl, cc)

    predict-answer :
        (op : Attribute D → Option Bool) (v : J.Value) (a : Name) (b : Bool)
        → v ≡ R.member row a
        → answer op a ≡ some b
        → predict R op v ≡ holds b
    unfolding predict
    predict-answer op v a b e h = ground (arith, e, h)

    -- One predicate: its answer, and the cursor behind it.
    pub record IsVisited (p : Predicate D) (ps : List (Predicate D))
        (at : J.Value × Option (List Name)) (bs : List Bool) : Type 0 where
      pub first : Bool
      pub others : List Bool
      pub left : Option (List Name)
      pub next : J.Value × Option (List Name)
      pub split : bs ≡ first ∷ others
      pub visited : visit R p key at ≡ (holds first, next)
      pub stands : IsAt left next
      pub go_on : answers ps left ≡ some others

    module _ (lib : IsObject) where
      pub visit_lem :
          (p : Predicate D) (ps : List (Predicate D)) (attrs : Option (List Name))
          (at : J.Value × Option (List Name)) (bs : List Bool)
          → IsAt attrs at
          → answers (p ∷ ps) attrs ≡ some bs
          → IsVisited p ps at bs
      unfolding answers visit
      visit_lem (on_key op) ps attrs (row', l) bs ok h =
          let (b, bs', e, q, r) = cons-inv (some (op key)) (answers ps attrs) bs h in
          record {
            first = op key;
            others = bs';
            left = attrs;
            next = (row', l);
            split = cc (r, e);
            visited = refl;
            stands = ok;
            go_on = q;
          }
      visit_lem (on_attribute op) ps (some (a ∷ rest)) (row', l) bs ok h =
          let (b, bs', e, q, r) = cons-inv (answer op a) (answers ps (some rest)) bs h in
          let s : l ≡ some (a ∷ rest) = ok.same_attrs (a ∷ rest) refl in
          record {
            first = b;
            others = bs';
            left = some rest;
            next = (R.touched row' a, some rest);
            split = r;
            visited = rw s (
                ap (λ (v : Verdict). (v, (R.touched row' a, some rest)))
                  (predict-answer op (R.member row' a) a b (ok.same_row a) e));
            stands = record {
              same_row = λ c. lib.member-touched row' a c ∙ ok.same_row c;
              same_attrs = λ k g. g;
            };
            go_on = q;
          }
      visit_lem (on_attribute op) ps none (row', l) bs ok h = absurd (cc)
      visit_lem (on_attribute op) ps (some []) (row', l) bs ok h = absurd (cc)
