-- ===== src/Scan/Vertices.antt =====
-- src/plan/query/ScanPlan.cpp: what `predictVertex` answers for a row.
use gqlite.Prelude.{
  ◌≡◌, refl, ◌∙◌, Bool, true, false, not, ◌&&◌, ◌||◌, Option, none, some, List, [], ◌∷◌,
  if◌then◌else◌, arith,
}
use gqlite.EdgeId.{Key}
use gqlite.Storage.Tables.{Name}
use gqlite.Storage.Attributes.{Json}
use gqlite.Scan.{
  Predicate, on_key, on_attribute, QueryCondition, Rows, Verdict, holds, bad_cast, fault, visit,
  visit_all, begin_at, predict_vertex,
}
use gqlite.Scan.Answers.{IsObject, answers, IsAt, visit_lem}

abbrev pub all_true : List Bool → Bool
all_true [] = true
all_true (b ∷ bs) = b && all_true bs

abbrev pub head_true : List Bool → Bool
head_true [] = true
head_true (b ∷ bs) = b

module _ {J : Json} {D : Type 0} (R : Rows J D) where
  module _ (key : Key) (row : J.Value) where
    module _ (lib : IsObject R) where
      no_predicate :
          (stop_at result : Bool) (at : J.Value × Option (List Name))
          → (visit_all R stop_at [] key result at).0 ≡ holds result
      unfolding visit_all
      no_predicate stop_at result at = refl

      nothing_and :
          (result : Bool) (at : J.Value × Option (List Name)) (bs : List Bool)
          → ◌≡◌ {A = Option (List Bool)} (some []) (some bs)
          → (visit_all R false [] key result at).0 ≡ holds (result && all_true bs)
      nothing_and result at bs h = no_predicate false result at ∙ ground (arith, h)

      nothing_or :
          (result : Bool) (at : J.Value × Option (List Name)) (bs : List Bool)
          → ◌≡◌ {A = Option (List Bool)} (some []) (some bs)
          → (visit_all R true [] key result at).0 ≡ holds (result && head_true bs)
      nothing_or result at bs h = no_predicate true result at ∙ ground (arith, h)

      step :
          (stop_at : Bool) (p : Predicate D) (ps : List (Predicate D)) (result b : Bool)
          (at next : J.Value × Option (List Name))
          → visit R p key at ≡ (holds b, next)
          → visit_all R stop_at (p ∷ ps) key result at ≡ (
              if ((result && b) && stop_at) || (not (result && b) && not stop_at)
              then (holds (result && b), next)
              else visit_all R stop_at ps key (result && b) next)
      unfolding visit_all
      step stop_at p ps result b at next e = cc (e)

      -- The loop over the predicates of `And`: all of them.
      visit_and :
          (ps : List (Predicate D)) (attrs : Option (List Name)) (at : J.Value × Option (List Name))
          (bs : List Bool) (result : Bool)
          → IsAt R key row attrs at
          → answers R key row ps attrs ≡ some bs
          → ((visit_all R false ps key result at).0 ≡ holds (result && all_true bs))
      unfolding answers
      visit_and [] attrs at bs result ok h = nothing_and result at bs h
      visit_and (p ∷ ps) attrs at bs result ok h =
          let v = visit_lem R key row lib p ps attrs at bs ok h in
          let ih = visit_and ps v.left v.next v.others (result && v.first) v.stands v.go_on in
          rw (step false p ps result v.first at v.next v.visited) (ground (arith, ih, v.split))

      -- Once the result is false, the loop over the predicates of `Or` leaves it so.
      visit_false :
          (ps : List (Predicate D)) (attrs : Option (List Name)) (at : J.Value × Option (List Name))
          (bs : List Bool)
          → IsAt R key row attrs at
          → answers R key row ps attrs ≡ some bs
          → (visit_all R true ps key false at).0 ≡ holds false
      visit_false [] attrs at bs ok h = no_predicate true false at
      visit_false (p ∷ ps) attrs at bs ok h =
          let v = visit_lem R key row lib p ps attrs at bs ok h in
          rw (step true p ps false v.first at v.next v.visited)
            (visit_false ps v.left v.next v.others v.stands v.go_on)

      -- The loop over the predicates of `Or`: the first of them.
      visit_or :
          (ps : List (Predicate D)) (attrs : Option (List Name)) (at : J.Value × Option (List Name))
          (bs : List Bool) (result : Bool)
          → IsAt R key row attrs at
          → answers R key row ps attrs ≡ some bs
          → (visit_all R true ps key result at).0 ≡ holds (result && head_true bs)
      unfolding answers
      visit_or [] attrs at bs result ok h = nothing_or result at bs h
      visit_or (p ∷ ps) attrs at bs result ok h =
          let v = visit_lem R key row lib p ps attrs at bs ok h in
          let ih = visit_false ps v.left v.next v.others v.stands v.go_on in
          rw (step true p ps result v.first at v.next v.visited) (ground (arith, ih, v.split))

      abbrev SameRow : J.Value × Option (List Name) → Type 0
      SameRow at = (b : Name) → R.member at.0 b ≡ R.member row b

      visit-SameRow :
          (p : Predicate D) (at : J.Value × Option (List Name))
          → SameRow at
          → SameRow (visit R p key at).1
      unfolding visit
      visit-SameRow (on_key op) (row', l) h b = h b
      visit-SameRow (on_attribute op) (row', some (a ∷ rest)) h b =
          lib.member-touched row' a b ∙ h b
      visit-SameRow (on_attribute op) (row', some []) h b = h b
      visit-SameRow (on_attribute op) (row', none) h b = h b

      visit_all-SameRow :
          (stop_at result : Bool) (ps : List (Predicate D)) (at : J.Value × Option (List Name))
          → SameRow at
          → SameRow (visit_all R stop_at ps key result at).1
      unfolding visit_all
      visit_all-SameRow stop_at result [] at h = h
      visit_all-SameRow stop_at result (p ∷ ps) at h =
          elim (visit R p key at).0
            as (λ (v : Verdict).
              SameRow
                (elim v as (λ (x : Verdict). Verdict × (J.Value × Option (List Name))) [
                  | holds b ↦
                      (if ((result && b) && stop_at) || (not (result && b) && not stop_at)
                        then (holds (result && b), (visit R p key at).1)
                        else visit_all R stop_at ps key (result && b) (visit R p key at).1)
                  | bad_cast ↦ (bad_cast, (visit R p key at).1)
                  | fault ↦ (fault, (visit R p key at).1)
                ]).1) [
                  | holds b ↦
                      elim (((result && b) && stop_at) || (not (result && b) && not stop_at))
                        as (λ (x : Bool).
                          SameRow
                            (if◌then◌else◌ {A = Verdict × (J.Value × Option (List Name))} x
                              (holds (result && b), (visit R p key at).1)
                              (visit_all R stop_at ps key (result && b) (visit R p key at).1)).1) [
                                | true ↦ visit-SameRow p at h
                                | false ↦
                                    visit_all-SameRow stop_at (result && b) ps (visit R p key at).1
                                      (visit-SameRow p at h)
                              ]
                  | bad_cast ↦ visit-SameRow p at h
                  | fault ↦ visit-SameRow p at h
                ]

      begin_at-IsAt :
          (attrs : Option (List Name)) (at : J.Value × Option (List Name))
          → SameRow at
          → IsAt R key row attrs (begin_at R attrs at)
      begin_at-IsAt none at h = record { same_row = h; same_attrs = λ l e. absurd (cc) }
      begin_at-IsAt (some a) (row', l) h = record { same_row = h; same_attrs = λ l' e. e }

      -- Where the predicates fit the attributes and the values of the row, a vertex is taken if all
      -- predicates of `And` hold of it and the first predicate of `Or`: the others of `Or` do not count.
      pub predict_vertex_lem :
          (w : QueryCondition D) (ands ors : List Bool)
          → answers R key row w.and_pattern.node_predicates w.and_pattern.attrs ≡ some ands
          → answers R key row w.or_pattern.node_predicates w.or_pattern.attrs ≡ some ors
          → (predict_vertex R w key row).0 ≡ holds (all_true ands && head_true ors)
      unfolding predict_vertex
      predict_vertex_lem w ands ors ha hb =
          let at0 : J.Value × Option (List Name) = (row, w.and_pattern.attrs) in
          let r = visit_all R false w.and_pattern.node_predicates key true at0 in
          let e : r.0 ≡ holds (all_true ands) =
            visit_and w.and_pattern.node_predicates w.and_pattern.attrs at0 ands true
              (record { same_row = λ b. refl; same_attrs = λ l g. g }) ha in
          let s : SameRow r.1 =
            visit_all-SameRow false true w.and_pattern.node_predicates at0 (λ b. refl) in
          let q =
            visit_or w.or_pattern.node_predicates w.or_pattern.attrs
              (begin_at R w.or_pattern.attrs r.1) ors (all_true ands)
              (begin_at-IsAt w.or_pattern.attrs r.1 s) hb in
          ground (arith, e, q)
