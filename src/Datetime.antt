-- ===== src/Datetime.antt =====
-- src/Type/Datetime.cpp: the comparisons of `GDatetime`, on its `time_t`.
use gqlite.Prelude.{◌+◌, ◌<◌, ◌≡◌, ◌↔◌, Bool, true, not, arith}
use gqlite.Prelude.Int.{ℤ, ◌≤ℤ◌, ltb_ℤ, pos_part, neg_part}

pub record Datetime : Type 0 where
  pub t : ℤ

unfoldable pub lt : Datetime → Datetime → Bool
lt a b = ltb_ℤ a.t b.t

unfoldable pub gt : Datetime → Datetime → Bool
unfolding lt
gt a b = not (lt a b)

unfoldable pub le : Datetime → Datetime → Bool
unfolding gt
le a b = not (gt a b)

unfoldable pub ge : Datetime → Datetime → Bool
ge a b = not (ltb_ℤ a.t b.t)

-- `a < b` of two times, as an order on integers.
abbrev pub Before : Datetime → Datetime → Type 0
Before a b = pos_part a.t + neg_part b.t < pos_part b.t + neg_part a.t

-- `<` is the order of the times and `>=` its converse, but `>` holds wherever `>=` does, and `<=`
-- wherever `<` does.
pub comparisons_meet :
    (a b : Datetime)
    → ((lt a b ≡ true) ↔ Before a b)
      × ((ge a b ≡ true) ↔ (b.t ≤ℤ a.t))
      × (gt a b ≡ ge a b)
      × (le a b ≡ lt a b)
unfolding lt gt le ge
comparisons_meet a b = ground arith
