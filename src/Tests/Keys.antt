-- ===== src/Tests/Keys.antt =====
-- Edge keys, sorted sequences and ids at concrete inputs.
use gqlite.Prelude.{ℕ, ◌≡◌, ◌↔◌, refl, true, some, [], ◌∷◌, arith}
use gqlite.EdgeId.{
  str, num, EdgeId, key_bytes, make_edge_id, to_string, to_edge_id, get_from_to_string,
  is_direction,
}
use gqlite.Word.{le_bytes}
use gqlite.EdgeId.RoundTrip.{Fits, edge_key_round_trip}
use gqlite.IdSource.{Clock, snowflake2}
use gqlite.IdSource.Snowflake.{snowflake2-collides, IsFresh, InRange}
use gqlite.IdSource.Generator.{
  Generator, generate, recycle, count, generate-IsValid, recycle-IsValid,
}
use gqlite.IdSource.Generator

-- The edge from "ab" to the vertex 7.
abbrev to_seven : EdgeId
to_seven = record {
  direction = true;
  from_type = 1;
  to_type = 0;
  from_len = 2;
  reserved = 0;
  len = 10;
  value = 97 ∷ 98 ∷ 7 ∷ 0 ∷ 0 ∷ 0 ∷ 0 ∷ 0 ∷ 0 ∷ 0 ∷ [];
}

to_seven-Fits : Fits (str (97 ∷ 98 ∷ [])) (num 7)
unfolding key_bytes le_bytes
to_seven-Fits = record { short = omega arith; total = omega arith }

edge_key_round_trip_example :
    (id : EdgeId) × (make_edge_id true (str (97 ∷ 98 ∷ [])) (num 7) ≡ some id)
    × (to_edge_id (to_string id) ≡ some id)
    × (get_from_to_string (to_string id) ≡ some (str (97 ∷ 98 ∷ []), num 7))
    × (is_direction (to_string id) ≡ some true)
edge_key_round_trip_example =
    edge_key_round_trip true (str (97 ∷ 98 ∷ [])) (num 7) to_seven-Fits tt (omega arith)

abbrev longer : EdgeId
longer = record to_seven {
  from_len = 1;
  len = 11;
  value = 97 ∷ 98 ∷ 7 ∷ 0 ∷ 0 ∷ 0 ∷ 0 ∷ 0 ∷ 0 ∷ 0 ∷ 0 ∷ [];
}

abbrev at_first : Clock
at_first = record { sequence = 0; last_time_stamp = 1600000000000 }

at_first-IsFresh : IsFresh at_first
unfolding IsFresh
at_first-IsFresh = refl

abbrev noon : ℕ
noon = 1600000000000

abbrev input : ℕ
input = 5

noon-InRange : InRange noon
unfolding InRange
noon-InRange = (omega arith, omega arith)

snowflake2-collides_example :
    ((snowflake2 at_first noon input).0
      ≡ (snowflake2 ((snowflake2 at_first noon input).1) noon input).0)
    ↔ ((noon ≡ noon) × (input ≡ input))
snowflake2-collides_example =
    snowflake2-collides at_first noon noon input input at_first-IsFresh noon-InRange noon-InRange
      (omega arith) (omega arith)

abbrev first_id : Generator
first_id = record { cur = 1; reused = [] }

first_id-IsValid : Generator.IsValid first_id (1 ∷ [])
unfolding count
first_id-IsValid = record { once = (λ id. ground arith); above = λ id lt. ground arith }

generate-IsValid_example :
    (count (generate first_id).0 (1 ∷ []) ≡ 0)
    × Generator.IsValid (generate first_id).1 ((generate first_id).0 ∷ 1 ∷ [])
generate-IsValid_example = generate-IsValid first_id (1 ∷ []) first_id-IsValid (omega arith)
