-- ===== src/EdgeId/Order.antt =====
-- The order of edge ids, `operator<` of src/gutil.cpp.
use gqlite.Prelude.{◌<◌, ◌≡◌, true, false, arith}
use gqlite.EdgeId.{EdgeId, less}

-- Ids with the same lengths are below one another in neither direction, whatever their bytes.
pub less_same_lengths :
    (a b : EdgeId)
    → a.len ≡ b.len
    → a.from_len ≡ b.from_len
    → (less a b ≡ false) × (less b a ≡ false)
unfolding less
less_same_lengths a b h k = ground arith

-- Of two ids, one shorter with a longer source key than the other, each is below the other.
pub less_both_ways :
    (a b : EdgeId) → a.len < b.len → b.from_len < a.from_len → (less a b ≡ true) × (less b a ≡ true)
unfolding less
less_both_ways a b h k = ground arith
