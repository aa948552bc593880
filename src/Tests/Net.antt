-- ===== src/Tests/Net.antt =====
-- The virtual network at concrete inputs: two nodes, and an edge 9 from the first to the second.
use gqlite.Prelude.{ℕ, ◌≡◌, inr, refl, true, false, none, some, [], ◌==◌, if◌then◌else◌, arith}
use gqlite.Prelude.Eq.{nat_eq}
use gqlite.Prelude.Maps.{lookup, insert, contains}
use gqlite.Sorted.{member, add_unique}
use gqlite.Graph.{Graph, Edge, neighbors, collect, far_end, others}
use gqlite.Network.{
  add_node, add_edge, delete_edge, insert_edge, has_way_back, new_edge, put_node, link,
}
use gqlite.Network.WellFormed.{IsWellFormed, insert_edge-IsWellFormed}
use gqlite.Network.Preserved.{add_node-IsWellFormed, add_edge-IsWellFormed}
use gqlite.Network.Delete.{lookup-delete_edge, delete_edge-IsWellFormed}
use gqlite.Network.Neighbors.{neighbors_complete}
use gqlite.Network.Join.{add_edge_both_ways}

abbrev start : Graph ℕ
start = record { nodes = []; edges = [] }

start-IsWellFormed : IsWellFormed start
unfolding lookup member
start-IsWellFormed = record {
  layered = record { four = (λ n nd h. ground (arith, h)); ascending = λ n l. tt };
  linked = λ n l id h. ground arith;
  listed = λ id e h. ground (arith, h);
}

abbrev one : Graph ℕ
one = add_node 0 100 start 1 [] 5 0

one-IsWellFormed : IsWellFormed one
one-IsWellFormed = add_node-IsWellFormed 0 start start-IsWellFormed 100 1 0 [] 5

abbrev two : Graph ℕ
two = add_node 0 100 one 2 [] 6 0

two-IsWellFormed : IsWellFormed two
two-IsWellFormed = add_node-IsWellFormed 0 one one-IsWellFormed 100 2 0 [] 6

nine_fresh : lookup 9 two.edges ≡ none
unfolding lookup add_node put_node insert
nine_fresh = refl

abbrev linked : Graph ℕ
linked = insert_edge 0 two 9 1 2 [] 8 0

linked-IsWellFormed : IsWellFormed linked
linked-IsWellFormed =
    insert_edge-IsWellFormed 0 two two-IsWellFormed 9 1 2 0 [] 8 nine_fresh (omega arith)

one_there : contains 1 two.nodes ≡ true
unfolding contains lookup add_node put_node insert
one_there = refl

two_there : contains 2 two.nodes ≡ true
unfolding contains lookup add_node put_node insert
two_there = refl

no_way_back : has_way_back 0 two 1 2 0 ≡ false
unfolding neighbors collect others add_node put_node insert lookup
no_way_back = refl

nine_added : add_edge 0 two 9 1 2 [] 8 0 ≡ some (linked, true)
unfolding add_edge contains neighbors collect others add_node put_node insert lookup
nine_added = refl

add_edge-IsWellFormed_example : IsWellFormed linked
add_edge-IsWellFormed_example =
    add_edge-IsWellFormed 0 two two-IsWellFormed 9 1 2 0 [] 8 linked true (omega arith)
      (λ e. nine_fresh) nine_added

add_edge_both_ways_example :
    (h : Graph ℕ) × (k : Graph ℕ) × (add_edge 0 two 9 1 2 [] 8 0 ≡ some (h, true))
    × (add_edge 0 h 9 2 1 [] 8 0 ≡ some (k, true))
    × (member 2 (neighbors k 1 [] 0).0 ≡ true)
    × (member 1 (neighbors k 2 [] 0).0 ≡ true)
    × IsWellFormed k
add_edge_both_ways_example =
    add_edge_both_ways 0 two two-IsWellFormed 9 1 2 0 [] 8 nine_fresh (omega arith) one_there
      two_there no_way_back (λ e. omega (arith, e))

abbrev nine : Edge ℕ
nine = new_edge 0 1 2 [] 8 0

nine_found : lookup 9 linked.edges ≡ some nine
unfolding lookup insert_edge add_node put_node insert
nine_found = refl

delete_edge-IsWellFormed_example : IsWellFormed (delete_edge 0 linked 9 false)
delete_edge-IsWellFormed_example =
    delete_edge-IsWellFormed 0 linked linked-IsWellFormed 9 nine nine_found false

lookup-delete_edge_example : lookup 9 (delete_edge 0 linked 9 true).edges ≡ (
    if 9 == 9
    then (if true
        then some (record nine { status = record (nine.status) { hold = false; del = true } })
        else none)
    else lookup 9 linked.edges)
lookup-delete_edge_example =
    lookup-delete_edge 0 linked linked-IsWellFormed 9 nine nine_found true 9

two_seen : (neighbors linked 1 [] 0).1 ≡ true
unfolding neighbors collect others insert_edge add_node put_node insert lookup link add_unique
    far_end
two_seen = refl

two_member : member 2 (neighbors linked 1 [] 0).0 ≡ true
unfolding neighbors collect others insert_edge add_node put_node insert lookup link add_unique
    far_end member
two_member = refl

neighbors_complete_example :
    ((neighbors linked 2 [] 0).1 ≡ true)
    × (member (far_end 2 nine) (neighbors linked 2 [] 0).0 ≡ true)
neighbors_complete_example =
    neighbors_complete linked linked-IsWellFormed 2 0 9 nine nine_found refl refl (inr refl)
