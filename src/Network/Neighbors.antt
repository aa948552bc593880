-- ===== src/Network/Neighbors.antt =====
-- include/base/parallel/GraphModel.h: whom `neighbors` finds.
use gqlite.Prelude.{
  ℕ, ◌≡◌, refl, ap, ◌∙◌, sym, Bool, true, false, not, ◌||◌, ◌&&◌, ◌⊎◌, Option, none, some, List, [],
  ◌∷◌, arith, ◌==◌, ==_iff, if◌then◌else◌, Bool-cases, inl, inr,
}
use gqlite.Prelude.Eq.{nat_eq}
use gqlite.Prelude.Maps.{lookup}
use gqlite.Sorted.{member, add_unique, member-add_unique}
use gqlite.Graph.{Graph, Edge, neighbors, collect, far_end, others, found_or}
use gqlite.Network.Links.{layer_in}
use gqlite.Network.WellFormed.{IsWellFormed}

module _ {Json : Type 0} where
  -- The node that a stored edge id shows to `id`, if it is a live edge.
  abbrev shows : Option (Edge Json) → ℕ → ℕ → Bool
  shows none id a = false
  shows (some e) id a = not e.status.del && far_end id e == a

  abbrev any_shows : Graph Json → ℕ → ℕ → List ℕ → Bool
  any_shows g id a [] = false
  any_shows g id a (x ∷ xs) = shows (lookup x g.edges) id a || any_shows g id a xs

  member-step :
      (o : Option (Edge Json)) (id a : ℕ) (n : List ℕ)
      → member a (elim o [
        | none ↦ n
        | some e ↦ if e.status.del then n else (add_unique n (far_end id e)).0
      ])
        ≡ (shows o id a || member a n)
  member-step none id a n = refl
  member-step (some e) id a n = ground (arith, member-add_unique n (far_end id e) a)

  member-collect :
      (g : Graph Json) (id a : ℕ) (layer n : List ℕ)
      → member a (collect g id layer n) ≡ (any_shows g id a layer || member a n)
  unfolding collect
  member-collect g id a [] n = refl
  member-collect g id a (x ∷ xs) n = ground (
    arith,
    member-step (lookup x g.edges) id a n,
    member-collect g id a xs (elim (lookup x g.edges) [
      | none ↦ n
      | some e ↦ if e.status.del then n else (add_unique n (far_end id e)).0
    ]),
  )

  shows_sound :
      (o : Option (Edge Json)) (id a : ℕ)
      → shows o id a ≡ true
      → (e : Edge Json) × (o ≡ some e) × (e.status.del ≡ false) × (far_end id e ≡ a)
  shows_sound none id a h = cc
  shows_sound (some e) id a h = (e, refl, ground arith, ground arith)

  any_shows_sound :
      (g : Graph Json) (id a : ℕ) (layer : List ℕ)
      → any_shows g id a layer ≡ true
      → (edge : ℕ) × (e : Edge Json) × (member edge layer ≡ true)
        × (lookup edge g.edges ≡ some e)
        × (e.status.del ≡ false)
        × (far_end id e ≡ a)
  unfolding member
  any_shows_sound g id a [] h = cc
  any_shows_sound g id a (x ∷ xs) h = elim (Bool-cases (shows (lookup x g.edges) id a)) [
    | inl here ↦
        let (e, found, live, far) = shows_sound (lookup x g.edges) id a here in
        (x, e, ground arith, found, live, far)
    | inr there ↦
        let (edge, e, m, found, live, far) = any_shows_sound g id a xs (ground arith) in
        (edge, e, ground arith, found, live, far)
  ]

  any_shows_complete :
      (g : Graph Json) (id edge : ℕ) (e : Edge Json) (layer : List ℕ)
      → member edge layer ≡ true
      → lookup edge g.edges ≡ some e
      → e.status.del ≡ false
      → any_shows g id (far_end id e) layer ≡ true
  unfolding member
  any_shows_complete g id edge e [] m found live = cc
  any_shows_complete g id edge e (x ∷ xs) m found live =
      ground (arith, any_shows_complete g id edge e xs, ==_iff x edge)

member-found_or : (n rest : List ℕ) → (found_or n rest).1 ≡ true → (found_or n rest).0 ≡ n
member-found_or [] rest h = cc
member-found_or (x ∷ xs) rest h = refl

found_or-member :
    (n rest : List ℕ) (a : ℕ)
    → member a n ≡ true
    → ((found_or n rest).1 ≡ true) × (member a (found_or n rest).0 ≡ true)
unfolding member
found_or-member [] rest a h = cc
found_or-member (x ∷ xs) rest a h = (refl, h)

module _ {Json : Type 0} (g : Graph Json) (w : IsWellFormed g) (id level : ℕ) where
  -- In a well-formed network, where a node has neighbours in a layer, each of them is the far end of a
  -- live edge of that node in that layer.
  pub neighbors_sound :
      (a : ℕ)
      → (neighbors g id [] level).1 ≡ true
      → member a (neighbors g id [] level).0 ≡ true
      → (edge : ℕ) × (e : Edge Json) × (lookup edge g.edges ≡ some e)
        × (e.status.del ≡ false)
        × ((e.first ≡ id) ⊎ (e.second ≡ id))
        × (e.status.layer ≡ level)
        × (far_end id e ≡ a)
  unfolding neighbors member
  neighbors_sound a found h =
      let all = collect g id (layer_in g.nodes id level) [] in
      let rest = others id g.nodes [] in
      let h' : member a all ≡ true = ap (member a) (sym (member-found_or all rest found)) ∙ h in
      let (edge, e, m, at, live, far) =
        any_shows_sound g id a (layer_in g.nodes id level)
          (ground (arith, member-collect g id a (layer_in g.nodes id level) [])) in
      let (f, at', ends, layer) = w.linked id level edge m in
      (edge, e, at, live, ground arith, ground arith, far)

  -- In a well-formed network, the far end of every live edge that touches a node in a layer is among
  -- the neighbours of the node there.
  pub neighbors_complete :
      (edge : ℕ) (e : Edge Json)
      → lookup edge g.edges ≡ some e
      → e.status.del ≡ false
      → e.status.layer ≡ level
      → (e.first ≡ id) ⊎ (e.second ≡ id)
      → ((neighbors g id [] level).1 ≡ true)
        × (member (far_end id e) (neighbors g id [] level).0 ≡ true)
  unfolding neighbors
  neighbors_complete edge e found live layer ends =
      found_or-member (collect g id (layer_in g.nodes id level) []) (others id g.nodes [])
        (far_end id e)
        (ground (
          arith,
          member-collect g id (far_end id e) (layer_in g.nodes id level) [],
          any_shows_complete g id edge e (layer_in g.nodes id level),
          w.listed edge e,
        ))
