-- ===== src/Topology.antt =====
-- The reactors by name: src/lib/topology.go. The order of the map's entries stands for the order in
-- which Go happens to iterate over it.
pub mod Deterministic
use detsys_testkit.Base.{ℕ, none, some, List, [], ◌∷◌, Result, some_or_panic, text_eq, length}
use detsys_testkit.Base.Dict
use detsys_testkit.Base.Dict.{Dict}
use detsys_testkit.Base.Text.{Text}
use detsys_testkit.Base.Sort.{sort}

pub record Item (R : Type 0) : Type 0 where
  pub name : Text
  pub reactor : R

pub record Topology (R : Type 0) : Type 0 where
  pub topology : Dict Text R

module _ {R : Type 0} where
  insert_items : List (Item R) → Dict Text R → Dict Text R
  insert_items [] d = d
  insert_items (item ∷ items) d = insert_items items (Dict.insert item.name item.reactor d)

  -- `NewTopology`
  unfoldable pub new_topology : List (Item R) → Topology R
  unfolding insert_items
  new_topology items = record { topology = insert_items items [] }

  -- `Topology.Len`
  unfoldable pub len : Topology R → ℕ
  len t = length t.topology

  -- `Topology.Reactors`
  unfoldable pub reactors : Topology R → List Text
  unfolding Dict.keys sort
  reactors t = sort (Dict.keys t.topology)

  -- `Topology.Reactor` panics on a name that the topology does not have.
  unfoldable pub reactor : Topology R → Text → Result R
  reactor t name = some_or_panic (Dict.lookup name t.topology)

  -- `Topology.Insert`
  unfoldable pub insert : Topology R → Text → R → Topology R
  insert t name r = record { topology = Dict.insert name r t.topology }
