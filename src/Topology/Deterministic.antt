-- ===== src/Topology/Deterministic.antt =====
-- The list of reactors depends on the names alone.
use mathlib.Core.List.{Perm, Permᴰ}
use mathlib.Core.Logic.{∥∥₁_map}
use detsys_testkit.Base.{
  ◌≡◌, ◌≢◌, ◌↔◌, ap, true, arith, ◌==◌, text_eq, contains, ok, panic, if◌then◌else◌,
}
use detsys_testkit.Base.Dict
use detsys_testkit.Base.Dict.{Dict, contains-keys, lookup-insert, NodupKeys, insert-NodupKeys}
use detsys_testkit.Base.Text.{Text}
use detsys_testkit.Base.Sort.{IsSorted, sort-IsSorted, sort_of_Perm, contains-sort}
use detsys_testkit.Topology.{Topology, reactors, reactor, insert}

module _ {R : Type 0} where
  keys_of_Permᴰ : {d d' : Dict Text R} → Permᴰ d d' → Permᴰ (Dict.keys d) (Dict.keys d')
  unfolding Dict.keys
  keys_of_Permᴰ Permᴰ.nil = Permᴰ.nil
  keys_of_Permᴰ (Permᴰ.cons e p) = Permᴰ.cons (ap (λ x. x.0) e) (keys_of_Permᴰ p)
  keys_of_Permᴰ (Permᴰ.swap e f) = Permᴰ.swap (ap (λ x. x.0) e) (ap (λ x. x.0) f)
  keys_of_Permᴰ (Permᴰ.trans p q) = Permᴰ.trans (keys_of_Permᴰ p) (keys_of_Permᴰ q)

  -- In whatever order the map is iterated, the names of the reactors come in the same, ascending
  -- order.
  pub reactors_of_Perm :
      (t t' : Topology R)
      → Perm t.topology t'.topology
      → (reactors t ≡ reactors t') × IsSorted (reactors t)
  unfolding reactors
  reactors_of_Perm t t' p =
      (sort_of_Perm (∥∥₁_map p keys_of_Permᴰ), sort-IsSorted (Dict.keys t.topology))

  -- The names that Reactors lists are those for which Reactor does not panic.
  pub contains-reactors :
      (t : Topology R) (name : Text)
      → (contains (reactors t) name ≡ true) ↔ (reactor t name ≢ panic)
  unfolding reactors reactor
  contains-reactors t name =
      ground (arith, contains-sort (Dict.keys t.topology) name, contains-keys t.topology name)

  -- `Insert` decides what `Reactor` answers for its name, and for no other.
  pub reactor-insert :
      (t : Topology R) (name other : Text) (r : R)
      → reactor (insert t name r) other ≡ (if other == name then ok r else reactor t other)
  unfolding reactor insert
  reactor-insert t name other r = ground (arith, lookup-insert other name r t.topology)
