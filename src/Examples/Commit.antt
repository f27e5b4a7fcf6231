-- ===== src/Examples/Commit.antt =====
-- An interface that is created with two addresses, on a VOM that finds the interfaces it holds.
use sweetcomb.Prelude.{◌≡◌, refl, Text, codes, text_eq, [], ◌∷◌, ◌++◌, All, map}
use sweetcomb.Prelude.Outcome.{value}
use sweetcomb.Decimal.{show}
use sweetcomb.Sysrepo.{verify, Sysrepo}
use sweetcomb.Interface.Changes.{creation, last_val, has_value}
use sweetcomb.Interface.Address.Laws.{nodes_of}
use sweetcomb.Interface.Address.Binds.{HoldsInterface, IsBound}
use sweetcomb.Nat.Config.{NatState}
use sweetcomb.Handlers.{calls_interface_create, calls_interface_address, handle_all}
use sweetcomb.Handlers.Commit.{handle_all-IsBound}
use sweetcomb.Examples.World.{node_of, two_change_sets, two_change_sets-NamesNodes}
use sweetcomb.Examples.Interface.{name_node, type_node, garbage}
use sweetcomb.Examples.Address.{two_addresses}
use sweetcomb.Examples.Mirror.{Objects, HeldIn, addresses, at_first}
use sweetcomb.Examples.Lifetime.{both_sets-IsAddress}
use sweetcomb.Examples.Searching.{
  searching_vom, searching_vom-KeepsObjects, searching_vom-FindsInterfaces,
}

abbrev commit : Sysrepo
commit =
    two_change_sets (map creation (name_node ∷ type_node ∷ [])) (nodes_of creation two_addresses)

handle_all-IsBound_example :
    (i : Text) × (st' : NatState Objects Text) × (handle_all addresses searching_vom
        (calls_interface_create commit (codes "first") verify garbage
          ∷ calls_interface_address commit (codes "second") verify
          ∷ [])
        at_first
      ≡ value st')
    × (i ≡ codes "eth0")
    × HoldsInterface searching_vom HeldIn i st'.vom
    × All (IsBound searching_vom HeldIn i st'.vom) two_addresses
    × (st'.static_mapping_table ≡ at_first.static_mapping_table)
unfolding last_val has_value node_of text_eq
handle_all-IsBound_example =
    handle_all-IsBound addresses searching_vom HeldIn commit (codes "first") (codes "second")
      garbage at_first (name_node ∷ type_node ∷ []) name_node two_addresses
      searching_vom-KeepsObjects searching_vom-FindsInterfaces (λ k o w. refl)
      (two_change_sets-NamesNodes (map creation (name_node ∷ type_node ∷ []))
        (nodes_of creation two_addresses))
      refl refl refl refl refl refl refl
      (
        both_sets-IsAddress _ _ (codes "10.0.0.1") 24 refl,
        (both_sets-IsAddress _ _ (codes "10.1.0.1") 16 refl, tt),
      )
      ((codes "10.0.0.1" ++ b'/' ∷ show 24, refl), ((codes "10.1.0.1" ++ b'/' ∷ show 16, refl), tt))
