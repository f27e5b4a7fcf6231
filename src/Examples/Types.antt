-- ===== src/Examples/Types.antt =====
-- The values of the state callbacks and their YANG models.
use sweetcomb.Prelude.{◌≡◌, ◌↔◌, refl, true, false, codes, text_eq, some, [], ◌∷◌, All, arith}
use sweetcomb.Prelude.Outcome.{value}
use sweetcomb.Sysrepo.{ok}
use sweetcomb.State.Values.{Buffer, answer}
use sweetcomb.State.Values.Laws.{Holds}
use sweetcomb.State.Interfaces.{ietf_interface_state_cb}
use sweetcomb.State.Interfaces.Laws.{all_values}
use sweetcomb.State.Interfaces.Types.{IsTyped, IsIndexed, ietf_interface_state_cb_types_iff}
use sweetcomb.State.OpenConfig.{oc_interfaces_state_cb}
use sweetcomb.State.OpenConfig.Laws.{state_of, reply_values}
use sweetcomb.State.OpenConfig.Types.{
  IsTyped as OpenConfigIsTyped, oc_interfaces_state_cb_types_iff,
}
use sweetcomb.State.Capabilities.{nat_cap_state_cb}
use sweetcomb.State.Capabilities.Types.{static_mapping, nat_cap_state_cb_unknown_leaf}
use sweetcomb.Yang.{YangLibrary, is_leaf_of, capabilities}
use sweetcomb.Examples.World.{node_of, sysrepo_with}
use sweetcomb.Examples.State.{details, two_interfaces, vpp}

-- Identities are written with the name of their module.
abbrev by_module : YangLibrary
by_module = record {
  is_interface_type = λ t. text_eq t (codes "iana-if-type:ethernetCsmacd");
  is_date = λ t. false;
}

ietf_interface_state_cb_types_iff_example :
    (b : Buffer) × (ietf_interface_state_cb (sysrepo_with []) vpp (codes "/x/interface")
      ≡ value (ok, answer b 10))
    × Holds b 0 (all_values (codes "/x/interface") two_interfaces)
    × (All (IsTyped by_module (codes "/x/interface")) two_interfaces ↔ All IsIndexed two_interfaces)
unfolding node_of text_eq
ietf_interface_state_cb_types_iff_example =
    ietf_interface_state_cb_types_iff by_module (sysrepo_with []) vpp (codes "/x/interface") refl
      (omega arith) refl ((omega arith, omega arith), ((omega arith, omega arith), tt))

oc_interfaces_state_cb_types_iff_example :
    (b : Buffer) × (oc_interfaces_state_cb (sysrepo_with []) vpp (some (codes "/x")) true true
      ≡ value (ok, answer b 7))
    × Holds b 0 (reply_values (state_of (codes "eth0")) (details (codes "eth0") 1))
    × (OpenConfigIsTyped by_module (codes "eth0") (details (codes "eth0") 1) ↔ (false ≡ true))
unfolding text_eq
oc_interfaces_state_cb_types_iff_example =
    oc_interfaces_state_cb_types_iff by_module (sysrepo_with []) vpp (codes "/x") (codes "eth0")
      (details (codes "eth0") 1) (details (codes "eth1") 4294967295 ∷ []) refl refl refl
      (omega arith) (omega arith) refl (omega arith)

nat_cap_state_cb_unknown_leaf_example :
    (b : Buffer) × (nat_cap_state_cb (sysrepo_with []) (codes "/nat/capabilities")
      ≡ value (ok, answer b 1))
    × (b.capacity ≡ 1)
    × Holds b 0 (static_mapping (codes "/nat/capabilities") ∷ [])
    × (is_leaf_of by_module capabilities
          (codes "/nat/capabilities")
          (static_mapping (codes "/nat/capabilities"))
        ≡ false)
nat_cap_state_cb_unknown_leaf_example =
    nat_cap_state_cb_unknown_leaf by_module (sysrepo_with []) (codes "/nat/capabilities")
