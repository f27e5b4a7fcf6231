-- ===== src/Examples/Mixed.antt =====
-- Change sets that create and delete, and one with an address that is no prefix.
use sweetcomb.Prelude.{
  ◌≡◌, ◌≢◌, refl, All, true, false, Text, codes, text_eq, some, List, [], ◌∷◌, ◌++◌, map,
}
use sweetcomb.Prelude.Outcome.{value, fault, uncaught, missing_slash}
use sweetcomb.Decimal.{stoi}
use sweetcomb.Sysrepo.{SrError, verify, string_t, enum_t, uint32_t, identityref_t, bool_t, Val}
use sweetcomb.Callback.{live}
use sweetcomb.SysUtil.Prefix.{make_prefix, of_string, find_last_of, default_prefix}
use sweetcomb.Interface.Changes.{
  Edits, change_of, edited, created_in, deleted_in, has_node, creation, mixed, last_val, has_value,
}
use sweetcomb.Interface.Create.{Garbage, ietf_interface_create_cb}
use sweetcomb.Interface.Create.Laws.{makes_and_writes}
use sweetcomb.Interface.Create.Edits.{edit_interface, ietf_interface_create_cb-edit_interface}
use sweetcomb.Nat.Config.Edits.{edit_mapping, nat_mapping_table_config_cb-edit_mapping}
use sweetcomb.Interface.Create.Returns.{IsReported, ietf_interface_create_cb_returns}
use sweetcomb.Nat.Config.{nat_mapping_table_config_cb}
use sweetcomb.Nat.Config.Laws.{writes_mapping}
use sweetcomb.Nat.Config.Unread.{nat_mapping_table_config_cb_uncaught}
use sweetcomb.Examples.World.{node_of, sysrepo_with, sysrepo_with-NamesNodes, log_vom, val}
use sweetcomb.Examples.Mirror.{addresses, garbage, list_vom, at_first, nodes}

abbrev name_of : Text → Val
name_of n = val (codes "interface/name") string_t n 0 false

abbrev eth1_nodes : List Val
eth1_nodes =
    name_of (codes "eth1")
    ∷ val (codes "interface/type") identityref_t (codes "iana-if-type:ethernetCsmacd") 0 false
    ∷ val (codes "interface/enabled") bool_t [] 0 true
    ∷ []

abbrev interface_garbage : Garbage
interface_garbage = record { create = false; remove = false; modify = false; m_state = false }

abbrev index_3 : Val
index_3 = val (codes "mapping-entry/index") uint32_t [] 3 false

abbrev no_prefix : Val
no_prefix = val (codes "mapping-entry/external-src-address") string_t (codes "5.0.0.1") 0 false

nat_mapping_table_config_cb_uncaught_example :
    nat_mapping_table_config_cb addresses list_vom
      (sysrepo_with (map creation nodes ++ creation no_prefix ∷ []))
      true
      (some (codes "mapping-entry"))
      verify
      garbage
      at_first
    ≡ (fault (uncaught missing_slash), record { om = at_first; iter = live })
unfolding node_of text_eq make_prefix of_string find_last_of stoi default_prefix
nat_mapping_table_config_cb_uncaught_example =
    nat_mapping_table_config_cb_uncaught
      (sysrepo_with (map creation nodes ++ creation no_prefix ∷ [])) addresses list_vom
      (codes "mapping-entry") garbage at_first nodes no_prefix missing_slash []
      (sysrepo_with-NamesNodes (map creation nodes ++ creation no_prefix ∷ [])) refl refl
      (refl, (refl, (refl, (refl, tt)))) refl refl

eth1_and_eth0-IsReported :
    All
      (IsReported (sysrepo_with (mixed true eth1_nodes (name_of (codes "eth0") ∷ []))))
      (mixed true eth1_nodes (name_of (codes "eth0") ∷ []))
eth1_and_eth0-IsReported = ((_, refl), ((_, refl), ((_, refl), ((_, refl), tt))))

ietf_interface_create_cb_returns_example :
    (rc : SrError) × ((ietf_interface_create_cb
        (sysrepo_with (mixed true eth1_nodes (name_of (codes "eth0") ∷ [])))
        log_vom
        (codes "interface")
        verify
        interface_garbage
        []).0
      ≡ value rc)
    × ((ietf_interface_create_cb
          (sysrepo_with (mixed true eth1_nodes (name_of (codes "eth0") ∷ [])))
          log_vom
          (codes "interface")
          verify
          interface_garbage
          []).1.iter
        ≢ live)
ietf_interface_create_cb_returns_example =
    ietf_interface_create_cb_returns
      (sysrepo_with (mixed true eth1_nodes (name_of (codes "eth0") ∷ []))) log_vom
      (codes "interface") verify interface_garbage [] refl eth1_and_eth0-IsReported

abbrev interface_edits : Edits
interface_edits =
    (true, name_of (codes "eth1"))
    ∷ (false, name_of (codes "eth0"))
    ∷ (
      true,
      val (codes "interface/type") identityref_t (codes "iana-if-type:ethernetCsmacd") 0 false,
    )
    ∷ []

-- The created type and the deleted name make eth0.
ietf_interface_create_cb-edit_interface_example :
    ietf_interface_create_cb
      (sysrepo_with (map change_of interface_edits))
      log_vom
      (codes "interface")
      verify
      interface_garbage
      []
    ≡ makes_and_writes log_vom (codes "eth0") (codes "ETHERNET") false []
unfolding last_val has_node has_value node_of text_eq edited created_in deleted_in edit_interface
ietf_interface_create_cb-edit_interface_example =
    ietf_interface_create_cb-edit_interface (sysrepo_with (map change_of interface_edits)) log_vom
      (codes "interface") interface_garbage [] interface_edits
      (sysrepo_with-NamesNodes (map change_of interface_edits)) refl refl

abbrev mapping_edits : Edits
mapping_edits =
    (false, index_3)
    ∷ (true, val (codes "mapping-entry/type") enum_t (codes "static") 0 false)
    ∷ (
      true,
      val (codes "mapping-entry/internal-src-address") string_t (codes "10.0.0.1/32") 0 false,
    )
    ∷ (true, val (codes "mapping-entry/index") uint32_t [] 7 false)
    ∷ (true, val (codes "mapping-entry/external-src-address") string_t (codes "5.0.0.1/32") 0 false)
    ∷ []

nat_mapping_table_config_cb-edit_mapping_example :
    nat_mapping_table_config_cb addresses list_vom
      (sysrepo_with (map change_of mapping_edits))
      true
      (some (codes "mapping-entry"))
      verify
      garbage
      at_first
    ≡ writes_mapping list_vom 7 (codes "10.0.0.1") (codes "5.0.0.1") at_first
unfolding last_val has_node node_of text_eq make_prefix of_string find_last_of stoi default_prefix
    edited created_in deleted_in edit_mapping
nat_mapping_table_config_cb-edit_mapping_example =
    nat_mapping_table_config_cb-edit_mapping (sysrepo_with (map change_of mapping_edits)) addresses
      list_vom (codes "mapping-entry") garbage at_first mapping_edits
      (sysrepo_with-NamesNodes (map change_of mapping_edits)) refl refl
      (refl, (refl, (refl, (refl, tt))))
