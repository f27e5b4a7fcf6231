-- ===== src/Examples/Interface.antt =====
-- Interfaces: created, modified and deleted, by both models.
use sweetcomb.Prelude.{none, Bool, codes, text_eq, true, false, some, List, [], ◌∷◌, ◌≡◌, refl, inl}
use sweetcomb.Prelude.Outcome.{value, fault, null_deref}
use sweetcomb.Sysrepo.{modified, ok, verify, string_t, identityref_t, bool_t, Val, Change, Sysrepo}
use sweetcomb.Callback.{live, freed}
use sweetcomb.Interface.Changes.{creation, deletion}
use sweetcomb.Interface.Create.{Garbage, ietf_interface_create_cb}
use sweetcomb.Interface.Create.Modify.{Enables, set_states, ietf_interface_create_cb_modifies}
use sweetcomb.Interface.OpenConfig.{oc_interfaces_config_cb}
use sweetcomb.Interface.OpenConfig.Laws.{
  Creates, oc_interfaces_config_cb-ietf, oc_interfaces_config_cb-deletion,
}
use sweetcomb.Examples.World.{node_of, sysrepo_with, log_vom, val}

abbrev pub name_node : Val
name_node = val (codes "interface/name") string_t (codes "eth0") 0 false

abbrev pub type_node : Val
type_node = val (codes "interface/type") identityref_t (codes "iana-if-type:ethernetCsmacd") 0 false

abbrev pub garbage : Garbage
garbage = record { create = false; remove = true; modify = false; m_state = false }

abbrev created_node : List Change
created_node = creation name_node ∷ []

oc_interfaces_config_cb-ietf_example :
    oc_interfaces_config_cb
      (sysrepo_with created_node)
      log_vom
      true
      (some (codes "config"))
      verify
      garbage
      []
    ≡ ietf_interface_create_cb
        (sysrepo_with created_node)
        log_vom
        (codes "config")
        verify
        garbage
        []
oc_interfaces_config_cb-ietf_example =
    oc_interfaces_config_cb-ietf (sysrepo_with created_node) log_vom (codes "config") garbage []
      refl
      (
        record {
          val = name_node;
          is_new = refl;
          sets = inl refl;
          if_name = codes "eth0";
          named = refl;
          full = refl;
        },
        tt,
      )

abbrev created_and_deleted : List Change
created_and_deleted = creation name_node ∷ deletion type_node ∷ []

abbrev named_creation : (cs : List Change) → Creates (sysrepo_with cs) log_vom (creation name_node)
named_creation cs = (
  record {
    val = name_node;
    is_new = refl;
    sets = inl refl;
    if_name = codes "eth0";
    named = refl;
    full = refl;
  },
  refl,
)

oc_interfaces_config_cb-deletion_example :
    oc_interfaces_config_cb
      (sysrepo_with created_and_deleted)
      log_vom
      true
      (some (codes "config"))
      verify
      garbage
      []
    ≡ (fault null_deref, record { om = []; iter = live })
oc_interfaces_config_cb-deletion_example =
    oc_interfaces_config_cb-deletion (sysrepo_with created_and_deleted) log_vom (codes "config")
      garbage [] (creation name_node ∷ []) type_node [] refl refl
      (named_creation created_and_deleted, tt)

abbrev enabling : Bool → Change
enabling b = record {
  oper = modified;
  old_val = none;
  new_val = some (val (codes "interface/enabled") bool_t [] 0 b);
}

abbrev enabled_twice : Sysrepo
enabled_twice = sysrepo_with (enabling false ∷ enabling true ∷ [])

enabling-Enables : (b : Bool) → Enables enabled_twice (enabling b) (codes "eth0") b
unfolding node_of text_eq
enabling-Enables b = record {
  val = val (codes "interface/enabled") bool_t [] 0 b;
  is_modified = refl;
  is_new = refl;
  enabled_node = refl;
  named = refl;
  is_state = refl;
}

ietf_interface_create_cb_modifies_example :
    ietf_interface_create_cb enabled_twice log_vom (codes "interface") verify garbage []
    ≡ (value ok, record { om = codes "eth0" ∷ []; iter = freed })
unfolding set_states
ietf_interface_create_cb_modifies_example =
    ietf_interface_create_cb_modifies enabled_twice log_vom (codes "interface") garbage []
      (enabling false) (enabling true ∷ []) (codes "eth0") false ((codes "eth0", true) ∷ []) refl
      refl refl (enabling-Enables false) (enabling-Enables true, tt)
