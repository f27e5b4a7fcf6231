-- ===== src/Handlers.antt =====
-- The configuration callbacks of src/plugins/ietf and src/plugins/openconfig together, on the state
-- that they share: VOM, and the table of static mappings of ietf_nat.cpp.
pub mod Mirror
pub mod Events
pub mod Collision
pub mod Commit
use sweetcomb.Prelude.{Bool, Text, Option, List, [], ◌∷◌}
use sweetcomb.Prelude.Outcome.{Outcome, value, ◌>>=◌}
use sweetcomb.Sysrepo.{SrError, Event, Sysrepo}
use sweetcomb.Callback.{Env}
use sweetcomb.Vom.{Vom}
use sweetcomb.SysUtil.{Addresses}
use sweetcomb.Interface.Create.{Garbage, ietf_interface_create_cb}
use sweetcomb.Interface.Address.{ietf_interface_ipv46_address_change_cb}
use sweetcomb.Interface.OpenConfig.{oc_interfaces_config_cb}
use sweetcomb.Nat.Config.{NatState, NatGarbage, nat_instance_config_cb, nat_mapping_table_config_cb}

-- A call by sysrepo of one of the callbacks, with its arguments, sysrepo's answers during the call,
-- and what the variables without an initialiser hold on entry.
pub data Call : Type 0 where
  calls_interface_create : Sysrepo → Text → Event → Garbage → Call
  calls_interface_address : Sysrepo → Text → Event → Call
  calls_oc_config : Sysrepo → Bool → Option Text → Event → Garbage → Call
  calls_nat_instance : Event → Call
  calls_nat_mapping_table : Sysrepo → Bool → Option Text → Event → NatGarbage → Call

module _ {W I P A : Type 0} (B : Addresses A) (V : Vom W I P A) where
  -- The callbacks for interfaces do not see the table.
  abbrev pub with_table : NatState W A → Outcome SrError × Env W → Outcome SrError × NatState W A
  with_table st r = (r.0, record st { vom = r.1.om })

  unfoldable pub handle : Call → NatState W A → Outcome SrError × NatState W A
  handle (calls_interface_create R xpath event g) st =
      with_table st (ietf_interface_create_cb R V xpath event g st.vom)
  handle (calls_interface_address R xpath event) st =
      with_table st (ietf_interface_ipv46_address_change_cb R B V xpath event st.vom)
  handle (calls_oc_config R ds xpath event g) st =
      with_table st (oc_interfaces_config_cb R V ds xpath event g st.vom)
  handle (calls_nat_instance event) st = let r = nat_instance_config_cb event st in (r.0, r.1.om)
  handle (calls_nat_mapping_table R ds xpath event g) st =
      let r = nat_mapping_table_config_cb B V R ds xpath event g st in (r.0, r.1.om)

  -- One call after the other; a fault ends the process.
  unfoldable pub handle_all : List Call → NatState W A → Outcome (NatState W A)
  handle_all [] st = value st
  handle_all (c ∷ cs) st = (handle c st).0 >>= λ rc. handle_all cs (handle c st).1
