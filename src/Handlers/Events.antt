-- ===== src/Handlers/Events.antt =====
-- The configuration callbacks on SR_EV_APPLY and SR_EV_ABORT.
use sweetcomb.Prelude.{◌≡◌, refl, ◌⊎◌, inl, inr, true, false, none, some, Bool-cases, arith}
use sweetcomb.Prelude.Outcome.{value}
use sweetcomb.Sysrepo.{SrError, ok, inval_arg, is_ok, is_ok_eq, Event, apply, abort}
use sweetcomb.Callback.{arg_check, arg_check2, free_iter, open_iter}
use sweetcomb.Vom.{Vom}
use sweetcomb.SysUtil.{Addresses}
use sweetcomb.Interface.Create.{body, ietf_interface_create_cb}
use sweetcomb.Interface.Address.{
  address_loop, visited, address_body, ietf_interface_ipv46_address_change_cb,
}
use sweetcomb.Interface.OpenConfig.{config_body, oc_interfaces_config_cb}
use sweetcomb.Nat.Config.{NatState, nat_instance_config_cb, nat_body, nat_mapping_table_config_cb}
use sweetcomb.Handlers.{
  Call, calls_interface_create, calls_interface_address, calls_oc_config, calls_nat_instance,
  calls_nat_mapping_table, handle,
}

-- The event of a call.
abbrev pub event_of : Call → Event
event_of (calls_interface_create R xpath event g) = event
event_of (calls_interface_address R xpath event) = event
event_of (calls_oc_config R ds xpath event g) = event
event_of (calls_nat_instance event) = event
event_of (calls_nat_mapping_table R ds xpath event g) = event

abbrev pub IsEnd : Event → Type 0
IsEnd e = (e ≡ apply) ⊎ (e ≡ abort)

module _ {W I P A : Type 0} (B : Addresses A) (V : Vom W I P A) where
  -- On SR_EV_APPLY and SR_EV_ABORT every configuration callback returns, and leaves VOM and the
  -- table of mappings as they are: what was written on SR_EV_VERIFY stays when sysrepo aborts the
  -- change.
  pub handle_ends :
      (c : Call) (st : NatState W A)
      → IsEnd (event_of c)
      → (rc : SrError) × (handle B V c st ≡ (value rc, st))
  unfolding handle ietf_interface_create_cb body ietf_interface_ipv46_address_change_cb address_body
      visited address_loop oc_interfaces_config_cb config_body nat_instance_config_cb nat_body
      nat_mapping_table_config_cb open_iter free_iter arg_check arg_check2
  handle_ends (calls_interface_create R xpath event g) st (inl e) = (ok, rw e refl)
  handle_ends (calls_interface_create R xpath event g) st (inr e) = (ok, rw e refl)
  handle_ends (calls_interface_address R xpath event) st (inl e) = (ok, rw e refl)
  handle_ends (calls_interface_address R xpath event) st (inr e) =
      elim (Bool-cases (is_ok (R.get_changes_iter xpath))) [
        | inl good ↦ (ok, rw (e, is_ok_eq (R.get_changes_iter xpath) good) refl)
        | inr bad ↦ (R.get_changes_iter xpath, rw e (ground arith))
      ]
  handle_ends (calls_oc_config R true (some xpath) event g) st (inl e) = (ok, rw e refl)
  handle_ends (calls_oc_config R true (some xpath) event g) st (inr e) = (ok, rw e refl)
  handle_ends (calls_oc_config R true none event g) st h = (inval_arg, refl)
  handle_ends (calls_oc_config R false xpath event g) st h = (inval_arg, refl)
  handle_ends (calls_nat_instance event) st h = (ok, refl)
  handle_ends (calls_nat_mapping_table R true (some xpath) event g) st (inl e) = (ok, rw e refl)
  handle_ends (calls_nat_mapping_table R true (some xpath) event g) st (inr e) = (ok, rw e refl)
  handle_ends (calls_nat_mapping_table R true none event g) st h = (inval_arg, refl)
  handle_ends (calls_nat_mapping_table R false xpath event g) st h = (inval_arg, refl)
