-- ===== src/State/OpenConfig.antt =====
-- `oc_interfaces_state_cb` of src/plugins/openconfig/openconfig_interfaces.cpp.
pub mod Laws
pub mod Types
use sweetcomb.Prelude.{
  ℕ, zero, suc, ◌%◌, ◌^◌, Bool, true, false, not, Text, codes, Option, none, some, List, [], ◌∷◌,
  ◌++◌, take, is_empty, ◌==◌, if◌then◌else◌,
}
use sweetcomb.Prelude.Outcome.{Outcome, value, fault, null_deref, empty_deref, ◌>>=◌}
use sweetcomb.Sysrepo.{SrError, ok, inval_arg, is_ok, Sysrepo, string_t, identityref_t, enum_t}
use sweetcomb.State.Values.{
  str_data, bool_data, uint16_data, uint32_data, Filling, new_buffer, put, Reply, untouched,
  replies,
}
use sweetcomb.State.Dump.{Details, Vpp, dump_one, issue}

-- `XPATH_SIZE` of src/plugins/sys_util.h
abbrev pub xpath_size : ℕ
xpath_size = 2000

-- `snprintf` into an array of this size: the text is cut to leave room for the final 0.
unfoldable pub snprintf : ℕ → Text → Text
snprintf zero s = []
snprintf (suc n) s = take n s

unfoldable pub xpath_root : Text → Text
xpath_root intf_name =
    snprintf xpath_size
      (codes "/openconfig-interfaces:interfaces/interface[name='" ++ intf_name ++ codes "']/state")

-- `n ? "UP" : "DOWN"`
abbrev pub up_or_down : ℕ → Text
up_or_down n = if n == 0 then codes "DOWN" else codes "UP"

-- The seven values; the MTU is stored in 16 bits.
unfoldable pub put_reply : Text → Details → Filling → Outcome Filling
put_reply root reply s₀ = do
  s₁ ← put (root ++ codes "/name") (str_data string_t reply.interface_name) s₀
  s₂ ← put (root ++ codes "/type") (str_data identityref_t (codes "ianaift:ethernetCsmacd")) s₁
  s₃ ← put (root ++ codes "/mtu") (uint16_data (reply.link_mtu % 2 ^ 16)) s₂
  s₄ ← put (root ++ codes "/enabled") (bool_data (not (reply.flags == 0))) s₃
  s₅ ← put (root ++ codes "/ifindex") (uint32_data reply.sw_if_index) s₄
  s₆ ← put (root ++ codes "/admin-status") (str_data enum_t (up_or_down reply.flags)) s₅
  put (root ++ codes "/oper-status") (str_data enum_t (up_or_down reply.link_duplex)) s₆

-- `ARG_CHECK3(retval, arg1, arg2, arg3)` of src/plugins/sys_util.h, where the flags say that the
-- pointers are not null, and what follows it in the function
unfoldable pub arg_check3 {ℓ} : {A : Type ℓ} → A → Bool → Bool → Bool → A → A
arg_check3 retval arg1 arg2 arg3 rest =
    if arg1 then (if arg2 then (if arg3 then rest else retval) else retval) else retval

-- `dump->begin()->get_payload()`
unfoldable pub first_payload : List Details → Outcome Details
first_payload [] = fault empty_deref
first_payload (d ∷ dump) = value d

module _ (R : Sysrepo) (vpp : Vpp) where
  unfoldable pub answer_reply : Text → Outcome (SrError × Reply)
  answer_reply intf_name = do
    dump ← issue vpp (dump_one intf_name)
    reply ← first_payload dump
    replies ok (put_reply (xpath_root intf_name) reply (record { buffer = new_buffer 7; cnt = 0 }))

  unfoldable pub answer_named : Text → Outcome (SrError × Reply)
  answer_named intf_name =
      if is_empty intf_name
      then value (inval_arg, untouched)
      else if is_ok (R.new_values 7)
      then answer_reply intf_name
      else value (R.new_values 7, untouched)

  -- The first argument is the xpath; the others say that `values` and `values_cnt` are not null. A
  -- null pointer for the key is assigned to a `std::string`.
  unfoldable pub oc_interfaces_state_cb : Option Text → Bool → Bool → Outcome (SrError × Reply)
  oc_interfaces_state_cb none values values_cnt =
      arg_check3 (value (inval_arg, untouched)) false values values_cnt (fault null_deref)
  oc_interfaces_state_cb (some xpath) values values_cnt =
      arg_check3 (value (inval_arg, untouched)) true values values_cnt
        (elim (R.key_value xpath (codes "interface") (codes "name")) [
          | none ↦ fault null_deref
          | some intf_name ↦ answer_named intf_name
        ])
