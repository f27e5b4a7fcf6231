-- ===== src/State/Interfaces.antt =====
-- `ietf_interface_state_cb` of src/plugins/ietf/ietf_interface.cpp.
pub mod Laws
pub mod Types
use sweetcomb.Prelude.{
  ℕ, zero, suc, ◌+◌, ◌-◌, ◌*◌, ◌/◌, ◌%◌, ◌^◌, Bool, true, false, Text, codes, List, [], ◌∷◌, ◌++◌,
  length, ltb, ◌==◌, if◌then◌else◌,
}
use sweetcomb.Prelude.Int.{ℤ, to_int32}
use sweetcomb.Prelude.Outcome.{Outcome, value, fault, int_overflow, ◌>>=◌}
use sweetcomb.Sysrepo.{SrError, ok, is_ok, Sysrepo, string_t, enum_t}
use sweetcomb.State.Values.{
  Datum, str_data, uint64_data, int32_data, Filling, new_buffer, put, Reply, nothing, replies,
}
use sweetcomb.State.Dump.{Mac, Details, Vpp, dump_all, issue}

-- The `%02x` of a byte.
abbrev pub hex_digit : ℕ → ℕ
hex_digit n = if ltb n 10 then b'0' + n else b'a' + (n - 10)

unfoldable pub hex2 : ℕ → Text
hex2 n = hex_digit (n / 16 % 16) ∷ hex_digit (n % 16) ∷ []

-- `"%02x:%02x:%02x:%02x:%02x:%02x"`
unfoldable pub phys_address : Mac → Text
phys_address a =
    hex2 a.m0
    ++ b':' ∷ hex2 a.m1
    ++ b':' ∷ hex2 a.m2
    ++ b':' ∷ hex2 a.m3
    ++ b':' ∷ hex2 a.m4
    ++ b':' ∷ hex2 a.m5

-- `"%s[name='%s']/<leaf>"`
abbrev pub leaf_of : Text → Text → Text → Text
leaf_of xpath name leaf = xpath ++ codes "[name='" ++ name ++ codes "']/" ++ leaf

-- `n ? "up" : "down"`
abbrev pub up_or_down : ℕ → Text
up_or_down n = if n == 0 then codes "down" else codes "up"

-- The body of the loop over the interfaces.
unfoldable pub put_interface : Text → Details → Filling → Outcome Filling
put_interface xpath interface s₀ = do
  let leaf = leaf_of xpath interface.interface_name
  s₁ ← put (leaf (codes "admin-status")) (str_data enum_t (up_or_down interface.flags)) s₀
  s₂ ← put (leaf (codes "oper-status")) (str_data enum_t (up_or_down interface.link_duplex)) s₁
  s₃ ← put (leaf (codes "phys-address")) (str_data string_t (phys_address interface.l2_address)) s₂
  s₄ ← put (leaf (codes "if-index")) (int32_data (to_int32 interface.sw_if_index)) s₃
  put (leaf (codes "speed")) (uint64_data interface.link_speed) s₄

unfoldable pub put_interfaces : Text → List Details → Filling → Outcome Filling
put_interfaces xpath [] s = value s
put_interfaces xpath (d ∷ dump) s = put_interface xpath d s >>= put_interfaces xpath dump

-- `(interface_num + 1) * vc`, which is computed in `int`
unfoldable pub values_wanted : ℕ → Outcome ℕ
values_wanted interface_num =
    if ltb ((interface_num + 1) * 6) (2 ^ 31)
    then value ((interface_num + 1) * 6)
    else fault int_overflow

unfoldable pub ietf_interface_state_cb : Sysrepo → Vpp → Text → Outcome (SrError × Reply)
ietf_interface_state_cb R vpp xpath =
    if R.node_name_eq xpath (codes "interface")
    then (do
      dump ← issue vpp dump_all
      n ← values_wanted (length dump)
      let rc = R.new_values n
      if is_ok rc
          then replies ok (put_interfaces xpath dump (record { buffer = new_buffer n; cnt = 0 }))
          else value (rc, nothing))
    else value (ok, nothing)
