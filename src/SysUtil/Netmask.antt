-- ===== src/SysUtil/Netmask.antt =====
-- `utils::netmask_to_plen` of src/plugins/sys_util.h.
pub mod Laws
use sweetcomb.Prelude.{
  ℕ, zero, suc, ◌+◌, ◌-◌, ◌*◌, ◌/◌, ◌%◌, ◌^◌, Text, Option, none, some, ltb, if◌then◌else◌,
}
use sweetcomb.Prelude.Outcome.{
  Outcome, value, throws, fault, bad_family, bad_netmask, stack_overrun, out_of_fuel, ◌>>=◌,
}
use sweetcomb.SysUtil.{Addresses, Quad}

-- `in_addr_t n` after `inet_pton`, on the little-endian hosts that VPP runs on.
abbrev pub load_le : Quad → ℕ
load_le q = q.b0 + q.b1 * 2 ^ 8 + q.b2 * 2 ^ 16 + q.b3 * 2 ^ 24

-- `while (n > 0) { n = n >> 1; i++; }` with a `uint8_t` counter; `none` if the fuel runs out.
unfoldable pub shift_out : ℕ → ℕ → ℕ → Option ℕ
shift_out zero n i = none
shift_out (suc f) n i =
    let rest = shift_out f (n / 2) ((i + 1) % 2 ^ 8) in if ltb 0 n then rest else some i

-- `n` has 32 bits, so that 33 rounds end the loop.
abbrev pub loop_fuel : ℕ
loop_fuel = 33

-- The loop's answer for the bytes that `inet_pton` writes.
unfoldable pub plen_of : Quad → Option ℕ
unfolding shift_out
plen_of q = shift_out loop_fuel (load_le q) 0

module _ {A : Type 0} (B : Addresses A) where
  -- For IPv6, `inet_pton` writes sixteen bytes over the four of `n`.
  unfoldable pub netmask_to_plen : A → Outcome ℕ
  netmask_to_plen netmask =
      if B.is_v4 netmask
      then (elim (B.inet_pton4 (B.to_string netmask)) [
        | none ↦ throws bad_netmask
        | some q ↦ (elim (plen_of q) [ none ↦ fault out_of_fuel | some i ↦ value i ])
      ])
      else if B.is_v6 netmask
      then (if B.inet_pton6 (B.to_string netmask) then fault stack_overrun else throws bad_netmask)
      else throws bad_family
