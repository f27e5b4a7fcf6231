-- ===== src/State/Statistics.antt =====
-- `interface_statistics_cb` of src/plugins/ietf/ietf_interface.cpp.
pub mod Laws
use sweetcomb.Prelude.{ℕ, Text, codes, Option, none, some, ◌++◌, is_empty, if◌then◌else◌}
use sweetcomb.Prelude.Outcome.{Outcome, value, fault, null_deref, ◌>>=◌}
use sweetcomb.Sysrepo.{SrError, ok, inval_arg, is_ok, Sysrepo}
use sweetcomb.Vom.{Vom}
use sweetcomb.State.Values.{
  uint64_data, Filling, new_buffer, put, Reply, untouched, nothing, replies,
}

-- The counters of `VOM::interface::stats_t` that the callback reads.
pub record Stats : Type 0 where
  pub rx_bytes : ℕ
  pub rx_unicast_packets : ℕ
  pub rx_broadcast_packets : ℕ
  pub rx_multicast_packets : ℕ
  pub tx_bytes : ℕ
  pub tx_unicast_packets : ℕ
  pub tx_broadcast_packets : ℕ
  pub tx_multicast_packets : ℕ

unfoldable pub put_stats : Text → Stats → Filling → Outcome Filling
put_stats xpath stats s₀ = do
  s₁ ← put (xpath ++ codes "/in-octets") (uint64_data stats.rx_bytes) s₀
  s₂ ← put (xpath ++ codes "/in-unicast-pkts") (uint64_data stats.rx_unicast_packets) s₁
  s₃ ← put (xpath ++ codes "/in-broadcast-pkts") (uint64_data stats.rx_broadcast_packets) s₂
  s₄ ← put (xpath ++ codes "/in-multicast-pkts") (uint64_data stats.rx_multicast_packets) s₃
  s₅ ← put (xpath ++ codes "/out-octets") (uint64_data stats.tx_bytes) s₄
  s₆ ← put (xpath ++ codes "/out-unicast-pkts") (uint64_data stats.tx_unicast_packets) s₅
  s₇ ← put (xpath ++ codes "/out-broadcast-pkts") (uint64_data stats.tx_broadcast_packets) s₆
  put (xpath ++ codes "/out-multicast-pkts") (uint64_data stats.tx_multicast_packets) s₇

module _ {W I P A : Type 0} (R : Sysrepo) (V : Vom W I P A) (get_stats : I → Stats) where
  -- What is answered for the interface that VOM finds.
  unfoldable pub answer_stats : Text → Option I → Outcome (SrError × Reply)
  answer_stats xpath none = value (ok, nothing)
  answer_stats xpath (some interface) =
      let rc = R.new_values 8 in
      if is_ok rc
      then replies ok
          (put_stats xpath (get_stats interface) (record { buffer = new_buffer 8; cnt = 0 }))
      else value (rc, nothing)

  -- A null pointer for the key is assigned to a `std::string`.
  unfoldable pub interface_statistics_cb : Text → W → Outcome (SrError × Reply)
  interface_statistics_cb xpath w = elim (R.key_value xpath (codes "interface") (codes "name")) [
    | none ↦ fault null_deref
    | some intf_name ↦
        if is_empty intf_name
        then value (inval_arg, untouched)
        else answer_stats xpath (V.find intf_name w)
  ]
