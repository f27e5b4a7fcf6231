-- ===== src/Examples/State.antt =====
-- State callbacks on a VPP with two interfaces.
use sweetcomb.Prelude.{
  ℕ, ◌<◌, ◌≡◌, ◌≢◌, ◌↔◌, refl, true, Text, codes, text_eq, some, List, [], ◌∷◌, arith,
}
use sweetcomb.Prelude.Outcome.{value}
use sweetcomb.Sysrepo.{SrError, ok}
use sweetcomb.State.Values.{Buffer, Reply, answer}
use sweetcomb.State.Values.Laws.{Holds}
use sweetcomb.State.Dump.{Mac, Details, Vpp}
use sweetcomb.State.Interfaces.{ietf_interface_state_cb, phys_address, hex2}
use sweetcomb.State.Interfaces.Laws.{all_values, ietf_interface_state_cb_answers}
use sweetcomb.State.Statistics.{Stats, interface_statistics_cb}
use sweetcomb.State.Statistics.Laws.{StatsAnswer, interface_statistics_cb_answers}
use sweetcomb.State.OpenConfig.{oc_interfaces_state_cb}
use sweetcomb.State.OpenConfig.Laws.{oc_interfaces_state_cb_returns_iff}
use sweetcomb.Examples.World.{node_of, sysrepo_with, log_vom}

abbrev mac : Mac
mac = record { m0 = 2; m1 = 254; m2 = 0; m3 = 16; m4 = 175; m5 = 9 }

mac_as_text : phys_address mac ≡ codes "02:fe:00:10:af:09"
unfolding phys_address hex2
mac_as_text = refl

abbrev pub details : Text → ℕ → Details
details name i = record {
  interface_name = name;
  flags = 1;
  link_duplex = 0;
  l2_address = mac;
  sw_if_index = i;
  link_speed = 1000;
  link_mtu = 66000;
}

abbrev pub two_interfaces : List Details
two_interfaces = details (codes "eth0") 1 ∷ details (codes "eth1") 4294967295 ∷ []

abbrev pub vpp : Vpp
vpp = record { name_filter_size = 64; interfaces = λ r. two_interfaces }

ietf_interface_state_cb_answers_example :
    (b : Buffer) × (ietf_interface_state_cb (sysrepo_with []) vpp (codes "/x/interface")
      ≡ value (ok, answer b 10))
    × (b.capacity ≡ 18)
    × Holds b 0 (all_values (codes "/x/interface") two_interfaces)
unfolding node_of text_eq
ietf_interface_state_cb_answers_example =
    ietf_interface_state_cb_answers (sysrepo_with []) vpp (codes "/x/interface") refl (omega arith)
      refl

abbrev stats : Stats
stats = record {
  rx_bytes = 1;
  rx_unicast_packets = 2;
  rx_broadcast_packets = 3;
  rx_multicast_packets = 4;
  tx_bytes = 5;
  tx_unicast_packets = 6;
  tx_broadcast_packets = 7;
  tx_multicast_packets = 8;
}

interface_statistics_cb_answers_example :
    (r : SrError × Reply) × (interface_statistics_cb
        (sysrepo_with [])
        log_vom
        (λ i. stats)
        (codes "/x")
        []
      ≡ value r)
    × StatsAnswer (λ i. stats) (codes "/x") ok (some (codes "eth0")) r
interface_statistics_cb_answers_example =
    interface_statistics_cb_answers (sysrepo_with []) log_vom (λ i. stats) (codes "/x")
      (codes "eth0") [] refl refl

oc_interfaces_state_cb_returns_iff_example :
    ((r : SrError × Reply) × (oc_interfaces_state_cb
          (sysrepo_with [])
          vpp
          (some (codes "/x"))
          true
          true
        ≡ value r))
    ↔ ((4 < 64) × (two_interfaces ≢ []))
oc_interfaces_state_cb_returns_iff_example =
    oc_interfaces_state_cb_returns_iff (sysrepo_with []) vpp (codes "/x") (codes "eth0") refl refl
      refl
