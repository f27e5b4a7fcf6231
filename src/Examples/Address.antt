-- ===== src/Examples/Address.antt =====
-- Addresses of an interface.
use sweetcomb.Prelude.{ℕ, Text, codes, text_eq, is_empty, false, List, [], ◌∷◌, ◌≡◌, refl, inr}
use sweetcomb.Prelude.Outcome.{value}
use sweetcomb.Decimal.{show}
use sweetcomb.Sysrepo.{ok, enabled, string_t, list_t, uint8_t, Change}
use sweetcomb.Callback.{freed}
use sweetcomb.Interface.Changes.{creation}
use sweetcomb.Interface.Address.{
  l3_key, ipv46_config_add_remove, ietf_interface_ipv46_address_change_cb,
}
use sweetcomb.Interface.Address.Laws.{
  AddressNodes, IsAddress, nodes_of, config_all, ietf_interface_ipv46_address_change_cb_creates,
}
use sweetcomb.Examples.World.{
  node_of, sysrepo_with, sysrepo_with-NamesNodes, log_vom, texts_as_addresses, quad_255_255_240_0,
  val,
}

abbrev pub address_of : Text → ℕ → AddressNodes
address_of a n = record {
  item = val (codes "ipv4/address") list_t [] 0 false;
  ip = val (codes "address/ip") string_t a 0 false;
  length = val (codes "address/prefix-length") uint8_t [] n false;
}

abbrev pub two_addresses : List AddressNodes
two_addresses = address_of (codes "10.0.0.1") 24 ∷ address_of (codes "10.1.0.1") 16 ∷ []

pub address_of-IsAddress :
    (cs : List Change) (a : Text) (n : ℕ)
    → is_empty a ≡ false
    → IsAddress (sysrepo_with cs) (codes "eth0") (address_of a n)
unfolding node_of text_eq
address_of-IsAddress cs a n full = record {
  item_in = refl;
  ip_in = refl;
  length_in = refl;
  item_list = refl;
  ip_string = λ e. cc;
  length_number = λ e. cc;
  ip_name = refl;
  length_name = refl;
  full = full;
}

ietf_interface_ipv46_address_change_cb_creates_example :
    ietf_interface_ipv46_address_change_cb
      (sysrepo_with (nodes_of creation two_addresses))
      (texts_as_addresses quad_255_255_240_0)
      log_vom
      (codes "address")
      enabled
      []
    ≡ (
      value ok,
      record {
        om =
            codes "l3_eth0_10.1.0.1/16"
            ∷ codes "l3_eth0_10.1.0.1/24"
            ∷ codes "l3_eth0_10.0.0.1/24"
            ∷ codes "l3_eth0_10.0.0.1/0"
            ∷ [];
        iter = freed;
      },
    )
unfolding config_all ipv46_config_add_remove l3_key show
ietf_interface_ipv46_address_change_cb_creates_example =
    ietf_interface_ipv46_address_change_cb_creates (sysrepo_with (nodes_of creation two_addresses))
      (texts_as_addresses quad_255_255_240_0) log_vom (codes "eth0")
      (sysrepo_with-NamesNodes (nodes_of creation two_addresses)) refl (codes "address") enabled []
      two_addresses (inr refl) refl refl
      (
        address_of-IsAddress (nodes_of creation two_addresses) (codes "10.0.0.1") 24 refl,
        (address_of-IsAddress (nodes_of creation two_addresses) (codes "10.1.0.1") 16 refl, tt),
      )
