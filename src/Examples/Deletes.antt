-- ===== src/Examples/Deletes.antt =====
-- Addresses that are deleted, and prefix lengths that are modified.
use sweetcomb.Prelude.{ℕ, codes, text_eq, false, List, [], ◌∷◌, map, All, ◌≡◌, refl, inl, inr}
use sweetcomb.Prelude.Outcome.{value}
use sweetcomb.Sysrepo.{ok, verify, uint8_t, Val}
use sweetcomb.Callback.{freed}
use sweetcomb.Vom.{interface_obj, l3_obj}
use sweetcomb.Interface.Changes.{deletion}
use sweetcomb.Interface.Address.{ietf_interface_ipv46_address_change_cb}
use sweetcomb.Interface.Address.Laws.{IsAddress, nodes_of}
use sweetcomb.Interface.Address.Lengths.{
  IsLength, modification, ietf_interface_ipv46_address_change_cb_drops_lengths,
}
use sweetcomb.Interface.Address.Clears.{Cleared, ietf_interface_ipv46_address_change_cb_clears}
use sweetcomb.Examples.World.{
  node_of, sysrepo_with, sysrepo_with-NamesNodes, log_vom, texts_as_addresses, quad_255_255_240_0,
  val,
}
use sweetcomb.Examples.Address.{address_of-IsAddress, two_addresses}
use sweetcomb.Examples.Mirror.{Objects, HeldIn, addresses}
use sweetcomb.Examples.Searching.{
  searching_vom, searching_vom-Forgets, searching_vom-KeepsObjects, searching_vom-FindsInterfaces,
}

both-IsAddress :
    All (IsAddress (sysrepo_with (nodes_of deletion two_addresses)) (codes "eth0")) two_addresses
both-IsAddress = (
  address_of-IsAddress (nodes_of deletion two_addresses) (codes "10.0.0.1") 24 refl,
  (address_of-IsAddress (nodes_of deletion two_addresses) (codes "10.1.0.1") 16 refl, tt),
)

abbrev length_val : ℕ → Val
length_val n = val (codes "address/prefix-length") uint8_t [] n false

abbrev lengthening : List (Val × Val)
lengthening = (length_val 24, length_val 25) ∷ []

length_val-IsLength :
    (n : ℕ) → IsLength (sysrepo_with (map modification lengthening)) (length_val n)
unfolding node_of text_eq
length_val-IsLength n = record { number = λ e. cc; length_name = refl }

ietf_interface_ipv46_address_change_cb_drops_lengths_example :
    ietf_interface_ipv46_address_change_cb
      (sysrepo_with (map modification lengthening))
      (texts_as_addresses quad_255_255_240_0)
      log_vom
      (codes "address")
      verify
      (codes "l3_eth0_10.0.0.1/24" ∷ [])
    ≡ (value ok, record { om = codes "l3_eth0_10.0.0.1/24" ∷ []; iter = freed })
ietf_interface_ipv46_address_change_cb_drops_lengths_example =
    ietf_interface_ipv46_address_change_cb_drops_lengths
      (sysrepo_with (map modification lengthening)) (texts_as_addresses quad_255_255_240_0) log_vom
      (codes "eth0") (sysrepo_with-NamesNodes (map modification lengthening)) refl (codes "address")
      verify (codes "l3_eth0_10.0.0.1/24" ∷ []) lengthening (inl refl) refl refl
      ((refl, length_val-IsLength 24, length_val-IsLength 25), tt)

abbrev with_address : Objects
with_address =
    (codes "l3_eth0_10.1.0.1/16", l3_obj (codes "eth0") (codes "10.1.0.1/16"))
    ∷ (codes "eth0", interface_obj (codes "eth0"))
    ∷ []

ietf_interface_ipv46_address_change_cb_clears_example :
    All
      (Cleared searching_vom HeldIn
        (codes "eth0")
        (ietf_interface_ipv46_address_change_cb
          (sysrepo_with (nodes_of deletion two_addresses))
          addresses
          searching_vom
          (codes "address")
          verify
          with_address).1.om)
      two_addresses
ietf_interface_ipv46_address_change_cb_clears_example =
    ietf_interface_ipv46_address_change_cb_clears searching_vom HeldIn searching_vom-Forgets
      searching_vom-KeepsObjects searching_vom-FindsInterfaces (λ i. refl) (codes "eth0")
      (sysrepo_with (nodes_of deletion two_addresses)) addresses (codes "address") verify
      with_address two_addresses (sysrepo_with-NamesNodes (nodes_of deletion two_addresses)) refl
      (inl refl) refl refl both-IsAddress (inr (inl (refl, refl)))
