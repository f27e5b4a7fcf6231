-- ===== src/Examples/Lifetime.antt =====
-- Addresses that are created and then deleted.
use sweetcomb.Prelude.{
  ℕ, is_empty, false, ap, sym, ◌∙◌, drop, text_eq_iff, Text, codes, text_eq, List, [], ◌∷◌, ◌≡◌,
  ◌≢◌, inl, inr, refl, some,
}
use sweetcomb.Decimal.{show}
use sweetcomb.Sysrepo.{verify, Change, Sysrepo}
use sweetcomb.Vom.{interface_obj, l3_obj}
use sweetcomb.Interface.Changes.{creation, deletion}
use sweetcomb.Interface.Address.{l3_key, ietf_interface_ipv46_address_change_cb}
use sweetcomb.Interface.Address.Laws.{AddressNodes, IsAddress, nodes_of}
use sweetcomb.Interface.Address.Roundtrip.{ietf_interface_ipv46_address_change_cb_undone}
use sweetcomb.Interface.Address.Leftover.{ietf_interface_ipv46_address_change_cb_leaves}
use sweetcomb.Examples.World.{node_of, two_change_sets, two_change_sets-NamesNodes}
use sweetcomb.Examples.Address.{address_of, two_addresses}
use sweetcomb.Examples.Mirror.{Objects, HeldIn, addresses}
use sweetcomb.Examples.Searching.{
  searching_vom, searching_vom-Forgets, searching_vom-AddsOne, searching_vom-KeepsObjects,
  searching_vom-FindsInterfaces,
}

abbrev with_interface : Objects
with_interface = (codes "eth0", interface_obj (codes "eth0")) ∷ []

abbrev first_address : AddressNodes
first_address = address_of (codes "10.0.0.1") 24

abbrev second_address : AddressNodes
second_address = address_of (codes "10.1.0.1") 16

abbrev all_deleted : Sysrepo
all_deleted = two_change_sets (nodes_of creation two_addresses) (nodes_of deletion two_addresses)

abbrev second_deleted : Sysrepo
second_deleted =
    two_change_sets (nodes_of creation two_addresses) (nodes_of deletion (second_address ∷ []))

pub both_sets-IsAddress :
    (cs ds : List Change) (a : Text) (n : ℕ)
    → is_empty a ≡ false
    → IsAddress (two_change_sets cs ds) (codes "eth0") (address_of a n)
unfolding node_of text_eq
both_sets-IsAddress cs ds a n full = record {
  item_in = refl;
  ip_in = refl;
  length_in = refl;
  item_list = refl;
  ip_string = λ e. cc;
  length_number = λ e. cc;
  ip_name = refl;
  length_name = refl;
  full = full;
}

not_held :
    ¬ HeldIn with_interface
      (codes "l3_eth0_10.1.0.1/24")
      (l3_obj (codes "eth0") (codes "10.1.0.1/24"))
not_held (inl (e, f)) = absurd cc
not_held (inr h) = h

ietf_interface_ipv46_address_change_cb_undone_example :
    (let cb = ietf_interface_ipv46_address_change_cb all_deleted addresses searching_vom in
      ¬ HeldIn
        (cb (codes "second") verify (cb (codes "first") verify with_interface).1.om).1.om
        (codes "l3_eth0_10.1.0.1/24")
        (l3_obj (codes "eth0") (codes "10.1.0.1/24")))
unfolding text_eq
ietf_interface_ipv46_address_change_cb_undone_example =
    ietf_interface_ipv46_address_change_cb_undone searching_vom HeldIn searching_vom-Forgets
      searching_vom-AddsOne searching_vom-KeepsObjects searching_vom-FindsInterfaces (λ i. refl)
      (codes "eth0") all_deleted addresses (codes "first") (codes "second") verify with_interface
      two_addresses
      (two_change_sets-NamesNodes (nodes_of creation two_addresses)
        (nodes_of deletion two_addresses))
      refl (inl refl) refl refl refl refl
      (
        both_sets-IsAddress _ _ (codes "10.0.0.1") 24 refl,
        (both_sets-IsAddress _ _ (codes "10.1.0.1") 16 refl, tt),
      )
      (inl (refl, refl)) (codes "l3_eth0_10.1.0.1/24") (l3_obj (codes "eth0") (codes "10.1.0.1/24"))
      not_held

other_key :
    (q r : Text)
    → text_eq (codes "10.1.0.1/24") r ≡ false
    → some r ≡ some q
    → l3_key searching_vom (codes "eth0") (codes "10.1.0.1/24")
      ≢ l3_key searching_vom (codes "eth0") q
unfolding l3_key
other_key q r other e same =
    let at : codes "10.1.0.1/24" ≡ q = ap (drop 8) same in
    let it : r ≡ q = cc in let equal = (text_eq_iff (codes "10.1.0.1/24") r).1 (at ∙ sym it) in cc

-- The second address stays, as 10.1.0.1/24.
ietf_interface_ipv46_address_change_cb_leaves_example :
    (let cb = ietf_interface_ipv46_address_change_cb second_deleted addresses searching_vom in
      HeldIn
        (cb (codes "second") verify (cb (codes "first") verify with_interface).1.om).1.om
        (codes "l3_eth0_10.1.0.1/24")
        (l3_obj (codes "eth0") (codes "10.1.0.1/24")))
unfolding l3_key text_eq show
ietf_interface_ipv46_address_change_cb_leaves_example =
    ietf_interface_ipv46_address_change_cb_leaves searching_vom HeldIn searching_vom-Forgets
      searching_vom-AddsOne searching_vom-KeepsObjects searching_vom-FindsInterfaces (λ i. refl)
      (λ k o w. refl) (codes "eth0") (codes "10.1.0.1/24") first_address second_address refl
      (λ q. other_key q (codes "10.1.0.1/0") refl) (λ q. other_key q (codes "10.1.0.1/16") refl)
      second_deleted addresses (codes "first") (codes "second") verify with_interface
      (two_change_sets-NamesNodes (nodes_of creation two_addresses)
        (nodes_of deletion (second_address ∷ [])))
      refl (inl refl) refl refl refl refl (both_sets-IsAddress _ _ (codes "10.0.0.1") 24 refl)
      (both_sets-IsAddress _ _ (codes "10.1.0.1") 16 refl) (inl (refl, refl))
