-- ===== src/Handlers/Commit.antt =====
-- One commit that creates an interface and its addresses: sysrepo calls
-- `ietf_interface_create_cb`, whose priority is the higher one, and then
-- `ietf_interface_ipv46_address_change_cb`.
use sweetcomb.Prelude.{
  ◌≡◌, refl, true, false, Text, codes, is_empty, some, List, [], ◌∷◌, All, map, inl,
}
use sweetcomb.Prelude.Outcome.{value}
use sweetcomb.Sysrepo.{ok, verify, Val, Sysrepo, NamesNodes}
use sweetcomb.Vom.{Vom, Obj, interface_obj, KeepsObjects, FindsInterfaces}
use sweetcomb.SysUtil.{Addresses}
use sweetcomb.Interface.Changes.{creation, last_val, last_or, has_value}
use sweetcomb.Interface.Create.{Garbage}
use sweetcomb.Interface.Create.Laws.{ietf_interface_create_cb_creates}
use sweetcomb.Interface.Address.Laws.{
  AddressNodes, IsAddress, nodes_of, config_all, ietf_interface_ipv46_address_change_cb_creates,
}
use sweetcomb.Interface.Address.Binds.{HoldsInterface, IsReadable, IsBound, AddsAll, nodes-AddsAll}
use sweetcomb.Nat.Config.{NatState}
use sweetcomb.Handlers.{calls_interface_create, calls_interface_address, handle, handle_all}

module _ {W I P A : Type 0} (B : Addresses A) (V : Vom W I P A)
    (Holds : W → Text → Obj I P A → Type 0) where
  -- If VOM keeps what is written and finds the interfaces that it holds, and VPP accepts every
  -- write: on
  -- SR_EV_VERIFY, when the change iterators can be had and an xpath has one node name, one commit
  -- that creates an interface and its addresses. If the last name of its nodes is not empty and a
  -- type node has the Ethernet type, and each address, not empty, is reported as its list item,
  -- its address and its length, and can be read with that length: the callback for interfaces,
  -- and behind it the one for addresses, end without a fault, whatever the memory held, and then
  -- VOM holds an interface of that name, and each address with its own length, bound to that
  -- interface. The table of mappings stays as it is.
  pub handle_all-IsBound :
      (R : Sysrepo) (xpath xpath' : Text) (g : Garbage) (st : NatState W A) (vs : List Val)
      (v : Val) (nodes : List AddressNodes)
      → KeepsObjects V Holds
      → FindsInterfaces V Holds
      → ((k : Text) (o : Obj I P A) (w : W) → (V.write k o w).0 ≡ true)
      → NamesNodes R
      → R.get_changes_iter xpath ≡ ok
      → R.get_changes_iter xpath' ≡ ok
      → R.changes xpath ≡ map creation vs
      → last_val R (codes "name") vs ≡ some v
      → is_empty v.string_val ≡ false
      → has_value R (codes "type") (codes "iana-if-type:ethernetCsmacd") vs ≡ true
      → R.changes xpath' ≡ nodes_of creation nodes
      → All (IsAddress R v.string_val) nodes
      → All (IsReadable V) nodes
      → (i : I) × (st' : NatState W A) × (handle_all B V
            (calls_interface_create R xpath verify g ∷ calls_interface_address R xpath' verify ∷ [])
            st
          ≡ value st')
        × (V.name i ≡ v.string_val)
        × HoldsInterface V Holds i st'.vom
        × All (IsBound V Holds i st'.vom) nodes
        × (st'.static_mapping_table ≡ st.static_mapping_table)
  unfolding handle handle_all
  handle_all-IsBound R xpath xpath' g st vs v nodes K F accepts N got got' set named full typed set'
        h readable =
      let state = last_or (λ u. u.bool_val) (last_val R (codes "enabled") vs) g.m_state in
      let made = V.make_interface v.string_val (codes "ETHERNET") state st.vom in
      let i = made.0 in
      let w = (V.write (V.key i) (interface_obj i) made.1).1 in
      let accepted = accepts (V.key i) (interface_obj i) made.1 in
      let name = F.made_name v.string_val (codes "ETHERNET") state st.vom in
      let creates =
        ietf_interface_create_cb_creates R V xpath g st.vom vs v N got set named full typed in
      let adds =
        ietf_interface_ipv46_address_change_cb_creates R B V v.string_val N full xpath' verify w
          nodes (inl refl) got' set' h in
      let held = K.written (V.key i) (interface_obj i) made.1 accepted in
      let all : AddsAll V Holds K F accepts i 0 ok nodes w =
        nodes-AddsAll V Holds K F accepts i 0 ok nodes w held readable in
      (
        i,
        record st { vom = (config_all V (V.name i) true 0 ok nodes w).1 },
        rw (name, creates, adds) refl,
        name,
        all.keeps_interface,
        all.binds,
        refl,
      )
