-- ===== src/Interface/Address/Deletes.antt =====
-- What `ietf_interface_ipv46_address_change_cb` removes for deleted addresses, and what it does for
-- prefix lengths that are modified.
use sweetcomb.Prelude.{
  ℕ, Bool, true, false, Text, is_empty, List, [], ◌∷◌, All, ◌≡◌, ◌⊎◌, refl, arith,
}
use sweetcomb.Prelude.Outcome.{value}
use sweetcomb.Sysrepo.{SrError, ok, Event, verify, enabled, Sysrepo, NamesNodes}
use sweetcomb.Callback.{Env, next, live, freed, free_iter, open_iter}
use sweetcomb.Vom.{Vom}
use sweetcomb.SysUtil.{Addresses}
use sweetcomb.Interface.Changes.{deletion}
use sweetcomb.Interface.Address.{
  AddressLocals, no_entry, parse_interface_ipv46_address, parse_old, parse_change, delete_if,
  create_if, address_change, address_loop, visited, address_body, ipv46_config_add_remove,
  ietf_interface_ipv46_address_change_cb,
}
use sweetcomb.Interface.Address.Laws.{
  AddressNodes, IsAddress, nodes_of, config_all, parse_ip, parse_length,
}

module _ {W I P A : Type 0} (R : Sysrepo) (B : Addresses A) (V : Vom W I P A) (if_name : Text)
    (N : NamesNodes R) (named : is_empty if_name ≡ false) where
  -- The variables between two deleted addresses.
  abbrev after_deleted : Text → ℕ → SrError → AddressLocals
  after_deleted addr stale rc = record {
    new_entry = no_entry;
    old_entry = record { addr = addr; prefix = stale };
    op_rc = rc;
    create = false;
    del = true;
  }

  item_deleted :
      (b : Bool) (addr : Text) (stale : ℕ) (rc : SrError) (a : AddressNodes) (s : Env W)
      → IsAddress R if_name a
      → address_change R B V (record (after_deleted addr stale rc) { del = b }) (deletion a.item) s
        ≡ (next (after_deleted [] stale rc), s)
  unfolding address_change parse_change parse_old parse_interface_ipv46_address delete_if create_if
  item_deleted b addr stale rc a s h = rw (h.item_in, named, h.item_list)

  ip_deleted :
      (stale : ℕ) (rc : SrError) (a : AddressNodes) (s : Env W)
      → IsAddress R if_name a
      → (let r = ipv46_config_add_remove V if_name a.ip.string_val stale false s.om in
          address_change R B V (after_deleted [] stale rc) (deletion a.ip) s
          ≡ (next (after_deleted a.ip.string_val stale r.0), record s { om = r.1 }))
  unfolding address_change parse_change parse_old delete_if create_if parse_interface_ipv46_address
      ipv46_config_add_remove
  ip_deleted stale rc a s h = rw (
    h.ip_in,
    named,
    parse_ip R B V if_name N named a.ip (record { addr = []; prefix = stale }) h.ip_string
        h.ip_name,
    h.full,
  )

  length_deleted :
      (stale : ℕ) (rc : SrError) (a : AddressNodes) (s : Env W)
      → IsAddress R if_name a
      → (let p = a.length.uint8_val in
          let r = ipv46_config_add_remove V if_name a.ip.string_val p false s.om in
          address_change R B V (after_deleted a.ip.string_val stale rc) (deletion a.length) s
          ≡ (next (after_deleted a.ip.string_val p r.0), record s { om = r.1 }))
  unfolding address_change parse_change parse_old delete_if create_if parse_interface_ipv46_address
      ipv46_config_add_remove
  length_deleted stale rc a s h = rw (
    h.length_in,
    named,
    parse_length R B V if_name N named a.length (record { addr = a.ip.string_val; prefix = stale })
        h.length_number h.length_name,
    h.full,
  )

  address_loop-deleted :
      (b : Bool) (addr : Text) (stale : ℕ) (rc : SrError) (nodes : List AddressNodes) (s : Env W)
      → All (IsAddress R if_name) nodes
      → (l : AddressLocals) × (let r = config_all V if_name false stale rc nodes s.om in
          (address_loop R B V
              (record (after_deleted addr stale rc) { del = b })
              (nodes_of deletion nodes)
              s
            ≡ (next l, record s { om = r.1 }))
          × (l.op_rc ≡ r.0))
  unfolding address_loop config_all
  address_loop-deleted b addr stale rc [] s h =
      (record (after_deleted addr stale rc) { del = b }, (refl, refl))
  address_loop-deleted b addr stale rc (a ∷ rest) s h =
      let early = ipv46_config_add_remove V if_name a.ip.string_val stale false s.om in
      let p = a.length.uint8_val in
      let own = ipv46_config_add_remove V if_name a.ip.string_val p false early.1 in
      rw
        (
          item_deleted b addr stale rc a s h.0,
          ip_deleted stale rc a s h.0,
          length_deleted stale early.0 a (record s { om = early.1 }) h.0,
        )
        (address_loop-deleted true a.ip.string_val p own.0 rest (record s { om = own.1 }) h.1)

  -- On SR_EV_VERIFY and SR_EV_ENABLED, when the change iterator can be had and an xpath has one
  -- node name: for a set of deleted addresses, not empty, of one interface, each reported as its
  -- list item, its address and its length, the callback first removes each address with the
  -- prefix length of the address before it (0 for the first) and then with its own, in order. It
  -- returns the result of the last call alone, and frees its iterator.
  pub ietf_interface_ipv46_address_change_cb_deletes :
      (xpath : Text) (event : Event) (w : W) (nodes : List AddressNodes)
      → (event ≡ verify) ⊎ (event ≡ enabled)
      → R.get_changes_iter xpath ≡ ok
      → R.changes xpath ≡ nodes_of deletion nodes
      → All (IsAddress R if_name) nodes
      → ietf_interface_ipv46_address_change_cb R B V xpath event w ≡ (
          let r = config_all V if_name false 0 ok nodes w in
          (value r.0, record { om = r.1; iter = freed }))
  unfolding ietf_interface_ipv46_address_change_cb address_body open_iter free_iter visited
  ietf_interface_ipv46_address_change_cb_deletes xpath event w nodes ev got set h =
      let s : Env W = record { om = w; iter = live } in
      let (l, (looped, rc)) = address_loop-deleted false [] 0 ok nodes s h in ground (arith)
