-- ===== src/Interface/Address/Leftover.antt =====
-- What VOM holds after `ietf_interface_ipv46_address_change_cb` has created two addresses and
-- deleted the second alone.
use sweetcomb.Prelude.{
  ℕ, true, false, Text, is_empty, some, [], ◌∷◌, ◌≡◌, ◌≢◌, ◌⊎◌, inl, inr, Option-cases,
}
use sweetcomb.Sysrepo.{ok, Event, verify, enabled, Sysrepo, NamesNodes}
use sweetcomb.Vom.{Vom, Obj, l3_obj, KeepsObjects, FindsInterfaces}
use sweetcomb.SysUtil.{Addresses}
use sweetcomb.Interface.Changes.{creation, deletion}
use sweetcomb.Interface.Address.{
  l3_key, ipv46_config_add_remove, ietf_interface_ipv46_address_change_cb,
}
use sweetcomb.Interface.Address.Laws.{
  AddressNodes, IsAddress, nodes_of, config_all, ietf_interface_ipv46_address_change_cb_creates,
}
use sweetcomb.Interface.Address.Binds.{HoldsInterface}
use sweetcomb.Interface.Address.Deletes.{ietf_interface_ipv46_address_change_cb_deletes}
use sweetcomb.Interface.Address.Clears.{Forgets, HoldsInterface-remove}
use sweetcomb.Interface.Address.Roundtrip.{AddsOne, HoldsInterface-add, HoldsInterface-config_all}

module _ {W I P A : Type 0} (V : Vom W I P A) (Holds : W → Text → Obj I P A → Type 0)
    (F : Forgets V Holds) (G : AddsOne V Holds) (K : KeepsObjects V Holds)
    (D : FindsInterfaces V Holds) (key_name : (i : I) → V.key i ≡ V.name i)
    (succeeds : (k : Text) (o : Obj I P A) (w : W) → (V.write k o w).0 ≡ true) (intf : I)
    (pfx : P) where
  abbrev own_key : Text
  own_key = l3_key V intf pfx

  abbrev Held : W → Type 0
  Held w = Holds w own_key (l3_obj intf pfx)

  -- Adding an address writes it, and keeps what is held.
  add-written :
      (addr : Text) (prefix : ℕ) (w : W)
      → HoldsInterface V Holds intf w
      → V.make_prefix addr prefix ≡ some pfx
      → Held (ipv46_config_add_remove V (V.name intf) addr prefix true w).1
  unfolding ipv46_config_add_remove
  add-written addr prefix w found good =
      rw (ipv46_config_add_remove, D.finds intf w found, good)
        (K.written own_key (l3_obj intf pfx) w (succeeds own_key (l3_obj intf pfx) w))

  add-kept :
      (addr : Text) (prefix : ℕ) (w : W)
      → HoldsInterface V Holds intf w
      → Held w
      → Held (ipv46_config_add_remove V (V.name intf) addr prefix true w).1
  unfolding ipv46_config_add_remove
  add-kept addr prefix w found h = elim (Option-cases (V.make_prefix addr prefix)) [
    | inl bad ↦ rw (ipv46_config_add_remove, D.finds intf w found, bad) h
    | inr (q, good) ↦
        rw (ipv46_config_add_remove, D.finds intf w found, good)
          (K.kept (l3_key V intf q) own_key (l3_obj intf q) (l3_obj intf pfx) w
            (succeeds (l3_key V intf q) (l3_obj intf q) w) h)
  ]

  -- Removing an address under other keys spares it.
  remove-spared :
      (addr : Text) (prefix : ℕ) (w : W)
      → HoldsInterface V Holds intf w
      → ((q : P) → V.make_prefix addr prefix ≡ some q → own_key ≢ l3_key V intf q)
      → Held w
      → Held (ipv46_config_add_remove V (V.name intf) addr prefix false w).1
  unfolding ipv46_config_add_remove
  remove-spared addr prefix w found other h = elim (Option-cases (V.make_prefix addr prefix)) [
    | inl bad ↦ rw (ipv46_config_add_remove, D.finds intf w found, bad) h
    | inr (q, good) ↦
        rw (ipv46_config_add_remove, D.finds intf w found, good)
          (K.spared (l3_key V intf q) own_key (l3_obj intf pfx) w (other q good) h)
  ]

  module _ (a b : AddressNodes)
      (stale : V.make_prefix b.ip.string_val a.length.uint8_val ≡ some pfx)
      (not_zero : (q : P) → V.make_prefix b.ip.string_val 0 ≡ some q → own_key ≢ l3_key V intf q)
      (not_own : (q : P)
        → V.make_prefix b.ip.string_val b.length.uint8_val ≡ some q
        → own_key ≢ l3_key V intf q) where
    both_added :
        (w : W)
        → HoldsInterface V Holds intf w
        → Held (config_all V (V.name intf) true 0 ok (a ∷ b ∷ []) w).1
    unfolding config_all
    both_added w found =
        let w₁ = (ipv46_config_add_remove V (V.name intf) a.ip.string_val 0 true w).1 in
        let found₁ = HoldsInterface-add V Holds F G K D key_name intf a.ip.string_val 0 w found in
        let p = a.length.uint8_val in
        let w₂ = (ipv46_config_add_remove V (V.name intf) a.ip.string_val p true w₁).1 in
        let found₂ = HoldsInterface-add V Holds F G K D key_name intf a.ip.string_val p w₁ found₁ in
        let w₃ = (ipv46_config_add_remove V (V.name intf) b.ip.string_val p true w₂).1 in
        let found₃ = HoldsInterface-add V Holds F G K D key_name intf b.ip.string_val p w₂ found₂ in
        add-kept b.ip.string_val b.length.uint8_val w₃ found₃
          (add-written b.ip.string_val p w₂ found₂ stale)

    second_removed :
        (w : W)
        → HoldsInterface V Holds intf w
        → Held w
        → Held (config_all V (V.name intf) false 0 ok (b ∷ []) w).1
    unfolding config_all
    second_removed w found h =
        let w₁ = (ipv46_config_add_remove V (V.name intf) b.ip.string_val 0 false w).1 in
        let found₁ = HoldsInterface-remove V Holds F K D key_name intf b.ip.string_val 0 w found in
        remove-spared b.ip.string_val b.length.uint8_val w₁ found₁ not_own
          (remove-spared b.ip.string_val 0 w found not_zero h)

    -- If VOM's writes succeed, take nothing away and add at most the object written, VOM keeps what is
    -- written until its own key is removed, holds nothing under a key once it is removed, and finds
    -- the interfaces that it holds, a removal adds nothing, and the key of an interface is its name:
    -- on SR_EV_VERIFY and SR_EV_ENABLED, when the change iterators can be had, an xpath has one node
    -- name, and VOM holds the interface: when two addresses are created in one set, each reported as
    -- its list item, its address and its length, and then the second alone is deleted, VOM still
    -- holds the second address, under the prefix length of the first, if that prefix has another key
    -- than those of the second address with the length 0 and with its own.
    pub ietf_interface_ipv46_address_change_cb_leaves :
        (R : Sysrepo) (B : Addresses A) (x y : Text) (event : Event) (w : W)
        → NamesNodes R
        → is_empty (V.name intf) ≡ false
        → (event ≡ verify) ⊎ (event ≡ enabled)
        → R.get_changes_iter x ≡ ok
        → R.get_changes_iter y ≡ ok
        → R.changes x ≡ nodes_of creation (a ∷ b ∷ [])
        → R.changes y ≡ nodes_of deletion (b ∷ [])
        → IsAddress R (V.name intf) a
        → IsAddress R (V.name intf) b
        → HoldsInterface V Holds intf w
        → (let w₁ = (ietf_interface_ipv46_address_change_cb R B V x event w).1.om in
            Holds
              (ietf_interface_ipv46_address_change_cb R B V y event w₁).1.om
              own_key
              (l3_obj intf pfx))
    ietf_interface_ipv46_address_change_cb_leaves R B x y event w N named ev got got' set set' ha hb
          found =
        let added = config_all V (V.name intf) true 0 ok (a ∷ b ∷ []) w in
        rw
          (
            ietf_interface_ipv46_address_change_cb_creates R B V (V.name intf) N named x event w
                (a ∷ b ∷ []) ev got set (ha, (hb, tt)),
            ietf_interface_ipv46_address_change_cb_deletes R B V (V.name intf) N named y event
                added.1 (b ∷ []) ev got' set' (hb, tt),
          )
          (second_removed added.1
            (HoldsInterface-config_all V Holds F G K D key_name intf 0 ok (a ∷ b ∷ []) w found)
            (both_added w found))
