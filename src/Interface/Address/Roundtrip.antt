-- ===== src/Interface/Address/Roundtrip.antt =====
-- What VOM holds after `ietf_interface_ipv46_address_change_cb` has created addresses and then
-- deleted them.
use sweetcomb.Prelude.{
  ℕ, true, false, Text, is_empty, some, List, [], ◌∷◌, All, ◌≡◌, ◌⊎◌, inl, inr, Option-cases,
}
use sweetcomb.Sysrepo.{SrError, ok, Event, verify, enabled, Sysrepo, NamesNodes}
use sweetcomb.Vom.{Vom, Obj, interface_obj, l3_obj, KeepsObjects, FindsInterfaces}
use sweetcomb.SysUtil.{Addresses}
use sweetcomb.Interface.Changes.{creation, deletion}
use sweetcomb.Interface.Address.{
  l3_key, ipv46_config_add_remove, ietf_interface_ipv46_address_change_cb,
}
use sweetcomb.Interface.Address.Laws.{
  AddressNodes, IsAddress, nodes_of, config_all, ietf_interface_ipv46_address_change_cb_creates,
}
use sweetcomb.Interface.Address.Binds.{HoldsInterface}
use sweetcomb.Interface.Address.Deletes.{ietf_interface_ipv46_address_change_cb_deletes}
use sweetcomb.Interface.Address.Clears.{
  Forgets, Unheld, remove-keeps, Unheld-remove, HoldsInterface-remove, Unheld-config_all,
  Unheld-own,
}

-- What the object manager promises of a write, whether or not VPP accepts it: nothing but the object
-- written comes to be held, and what is held stays held.
pub record AddsOne {W I P A : Type 0} (V : Vom W I P A) (Holds : W → Text → Obj I P A → Type 0)
    : Type 0 where
  pub newer :
      (k k' : Text) (o o' : Obj I P A) (w : W)
      → Holds (V.write k o w).1 k' o'
      → (k ≡ k') ⊎ Holds w k' o'
  pub older :
      (k k' : Text) (o o' : Obj I P A) (w : W) → Holds w k' o' → Holds (V.write k o w).1 k' o'

module _ {W I P A : Type 0} (V : Vom W I P A) (if_name : Text) where
  -- A write keeps what every write of an address keeps.
  add-keeps :
      (Keep : W → Type 0) (addr : Text) (prefix : ℕ) (w : W)
      → ((k : Text) (o : Obj I P A) → Keep (V.write k o w).1)
      → Keep w
      → Keep (ipv46_config_add_remove V if_name addr prefix true w).1
  unfolding ipv46_config_add_remove
  add-keeps Keep addr prefix w h i = elim (Option-cases (V.find if_name w)) [
    | inl absent ↦ rw (ipv46_config_add_remove, absent) i
    | inr (intf, found) ↦ elim (Option-cases (V.make_prefix addr prefix)) [
      | inl bad ↦ rw (ipv46_config_add_remove, found, bad) i
      | inr (pfx, good) ↦
          rw (ipv46_config_add_remove, found, good) (h (l3_key V intf pfx) (l3_obj intf pfx))
    ]
  ]

module _ {W I P A : Type 0} (V : Vom W I P A) (intf : I) where
  -- The key is one of the address with the prefix length.
  abbrev pub IsKey : Text → ℕ → Text → Type 0
  IsKey addr prefix k = (pfx : P) × (V.make_prefix addr prefix ≡ some pfx) × (l3_key V intf pfx ≡ k)

  -- The key is one under which the set is written.
  abbrev pub Touched : ℕ → List AddressNodes → Text → Type 0
  Touched stale [] k = ⊥
  Touched stale (a ∷ rest) k =
      IsKey a.ip.string_val stale k
      ⊎ (IsKey a.ip.string_val a.length.uint8_val k ⊎ Touched a.length.uint8_val rest k)

module _ {W I P A : Type 0} (V : Vom W I P A) (Holds : W → Text → Obj I P A → Type 0)
    (F : Forgets V Holds) (G : AddsOne V Holds) (K : KeepsObjects V Holds)
    (D : FindsInterfaces V Holds) (key_name : (i : I) → V.key i ≡ V.name i) (intf : I) where
  pub HoldsInterface-add :
      (addr : Text) (prefix : ℕ) (w : W)
      → HoldsInterface V Holds intf w
      → HoldsInterface V Holds intf (ipv46_config_add_remove V (V.name intf) addr prefix true w).1
  HoldsInterface-add addr prefix w h =
      add-keeps V (V.name intf) (HoldsInterface V Holds intf) addr prefix w
        (λ k o. G.older k (V.key intf) o (interface_obj intf) w h) h

  pub HoldsInterface-config_all :
      (stale : ℕ) (rc : SrError) (nodes : List AddressNodes) (w : W)
      → HoldsInterface V Holds intf w
      → HoldsInterface V Holds intf (config_all V (V.name intf) true stale rc nodes w).1
  unfolding config_all
  HoldsInterface-config_all stale rc [] w found = found
  HoldsInterface-config_all stale rc (a ∷ rest) w found =
      let early = ipv46_config_add_remove V (V.name intf) a.ip.string_val stale true w in
      let p = a.length.uint8_val in
      let own = ipv46_config_add_remove V (V.name intf) a.ip.string_val p true early.1 in
      HoldsInterface-config_all p own.0 rest own.1 (
        HoldsInterface-add a.ip.string_val p early.1
          (HoldsInterface-add a.ip.string_val stale w found))

  add-newer :
      (addr : Text) (prefix : ℕ) (w : W) (k : Text) (o : Obj I P A)
      → HoldsInterface V Holds intf w
      → Holds (ipv46_config_add_remove V (V.name intf) addr prefix true w).1 k o
      → IsKey V intf addr prefix k ⊎ Holds w k o
  unfolding ipv46_config_add_remove
  add-newer addr prefix w k o found h = elim (Option-cases (V.make_prefix addr prefix)) [
    | inl bad ↦ inr (rw (ipv46_config_add_remove, D.finds intf w found, bad) at h)
    | inr (pfx, good) ↦
        let held : Holds (V.write (l3_key V intf pfx) (l3_obj intf pfx) w).1 k o =
          rw (ipv46_config_add_remove, D.finds intf w found, good) at h in
        elim (G.newer (l3_key V intf pfx) k (l3_obj intf pfx) o w held) [
          | inl e ↦ inl (pfx, good, e)
          | inr older ↦ inr older
        ]
  ]

  Touched-config_all :
      (stale : ℕ) (rc : SrError) (nodes : List AddressNodes) (w : W) (k : Text) (o : Obj I P A)
      → HoldsInterface V Holds intf w
      → Holds (config_all V (V.name intf) true stale rc nodes w).1 k o
      → Touched V intf stale nodes k ⊎ Holds w k o
  unfolding config_all
  Touched-config_all stale rc [] w k o found h = inr h
  Touched-config_all stale rc (a ∷ rest) w k o found h =
      let early = ipv46_config_add_remove V (V.name intf) a.ip.string_val stale true w in
      let p = a.length.uint8_val in
      let own = ipv46_config_add_remove V (V.name intf) a.ip.string_val p true early.1 in
      let found₁ = HoldsInterface-add a.ip.string_val stale w found in
      let found₂ = HoldsInterface-add a.ip.string_val p early.1 found₁ in
      elim (Touched-config_all p own.0 rest own.1 k o found₂ h) [
        | inl later ↦ inl (inr (inr later))
        | inr held ↦ elim (add-newer a.ip.string_val p early.1 k o found₁ held) [
          | inl its_own ↦ inl (inr (inl its_own))
          | inr before ↦ elim (add-newer a.ip.string_val stale w k o found before) [
            | inl its_stale ↦ inl (inl its_stale)
            | inr oldest ↦ inr oldest
          ]
        ]
      ]

  Unheld-IsKey :
      (addr : Text) (prefix : ℕ) (w : W) (k : Text)
      → HoldsInterface V Holds intf w
      → IsKey V intf addr prefix k
      → Unheld Holds k (ipv46_config_add_remove V (V.name intf) addr prefix false w).1
  Unheld-IsKey addr prefix w k found (pfx, good, e) =
      rw (← e) (Unheld-own V Holds F K D key_name intf addr prefix pfx w found good)

  Unheld-Touched :
      (stale : ℕ) (rc : SrError) (nodes : List AddressNodes) (w : W) (k : Text)
      → HoldsInterface V Holds intf w
      → Touched V intf stale nodes k
      → Unheld Holds k (config_all V (V.name intf) false stale rc nodes w).1
  unfolding config_all
  Unheld-Touched stale rc [] w k found t = absurd t
  Unheld-Touched stale rc (a ∷ rest) w k found t =
      let early = ipv46_config_add_remove V (V.name intf) a.ip.string_val stale false w in
      let p = a.length.uint8_val in
      let own = ipv46_config_add_remove V (V.name intf) a.ip.string_val p false early.1 in
      let found₁ =
        HoldsInterface-remove V Holds F K D key_name intf a.ip.string_val stale w found in
      let found₂ =
        HoldsInterface-remove V Holds F K D key_name intf a.ip.string_val p early.1 found₁ in
      elim t [
        | inl its_stale ↦ Unheld-config_all V Holds F K D key_name intf k p own.0 rest own.1 (
            Unheld-remove V Holds F K D key_name intf k a.ip.string_val p early.1
              (Unheld-IsKey a.ip.string_val stale w k found its_stale))
        | inr (inl its_own) ↦
            Unheld-config_all V Holds F K D key_name intf k p own.0 rest own.1
              (Unheld-IsKey a.ip.string_val p early.1 k found₁ its_own)
        | inr (inr later) ↦ Unheld-Touched p own.0 rest own.1 k found₂ later
      ]

  config_all-older :
      (stale : ℕ) (rc : SrError) (nodes : List AddressNodes) (w : W) (k : Text) (o : Obj I P A)
      → Holds (config_all V (V.name intf) false stale rc nodes w).1 k o
      → Holds w k o
  unfolding config_all
  config_all-older stale rc [] w k o h = h
  config_all-older stale rc (a ∷ rest) w k o h =
      let early = ipv46_config_add_remove V (V.name intf) a.ip.string_val stale false w in
      let p = a.length.uint8_val in
      let own = ipv46_config_add_remove V (V.name intf) a.ip.string_val p false early.1 in
      remove-keeps V (V.name intf) (λ w'. Holds w' k o → Holds w k o) a.ip.string_val stale w
        (λ i q e. F.older (l3_key V i q) k o w) (λ e. e)
        (remove-keeps V (V.name intf) (λ w'. Holds w' k o → Holds early.1 k o) a.ip.string_val p
          early.1 (λ i q e. F.older (l3_key V i q) k o early.1) (λ e. e)
          (config_all-older p own.0 rest own.1 k o h))

  -- If VOM keeps what is written until its own key is removed, holds nothing under a key once it is
  -- removed, and finds the interfaces that it holds, a write, accepted or not, takes nothing away
  -- and adds at most the object written, a removal adds nothing, and the key of an interface is
  -- its name: on SR_EV_VERIFY and SR_EV_ENABLED, when the change iterators can be had, an xpath
  -- has one node name, and VOM holds the interface: when a set of addresses is created, each
  -- reported as its list item, its address and its length, and then deleted, reported in the same
  -- order, VOM holds nothing that it did not hold before.
  pub ietf_interface_ipv46_address_change_cb_undone :
      (R : Sysrepo) (B : Addresses A) (x y : Text) (event : Event) (w : W)
      (nodes : List AddressNodes)
      → NamesNodes R
      → is_empty (V.name intf) ≡ false
      → (event ≡ verify) ⊎ (event ≡ enabled)
      → R.get_changes_iter x ≡ ok
      → R.get_changes_iter y ≡ ok
      → R.changes x ≡ nodes_of creation nodes
      → R.changes y ≡ nodes_of deletion nodes
      → All (IsAddress R (V.name intf)) nodes
      → HoldsInterface V Holds intf w
      → (k : Text) (o : Obj I P A) → ¬ Holds w k o
      → ¬ Holds
          (ietf_interface_ipv46_address_change_cb R B V y event
            (ietf_interface_ipv46_address_change_cb R B V x event w).1.om).1.om
          k
          o
  ietf_interface_ipv46_address_change_cb_undone R B x y event w nodes N named ev got got' set set' h
        found k o fresh =
      let added = config_all V (V.name intf) true 0 ok nodes w in
      rw
        (
          ietf_interface_ipv46_address_change_cb_creates R B V (V.name intf) N named x event w nodes
              ev got set h,
          ietf_interface_ipv46_address_change_cb_deletes R B V (V.name intf) N named y event added.1
              nodes ev got' set' h,
        )
        (λ held.
          elim (Touched-config_all 0 ok nodes w k o found
            (config_all-older 0 ok nodes added.1 k o held)) [
              | inl touched ↦ absurd (
                  Unheld-Touched 0 ok nodes added.1 k (HoldsInterface-config_all 0 ok nodes w found)
                    touched o held)
              | inr before ↦ fresh before
            ])
