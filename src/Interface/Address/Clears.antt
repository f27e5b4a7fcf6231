-- ===== src/Interface/Address/Clears.antt =====
-- What VOM holds after `ietf_interface_ipv46_address_change_cb` has deleted addresses.
use sweetcomb.Prelude.{
  ℕ, false, Text, is_empty, some, List, [], ◌∷◌, All, ◌≡◌, ◌≢◌, ◌⊎◌, inl, inr, ◌∙◌, sym, ap, ◌++◌,
  codes, length, length-append, arith, Option-cases,
}
use sweetcomb.Sysrepo.{SrError, ok, Event, verify, enabled, Sysrepo, NamesNodes}
use sweetcomb.Vom.{Vom, Obj, interface_obj, KeepsObjects, FindsInterfaces}
use sweetcomb.SysUtil.{Addresses}
use sweetcomb.Interface.Changes.{deletion}
use sweetcomb.Interface.Address.{
  l3_key, ipv46_config_add_remove, ietf_interface_ipv46_address_change_cb,
}
use sweetcomb.Interface.Address.Laws.{AddressNodes, IsAddress, nodes_of, config_all}
use sweetcomb.Interface.Address.Binds.{HoldsInterface}
use sweetcomb.Interface.Address.Deletes.{ietf_interface_ipv46_address_change_cb_deletes}

-- What the object manager promises of a removal: nothing stays held under the key, and nothing comes
-- to be held.
pub record Forgets {W I P A : Type 0} (V : Vom W I P A) (Holds : W → Text → Obj I P A → Type 0)
    : Type 0 where
  pub gone : (k : Text) (o : Obj I P A) (w : W) → ¬ Holds (V.remove k w) k o
  pub older : (k k' : Text) (o : Obj I P A) (w : W) → Holds (V.remove k w) k' o → Holds w k' o

-- No object is held under the key.
abbrev pub Unheld : {W I P A : Type 0} → (W → Text → Obj I P A → Type 0) → Text → W → Type 0
Unheld {I} {P} {A} Holds k w = (o : Obj I P A) → ¬ Holds w k o

-- No address is held under the key of the interface and of the node's own prefix.
abbrev pub Cleared :
    {W I P A : Type 0}
    → Vom W I P A
    → (W → Text → Obj I P A → Type 0)
    → I
    → W
    → AddressNodes
    → Type 0
Cleared {P} V Holds intf w a =
    (pfx : P)
    → V.make_prefix a.ip.string_val a.length.uint8_val ≡ some pfx
    → Unheld Holds (l3_key V intf pfx) w

module _ {W I P A : Type 0} (V : Vom W I P A) (if_name : Text) where
  -- A removal keeps what every removal by the key of an address keeps.
  pub remove-keeps :
      (Keep : W → Type 0) (addr : Text) (prefix : ℕ) (w : W)
      → ((i : I) (q : P) → V.find if_name w ≡ some i → Keep (V.remove (l3_key V i q) w))
      → Keep w
      → Keep (ipv46_config_add_remove V if_name addr prefix false w).1
  unfolding ipv46_config_add_remove
  remove-keeps Keep addr prefix w h i = elim (Option-cases (V.find if_name w)) [
    | inl absent ↦ rw (ipv46_config_add_remove, absent) i
    | inr (intf, found) ↦ elim (Option-cases (V.make_prefix addr prefix)) [
      | inl bad ↦ rw (ipv46_config_add_remove, found, bad) i
      | inr (pfx, good) ↦ rw (ipv46_config_add_remove, found, good) (h intf pfx found)
    ]
  ]

-- The key of an address is longer than the name, and so the key, of its interface.
pub key-l3_key :
    {W I P A : Type 0} (V : Vom W I P A) (intf : I) (pfx : P)
    → V.key intf ≡ V.name intf
    → V.key intf ≢ l3_key V intf pfx
unfolding l3_key
key-l3_key V intf pfx named e = omega (
  arith,
  ap length (sym named ∙ e),
  length-append (V.name intf) (codes "_" ++ V.prefix_to_string pfx),
)

module _ {W I P A : Type 0} (V : Vom W I P A) (Holds : W → Text → Obj I P A → Type 0)
    (F : Forgets V Holds) (K : KeepsObjects V Holds) (D : FindsInterfaces V Holds)
    (key_name : (i : I) → V.key i ≡ V.name i) (intf : I) where
  pub Unheld-remove :
      (k : Text) (addr : Text) (prefix : ℕ) (w : W)
      → Unheld Holds k w
      → Unheld Holds k (ipv46_config_add_remove V (V.name intf) addr prefix false w).1
  Unheld-remove k addr prefix w u =
      remove-keeps V (V.name intf) (Unheld Holds k) addr prefix w
        (λ i q e o h. u o (F.older (l3_key V i q) k o w h)) u

  -- An interface that is held stays held.
  pub HoldsInterface-remove :
      (addr : Text) (prefix : ℕ) (w : W)
      → HoldsInterface V Holds intf w
      → HoldsInterface V Holds intf (ipv46_config_add_remove V (V.name intf) addr prefix false w).1
  HoldsInterface-remove addr prefix w h =
      remove-keeps V (V.name intf) (HoldsInterface V Holds intf) addr prefix w
        (λ i q e.
          let own : i ≡ intf = cc (e, D.finds intf w h) in
          rw own (
            K.spared (l3_key V intf q) (V.key intf) (interface_obj intf) w
              (key-l3_key V intf q (key_name intf)) h))
        h

  pub Unheld-config_all :
      (k : Text) (stale : ℕ) (rc : SrError) (nodes : List AddressNodes) (w : W)
      → Unheld Holds k w
      → Unheld Holds k (config_all V (V.name intf) false stale rc nodes w).1
  unfolding config_all
  Unheld-config_all k stale rc [] w u = u
  Unheld-config_all k stale rc (a ∷ rest) w u =
      let early = ipv46_config_add_remove V (V.name intf) a.ip.string_val stale false w in
      let own =
        ipv46_config_add_remove V (V.name intf) a.ip.string_val a.length.uint8_val false early.1 in
      Unheld-config_all k a.length.uint8_val own.0 rest own.1 (
        Unheld-remove k a.ip.string_val a.length.uint8_val early.1
          (Unheld-remove k a.ip.string_val stale w u))

  pub Unheld-own :
      (addr : Text) (prefix : ℕ) (pfx : P) (w : W)
      → HoldsInterface V Holds intf w
      → V.make_prefix addr prefix ≡ some pfx
      → Unheld Holds
          (l3_key V intf pfx)
          (ipv46_config_add_remove V (V.name intf) addr prefix false w).1
  unfolding ipv46_config_add_remove
  Unheld-own addr prefix pfx w held good o =
      rw (ipv46_config_add_remove, D.finds intf w held, good) (F.gone (l3_key V intf pfx) o w)

  Cleared-config_all :
      (stale : ℕ) (rc : SrError) (nodes : List AddressNodes) (w : W)
      → HoldsInterface V Holds intf w
      → All (Cleared V Holds intf (config_all V (V.name intf) false stale rc nodes w).1) nodes
  unfolding config_all
  Cleared-config_all stale rc [] w found = tt
  Cleared-config_all stale rc (a ∷ rest) w found =
      let early = ipv46_config_add_remove V (V.name intf) a.ip.string_val stale false w in
      let p = a.length.uint8_val in
      let own = ipv46_config_add_remove V (V.name intf) a.ip.string_val p false early.1 in
      let found₁ = HoldsInterface-remove a.ip.string_val stale w found in
      (
        λ pfx good o.
            Unheld-config_all (l3_key V intf pfx) p own.0 rest own.1
              (Unheld-own a.ip.string_val p pfx early.1 found₁ good) o,
        Cleared-config_all p own.0 rest own.1
            (HoldsInterface-remove a.ip.string_val p early.1 found₁),
      )

  -- If VOM keeps what is written until its own key is removed, holds nothing under a key once it is
  -- removed, finds the interfaces that it holds, a removal adds nothing, and the key of an
  -- interface is its name: on SR_EV_VERIFY and SR_EV_ENABLED, when the change iterator can be
  -- had, an xpath has one node name, and VOM holds the interface: after a set of deleted
  -- addresses, each reported as its list item, its address and its length, VOM holds none of them
  -- under its own prefix, whatever it held before.
  pub ietf_interface_ipv46_address_change_cb_clears :
      (R : Sysrepo) (B : Addresses A) (xpath : Text) (event : Event) (w : W)
      (nodes : List AddressNodes)
      → NamesNodes R
      → is_empty (V.name intf) ≡ false
      → (event ≡ verify) ⊎ (event ≡ enabled)
      → R.get_changes_iter xpath ≡ ok
      → R.changes xpath ≡ nodes_of deletion nodes
      → All (IsAddress R (V.name intf)) nodes
      → HoldsInterface V Holds intf w
      → All
          (Cleared V Holds intf (ietf_interface_ipv46_address_change_cb R B V xpath event w).1.om)
          nodes
  ietf_interface_ipv46_address_change_cb_clears R B xpath event w nodes N named ev got set h found =
      rw
        (ietf_interface_ipv46_address_change_cb_deletes R B V (V.name intf) N named xpath event w
          nodes ev got set h)
        (Cleared-config_all 0 ok nodes w found)
