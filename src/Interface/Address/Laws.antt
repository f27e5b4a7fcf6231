-- ===== src/Interface/Address/Laws.antt =====
-- What `ietf_interface_ipv46_address_change_cb` writes for created addresses.
use sweetcomb.Prelude.{
  ℕ, Bool, true, false, Text, codes, text_eq, is_empty, some, List, [], ◌∷◌, All, if◌then◌else◌,
  ◌≡◌, ◌⊎◌, refl, ◌∙◌, ◌≢◌, arith,
}
use sweetcomb.Prelude.Outcome.{value}
use sweetcomb.Sysrepo.{
  SrError, ok, Event, verify, enabled, list_t, string_t, Val, Change, Sysrepo, NamesNodes,
}
use sweetcomb.Callback.{Env, next, live, freed, free_iter, open_iter}
use sweetcomb.Vom.{Vom}
use sweetcomb.SysUtil.{Addresses}
use sweetcomb.Interface.Changes.{creation, exclusive}
use sweetcomb.Interface.Address.{
  Entry, AddressLocals, no_entry, parse_interface_ipv46_address, parse_new, parse_change, delete_if,
  create_if, address_change, address_loop, visited, address_body, ipv46_config_add_remove,
  ietf_interface_ipv46_address_change_cb,
}

-- The three nodes by which sysrepo reports one address: the list item, its key and its length.
pub record AddressNodes : Type 0 where
  pub item : Val
  pub ip : Val
  pub length : Val

module _ (R : Sysrepo) (if_name : Text) where
  abbrev pub In : Val → Type 0
  In v = R.key_value v.xpath (codes "interface") (codes "name") ≡ some if_name

  -- The nodes are of one address of the interface, and the address is not empty.
  pub record IsAddress (a : AddressNodes) : Type 0 where
    pub item_in : In a.item
    pub ip_in : In a.ip
    pub length_in : In a.length
    pub item_list : a.item.val_type ≡ list_t
    pub ip_string : a.ip.val_type ≢ list_t
    pub length_number : a.length.val_type ≢ list_t
    pub ip_name : R.node_name_eq a.ip.xpath (codes "ip") ≡ true
    pub length_name : R.node_name_eq a.length.xpath (codes "prefix-length") ≡ true
    pub full : is_empty a.ip.string_val ≡ false

-- The changes of a list of addresses.
abbrev pub nodes_of : (Val → Change) → List AddressNodes → List Change
nodes_of f [] = []
nodes_of f (a ∷ rest) = f a.item ∷ f a.ip ∷ f a.length ∷ nodes_of f rest

module _ {W I P A : Type 0} (V : Vom W I P A) (if_name : Text) (add : Bool) where
  -- Each address is first added (or removed) with the prefix length of the address before it, which
  -- is 0 for the first, and then with its own. The result is that of the last call.
  unfoldable pub config_all : ℕ → SrError → List AddressNodes → W → SrError × W
  config_all stale rc [] w = (rc, w)
  config_all stale rc (a ∷ rest) w =
      let early = ipv46_config_add_remove V if_name a.ip.string_val stale add w in
      let own = ipv46_config_add_remove V if_name a.ip.string_val a.length.uint8_val add early.1 in
      config_all a.length.uint8_val own.0 rest own.1

module _ {W I P A : Type 0} (R : Sysrepo) (B : Addresses A) (V : Vom W I P A) (if_name : Text)
    (N : NamesNodes R) (named : is_empty if_name ≡ false) where
  -- The variables between two created addresses.
  abbrev pub between : Text → ℕ → SrError → AddressLocals
  between addr stale rc = record {
    new_entry = record { addr = addr; prefix = stale };
    old_entry = no_entry;
    op_rc = rc;
    create = true;
    del = false;
  }

  item_created :
      (b : Bool) (addr : Text) (stale : ℕ) (rc : SrError) (a : AddressNodes) (s : Env W)
      → IsAddress R if_name a
      → address_change R B V (record (between addr stale rc) { create = b }) (creation a.item) s
        ≡ (next (between [] stale rc), s)
  unfolding address_change parse_change parse_new parse_interface_ipv46_address delete_if create_if
  item_created b addr stale rc a s h = rw (h.item_in, named, h.item_list)

  pub not_list :
      (v : Val) (e : Entry)
      → v.val_type ≢ list_t
      → parse_interface_ipv46_address R B (some v) e ≡ (
          if R.node_name_eq v.xpath (codes "ip")
          then value (record e { addr = v.string_val })
          else if R.node_name_eq v.xpath (codes "prefix-length")
          then value (record e { prefix = v.uint8_val })
          else parse_interface_ipv46_address R B (some (record v { val_type = string_t })) e)
  unfolding parse_interface_ipv46_address
  not_list v e h = ground arith

  pub parse_ip :
      (v : Val) (e : Entry)
      → v.val_type ≢ list_t
      → R.node_name_eq v.xpath (codes "ip") ≡ true
      → parse_interface_ipv46_address R B (some v) e ≡ value (record e { addr = v.string_val })
  parse_ip v e h y = not_list v e h ∙ rw y

  pub parse_length :
      (v : Val) (e : Entry)
      → v.val_type ≢ list_t
      → R.node_name_eq v.xpath (codes "prefix-length") ≡ true
      → parse_interface_ipv46_address R B (some v) e ≡ value (record e { prefix = v.uint8_val })
  unfolding text_eq
  parse_length v e h y =
      not_list v e h ∙ rw (exclusive R N v.xpath (codes "prefix-length") (codes "ip") refl y, y)

  ip_created :
      (stale : ℕ) (rc : SrError) (a : AddressNodes) (s : Env W)
      → IsAddress R if_name a
      → (let r = ipv46_config_add_remove V if_name a.ip.string_val stale true s.om in
          address_change R B V (between [] stale rc) (creation a.ip) s
          ≡ (next (between a.ip.string_val stale r.0), record s { om = r.1 }))
  unfolding address_change parse_change parse_new delete_if create_if parse_interface_ipv46_address
      ipv46_config_add_remove
  ip_created stale rc a s h = rw (
    h.ip_in,
    named,
    parse_ip a.ip (record { addr = []; prefix = stale }) h.ip_string h.ip_name,
    h.full,
  )

  length_created :
      (stale : ℕ) (rc : SrError) (a : AddressNodes) (s : Env W)
      → IsAddress R if_name a
      → (let p = a.length.uint8_val in
          let r = ipv46_config_add_remove V if_name a.ip.string_val p true s.om in
          address_change R B V (between a.ip.string_val stale rc) (creation a.length) s
          ≡ (next (between a.ip.string_val p r.0), record s { om = r.1 }))
  unfolding address_change parse_change parse_new delete_if create_if parse_interface_ipv46_address
      ipv46_config_add_remove
  length_created stale rc a s h = rw (
    h.length_in,
    named,
    parse_length a.length (record { addr = a.ip.string_val; prefix = stale }) h.length_number
        h.length_name,
    h.full,
  )

  abbrev result : AddressLocals → Env W → SrError × W
  result l s = (l.op_rc, s.om)

  address_loop-created :
      (b : Bool) (addr : Text) (stale : ℕ) (rc : SrError) (nodes : List AddressNodes) (s : Env W)
      → All (IsAddress R if_name) nodes
      → (l : AddressLocals) × (let r = config_all V if_name true stale rc nodes s.om in
          (address_loop R B V
              (record (between addr stale rc) { create = b })
              (nodes_of creation nodes)
              s
            ≡ (next l, record s { om = r.1 }))
          × (l.op_rc ≡ r.0))
  unfolding address_loop config_all
  address_loop-created b addr stale rc [] s h =
      (record (between addr stale rc) { create = b }, (refl, refl))
  address_loop-created b addr stale rc (a ∷ rest) s h =
      let early = ipv46_config_add_remove V if_name a.ip.string_val stale true s.om in
      let p = a.length.uint8_val in
      let own = ipv46_config_add_remove V if_name a.ip.string_val p true early.1 in
      let s₁ : Env W = record s { om = early.1 } in
      let s₂ : Env W = record s { om = own.1 } in
      rw
        (
          item_created b addr stale rc a s h.0,
          ip_created stale rc a s h.0,
          length_created stale early.0 a s₁ h.0,
        )
        (address_loop-created true a.ip.string_val p own.0 rest s₂ h.1)

  -- On SR_EV_VERIFY and SR_EV_ENABLED, when the change iterator can be had and an xpath has one
  -- node name: for a set of created addresses, not empty, of one interface, each reported as its
  -- list item, its address and its length, the callback first adds each address with the prefix
  -- length of the address before it (0 for the first) and then with its own, in order. It returns
  -- the result of the last call alone, so that an error before the last is lost, and frees its
  -- iterator.
  pub ietf_interface_ipv46_address_change_cb_creates :
      (xpath : Text) (event : Event) (w : W) (nodes : List AddressNodes)
      → (event ≡ verify) ⊎ (event ≡ enabled)
      → R.get_changes_iter xpath ≡ ok
      → R.changes xpath ≡ nodes_of creation nodes
      → All (IsAddress R if_name) nodes
      → ietf_interface_ipv46_address_change_cb R B V xpath event w ≡ (
          let r = config_all V if_name true 0 ok nodes w in
          (value r.0, record { om = r.1; iter = freed }))
  unfolding ietf_interface_ipv46_address_change_cb address_body open_iter free_iter visited
  ietf_interface_ipv46_address_change_cb_creates xpath event w nodes ev got set h =
      let s : Env W = record { om = w; iter = live } in
      let (l, (looped, rc)) = address_loop-created false [] 0 ok nodes s h in ground (arith)
