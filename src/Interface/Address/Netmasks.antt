-- ===== src/Interface/Address/Netmasks.antt =====
-- What `ietf_interface_ipv46_address_change_cb` writes for an address with a netmask.
use sweetcomb.Prelude.{
  ℕ, true, false, Text, codes, text_eq, is_empty, some, [], ◌∷◌, ◌≡◌, ◌≢◌, ◌⊎◌, ◌≤◌, ◌+◌, ◌*◌, ◌/◌,
  refl, arith,
}
use sweetcomb.Prelude.Outcome.{value}
use sweetcomb.Sysrepo.{SrError, ok, Event, verify, enabled, list_t, Val, Sysrepo, NamesNodes}
use sweetcomb.Callback.{Env, next, live, freed, free_iter, open_iter}
use sweetcomb.Vom.{Vom}
use sweetcomb.SysUtil.{Addresses}
use sweetcomb.SysUtil.Netmask.{netmask_to_plen}
use sweetcomb.SysUtil.Netmask.Laws.{mask_quad, netmask_to_plen-mask_quad}
use sweetcomb.Interface.Changes.{creation, exclusive}
use sweetcomb.Interface.Address.{
  Entry, no_entry, address_entry_locals, parse_interface_ipv46_address, parse_new, parse_change,
  delete_if, create_if, address_change, address_loop, visited, address_body,
  ipv46_config_add_remove, ietf_interface_ipv46_address_change_cb,
}
use sweetcomb.Interface.Address.Laws.{In, between, parse_ip}

-- The three nodes by which sysrepo reports one address with a netmask, in an interface.
pub record IsMasked (R : Sysrepo) (if_name : Text) (item ip mask : Val) : Type 0 where
  pub item_in : In R if_name item
  pub ip_in : In R if_name ip
  pub mask_in : In R if_name mask
  pub item_list : item.val_type ≡ list_t
  pub ip_string : ip.val_type ≢ list_t
  pub mask_string : mask.val_type ≢ list_t
  pub ip_name : R.node_name_eq ip.xpath (codes "ip") ≡ true
  pub mask_name : R.node_name_eq mask.xpath (codes "netmask") ≡ true
  pub full : is_empty ip.string_val ≡ false

module _ {W I P A : Type 0} (R : Sysrepo) (B : Addresses A) (V : Vom W I P A) (if_name : Text)
    (N : NamesNodes R) (named : is_empty if_name ≡ false) (item ip mask : Val)
    (h : IsMasked R if_name item ip mask) where
  parse_mask :
      (e : Entry) (m : A) (p : ℕ)
      → B.from_string mask.string_val ≡ some m
      → netmask_to_plen B m ≡ value p
      → parse_interface_ipv46_address R B (some mask) e ≡ value (record e { prefix = p })
  unfolding parse_interface_ipv46_address text_eq
  parse_mask e m p read plen = ground (
    arith,
    h.mask_string,
    h.mask_name,
    read,
    plen,
    exclusive R N mask.xpath (codes "netmask") (codes "ip") refl h.mask_name,
    exclusive R N mask.xpath (codes "netmask") (codes "prefix-length") refl h.mask_name,
  )

  item_created :
      (s : Env W)
      → address_change R B V address_entry_locals (creation item) s
        ≡ (next (between R B V if_name N named [] 0 ok), s)
  unfolding address_change parse_change parse_new parse_interface_ipv46_address delete_if create_if
  item_created s = rw (h.item_in, named, h.item_list)

  ip_created :
      (s : Env W)
      → (let r = ipv46_config_add_remove V if_name ip.string_val 0 true s.om in
          address_change R B V (between R B V if_name N named [] 0 ok) (creation ip) s
          ≡ (next (between R B V if_name N named ip.string_val 0 r.0), record s { om = r.1 }))
  unfolding address_change parse_change parse_new delete_if create_if parse_interface_ipv46_address
      ipv46_config_add_remove
  ip_created s =
      rw (h.ip_in, named, parse_ip R B V if_name N named ip no_entry h.ip_string h.ip_name, h.full)

  mask_created :
      (rc : SrError) (m : A) (p : ℕ) (s : Env W)
      → B.from_string mask.string_val ≡ some m
      → netmask_to_plen B m ≡ value p
      → (let r = ipv46_config_add_remove V if_name ip.string_val p true s.om in
          address_change R B V (between R B V if_name N named ip.string_val 0 rc) (creation mask) s
          ≡ (next (between R B V if_name N named ip.string_val p r.0), record s { om = r.1 }))
  unfolding address_change parse_change parse_new delete_if create_if parse_interface_ipv46_address
      ipv46_config_add_remove
  mask_created rc m p s read plen = rw (
    h.mask_in,
    named,
    parse_mask (record { addr = ip.string_val; prefix = 0 }) m p read plen,
    h.full,
  )

  address_loop-masked :
      (m : A) (p : ℕ) (s : Env W)
      → B.from_string mask.string_val ≡ some m
      → netmask_to_plen B m ≡ value p
      → (let early = ipv46_config_add_remove V if_name ip.string_val 0 true s.om in
          let own = ipv46_config_add_remove V if_name ip.string_val p true early.1 in
          address_loop R B V address_entry_locals
            (creation item ∷ creation ip ∷ creation mask ∷ [])
            s
          ≡ (next (between R B V if_name N named ip.string_val p own.0), record s { om = own.1 }))
  unfolding address_loop
  address_loop-masked m p s read plen =
      let early = ipv46_config_add_remove V if_name ip.string_val 0 true s.om in
      rw (
        item_created s,
        ip_created s,
        mask_created early.0 m p (record s { om = early.1 }) read plen,
      )

  -- On SR_EV_VERIFY and SR_EV_ENABLED, when the change iterator can be had and an xpath has one
  -- node name: for one created address, not empty, of a named interface, reported as its list
  -- item, its address and an IPv4 netmask that `inet_pton` reads as `p` ones, at most 32, the
  -- callback adds the address with the prefix length 0, and then with `p` rounded up to whole
  -- octets. It returns the result of the second call alone, and frees its iterator.
  pub ietf_interface_ipv46_address_change_cb_rounds_up :
      (xpath : Text) (event : Event) (w : W) (m : A) (p : ℕ)
      → (event ≡ verify) ⊎ (event ≡ enabled)
      → R.get_changes_iter xpath ≡ ok
      → R.changes xpath ≡ creation item ∷ creation ip ∷ creation mask ∷ []
      → B.from_string mask.string_val ≡ some m
      → B.is_v4 m ≡ true
      → p ≤ 32
      → B.inet_pton4 (B.to_string m) ≡ some (mask_quad p)
      → ietf_interface_ipv46_address_change_cb R B V xpath event w ≡ (
          let early = ipv46_config_add_remove V if_name ip.string_val 0 true w in
          let own =
            ipv46_config_add_remove V if_name ip.string_val (8 * ((p + 7) / 8)) true early.1 in
          (value own.0, record { om = own.1; iter = freed }))
  unfolding ietf_interface_ipv46_address_change_cb address_body open_iter free_iter visited
  ietf_interface_ipv46_address_change_cb_rounds_up xpath event w m p ev got set read v4 short pton =
      let s : Env W = record { om = w; iter = live } in
      let plen = (netmask_to_plen-mask_quad B m v4 p short pton).0 in
      let looped = address_loop-masked m (8 * ((p + 7) / 8)) s read plen in ground (arith)
