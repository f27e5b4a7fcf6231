-- ===== src/Examples/Netmask.antt =====
-- An address with the netmask 255.255.240.0.
use sweetcomb.Prelude.{false, codes, text_eq, [], ◌∷◌, ◌≡◌, ◌≢◌, refl, inl, subst, arith}
use sweetcomb.Prelude.Outcome.{value}
use sweetcomb.Decimal.{show}
use sweetcomb.Sysrepo.{SrError, ok, verify, string_t, list_t, Val, Sysrepo}
use sweetcomb.Callback.{live, freed}
use sweetcomb.SysUtil.{Quad}
use sweetcomb.SysUtil.Netmask.Laws.{IsQuad, WritesBytes}
use sweetcomb.Interface.Changes.{creation}
use sweetcomb.Interface.Address.{
  l3_key, ipv46_config_add_remove, ietf_interface_ipv46_address_change_cb,
}
use sweetcomb.Interface.Address.Netmasks.{
  IsMasked, ietf_interface_ipv46_address_change_cb_rounds_up,
}
use sweetcomb.Interface.Address.Returns.{IsShown, ietf_interface_ipv46_address_change_cb_returns}
use sweetcomb.Examples.World.{
  node_of, sysrepo_with, sysrepo_with-NamesNodes, log_vom, texts_as_addresses, quad_255_255_240_0,
  val,
}

abbrev item : Val
item = val (codes "ipv4/address") list_t [] 0 false

abbrev ip : Val
ip = val (codes "address/ip") string_t (codes "10.0.0.1") 0 false

abbrev mask : Val
mask = val (codes "address/netmask") string_t (codes "255.255.240.0") 0 false

abbrev reported : Sysrepo
reported = sysrepo_with (creation item ∷ creation ip ∷ creation mask ∷ [])

nodes-IsMasked : IsMasked reported (codes "eth0") item ip mask
unfolding node_of text_eq
nodes-IsMasked = record {
  item_in = refl;
  ip_in = refl;
  mask_in = refl;
  item_list = refl;
  ip_string = λ e. cc;
  mask_string = λ e. cc;
  ip_name = refl;
  mask_name = refl;
  full = refl;
}

ietf_interface_ipv46_address_change_cb_rounds_up_example :
    ietf_interface_ipv46_address_change_cb reported
      (texts_as_addresses quad_255_255_240_0)
      log_vom
      (codes "address")
      verify
      []
    ≡ (
      value ok,
      record { om = codes "l3_eth0_10.0.0.1/24" ∷ codes "l3_eth0_10.0.0.1/0" ∷ []; iter = freed },
    )
unfolding ipv46_config_add_remove l3_key show
ietf_interface_ipv46_address_change_cb_rounds_up_example =
    ietf_interface_ipv46_address_change_cb_rounds_up reported
      (texts_as_addresses quad_255_255_240_0) log_vom (codes "eth0")
      (sysrepo_with-NamesNodes (creation item ∷ creation ip ∷ creation mask ∷ [])) refl item ip mask
      nodes-IsMasked (codes "address") verify [] (codes "255.255.240.0") 20 (inl refl) refl refl
      refl refl (omega arith) refl

node-IsShown : (v : Val) → IsShown reported (texts_as_addresses quad_255_255_240_0) (creation v)
node-IsShown v = record {
  val = v;
  if_name = codes "eth0";
  shown = inl refl;
  named = refl;
  old_mask = λ u a e m r. refl;
  new_mask = λ u a e m r. refl;
}

quad-WritesBytes : WritesBytes (texts_as_addresses quad_255_255_240_0)
quad-WritesBytes t q e =
    let same : quad_255_255_240_0 ≡ q = cc in
    subst (λ (r : Quad). IsQuad r) same (omega arith, omega arith, omega arith, omega arith)

ietf_interface_ipv46_address_change_cb_returns_example :
    (rc : SrError) × ((ietf_interface_ipv46_address_change_cb reported
        (texts_as_addresses quad_255_255_240_0)
        log_vom
        (codes "address")
        verify
        []).0
      ≡ value rc)
    × ((ietf_interface_ipv46_address_change_cb reported
          (texts_as_addresses quad_255_255_240_0)
          log_vom
          (codes "address")
          verify
          []).1.iter
        ≢ live)
ietf_interface_ipv46_address_change_cb_returns_example =
    ietf_interface_ipv46_address_change_cb_returns reported (texts_as_addresses quad_255_255_240_0)
      log_vom quad-WritesBytes (codes "address") verify []
      (node-IsShown item, (node-IsShown ip, (node-IsShown mask, tt)))
