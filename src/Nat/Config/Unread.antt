-- ===== src/Nat/Config/Unread.antt =====
-- `nat_mapping_table_config_cb` of src/plugins/ietf/ietf_nat.cpp on an address that is no prefix.
use sweetcomb.Prelude.{
  true, Text, codes, text_eq, some, List, ◌∷◌, ◌++◌, map, All, ◌≡◌, refl, inl, inr, Bool-cases,
  arith,
}
use sweetcomb.Prelude.Outcome.{Exception, throws, fault, uncaught}
use sweetcomb.Sysrepo.{ok, verify, Val, Change, Sysrepo, NamesNodes}
use sweetcomb.Callback.{Env, raises, live, open_iter, arg_check, arg_check2}
use sweetcomb.Vom.{Vom}
use sweetcomb.SysUtil.{Addresses}
use sweetcomb.SysUtil.Prefix.{make_prefix}
use sweetcomb.Interface.Changes.{creation, exclusive}
use sweetcomb.Nat.Builder.{set_internal_src, set_external_src, set_internal_dest, set_external_dest}
use sweetcomb.Nat.Config.{
  NatState, NatLocals, NatGarbage, nat_entry_locals, nat_created, nat_change, nat_loop, nat_body,
  nat_mapping_table_config_cb,
}
use sweetcomb.Nat.Config.Loop.{IsReadable, is_address_node, nat_collected, nat_loop-created}
use sweetcomb.Nat.Config.Mixed.{nat_loop-append}

module _ {A : Type 0} (R : Sysrepo) (B : Addresses A) where
  -- A node with one of the names has no other.
  nat_created-throws :
      (l : NatLocals A) (v : Val) (e : Exception)
      → NamesNodes R
      → is_address_node R B v ≡ true
      → make_prefix B v.string_val ≡ throws e
      → nat_created R B l v ≡ throws e
  unfolding nat_created set_internal_src set_external_src set_internal_dest set_external_dest
      text_eq
  nat_created-throws l v e N h bad = elim (Bool-cases (R.node_name_eq v.xpath (codes "index"))) [
    | inl y ↦ absurd (
        ground (
          arith,
          exclusive R N v.xpath (codes "index") (codes "internal-src-address") refl y,
          exclusive R N v.xpath (codes "index") (codes "external-src-address") refl y,
          exclusive R N v.xpath (codes "index") (codes "internal-dst-address") refl y,
          exclusive R N v.xpath (codes "index") (codes "external-dst-address") refl y,
        ))
    | inr n0 ↦ elim (Bool-cases (R.node_name_eq v.xpath (codes "type"))) [
      | inl y ↦ absurd (
          ground (
            arith,
            exclusive R N v.xpath (codes "type") (codes "internal-src-address") refl y,
            exclusive R N v.xpath (codes "type") (codes "external-src-address") refl y,
            exclusive R N v.xpath (codes "type") (codes "internal-dst-address") refl y,
            exclusive R N v.xpath (codes "type") (codes "external-dst-address") refl y,
          ))
      | inr n1 ↦ ground (arith, n0, n1, bad)
    ]
  ]

module _ {W I P A : Type 0} (R : Sysrepo) (B : Addresses A) (V : Vom W I P A) where
  nat_loop-raises :
      (l : NatLocals A) (v : Val) (e : Exception) (rest : List Change) (s : Env (NatState W A))
      → nat_created R B l v ≡ throws e
      → nat_loop R B l (creation v ∷ rest) s ≡ (raises e, s)
  unfolding nat_loop nat_change
  nat_loop-raises l v e rest s bad = rw bad

  -- On SR_EV_VERIFY, when the change iterator can be had and an xpath has one node name: an
  -- address node whose value is no prefix, wherever it is created behind nodes that can be read,
  -- makes the callback end in an exception that nothing catches. VOM and the table are as before,
  -- and the iterator is left open.
  pub nat_mapping_table_config_cb_uncaught :
      (xpath : Text) (g : NatGarbage) (st : NatState W A) (vs : List Val) (v : Val) (e : Exception)
      (rest : List Change)
      → NamesNodes R
      → R.get_changes_iter xpath ≡ ok
      → R.changes xpath ≡ map creation vs ++ creation v ∷ rest
      → All (IsReadable R B) vs
      → is_address_node R B v ≡ true
      → make_prefix B v.string_val ≡ throws e
      → nat_mapping_table_config_cb B V R true (some xpath) verify g st
        ≡ (fault (uncaught e), record { om = st; iter = live })
  unfolding nat_mapping_table_config_cb nat_body arg_check arg_check2 open_iter
  nat_mapping_table_config_cb_uncaught xpath g st vs v e rest N got set readable h bad =
      let l = nat_entry_locals B g in
      let l' = nat_collected R B l vs in
      let s : Env (NatState W A) = record { om = st; iter = live } in
      let apart = nat_loop-append R B l (map creation vs) (creation v ∷ rest) s in
      let stops = nat_loop-raises l' v e rest s (nat_created-throws R B l' v e N h bad) in
      rw (got, set, apart, nat_loop-created R B l vs s N readable, stops)
