-- ===== src/Nat/Config/Order.antt =====
-- `nat_mapping_table_config_cb` of src/plugins/ietf/ietf_nat.cpp on the same nodes in two orders.
use sweetcomb.Prelude.{ℕ, ◌≤◌, true, Text, codes, some, List, map, ap, All, ◌≡◌, ◌∙◌, sym}
use mathlib.Core.List.{Permᴰ}
use sweetcomb.Sysrepo.{ok, verify, Val, Sysrepo, NamesNodes}
use sweetcomb.Vom.{Vom}
use sweetcomb.SysUtil.{Addresses}
use sweetcomb.Interface.Changes.{Edits, change_of, edited, created_in, last_or}
use sweetcomb.Interface.Changes.Order.{
  times, edited-perm, created_in-perm, deleted_in-perm, All-perm, has_node-perm, last_val-perm,
}
use sweetcomb.SysUtil.Prefix.{default_prefix}
use sweetcomb.Nat.Config.{NatState, NatGarbage, nat_mapping_table_config_cb}
use sweetcomb.Nat.Config.Laws.{source_address}
use sweetcomb.Nat.Config.Loop.{IsReadable, prefix_of}
use sweetcomb.Nat.Config.Edits.{edit_mapping, nat_mapping_table_config_cb-edit_mapping}

module _ (R : Sysrepo) where
  -- At most one index, and at most one type and one of each source address among the created nodes.
  pub record IsOneMapping (es : Edits) : Type 0 where
    pub index : times R (codes "index") (edited es) ≤ 1
    pub type : times R (codes "type") (created_in es) ≤ 1
    pub internal : times R (codes "internal-src-address") (created_in es) ≤ 1
    pub external : times R (codes "external-src-address") (created_in es) ≤ 1

module _ {W I P A : Type 0} (R : Sysrepo) (B : Addresses A) (V : Vom W I P A) where
  source_address-perm :
      (n : Text) (k : ℕ) {vs us : List Val}
      → Permᴰ vs us
      → times R n vs ≤ 1
      → source_address R B V n vs k ≡ source_address R B V n us k
  source_address-perm n k d h =
      ap (λ o. (last_or (λ v. prefix_of B v.string_val) o (default_prefix B k)).m_address)
        (last_val-perm R n d h)

  edit_mapping-perm :
      (g : NatGarbage) (st : NatState W A) (es fs : Edits)
      → Permᴰ es fs
      → IsOneMapping R es
      → edit_mapping R B V g es st ≡ edit_mapping R B V g fs st
  unfolding edit_mapping
  edit_mapping-perm g st es fs d h = rw (
    last_val-perm R (codes "index") (edited-perm d) h.index,
    last_val-perm R (codes "type") (created_in-perm d) h.type,
    source_address-perm (codes "internal-src-address") g.internal_src_len (created_in-perm d)
        h.internal,
    source_address-perm (codes "external-src-address") g.external_src_len (created_in-perm d)
        h.external,
    has_node-perm R (codes "index") (created_in-perm d),
    has_node-perm R (codes "index") (deleted_in-perm d),
  )

  -- On SR_EV_VERIFY, when both change iterators can be had and an xpath has one node name: two
  -- xpaths whose change sets are the same created and deleted nodes in two orders, every created
  -- address node holding a prefix, with at most one index among them and at most one created type
  -- and one of each source address, make the callback do the same, the values on entry being the
  -- same.
  pub nat_mapping_table_config_cb-perm :
      (x y : Text) (g : NatGarbage) (st : NatState W A) (es fs : Edits)
      → NamesNodes R
      → R.get_changes_iter x ≡ ok
      → R.get_changes_iter y ≡ ok
      → R.changes x ≡ map change_of es
      → R.changes y ≡ map change_of fs
      → All (IsReadable R B) (created_in es)
      → Permᴰ es fs
      → IsOneMapping R es
      → nat_mapping_table_config_cb B V R true (some x) verify g st
        ≡ nat_mapping_table_config_cb B V R true (some y) verify g st
  nat_mapping_table_config_cb-perm x y g st es fs N got got' set set' readable d h =
      nat_mapping_table_config_cb-edit_mapping R B V x g st es N got set readable
      ∙ edit_mapping-perm g st es fs d h
      ∙ sym (
          nat_mapping_table_config_cb-edit_mapping R B V y g st fs N got' set'
            (All-perm (IsReadable R B) (created_in-perm d) readable))
