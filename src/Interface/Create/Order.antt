-- ===== src/Interface/Create/Order.antt =====
-- `ietf_interface_create_cb` of src/plugins/ietf/ietf_interface.cpp on the same nodes in two orders.
use sweetcomb.Prelude.{◌≤◌, Text, codes, map, ◌≡◌, ◌∙◌, sym}
use mathlib.Core.List.{Permᴰ}
use sweetcomb.Sysrepo.{ok, verify, Sysrepo, NamesNodes}
use sweetcomb.Vom.{Vom}
use sweetcomb.Interface.Changes.{Edits, change_of, edited, created_in}
use sweetcomb.Interface.Changes.Order.{
  times, edited-perm, created_in-perm, deleted_in-perm, has_node-perm, has_value-perm,
  last_val-perm,
}
use sweetcomb.Interface.Create.{Garbage, ietf_interface_create_cb}
use sweetcomb.Interface.Create.Edits.{edit_interface, ietf_interface_create_cb-edit_interface}

module _ {W I P A : Type 0} (R : Sysrepo) (V : Vom W I P A) where
  edit_interface-perm :
      (g : Garbage) (w : W) (es fs : Edits)
      → Permᴰ es fs
      → times R (codes "name") (edited es) ≤ 1
      → times R (codes "enabled") (created_in es) ≤ 1
      → edit_interface R V g es w ≡ edit_interface R V g fs w
  unfolding edit_interface
  edit_interface-perm g w es fs d name enabled = rw (
    last_val-perm R (codes "name") (edited-perm d) name,
    last_val-perm R (codes "enabled") (created_in-perm d) enabled,
    has_node-perm R (codes "name") (created_in-perm d),
    has_node-perm R (codes "name") (deleted_in-perm d),
    has_value-perm R (codes "type") (created_in-perm d) (codes "iana-if-type:ethernetCsmacd"),
  )

  -- On SR_EV_VERIFY, when both change iterators can be had and an xpath has one node name: two
  -- xpaths whose change sets are the same created and deleted nodes in two orders, with at most
  -- one name among them and at most one created `enabled`, make the callback do the same, the
  -- values on entry being the same.
  pub ietf_interface_create_cb-perm :
      (x y : Text) (g : Garbage) (w : W) (es fs : Edits)
      → NamesNodes R
      → R.get_changes_iter x ≡ ok
      → R.get_changes_iter y ≡ ok
      → R.changes x ≡ map change_of es
      → R.changes y ≡ map change_of fs
      → Permᴰ es fs
      → times R (codes "name") (edited es) ≤ 1
      → times R (codes "enabled") (created_in es) ≤ 1
      → ietf_interface_create_cb R V x verify g w ≡ ietf_interface_create_cb R V y verify g w
  ietf_interface_create_cb-perm x y g w es fs N got got' set set' d name enabled =
      ietf_interface_create_cb-edit_interface R V x g w es N got set
      ∙ edit_interface-perm g w es fs d name enabled
      ∙ sym (ietf_interface_create_cb-edit_interface R V y g w fs N got' set')
