-- ===== src/Interface/Address/Lengths.antt =====
-- What `ietf_interface_ipv46_address_change_cb` does when only prefix lengths are modified.
use sweetcomb.Prelude.{
  true, false, Text, codes, is_empty, some, List, [], ◌∷◌, map, All, ◌≡◌, ◌⊎◌, refl, ◌≢◌, arith,
}
use sweetcomb.Prelude.Outcome.{value}
use sweetcomb.Sysrepo.{
  ok, Event, verify, enabled, modified, list_t, Val, Change, Sysrepo, NamesNodes,
}
use sweetcomb.Callback.{Env, next, live, freed, free_iter, open_iter}
use sweetcomb.Vom.{Vom}
use sweetcomb.SysUtil.{Addresses}
use sweetcomb.Interface.Address.{
  AddressLocals, address_entry_locals, parse_new, parse_change, delete_if, create_if,
  address_change, address_loop, visited, address_body, ietf_interface_ipv46_address_change_cb,
}
use sweetcomb.Interface.Address.Laws.{In, parse_length}

-- The value of a `prefix-length` node.
pub record IsLength (R : Sysrepo) (v : Val) : Type 0 where
  pub number : v.val_type ≢ list_t
  pub length_name : R.node_name_eq v.xpath (codes "prefix-length") ≡ true

-- A node is modified from one value to another.
abbrev pub modification : Val × Val → Change
modification (was, is) = record { oper = modified; old_val = some was; new_val = some is }

-- Both are values of a `prefix-length` node, the new one of the interface.
abbrev pub AreLengths : Sysrepo → Text → Val × Val → Type 0
AreLengths R if_name (was, is) = In R if_name is × IsLength R was × IsLength R is

module _ {W I P A : Type 0} (R : Sysrepo) (B : Addresses A) (V : Vom W I P A) (if_name : Text)
    (N : NamesNodes R) (named : is_empty if_name ≡ false) where
  -- No address has been read yet.
  abbrev NoAddress : AddressLocals → Type 0
  NoAddress l = (l.new_entry.addr ≡ []) × (l.old_entry.addr ≡ []) × (l.op_rc ≡ ok)

  length_modified :
      (l : AddressLocals) (was is : Val) (s : Env W)
      → AreLengths R if_name (was, is)
      → NoAddress l
      → (l' : AddressLocals) × (address_change R B V l (modification (was, is)) s ≡ (next l', s))
        × NoAddress l'
  unfolding address_change parse_change parse_new delete_if create_if
  length_modified l was is s (inside, h, h') (no_new, no_old, fine) = (
    record {
      new_entry = record l.new_entry { prefix = is.uint8_val };
      old_entry = record l.old_entry { prefix = was.uint8_val };
      op_rc = l.op_rc;
      create = true;
      del = true;
    },
    rw (
      inside,
      named,
      parse_change,
      parse_length R B V if_name N named was l.old_entry h.number h.length_name,
      parse_new,
      parse_length R B V if_name N named is l.new_entry h'.number h'.length_name,
      delete_if,
      create_if,
      no_new,
      no_old,
    ),
    (no_new, no_old, fine),
  )

  address_loop-modified :
      (l : AddressLocals) (ps : List (Val × Val)) (s : Env W)
      → All (AreLengths R if_name) ps
      → NoAddress l
      → (l' : AddressLocals) × (address_loop R B V l (map modification ps) s ≡ (next l', s))
        × (l'.op_rc ≡ ok)
  unfolding address_loop
  address_loop-modified l [] s h (no_new, no_old, fine) = (l, refl, fine)
  address_loop-modified l ((was, is) ∷ ps) s h none_yet =
      let (l₁, step, none_yet') = length_modified l was is s h.0 none_yet in
      let (l₂, rest, fine) = address_loop-modified l₁ ps s h.1 none_yet' in (l₂, rw step rest, fine)

  -- On SR_EV_VERIFY and SR_EV_ENABLED, when the change iterator can be had and an xpath has one
  -- node name: a change set that only modifies prefix lengths of addresses of a named interface
  -- is answered by SR_ERR_OK, nothing is removed or written, and the iterator is freed.
  pub ietf_interface_ipv46_address_change_cb_drops_lengths :
      (xpath : Text) (event : Event) (w : W) (ps : List (Val × Val))
      → (event ≡ verify) ⊎ (event ≡ enabled)
      → R.get_changes_iter xpath ≡ ok
      → R.changes xpath ≡ map modification ps
      → All (AreLengths R if_name) ps
      → ietf_interface_ipv46_address_change_cb R B V xpath event w
        ≡ (value ok, record { om = w; iter = freed })
  unfolding ietf_interface_ipv46_address_change_cb address_body open_iter free_iter visited
  ietf_interface_ipv46_address_change_cb_drops_lengths xpath event w ps ev got set h =
      let s : Env W = record { om = w; iter = live } in
      let (l, looped, rc) = address_loop-modified address_entry_locals ps s h (refl, refl, refl) in
      ground (arith)
