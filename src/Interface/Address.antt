-- ===== src/Interface/Address.antt =====
-- `ipv46_config_add_remove`, `parse_interface_ipv46_address` and
-- `ietf_interface_ipv46_address_change_cb` of src/plugins/ietf/ietf_interface.cpp.
pub mod Laws
pub mod Deletes
pub mod Lengths
pub mod Clears
pub mod Netmasks
pub mod Roundtrip
pub mod Binds
pub mod Leftover
pub mod Returns
pub mod Closes
pub mod Frame
use sweetcomb.Prelude.{
  ℕ, Bool, true, false, not, Text, codes, is_empty, Option, none, some, List, [], ◌∷◌, ◌++◌, ◌&&◌,
  if◌then◌else◌,
}
use sweetcomb.Prelude.Outcome.{
  Outcome, value, throws, fault, null_pointer, bad_address, ◌>>=◌ as and_then,
}
use sweetcomb.Sysrepo.{
  SrError, ok, operation_failed, inval_arg, is_ok, Event, verify, apply, abort, enabled, created,
  modified, deleted, moved, SrType, list_t, Val, Change, Sysrepo,
}
use sweetcomb.Callback.{
  Env, M, null_ptr, pure, goto_end, crash, lift, deref, free_iter, open_iter, call_om, run_callback,
  breaks, ◌>>=◌, ◌>>◌,
}
use sweetcomb.Vom.{Vom, l3_obj}
use sweetcomb.SysUtil.{Addresses}
use sweetcomb.SysUtil.Netmask.{netmask_to_plen}

module _ {W I P A : Type 0} (V : Vom W I P A) where
  -- `KEY(l3)`
  unfoldable pub l3_key : I → P → Text
  l3_key intf pfx = codes "l3_" ++ (V.name intf ++ (codes "_" ++ V.prefix_to_string pfx))

  -- Adds or removes one prefix. The exception of `prefix_t` is caught here.
  unfoldable pub ipv46_config_add_remove : Text → Text → ℕ → Bool → W → SrError × W
  ipv46_config_add_remove if_name addr prefix add w = elim (V.find if_name w) [
    | none ↦ (inval_arg, w)
    | some intf ↦ (elim (V.make_prefix addr prefix) [
      | none ↦ (operation_failed, w)
      | some pfx ↦
          if add
          then (let written = V.write (l3_key intf pfx) (l3_obj intf pfx) w in
              (if written.0 then ok else operation_failed, written.1))
          else (ok, V.remove (l3_key intf pfx) w)
    ])
  ]

-- An address and a prefix length, as the variables `addr` and `prefix`.
pub record Entry : Type 0 where
  pub addr : Text
  pub prefix : ℕ

module _ {A : Type 0} (R : Sysrepo) (B : Addresses A) where
  unfoldable pub parse_interface_ipv46_address : Option Val → Entry → Outcome Entry
  parse_interface_ipv46_address none e = throws null_pointer
  parse_interface_ipv46_address (some v) e = elim v.val_type [
    | list_t ↦ value (record e { addr = [] })
    | _ ↦
        if R.node_name_eq v.xpath (codes "ip")
        then value (record e { addr = v.string_val })
        else if R.node_name_eq v.xpath (codes "prefix-length")
        then value (record e { prefix = v.uint8_val })
        else if R.node_name_eq v.xpath (codes "netmask")
        then (elim (B.from_string v.string_val) [
          | none ↦ throws bad_address
          | some a ↦ and_then (netmask_to_plen B a) λ p. value (record e { prefix = p })
        ])
        else value e
  ]

-- The variables of the callback that its loop writes.
pub record AddressLocals : Type 0 where
  pub new_entry : Entry
  pub old_entry : Entry
  pub op_rc : SrError
  pub create : Bool
  pub del : Bool

abbrev pub no_entry : Entry
no_entry = record { addr = []; prefix = 0 }

abbrev pub address_entry_locals : AddressLocals
address_entry_locals = record {
  new_entry = no_entry;
  old_entry = no_entry;
  op_rc = ok;
  create = false;
  del = false;
}

module _ {W A : Type 0} (R : Sysrepo) (B : Addresses A) where
  -- The `switch` inside `try`: what a step has written before an exception stays written.
  unfoldable pub parse_new : AddressLocals → Change → M W AddressLocals
  parse_new l c s = elim (parse_interface_ipv46_address R B c.new_val l.new_entry) [
    | value e ↦ pure (record l { new_entry = e }) s
    | throws x ↦ pure l s
    | fault u ↦ crash u s
  ]

  unfoldable pub parse_old : AddressLocals → Change → M W AddressLocals
  parse_old l c s = elim (parse_interface_ipv46_address R B c.old_val l.old_entry) [
    | value e ↦ pure (record l { old_entry = e }) s
    | throws x ↦ pure l s
    | fault u ↦ crash u s
  ]

  unfoldable pub parse_change : AddressLocals → Change → M W AddressLocals
  parse_change l c s = elim c.oper [
    | created ↦ parse_new (record l { create = true }) c s
    | modified ↦
        let l' : AddressLocals = record l { create = true; del = true } in
        (elim (parse_interface_ipv46_address R B c.old_val l.old_entry) [
          | value e ↦ parse_new (record l' { old_entry = e }) c s
          | throws x ↦ pure l' s
          | fault u ↦ crash u s
        ])
    | deleted ↦ parse_old (record l { del = true }) c s
    | moved ↦ pure l s
  ]

module _ {W I P A : Type 0} (R : Sysrepo) (B : Addresses A) (V : Vom W I P A) where
  -- `if (del && !old_addr.empty()) …`
  unfoldable pub delete_if : Text → AddressLocals → M W AddressLocals
  delete_if if_name l =
      if l.del && not (is_empty l.old_entry.addr)
      then (do
        op_rc ←
            call_om (ipv46_config_add_remove V if_name l.old_entry.addr l.old_entry.prefix false)
        pure (record l { op_rc = op_rc }))
      else pure l

  -- `if (create && !new_addr.empty()) …`
  unfoldable pub create_if : Text → AddressLocals → M W AddressLocals
  create_if if_name l =
      if l.create && not (is_empty l.new_entry.addr)
      then (do
        op_rc ← call_om (ipv46_config_add_remove V if_name l.new_entry.addr l.new_entry.prefix true)
        pure (record l { op_rc = op_rc }))
      else pure l

  -- The value whose xpath names the interface.
  abbrev pub shown_val : Change → Option Val
  shown_val c = elim c.new_val [ some v ↦ some v | none ↦ c.old_val ]

  -- The body of the `foreach_change` loop.
  unfoldable pub address_change : AddressLocals → Change → M W AddressLocals
  address_change l c = do
    v ← deref (shown_val c)
    if_name ← deref (R.key_value v.xpath (codes "interface") (codes "name"))
    if is_empty if_name
        then goto_end operation_failed
        else (do l₁ ← parse_change R B l c; l₂ ← delete_if if_name l₁; create_if if_name l₂)

  unfoldable pub address_loop : AddressLocals → List Change → M W AddressLocals
  address_loop l [] = pure l
  address_loop l (c ∷ cs) = address_change l c >>= λ l'. address_loop l' cs

  -- The changes that `foreach_change` visits: none if the event is SR_EV_ABORT.
  unfoldable pub visited : Event → List Change → List Change
  visited abort cs = []
  visited verify cs = cs
  visited apply cs = cs
  visited enabled cs = cs

  unfoldable pub address_body : Text → Event → M W SrError
  address_body xpath event = do
    rc ← open_iter (R.get_changes_iter xpath)
    if is_ok rc
        then (do
          l ← address_loop address_entry_locals (visited event (R.changes xpath))
          free_iter
          pure l.op_rc)
        else (do free_iter; pure rc)

  unfoldable pub ietf_interface_ipv46_address_change_cb : Text → Event → W → Outcome SrError × Env W
  ietf_interface_ipv46_address_change_cb xpath event = elim event [
    | apply ↦ run_callback null_ptr (pure ok)
    | other ↦ run_callback null_ptr (address_body xpath other)
  ]
