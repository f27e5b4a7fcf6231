-- ===== src/Nat/Config.antt =====
-- The callbacks of src/plugins/ietf/ietf_nat.cpp that take configuration, and the table of static
-- mappings, a variable of the file.
pub mod Loop
pub mod Laws
pub mod Mirror
pub mod Mixed
pub mod Unread
pub mod Edits
pub mod Order
use sweetcomb.Prelude.{
  ℕ, Bool, true, false, Text, codes, Option, none, some, List, [], ◌∷◌, ◌==◌, if◌then◌else◌,
}
use sweetcomb.Prelude.Outcome.{Outcome, value, ◌>>=◌ as and_then}
use sweetcomb.Decimal.{show}
use sweetcomb.Sysrepo.{
  SrError, ok, operation_failed, inval_arg, unsupported, is_ok, Event, verify, created, modified,
  deleted, moved, Val, Change, Sysrepo,
}
use sweetcomb.Callback.{
  Env, M, wild, null_ptr, pure, present, arg_check2, goto_end, lift, deref, free_iter, open_iter,
  update_om, call_om, run_callback, ◌>>=◌, ◌>>◌,
}
use sweetcomb.Vom.{Vom, nat_obj}
use sweetcomb.SysUtil.{Addresses}
use sweetcomb.Nat.Builder.{
  NatBuilder, new_nat_builder, build, set_type, set_internal_src, set_external_src,
  set_internal_dest, set_external_dest,
}

-- `std::map<uint32_t, nat_pair_t>`
abbrev pub NatTable : Type 0 → Type 0
NatTable A = ℕ → Option (A × A)

-- `table[index] = pair` and `table.erase(index)`
abbrev pub table_set : {A : Type 0} → NatTable A → ℕ → Option (A × A) → NatTable A
table_set t i e j = if i == j then e else t j

-- The state of VOM and `static_mapping_table`.
pub record NatState (W A : Type 0) : Type 0 where
  pub vom : W
  pub static_mapping_table : NatTable A

-- `nat_instance_config_cb`
unfoldable pub nat_instance_config_cb : {S : Type 0} → Event → S → Outcome SrError × Env S
nat_instance_config_cb event = run_callback null_ptr (pure ok)

pub record NatLocals (A : Type 0) : Type 0 where
  pub builder : NatBuilder A
  pub xindex : ℕ
  pub create : Bool
  pub remove : Bool

-- What the variables without an initialiser hold on entry.
pub record NatGarbage : Type 0 where
  pub xindex : ℕ
  pub create : Bool
  pub remove : Bool
  pub internal_src_len : ℕ
  pub external_src_len : ℕ
  pub internal_dest_len : ℕ
  pub external_dest_len : ℕ

module _ {A : Type 0} (B : Addresses A) where
  unfoldable pub nat_entry_locals : NatGarbage → NatLocals A
  nat_entry_locals g = record {
    builder =
        new_nat_builder B g.internal_src_len g.external_src_len g.internal_dest_len
          g.external_dest_len;
    xindex = g.xindex;
    create = g.create;
    remove = g.remove;
  }

module _ {A : Type 0} (R : Sysrepo) (B : Addresses A) where
  abbrev with_builder : NatLocals A → Outcome (NatBuilder A) → Outcome (NatLocals A)
  with_builder l r = and_then r λ b. value (record l { builder = b })

  -- `case SR_OP_CREATED`
  unfoldable pub nat_created : NatLocals A → Val → Outcome (NatLocals A)
  nat_created l v =
      if R.node_name_eq v.xpath (codes "index")
      then value (record l { xindex = v.uint32_val; create = true })
      else if R.node_name_eq v.xpath (codes "type")
      then value (record l { builder = set_type v.string_val l.builder })
      else if R.node_name_eq v.xpath (codes "internal-src-address")
      then with_builder l (set_internal_src B v.string_val l.builder)
      else if R.node_name_eq v.xpath (codes "external-src-address")
      then with_builder l (set_external_src B v.string_val l.builder)
      else if R.node_name_eq v.xpath (codes "internal-dst-address")
      then with_builder l (set_internal_dest B v.string_val l.builder)
      else if R.node_name_eq v.xpath (codes "external-dst-address")
      then with_builder l (set_external_dest B v.string_val l.builder)
      else value l

  -- `case SR_OP_DELETED`
  unfoldable pub nat_deleted : NatLocals A → Val → NatLocals A
  nat_deleted l v =
      if R.node_name_eq v.xpath (codes "index")
      then record l { xindex = v.uint32_val; remove = true }
      else l

module _ {S A : Type 0} (R : Sysrepo) (B : Addresses A) where
  unfoldable pub nat_change : NatLocals A → Change → M S (NatLocals A)
  nat_change l c = elim c.oper [
    | created ↦ (do ne ← deref c.new_val; lift (nat_created R B l ne))
    | deleted ↦ (do ol ← deref c.old_val; pure (nat_deleted R B l ol))
    | modified ↦ goto_end unsupported
    | moved ↦ goto_end unsupported
  ]

  -- The `foreach_change` loop.
  unfoldable pub nat_loop : NatLocals A → List Change → M S (NatLocals A)
  nat_loop l [] = pure l
  nat_loop l (c ∷ cs) = nat_change l c >>= λ l'. nat_loop l' cs

module _ {W I P A : Type 0} (B : Addresses A) (V : Vom W I P A) where
  -- `OM::write(KEY(xindex), *ns)`
  abbrev pub om_write : ℕ → A × A → NatState W A → Bool × NatState W A
  om_write xindex ns st =
      let r = V.write (show xindex) (nat_obj ns.0 ns.1) st.vom in (r.0, record st { vom = r.1 })

  -- `OM::remove(KEY(xindex)); static_mapping_table.erase(xindex);`
  abbrev pub om_remove : ℕ → NatState W A → NatState W A
  om_remove xindex st = record {
    vom = V.remove (show xindex) st.vom;
    static_mapping_table = table_set st.static_mapping_table xindex none;
  }

  -- From the end of the loop to the return. The iterator is freed first, and again at the label
  -- `error` when the mapping cannot be built or written.
  unfoldable pub nat_commit : NatLocals A → M (NatState W A) SrError
  nat_commit l = do
    free_iter
    (if l.create
        then (do
          let (b, made) = build B l.builder
          ns ← elim made [ none ↦ goto_end inval_arg | some ns ↦ pure ns ]
          written ← call_om (om_write l.xindex ns)
          if written
              then update_om (λ st. record st {
                static_mapping_table =
                    table_set st.static_mapping_table l.xindex (some (b.m_inside, b.m_outside));
              })
              else goto_end operation_failed)
        else if l.remove
        then update_om (om_remove l.xindex)
        else pure tt)
    pure ok

  -- `ds` and `xpath` may be null. The iterator pointer has no initialiser.
  unfoldable pub nat_body :
      Sysrepo → Bool → Option Text → Event → NatGarbage → M (NatState W A) SrError
  nat_body R ds xpath event g = do
    arg_check2 inval_arg ds (present xpath)
    xpath ← deref xpath
    elim event [
      | verify ↦ do
        rc ← open_iter (R.get_changes_iter xpath)
        if is_ok rc
            then (do l ← nat_loop R B (nat_entry_locals B g) (R.changes xpath); nat_commit l)
            else goto_end rc
      | _ ↦ pure ok
    ]

  unfoldable pub nat_mapping_table_config_cb :
      Sysrepo
      → Bool
      → Option Text
      → Event
      → NatGarbage
      → NatState W A
      → Outcome SrError × Env (NatState W A)
  nat_mapping_table_config_cb R ds xpath event g = run_callback wild (nat_body R ds xpath event g)
