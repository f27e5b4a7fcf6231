-- ===== src/Interface/OpenConfig.antt =====
-- `oc_interfaces_config_cb` of src/plugins/openconfig/openconfig_interfaces.cpp.
pub mod Builder
pub mod Laws
pub mod Frame
use sweetcomb.Prelude.{
  Bool, true, false, Text, codes, is_empty, Option, none, some, List, [], ◌∷◌, ◌||◌, if◌then◌else◌,
}
use sweetcomb.Prelude.Outcome.{Outcome}
use sweetcomb.Sysrepo.{
  SrError, ok, operation_failed, inval_arg, unsupported, is_ok, Event, verify, created, modified,
  deleted, moved, Val, Change, Sysrepo,
}
use sweetcomb.Callback.{
  Env, M, null_ptr, pure, present, arg_check2, goto_end, return_with, deref, free_iter, open_iter,
  update_om, call_om, gets_om, run_callback, ◌>>=◌, ◌>>◌,
}
use sweetcomb.Vom.{Vom, interface_obj}
use sweetcomb.Interface.Create.{Locals, Garbage}
use sweetcomb.Interface.OpenConfig.Builder.{new_builder, set_name, set_type, set_state, name, build}

-- The variables on entry: those of `ietf_interface_create_cb`, and the class's own constructor.
unfoldable pub config_locals : (I : Type 0) → Garbage → Locals I
config_locals I g = record {
  builder = new_builder g.m_state;
  intf = none;
  create = g.create;
  remove = g.remove;
  modify = g.modify;
}

module _ {W I P A : Type 0} (R : Sysrepo) (V : Vom W I P A) where
  -- The name of the interface, which the loop reads first. A null name is copied into a string.
  unfoldable pub config_name : Val → M W (Unit {0})
  config_name v = do
    intf_name ← deref (R.key_value v.xpath (codes "interface") (codes "name"))
    if is_empty intf_name then return_with inval_arg else pure tt

  unfoldable pub config_created : Locals I → Val → M W (Locals I)
  config_created l v =
      if R.node_name_eq v.xpath (codes "name")
      then pure (record l { builder = set_name v.string_val l.builder; create = true })
      else if R.node_name_eq v.xpath (codes "type")
      then pure (record l { builder = set_type v.string_val l.builder })
      else if R.node_name_eq v.xpath (codes "enabled")
      then pure (record l { builder = set_state v.bool_val l.builder })
      else pure l

  unfoldable pub config_modified : Locals I → Val → M W (Locals I)
  config_modified l v =
      if R.node_name_eq v.xpath (codes "enabled")
      then (do
        n ← deref (R.key_value v.xpath (codes "interface") (codes "name"))
        found ← gets_om (V.find n)
        elim found [
          | none ↦ goto_end operation_failed
          | some i ↦ do
            update_om (V.set_state i v.bool_val)
            pure (record l { intf = some i; modify = true })
        ])
      else pure l

  unfoldable pub config_deleted : Locals I → Val → M W (Locals I)
  config_deleted l v =
      if R.node_name_eq v.xpath (codes "name")
      then pure (record l { builder = set_name v.string_val l.builder; remove = true })
      else pure l

  -- The body of the `foreach_change` loop: `ne` is read whatever the operation is.
  unfoldable pub config_change : Locals I → Change → M W (Locals I)
  config_change l c = do
    ne ← deref c.new_val
    config_name ne
    elim c.oper [
      | created ↦ config_created l ne
      | modified ↦ config_modified l ne
      | deleted ↦ (do ol ← deref c.old_val; config_deleted l ol)
      | moved ↦ goto_end unsupported
    ]

  unfoldable pub config_loop : Locals I → List Change → M W (Locals I)
  config_loop l [] = pure l
  config_loop l (c ∷ cs) = config_change l c >>= λ l'. config_loop l' cs

  unfoldable pub config_commit : Locals I → M W SrError
  config_commit l = do
    intf ←
        if l.create
        then (do
          made ← build V l.builder
          elim made [ none ↦ goto_end inval_arg | some i ↦ pure (some i) ])
        else pure l.intf
    (if l.create || l.modify
        then (do
          i ← deref intf
          written ← call_om (V.write (V.key i) (interface_obj i))
          if written then pure tt else goto_end operation_failed)
        else if l.remove
        then update_om (V.remove (name l.builder))
        else pure tt)
    free_iter
    pure ok

  -- The callback for a session that is there or not, and an xpath that is there or not. A change
  -- set that cannot be read is answered by SR_ERR_OK.
  unfoldable pub config_body : Bool → Option Text → Event → Garbage → M W SrError
  config_body ds xpath event g = do
    arg_check2 inval_arg ds (present xpath)
    xpath ← deref xpath
    elim event [
      | verify ↦ do
        rc ← open_iter (R.get_changes_iter xpath)
        if is_ok rc
            then (do l ← config_loop (config_locals I g) (R.changes xpath); config_commit l)
            else (do free_iter; pure ok)
      | _ ↦ pure ok
    ]

  unfoldable pub oc_interfaces_config_cb :
      Bool → Option Text → Event → Garbage → W → Outcome SrError × Env W
  oc_interfaces_config_cb ds xpath event g = run_callback null_ptr (config_body ds xpath event g)
