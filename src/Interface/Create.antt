-- ===== src/Interface/Create.antt =====
-- `ietf_interface_create_cb` of src/plugins/ietf/ietf_interface.cpp.
pub mod Loop
pub mod Laws
pub mod Modify
pub mod Returns
pub mod Edits
pub mod Order
use sweetcomb.Prelude.{
  Bool, true, false, Text, codes, Option, none, some, List, [], ◌∷◌, ◌||◌, if◌then◌else◌,
}
use sweetcomb.Prelude.Outcome.{Outcome, value, null_deref}
use sweetcomb.Sysrepo.{
  SrError, ok, operation_failed, inval_arg, unsupported, is_ok, Event, verify, created, modified,
  deleted, moved, Val, Change, Sysrepo,
}
use sweetcomb.Callback.{
  Env, M, null_ptr, pure, goto_end, return_with, crash, deref, free_iter, open_iter, update_om,
  call_om, gets_om, run_callback, ◌>>=◌, ◌>>◌,
}
use sweetcomb.Vom.{Vom, interface_obj}
use sweetcomb.Interface.{Builder, new_builder, set_name, set_type, set_state, build}

-- The variables of the callback that its loop writes.
pub record Locals (I : Type 0) : Type 0 where
  pub builder : Builder
  pub intf : Option I
  pub create : Bool
  pub remove : Bool
  pub modify : Bool

-- What the variables without an initialiser hold on entry: `bool create, remove, modify;` and the
-- builder's `m_state`.
pub record Garbage : Type 0 where
  pub create : Bool
  pub remove : Bool
  pub modify : Bool
  pub m_state : Bool

abbrev pub entry_locals : (I : Type 0) → Garbage → Locals I
entry_locals I g = record {
  builder = new_builder g.m_state;
  intf = none;
  create = g.create;
  remove = g.remove;
  modify = g.modify;
}

module _ {I : Type 0} (R : Sysrepo) where
  -- `case SR_OP_CREATED`
  unfoldable pub on_created : Locals I → Val → Locals I
  on_created l v =
      if R.node_name_eq v.xpath (codes "name")
      then record l { builder = set_name v.string_val l.builder; create = true }
      else if R.node_name_eq v.xpath (codes "type")
      then record l { builder = set_type v.string_val l.builder }
      else if R.node_name_eq v.xpath (codes "enabled")
      then record l { builder = set_state v.bool_val l.builder }
      else l

  -- `case SR_OP_DELETED`
  unfoldable pub on_deleted : Locals I → Val → Locals I
  on_deleted l v =
      if R.node_name_eq v.xpath (codes "name")
      then record l { builder = set_name v.string_val l.builder; remove = true }
      else l

module _ {W I P A : Type 0} (V : Vom W I P A) where
  -- `if (create) { … }`
  unfoldable pub build_if : Locals I → M W (Option I)
  build_if l =
      if l.create
      then (do
        made ← build V l.builder
        elim made [ none ↦ goto_end inval_arg | some i ↦ pure (some i) ])
      else pure l.intf

  -- From `if (create)` to the end of the callback.
  unfoldable pub commit : Locals I → M W SrError
  commit l = do
    intf ← build_if l
    (if l.create || l.modify
        then (do
          i ← deref intf
          written ← call_om (V.write (V.key i) (interface_obj i))
          if written then pure tt else goto_end operation_failed)
        else if l.remove
        then update_om (V.remove l.builder.m_name)
        else pure tt)
    free_iter
    pure ok

module _ {W I P A : Type 0} (R : Sysrepo) (V : Vom W I P A) where
  -- `case SR_OP_MODIFIED`
  unfoldable pub on_modified : Locals I → Val → M W (Locals I)
  on_modified l v =
      if R.node_name_eq v.xpath (codes "enabled")
      then (do
        n ← deref (R.key_value v.xpath (codes "interface") (codes "name"))
        found ← gets_om (V.find n)
        elim found [
          | none ↦ goto_end operation_failed
          | some i ↦ do
            update_om (V.set_state i v.bool_val)
            pure (record l { intf = some i; modify = true })
        ])
      else pure l

  -- The value whose xpath is logged first; with neither value there is none.
  abbrev pub logged_val : Change → Option Val
  logged_val c = elim c.old_val [ some v ↦ some v | none ↦ c.new_val ]

  unfoldable pub on_change : Locals I → Change → M W (Locals I)
  on_change l c = elim c.oper [
    | modified ↦ (do v ← deref c.new_val; on_modified l v)
    | created ↦ (do v ← deref c.new_val; pure (on_created R l v))
    | deleted ↦ (do v ← deref c.old_val; pure (on_deleted R l v))
    | moved ↦ (do v ← deref (logged_val c); goto_end unsupported)
  ]

  -- The `foreach_change` loop.
  unfoldable pub loop : Locals I → List Change → M W (Locals I)
  loop l [] = pure l
  loop l (c ∷ cs) = on_change l c >>= λ l'. loop l' cs

  unfoldable pub body : Text → Event → Garbage → M W SrError
  body xpath event g = elim event [
    | verify ↦ do
      rc ← open_iter (R.get_changes_iter xpath)
      if is_ok rc
          then (do l ← loop (entry_locals I g) (R.changes xpath); commit V l)
          else (do free_iter; pure operation_failed)
    | _ ↦ pure ok
  ]

  unfoldable pub ietf_interface_create_cb : Text → Event → Garbage → W → Outcome SrError × Env W
  ietf_interface_create_cb xpath event g = run_callback null_ptr (body xpath event g)
