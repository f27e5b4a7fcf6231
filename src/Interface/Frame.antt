-- ===== src/Interface/Frame.antt =====
-- What the callbacks for interfaces, `ietf_interface_create_cb` and `oc_interfaces_config_cb`, leave
-- alone in VOM's state.
use sweetcomb.Prelude.{
  Bool, true, Text, codes, Option, none, some, List, [], ◌∷◌, ◌||◌, ◌⊎◌, inl, inr, ◌≡◌, refl, All,
  arith,
}
use sweetcomb.Sysrepo.{
  ok, operation_failed, Oper, created, modified, deleted, moved, Event, verify, apply, abort,
  enabled, Val, Change, Sysrepo,
}
use sweetcomb.Callback.{null_ptr, pure, goto_end, deref, update_om, ◌>>◌}
use sweetcomb.Callback.Triple.{
  Triple, Triple-bind, Triple-if, Triple-deref, Triple-close, Triple-pure_or_end, Triple-read,
  Inv-run_callback,
}
use sweetcomb.Vom.{Vom, interface_obj, l3_obj}
use sweetcomb.Interface.{set_name, set_type, set_state, build, new_builder}
use sweetcomb.Interface.Address.{l3_key}
use sweetcomb.Interface.Create.{
  Locals, Garbage, entry_locals, on_created, on_deleted, on_modified, on_change, loop, build_if,
  commit, body, ietf_interface_create_cb,
}

-- An invariant that the calls for interfaces and their addresses keep, a removal if its key is free.
pub record KeptByInterfaces {W I P A : Type 0} (V : Vom W I P A) (Inv : W → Type 0)
    (Free : Text → Type 0) : Type 0 where
  pub making : (n t : Text) (b : Bool) (w : W) → Inv w → Inv (V.make_interface n t b w).1
  pub setting : (i : I) (b : Bool) (w : W) → Inv w → Inv (V.set_state i b w)
  pub writing : (i : I) (w : W) → Inv w → Inv (V.write (V.key i) (interface_obj i) w).1
  pub writing_l3 : (i : I) (p : P) (w : W) → Inv w → Inv (V.write (l3_key V i p) (l3_obj i p) w).1
  pub removing : (k : Text) (w : W) → Free k → Inv w → Inv (V.remove k w)
  pub removing_l3 : (i : I) (p : P) (w : W) → Inv w → Inv (V.remove (l3_key V i p) w)

-- The names of interfaces in the change are free.
abbrev pub FreeNames : Sysrepo → (Text → Type 0) → Change → Type 0
FreeNames R Free c =
    (v : Val)
    → (c.new_val ≡ some v) ⊎ (c.old_val ≡ some v)
    → R.node_name_eq v.xpath (codes "name") ≡ true
    → Free v.string_val

module _ {W I P A : Type 0} (R : Sysrepo) (V : Vom W I P A) (Inv : W → Type 0)
    (Free : Text → Type 0) (K : KeptByInterfaces V Inv Free) where
  -- The name in the builder is free.
  abbrev pub FreeName : Locals I → Type 0
  FreeName l = Free l.builder.m_name

  pub on_created-FreeName :
      (l : Locals I) (v : Val)
      → (R.node_name_eq v.xpath (codes "name") ≡ true → Free v.string_val)
      → FreeName l
      → FreeName (on_created R l v)
  unfolding on_created set_name set_type set_state
  on_created-FreeName l v h f = ground (arith, h)

  pub on_deleted-FreeName :
      (l : Locals I) (v : Val)
      → (R.node_name_eq v.xpath (codes "name") ≡ true → Free v.string_val)
      → FreeName l
      → FreeName (on_deleted R l v)
  unfolding on_deleted set_name
  on_deleted-FreeName l v h f = ground (arith, h)

  set_found-Triple :
      (o : Option I) (l : Locals I) (b : Bool)
      → FreeName l
      → Triple Inv
          (elim o [
            | none ↦ goto_end operation_failed
            | some i ↦ (do
              update_om (V.set_state i b)
              pure (record l { intf = some i; modify = true }))
          ])
          FreeName
  set_found-Triple none l b f s i = (i, tt)
  set_found-Triple (some intf) l b f s i = (K.setting intf b s.om i, f)

  pub on_modified-Triple :
      (l : Locals I) (v : Val) → FreeName l → Triple Inv (on_modified R V l v) FreeName
  unfolding on_modified
  on_modified-Triple l v f =
      Triple-if Inv (R.node_name_eq v.xpath (codes "enabled")) _ (pure l) FreeName
        (λ e.
          Triple-bind Inv _ _ (λ n. Unit) FreeName (Triple-deref Inv _ (λ n. Unit) (λ n e. tt))
            (λ n u. λ s i. set_found-Triple (V.find n s.om) l v.bool_val f s i))
        (λ e s i. (i, f))

  on_change-by :
      (o : Oper) (l : Locals I) (c : Change)
      → c.oper ≡ o
      → FreeNames R Free c
      → FreeName l
      → Triple Inv (on_change R V l c) FreeName
  unfolding on_change
  on_change-by created l c e h f = rw e (
      Triple-bind Inv (deref c.new_val) _ (λ v. c.new_val ≡ some v) FreeName
        (Triple-deref Inv c.new_val _ (λ v e. e))
        (λ v e s i. (i, on_created-FreeName l v (h v (inl e)) f)))
  on_change-by modified l c e h f = rw e (
      Triple-bind Inv (deref c.new_val) _ (λ v. Unit) FreeName
        (Triple-deref Inv c.new_val _ (λ v e. tt)) (λ v u. on_modified-Triple l v f))
  on_change-by deleted l c e h f = rw e (
      Triple-bind Inv (deref c.old_val) _ (λ v. c.old_val ≡ some v) FreeName
        (Triple-deref Inv c.old_val _ (λ v e. e))
        (λ v e s i. (i, on_deleted-FreeName l v (h v (inr e)) f)))
  on_change-by moved l c e h f = rw e (
      Triple-bind Inv (deref _) _ (λ v. Unit) FreeName (Triple-deref Inv _ _ (λ v e. tt))
        (λ v u s i. (i, tt)))

  loop-Triple :
      (l : Locals I) (cs : List Change)
      → All (FreeNames R Free) cs
      → FreeName l
      → Triple Inv (loop R V l cs) FreeName
  unfolding loop
  loop-Triple l [] h f = λ s i. (i, f)
  loop-Triple l (c ∷ cs) h f =
      Triple-bind Inv (on_change R V l c) _ FreeName FreeName (on_change-by c.oper l c refl h.0 f)
        (λ l' f'. loop-Triple l' cs h.1 f')

  build_if-Triple : (l : Locals I) → Triple Inv (build_if V l) (λ o. Unit)
  unfolding build_if build
  build_if-Triple l s i =
      ground (arith, K.making l.builder.m_name l.builder.m_type l.builder.m_state s.om i)

  pub commit-Triple : (l : Locals I) → FreeName l → Triple Inv (commit V l) (λ rc. Unit)
  unfolding commit
  commit-Triple l f =
      Triple-bind Inv (build_if V l) _ (λ o. Unit) (λ rc. Unit) (build_if-Triple l)
        (λ o u.
          Triple-bind Inv _ _ (λ u. Unit) (λ rc. Unit)
            (Triple-if Inv (l.create || l.modify) _ _ (λ u. Unit)
              (λ e.
                Triple-bind Inv (deref o) _ (λ i. Unit) (λ u. Unit)
                  (Triple-deref Inv o _ (λ i e. tt))
                  (λ i u s inv. Triple-pure_or_end Inv _ operation_failed _ (K.writing i s.om inv)))
              (λ e.
                Triple-if Inv l.remove _ _ (λ u. Unit)
                  (λ e s i. (K.removing l.builder.m_name s.om f i, tt)) (λ e s i. (i, tt))))
            (λ u v. Triple-close Inv ok))

  -- `ietf_interface_create_cb` keeps the invariant, if the names in its change set are free, and the
  -- empty name is.
  pub ietf_interface_create_cb-Inv :
      (xpath : Text) (event : Event) (g : Garbage) (w : W)
      → Free (codes "")
      → All (FreeNames R Free) (R.changes xpath)
      → Inv w
      → Inv (ietf_interface_create_cb R V xpath event g w).1.om
  unfolding ietf_interface_create_cb body new_builder
  ietf_interface_create_cb-Inv xpath verify g w none_free free i =
      Inv-run_callback Inv null_ptr (body R V xpath verify g) w (λ rc. Unit)
        (Triple-read Inv (R.get_changes_iter xpath) _ (λ rc. operation_failed)
          (Triple-bind Inv _ _ FreeName (λ rc. Unit)
            (loop-Triple (entry_locals I g) (R.changes xpath) free none_free) commit-Triple))
        i
  ietf_interface_create_cb-Inv xpath apply g w none_free free i = i
  ietf_interface_create_cb-Inv xpath abort g w none_free free i = i
  ietf_interface_create_cb-Inv xpath enabled g w none_free free i = i
