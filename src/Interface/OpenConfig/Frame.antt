-- ===== src/Interface/OpenConfig/Frame.antt =====
-- What `oc_interfaces_config_cb` leaves alone in VOM's state.
use sweetcomb.Prelude.{
  Bool, true, false, is_empty, Text, codes, Option, none, some, List, [], ◌∷◌, inl, inr, ◌≡◌, refl,
  All, arith,
}
use sweetcomb.Sysrepo.{
  ok, inval_arg, unsupported, Oper, created, modified, deleted, moved, Event, verify, Val, Change,
  Sysrepo,
}
use sweetcomb.Callback.{
  arg_check, arg_check2, Env, null_ptr, next, pure, goto_end, return_with, deref, ◌>>=◌,
}
use sweetcomb.Callback.Triple.{
  Triple, Triple-bind, Triple-if, Triple-deref, Triple-read, Inv-run_callback,
}
use sweetcomb.Vom.{Vom}
use sweetcomb.Interface.{
  set_name as ietf_set_name, set_type as ietf_set_type, set_state as ietf_set_state,
  build as ietf_build,
}
use sweetcomb.Interface.OpenConfig.Builder.{new_builder, set_name, set_type, set_state, build}
use sweetcomb.Interface.Create.{
  Locals, Garbage, on_created, on_deleted, on_modified, commit, build_if,
}
use sweetcomb.Interface.Frame.{
  KeptByInterfaces, FreeNames, FreeName, on_created-FreeName, on_deleted-FreeName,
  on_modified-Triple, commit-Triple,
}
use sweetcomb.Interface.OpenConfig.{
  config_locals, config_name, config_created, config_modified, config_deleted, config_change,
  config_loop, config_commit, config_body, oc_interfaces_config_cb,
}

module _ {W I P A : Type 0} (R : Sysrepo) (V : Vom W I P A) (Inv : W → Type 0)
    (Free : Text → Type 0) (K : KeptByInterfaces V Inv Free) where
  abbrev HasFreeName : Locals I → Type 0
  HasFreeName = FreeName R V Inv Free K

  config_name-Triple : (v : Val) → Triple Inv (config_name R V v) (λ u. Unit)
  unfolding config_name
  config_name-Triple v =
      let name = R.key_value v.xpath (codes "interface") (codes "name") in
      Triple-bind Inv (deref name) _ (λ n. Unit) (λ (u : Unit {0}). Unit)
        (Triple-deref Inv name (λ n. Unit) (λ n e. tt))
        (λ n u.
          Triple-if Inv (is_empty n) (return_with inval_arg) (pure tt) (λ u. Unit)
            (λ e s i. (i, tt)) (λ e s i. (i, tt)))

  config_created-on_created :
      (l : Locals I) (v : Val) (s : Env W) → config_created R V l v s ≡ (next (on_created R l v), s)
  unfolding config_created on_created set_name set_type set_state ietf_set_name ietf_set_type
      ietf_set_state
  config_created-on_created l v s = ground arith

  config_deleted-on_deleted :
      (l : Locals I) (v : Val) (s : Env W) → config_deleted R V l v s ≡ (next (on_deleted R l v), s)
  unfolding config_deleted on_deleted set_name ietf_set_name
  config_deleted-on_deleted l v s = ground arith

  config_change-by :
      (o : Oper) (l : Locals I) (c : Change) (v : Val)
      → c.new_val ≡ some v
      → FreeNames R Free c
      → HasFreeName l
      → Triple Inv
          (elim o [
            | created ↦ config_created R V l v
            | modified ↦ config_modified R V l v
            | deleted ↦ (do ol ← deref c.old_val; config_deleted R V l ol)
            | moved ↦ goto_end unsupported
          ])
          HasFreeName
  unfolding config_modified on_modified
  config_change-by created l c v new h f s i =
      rw (config_created-on_created l v s)
        (i, on_created-FreeName R V Inv Free K l v (h v (inl new)) f)
  config_change-by modified l c v new h f s i = on_modified-Triple R V Inv Free K l v f s i
  config_change-by deleted l c v new h f s i =
      Triple-bind Inv (deref c.old_val) (config_deleted R V l) (λ u. c.old_val ≡ some u) HasFreeName
        (Triple-deref Inv c.old_val _ (λ u e. e))
        (λ u e s i.
          rw (config_deleted-on_deleted l u s)
            (i, on_deleted-FreeName R V Inv Free K l u (h u (inr e)) f))
        s i
  config_change-by moved l c v new h f s i = (i, tt)

  config_change-Triple :
      (l : Locals I) (c : Change)
      → FreeNames R Free c
      → HasFreeName l
      → Triple Inv (config_change R V l c) HasFreeName
  unfolding config_change
  config_change-Triple l c h f =
      Triple-bind Inv (deref c.new_val) _ (λ v. c.new_val ≡ some v) HasFreeName
        (Triple-deref Inv c.new_val _ (λ v e. e))
        (λ v new.
          Triple-bind Inv (config_name R V v) _ (λ u. Unit) HasFreeName (config_name-Triple v)
            (λ u u'. config_change-by c.oper l c v new h f))

  config_loop-Triple :
      (l : Locals I) (cs : List Change)
      → All (FreeNames R Free) cs
      → HasFreeName l
      → Triple Inv (config_loop R V l cs) HasFreeName
  unfolding config_loop
  config_loop-Triple l [] h f = λ s i. (i, f)
  config_loop-Triple l (c ∷ cs) h f =
      Triple-bind Inv (config_change R V l c) _ HasFreeName HasFreeName
        (config_change-Triple l c h.0 f) (λ l' f'. config_loop-Triple l' cs h.1 f')

  config_commit-Triple :
      (l : Locals I) → HasFreeName l → Triple Inv (config_commit R V l) (λ rc. Unit)
  unfolding config_commit commit build_if build ietf_build
  config_commit-Triple l f = commit-Triple R V Inv Free K l f

  -- `oc_interfaces_config_cb` keeps the invariant, if the names in its change set are free, and the
  -- empty name is.
  pub oc_interfaces_config_cb-Inv :
      (ds : Bool) (xpath : Option Text) (event : Event) (g : Garbage) (w : W)
      → Free (codes "")
      → ((x : Text) → xpath ≡ some x → All (FreeNames R Free) (R.changes x))
      → Inv w
      → Inv (oc_interfaces_config_cb R V ds xpath event g w).1.om
  unfolding oc_interfaces_config_cb config_body arg_check arg_check2 config_locals new_builder
  oc_interfaces_config_cb-Inv true (some xpath) verify g w none_free free i =
      Inv-run_callback Inv null_ptr (config_body R V true (some xpath) verify g) w (λ rc. Unit)
        (Triple-read Inv (R.get_changes_iter xpath) _ (λ rc. ok)
          (Triple-bind Inv _ _ HasFreeName (λ rc. Unit)
            (config_loop-Triple (config_locals I g) (R.changes xpath) (free xpath refl) none_free)
            config_commit-Triple))
        i
  oc_interfaces_config_cb-Inv true (some xpath) _ g w none_free free i = i
  oc_interfaces_config_cb-Inv false xpath event g w none_free free i = i
  oc_interfaces_config_cb-Inv true none event g w none_free free i = i
