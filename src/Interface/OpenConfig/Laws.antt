-- ===== src/Interface/OpenConfig/Laws.antt =====
-- The OpenConfig callback compared with the IETF one, and its failures.
use sweetcomb.Prelude.{
  true, false, Text, codes, is_empty, some, List, [], ◌∷◌, ◌++◌, ◌≡◌, ◌⊎◌, refl, ◌∙◌, All, arith,
}
use sweetcomb.Prelude.Outcome.{value, fault, null_deref}
use sweetcomb.Sysrepo.{ok, inval_arg, verify, created, modified, Val, Change, Sysrepo}
use sweetcomb.Callback.{
  arg_check, arg_check2, Env, live, next, breaks, returns, open_iter, continue_ext,
}
use sweetcomb.Vom.{Vom}
use sweetcomb.Interface.Changes.{deletion}
use sweetcomb.Interface.{
  new_builder as ietf_new_builder, set_name as ietf_set_name, set_type as ietf_set_type,
  set_state as ietf_set_state, build as ietf_build,
}
use sweetcomb.Interface.OpenConfig.Builder.{new_builder, set_name, set_type, set_state, build}
use sweetcomb.Interface.Create.{
  Locals, Garbage, on_created, on_modified, on_change, loop, build_if, commit, body,
  ietf_interface_create_cb,
}
use sweetcomb.Interface.OpenConfig.{
  config_locals, config_name, config_created, config_modified, config_change, config_loop,
  config_commit, config_body, oc_interfaces_config_cb,
}

-- A node is created or modified in an interface with a name that is not empty.
pub record Sets (R : Sysrepo) (c : Change) : Type 0 where
  pub val : Val
  pub is_new : c.new_val ≡ some val
  pub sets : (c.oper ≡ created) ⊎ (c.oper ≡ modified)
  pub if_name : Text
  pub named : R.key_value val.xpath (codes "interface") (codes "name") ≡ some if_name
  pub full : is_empty if_name ≡ false

module _ {W I P A : Type 0} (R : Sysrepo) (V : Vom W I P A) where
  config_change-on_change :
      (l : Locals I) (c : Change) (s : Env W)
      → Sets R c
      → config_change R V l c s ≡ on_change R V l c s
  unfolding config_change config_name config_created config_modified on_change on_created
      on_modified set_name set_type set_state ietf_set_name ietf_set_type ietf_set_state
  config_change-on_change l c s h = ground arith

  config_loop-loop :
      (l : Locals I) (cs : List Change) (s : Env W)
      → All (Sets R) cs
      → config_loop R V l cs s ≡ loop R V l cs s
  unfolding config_loop loop
  config_loop-loop l [] s h = refl
  config_loop-loop l (c ∷ cs) s h = rw (config_change-on_change l c s h.0) (
      continue_ext (on_change R V l c s).0 (λ l'. config_loop R V l' cs) (λ l'. loop R V l' cs)
        (on_change R V l c s).1 (λ l' s'. config_loop-loop l' cs s' h.1))

  config_commit-commit : (l : Locals I) (s : Env W) → config_commit R V l s ≡ commit V l s
  unfolding config_commit commit build_if build ietf_build
  config_commit-commit l s = refl

  -- On SR_EV_VERIFY, when the change iterator can be had: on a change set in which each change
  -- creates or modifies a node of a named interface, the OpenConfig callback does exactly what
  -- the IETF one does: the same result, the same VOM calls and the same end of the iterator,
  -- whatever the variables hold on entry.
  pub oc_interfaces_config_cb-ietf :
      (xpath : Text) (g : Garbage) (w : W)
      → R.get_changes_iter xpath ≡ ok
      → All (Sets R) (R.changes xpath)
      → oc_interfaces_config_cb R V true (some xpath) verify g w
        ≡ ietf_interface_create_cb R V xpath verify g w
  unfolding oc_interfaces_config_cb config_body arg_check arg_check2 ietf_interface_create_cb body
      open_iter config_commit commit build_if build ietf_build config_locals new_builder
      ietf_new_builder
  oc_interfaces_config_cb-ietf xpath g w got sets =
      let s : Env W = record { om = w; iter = live } in
      let same = config_loop-loop (config_locals I g) (R.changes xpath) s sets in rw (got, same)

  -- A node of a named interface is created.
  abbrev pub Creates : Change → Type 0
  Creates c = Sets R c × (c.oper ≡ created)

  config_change-created :
      (l : Locals I) (c : Change) (s : Env W)
      → Creates c
      → (l' : Locals I) × (config_change R V l c s ≡ (next l', s))
  unfolding on_change
  config_change-created l c s (h, e) =
      (on_created R l h.val, config_change-on_change l c s h ∙ rw (on_change, e, h.is_new))

  config_loop-created :
      (l : Locals I) (cs rest : List Change) (s : Env W)
      → All Creates cs
      → (l' : Locals I) × (config_loop R V l (cs ++ rest) s ≡ config_loop R V l' rest s)
  unfolding config_loop
  config_loop-created l [] rest s h = (l, refl)
  config_loop-created l (c ∷ cs) rest s h =
      let (l₁, step) = config_change-created l c s h.0 in
      let (l₂, later) = config_loop-created l₁ cs rest s h.1 in (l₂, rw step later)

  config_loop-null_new :
      (l : Locals I) (v : Val) (cs : List Change) (s : Env W)
      → config_loop R V l (deletion v ∷ cs) s ≡ (breaks null_deref, s)
  unfolding config_loop config_change
  config_loop-null_new l v cs s = refl

  config_loop-unnamed :
      (l : Locals I) (c : Change) (v : Val) (cs : List Change) (s : Env W)
      → c.new_val ≡ some v
      → R.key_value v.xpath (codes "interface") (codes "name") ≡ some (codes "")
      → config_loop R V l (c ∷ cs) s ≡ (returns inval_arg, s)
  unfolding config_loop config_change config_name
  config_loop-unnamed l c v cs s new unnamed = rw (new, unnamed)

  -- On SR_EV_VERIFY, when the change iterator can be had: a deletion, whose new value is null, is
  -- a fault wherever it stands behind nodes that are created in named interfaces, since the
  -- callback reads the xpath of the new value whatever the operation is. Nothing has been written
  -- then.
  pub oc_interfaces_config_cb-deletion :
      (xpath : Text) (g : Garbage) (w : W) (cs : List Change) (v : Val) (ds : List Change)
      → R.get_changes_iter xpath ≡ ok
      → R.changes xpath ≡ cs ++ deletion v ∷ ds
      → All Creates cs
      → oc_interfaces_config_cb R V true (some xpath) verify g w
        ≡ (fault null_deref, record { om = w; iter = live })
  unfolding oc_interfaces_config_cb config_body arg_check arg_check2 open_iter
  oc_interfaces_config_cb-deletion xpath g w cs v ds got set h =
      let s : Env W = record { om = w; iter = live } in
      let (l, start) = config_loop-created (config_locals I g) cs (deletion v ∷ ds) s h in
      rw (got, set, start, config_loop-null_new l v ds s)

  -- On SR_EV_VERIFY, when the change iterator can be had: a node of an interface without a name,
  -- wherever it stands behind nodes that are created in named interfaces, is answered by
  -- SR_ERR_INVAL_ARG with nothing written, and the change iterator is left open.
  pub oc_interfaces_config_cb_leaks :
      (xpath : Text) (g : Garbage) (w : W) (cs : List Change) (c : Change) (v : Val)
      (ds : List Change)
      → R.get_changes_iter xpath ≡ ok
      → R.changes xpath ≡ cs ++ c ∷ ds
      → All Creates cs
      → c.new_val ≡ some v
      → R.key_value v.xpath (codes "interface") (codes "name") ≡ some (codes "")
      → oc_interfaces_config_cb R V true (some xpath) verify g w
        ≡ (value inval_arg, record { om = w; iter = live })
  unfolding oc_interfaces_config_cb config_body arg_check arg_check2 open_iter
  oc_interfaces_config_cb_leaks xpath g w cs c v ds got set h new unnamed =
      let s : Env W = record { om = w; iter = live } in
      let (l, start) = config_loop-created (config_locals I g) cs (c ∷ ds) s h in
      rw (got, set, start, config_loop-unnamed l c v ds s new unnamed)
