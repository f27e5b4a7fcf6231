-- ===== src/Interface/Create/Laws.antt =====
-- `ietf_interface_create_cb` on sets of created and of deleted nodes, and its change iterator.
use sweetcomb.Prelude.{
  Bool, true, false, not, Text, codes, is_empty, some, List, [], ◌∷◌, map, ◌||◌, if◌then◌else◌, ◌≡◌,
  refl, ◌∙◌, inl, inr, ◌≢◌, Bool-cases, arith,
}
use sweetcomb.Prelude.Outcome.{Outcome, value, fault, null_deref}
use sweetcomb.Sysrepo.{
  SrError, ok, operation_failed, inval_arg, Event, verify, Val, Change, Sysrepo, NamesNodes,
}
use sweetcomb.Callback.{
  Env, Flow, next, live, freed, free_iter, open_iter, ends, returns, leaves, raises, breaks,
  continue, is_return, continue_keeps,
}
use sweetcomb.Vom.{Vom, interface_obj}
use sweetcomb.Interface.{new_builder, build}
use sweetcomb.Interface.Changes.{
  creation, deletion, last_val, has_node, has_value, last_or, last_val-has_node,
}
use sweetcomb.Interface.Create.{
  Garbage, Locals, entry_locals, on_modified, on_change, loop, build_if, commit, body,
  ietf_interface_create_cb,
}
use sweetcomb.Interface.Create.Loop.{collected, removed, loop-created, loop-deleted}

-- An interface is made from a name, a type and a state, and written under its key.
abbrev pub makes_and_writes :
    {W I P A : Type 0} → Vom W I P A → Text → Text → Bool → W → Outcome SrError × Env W
makes_and_writes V n t st w =
    let made = V.make_interface n t st w in
    let written = V.write (V.key made.0) (interface_obj made.0) made.1 in
    (value (if written.0 then ok else operation_failed), record { om = written.1; iter = freed })

module _ {W I P A : Type 0} (R : Sysrepo) (V : Vom W I P A) where
  -- The callback on a change set that its loop takes in without an error.
  pub cb-commit :
      (xpath : Text) (g : Garbage) (w : W) (l : Locals I)
      → R.get_changes_iter xpath ≡ ok
      → loop R V (entry_locals I g) (R.changes xpath) (record { om = w; iter = live })
        ≡ (next l, record { om = w; iter = live })
      → ietf_interface_create_cb R V xpath verify g w
        ≡ (let s : Env W = record { om = w; iter = live } in ends (commit V l s).0 (commit V l s).1)
  unfolding ietf_interface_create_cb body open_iter
  cb-commit xpath g w l got looped = rw (got, looped)

  -- The end of the callback for variables that hold what an interface needs.
  pub commit_built :
      (l : Locals I) (w : W)
      → l.create ≡ true
      → is_empty l.builder.m_name ≡ false
      → is_empty l.builder.m_type ≡ false
      → (let s : Env W = record { om = w; iter = live } in ends (commit V l s).0 (commit V l s).1)
        ≡ makes_and_writes V l.builder.m_name l.builder.m_type l.builder.m_state w
  unfolding commit build_if build free_iter
  commit_built l w c n t =
      let made = V.make_interface l.builder.m_name l.builder.m_type l.builder.m_state w in
      elim (Bool-cases (V.write (V.key made.0) (interface_obj made.0) made.1).0) [
        | inl good ↦ rw (c, n, t, good)
        | inr bad ↦ rw (c, n, t, bad)
      ]

  -- On SR_EV_VERIFY, when the change iterator can be had and an xpath has one node name: a set of
  -- created nodes whose last name is not empty, and in which a type node has the Ethernet type,
  -- makes one interface, with the last name and the last `enabled` of the set (without one, with
  -- what the memory held), and writes it under its key. The result says whether the write
  -- succeeded, and the iterator is freed. What `create`, `remove` and `modify` hold on entry
  -- makes no difference.
  pub ietf_interface_create_cb_creates :
      (xpath : Text) (g : Garbage) (w : W) (vs : List Val) (v : Val)
      → NamesNodes R
      → R.get_changes_iter xpath ≡ ok
      → R.changes xpath ≡ map creation vs
      → last_val R (codes "name") vs ≡ some v
      → is_empty v.string_val ≡ false
      → has_value R (codes "type") (codes "iana-if-type:ethernetCsmacd") vs ≡ true
      → ietf_interface_create_cb R V xpath verify g w
        ≡ makes_and_writes V v.string_val
            (codes "ETHERNET")
            (last_or (λ u. u.bool_val) (last_val R (codes "enabled") vs) g.m_state)
            w
  unfolding new_builder
  ietf_interface_create_cb_creates xpath g w vs v N got set named full typed =
      let l = collected R (entry_locals I g) vs in
      let s : Env W = record { om = w; iter = live } in
      let looped : loop R V (entry_locals I g) (R.changes xpath) s ≡ (next l, s) =
        rw set (loop-created R N V (entry_locals I g) vs s) in
      cb-commit xpath g w l got looped
      ∙ commit_built l w (rw (last_val-has_node R (codes "name") vs named)) (rw named full)
          (rw typed)
      ∙ (rw (named, typed))

  pub commit_unbuilt :
      (l : Locals I) (w : W)
      → l.create ≡ true
      → (is_empty l.builder.m_name || is_empty l.builder.m_type) ≡ true
      → (let s : Env W = record { om = w; iter = live } in ends (commit V l s).0 (commit V l s).1)
        ≡ (value inval_arg, record { om = w; iter = freed })
  unfolding commit build_if build free_iter
  commit_unbuilt l w c e = rw (c, e)

  -- On SR_EV_VERIFY, when the change iterator can be had and an xpath has one node name: a set of
  -- created nodes with a name node but an empty last name, or without the Ethernet type, is
  -- answered by SR_ERR_INVAL_ARG, with nothing written and the iterator freed.
  pub ietf_interface_create_cb_incomplete :
      (xpath : Text) (g : Garbage) (w : W) (vs : List Val)
      → NamesNodes R
      → R.get_changes_iter xpath ≡ ok
      → R.changes xpath ≡ map creation vs
      → has_node R (codes "name") vs ≡ true
      → (is_empty (last_or (λ u. u.string_val) (last_val R (codes "name") vs) (codes ""))
          || not (has_value R (codes "type") (codes "iana-if-type:ethernetCsmacd") vs))
        ≡ true
      → ietf_interface_create_cb R V xpath verify g w
        ≡ (value inval_arg, record { om = w; iter = freed })
  unfolding new_builder
  ietf_interface_create_cb_incomplete xpath g w vs N got set named lacks =
      let l = collected R (entry_locals I g) vs in
      let s : Env W = record { om = w; iter = live } in
      let looped : loop R V (entry_locals I g) (R.changes xpath) s ≡ (next l, s) =
        rw set (loop-created R N V (entry_locals I g) vs s) in
      cb-commit xpath g w l got looped ∙ commit_unbuilt l w (rw named) (ground arith)

  -- On SR_EV_VERIFY, when the change iterator can be had: a set of deleted nodes with a name
  -- removes the interface of the last name only if `create` and `modify`, which the callback
  -- never initialises, are both false on entry. If `create` is true the result is
  -- SR_ERR_INVAL_ARG and nothing is removed; if only `modify` is, the callback reads through a
  -- null pointer.
  pub ietf_interface_create_cb_deletes :
      (xpath : Text) (g : Garbage) (w : W) (vs : List Val) (v : Val)
      → R.get_changes_iter xpath ≡ ok
      → R.changes xpath ≡ map deletion vs
      → last_val R (codes "name") vs ≡ some v
      → ietf_interface_create_cb R V xpath verify g w ≡ (
          if g.create
          then (value inval_arg, record { om = w; iter = freed })
          else if g.modify
          then (fault null_deref, record { om = w; iter = live })
          else (value ok, record { om = V.remove v.string_val w; iter = freed }))
  unfolding new_builder commit build_if build free_iter
  ietf_interface_create_cb_deletes xpath g w vs v got set named =
      let l = removed R (entry_locals I g) vs in
      let s : Env W = record { om = w; iter = live } in
      let looped : loop R V (entry_locals I g) (R.changes xpath) s ≡ (next l, s) =
        rw set (loop-deleted R V (entry_locals I g) vs s) in
      cb-commit xpath g w l got looped ∙ ground (arith, last_val-has_node R (codes "name") vs named)

  commit_closes :
      (l : Locals I) (s : Env W) (rc : SrError)
      → s.iter ≡ live
      → (ends (commit V l s).0 (commit V l s).1).0 ≡ value rc
      → (ends (commit V l s).0 (commit V l s).1).1.iter ≡ freed
  unfolding commit build_if build free_iter
  commit_closes l s rc opened done = ground arith

  on_change_keeps :
      (l : Locals I) (c : Change) (s : Env W)
      → ((on_change R V l c s).1.iter ≡ s.iter) × (is_return (on_change R V l c s).0 ≡ false)
  unfolding on_change on_modified
  on_change_keeps l c s = ground arith

  loop_keeps :
      (l : Locals I) (cs : List Change) (s : Env W)
      → ((loop R V l cs s).1.iter ≡ s.iter) × (is_return (loop R V l cs s).0 ≡ false)
  unfolding loop
  loop_keeps l [] s = (refl, refl)
  loop_keeps l (c ∷ cs) s =
      let (same, stays) = on_change_keeps l c s in
      let (same', stays') =
        continue_keeps (on_change R V l c s).0 (λ l'. loop R V l' cs) (on_change R V l c s).1 stays
          (λ l'. loop_keeps l' cs (on_change R V l c s).1) in
      (same' ∙ same, stays')

  after_loop :
      (r : Flow (Locals I)) (s : Env W) (rc : SrError)
      → s.iter ≡ live
      → is_return r ≡ false
      → (ends (continue r (commit V) s).0 (continue r (commit V) s).1).0 ≡ value rc
      → (ends (continue r (commit V) s).0 (continue r (commit V) s).1).1.iter ≡ freed
  unfolding free_iter
  after_loop (next l) s rc opened stays done = commit_closes l s rc opened done
  after_loop (returns e) s rc opened stays done = cc
  after_loop (leaves e) s rc opened stays done = ground arith
  after_loop (raises e) s rc opened stays done = cc
  after_loop (breaks u) s rc opened stays done = cc

  -- Whatever the event, the changes and the values on entry: if the callback returns, its change
  -- iterator is freed, or was never handed out.
  pub ietf_interface_create_cb_closes :
      (xpath : Text) (event : Event) (g : Garbage) (w : W) (rc : SrError)
      → (ietf_interface_create_cb R V xpath event g w).0 ≡ value rc
      → (ietf_interface_create_cb R V xpath event g w).1.iter ≢ live
  unfolding ietf_interface_create_cb body open_iter free_iter
  ietf_interface_create_cb_closes xpath verify g w rc done leaked =
      let s : Env W = record { om = w; iter = live } in
      let (same, stays) = loop_keeps (entry_locals I g) (R.changes xpath) s in
      ground (
        arith,
        after_loop (loop R V (entry_locals I g) (R.changes xpath) s).0
            (loop R V (entry_locals I g) (R.changes xpath) s).1 rc same stays,
      )
  ietf_interface_create_cb_closes xpath _ g w rc done leaked = cc
