-- ===== src/Interface/Create/Modify.antt =====
-- What `ietf_interface_create_cb` does for a set of modified `enabled` nodes.
use sweetcomb.Prelude.{
  Bool, true, false, Text, codes, Option, none, some, List, [], ◌∷◌, ◌≡◌, ap, ◌∙◌, if◌then◌else◌,
  Option-cases, inl, inr, Bool-cases,
}
use sweetcomb.Prelude.Outcome.{Outcome, value}
use sweetcomb.Sysrepo.{SrError, ok, operation_failed, verify, modified, Val, Change, Sysrepo}
use sweetcomb.Callback.{Env, next, leaves, live, freed, free_iter, open_iter, ends, continue}
use sweetcomb.Vom.{Vom, interface_obj}
use sweetcomb.Interface.Create.{
  Garbage, Locals, entry_locals, on_modified, on_change, loop, build_if, commit, body,
  ietf_interface_create_cb,
}

-- A change that sets `enabled` of the interface `name` to `state`.
pub record Enables (R : Sysrepo) (c : Change) (name : Text) (state : Bool) : Type 0 where
  pub val : Val
  pub is_modified : c.oper ≡ modified
  pub is_new : c.new_val ≡ some val
  pub enabled_node : R.node_name_eq val.xpath (codes "enabled") ≡ true
  pub named : R.key_value val.xpath (codes "interface") (codes "name") ≡ some name
  pub is_state : val.bool_val ≡ state

-- The changes set these states.
abbrev pub AllEnable : Sysrepo → List Change → List (Text × Bool) → Type 0
AllEnable R [] [] = Unit
AllEnable R [] (p ∷ ps) = ⊥
AllEnable R (c ∷ cs) [] = ⊥
AllEnable R (c ∷ cs) (p ∷ ps) = Enables R c p.0 p.1 × AllEnable R cs ps

module _ {W I P A : Type 0} (V : Vom W I P A) where
  -- Finds each interface and sets its state, up to the first that is not found; the last interface
  -- found is the result.
  unfoldable pub set_states : List (Text × Bool) → I → W → Option I × W
  set_states [] last w = (some last, w)
  set_states (p ∷ ps) last w = elim (V.find p.0 w) [
    | none ↦ (none, w)
    | some i ↦ set_states ps i (V.set_state i p.1 w)
  ]

  -- Writes the last interface found, if all were.
  abbrev pub writes_last : Option I × W → Outcome SrError × Env W
  writes_last (none, w) = (value operation_failed, record { om = w; iter = freed })
  writes_last (some i, w) =
      let written = V.write (V.key i) (interface_obj i) w in
      (value (if written.0 then ok else operation_failed), record { om = written.1; iter = freed })

module _ {W I P A : Type 0} (R : Sysrepo) (V : Vom W I P A) where
  -- The variables after a modified node.
  abbrev after_modified : Locals I → I → Locals I
  after_modified l i = record l { intf = some i; modify = true }

  on_change-found :
      (l : Locals I) (c : Change) (n : Text) (b : Bool) (i : I) (w : W)
      → Enables R c n b
      → V.find n w ≡ some i
      → on_change R V l c (record { om = w; iter = live })
        ≡ (next (after_modified l i), record { om = V.set_state i b w; iter = live })
  unfolding on_change on_modified
  on_change-found l c n b i w h found =
      rw (
        on_change, h.is_modified, h.is_new, on_modified, h.enabled_node, h.named, found, h.is_state,
      )

  on_change-lost :
      (l : Locals I) (c : Change) (n : Text) (b : Bool) (w : W)
      → Enables R c n b
      → V.find n w ≡ none
      → on_change R V l c (record { om = w; iter = live })
        ≡ (leaves operation_failed, record { om = w; iter = live })
  unfolding on_change on_modified
  on_change-lost l c n b w h lost =
      rw (on_change, h.is_modified, h.is_new, on_modified, h.enabled_node, h.named, lost)

  -- The rest of the callback behind a loop over modified nodes.
  finishes : Locals I → List Change → W → Outcome SrError × Env W
  finishes l cs w =
      let s : Env W = record { om = w; iter = live } in
      let r = loop R V l cs s in
      ends (continue r.0 (commit V) r.1).0 (continue r.0 (commit V) r.1).1

  commit-modified :
      (l : Locals I) (i : I) (w : W)
      → l.create ≡ false
      → (let s : Env W = record { om = w; iter = live } in
          ends (commit V (after_modified l i) s).0 (commit V (after_modified l i) s).1)
        ≡ writes_last V (some i, w)
  unfolding commit build_if free_iter
  commit-modified l i w c = elim (Bool-cases (V.write (V.key i) (interface_obj i) w).0) [
    | inl good ↦ rw (c, good)
    | inr bad ↦ rw (c, bad)
  ]

  finishes-set_states :
      (l : Locals I) (i : I) (cs : List Change) (ps : List (Text × Bool)) (w : W)
      → l.create ≡ false
      → AllEnable R cs ps
      → finishes (after_modified l i) cs w ≡ writes_last V (set_states V ps i w)
  unfolding finishes loop set_states free_iter
  finishes-set_states l i [] [] w c h = commit-modified l i w c
  finishes-set_states l i [] (p ∷ ps) w c h = absurd h
  finishes-set_states l i (x ∷ cs) [] w c h = absurd h
  finishes-set_states l i (x ∷ cs) (p ∷ ps) w c h = elim (Option-cases (V.find p.0 w)) [
    | inl lost ↦ rw (set_states, lost, on_change-lost (after_modified l i) x p.0 p.1 w h.0 lost)
    | inr (j, found) ↦
        rw (set_states, found, on_change-found (after_modified l i) x p.0 p.1 j w h.0 found)
          (finishes-set_states l j cs ps (V.set_state j p.1 w) c h.1)
  ]

  cb-finishes :
      (xpath : Text) (g : Garbage) (w : W)
      → R.get_changes_iter xpath ≡ ok
      → ietf_interface_create_cb R V xpath verify g w
        ≡ finishes (entry_locals I g) (R.changes xpath) w
  unfolding ietf_interface_create_cb body open_iter finishes
  cb-finishes xpath g w got = rw got

  -- On SR_EV_VERIFY, when the change iterator can be had, and `create`, which the callback never
  -- initialises, is false on entry: a set of one or more modified nodes, each an `enabled` node
  -- of some interface, sets the state of each interface in turn. If one of them is not found, the
  -- result is SR_ERR_OPERATION_FAILED and nothing is written, though the states before it stay
  -- set; otherwise the interface of the last node, and no other, is written, and the result says
  -- whether that succeeded. The iterator is freed in any case.
  pub ietf_interface_create_cb_modifies :
      (xpath : Text) (g : Garbage) (w : W) (c : Change) (cs : List Change) (n : Text) (b : Bool)
      (ps : List (Text × Bool))
      → g.create ≡ false
      → R.get_changes_iter xpath ≡ ok
      → R.changes xpath ≡ c ∷ cs
      → Enables R c n b
      → AllEnable R cs ps
      → ietf_interface_create_cb R V xpath verify g w ≡ (elim (V.find n w) [
        | none ↦ (value operation_failed, record { om = w; iter = freed })
        | some i ↦ writes_last V (set_states V ps i (V.set_state i b w))
      ])
  unfolding finishes loop free_iter
  ietf_interface_create_cb_modifies xpath g w c cs n b ps fresh got set h hs =
      let l = entry_locals I g in
      cb-finishes xpath g w got ∙ ap (λ x. finishes l x w) set ∙ (elim (Option-cases (V.find n w)) [
        | inl lost ↦ rw (lost, on_change-lost l c n b w h lost)
        | inr (i, found) ↦
            rw (found, on_change-found l c n b i w h found)
              (finishes-set_states l i cs ps (V.set_state i b w) fresh hs)
      ])
