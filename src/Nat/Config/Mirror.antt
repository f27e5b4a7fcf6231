-- ===== src/Nat/Config/Mirror.antt =====
-- The table of static mappings of src/plugins/ietf/ietf_nat.cpp, and what VOM holds for the plugin.
use sweetcomb.Prelude.{
  text_eq, ℕ, ◌≡◌, refl, Bool, true, false, Text, codes, Option, none, some, List, [], ◌∷◌, ◌==◌,
  if◌then◌else◌, Bool-cases, Option-cases, inl, inr, arith,
}
use sweetcomb.Prelude.Outcome.{Outcome, value, fault, wild_free}
use sweetcomb.Decimal.{show}
use sweetcomb.Decimal.Roundtrip.{show_injective}
use sweetcomb.Sysrepo.{SrError, ok, is_ok, is_ok_eq, Event, verify, Change, Sysrepo}
use sweetcomb.Callback.{
  arg_check, arg_check2, lift_keeps, continue_keeps_state, Env, Flow, next, returns, leaves, raises,
  breaks, live, freed, free_iter, open_iter, ends, continue,
}
use sweetcomb.Vom.{Vom, Obj, nat_obj, KeepsObjects}
use sweetcomb.SysUtil.{Addresses}
use sweetcomb.Nat.Config.Laws.{writes_mapping, nat_commit_static, nat_commit_other}
use sweetcomb.Nat.Config.{
  NatState, table_set, NatLocals, NatGarbage, nat_entry_locals, nat_created, nat_change, nat_loop,
  om_remove, nat_commit, nat_body, nat_mapping_table_config_cb,
}

module _ {W I P A : Type 0} (B : Addresses A) (V : Vom W I P A)
    (Holds : W → Text → Obj I P A → Type 0) (K : KeepsObjects V Holds) where
  -- Each mapping of the table is held by VOM under the text of its index.
  abbrev pub Mirrored : NatState W A → Type 0
  Mirrored st =
      (i : ℕ) (a b : A)
      → st.static_mapping_table i ≡ some (a, b)
      → Holds st.vom (show i) (nat_obj a b)

  nat_change_keeps :
      (R : Sysrepo) (l : NatLocals A) (c : Change) (s : Env (NatState W A))
      → (nat_change R B l c s).1 ≡ s
  unfolding nat_change
  nat_change_keeps R l c s = elim (Option-cases c.new_val) [
    | inl absent ↦ ground arith
    | inr (v, present) ↦ ground (arith, lift_keeps (nat_created R B l v) s)
  ]

  nat_loop_keeps :
      (R : Sysrepo) (l : NatLocals A) (cs : List Change) (s : Env (NatState W A))
      → (nat_loop R B l cs s).1 ≡ s
  unfolding nat_loop
  nat_loop_keeps R l [] s = refl
  nat_loop_keeps R l (c ∷ cs) s = rw (nat_change_keeps R l c s) (
      continue_keeps_state (nat_change R B l c s).0 (λ l'. nat_loop R B l' cs) s
        (λ l'. nat_loop_keeps R l' cs s))

  Mirrored-write :
      (i : ℕ) (a b : A) (st : NatState W A)
      → (V.write (show i) (nat_obj a b) st.vom).0 ≡ true
      → Mirrored st
      → Mirrored (record {
        vom = (V.write (show i) (nat_obj a b) st.vom).1;
        static_mapping_table = table_set st.static_mapping_table i (some (a, b));
      })
  Mirrored-write i a b st good m j a' b' e = elim (Bool-cases (i == j)) [
    | inl same ↦
        let index : i ≡ j = ground arith in
        let inside : a ≡ a' = ground arith in
        let outside : b ≡ b' = ground arith in
        rw (← index, ← inside, ← outside) (K.written (show i) (nat_obj a b) st.vom good)
    | inr other ↦ K.kept (show i) (show j) _ _ st.vom good (m j a' b' (ground arith))
  ]

  Mirrored-remove : (i : ℕ) (st : NatState W A) → Mirrored st → Mirrored (om_remove B V i st)
  Mirrored-remove i st m j a' b' e = elim (Bool-cases (i == j)) [
    | inl same ↦ absurd (ground arith)
    | inr other ↦
        K.spared (show i) (show j) _ st.vom (λ t. ground (arith, show_injective j i t))
          (m j a' b' (ground arith))
  ]

  nat_commit_removes :
      (l : NatLocals A) (st : NatState W A)
      → l.create ≡ false
      → (let s : Env (NatState W A) = record { om = st; iter = live } in
          ends (nat_commit B V l s).0 (nat_commit B V l s).1)
        ≡ (
          value ok,
          record { om = if l.remove then om_remove B V l.xindex st else st; iter = freed },
        )
  unfolding nat_commit free_iter
  nat_commit_removes l st c = ground arith

  -- A run that returns leaves a mirrored state.
  abbrev Keeps : Outcome SrError × Env (NatState W A) → Type 0
  Keeps r = (rc : SrError) → r.0 ≡ value rc → Mirrored r.1.om

  Keeps-writes_mapping :
      (i : ℕ) (a b : A) (st : NatState W A) → Mirrored st → Keeps (writes_mapping V i a b st)
  Keeps-writes_mapping i a b st m rc done =
      elim (Bool-cases (V.write (show i) (nat_obj a b) st.vom).0) [
        | inl good ↦ rw good (Mirrored-write i a b st good m)
        | inr bad ↦ absurd (ground arith)
      ]

  Keeps-unchanged :
      (o : Outcome SrError) (t : Env (NatState W A)) (st : NatState W A)
      → t.om ≡ st
      → Mirrored st
      → Keeps (o, t)
  Keeps-unchanged o t st same m rc done = rw same m

  Keeps-nat_commit :
      (R : Sysrepo) (l : NatLocals A) (st : NatState W A)
      → Mirrored st
      → Keeps (
          let s : Env (NatState W A) = record { om = st; iter = live } in
          ends (nat_commit B V l s).0 (nat_commit B V l s).1)
  Keeps-nat_commit R l st m = elim (Bool-cases l.create) [
    | inl creates ↦ elim (Bool-cases (text_eq l.builder.m_type (codes "static"))) [
      | inl static ↦ rw (nat_commit_static R B V l st creates static) (
          Keeps-writes_mapping l.xindex l.builder.m_internal_src.m_address
            l.builder.m_external_src.m_address st m)
      | inr other ↦ rw (nat_commit_other R B V l st creates other) (λ rc done. absurd (cc done))
    ]
    | inr keeps ↦ elim (Bool-cases l.remove) [
      | inl removes ↦
          rw (nat_commit_removes l st keeps, removes) (λ rc done. Mirrored-remove l.xindex st m)
      | inr nothing ↦ rw (nat_commit_removes l st keeps, nothing) (λ rc done. m)
    ]
  ]

  ends_keeps : (r : Flow SrError) (s : Env (NatState W A)) → (ends r s).1.om ≡ s.om
  unfolding free_iter
  ends_keeps r s = ground arith

  Keeps-after_loop :
      (R : Sysrepo) (r : Flow (NatLocals A)) (st : NatState W A)
      → Mirrored st
      → (let s : Env (NatState W A) = record { om = st; iter = live } in
          Keeps (ends (continue r (nat_commit B V) s).0 (continue r (nat_commit B V) s).1))
  Keeps-after_loop R (next l) st m = Keeps-nat_commit R l st m
  Keeps-after_loop R (returns rc) st m = λ rc' done. m
  Keeps-after_loop R (leaves rc) st m =
      λ rc' done. rw (ends_keeps (leaves rc) (record { om = st; iter = live })) m
  Keeps-after_loop R (raises e) st m = λ rc' done. m
  Keeps-after_loop R (breaks u) st m = λ rc' done. m

  -- The callback on a change set that can be read.
  nat_cb_reads :
      (R : Sysrepo) (xpath : Text) (g : NatGarbage) (st : NatState W A)
      → is_ok (R.get_changes_iter xpath) ≡ true
      → (let s : Env (NatState W A) = record { om = st; iter = live } in
          let r = (nat_loop R B (nat_entry_locals B g) (R.changes xpath) s).0 in
          nat_mapping_table_config_cb B V R true (some xpath) verify g st
          ≡ ends (continue r (nat_commit B V) s).0 (continue r (nat_commit B V) s).1)
  unfolding nat_mapping_table_config_cb nat_body arg_check arg_check2 open_iter
  nat_cb_reads R xpath g st good =
      let s : Env (NatState W A) = record { om = st; iter = live } in
      let got = is_ok_eq (R.get_changes_iter xpath) good in
      rw (got, nat_loop_keeps R (nat_entry_locals B g) (R.changes xpath) s)

  nat_cb_unread :
      (R : Sysrepo) (xpath : Text) (g : NatGarbage) (st : NatState W A)
      → is_ok (R.get_changes_iter xpath) ≡ false
      → (nat_mapping_table_config_cb B V R true (some xpath) verify g st).0 ≡ fault wild_free
  unfolding nat_mapping_table_config_cb nat_body arg_check arg_check2 open_iter free_iter
  nat_cb_unread R xpath g st bad = ground arith

  -- A run of the callback that returns, whatever the event, the change set and the values on entry
  -- are, leaves every mapping of the table held by VOM under its index, if it was so before.
  pub nat_mapping_table_config_cb-Mirrored :
      (R : Sysrepo) (ds : Bool) (xpath : Option Text) (event : Event) (g : NatGarbage)
      (st : NatState W A) (rc : SrError)
      → Mirrored st
      → (nat_mapping_table_config_cb B V R ds xpath event g st).0 ≡ value rc
      → Mirrored (nat_mapping_table_config_cb B V R ds xpath event g st).1.om
  unfolding nat_mapping_table_config_cb nat_body arg_check arg_check2 open_iter
  nat_mapping_table_config_cb-Mirrored R true (some xpath) verify g st rc m done =
      elim (Bool-cases (is_ok (R.get_changes_iter xpath))) [
        | inl good ↦
            let s : Env (NatState W A) = record { om = st; iter = live } in
            let r = (nat_loop R B (nat_entry_locals B g) (R.changes xpath) s).0 in
            let e = nat_cb_reads R xpath g st good in
            rw e (Keeps-after_loop R r st m rc (rw e at done))
        | inr bad ↦ absurd (cc (done, nat_cb_unread R xpath g st bad))
      ]
  nat_mapping_table_config_cb-Mirrored R true (some xpath) _ g st rc m done = m
  nat_mapping_table_config_cb-Mirrored R false xpath event g st rc m done = m
  nat_mapping_table_config_cb-Mirrored R true none event g st rc m done = m

  -- Runs of the callback that return, one after the other, on any events and change sets.
  pub data NatRuns : NatState W A → NatState W A → Type 0 where
    done : (st : NatState W A) → NatRuns st st
    run :
        (R : Sysrepo) (ds : Bool) (xpath : Option Text) (event : Event) (g : NatGarbage)
        (st t : NatState W A) (rc : SrError)
        → (nat_mapping_table_config_cb B V R ds xpath event g st).0 ≡ value rc
        → NatRuns (nat_mapping_table_config_cb B V R ds xpath event g st).1.om t
        → NatRuns st t

  NatRuns-keeps : (st t : NatState W A) → NatRuns st t → Mirrored st → Mirrored t
  NatRuns-keeps st _ (done _) m = m
  NatRuns-keeps st t (run R ds xpath event g _ _ rc e rest) m =
      NatRuns-keeps (nat_mapping_table_config_cb B V R ds xpath event g st).1.om t rest
        (nat_mapping_table_config_cb-Mirrored R ds xpath event g st rc m e)

  -- If VOM holds an object that is written under its key until that key is removed: from an empty
  -- table, after any sequence of runs of the callback that return, on any events, change sets and
  -- values on entry, each mapping of the table is held by VOM under its index.
  pub NatRuns-Mirrored :
      (w : W) (t : NatState W A) (i : ℕ) (a b : A)
      → NatRuns (record { vom = w; static_mapping_table = λ i. none }) t
      → t.static_mapping_table i ≡ some (a, b)
      → Holds t.vom (show i) (nat_obj a b)
  NatRuns-Mirrored w t i a b runs e =
      NatRuns-keeps (record { vom = w; static_mapping_table = λ i. none }) t runs (λ i a b e. cc e)
        i a b e
