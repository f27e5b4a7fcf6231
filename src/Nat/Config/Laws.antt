-- ===== src/Nat/Config/Laws.antt =====
-- What `nat_mapping_table_config_cb` does to VOM and to the mapping table.
use sweetcomb.Prelude.{
  ℕ, true, false, Text, codes, text_eq, some, List, map, All, if◌then◌else◌, ◌≡◌, ◌∙◌, inl, inr,
  Bool-cases, arith,
}
use sweetcomb.Prelude.Outcome.{Outcome, value, fault, double_free}
use sweetcomb.Decimal.{show}
use sweetcomb.Sysrepo.{SrError, ok, verify, Val, Sysrepo, NamesNodes}
use sweetcomb.Callback.{arg_check, arg_check2, Env, next, live, freed, free_iter, open_iter, ends}
use sweetcomb.Vom.{Vom, nat_obj}
use sweetcomb.SysUtil.{Addresses}
use sweetcomb.SysUtil.Prefix.{default_prefix}
use sweetcomb.Interface.Changes.{creation, deletion, last_val, last_or, last_val-has_node}
use sweetcomb.Nat.Builder.{new_nat_builder}
use sweetcomb.Nat.Builder.Laws.{build_sources, build_stores}
use sweetcomb.Nat.Config.{
  NatState, table_set, NatLocals, NatGarbage, nat_entry_locals, om_remove, nat_loop, nat_commit,
  nat_body, nat_mapping_table_config_cb,
}
use sweetcomb.Nat.Config.Loop.{
  IsReadable, last_prefix, nat_collected, nat_removed, nat_loop-created, nat_loop-deleted,
}

-- What creating a mapping is to do: it is written to VOM under its index; if that succeeds it is entered in the table, and if it
-- fails the change iterator, already freed, is freed again.
abbrev pub writes_mapping :
    {W I P A : Type 0}
    → Vom W I P A
    → ℕ
    → A
    → A
    → NatState W A
    → Outcome SrError × Env (NatState W A)
writes_mapping V i inside outside st =
    let written = V.write (show i) (nat_obj inside outside) st.vom in
    if written.0
    then (
      value ok,
      record {
        om = record {
          vom = written.1;
          static_mapping_table = table_set st.static_mapping_table i (some (inside, outside));
        };
        iter = freed;
      },
    )
    else (fault double_free, record { om = record st { vom = written.1 }; iter = freed })

module _ {W I P A : Type 0} (R : Sysrepo) (B : Addresses A) (V : Vom W I P A) where
  pub nat_cb-commit :
      (xpath : Text) (g : NatGarbage) (st : NatState W A) (l : NatLocals A)
      → R.get_changes_iter xpath ≡ ok
      → nat_loop R B (nat_entry_locals B g) (R.changes xpath) (record { om = st; iter = live })
        ≡ (next l, record { om = st; iter = live })
      → nat_mapping_table_config_cb B V R true (some xpath) verify g st ≡ (
          let s : Env (NatState W A) = record { om = st; iter = live } in
          ends (nat_commit B V l s).0 (nat_commit B V l s).1)
  unfolding nat_mapping_table_config_cb nat_body arg_check arg_check2 open_iter
  nat_cb-commit xpath g st l got looped = rw (got, looped)

  pub nat_commit_static :
      (l : NatLocals A) (st : NatState W A)
      → l.create ≡ true
      → text_eq l.builder.m_type (codes "static") ≡ true
      → (let s : Env (NatState W A) = record { om = st; iter = live } in
          ends (nat_commit B V l s).0 (nat_commit B V l s).1)
        ≡ writes_mapping V l.xindex l.builder.m_internal_src.m_address
            l.builder.m_external_src.m_address st
  unfolding nat_commit free_iter
  nat_commit_static l st c t =
      let made = build_sources B l.builder in
      let (inside, outside) = build_stores B l.builder t in
      elim (Bool-cases
        (V.write (show l.xindex)
          (nat_obj l.builder.m_internal_src.m_address l.builder.m_external_src.m_address)
          st.vom).0) [
            | inl good ↦ rw (c, made, t, good, inside, outside)
            | inr bad ↦ rw (c, made, t, bad)
          ]

  pub nat_commit_other :
      (l : NatLocals A) (st : NatState W A)
      → l.create ≡ true
      → text_eq l.builder.m_type (codes "static") ≡ false
      → (let s : Env (NatState W A) = record { om = st; iter = live } in
          ends (nat_commit B V l s).0 (nat_commit B V l s).1)
        ≡ (fault double_free, record { om = st; iter = freed })
  unfolding nat_commit free_iter
  nat_commit_other l st c t = rw (c, build_sources B l.builder, t)

  -- The variables on entry hold the default address in every prefix and no type.
  abbrev pub source_address : Text → List Val → ℕ → A
  source_address n vs garbage = (last_prefix R B n vs (default_prefix B garbage)).m_address

  module _ (xpath : Text) (g : NatGarbage) (st : NatState W A) (vs : List Val) (v : Val)
      (N : NamesNodes R) (got : R.get_changes_iter xpath ≡ ok) (readable : All (IsReadable R B) vs)
      (set : R.changes xpath ≡ map creation vs)
      (indexed : last_val R (codes "index") vs ≡ some v) where
    -- On SR_EV_VERIFY, when the change iterator can be had and an xpath has one node name: a set
    -- of created nodes with an index, whose last type is "static" and whose address nodes all
    -- hold prefixes, is written to VOM under its last index, with the last internal and the last
    -- external source address, or the default address where there is none; destination addresses
    -- are not used. If the write succeeds, the pair is entered in the table under the index, and
    -- every other entry stays; if it fails, the iterator is freed twice. What `create`, `remove`
    -- and `xindex` hold on entry makes no difference.
    pub nat_mapping_table_config_cb_creates :
        text_eq
            (last_or (λ u. u.string_val) (last_val R (codes "type") vs) (codes ""))
            (codes "static")
          ≡ true
        → nat_mapping_table_config_cb B V R true (some xpath) verify g st
          ≡ writes_mapping V v.uint32_val
              (source_address (codes "internal-src-address") vs g.internal_src_len)
              (source_address (codes "external-src-address") vs g.external_src_len)
              st
    unfolding new_nat_builder nat_entry_locals
    nat_mapping_table_config_cb_creates typed =
        let l = nat_collected R B (nat_entry_locals B g) vs in
        let s : Env (NatState W A) = record { om = st; iter = live } in
        let looped : nat_loop R B (nat_entry_locals B g) (R.changes xpath) s ≡ (next l, s) =
          rw set (nat_loop-created R B (nat_entry_locals B g) vs s N readable) in
        nat_cb-commit xpath g st l got looped
        ∙ nat_commit_static l st (rw (last_val-has_node R (codes "index") vs indexed)) typed
        ∙ (rw indexed)

    -- On SR_EV_VERIFY, when the change iterator can be had and an xpath has one node name: a set
    -- of created nodes with an index, whose address nodes all hold prefixes and whose last type
    -- is not "static", or that has no type, is a fault: nothing is written, and the iterator is
    -- freed twice.
    pub nat_mapping_table_config_cb_other_type :
        text_eq
            (last_or (λ u. u.string_val) (last_val R (codes "type") vs) (codes ""))
            (codes "static")
          ≡ false
        → nat_mapping_table_config_cb B V R true (some xpath) verify g st
          ≡ (fault double_free, record { om = st; iter = freed })
    unfolding new_nat_builder nat_entry_locals
    nat_mapping_table_config_cb_other_type typed =
        let l = nat_collected R B (nat_entry_locals B g) vs in
        let s : Env (NatState W A) = record { om = st; iter = live } in
        let looped : nat_loop R B (nat_entry_locals B g) (R.changes xpath) s ≡ (next l, s) =
          rw set (nat_loop-created R B (nat_entry_locals B g) vs s N readable) in
        nat_cb-commit xpath g st l got looped
        ∙ nat_commit_other l st (rw (last_val-has_node R (codes "index") vs indexed)) typed

  -- On SR_EV_VERIFY, when the change iterator can be had: a set of deleted nodes with an index
  -- removes the mapping of the last index from VOM and from the table, if `create`, which the
  -- callback never initialises, is false on entry. If it is true the callback tries to build a
  -- mapping without a type, and frees its iterator twice.
  pub nat_mapping_table_config_cb_deletes :
      (xpath : Text) (g : NatGarbage) (st : NatState W A) (vs : List Val) (v : Val)
      → R.get_changes_iter xpath ≡ ok
      → R.changes xpath ≡ map deletion vs
      → last_val R (codes "index") vs ≡ some v
      → nat_mapping_table_config_cb B V R true (some xpath) verify g st ≡ (
          if g.create
          then (fault double_free, record { om = st; iter = freed })
          else (value ok, record { om = om_remove B V v.uint32_val st; iter = freed }))
  unfolding new_nat_builder nat_entry_locals nat_commit free_iter text_eq
  nat_mapping_table_config_cb_deletes xpath g st vs v got set indexed =
      let l = nat_removed R B (nat_entry_locals B g) vs in
      let s : Env (NatState W A) = record { om = st; iter = live } in
      let looped : nat_loop R B (nat_entry_locals B g) (R.changes xpath) s ≡ (next l, s) =
        rw set (nat_loop-deleted R B (nat_entry_locals B g) vs s) in
      nat_cb-commit xpath g st l got looped
      ∙ ground (arith, last_val-has_node R (codes "index") vs indexed, build_sources B l.builder)
