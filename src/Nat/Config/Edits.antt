-- ===== src/Nat/Config/Edits.antt =====
-- `nat_mapping_table_config_cb` of src/plugins/ietf/ietf_nat.cpp on any set of created and deleted
-- nodes.
use sweetcomb.Prelude.{
  true, false, Text, codes, text_eq, some, [], ◌∷◌, map, All, ◌||◌, if◌then◌else◌, ◌≡◌, refl, ◌∙◌,
  ap, inl, inr, Bool-cases, arith,
}
use sweetcomb.Prelude.Outcome.{Outcome, value, fault, double_free}
use sweetcomb.Sysrepo.{SrError, ok, verify, Val, Sysrepo, NamesNodes}
use sweetcomb.Callback.{Env, next, live, freed, free_iter, ends}
use sweetcomb.Vom.{Vom}
use sweetcomb.SysUtil.{Addresses}
use sweetcomb.Interface.Changes.{
  Edits, change_of, edited, created_in, deleted_in, last_val, has_node, last_or, last_or-cons,
}
use sweetcomb.Nat.Builder.{new_nat_builder}
use sweetcomb.Nat.Config.{
  NatState, NatLocals, NatGarbage, nat_entry_locals, nat_deleted, nat_change, nat_loop, om_remove,
  nat_commit, nat_mapping_table_config_cb,
}
use sweetcomb.Nat.Config.Loop.{
  IsReadable, absorb, nat_collected, nat_collected_step, nat_created-absorb,
}
use sweetcomb.Nat.Config.Laws.{
  writes_mapping, nat_cb-commit, nat_commit_static, nat_commit_other, source_address,
}

module _ {A : Type 0} (R : Sysrepo) (B : Addresses A) where
  -- The variables after the set: the last index of all nodes, the last type and addresses of the
  -- created ones, and whether an index was created and deleted.
  abbrev nat_gathered : NatLocals A → Edits → NatLocals A
  nat_gathered l es = record (nat_collected R B l (created_in es)) {
    xindex = last_or (λ v. v.uint32_val) (last_val R (codes "index") (edited es)) l.xindex;
    remove = has_node R (codes "index") (deleted_in es) || l.remove;
  }

  nat_gathered_created :
      (l : NatLocals A) (v : Val) (es : Edits)
      → nat_gathered (absorb R B l v) es ≡ nat_gathered l ((true, v) ∷ es)
  unfolding edited created_in deleted_in
  nat_gathered_created l v es =
      let finish : NatLocals A → NatLocals A = λ c. record c {
        xindex = last_or (λ u. u.uint32_val) (last_val R (codes "index") (v ∷ edited es)) l.xindex;
        remove = has_node R (codes "index") (deleted_in es) || l.remove;
      } in
      rw (last_or-cons (λ u. u.uint32_val) R (codes "index") v (edited es) l.xindex)
        (ap finish (nat_collected_step R B l v (created_in es)))

  nat_gathered_deleted :
      (l : NatLocals A) (v : Val) (es : Edits)
      → nat_gathered (nat_deleted R B l v) es ≡ nat_gathered l ((false, v) ∷ es)
  unfolding nat_deleted last_val has_node edited created_in deleted_in
  nat_gathered_deleted l v es = ground arith

module _ {S A : Type 0} (R : Sysrepo) (B : Addresses A) (N : NamesNodes R) where
  nat_loop-edits :
      (l : NatLocals A) (es : Edits) (s : Env S)
      → All (IsReadable R B) (created_in es)
      → nat_loop R B l (map change_of es) s ≡ (next (nat_gathered R B l es), s)
  unfolding nat_loop nat_change edited created_in deleted_in last_val has_node
  nat_loop-edits l [] s h = refl
  nat_loop-edits l ((true, v) ∷ es) s h = rw (nat_created-absorb R B l v N h.0) (
      nat_loop-edits (absorb R B l v) es s h.1
      ∙ ap (λ l'. (next l', s)) (nat_gathered_created R B l v es))
  nat_loop-edits l ((false, v) ∷ es) s h =
      nat_loop-edits (nat_deleted R B l v) es s h
      ∙ ap (λ l'. (next l', s)) (nat_gathered_deleted R B l v es)

module _ {W I P A : Type 0} (R : Sysrepo) (B : Addresses A) (V : Vom W I P A) where
  -- What a set of created and deleted nodes does, by what its nodes say.
  unfoldable pub edit_mapping :
      NatGarbage → Edits → NatState W A → Outcome SrError × Env (NatState W A)
  edit_mapping g es st =
      let index = last_or (λ v. v.uint32_val) (last_val R (codes "index") (edited es)) g.xindex in
      let typed =
        last_or (λ v. v.string_val) (last_val R (codes "type") (created_in es)) (codes "") in
      if has_node R (codes "index") (created_in es) || g.create
      then (if text_eq typed (codes "static")
          then writes_mapping V index
              (source_address R B V (codes "internal-src-address") (created_in es)
                g.internal_src_len)
              (source_address R B V (codes "external-src-address") (created_in es)
                g.external_src_len)
              st
          else (fault double_free, record { om = st; iter = freed }))
      else if has_node R (codes "index") (deleted_in es) || g.remove
      then (value ok, record { om = om_remove B V index st; iter = freed })
      else (value ok, record { om = st; iter = freed })

  nat_commit-removed :
      (l : NatLocals A) (st : NatState W A)
      → l.create ≡ false
      → (let s : Env (NatState W A) = record { om = st; iter = live } in
          ends (nat_commit B V l s).0 (nat_commit B V l s).1)
        ≡ (
          value ok,
          record { om = if l.remove then om_remove B V l.xindex st else st; iter = freed },
        )
  unfolding nat_commit free_iter
  nat_commit-removed l st c = ground arith

  nat_commit-edit_mapping :
      (g : NatGarbage) (es : Edits) (st : NatState W A)
      → (let s : Env (NatState W A) = record { om = st; iter = live } in
          let c = nat_commit B V (nat_gathered R B (nat_entry_locals B g) es) s in ends c.0 c.1)
        ≡ edit_mapping g es st
  unfolding edit_mapping new_nat_builder nat_entry_locals
  nat_commit-edit_mapping g es st =
      let l = nat_gathered R B (nat_entry_locals B g) es in
      elim (Bool-cases l.create) [
        | inl creates ↦ elim (Bool-cases (text_eq l.builder.m_type (codes "static"))) [
          | inl static ↦ nat_commit_static R B V l st creates static ∙ rw (creates, static)
          | inr other ↦ nat_commit_other R B V l st creates other ∙ rw (creates, other)
        ]
        | inr keeps ↦ elim (Bool-cases l.remove) [
          | inl removes ↦ nat_commit-removed l st keeps ∙ rw (keeps, removes)
          | inr nothing ↦ nat_commit-removed l st keeps ∙ rw (keeps, nothing)
        ]
      ]

  -- On SR_EV_VERIFY, when the change iterator can be had and an xpath has one node name: a set of
  -- created and deleted nodes in any order, in which every created address node holds a prefix,
  -- does what its nodes say together, the values on entry included. If an index is created, or
  -- `create` is true on entry, the source addresses of the created nodes are written under the
  -- last index of all nodes, and entered in the table if that succeeds; the iterator is freed
  -- twice if it fails, and if the last type is not "static". Otherwise the mapping of the last
  -- index is removed from VOM and the table if an index is deleted or `remove` is true on entry.
  pub nat_mapping_table_config_cb-edit_mapping :
      (xpath : Text) (g : NatGarbage) (st : NatState W A) (es : Edits)
      → NamesNodes R
      → R.get_changes_iter xpath ≡ ok
      → R.changes xpath ≡ map change_of es
      → All (IsReadable R B) (created_in es)
      → nat_mapping_table_config_cb B V R true (some xpath) verify g st ≡ edit_mapping g es st
  nat_mapping_table_config_cb-edit_mapping xpath g st es N got set readable =
      let l = nat_gathered R B (nat_entry_locals B g) es in
      let s : Env (NatState W A) = record { om = st; iter = live } in
      let looped : nat_loop R B (nat_entry_locals B g) (R.changes xpath) s ≡ (next l, s) =
        rw set (nat_loop-edits R B N (nat_entry_locals B g) es s readable) in
      nat_cb-commit R B V xpath g st l got looped ∙ nat_commit-edit_mapping g es st
