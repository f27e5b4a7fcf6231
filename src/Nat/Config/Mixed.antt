-- ===== src/Nat/Config/Mixed.antt =====
-- `nat_mapping_table_config_cb` on change sets that create one mapping and delete another.
use sweetcomb.Prelude.{
  Bool, true, false, Text, codes, text_eq, some, List, [], ◌∷◌, ◌++◌, map, All, if◌then◌else◌, ◌≡◌,
  refl, sym, ◌∙◌,
}
use sweetcomb.Sysrepo.{ok, verify, Val, Change, Sysrepo, NamesNodes}
use sweetcomb.Callback.{Env, next, live, ends, continue, continue_ext, continue_assoc}
use sweetcomb.Vom.{Vom}
use sweetcomb.SysUtil.{Addresses}
use sweetcomb.Interface.Changes.{creation, deletion, mixed, last_val, last_or, last_val-has_node}
use sweetcomb.Nat.Builder.{new_nat_builder}
use sweetcomb.Nat.Config.{
  NatState, NatLocals, NatGarbage, nat_entry_locals, nat_change, nat_loop, nat_commit,
  nat_mapping_table_config_cb,
}
use sweetcomb.Nat.Config.Loop.{
  IsReadable, nat_collected, nat_removed, nat_loop-created, nat_loop-deleted,
}
use sweetcomb.Nat.Config.Laws.{writes_mapping, nat_cb-commit, nat_commit_static, source_address}

module _ {S A : Type 0} (R : Sysrepo) (B : Addresses A) where
  pub nat_loop-append :
      (l : NatLocals A) (cs ds : List Change) (s : Env S)
      → nat_loop R B l (cs ++ ds) s
        ≡ continue (nat_loop R B l cs s).0 (λ l'. nat_loop R B l' ds) (nat_loop R B l cs s).1
  unfolding nat_loop
  nat_loop-append l [] ds s = refl
  nat_loop-append l (c ∷ cs) ds s =
      continue_ext (nat_change R B l c s).0 (λ l'. nat_loop R B l' (cs ++ ds))
        (λ l' s'.
          continue (nat_loop R B l' cs s').0 (λ l''. nat_loop R B l'' ds) (nat_loop R B l' cs s').1)
        (nat_change R B l c s).1 (λ l' s'. nat_loop-append l' cs ds s')
      ∙ sym (
          continue_assoc (nat_change R B l c s).0 (λ l'. nat_loop R B l' cs)
            (λ l'. nat_loop R B l' ds) (nat_change R B l c s).1)

module _ {W I P A : Type 0} (R : Sysrepo) (B : Addresses A) (V : Vom W I P A) where
  -- The variables after such a change set.
  abbrev nat_gathered : Bool → NatLocals A → List Val → List Val → NatLocals A
  nat_gathered true l vs us = nat_removed R B (nat_collected R B l vs) us
  nat_gathered false l vs us = nat_collected R B (nat_removed R B l us) vs

  nat_loop-mixed :
      (created_first : Bool) (l : NatLocals A) (vs us : List Val) (s : Env (NatState W A))
      → NamesNodes R
      → All (IsReadable R B) vs
      → nat_loop R B l (mixed created_first vs us) s
        ≡ (next (nat_gathered created_first l vs us), s)
  nat_loop-mixed true l vs us s N readable =
      nat_loop-append R B l (map creation vs) (map deletion us) s
      ∙ rw (
        nat_loop-created R B l vs s N readable,
        nat_loop-deleted R B (nat_collected R B l vs) us s,
      )
  nat_loop-mixed false l vs us s N readable =
      nat_loop-append R B l (map deletion us) (map creation vs) s
      ∙ rw
          (nat_loop-deleted R B l us s, nat_loop-created R B (nat_removed R B l us) vs s N readable)

  nat_commit-mixed :
      (created_first : Bool) (g : NatGarbage) (st : NatState W A) (vs us : List Val) (v u : Val)
      → last_val R (codes "index") vs ≡ some v
      → last_val R (codes "index") us ≡ some u
      → text_eq
          (last_or (λ x. x.string_val) (last_val R (codes "type") vs) (codes ""))
          (codes "static")
        ≡ true
      → (let s : Env (NatState W A) = record { om = st; iter = live } in
          let c = nat_commit B V (nat_gathered created_first (nat_entry_locals B g) vs us) s in
          ends c.0 c.1)
        ≡ writes_mapping V
            (if created_first then u.uint32_val else v.uint32_val)
            (source_address R B V (codes "internal-src-address") vs g.internal_src_len)
            (source_address R B V (codes "external-src-address") vs g.external_src_len)
            st
  unfolding new_nat_builder nat_entry_locals
  nat_commit-mixed true g st vs us v u indexed indexed' typed =
      nat_commit_static R B V (nat_gathered true (nat_entry_locals B g) vs us) st
        (rw (last_val-has_node R (codes "index") vs indexed)) typed
      ∙ (rw indexed')
  nat_commit-mixed false g st vs us v u indexed indexed' typed =
      nat_commit_static R B V (nat_gathered false (nat_entry_locals B g) vs us) st
        (rw (last_val-has_node R (codes "index") vs indexed)) typed
      ∙ (rw indexed)

  -- On SR_EV_VERIFY, when the change iterator can be had and an xpath has one node name: a set
  -- that creates nodes, with an index, the last type "static" and address nodes that all hold
  -- prefixes, and deletes nodes with an index, removes no mapping. It writes the mapping of the
  -- created nodes under the last index of the set, which is the index that was to be deleted if
  -- its nodes come last, and enters it in the table under that index if the write succeeds; if it
  -- fails, the iterator is freed twice. What `create`, `remove` and `xindex` hold on entry makes
  -- no difference.
  pub nat_mapping_table_config_cb_mixes :
      (created_first : Bool) (xpath : Text) (g : NatGarbage) (st : NatState W A) (vs us : List Val)
      (v u : Val)
      → NamesNodes R
      → R.get_changes_iter xpath ≡ ok
      → All (IsReadable R B) vs
      → R.changes xpath ≡ mixed created_first vs us
      → last_val R (codes "index") vs ≡ some v
      → last_val R (codes "index") us ≡ some u
      → text_eq
          (last_or (λ x. x.string_val) (last_val R (codes "type") vs) (codes ""))
          (codes "static")
        ≡ true
      → nat_mapping_table_config_cb B V R true (some xpath) verify g st
        ≡ writes_mapping V
            (if created_first then u.uint32_val else v.uint32_val)
            (source_address R B V (codes "internal-src-address") vs g.internal_src_len)
            (source_address R B V (codes "external-src-address") vs g.external_src_len)
            st
  nat_mapping_table_config_cb_mixes created_first xpath g st vs us v u N got readable set indexed
        indexed' typed =
      let l = nat_gathered created_first (nat_entry_locals B g) vs us in
      let s : Env (NatState W A) = record { om = st; iter = live } in
      let looped : nat_loop R B (nat_entry_locals B g) (R.changes xpath) s ≡ (next l, s) =
        rw set (nat_loop-mixed created_first (nat_entry_locals B g) vs us s N readable) in
      nat_cb-commit R B V xpath g st l got looped
      ∙ nat_commit-mixed created_first g st vs us v u indexed indexed' typed
