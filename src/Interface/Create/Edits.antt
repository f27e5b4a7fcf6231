-- ===== src/Interface/Create/Edits.antt =====
-- `ietf_interface_create_cb` of src/plugins/ietf/ietf_interface.cpp on any set of created and
-- deleted nodes.
use sweetcomb.Prelude.{
  true, false, not, Text, codes, text_eq_iff, is_empty, [], ◌∷◌, map, ◌||◌, if◌then◌else◌, ◌≡◌,
  refl, ◌∙◌, ap, inl, inr, Bool-cases, arith,
}
use sweetcomb.Prelude.Outcome.{Outcome, value, fault, null_deref}
use sweetcomb.Sysrepo.{SrError, ok, inval_arg, verify, Val, Sysrepo, NamesNodes}
use sweetcomb.Callback.{Env, next, live, freed, free_iter, ends}
use sweetcomb.Vom.{Vom}
use sweetcomb.Interface.{set_name, set_type, set_state, new_builder, build}
use sweetcomb.Interface.Changes.{
  Edits, change_of, edited, created_in, deleted_in, last_val, has_node, has_value, last_or,
  exclusive,
}
use sweetcomb.Interface.Create.{
  Garbage, Locals, entry_locals, on_created, on_deleted, on_change, loop, build_if, commit,
  ietf_interface_create_cb,
}
use sweetcomb.Interface.Create.Loop.{name_not_type, name_not_enabled, type_not_enabled}
use sweetcomb.Interface.Create.Laws.{makes_and_writes, cb-commit, commit_built, commit_unbuilt}

-- The variables after the set: the last name of all nodes, the type and the last state of the
-- created ones, and whether a name was created and deleted.
abbrev gathered : {I : Type 0} → Sysrepo → Locals I → Edits → Locals I
gathered R l es = record l {
  builder = record {
    m_name = last_or (λ v. v.string_val) (last_val R (codes "name") (edited es)) l.builder.m_name;
    m_type =
        if has_value R (codes "type") (codes "iana-if-type:ethernetCsmacd") (created_in es)
        then codes "ETHERNET"
        else l.builder.m_type;
    m_state =
        last_or (λ v. v.bool_val) (last_val R (codes "enabled") (created_in es)) l.builder.m_state;
  };
  create = has_node R (codes "name") (created_in es) || l.create;
  remove = has_node R (codes "name") (deleted_in es) || l.remove;
}

module _ {I : Type 0} (R : Sysrepo) (N : NamesNodes R) where
  gathered_created :
      (l : Locals I) (v : Val) (es : Edits)
      → gathered R (on_created R l v) es ≡ gathered R l ((true, v) ∷ es)
  unfolding on_created set_name set_type set_state last_val has_node has_value edited created_in
      deleted_in
  gathered_created l v es = ground (
    arith,
    exclusive R N v.xpath (codes "name") (codes "type") name_not_type,
    exclusive R N v.xpath (codes "name") (codes "enabled") name_not_enabled,
    exclusive R N v.xpath (codes "type") (codes "enabled") type_not_enabled,
    text_eq_iff v.string_val (codes "iana-if-type:ethernetCsmacd"),
  )

  gathered_deleted :
      (l : Locals I) (v : Val) (es : Edits)
      → gathered R (on_deleted R l v) es ≡ gathered R l ((false, v) ∷ es)
  unfolding on_deleted set_name last_val has_node has_value edited created_in deleted_in
  gathered_deleted l v es = ground arith

module _ {W I P A : Type 0} (R : Sysrepo) (N : NamesNodes R) (V : Vom W I P A) where
  loop-edits :
      (l : Locals I) (es : Edits) (s : Env W)
      → loop R V l (map change_of es) s ≡ (next (gathered R l es), s)
  unfolding loop on_change edited created_in deleted_in last_val has_node has_value
  loop-edits l [] s = refl
  loop-edits l ((true, v) ∷ es) s =
      loop-edits (on_created R l v) es s ∙ ap (λ l'. (next l', s)) (gathered_created R N l v es)
  loop-edits l ((false, v) ∷ es) s =
      loop-edits (on_deleted R l v) es s ∙ ap (λ l'. (next l', s)) (gathered_deleted R N l v es)

module _ {W I P A : Type 0} (R : Sysrepo) (V : Vom W I P A) where
  -- What a set of created and deleted nodes does, by what its nodes say.
  unfoldable pub edit_interface : Garbage → Edits → W → Outcome SrError × Env W
  edit_interface g es w =
      let named = last_or (λ v. v.string_val) (last_val R (codes "name") (edited es)) (codes "") in
      let typed =
        has_value R (codes "type") (codes "iana-if-type:ethernetCsmacd") (created_in es) in
      if has_node R (codes "name") (created_in es) || g.create
      then (if is_empty named || not typed
          then (value inval_arg, record { om = w; iter = freed })
          else makes_and_writes V named (codes "ETHERNET")
              (last_or (λ v. v.bool_val) (last_val R (codes "enabled") (created_in es)) g.m_state)
              w)
      else if g.modify
      then (fault null_deref, record { om = w; iter = live })
      else if has_node R (codes "name") (deleted_in es) || g.remove
      then (value ok, record { om = V.remove named w; iter = freed })
      else (value ok, record { om = w; iter = freed })

  commit-edit_interface :
      (g : Garbage) (es : Edits) (w : W)
      → (let s : Env W = record { om = w; iter = live } in
          let c = commit V (gathered R (entry_locals I g) es) s in ends c.0 c.1)
        ≡ edit_interface g es w
  unfolding edit_interface new_builder commit build_if build free_iter
  commit-edit_interface g es w =
      let l = gathered R (entry_locals I g) es in
      let named = l.builder.m_name in
      let typed =
        has_value R (codes "type") (codes "iana-if-type:ethernetCsmacd") (created_in es) in
      elim (Bool-cases l.create) [
        | inl creates ↦ elim (Bool-cases (is_empty named || not typed)) [
          | inl lacks ↦ commit_unbuilt R V l w creates (ground (arith, lacks)) ∙ rw (creates, lacks)
          | inr full ↦
              let is_typed : typed ≡ true = ground (arith, full) in
              commit_built R V l w creates (ground (arith, full)) (rw is_typed)
              ∙ rw (creates, full, is_typed)
        ]
        | inr keeps ↦ elim (Bool-cases g.modify) [
          | inl modifies ↦ rw (keeps, modifies)
          | inr calm ↦ elim (Bool-cases l.remove) [
            | inl removes ↦ rw (keeps, calm, removes)
            | inr nothing ↦ rw (keeps, calm, nothing)
          ]
        ]
      ]

  -- On SR_EV_VERIFY, when the change iterator can be had and an xpath has one node name: a set of
  -- created and deleted nodes in any order does what its nodes say together, the values on entry
  -- included. If a name is created, or `create` is true on entry, one interface is made and
  -- written, with the last name of all nodes and the last `enabled` of the created ones, or the
  -- set is refused when the name is empty or no created type is Ethernet. Otherwise it is a fault
  -- if `modify` is true on entry; otherwise the interface of the last name is removed if a name
  -- is deleted or `remove` is true on entry. The iterator is freed unless it is a fault.
  pub ietf_interface_create_cb-edit_interface :
      (xpath : Text) (g : Garbage) (w : W) (es : Edits)
      → NamesNodes R
      → R.get_changes_iter xpath ≡ ok
      → R.changes xpath ≡ map change_of es
      → ietf_interface_create_cb R V xpath verify g w ≡ edit_interface g es w
  ietf_interface_create_cb-edit_interface xpath g w es N got set =
      let l = gathered R (entry_locals I g) es in
      let s : Env W = record { om = w; iter = live } in
      let looped : loop R V (entry_locals I g) (R.changes xpath) s ≡ (next l, s) =
        rw set (loop-edits R N V (entry_locals I g) es s) in
      cb-commit R V xpath g w l got looped ∙ commit-edit_interface g es w
