-- ===== src/Interface/Create/Returns.antt =====
-- `ietf_interface_create_cb` of src/plugins/ietf/ietf_interface.cpp on any change set that sysrepo
-- may report.
use mathlib.Core.Bool.{false≢true}
use sweetcomb.Prelude.{
  Bool, true, false, is_empty, Text, codes, Option, none, some, List, [], ◌∷◌, ◌||◌, ◌⊎◌, inl, inr,
  All, ◌≡◌, ◌≢◌, refl, sym, ◌∙◌, Bool-cases, Option-cases, arith,
}
use sweetcomb.Prelude.Outcome.{value}
use sweetcomb.Sysrepo.{
  SrError, ok, inval_arg, operation_failed, is_ok, is_ok_eq, Oper, created, modified, deleted,
  moved, Event, verify, Val, Change, Sysrepo,
}
use sweetcomb.Callback.{
  Env, live, pure, goto_end, deref, free_iter, open_iter, update_om, ends, ◌>>◌,
}
use sweetcomb.Callback.Safe.{Safe, Safe-bind, Safe-if, Safe-deref, returns_after}
use sweetcomb.Vom.{Vom, interface_obj}
use sweetcomb.Interface.{build}
use sweetcomb.Interface.Create.Laws.{ietf_interface_create_cb_closes}
use sweetcomb.Interface.Create.{
  Locals, Garbage, entry_locals, on_created, on_deleted, on_modified, on_change, logged_val, loop,
  build_if, commit, body, ietf_interface_create_cb,
}

-- What sysrepo hands out with each operation: the new value of a created or modified node, which
-- stands in an interface, and the old value of a deleted one.
abbrev pub IsReported : Sysrepo → Change → Type 0
IsReported R c = elim c.oper [
  | created ↦ (v : Val) × (c.new_val ≡ some v)
  | modified ↦
      (v : Val) × (n : Text) × (c.new_val ≡ some v)
      × (R.key_value v.xpath (codes "interface") (codes "name") ≡ some n)
  | deleted ↦ (v : Val) × (c.old_val ≡ some v)
  | moved ↦ (v : Val) × ((c.old_val ≡ some v) ⊎ (c.new_val ≡ some v))
]

module _ {W I P A : Type 0} (R : Sysrepo) (V : Vom W I P A) where
  -- `modify` is set only with an interface.
  abbrev HasIntf : Locals I → Type 0
  HasIntf l = l.modify ≡ true → (i : I) × (l.intf ≡ some i)

  set_found-Safe :
      (o : Option I) (l : Locals I) (b : Bool)
      → Safe {W = W}
          (elim o [
            | none ↦ goto_end operation_failed
            | some i ↦ (do
              update_om (V.set_state i b)
              pure (record l { intf = some i; modify = true }))
          ])
          HasIntf
  set_found-Safe none l b s = (refl, tt)
  set_found-Safe (some i) l b s = (refl, λ m. (i, refl))

  on_modified-Safe :
      (l : Locals I) (v : Val) (n : Text)
      → R.key_value v.xpath (codes "interface") (codes "name") ≡ some n
      → HasIntf l
      → Safe (on_modified R V l v) HasIntf
  unfolding on_modified
  on_modified-Safe l v n named h =
      Safe-if (R.node_name_eq v.xpath (codes "enabled")) _ (pure l) HasIntf
        (λ e.
          Safe-bind _ _ (λ m. Unit) HasIntf
            (Safe-deref (R.key_value v.xpath (codes "interface") (codes "name")) n _ named tt)
            (λ m u s. set_found-Safe (V.find m s.om) l v.bool_val s))
        (λ e s. (refl, h))

  on_created-keeps :
      (l : Locals I) (v : Val)
      → ((on_created R l v).intf ≡ l.intf) × ((on_created R l v).modify ≡ l.modify)
  unfolding on_created
  on_created-keeps l v = ground arith

  on_deleted-keeps :
      (l : Locals I) (v : Val)
      → ((on_deleted R l v).intf ≡ l.intf) × ((on_deleted R l v).modify ≡ l.modify)
  unfolding on_deleted
  on_deleted-keeps l v = ground arith

  HasIntf-kept :
      (l l' : Locals I) → (l'.intf ≡ l.intf) × (l'.modify ≡ l.modify) → HasIntf l → HasIntf l'
  HasIntf-kept l l' (same, same') h m = let (i, e) = h (sym same' ∙ m) in (i, same ∙ e)

  logged :
      (c : Change) (v : Val)
      → (c.old_val ≡ some v) ⊎ (c.new_val ≡ some v)
      → (u : Val) × (logged_val R V c ≡ some u)
  logged c v h = elim (Option-cases c.old_val) [
    | inl absent ↦ (v, rw absent (ground (arith, absent, h)))
    | inr (u, old) ↦ (u, rw old)
  ]

  on_change-by :
      (o : Oper) (l : Locals I) (c : Change)
      → c.oper ≡ o
      → IsReported R c
      → HasIntf l
      → Safe (on_change R V l c) HasIntf
  unfolding on_change
  on_change-by created l c e reported h =
      let (v, new) = rw e at reported in
      rw e (
        Safe-bind (deref c.new_val) _ (λ u. u ≡ u) HasIntf (Safe-deref c.new_val v _ new refl)
          (λ u e s. (refl, HasIntf-kept l (on_created R l u) (on_created-keeps l u) h)))
  on_change-by modified l c e reported h =
      let (v, n, new, named) = rw e at reported in
      rw e (
        Safe-bind (deref c.new_val) _ (λ u. u ≡ v) HasIntf (Safe-deref c.new_val v _ new refl)
          (λ u same. on_modified-Safe l u n (rw same named) h))
  on_change-by deleted l c e reported h =
      let (v, old) = rw e at reported in
      rw e (
        Safe-bind (deref c.old_val) _ (λ u. u ≡ u) HasIntf (Safe-deref c.old_val v _ old refl)
          (λ u e s. (refl, HasIntf-kept l (on_deleted R l u) (on_deleted-keeps l u) h)))
  on_change-by moved l c e reported h =
      let (v, shown) = rw e at reported in
      let (u, logs) = logged c v shown in
      rw e (
        Safe-bind (deref (logged_val R V c)) _ (λ u. Unit) HasIntf
          (Safe-deref (logged_val R V c) u _ logs tt) (λ u t s. (refl, tt)))

  loop-Safe :
      (l : Locals I) (cs : List Change)
      → All (IsReported R) cs
      → HasIntf l
      → Safe (loop R V l cs) HasIntf
  unfolding loop
  loop-Safe l [] r h = λ s. (refl, h)
  loop-Safe l (c ∷ cs) r h =
      Safe-bind (on_change R V l c) _ HasIntf HasIntf (on_change-by c.oper l c refl r.0 h)
        (λ l' h'. loop-Safe l' cs r.1 h')

  commit_returns :
      (l : Locals I) (s : Env W)
      → s.iter ≡ live
      → HasIntf l
      → (rc : SrError) × ((ends (commit V l s).0 (commit V l s).1).0 ≡ value rc)
  unfolding commit build_if build free_iter
  commit_returns l s opened h = elim (Bool-cases l.create) [
    | inl creates ↦ elim (Bool-cases (is_empty l.builder.m_name || is_empty l.builder.m_type)) [
      | inl lacks ↦ (inval_arg, ground (arith, creates, lacks, opened))
      | inr full ↦
          let made = V.make_interface l.builder.m_name l.builder.m_type l.builder.m_state s.om in
          elim (Bool-cases (V.write (V.key made.0) (interface_obj made.0) made.1).0) [
            | inl good ↦ (ok, rw (commit, creates, full, good, opened))
            | inr bad ↦ (operation_failed, rw (commit, creates, full, bad, opened))
          ]
    ]
    | inr no_create ↦ elim (Bool-cases l.modify) [
      | inl modifies ↦
          let (i, e) = h modifies in
          elim (Bool-cases (V.write (V.key i) (interface_obj i) s.om).0) [
            | inl good ↦ (ok, rw (commit, no_create, modifies, e, good, opened))
            | inr bad ↦ (operation_failed, rw (commit, no_create, modifies, e, bad, opened))
          ]
      | inr no_modify ↦ (ok, ground (arith, no_create, no_modify, opened))
    ]
  ]

  returns_on :
      (event : Event) (xpath : Text) (g : Garbage) (w : W)
      → g.modify ≡ false
      → All (IsReported R) (R.changes xpath)
      → (rc : SrError) × ((ietf_interface_create_cb R V xpath event g w).0 ≡ value rc)
  unfolding ietf_interface_create_cb body open_iter free_iter
  returns_on verify xpath g w no_modify reported =
      elim (Bool-cases (is_ok (R.get_changes_iter xpath))) [
        | inl good ↦
            let s : Env W = record { om = w; iter = live } in
            let l = entry_locals I g in
            let cs = R.changes xpath in
            let (same, post) =
              loop-Safe l cs reported (λ m. absurd (false≢true (sym no_modify ∙ m))) s in
            rw (is_ok_eq (R.get_changes_iter xpath) good) (
              returns_after (loop R V l cs s).0 (commit V) (loop R V l cs s).1 HasIntf same post
                (λ l' h. commit_returns l' (loop R V l cs s).1 same h))
        | inr bad ↦ (operation_failed, ground (arith, bad))
      ]
  returns_on _ xpath g w no_modify reported = (ok, refl)

  -- If `modify`, which the callback never initialises, is false on entry: whatever the event, and
  -- whatever change set sysrepo reports, with a value for each change and a named interface for
  -- each modified node, the callback returns, and its change iterator is freed or was never
  -- handed out.
  pub ietf_interface_create_cb_returns :
      (xpath : Text) (event : Event) (g : Garbage) (w : W)
      → g.modify ≡ false
      → All (IsReported R) (R.changes xpath)
      → (rc : SrError) × ((ietf_interface_create_cb R V xpath event g w).0 ≡ value rc)
        × ((ietf_interface_create_cb R V xpath event g w).1.iter ≢ live)
  ietf_interface_create_cb_returns xpath event g w no_modify reported =
      let (rc, done) = returns_on event xpath g w no_modify reported in
      (rc, done, ietf_interface_create_cb_closes R V xpath event g w rc done)
