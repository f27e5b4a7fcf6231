-- ===== src/Interface/Address/Closes.antt =====
-- The change iterator of `ietf_interface_ipv46_address_change_cb`.
use sweetcomb.Prelude.{
  Bool, true, false, is_empty, Text, codes, Option, none, some, List, [], ◌∷◌, ◌≡◌, ◌≢◌, refl, ◌∙◌,
  if◌then◌else◌, arith,
}
use sweetcomb.Prelude.Outcome.{Outcome, value, throws, fault}
use sweetcomb.Sysrepo.{
  SrError, operation_failed, Event, apply, Oper, created, modified, deleted, moved, Val, Change,
  Sysrepo,
}
use sweetcomb.Callback.{
  Env, M, Flow, null_ptr, live, freed, pure, crash, goto_end, ◌>>◌, deref, free_iter, open_iter,
  ends, continue, is_return, continue_keeps, run_callback, ◌>>=◌,
}
use sweetcomb.Vom.{Vom}
use sweetcomb.SysUtil.{Addresses}
use sweetcomb.Interface.Address.{
  AddressLocals, address_entry_locals, parse_interface_ipv46_address, parse_new, parse_old,
  parse_change, delete_if, create_if, address_change, shown_val, address_loop, visited,
  address_body, ietf_interface_ipv46_address_change_cb,
}

-- A step leaves the iterator as it is, and does not return.
abbrev KeepsIter : {W T : Type 0} → M W T → Type 0
KeepsIter {W} m = (s : Env W) → ((m s).1.iter ≡ s.iter) × (is_return (m s).0 ≡ false)

bind_keeps :
    {W T U : Type 0} (m : M W T) (f : T → M W U)
    → KeepsIter m
    → ((a : T) → KeepsIter (f a))
    → KeepsIter (m >>= f)
bind_keeps m f km kf s =
    let (same, stays) = km s in
    let (same', stays') = continue_keeps (m s).0 f (m s).1 stays (λ a. kf a (m s).1) in
    (same' ∙ same, stays')

elim_keeps :
    {W E L : Type 0} (o : Outcome E) (f : E → M W L) (g : M W L)
    → ((e : E) → KeepsIter (f e))
    → KeepsIter g
    → (s : Env W)
    → (let r : Flow L × Env W = (elim o [
      | value e ↦ f e s
      | throws x ↦ g s
      | fault u ↦ crash u s
    ]) in
        (r.1.iter ≡ s.iter) × (is_return r.0 ≡ false))
elim_keeps (value e) f g kf kg s = kf e s
elim_keeps (throws x) f g kf kg s = kg s
elim_keeps (fault u) f g kf kg s = (refl, refl)

module _ {W A : Type 0} (R : Sysrepo) (B : Addresses A) where
  parse_new_keeps : (l : AddressLocals) (c : Change) → KeepsIter {W = W} (parse_new R B l c)
  unfolding parse_new
  parse_new_keeps l c s =
      elim_keeps (parse_interface_ipv46_address R B c.new_val l.new_entry)
        (λ e. pure (record l { new_entry = e })) (pure l) (λ e s'. (refl, refl))
        (λ s'. (refl, refl)) s

  parse_old_keeps : (l : AddressLocals) (c : Change) → KeepsIter {W = W} (parse_old R B l c)
  unfolding parse_old
  parse_old_keeps l c s =
      elim_keeps (parse_interface_ipv46_address R B c.old_val l.old_entry)
        (λ e. pure (record l { old_entry = e })) (pure l) (λ e s'. (refl, refl))
        (λ s'. (refl, refl)) s

  parse_change_by :
      (o : Oper) (l : AddressLocals) (c : Change)
      → c.oper ≡ o
      → KeepsIter {W = W} (parse_change R B l c)
  unfolding parse_change parse_new parse_old
  parse_change_by created l c e s = rw e (parse_new_keeps (record l { create = true }) c s)
  parse_change_by modified l c e s =
      let l' : AddressLocals = record l { create = true; del = true } in
      rw e (
        elim_keeps (parse_interface_ipv46_address R B c.old_val l.old_entry)
          (λ e. parse_new R B (record l' { old_entry = e }) c) (pure l')
          (λ e. parse_new_keeps (record l' { old_entry = e }) c) (λ s'. (refl, refl)) s)
  parse_change_by deleted l c e s = rw e (parse_old_keeps (record l { del = true }) c s)
  parse_change_by moved l c e s = rw e (refl, refl)

module _ {W I P A : Type 0} (R : Sysrepo) (B : Addresses A) (V : Vom W I P A) where
  delete_if_keeps : (n : Text) (l : AddressLocals) → KeepsIter (delete_if R B V n l)
  unfolding delete_if
  delete_if_keeps n l s = ground arith

  create_if_keeps : (n : Text) (l : AddressLocals) → KeepsIter (create_if R B V n l)
  unfolding create_if
  create_if_keeps n l s = ground arith

  deref_keeps : {T : Type 0} (o : Option T) → KeepsIter {W = W} (deref o)
  deref_keeps none s = (refl, refl)
  deref_keeps (some a) s = (refl, refl)

  named_keeps :
      (n : Text) (l : AddressLocals) (c : Change) (b : Bool)
      → KeepsIter {W = W} (
          if b
          then goto_end operation_failed
          else (do l₁ ← parse_change R B l c; l₂ ← delete_if R B V n l₁; create_if R B V n l₂))
  named_keeps n l c true = λ s. (refl, refl)
  named_keeps n l c false =
      bind_keeps _ _ (parse_change_by R B c.oper l c refl)
        (λ l₁. bind_keeps _ _ (delete_if_keeps n l₁) (λ l₂. create_if_keeps n l₂))

  address_change_keeps : (l : AddressLocals) (c : Change) → KeepsIter (address_change R B V l c)
  unfolding address_change
  address_change_keeps l c =
      let step : Text → M W AddressLocals = λ n.
        if is_empty n
        then goto_end operation_failed
        else (do l₁ ← parse_change R B l c; l₂ ← delete_if R B V n l₁; create_if R B V n l₂) in
      let name : Val → Option Text = λ v. R.key_value v.xpath (codes "interface") (codes "name") in
      bind_keeps (deref (shown_val R B V c)) (λ v. deref (name v) >>= step)
        (deref_keeps (shown_val R B V c))
        (λ v.
          bind_keeps (deref (name v)) step (deref_keeps (name v))
            (λ n. named_keeps n l c (is_empty n)))

  address_loop_keeps : (cs : List Change) (l : AddressLocals) → KeepsIter (address_loop R B V l cs)
  unfolding address_loop
  address_loop_keeps [] l = λ s. (refl, refl)
  address_loop_keeps (c ∷ cs) l =
      bind_keeps _ _ (address_change_keeps l c) (λ l'. address_loop_keeps cs l')

  after_address_loop :
      (r : Flow AddressLocals) (s : Env W) (rc : SrError)
      → s.iter ≡ live
      → is_return r ≡ false
      → (let finish : AddressLocals → M W SrError = λ l. (do free_iter; pure l.op_rc) in
          (ends (continue r finish s).0 (continue r finish s).1).0 ≡ value rc
          → (ends (continue r finish s).0 (continue r finish s).1).1.iter ≡ freed)
  unfolding free_iter
  after_address_loop r s rc opened stays done = ground arith

  address_body_closes :
      (xpath : Text) (event : Event) (w : W) (rc : SrError)
      → (run_callback null_ptr (address_body R B V xpath event) w).0 ≡ value rc
      → (run_callback null_ptr (address_body R B V xpath event) w).1.iter ≢ live
  unfolding address_body open_iter free_iter
  address_body_closes xpath event w rc done leaked =
      let s : Env W = record { om = w; iter = live } in
      let cs = visited R B V event (R.changes xpath) in
      let (same, stays) = address_loop_keeps cs address_entry_locals s in
      ground (
        arith,
        after_address_loop (address_loop R B V address_entry_locals cs s).0
            (address_loop R B V address_entry_locals cs s).1 rc same stays,
      )

  -- Whatever the event and the changes are: if the callback returns, its change iterator is freed, or
  -- was never handed out.
  pub ietf_interface_ipv46_address_change_cb_closes :
      (xpath : Text) (event : Event) (w : W) (rc : SrError)
      → (ietf_interface_ipv46_address_change_cb R B V xpath event w).0 ≡ value rc
      → (ietf_interface_ipv46_address_change_cb R B V xpath event w).1.iter ≢ live
  unfolding ietf_interface_ipv46_address_change_cb
  ietf_interface_ipv46_address_change_cb_closes xpath apply w rc done = λ leaked. cc
  ietf_interface_ipv46_address_change_cb_closes xpath event w rc done =
      address_body_closes xpath event w rc done
