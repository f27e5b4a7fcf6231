-- ===== src/Interface/Address/Frame.antt =====
-- What `ietf_interface_ipv46_address_change_cb` leaves alone in VOM's state.
use sweetcomb.Prelude.{
  ℕ, Bool, true, false, not, is_empty, Text, codes, List, [], ◌∷◌, ◌&&◌, inl, inr, ◌≡◌,
  Option-cases, Bool-cases, arith,
}
use sweetcomb.Sysrepo.{operation_failed, Event, apply, Change, Sysrepo}
use sweetcomb.Callback.{Env, M, null_ptr, goto_end, deref, run_callback}
use sweetcomb.Callback.Triple.{
  Post, Triple, Triple-bind, Triple-if, Triple-deref, Triple-close, Triple-read, Inv-run_callback,
}
use sweetcomb.Vom.{Vom}
use sweetcomb.SysUtil.{Addresses}
use sweetcomb.Interface.Frame.{KeptByInterfaces}
use sweetcomb.Interface.Address.{
  ipv46_config_add_remove, AddressLocals, address_entry_locals, parse_new, parse_old, parse_change,
  delete_if, create_if, shown_val, address_change, address_loop, visited, address_body,
  ietf_interface_ipv46_address_change_cb,
}

-- The step leaves VOM's state as it is.
abbrev KeepsState : {W T : Type 0} → M W T → Type 0
KeepsState {W} m = (s : Env W) → (m s).1 ≡ s

module _ {W A : Type 0} (R : Sysrepo) (B : Addresses A) where
  parse_new_keeps : (l : AddressLocals) (c : Change) → KeepsState {W = W} (parse_new R B l c)
  unfolding parse_new
  parse_new_keeps l c s = ground arith

  parse_old_keeps : (l : AddressLocals) (c : Change) → KeepsState {W = W} (parse_old R B l c)
  unfolding parse_old
  parse_old_keeps l c s = ground arith

  parse_change_keeps : (l : AddressLocals) (c : Change) → KeepsState {W = W} (parse_change R B l c)
  unfolding parse_change parse_new parse_old
  parse_change_keeps l c s = ground arith

module _ {W I P A : Type 0} (R : Sysrepo) (B : Addresses A) (V : Vom W I P A) (Inv : W → Type 0)
    (Free : Text → Type 0) (K : KeptByInterfaces V Inv Free) where
  ipv46_config_add_remove-Inv :
      (if_name addr : Text) (prefix : ℕ) (add : Bool) (w : W)
      → Inv w
      → Inv (ipv46_config_add_remove V if_name addr prefix add w).1
  unfolding ipv46_config_add_remove
  ipv46_config_add_remove-Inv n addr prefix add w i = elim (Option-cases (V.find n w)) [
    | inl absent ↦ rw (ipv46_config_add_remove, absent) i
    | inr (intf, found) ↦ elim (Option-cases (V.make_prefix addr prefix)) [
      | inl bad ↦ rw (ipv46_config_add_remove, found, bad) i
      | inr (pfx, good) ↦ elim (Bool-cases add) [
        | inl adds ↦ rw (ipv46_config_add_remove, found, good, adds) (K.writing_l3 intf pfx w i)
        | inr removes ↦
            rw (ipv46_config_add_remove, found, good, removes) (K.removing_l3 intf pfx w i)
      ]
    ]
  ]

  delete_if-Triple : (n : Text) (l : AddressLocals) → Triple Inv (delete_if R B V n l) (λ l. Unit)
  unfolding delete_if
  delete_if-Triple n l =
      Triple-if Inv (l.del && not (is_empty l.old_entry.addr)) _ _ (λ l. Unit)
        (λ e s i.
          (ipv46_config_add_remove-Inv n l.old_entry.addr l.old_entry.prefix false s.om i, tt))
        (λ e s i. (i, tt))

  create_if-Triple : (n : Text) (l : AddressLocals) → Triple Inv (create_if R B V n l) (λ l. Unit)
  unfolding create_if
  create_if-Triple n l =
      Triple-if Inv (l.create && not (is_empty l.new_entry.addr)) _ _ (λ l. Unit)
        (λ e s i.
          (ipv46_config_add_remove-Inv n l.new_entry.addr l.new_entry.prefix true s.om i, tt))
        (λ e s i. (i, tt))

  Post-any : {T : Type 0} (m : M W T) (s : Env W) → Post (λ a. Unit) (m s).0
  Post-any m s = ground arith

  parse_change-Triple :
      (l : AddressLocals) (c : Change) → Triple Inv (parse_change R B l c) (λ l. Unit)
  parse_change-Triple l c s i =
      (rw (parse_change_keeps R B l c s) i, Post-any (parse_change R B l c) s)

  address_change-Triple :
      (l : AddressLocals) (c : Change) → Triple Inv (address_change R B V l c) (λ l. Unit)
  unfolding address_change
  address_change-Triple l c =
      Triple-bind Inv (deref (shown_val R B V c)) _ (λ v. Unit) (λ l. Unit)
        (Triple-deref Inv (shown_val R B V c) (λ v. Unit) (λ v e. tt))
        (λ v u.
          Triple-bind Inv (deref (R.key_value v.xpath (codes "interface") (codes "name"))) _
            (λ n. Unit) (λ l. Unit) (Triple-deref Inv _ (λ n. Unit) (λ n e. tt))
            (λ n u.
              Triple-if Inv (is_empty n) (goto_end operation_failed) _ (λ l. Unit)
                (λ e s i. (i, tt))
                (λ e.
                  Triple-bind Inv (parse_change R B l c) _ (λ l. Unit) (λ l. Unit)
                    (parse_change-Triple l c)
                    (λ l₁ u.
                      Triple-bind Inv (delete_if R B V n l₁) _ (λ l. Unit) (λ l. Unit)
                        (delete_if-Triple n l₁) (λ l₂ u. create_if-Triple n l₂)))))

  address_loop-Triple :
      (l : AddressLocals) (cs : List Change) → Triple Inv (address_loop R B V l cs) (λ l. Unit)
  unfolding address_loop
  address_loop-Triple l [] = λ s i. (i, tt)
  address_loop-Triple l (c ∷ cs) =
      Triple-bind Inv (address_change R B V l c) _ (λ l. Unit) (λ l. Unit)
        (address_change-Triple l c) (λ l' u. address_loop-Triple l' cs)

  address_body-Inv :
      (xpath : Text) (event : Event) (w : W)
      → Inv w
      → Inv (run_callback null_ptr (address_body R B V xpath event) w).1.om
  unfolding address_body
  address_body-Inv xpath event w i =
      Inv-run_callback Inv null_ptr (address_body R B V xpath event) w (λ rc. Unit)
        (Triple-read Inv (R.get_changes_iter xpath) _ (λ rc. rc)
          (Triple-bind Inv _ _ (λ l. Unit) (λ rc. Unit)
            (address_loop-Triple address_entry_locals (visited R B V event (R.changes xpath)))
            (λ l u. Triple-close Inv l.op_rc)))
        i

  -- `ietf_interface_ipv46_address_change_cb` keeps the invariant.
  pub ietf_interface_ipv46_address_change_cb-Inv :
      (xpath : Text) (event : Event) (w : W)
      → Inv w
      → Inv (ietf_interface_ipv46_address_change_cb R B V xpath event w).1.om
  unfolding ietf_interface_ipv46_address_change_cb
  ietf_interface_ipv46_address_change_cb-Inv xpath apply w i = i
  ietf_interface_ipv46_address_change_cb-Inv xpath event w i = address_body-Inv xpath event w i
