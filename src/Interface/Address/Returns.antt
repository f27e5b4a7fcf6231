-- ===== src/Interface/Address/Returns.antt =====
-- `ietf_interface_ipv46_address_change_cb` on any change set without IPv6 netmasks.
use sweetcomb.Prelude.{
  true, is_empty, Text, codes, Option, none, some, List, [], ◌∷◌, All, ◌≡◌, ◌≢◌, ◌⊎◌, inl, inr,
  refl, Bool-cases, Option-cases, arith,
}
use sweetcomb.Prelude.Outcome.{Outcome, value, throws, fault}
use sweetcomb.Sysrepo.{
  SrError, ok, operation_failed, is_ok, is_ok_eq, Oper, created, modified, deleted, moved, Event,
  verify, apply, abort, enabled, Val, Change, Sysrepo,
}
use sweetcomb.Callback.{
  Env, M, live, null_ptr, pure, crash, goto_end, deref, free_iter, open_iter, run_callback, ◌>>◌,
}
use sweetcomb.Callback.Safe.{Safe, Safe-bind, Safe-if, Safe-deref, returns_after, close_returns}
use sweetcomb.Vom.{Vom}
use sweetcomb.SysUtil.{Addresses}
use sweetcomb.SysUtil.Netmask.Laws.{WritesBytes, netmask_to_plen_ends}
use sweetcomb.Interface.Address.{
  Entry, AddressLocals, address_entry_locals, parse_interface_ipv46_address, parse_new, parse_old,
  parse_change, delete_if, create_if, shown_val, address_change, address_loop, visited,
  address_body, ietf_interface_ipv46_address_change_cb,
}
use sweetcomb.Interface.Address.Closes.{ietf_interface_ipv46_address_change_cb_closes}

module _ {A : Type 0} (R : Sysrepo) (B : Addresses A) where
  -- If the value is a netmask that Boost reads, it reads an IPv4 address.
  abbrev pub HasV4Mask : Option Val → Type 0
  HasV4Mask o =
      (v : Val) (a : A)
      → o ≡ some v
      → R.node_name_eq v.xpath (codes "netmask") ≡ true
      → B.from_string v.string_val ≡ some a
      → B.is_v4 a ≡ true

  -- A change of an interface: it has a value, whose xpath names the interface, and its netmasks,
  -- if there are any, are of IPv4.
  pub record IsShown (c : Change) : Type 0 where
    pub val : Val
    pub if_name : Text
    pub shown : (c.new_val ≡ some val) ⊎ ((c.new_val ≡ none) × (c.old_val ≡ some val))
    pub named : R.key_value val.xpath (codes "interface") (codes "name") ≡ some if_name
    pub old_mask : HasV4Mask c.old_val
    pub new_mask : HasV4Mask c.new_val

abbrev IsNoFault : {T : Type 0} → Outcome T → Type 0
IsNoFault (value a) = Unit
IsNoFault (throws e) = Unit
IsNoFault (fault u) = ⊥

caught-Safe :
    {W T L : Type 0} (o : Outcome T) (f : T → M W L) (g : M W L)
    → IsNoFault o
    → ((a : T) → Safe (f a) (λ l. Unit))
    → Safe g (λ l. Unit)
    → Safe {W = W} {T = L}
        (λ s. elim o [ value a ↦ f a s | throws x ↦ g s | fault u ↦ crash u s ])
        (λ l. Unit)
caught-Safe (value a) f g n h k s = h a s
caught-Safe (throws e) f g n h k s = k s
caught-Safe (fault u) f g n h k s = absurd n

module _ {A : Type 0} (R : Sysrepo) (B : Addresses A) (bytes : WritesBytes B) where
  mask-IsNoFault :
      (v : Val) (e : Entry)
      → ((a : A) → B.from_string v.string_val ≡ some a → B.is_v4 a ≡ true)
      → IsNoFault (parse_interface_ipv46_address R B (some v) e)
  unfolding parse_interface_ipv46_address
  mask-IsNoFault v e v4 = elim (Option-cases (B.from_string v.string_val)) [
    | inl unread ↦ ground (arith, unread)
    | inr (a, read) ↦ elim (netmask_to_plen_ends B a (v4 a read) bytes) [
      | inl bad ↦ ground (arith, read, bad)
      | inr (k, plen) ↦ ground (arith, read, plen)
    ]
  ]

  parse-IsNoFault :
      (o : Option Val) (e : Entry)
      → HasV4Mask R B o
      → IsNoFault (parse_interface_ipv46_address R B o e)
  unfolding parse_interface_ipv46_address
  parse-IsNoFault none e h = tt
  parse-IsNoFault (some v) e h = elim (Bool-cases (R.node_name_eq v.xpath (codes "netmask"))) [
    | inl masked ↦ mask-IsNoFault v e (λ a read. h v a refl masked read)
    | inr other ↦ ground (arith, other)
  ]

module _ {W A : Type 0} (R : Sysrepo) (B : Addresses A) (bytes : WritesBytes B) where
  parse_new-Safe :
      (l : AddressLocals) (c : Change)
      → IsShown R B c
      → Safe {W = W} (parse_new R B l c) (λ l. Unit)
  unfolding parse_new
  parse_new-Safe l c h =
      caught-Safe (parse_interface_ipv46_address R B c.new_val l.new_entry)
        (λ e. pure (record l { new_entry = e })) (pure l)
        (parse-IsNoFault R B bytes c.new_val l.new_entry h.new_mask) (λ e s. (refl, tt))
        (λ s. (refl, tt))

  parse_old-Safe :
      (l : AddressLocals) (c : Change)
      → IsShown R B c
      → Safe {W = W} (parse_old R B l c) (λ l. Unit)
  unfolding parse_old
  parse_old-Safe l c h =
      caught-Safe (parse_interface_ipv46_address R B c.old_val l.old_entry)
        (λ e. pure (record l { old_entry = e })) (pure l)
        (parse-IsNoFault R B bytes c.old_val l.old_entry h.old_mask) (λ e s. (refl, tt))
        (λ s. (refl, tt))

  parse_change-by :
      (o : Oper) (l : AddressLocals) (c : Change)
      → c.oper ≡ o
      → IsShown R B c
      → Safe {W = W} (parse_change R B l c) (λ l. Unit)
  unfolding parse_change parse_new parse_old
  parse_change-by created l c e h = λ s. rw e (parse_new-Safe (record l { create = true }) c h s)
  parse_change-by modified l c e h = λ s.
      let l' : AddressLocals = record l { create = true; del = true } in
      rw e (
        caught-Safe (parse_interface_ipv46_address R B c.old_val l.old_entry)
          (λ e. parse_new R B (record l' { old_entry = e }) c) (pure l')
          (parse-IsNoFault R B bytes c.old_val l.old_entry h.old_mask)
          (λ e. parse_new-Safe (record l' { old_entry = e }) c h) (λ s. (refl, tt)) s)
  parse_change-by deleted l c e h = λ s. rw e (parse_old-Safe (record l { del = true }) c h s)
  parse_change-by moved l c e h = λ s. rw e (refl, tt)

module _ {W I P A : Type 0} (R : Sysrepo) (B : Addresses A) (V : Vom W I P A)
    (bytes : WritesBytes B) where
  delete_if-Safe : (n : Text) (l : AddressLocals) → Safe (delete_if R B V n l) (λ l. Unit)
  unfolding delete_if
  delete_if-Safe n l s = ground arith

  create_if-Safe : (n : Text) (l : AddressLocals) → Safe (create_if R B V n l) (λ l. Unit)
  unfolding create_if
  create_if-Safe n l s = ground arith

  shown_val-eq : (c : Change) (h : IsShown R B c) → shown_val R B V c ≡ some h.val
  shown_val-eq c h = elim h.shown [ inl new ↦ rw new | inr (absent, old) ↦ rw (absent, old) ]

  address_change-Safe :
      (l : AddressLocals) (c : Change) → IsShown R B c → Safe (address_change R B V l c) (λ l. Unit)
  unfolding address_change
  address_change-Safe l c h =
      Safe-bind (deref (shown_val R B V c)) _ (λ v. v ≡ h.val) (λ l. Unit)
        (Safe-deref (shown_val R B V c) h.val _ (shown_val-eq c h) refl)
        (λ v same.
          Safe-bind (deref (R.key_value v.xpath (codes "interface") (codes "name"))) _ (λ n. Unit)
            (λ l. Unit) (Safe-deref _ h.if_name _ (rw same h.named) tt)
            (λ n u.
              Safe-if (is_empty n) (goto_end operation_failed) _ (λ l. Unit) (λ e s. (refl, tt))
                (λ e.
                  Safe-bind (parse_change R B l c) _ (λ l. Unit) (λ l. Unit)
                    (parse_change-by R B bytes c.oper l c refl h)
                    (λ l₁ u.
                      Safe-bind (delete_if R B V n l₁) _ (λ l. Unit) (λ l. Unit)
                        (delete_if-Safe n l₁) (λ l₂ u. create_if-Safe n l₂)))))

  address_loop-Safe :
      (l : AddressLocals) (cs : List Change)
      → All (IsShown R B) cs
      → Safe (address_loop R B V l cs) (λ l. Unit)
  unfolding address_loop
  address_loop-Safe l [] h = λ s. (refl, tt)
  address_loop-Safe l (c ∷ cs) h =
      Safe-bind (address_change R B V l c) _ (λ l. Unit) (λ l. Unit) (address_change-Safe l c h.0)
        (λ l' u. address_loop-Safe l' cs h.1)

  body_returns :
      (xpath : Text) (event : Event) (w : W)
      → All (IsShown R B) (visited R B V event (R.changes xpath))
      → (rc : SrError) × ((run_callback null_ptr (address_body R B V xpath event) w).0 ≡ value rc)
  unfolding address_body open_iter free_iter
  body_returns xpath event w shown = elim (Bool-cases (is_ok (R.get_changes_iter xpath))) [
    | inl good ↦
        let s : Env W = record { om = w; iter = live } in
        let cs = visited R B V event (R.changes xpath) in
        let r = address_loop R B V address_entry_locals cs s in
        let (same, post) = address_loop-Safe address_entry_locals cs shown s in
        rw (is_ok_eq (R.get_changes_iter xpath) good) (
          returns_after r.0 (λ l. (do free_iter; pure l.op_rc)) r.1 (λ l. Unit) same post
            (λ l u. (l.op_rc, close_returns l.op_rc r.1 same)))
    | inr bad ↦ (R.get_changes_iter xpath, ground (arith, bad))
  ]

  All-visited :
      (event : Event) (cs : List Change)
      → All (IsShown R B) cs
      → All (IsShown R B) (visited R B V event cs)
  unfolding visited
  All-visited verify cs h = h
  All-visited apply cs h = h
  All-visited enabled cs h = h
  All-visited abort cs h = tt

  returns_on :
      (event : Event) (xpath : Text) (w : W)
      → All (IsShown R B) (R.changes xpath)
      → (rc : SrError) × ((ietf_interface_ipv46_address_change_cb R B V xpath event w).0 ≡ value rc)
  unfolding ietf_interface_ipv46_address_change_cb
  returns_on apply xpath w h = (ok, refl)
  returns_on event xpath w h = body_returns xpath event w (All-visited event (R.changes xpath) h)

  -- Whatever the event, when `inet_pton` writes bytes, and whatever change set sysrepo reports in
  -- which each change has a value whose xpath has the name of an interface, and every netmask that
  -- Boost reads is an IPv4 address: the callback returns, and its change iterator is freed or was
  -- never handed out.
  pub ietf_interface_ipv46_address_change_cb_returns :
      (xpath : Text) (event : Event) (w : W)
      → All (IsShown R B) (R.changes xpath)
      → (rc : SrError) × ((ietf_interface_ipv46_address_change_cb R B V xpath event w).0 ≡ value rc)
        × ((ietf_interface_ipv46_address_change_cb R B V xpath event w).1.iter ≢ live)
  ietf_interface_ipv46_address_change_cb_returns xpath event w h =
      let (rc, done) = returns_on event xpath w h in
      (rc, done, ietf_interface_ipv46_address_change_cb_closes R B V xpath event w rc done)
