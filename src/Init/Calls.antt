-- ===== src/Init/Calls.antt =====
-- `sc_call_all_init_function` of src/plugins/sc_init.c, for functions that leave the lists alone.
use sweetcomb.Prelude.{
  ℕ, zero, suc, ◌≡◌, ◌<◌, refl, sym, ◌∙◌, true, false, Option, none, some, [], ◌∷◌, length,
  if◌then◌else◌, arith, Bool-cases, inl, inr,
}
use sweetcomb.Prelude.Outcome.{Outcome, value}
use sweetcomb.Sysrepo.{SrError, ok, is_ok}
use sweetcomb.Init.{Elt, PluginMain, mark_init, init_loop, sc_call_all_init_function}
use sweetcomb.Init.Lists.{
  Entries, Chain, NotIn, Distinct, Represents, Chain-update, update_ne, update_self,
}

module _ {S : Type 0} where
  -- A function that works on the session, and leaves the registration lists alone.
  abbrev pub session_only : (ℕ → S → SrError × S) → ℕ → PluginMain S → SrError × PluginMain S
  session_only act f pm = ((act f pm.session).0, record pm { session = (act f pm.session).1 })

module _ {S : Type 0} (act : ℕ → S → SrError × S) where
  -- Walks over the entries: those not called yet are called in order, each is marked before its
  -- call, and the first error ends the walk.
  unfoldable pub call_entries : SrError → Entries → S → SrError × Entries × S
  call_entries ret [] s = (ret, [], s)
  call_entries ret ((f, true) ∷ l) s =
      let rest = call_entries ret l s in (rest.0, (f, true) ∷ rest.1, rest.2)
  call_entries ret ((f, false) ∷ l) s =
      let rest = call_entries (act f s).0 l (act f s).1 in
      if is_ok (act f s).0
      then (rest.0, (f, true) ∷ rest.1, rest.2)
      else ((act f s).0, (f, true) ∷ l, (act f s).1)

  NotIn-call_entries :
      (x : ℕ) (ret : SrError) (l : Entries) (s : S) → NotIn x l → NotIn x (call_entries ret l s).1
  unfolding call_entries
  NotIn-call_entries x ret [] s h = h
  NotIn-call_entries x ret ((f, true) ∷ l) s h = (h.0, NotIn-call_entries x ret l s h.1)
  NotIn-call_entries x ret ((f, false) ∷ l) s h =
      ground (arith, NotIn-call_entries x (act f s).0 l (act f s).1 h.1)

  Distinct-call_entries :
      (ret : SrError) (l : Entries) (s : S) → Distinct l → Distinct (call_entries ret l s).1
  unfolding call_entries
  Distinct-call_entries ret [] s h = h
  Distinct-call_entries ret ((f, true) ∷ l) s h =
      (NotIn-call_entries f ret l s h.0, Distinct-call_entries ret l s h.1)
  Distinct-call_entries ret ((f, false) ∷ l) s h = ground (
    arith,
    NotIn-call_entries f (act f s).0 l (act f s).1 h.0,
    Distinct-call_entries (act f s).0 l (act f s).1 h.1,
  )

  abbrev Refines :
      Option ℕ → SrError → Entries → PluginMain S → Outcome (SrError × PluginMain S) → Type 0
  Refines p ret l pm o =
      (pm' : PluginMain S) × (o ≡ value ((call_entries ret l pm.session).0, pm'))
      × (pm'.session ≡ (call_entries ret l pm.session).2)
      × (pm'.exit_function_registrations ≡ pm.exit_function_registrations)
      × (pm'.init_function_registrations.head ≡ pm.init_function_registrations.head)
      × Chain pm'.init_function_registrations.elts p (call_entries ret l pm.session).1
      × ((x : ℕ)
          → NotIn x l
          → pm'.init_function_registrations.elts x ≡ pm.init_function_registrations.elts x)

  -- The memory after the call of the element `f`.
  abbrev after_call : ℕ → PluginMain S → PluginMain S
  after_call f pm = (session_only act f (mark_init f pm)).1

  init_loop-none :
      (n : ℕ) (ret : SrError) (pm : PluginMain S)
      → init_loop (session_only act) (suc n) none ret pm ≡ value (ret, pm)
  unfolding init_loop
  init_loop-none n ret pm = refl

  init_loop-skip :
      (n f : ℕ) (ret : SrError) (pm : PluginMain S)
      → (pm.init_function_registrations.elts f).is_called ≡ true
      → init_loop (session_only act) (suc n) (some f) ret pm
        ≡ init_loop (session_only act) n (pm.init_function_registrations.elts f).next ret pm
  unfolding init_loop
  init_loop-skip n f ret pm called = rw called

  module _ (n f : ℕ) (ret : SrError) (pm : PluginMain S)
      (fresh : (pm.init_function_registrations.elts f).is_called ≡ false)
      (own : (pm.init_function_registrations.elts f).func ≡ f) where
    init_loop-call :
        is_ok (act f pm.session).0 ≡ true
        → init_loop (session_only act) (suc n) (some f) ret pm
          ≡ init_loop
              (session_only act)
              n
              ((after_call f pm).init_function_registrations.elts f).next
              (act f pm.session).0
              (after_call f pm)
    unfolding init_loop
    init_loop-call good = rw (fresh, own, good)

    init_loop-stop :
        is_ok (act f pm.session).0 ≡ false
        → init_loop (session_only act) (suc n) (some f) ret pm
          ≡ value ((act f pm.session).0, after_call f pm)
    unfolding init_loop
    init_loop-stop bad = rw (fresh, own, bad)

  init_loop-Refines :
      (n : ℕ) (p : Option ℕ) (ret : SrError) (l : Entries) (pm : PluginMain S)
      → Chain pm.init_function_registrations.elts p l
      → Distinct l
      → length l < n
      → Refines p ret l pm (init_loop (session_only act) n p ret pm)
  unfolding call_entries
  init_loop-Refines zero p ret l pm c d h = absurd (omega arith)
  init_loop-Refines (suc n) p ret [] pm c d h =
      rw c (pm, init_loop-none n ret pm, refl, refl, refl, refl, λ x m. refl)
  init_loop-Refines (suc n) p ret ((f, true) ∷ l) pm c d h =
      let m = pm.init_function_registrations.elts in
      let (pm', e, s, x, hd, ch, fr) =
        init_loop-Refines n (m f).next ret l pm c.3 d.1 (omega arith) in
      rw c.0 (
        pm',
        init_loop-skip n f ret pm c.2 ∙ e,
        s,
        x,
        hd,
        rw (fr f d.0) (refl, c.1, c.2, ch),
        λ y q. fr y q.1,
      )
  init_loop-Refines (suc n) p ret ((f, false) ∷ l) pm c d h =
      let m = pm.init_function_registrations.elts in
      let called : PluginMain S = after_call f pm in
      let m' = called.init_function_registrations.elts in
      let marked : Elt = record (m f) { is_called = true } in
      let chain' : Chain m' (m' f).next l =
        rw (update_self m f marked) (Chain-update m (m f).next l f marked d.0 c.3) in
      elim (Bool-cases (is_ok (act f pm.session).0)) [
        | inl good ↦
            let (pm', e, s, x, hd, ch, fr) =
              init_loop-Refines n (m' f).next (act f pm.session).0 l called chain' d.1
                (omega arith) in
            rw (c.0, good)
              (
                pm',
                init_loop-call n f ret pm c.2 c.1 good ∙ e,
                s,
                x,
                hd,
                rw (fr f d.0)
                    (refl, rw (update_self m f marked) c.1, rw (update_self m f marked), ch),
                λ y q. fr y q.1 ∙ update_ne m f y marked (λ e. q.0 (sym e)),
              )
        | inr bad ↦
            rw (c.0, bad)
              (
                called,
                init_loop-stop n f ret pm c.2 c.1 bad,
                refl,
                refl,
                refl,
                rw (update_self m f marked)
                    (refl, c.1, refl, Chain-update m (m f).next l f marked d.0 c.3),
                λ y q. update_ne m f y marked (λ e. q.0 (sym e)),
              )
      ]

  -- For functions that leave the lists alone, and a list in which each function stands once, the
  -- loop ends without a fault after one step for each entry and one more. It does what the walk
  -- over the entries does: its result, its session, its flags and the same functions in the list;
  -- the list of exit functions stays.
  pub sc_call_all_init_function-Represents :
      (n : ℕ) (l : Entries) (pm : PluginMain S)
      → Represents pm.init_function_registrations l
      → length l < n
      → (pm' : PluginMain S) × (sc_call_all_init_function (session_only act) n pm
          ≡ value ((call_entries ok l pm.session).0, pm'))
        × (pm'.session ≡ (call_entries ok l pm.session).2)
        × Represents pm'.init_function_registrations (call_entries ok l pm.session).1
        × (pm'.exit_function_registrations ≡ pm.exit_function_registrations)
  unfolding sc_call_all_init_function
  sc_call_all_init_function-Represents n l pm h enough =
      let (pm', e, s, x, hd, ch, fr) =
        init_loop-Refines n pm.init_function_registrations.head ok l pm h.chain h.distinct enough in
      (
        pm',
        e,
        s,
        record { chain = rw hd ch; distinct = Distinct-call_entries ok l pm.session h.distinct },
        x,
      )
