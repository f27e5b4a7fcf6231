-- ===== src/Init/Exits.antt =====
-- Running the registered exit functions, and one init function by its name.
use sweetcomb.Prelude.{
  ℕ, zero, suc, ◌≡◌, ◌<◌, refl, sym, ap, ◌∙◌, Bool, true, false, not, ◌&&◌, ◌||◌, Option, none,
  some, [], ◌∷◌, length, ◌==◌, if◌then◌else◌, Bool-cases, inl, inr, arith,
}
use sweetcomb.Prelude.Outcome.{Outcome, value}
use sweetcomb.Sysrepo.{SrError, ok}
use sweetcomb.Init.{
  Elt, PluginMain, mark_exit, mark_init, exit_loop, sc_call_all_exit_function, call_init_loop,
  sc_call_init_function,
}
use sweetcomb.Init.Lists.{
  Entries, Chain, NotIn, Distinct, Represents, Chain-update, update_ne, update_self,
}

module _ {S : Type 0} (act : ℕ → S → S) where
  -- An exit function that works on the session, and leaves the registration lists alone.
  abbrev pub exit_only : ℕ → PluginMain S → PluginMain S
  exit_only f pm = record pm { session = act f pm.session }

  -- All entries that are not called yet are called in order, and marked.
  unfoldable pub exit_entries : Entries → S → S
  exit_entries [] s = s
  exit_entries ((f, true) ∷ l) s = exit_entries l s
  exit_entries ((f, false) ∷ l) s = exit_entries l (act f s)

  unfoldable pub all_marked : Entries → Entries
  all_marked [] = []
  all_marked ((f, c) ∷ l) = (f, true) ∷ all_marked l

  NotIn-all_marked : (x : ℕ) (l : Entries) → NotIn x l → NotIn x (all_marked l)
  unfolding all_marked
  NotIn-all_marked x [] h = h
  NotIn-all_marked x ((f, c) ∷ l) h = (h.0, NotIn-all_marked x l h.1)

  Distinct-all_marked : (l : Entries) → Distinct l → Distinct (all_marked l)
  unfolding all_marked
  Distinct-all_marked [] h = h
  Distinct-all_marked ((f, c) ∷ l) h = (NotIn-all_marked f l h.0, Distinct-all_marked l h.1)

  abbrev Runs : Option ℕ → Entries → PluginMain S → Outcome (PluginMain S) → Type 0
  Runs p l pm o =
      (pm' : PluginMain S) × (o ≡ value pm')
      × (pm'.session ≡ exit_entries l pm.session)
      × (pm'.init_function_registrations ≡ pm.init_function_registrations)
      × (pm'.exit_function_registrations.head ≡ pm.exit_function_registrations.head)
      × Chain pm'.exit_function_registrations.elts p (all_marked l)
      × ((x : ℕ)
          → NotIn x l
          → pm'.exit_function_registrations.elts x ≡ pm.exit_function_registrations.elts x)

  abbrev after_exit : ℕ → PluginMain S → PluginMain S
  after_exit f pm = exit_only f (mark_exit f pm)

  exit_loop-skip :
      (n f : ℕ) (pm : PluginMain S)
      → (pm.exit_function_registrations.elts f).is_called ≡ true
      → exit_loop exit_only (suc n) (some f) pm
        ≡ exit_loop exit_only n (pm.exit_function_registrations.elts f).next pm
  unfolding exit_loop
  exit_loop-skip n f pm called = rw called

  exit_loop-call :
      (n f : ℕ) (pm : PluginMain S)
      → (pm.exit_function_registrations.elts f).is_called ≡ false
      → (pm.exit_function_registrations.elts f).func ≡ f
      → exit_loop exit_only (suc n) (some f) pm
        ≡ exit_loop exit_only n
            ((after_exit f pm).exit_function_registrations.elts f).next
            (after_exit f pm)
  unfolding exit_loop
  exit_loop-call n f pm fresh own = rw (fresh, own)

  exit_loop-none : (n : ℕ) (pm : PluginMain S) → exit_loop exit_only (suc n) none pm ≡ value pm
  unfolding exit_loop
  exit_loop-none n pm = refl

  exit_loop-Runs :
      (n : ℕ) (p : Option ℕ) (l : Entries) (pm : PluginMain S)
      → Chain pm.exit_function_registrations.elts p l
      → Distinct l
      → length l < n
      → Runs p l pm (exit_loop exit_only n p pm)
  unfolding exit_entries all_marked
  exit_loop-Runs zero p l pm c d h = absurd (omega arith)
  exit_loop-Runs (suc n) p [] pm c d h =
      rw c (pm, exit_loop-none n pm, refl, refl, refl, refl, λ x m. refl)
  exit_loop-Runs (suc n) p ((f, true) ∷ l) pm c d h =
      let m = pm.exit_function_registrations.elts in
      let (pm', e, s, x, hd, ch, fr) = exit_loop-Runs n (m f).next l pm c.3 d.1 (omega arith) in
      rw c.0 (
        pm',
        exit_loop-skip n f pm c.2 ∙ e,
        s,
        x,
        hd,
        rw (fr f d.0) (refl, c.1, c.2, ch),
        λ y q. fr y q.1,
      )
  exit_loop-Runs (suc n) p ((f, false) ∷ l) pm c d h =
      let m = pm.exit_function_registrations.elts in
      let called : PluginMain S = after_exit f pm in
      let m' = called.exit_function_registrations.elts in
      let marked : Elt = record (m f) { is_called = true } in
      let chain' : Chain m' (m' f).next l =
        rw (update_self m f marked) (Chain-update m (m f).next l f marked d.0 c.3) in
      let (pm', e, s, x, hd, ch, fr) =
        exit_loop-Runs n (m' f).next l called chain' d.1 (omega arith) in
      rw c.0 (
        pm',
        exit_loop-call n f pm c.2 c.1 ∙ e,
        s,
        x,
        hd,
        rw (fr f d.0) (refl, rw (update_self m f marked) c.1, rw (update_self m f marked), ch),
        λ y q. fr y q.1 ∙ update_ne m f y marked (λ e. q.0 (sym e)),
      )

  -- For exit functions that leave the lists alone, and a list in which each function stands once,
  -- the loop ends without a fault after one step for each entry and one more: it runs those that
  -- have not been called, in the order of the list, leaves every entry marked, and keeps the
  -- functions and the init list.
  pub sc_call_all_exit_function-Represents :
      (n : ℕ) (l : Entries) (pm : PluginMain S)
      → Represents pm.exit_function_registrations l
      → length l < n
      → (pm' : PluginMain S) × (sc_call_all_exit_function exit_only n pm ≡ value pm')
        × (pm'.session ≡ exit_entries l pm.session)
        × Represents pm'.exit_function_registrations (all_marked l)
        × (pm'.init_function_registrations ≡ pm.init_function_registrations)
  unfolding sc_call_all_exit_function
  sc_call_all_exit_function-Represents n l pm h enough =
      let (pm', e, s, x, hd, ch, fr) =
        exit_loop-Runs n pm.exit_function_registrations.head l pm h.chain h.distinct enough in
      (pm', e, s, record { chain = rw hd ch; distinct = Distinct-all_marked l h.distinct }, x)

module _ {S : Type 0} (run : ℕ → PluginMain S → SrError × PluginMain S) where
  -- There is an entry of `f` that is not called.
  unfoldable pub pending : ℕ → Entries → Bool
  pending f [] = false
  pending f ((g, c) ∷ l) = (g == f && not c) || pending f l

  call_init_loop-none :
      (n f : ℕ) (pm : PluginMain S) → call_init_loop run (suc n) f none pm ≡ value (ok, pm)
  unfolding call_init_loop
  call_init_loop-none n f pm = refl

  module _ (n f a : ℕ) (pm : PluginMain S) where
    abbrev guard : Bool
    guard =
        (pm.init_function_registrations.elts a).func == f
        && not (pm.init_function_registrations.elts a).is_called

    call_init_loop-skip :
        guard ≡ false
        → call_init_loop run (suc n) f (some a) pm
          ≡ call_init_loop run n f (pm.init_function_registrations.elts a).next pm
    unfolding call_init_loop
    call_init_loop-skip other = rw other

    call_init_loop-hit :
        guard ≡ true
        → call_init_loop run (suc n) f (some a) pm
          ≡ value (run (pm.init_function_registrations.elts a).func (mark_init a pm))
    unfolding call_init_loop
    call_init_loop-hit hit = rw hit

  call_init_loop-pending :
      (n f : ℕ) (p : Option ℕ) (l : Entries) (pm : PluginMain S)
      → Chain pm.init_function_registrations.elts p l
      → length l < n
      → call_init_loop run n f p pm
        ≡ value (if pending f l then run f (mark_init f pm) else (ok, pm))
  unfolding pending
  call_init_loop-pending zero f p l pm c h = absurd (omega arith)
  call_init_loop-pending (suc n) f p [] pm c h = rw c (call_init_loop-none n f pm)
  call_init_loop-pending (suc n) f p ((g, k) ∷ l) pm c h = elim (Bool-cases (g == f && not k)) [
    | inl hit ↦
        let same : g ≡ f = ground arith in
        let guarded : guard n f g pm ≡ true = rw (c.1, c.2) hit in
        rw (c.0, hit)
          (call_init_loop-hit n f g pm guarded
            ∙ ap (λ x. value (run x (mark_init g pm))) c.1
            ∙ rw same)
    | inr other ↦
        let guarded : guard n f g pm ≡ false = rw (c.1, c.2) other in
        rw (c.0, other)
          (call_init_loop-skip n f g pm guarded
            ∙ call_init_loop-pending n f (pm.init_function_registrations.elts g).next l pm c.3
                (omega arith))
  ]

  -- With a step for each entry of the list and one more, `sc_call_init_function` runs the
  -- function if it is registered and has not been called, after marking it, and returns its
  -- result; otherwise it returns SR_ERR_OK and changes nothing. The function may do anything,
  -- also to the lists.
  pub sc_call_init_function-pending :
      (n f : ℕ) (l : Entries) (pm : PluginMain S)
      → Represents pm.init_function_registrations l
      → length l < n
      → sc_call_init_function run n f pm
        ≡ value (if pending f l then run f (mark_init f pm) else (ok, pm))
  unfolding sc_call_init_function
  sc_call_init_function-pending n f l pm h enough =
      call_init_loop-pending n f pm.init_function_registrations.head l pm h.chain enough
