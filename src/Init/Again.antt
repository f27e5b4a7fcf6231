-- ===== src/Init/Again.antt =====
-- Running the init functions of src/plugins/sc_init.c a second time.
use sweetcomb.Prelude.{ℕ, suc, ◌≡◌, ◌<◌, refl, ap, true, false, [], ◌∷◌, length, arith}
use sweetcomb.Prelude.Outcome.{value}
use sweetcomb.Sysrepo.{SrError, ok}
use sweetcomb.Init.{PluginMain, sc_call_all_init_function}
use sweetcomb.Init.Lists.{Entries, Represents}
use sweetcomb.Init.Calls.{session_only, call_entries, sc_call_all_init_function-Represents}

-- Every entry is marked as called.
abbrev pub AllCalled : Entries → Type 0
AllCalled [] = Unit
AllCalled ((f, c) ∷ l) = (c ≡ true) × AllCalled l

module _ {S : Type 0} (act : ℕ → S → SrError × S) where
  pub call_entries_done :
      (ret : SrError) (l : Entries) (s : S) → AllCalled l → call_entries act ret l s ≡ (ret, l, s)
  unfolding call_entries
  call_entries_done ret [] s h = refl
  call_entries_done ret ((f, true) ∷ l) s h = ground (arith, call_entries_done ret l s h.1)
  call_entries_done ret ((f, false) ∷ l) s h = cc (h.0)

  pub call_entries-AllCalled :
      (ret : SrError) (l : Entries) (s : S)
      → (call_entries act ret l s).0 ≡ ok
      → AllCalled (call_entries act ret l s).1
  unfolding call_entries
  call_entries-AllCalled ret [] s h = tt
  call_entries-AllCalled ret ((f, true) ∷ l) s h = (refl, call_entries-AllCalled ret l s h)
  call_entries-AllCalled ret ((f, false) ∷ l) s h =
      ground (arith, call_entries-AllCalled (act f s).0 l (act f s).1)

  pub length-call_entries :
      (ret : SrError) (l : Entries) (s : S) → length (call_entries act ret l s).1 ≡ length l
  unfolding call_entries
  length-call_entries ret [] s = refl
  length-call_entries ret ((f, true) ∷ l) s = ap suc (length-call_entries ret l s)
  length-call_entries ret ((f, false) ∷ l) s =
      ground (arith, length-call_entries (act f s).0 l (act f s).1)

  -- For functions that leave the lists alone, and a list in which each function stands once:
  -- after a run without error every entry is marked, and a second run succeeds without calling
  -- anything, the session staying as it was.
  pub sc_call_all_init_function_twice :
      (n : ℕ) (l : Entries) (pm pm' : PluginMain S)
      → Represents pm.init_function_registrations l
      → length l < n
      → sc_call_all_init_function (session_only act) n pm ≡ value (ok, pm')
      → (pm'' : PluginMain S) × (sc_call_all_init_function (session_only act) n pm'
          ≡ value (ok, pm''))
        × (pm''.session ≡ pm'.session)
        × Represents pm''.init_function_registrations (call_entries act ok l pm.session).1
        × AllCalled (call_entries act ok l pm.session).1
  sc_call_all_init_function_twice n l pm pm' h enough first =
      let (pm₁, e, s, r, x) = sc_call_all_init_function-Represents act n l pm h enough in
      let fine : (call_entries act ok l pm.session).0 ≡ ok = cc in
      let same : pm₁ ≡ pm' = cc in
      let marked = call_entries-AllCalled ok l pm.session fine in
      let l' = (call_entries act ok l pm.session).1 in
      let done = call_entries_done ok l' pm'.session marked in
      let r' : Represents pm'.init_function_registrations l' = rw (← same) r in
      let (pm₂, e', s', again, x') =
        sc_call_all_init_function-Represents act n l' pm' r'
          (omega (arith, length-call_entries ok l pm.session)) in
      (pm₂, rw done at e', rw done at s', rw done at again, marked)
