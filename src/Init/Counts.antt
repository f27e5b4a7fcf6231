-- ===== src/Init/Counts.antt =====
-- How often the loops over the registered functions call each of them.
use sweetcomb.Prelude.{
  ℕ, suc, ◌==◌, ◌≡◌, ◌≢◌, refl, ap, sym, ◌∙◌, Bool, true, false, [], ◌∷◌, if◌then◌else◌, Bool-cases,
  inl, inr, arith,
}
use sweetcomb.Sysrepo.{SrError, is_ok}
use sweetcomb.Init.Lists.{Entries, NotIn, Distinct}
use sweetcomb.Init.Calls.{call_entries}
use sweetcomb.Init.Exits.{exit_entries}

-- The flag as a number of calls.
abbrev pub once : Bool → ℕ
once true = 1
once false = 0

module _ {S : Type 0} (calls : S → ℕ → ℕ) where
  -- Each function has been called once if its entry is marked, and never otherwise.
  abbrev pub IsCounted : Entries → S → Type 0
  IsCounted [] s = Unit
  IsCounted ((f, c) ∷ l) s = (calls s f ≡ once c) × IsCounted l s

  -- The two states agree on all numbers of calls.
  abbrev pub SameCalls : S → S → Type 0
  SameCalls s s' = (g : ℕ) → calls s' g ≡ calls s g

  pub IsCounted-SameCalls :
      (l : Entries) (s s' : S) → SameCalls s s' → IsCounted l s → IsCounted l s'
  IsCounted-SameCalls [] s s' e h = tt
  IsCounted-SameCalls ((f, c) ∷ l) s s' e h = (e f ∙ h.0, IsCounted-SameCalls l s s' e h.1)

  module _ (act : ℕ → S → SrError × S)
      (counts : (f g : ℕ) (s : S)
        → calls (act f s).1 g ≡ (if f == g then suc (calls s g) else calls s g)) where
    counts_other : (f g : ℕ) (s : S) → g ≢ f → calls (act f s).1 g ≡ calls s g
    counts_other f g s ne = counts f g s ∙ ground arith

    counts_self : (f : ℕ) (s : S) → calls (act f s).1 f ≡ suc (calls s f)
    counts_self f s = counts f f s ∙ ground arith

    IsCounted-act :
        (f : ℕ) (l : Entries) (s : S) → NotIn f l → IsCounted l s → IsCounted l (act f s).1
    IsCounted-act f [] s n h = tt
    IsCounted-act f ((g, c) ∷ l) s n h =
        (counts_other f g s (λ e. n.0 (sym e)) ∙ h.0, IsCounted-act f l s n.1 h.1)

    call_entries-others :
        (ret : SrError) (l : Entries) (s : S) (g : ℕ)
        → NotIn g l
        → calls (call_entries act ret l s).2 g ≡ calls s g
    unfolding call_entries
    call_entries-others ret [] s g n = refl
    call_entries-others ret ((f, true) ∷ l) s g n = call_entries-others ret l s g n.1
    call_entries-others ret ((f, false) ∷ l) s g n = elim (Bool-cases (is_ok (act f s).0)) [
      | inl good ↦
          rw (call_entries, good)
            (call_entries-others (act f s).0 l (act f s).1 g n.1 ∙ counts_other f g s n.0)
      | inr bad ↦ rw (call_entries, bad) (counts_other f g s n.0)
    ]

    -- The walk over the entries keeps the count.
    pub call_entries-IsCounted :
        (ret : SrError) (l : Entries) (s : S)
        → Distinct l
        → IsCounted l s
        → IsCounted (call_entries act ret l s).1 (call_entries act ret l s).2
    unfolding call_entries
    call_entries-IsCounted ret [] s d h = tt
    call_entries-IsCounted ret ((f, true) ∷ l) s d h =
        (call_entries-others ret l s f d.0 ∙ h.0, call_entries-IsCounted ret l s d.1 h.1)
    call_entries-IsCounted ret ((f, false) ∷ l) s d h =
        let l_counted = IsCounted-act f l s d.0 h.1 in
        let now_once : calls (act f s).1 f ≡ 1 = counts_self f s ∙ ap suc h.0 in
        elim (Bool-cases (is_ok (act f s).0)) [
          | inl good ↦
              rw (call_entries, good)
                (
                  call_entries-others (act f s).0 l (act f s).1 f d.0 ∙ now_once,
                  call_entries-IsCounted (act f s).0 l (act f s).1 d.1 l_counted,
                )
          | inr bad ↦ rw (call_entries, bad) (now_once, l_counted)
        ]

  pub exit_entries-SameCalls :
      (act : ℕ → S → S)
      → ((f : ℕ) (s : S) → SameCalls s (act f s))
      → (l : Entries) (s : S) → SameCalls s (exit_entries act l s)
  unfolding exit_entries
  exit_entries-SameCalls act same [] s g = refl
  exit_entries-SameCalls act same ((f, true) ∷ l) s g = exit_entries-SameCalls act same l s g
  exit_entries-SameCalls act same ((f, false) ∷ l) s g =
      exit_entries-SameCalls act same l (act f s) g ∙ same f s g
