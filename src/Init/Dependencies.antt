-- ===== src/Init/Dependencies.antt =====
-- `sc_call_all_init_function` of src/plugins/sc_init.c, for functions that may call each other by
-- `sc_call_init_function` of src/plugins/sc_init.h.
use sweetcomb.Prelude.{
  ◌==◌, ◌&&◌, not, ℕ, zero, suc, ◌≡◌, ◌<◌, refl, ◌∙◌, true, false, Bool-cases, Option, none, some,
  List, [], ◌∷◌, All, length, subst, inl, inr, arith,
}
use sweetcomb.Prelude.Outcome.{Outcome, value}
use sweetcomb.Sysrepo.{SrError, ok, is_ok}
use sweetcomb.Init.{
  Elt, PluginMain, init_elt, mark_init, init_loop, sc_call_all_init_function, call_init_loop,
  sc_call_init_function,
}

-- From the pointer `p` the elements in memory are those of the functions, whatever their flags.
abbrev pub Linked : (ℕ → Elt) → Option ℕ → List ℕ → Type 0
Linked m p [] = p ≡ none
Linked m p (f ∷ fs) = (p ≡ some f) × ((m f).func ≡ f) × Linked m (m f).next fs

-- The elements of the second memory have the functions and the successors of the first, and no
-- flag of the first is reset.
pub record Grows (m m' : ℕ → Elt) : Type 0 where
  pub func_kept : (x : ℕ) → (m' x).func ≡ (m x).func
  pub next_kept : (x : ℕ) → (m' x).next ≡ (m x).next
  pub flag_kept : (x : ℕ) → (m x).is_called ≡ true → (m' x).is_called ≡ true

pub Grows-refl : (m : ℕ → Elt) → Grows m m
Grows-refl m = record { func_kept = λ x. refl; next_kept = λ x. refl; flag_kept = λ x h. h }

pub Grows-trans : (k l m : ℕ → Elt) → Grows k l → Grows l m → Grows k m
Grows-trans k l m g h = record {
  func_kept = λ x. h.func_kept x ∙ g.func_kept x;
  next_kept = λ x. h.next_kept x ∙ g.next_kept x;
  flag_kept = λ x c. h.flag_kept x (g.flag_kept x c);
}

Linked-Grows :
    (m m' : ℕ → Elt) (p : Option ℕ) (fs : List ℕ) → Grows m m' → Linked m p fs → Linked m' p fs
Linked-Grows m m' p [] g h = h
Linked-Grows m m' p (f ∷ fs) g h =
    (h.0, g.func_kept f ∙ h.1, rw (g.next_kept f) (Linked-Grows m m' (m f).next fs g h.2))

module _ {S : Type 0} where
  mark_init-Grows : (a : ℕ) (pm : PluginMain S) → Grows (init_elt pm) (init_elt (mark_init a pm))
  mark_init-Grows a pm = record {
    func_kept = λ x. ground arith;
    next_kept = λ x. ground arith;
    flag_kept = λ x c. ground arith;
  }

  mark_init-called : (a : ℕ) (pm : PluginMain S) → (init_elt (mark_init a pm) a).is_called ≡ true
  mark_init-called a pm = ground arith

module _ {S : Type 0} (run : ℕ → PluginMain S → SrError × PluginMain S)
    (grows : (f : ℕ) (pm : PluginMain S) → Grows (init_elt pm) (init_elt (run f pm).1)) where
  -- The state after the call of the element `a`.
  abbrev after_call : ℕ → PluginMain S → SrError × PluginMain S
  after_call a pm = run (init_elt pm a).func (mark_init a pm)

  after_call-Grows :
      (a : ℕ) (pm : PluginMain S) → Grows (init_elt pm) (init_elt (after_call a pm).1)
  after_call-Grows a pm =
      Grows-trans (init_elt pm) (init_elt (mark_init a pm)) (init_elt (after_call a pm).1)
        (mark_init-Grows a pm) (grows (init_elt pm a).func (mark_init a pm))

  after_call-called :
      (a : ℕ) (pm : PluginMain S) → (init_elt (after_call a pm).1 a).is_called ≡ true
  after_call-called a pm =
      (grows (init_elt pm a).func (mark_init a pm)).flag_kept a (mark_init-called a pm)

  -- The loop ends, with all functions called unless it returns an error.
  abbrev Ends : List ℕ → PluginMain S → Outcome (SrError × PluginMain S) → Type 0
  Ends fs pm o =
      (ret : SrError) × (pm' : PluginMain S) × (o ≡ value (ret, pm'))
      × Grows (init_elt pm) (init_elt pm')
      × (is_ok ret ≡ true → All (λ f. (init_elt pm' f).is_called ≡ true) fs)

  init_loop-none :
      (n : ℕ) (ret : SrError) (pm : PluginMain S)
      → init_loop run (suc n) none ret pm ≡ value (ret, pm)
  unfolding init_loop
  init_loop-none n ret pm = refl

  init_loop-skip :
      (n a : ℕ) (ret : SrError) (pm : PluginMain S)
      → (init_elt pm a).is_called ≡ true
      → init_loop run (suc n) (some a) ret pm ≡ init_loop run n (init_elt pm a).next ret pm
  unfolding init_loop
  init_loop-skip n a ret pm called = rw called

  module _ (n a : ℕ) (ret : SrError) (pm : PluginMain S)
      (fresh : (init_elt pm a).is_called ≡ false) where
    init_loop-call :
        is_ok (after_call a pm).0 ≡ true
        → init_loop run (suc n) (some a) ret pm
          ≡ init_loop run n
              (init_elt (after_call a pm).1 a).next
              (after_call a pm).0
              (after_call a pm).1
    unfolding init_loop
    init_loop-call good = rw (fresh, good)

    init_loop-stop :
        is_ok (after_call a pm).0 ≡ false
        → init_loop run (suc n) (some a) ret pm ≡ value (after_call a pm)
    unfolding init_loop
    init_loop-stop bad = rw (fresh, bad)

  init_loop-Ends :
      (n : ℕ) (p : Option ℕ) (ret : SrError) (fs : List ℕ) (pm : PluginMain S)
      → Linked (init_elt pm) p fs
      → length fs < n
      → Ends fs pm (init_loop run n p ret pm)
  init_loop-Ends zero p ret fs pm h enough = absurd (omega arith)
  init_loop-Ends (suc n) p ret [] pm h enough =
      rw h (ret, pm, init_loop-none n ret pm, Grows-refl (init_elt pm), λ e. tt)
  init_loop-Ends (suc n) p ret (f ∷ fs) pm h enough = elim (Bool-cases (init_elt pm f).is_called) [
    | inl called ↦
        let (ret', pm', e, g, all) =
          init_loop-Ends n (init_elt pm f).next ret fs pm h.2 (omega arith) in
        rw h.0
          (ret', pm', init_loop-skip n f ret pm called ∙ e, g, λ k. (g.flag_kept f called, all k))
    | inr fresh ↦
        let (r, pm₁) = after_call f pm in
        let g₁ = after_call-Grows f pm in
        let linked : Linked (init_elt pm₁) (init_elt pm₁ f).next fs =
          rw (g₁.next_kept f)
            (Linked-Grows (init_elt pm) (init_elt pm₁) (init_elt pm f).next fs g₁ h.2) in
        elim (Bool-cases (is_ok r)) [
          | inl good ↦
              let (ret', pm', e, g, all) =
                init_loop-Ends n (init_elt pm₁ f).next r fs pm₁ linked (omega arith) in
              rw h.0 (
                ret',
                pm',
                init_loop-call n f ret pm fresh good ∙ e,
                Grows-trans (init_elt pm) (init_elt pm₁) (init_elt pm') g₁ g,
                λ k. (g.flag_kept f (after_call-called f pm), all k),
              )
          | inr bad ↦ rw h.0 (r, pm₁, init_loop-stop n f ret pm fresh bad, g₁, λ k. cc)
        ]
  ]

  -- For any functions, also such as call others, that keep the functions and successors of the
  -- elements and reset no flag, and a list of functions that the elements form: the loop ends
  -- without a fault after one step for each function and one more. It keeps the elements'
  -- functions and successors, resets no flag, and unless it returns an error every function of
  -- the list is marked as called.
  pub sc_call_all_init_function-Grows :
      (n : ℕ) (fs : List ℕ) (pm : PluginMain S)
      → Linked (init_elt pm) pm.init_function_registrations.head fs
      → length fs < n
      → (ret : SrError) × (pm' : PluginMain S) × (sc_call_all_init_function run n pm
          ≡ value (ret, pm'))
        × Grows (init_elt pm) (init_elt pm')
        × (is_ok ret ≡ true → All (λ f. (init_elt pm' f).is_called ≡ true) fs)
  unfolding sc_call_all_init_function
  sc_call_all_init_function-Grows n fs pm h enough =
      init_loop-Ends n pm.init_function_registrations.head ok fs pm h enough

  call_init_loop-Grows :
      (n g : ℕ) (p : Option ℕ) (pm : PluginMain S) (r : SrError × PluginMain S)
      → call_init_loop run n g p pm ≡ value r
      → Grows (init_elt pm) (init_elt r.1)
  unfolding call_init_loop
  call_init_loop-Grows zero g p pm r h = cc
  call_init_loop-Grows (suc n) g none pm r h =
      let same : (ok, pm) ≡ r = cc in
      subst (λ (x : SrError × PluginMain S). Grows (init_elt pm) (init_elt x.1)) same
        (Grows-refl (init_elt pm))
  call_init_loop-Grows (suc n) g (some a) pm r h =
      elim (Bool-cases ((init_elt pm a).func == g && not (init_elt pm a).is_called)) [
        | inl hit ↦
            let found : value (after_call a pm) ≡ value r = rw hit at h in
            let same : after_call a pm ≡ r = cc in
            subst (λ (x : SrError × PluginMain S). Grows (init_elt pm) (init_elt x.1)) same
              (after_call-Grows a pm)
        | inr other ↦ call_init_loop-Grows n g (init_elt pm a).next pm r (rw other at h)
      ]

  -- What `sc_call_init_function` leaves of the elements when its function keeps them.
  pub sc_call_init_function-Grows :
      (n g : ℕ) (pm : PluginMain S) (r : SrError × PluginMain S)
      → sc_call_init_function run n g pm ≡ value r
      → Grows (init_elt pm) (init_elt r.1)
  unfolding sc_call_init_function
  sc_call_init_function-Grows n g pm r h =
      call_init_loop-Grows n g pm.init_function_registrations.head pm r h
