-- ===== src/Examples/Dependencies.antt =====
-- Two registered functions, of which the first depends on the second.
use sweetcomb.Prelude.{
  ℕ, ◌+◌, ◌*◌, ◌==◌, Bool-cases, if◌then◌else◌, true, [], ◌∷◌, All, ◌≡◌, refl, inl, inr, arith,
}
use sweetcomb.Prelude.Outcome.{Outcome, value, throws, fault}
use sweetcomb.Sysrepo.{SrError, ok, is_ok}
use sweetcomb.Init.{
  PluginMain, add_function, init_elt, init_loop, sc_call_all_init_function, call_init_loop,
  sc_call_init_function,
}
use sweetcomb.Init.Calls.{session_only}
use sweetcomb.Init.Dependencies.{
  Grows, Grows-refl, sc_call_all_init_function-Grows, sc_call_init_function-Grows,
}
use sweetcomb.Examples.Init.{two, nothing}

-- A function writes its number behind those in the session.
abbrev notes_number : ℕ → PluginMain ℕ → SrError × PluginMain ℕ
notes_number = session_only (λ f s. (ok, s * 10 + f))

settled : PluginMain ℕ → Outcome (SrError × PluginMain ℕ) → PluginMain ℕ
settled pm (value r) = r.1
settled pm (throws e) = pm
settled pm (fault u) = pm

-- The function 2 calls `sc_call_init_function` of 1 first.
abbrev run : ℕ → PluginMain ℕ → SrError × PluginMain ℕ
run f pm =
    if f == 2
    then notes_number f (settled pm (sc_call_init_function notes_number 3 1 pm))
    else notes_number f pm

settled-Grows :
    (pm : PluginMain ℕ) (o : Outcome (SrError × PluginMain ℕ))
    → ((r : SrError × PluginMain ℕ) → o ≡ value r → Grows (init_elt pm) (init_elt r.1))
    → Grows (init_elt pm) (init_elt (settled pm o))
unfolding settled
settled-Grows pm (value r) h = h r refl
settled-Grows pm (throws e) h = Grows-refl (init_elt pm)
settled-Grows pm (fault u) h = Grows-refl (init_elt pm)

run-Grows : (f : ℕ) (pm : PluginMain ℕ) → Grows (init_elt pm) (init_elt (run f pm).1)
run-Grows f pm = elim (Bool-cases (f == 2)) [
  | inl first ↦ rw first (
      settled-Grows pm (sc_call_init_function notes_number 3 1 pm)
        (sc_call_init_function-Grows notes_number (λ g qm. Grows-refl (init_elt qm)) 3 1 pm))
  | inr other ↦ rw other (Grows-refl (init_elt pm))
]

abbrev main : PluginMain ℕ
main = record {
  session = 0;
  init_function_registrations = two;
  exit_function_registrations = nothing;
}

-- The function 1 is called once, before the work of 2.
numbers :
    (ret : SrError) × (pm' : PluginMain ℕ) × (sc_call_all_init_function run 3 main
      ≡ value (ret, pm'))
    × (pm'.session ≡ 12)
unfolding sc_call_all_init_function init_loop sc_call_init_function call_init_loop settled
    add_function
numbers = (_, _, refl, refl)

sc_call_all_init_function-Grows_example :
    (ret : SrError) × (pm' : PluginMain ℕ) × (sc_call_all_init_function run 3 main
      ≡ value (ret, pm'))
    × Grows (init_elt main) (init_elt pm')
    × (is_ok ret ≡ true → All (λ f. (init_elt pm' f).is_called ≡ true) (2 ∷ 1 ∷ []))
unfolding add_function
sc_call_all_init_function-Grows_example =
    sc_call_all_init_function-Grows run run-Grows 3 (2 ∷ 1 ∷ []) main
      (refl, refl, (refl, refl, refl)) (omega arith)
