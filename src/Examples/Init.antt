-- ===== src/Examples/Init.antt =====
-- Two registered functions.
use sweetcomb.Prelude.{ℕ, ◌+◌, ◌*◌, List, true, false, none, [], ◌∷◌, ◌≡◌, refl, arith}
use sweetcomb.Prelude.Outcome.{value}
use sweetcomb.Sysrepo.{SrError, ok}
use sweetcomb.Init.{Registrations, PluginMain, add_function, rm_function, sc_call_all_init_function}
use sweetcomb.Init.Lists.{Represents}
use sweetcomb.Init.Register.{add_function-Represents, rm_function-Represents}
use sweetcomb.Init.{sc_call_all_exit_function}
use sweetcomb.Init.Exits.{exit_only, exit_entries, all_marked, sc_call_all_exit_function-Represents}
use sweetcomb.Subscribe.{Subscription}
use sweetcomb.Init.Calls.{session_only, call_entries, sc_call_all_init_function-Represents}

abbrev pub nothing : Registrations
nothing = record { head = none; elts = λ a. record { next = none; func = 0; is_called = false } }

pub nothing-Represents : Represents nothing []
nothing-Represents = record { chain = refl; distinct = tt }

abbrev one : Registrations
one = add_function 1 nothing

one-Represents : Represents one ((1, false) ∷ [])
one-Represents = add_function-Represents 1 nothing [] nothing-Represents tt

abbrev pub two : Registrations
two = add_function 2 one

pub two-Represents : Represents two ((2, false) ∷ (1, false) ∷ [])
two-Represents =
    add_function-Represents 2 one ((1, false) ∷ []) one-Represents ((λ e. ground arith), tt)

rm_function-Represents_example :
    (r' : Registrations) × (rm_function 2 1 two ≡ value r') × Represents r' ((2, false) ∷ [])
rm_function-Represents_example =
    rm_function-Represents 2 1 two ((2, false) ∷ (1, false) ∷ []) two-Represents (λ e. cc)
      (omega arith)

-- A function adds its number to the session.
abbrev adds : ℕ → ℕ → SrError × ℕ
adds f s = (ok, s + f)

abbrev main : PluginMain ℕ
main = record {
  session = 10;
  init_function_registrations = two;
  exit_function_registrations = nothing;
}

sc_call_all_init_function-Represents_example :
    (pm' : PluginMain ℕ) × (sc_call_all_init_function (session_only adds) 3 main ≡ value (ok, pm'))
    × (pm'.session ≡ 13)
    × Represents pm'.init_function_registrations ((2, true) ∷ (1, true) ∷ [])
    × (pm'.exit_function_registrations ≡ nothing)
unfolding call_entries
sc_call_all_init_function-Represents_example =
    sc_call_all_init_function-Represents adds 3 ((2, false) ∷ (1, false) ∷ []) main two-Represents
      (omega arith)

abbrev leaving : PluginMain ℕ
leaving = record main { exit_function_registrations = two }

sc_call_all_exit_function-Represents_example :
    (pm' : PluginMain ℕ) × (sc_call_all_exit_function (exit_only (λ f s. s * 10 + f)) 3 leaving
      ≡ value pm')
    × (pm'.session ≡ 1021)
    × Represents pm'.exit_function_registrations ((2, true) ∷ (1, true) ∷ [])
    × (pm'.init_function_registrations ≡ two)
unfolding exit_entries all_marked
sc_call_all_exit_function-Represents_example =
    sc_call_all_exit_function-Represents (λ f s. s * 10 + f) 3 ((2, false) ∷ (1, false) ∷ [])
      leaving two-Represents (omega arith)

-- The session lists the xpaths that are subscribed, the last first.
abbrev notes : Subscription → List Subscription → SrError × List Subscription
notes c s = (ok, c ∷ s)
