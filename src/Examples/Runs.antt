-- ===== src/Examples/Runs.antt =====
-- The plugin is loaded, unloaded and loaded again, with two registered init functions.
use sweetcomb.Prelude.{
  ℕ, suc, ◌==◌, ◌≡◌, refl, true, false, none, List, [], ◌∷◌, if◌then◌else◌, arith,
}
use sweetcomb.Prelude.Int.{pos}
use sweetcomb.Prelude.Outcome.{Outcome, value}
use sweetcomb.Sysrepo.{SrError, ok, disconnect}
use sweetcomb.Init.{
  add_function, init_loop, exit_loop, sc_call_all_init_function, sc_call_all_exit_function,
}
use sweetcomb.Init.Calls.{session_only}
use sweetcomb.Init.Exits.{exit_only}
use sweetcomb.Plugin.Pid.{unopened, entries, Proc, get_vpp_pid, search_listing, search_vpp}
use sweetcomb.Plugin.Life.{
  Hardware, Plugin, Ended, returned, exited, sr_plugin_init_cb, sr_plugin_cleanup_cb, connect_loop,
  note_pid,
}
use sweetcomb.Plugin.Runs.{CallsNone, here, further, loads, unloads, IsSound}
use sweetcomb.Plugin.Runs.Once.{Reaches-IsSound}
use sweetcomb.Examples.Init.{nothing, two, nothing-Represents, two-Represents}

-- The session is the list of the init functions that have been called.
abbrev calls : List ℕ → ℕ → ℕ
calls [] g = 0
calls (f ∷ s) g = if f == g then suc (calls s g) else calls s g

abbrev called : ℕ → List ℕ → SrError × List ℕ
called f s = (ok, f ∷ s)

abbrev left : ℕ → List ℕ → List ℕ
left f s = s

abbrev quiet_hardware : Hardware (List ℕ)
quiet_hardware = record {
  init = λ s. s;
  connect = λ s. (true, s);
  disconnect = λ s. s;
  populate = λ key s. (true, s);
  replay = λ s. s;
  unsubscribe = λ s. s;
}

quiet_hardware-CallsNone : CallsNone quiet_hardware calls
quiet_hardware-CallsNone = record {
  init = λ s g. refl;
  connect = λ s g. refl;
  disconnect = λ s g. refl;
  populate = λ key s g. refl;
  replay = λ s g. refl;
  unsubscribe = λ s g. refl;
}

abbrev no_processes : Proc
no_processes = record { listing = entries [] none; cmdline = λ path. unopened 2 }

abbrev fresh : Plugin (List ℕ)
fresh = record {
  main = record {
    session = [];
    init_function_registrations = two;
    exit_function_registrations = nothing;
  };
  vpp_pid_start = pos 0;
}

abbrev plugin_or : Plugin (List ℕ) → Outcome (Ended (SrError × Plugin (List ℕ))) → Plugin (List ℕ)
plugin_or p (value (returned (rc, p'))) = p'
plugin_or p (value (exited n)) = p
plugin_or p _ = p

abbrev load : Plugin (List ℕ) → Outcome (Ended (SrError × Plugin (List ℕ)))
load = sr_plugin_init_cb quiet_hardware (session_only called) no_processes 0 1 3

abbrev once_loaded : Plugin (List ℕ)
once_loaded = plugin_or fresh (load fresh)

once_loaded_lem : load fresh ≡ value (returned (disconnect, once_loaded))
unfolding sr_plugin_init_cb connect_loop sc_call_all_init_function init_loop add_function note_pid
    get_vpp_pid search_listing search_vpp
once_loaded_lem = refl

once_unloaded_lem :
    sr_plugin_cleanup_cb quiet_hardware (exit_only left) 3 true once_loaded ≡ value once_loaded
unfolding sr_plugin_cleanup_cb sr_plugin_init_cb connect_loop sc_call_all_init_function init_loop
    add_function note_pid sc_call_all_exit_function exit_loop
once_unloaded_lem = refl

loaded_again_lem : load once_loaded ≡ value (returned (disconnect, once_loaded))
unfolding sr_plugin_init_cb connect_loop sc_call_all_init_function init_loop add_function note_pid
    get_vpp_pid search_listing search_vpp
loaded_again_lem = refl

Reaches-IsSound_example : IsSound quiet_hardware called left calls 3 (2 ∷ 1 ∷ []) once_loaded.main
Reaches-IsSound_example =
    Reaches-IsSound quiet_hardware called left calls 3 quiet_hardware-CallsNone (λ f g s. refl)
      (λ f s g. refl) (2 ∷ 1 ∷ []) fresh once_loaded
      (further fresh once_loaded once_loaded
        (loads no_processes 0 1 disconnect fresh once_loaded once_loaded_lem)
        (further once_loaded once_loaded once_loaded
          (unloads true once_loaded once_loaded once_unloaded_lem)
          (further once_loaded once_loaded once_loaded
            (loads no_processes 0 1 disconnect once_loaded once_loaded loaded_again_lem)
            (here once_loaded))))
      (record {
        inits = (2, false) ∷ (1, false) ∷ [];
        exits = [];
        init_list = two-Represents;
        exit_list = nothing-Represents;
        init_short = omega arith;
        exit_short = omega arith;
        same = refl;
        counted = (refl, (refl, tt));
      })
