-- ===== src/Examples/Load.antt =====
-- Loading the plugin with its three init functions, and once more after one of them has failed.
use sweetcomb.Prelude.{ℕ, ◌≡◌, refl, true, false, List, [], ◌∷◌, ◌==◌, none, if◌then◌else◌, arith}
use sweetcomb.Prelude.Int.{is_negative}
use sweetcomb.Prelude.Outcome.{value}
use sweetcomb.Sysrepo.{SrError, ok, nomem, disconnect}
use sweetcomb.Init.{Elt, Registrations}
use sweetcomb.Init.Lists.{Distinct}
use sweetcomb.Init.Calls.{session_only, call_entries}
use sweetcomb.Subscribe.{Subscription, init_functions}
use sweetcomb.Subscribe.Laws.{all_subscriptions, subscribe_all}
use sweetcomb.Plugin.Pid.{Proc, get_vpp_pid, entries, unopened}
use sweetcomb.Plugin.Life.{Hardware, Plugin, returned, sr_plugin_init_cb}
use sweetcomb.Plugin.Life.Laws.{now}
use sweetcomb.Plugin.Load.{
  uncalled, at_load, run_constructors-Represents, sr_plugin_init_cb-subscribe_all,
}
use sweetcomb.Plugin.Retry.{sr_plugin_init_cb_skips_failed}

-- The hardware queue connects at once, and the state is the session alone.
abbrev ready : (S : Type 0) → Hardware S
ready S = record {
  init = λ s. s;
  connect = λ s. (true, s);
  disconnect = λ s. s;
  populate = λ k s. (true, s);
  replay = λ s. s;
  unsubscribe = λ s. s;
}

abbrev no_process : Proc
no_process = record { listing = entries [] none; cmdline = λ path. unopened 2 }

abbrev zeroed : ℕ → Elt
zeroed a = record { next = none; func = 0; is_called = false }

abbrev nothing : Registrations
nothing = record { head = none; elts = zeroed }

abbrev notes : Subscription → List Subscription → SrError × List Subscription
notes c s = (ok, c ∷ s)

distinct : Distinct (uncalled (2 ∷ 1 ∷ 0 ∷ []))
distinct = ground arith

sr_plugin_init_cb-subscribe_all_example :
    (p' : Plugin (List Subscription)) × (sr_plugin_init_cb
        (ready (List Subscription))
        (session_only (init_functions notes))
        no_process
        0
        1
        4
        (at_load (2 ∷ 1 ∷ 0 ∷ []) zeroed nothing [])
      ≡ value (returned ((if is_negative (get_vpp_pid no_process 0) then disconnect else ok), p')))
    × (p'.main.session ≡ (subscribe_all notes (all_subscriptions (uncalled (2 ∷ 1 ∷ 0 ∷ []))) []).1)
unfolding subscribe_all
sr_plugin_init_cb-subscribe_all_example =
    sr_plugin_init_cb-subscribe_all (ready (List Subscription)) notes (2 ∷ 1 ∷ 0 ∷ []) zeroed
      nothing [] no_process 0 1 0 4 [] [] distinct (now [] [] refl) (omega arith) refl (omega arith)

-- Each function notes its number, and the function 1 fails.
abbrev second_fails : ℕ → List ℕ → SrError × List ℕ
second_fails f s = (if f == 1 then nomem else ok, f ∷ s)

sr_plugin_init_cb_skips_failed_example :
    (p' : Plugin (List ℕ)) × (p'' : Plugin (List ℕ)) × (sr_plugin_init_cb
        (ready (List ℕ))
        (session_only second_fails)
        no_process
        0
        1
        4
        (at_load (2 ∷ 1 ∷ 0 ∷ []) zeroed nothing [])
      ≡ value (returned (nomem, p')))
    × (sr_plugin_init_cb (ready (List ℕ)) (session_only second_fails) no_process 0 1 4 p'
        ≡ value
            (returned ((if is_negative (get_vpp_pid no_process 0) then disconnect else ok), p'')))
    × (p''.main.session ≡ 0 ∷ 1 ∷ 2 ∷ [])
unfolding call_entries
sr_plugin_init_cb_skips_failed_example =
    sr_plugin_init_cb_skips_failed (ready (List ℕ)) second_fails no_process no_process 0 0 1 1 0 0 4
      ((2, false) ∷ []) 1 ((0, false) ∷ []) (at_load (2 ∷ 1 ∷ 0 ∷ []) zeroed nothing []) [] []
      (1 ∷ 2 ∷ []) (1 ∷ 2 ∷ []) (1 ∷ 2 ∷ []) nomem
      (run_constructors-Represents (2 ∷ 1 ∷ 0 ∷ []) zeroed distinct) (omega arith) (now [] [] refl)
      (omega arith) refl refl refl refl (now (1 ∷ 2 ∷ []) (1 ∷ 2 ∷ []) refl) (omega arith) refl
