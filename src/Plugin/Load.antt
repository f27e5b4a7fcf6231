-- ===== src/Plugin/Load.antt =====
-- Loading the plugin: the constructors of src/plugins/sc_init.h run first, then sysrepo calls
-- `sr_plugin_init_cb` of src/plugins/sc_plugins.c.
use sweetcomb.Prelude.{
  ℕ, suc, ◌≡◌, ◌<◌, refl, ap, ◌∙◌, true, false, codes, List, [], ◌∷◌, length, if◌then◌else◌, none,
  arith,
}
use sweetcomb.Prelude.Int.{pos, is_negative}
use sweetcomb.Prelude.Outcome.{value}
use sweetcomb.Sysrepo.{SrError, ok, disconnect, is_ok}
use sweetcomb.Init.{Elt, Registrations, add_function}
use sweetcomb.Init.Lists.{Entries, Distinct, Represents}
use sweetcomb.Init.Register.{add_function-Represents}
use sweetcomb.Init.Calls.{session_only}
use sweetcomb.Subscribe.{Subscription, init_functions}
use sweetcomb.Subscribe.Laws.{all_subscriptions, Fresh, subscribe_all, call_entries-subscribe_all}
use sweetcomb.Plugin.Pid.{Proc, get_vpp_pid}
use sweetcomb.Plugin.Life.{Hardware, Plugin, returned, sr_plugin_init_cb}
use sweetcomb.Plugin.Life.Laws.{Connects, sr_plugin_init_cb_runs}

-- The registrations after the constructors of the functions have run, the last one first. The static
-- variable `sc_plugin_main` is zero before.
unfoldable pub run_constructors : List ℕ → (ℕ → Elt) → Registrations
run_constructors [] m = record { head = none; elts = m }
run_constructors (f ∷ fs) m = add_function f (run_constructors fs m)

-- The entries of functions that have not been called.
abbrev pub uncalled : List ℕ → Entries
uncalled [] = []
uncalled (f ∷ fs) = (f, false) ∷ uncalled fs

Fresh-uncalled : (fs : List ℕ) → Fresh (uncalled fs)
Fresh-uncalled [] = tt
Fresh-uncalled (f ∷ fs) = (refl, Fresh-uncalled fs)

length-uncalled : (fs : List ℕ) → length (uncalled fs) ≡ length fs
length-uncalled [] = refl
length-uncalled (f ∷ fs) = ap suc (length-uncalled fs)

pub run_constructors-Represents :
    (fs : List ℕ) (m : ℕ → Elt)
    → Distinct (uncalled fs)
    → Represents (run_constructors fs m) (uncalled fs)
unfolding run_constructors
run_constructors-Represents [] m d = record { chain = refl; distinct = tt }
run_constructors-Represents (f ∷ fs) m d =
    add_function-Represents f (run_constructors fs m) (uncalled fs)
      (run_constructors-Represents fs m d.1) d.0

-- The plugin's variables when its constructors have run; `vpp_pid_start` is zero.
abbrev pub at_load : {S : Type 0} → List ℕ → (ℕ → Elt) → Registrations → S → Plugin S
at_load fs m exits session = record {
  main = record {
    session = session;
    init_function_registrations = run_constructors fs m;
    exit_function_registrations = exits;
  };
  vpp_pid_start = pos 0;
}

module _ {S : Type 0} (hw : Hardware S) (subscribe : Subscription → S → SrError × S) where
  -- If each init function is registered once, by constructors that run in any order, the
  -- connection succeeds within the attempts, and VOM is populated without an exception: loading
  -- the plugin makes the subscriptions of all of them, the last registered first, up to the first
  -- that fails. It returns the error of that; if none fails, it returns SR_ERR_DISCONNECT exactly
  -- if the pid of VPP is negative.
  pub sr_plugin_init_cb-subscribe_all :
      (fs : List ℕ) (m : ℕ → Elt) (exits : Registrations) (session : S) (proc : Proc)
      (errno attempts k n : ℕ) (s s' : S)
      → Distinct (uncalled fs)
      → Connects hw k (hw.init session) s
      → k < attempts
      → hw.populate (codes "boot") s ≡ (true, s')
      → length fs < n
      → (let subscribed = subscribe_all subscribe (all_subscriptions (uncalled fs)) s' in
          (p' : Plugin S) × (sr_plugin_init_cb hw
              (session_only (init_functions subscribe))
              proc
              errno
              attempts
              n
              (at_load fs m exits session)
            ≡ value (
                returned (
                  (if is_ok subscribed.0
                      then if is_negative (get_vpp_pid proc errno) then disconnect else ok
                      else subscribed.0),
                  p',
                )))
          × (p'.main.session ≡ subscribed.1))
  sr_plugin_init_cb-subscribe_all fs m exits session proc errno attempts k n s s' d connects enough
        populated long =
      let (p', e, same, pid, r) =
        sr_plugin_init_cb_runs hw (init_functions subscribe) proc errno attempts k n (uncalled fs)
          (at_load fs m exits session) s s' connects enough populated
          (run_constructors-Represents fs m d) (omega (arith, length-uncalled fs)) in
      let walk = call_entries-subscribe_all subscribe (uncalled fs) s' (Fresh-uncalled fs) in
      let rc = ap (λ r. r.0) walk in
      let reached = ap (λ r. r.1) walk in (p', rw rc at e, same ∙ reached)
