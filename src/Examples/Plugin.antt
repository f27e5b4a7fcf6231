-- ===== src/Examples/Plugin.antt =====
-- A /proc with VPP as its second process, and one without.
use sweetcomb.Prelude.{
  ℕ, ◌+◌, ◌≡◌, refl, inl, inr, true, false, Text, codes, text_eq, none, [], ◌∷◌, ◌++◌, ◌%◌, ◌==◌,
  if◌then◌else◌, arith,
}
use sweetcomb.Prelude.Int.{ℤ, pos, neg, negsuc}
use sweetcomb.Prelude.Outcome.{value}
use sweetcomb.Decimal.{show}
use sweetcomb.Sysrepo.{ok}
use sweetcomb.Init.{Registrations}
use sweetcomb.Plugin.Pid.{
  Cmdline, unopened, contents, Dirent, entries, Proc, c_string, skip_blanks, up_to_blank,
  first_token, is_vpp, filepath, get_vpp_pid,
}
use sweetcomb.Plugin.Pid.First.{get_vpp_pid_first}
use sweetcomb.Plugin.Pid.Laws.{names_vpp, is_vpp_entry, any_vpp, get_vpp_pid_stale}
use sweetcomb.Plugin.Pid.Handles.{Handles, get_vpp_pid_handles}
use sweetcomb.Plugin.Pid.Handles.Laws.{IsSettled, get_vpp_pid_handles-IsSettled, get_vpp_pid_leaks}
use sweetcomb.Plugin.Life.{Hardware, Plugin, sr_plugin_health_check_cb}
use sweetcomb.Plugin.Life.Laws.{
  Connects, now, later, sr_plugin_health_check_cb_recovers, sr_plugin_health_check_cb_replays_again,
}

abbrev dir : Text → Dirent
dir name = record { d_name = name; is_dir = true }

-- Process 1 is a shell; the command line of any other process is given.
abbrev cmdlines : Cmdline → Text → Cmdline
cmdlines c path =
    if text_eq path (codes "/proc/1/cmdline") then contents (codes "/bin/sh" ++ 0 ∷ []) none else c

abbrev proc_with : Cmdline → Proc
proc_with c = record {
  listing = entries (dir (codes "1") ∷ dir (codes "27") ∷ []) none;
  cmdline = cmdlines c;
}

abbrev running : Proc
running = proc_with (contents (codes "/usr/bin/vpp" ++ 0 ∷ codes "-c") none)

-- Process 27 has ended since the listing; 2 is `ENOENT`.
abbrev gone : Proc
gone = proc_with (unopened 2)

sh_is_other : is_vpp_entry running (dir (codes "1")) ≡ false
unfolding is_vpp_entry names_vpp is_vpp first_token c_string skip_blanks up_to_blank filepath
    text_eq
sh_is_other = refl

get_vpp_pid_first_example : get_vpp_pid running 5 ≡ pos 27
unfolding show text_eq
get_vpp_pid_first_example =
    get_vpp_pid_first running (dir (codes "1") ∷ []) [] (dir (codes "27")) none 5 27 refl
      (sh_is_other, tt)
      (record {
        named = refl;
        directory = refl;
        in_int = omega arith;
        fits = omega arith;
        prog = codes "/usr/bin/vpp";
        sep = 0;
        rest = codes "-c";
        error = none;
        command = refl;
        vpp = inr refl;
        ends = inl refl;
      })

sh_is_other_gone : is_vpp_entry gone (dir (codes "1")) ≡ false
unfolding is_vpp_entry names_vpp is_vpp first_token c_string skip_blanks up_to_blank filepath
    text_eq
sh_is_other_gone = refl

abbrev none_open : Handles
none_open = record { dirs = 0; files = 0 }

get_vpp_pid_handles-IsSettled_example :
    (let r = get_vpp_pid_handles running 0 none_open in
      (r.0 ≡ get_vpp_pid running 0) × IsSettled true true none_open r)
unfolding any_vpp is_vpp_entry names_vpp is_vpp first_token c_string skip_blanks up_to_blank
    filepath text_eq
get_vpp_pid_handles-IsSettled_example = get_vpp_pid_handles-IsSettled running 0 none_open

get_vpp_pid_leaks_example :
    get_vpp_pid_handles gone 0 none_open ≡ (neg 2, record { dirs = 1; files = 0 })
unfolding filepath text_eq
get_vpp_pid_leaks_example =
    get_vpp_pid_leaks gone (dir (codes "1") ∷ []) (dir (codes "27")) 0 2 none_open refl
      (sh_is_other_gone, tt) refl refl refl (λ e. omega arith) (λ e. omega arith)

-- Connecting succeeds when the state is odd, and counts in any case.
abbrev odd_hardware : Hardware ℕ
odd_hardware = record {
  init = λ s. s;
  connect = λ s. (s % 2 == 1, s + 1);
  disconnect = λ s. s + 100;
  populate = λ key s. (true, s);
  replay = λ s. s + 1000;
  unsubscribe = λ s. s;
}

abbrev no_functions : Registrations
no_functions = record {
  head = none;
  elts = λ a. record { next = none; func = 0; is_called = false };
}

abbrev loaded : ℕ → ℤ → Plugin ℕ
loaded s pid = record {
  main = record {
    session = s;
    init_function_registrations = no_functions;
    exit_function_registrations = no_functions;
  };
  vpp_pid_start = pid;
}

get_gone : get_vpp_pid gone 0 ≡ negsuc 1
unfolding filepath text_eq
get_gone =
    get_vpp_pid_stale gone (dir (codes "1") ∷ []) (dir (codes "27")) 0 2 refl (sh_is_other_gone, tt)
      refl refl refl (λ e. omega arith)

get_running : get_vpp_pid running 0 ≡ pos 27
unfolding show text_eq
get_running =
    get_vpp_pid_first running (dir (codes "1") ∷ []) [] (dir (codes "27")) none 0 27 refl
      (sh_is_other, tt)
      (record {
        named = refl;
        directory = refl;
        in_int = omega arith;
        fits = omega arith;
        prog = codes "/usr/bin/vpp";
        sep = 0;
        rest = codes "-c";
        error = none;
        command = refl;
        vpp = inr refl;
        ends = inl refl;
      })

one_failure : Connects odd_hardware 1 110 112
one_failure = later 0 110 111 112 refl (now 111 112 refl)

sr_plugin_health_check_cb_recovers_example :
    (p' : Plugin ℕ) × (sr_plugin_health_check_cb odd_hardware running 0 5 (loaded 10 (pos 26))
      ≡ value (ok, p'))
    × (p'.main ≡ (loaded 1112 (pos 26)).main)
    × (sr_plugin_health_check_cb odd_hardware running 0 5 p' ≡ value (ok, p'))
sr_plugin_health_check_cb_recovers_example =
    sr_plugin_health_check_cb_recovers odd_hardware running 0 5 1 (loaded 10 (pos 26)) 112
      (rw get_running) one_failure (omega arith)

sr_plugin_health_check_cb_replays_again_example :
    (p' : Plugin ℕ) × (sr_plugin_health_check_cb odd_hardware gone 0 5 (loaded 10 (pos 26))
      ≡ value (ok, p'))
    × (sr_plugin_health_check_cb odd_hardware running 0 5 p'
        ≡ value (
          ok,
          record { main = (loaded 2214 (pos 26)).main; vpp_pid_start = get_vpp_pid running 0 },
        ))
sr_plugin_health_check_cb_replays_again_example =
    sr_plugin_health_check_cb_replays_again odd_hardware gone running 0 0 5 1 1 (loaded 10 (pos 26))
      112 1214 (rw get_gone) (rw get_gone) (rw get_running) one_failure
      (later 0 1212 1213 1214 refl (now 1213 1214 refl)) (omega arith) (omega arith)
