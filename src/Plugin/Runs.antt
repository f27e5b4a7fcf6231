-- ===== src/Plugin/Runs.antt =====
-- The life of the plugin as a relation on its states: the callbacks of src/plugins/sc_plugins.c in
-- any order, and whatever else happens to the session and to VPP between them.
pub mod Once
use sweetcomb.Prelude.{
  ℕ, zero, suc, ◌<◌, ◌≡◌, refl, ap, sym, ◌∙◌, subst, Bool, true, false, codes, Text, List, [], ◌∷◌,
  map, length, if◌then◌else◌, Bool-cases, inl, inr, arith,
}
use sweetcomb.Prelude.Int.{int_eq}
use sweetcomb.Prelude.Outcome.{Outcome, value, bind_value_steps, ◌>>=◌}
use sweetcomb.Sysrepo.{SrError, ok, is_ok}
use sweetcomb.Init.{PluginMain, sc_call_all_init_function, sc_call_all_exit_function}
use sweetcomb.Init.Lists.{Entries, Represents}
use sweetcomb.Init.Calls.{session_only, call_entries, sc_call_all_init_function-Represents}
use sweetcomb.Init.Again.{length-call_entries}
use sweetcomb.Init.Exits.{exit_only, exit_entries, all_marked, sc_call_all_exit_function-Represents}
use sweetcomb.Init.Counts.{
  IsCounted, SameCalls, IsCounted-SameCalls, call_entries-IsCounted, exit_entries-SameCalls,
}
use sweetcomb.Plugin.Pid.{Proc, get_vpp_pid}
use sweetcomb.Plugin.Life.{
  Hardware, Plugin, Ended, returned, connect_loop, note_pid, sr_plugin_init_cb,
  sr_plugin_cleanup_cb, sr_plugin_health_check_cb,
}

-- VOM's calls call no init function.
pub record CallsNone {S : Type 0} (hw : Hardware S) (calls : S → ℕ → ℕ) : Type 0 where
  pub init : (s : S) → SameCalls calls s (hw.init s)
  pub connect : (s : S) → SameCalls calls s (hw.connect s).1
  pub disconnect : (s : S) → SameCalls calls s (hw.disconnect s)
  pub populate : (k : Text) (s : S) → SameCalls calls s (hw.populate k s).1
  pub replay : (s : S) → SameCalls calls s (hw.replay s)
  pub unsubscribe : (s : S) → SameCalls calls s (hw.unsubscribe s)

abbrev pub functions : Entries → List ℕ
functions [] = []
functions ((f, c) ∷ l) = f ∷ functions l

pub functions-call_entries :
    {S : Type 0} (act : ℕ → S → SrError × S) (ret : SrError) (l : Entries) (s : S)
    → functions (call_entries act ret l s).1 ≡ functions l
unfolding call_entries
functions-call_entries act ret [] s = refl
functions-call_entries act ret ((f, true) ∷ l) s =
    ap (λ fs. f ∷ fs) (functions-call_entries act ret l s)
functions-call_entries act ret ((f, false) ∷ l) s = elim (Bool-cases (is_ok (act f s).0)) [
  | inl good ↦
      rw (call_entries, good)
        (ap (λ fs. f ∷ fs) (functions-call_entries act (act f s).0 l (act f s).1))
  | inr bad ↦ rw (call_entries, bad)
]

pub length-all_marked :
    {S : Type 0} (leave : ℕ → S → S) (l : Entries) → length (all_marked leave l) ≡ length l
unfolding all_marked
length-all_marked leave [] = refl
length-all_marked leave ((f, c) ∷ l) = ap suc (length-all_marked leave l)

module _ {S : Type 0} (hw : Hardware S) (act : ℕ → S → SrError × S) (leave : ℕ → S → S)
    (calls : S → ℕ → ℕ) (n : ℕ) where
  -- One callback returns, or something else happens that calls no init function.
  pub data Happens : Plugin S → Plugin S → Type 0 where
    loads :
        (proc : Proc) (errno attempts : ℕ) (rc : SrError) (p p' : Plugin S)
        → sr_plugin_init_cb hw (session_only act) proc errno attempts n p
          ≡ value (returned (rc, p'))
        → Happens p p'
    checks :
        (proc : Proc) (errno attempts : ℕ) (rc : SrError) (p p' : Plugin S)
        → sr_plugin_health_check_cb hw proc errno attempts p ≡ value (rc, p')
        → Happens p p'
    unloads :
        (private_ctx : Bool) (p p' : Plugin S)
        → sr_plugin_cleanup_cb hw (exit_only leave) n private_ctx p ≡ value p'
        → Happens p p'
    passes :
        (p : Plugin S) (s : S)
        → SameCalls calls p.main.session s
        → Happens p (record p { main = record p.main { session = s } })

  pub data Reaches : Plugin S → Plugin S → Type 0 where
    here : (p : Plugin S) → Reaches p p
    further : (p p' p'' : Plugin S) → Happens p p' → Reaches p' p'' → Reaches p p''

  -- The lists have these functions, once each, and the flags of the init functions say how often
  -- each has been called.
  pub record IsSound (fs : List ℕ) (m : PluginMain S) : Type 0 where
    pub inits : Entries
    pub exits : Entries
    pub init_list : Represents m.init_function_registrations inits
    pub exit_list : Represents m.exit_function_registrations exits
    pub init_short : length inits < n
    pub exit_short : length exits < n
    pub same : functions inits ≡ fs
    pub counted : IsCounted calls inits m.session
