-- ===== src/Plugin/Runs/Once.antt =====
-- No init function is called twice, however the plugin is loaded, checked and unloaded: the flags
-- of src/plugins/sc_init.c are never reset.
use sweetcomb.Prelude.{
  ℕ, zero, suc, ◌==◌, ◌≡◌, ap, sym, ◌∙◌, subst, Bool, codes, List, if◌then◌else◌, Bool-cases, inl,
  inr, arith,
}
use sweetcomb.Prelude.Int.{int_eq}
use sweetcomb.Prelude.Outcome.{value, bind_value_steps, ◌>>=◌}
use sweetcomb.Sysrepo.{SrError, ok, is_ok}
use sweetcomb.Init.{PluginMain, sc_call_all_init_function, sc_call_all_exit_function}
use sweetcomb.Init.Calls.{session_only, call_entries, sc_call_all_init_function-Represents}
use sweetcomb.Init.Again.{length-call_entries}
use sweetcomb.Init.Exits.{exit_only, exit_entries, all_marked, sc_call_all_exit_function-Represents}
use sweetcomb.Init.Counts.{
  SameCalls, IsCounted-SameCalls, call_entries-IsCounted, exit_entries-SameCalls,
}
use sweetcomb.Plugin.Pid.{Proc, get_vpp_pid}
use sweetcomb.Plugin.Life.{
  Hardware, Plugin, returned, connect_loop, note_pid, sr_plugin_init_cb, sr_plugin_cleanup_cb,
  sr_plugin_health_check_cb,
}
use sweetcomb.Plugin.Runs.{
  CallsNone, functions-call_entries, length-all_marked, Happens, loads, checks, unloads, passes,
  Reaches, here, further, IsSound,
}

module _ {S : Type 0} (hw : Hardware S) (act : ℕ → S → SrError × S) (leave : ℕ → S → S)
    (calls : S → ℕ → ℕ) (n : ℕ) (none : CallsNone hw calls)
    (counts : (f g : ℕ) (s : S)
      → calls (act f s).1 g ≡ (if f == g then suc (calls s g) else calls s g))
    (spares : (f : ℕ) (s : S) → SameCalls calls s (leave f s)) (fs : List ℕ) where
  abbrev Sound : PluginMain S → Type 0
  Sound = IsSound hw act leave calls n fs

  Sound-session :
      (m : PluginMain S) (s : S)
      → SameCalls calls m.session s
      → Sound m
      → Sound (record m { session = s })
  Sound-session m s e h = record {
    inits = h.inits;
    exits = h.exits;
    init_list = h.init_list;
    exit_list = h.exit_list;
    init_short = h.init_short;
    exit_short = h.exit_short;
    same = h.same;
    counted = IsCounted-SameCalls calls h.inits m.session s e h.counted;
  }

  connect_loop-SameCalls :
      (k : ℕ) (s s' : S) → connect_loop hw k s ≡ value s' → SameCalls calls s s'
  unfolding connect_loop
  connect_loop-SameCalls zero s s' h = cc
  connect_loop-SameCalls (suc k) s s' h = elim (Bool-cases (hw.connect s).0) [
    | inl linked ↦
        let found : value (hw.connect s).1 ≡ value s' = rw linked at h in
        let same : (hw.connect s).1 ≡ s' = cc in subst (SameCalls calls s) same (none.connect s)
    | inr again ↦
        λ g. connect_loop-SameCalls k (hw.connect s).1 s' (rw again at h) g ∙ none.connect s g
  ]

  Sound-init :
      (m m' : PluginMain S) (rc : SrError)
      → sc_call_all_init_function (session_only act) n m ≡ value (rc, m')
      → Sound m
      → Sound m'
  Sound-init m m' rc e h =
      let l = call_entries act ok h.inits m.session in
      let (m₁, e₁, s, r, x) =
        sc_call_all_init_function-Represents act n h.inits m h.init_list h.init_short in
      let same : m₁ ≡ m' = cc in
      subst Sound same (record {
        inits = l.1;
        exits = h.exits;
        init_list = r;
        exit_list = rw x h.exit_list;
        init_short = omega (arith, length-call_entries act ok h.inits m.session, h.init_short);
        exit_short = h.exit_short;
        same = functions-call_entries act ok h.inits m.session ∙ h.same;
        counted = rw s (
            call_entries-IsCounted calls act counts ok h.inits m.session h.init_list.distinct
              h.counted);
      })

  Sound-exit :
      (m m' : PluginMain S)
      → sc_call_all_exit_function (exit_only leave) n m ≡ value m'
      → Sound m
      → Sound m'
  Sound-exit m m' e h =
      let (m₁, e₁, s, r, x) =
        sc_call_all_exit_function-Represents leave n h.exits m h.exit_list h.exit_short in
      let same : m₁ ≡ m' = cc in
      subst Sound same (record {
        inits = h.inits;
        exits = all_marked leave h.exits;
        init_list = rw x h.init_list;
        exit_list = r;
        init_short = h.init_short;
        exit_short = omega (arith, length-all_marked leave h.exits, h.exit_short);
        same = h.same;
        counted = rw s (
            IsCounted-SameCalls calls h.inits m.session (exit_entries leave h.exits m.session)
              (exit_entries-SameCalls calls leave spares h.exits m.session) h.counted);
      })

  value_injective : {A : Type 0} {a b : A} → value a ≡ value b → a ≡ b
  value_injective e = cc

  note_pid-main :
      (proc : Proc) (errno : ℕ) (p p' : Plugin S) (rc rc' : SrError) (m : PluginMain S)
      → note_pid hw (session_only act) proc errno p rc m ≡ (rc', p')
      → p'.main ≡ m
  unfolding note_pid
  note_pid-main proc errno p p' rc rc' m e = elim (Bool-cases (is_ok rc)) [
    | inl good ↦ sym (ap (λ x. x.1.main) (rw good at e))
    | inr bad ↦ sym (ap (λ x. x.1.main) (rw bad at e))
  ]

  Sound-populated :
      (proc : Proc) (errno : ℕ) (rc : SrError) (p p' : Plugin S) (s : S)
      → SameCalls calls p.main.session s
      → (sc_call_all_init_function (session_only act) n (record p.main { session = s }) >>= λ r.
          value (returned (note_pid hw (session_only act) proc errno p r.0 r.1)))
        ≡ value (returned (rc, p'))
      → Sound p.main
      → Sound p'.main
  Sound-populated proc errno rc p p' s e h sound =
      let (r, called, noted) =
        bind_value_steps
          (sc_call_all_init_function (session_only act) n (record p.main { session = s }))
          (λ r. value (returned (note_pid hw (session_only act) proc errno p r.0 r.1)))
          (returned (rc, p')) h in
      let pair : note_pid hw (session_only act) proc errno p r.0 r.1 ≡ (rc, p') = cc in
      let after =
        Sound-init (record p.main { session = s }) r.1 r.0 called
          (Sound-session p.main s e sound) in
      subst Sound (sym (note_pid-main proc errno p p' r.0 rc r.1 pair)) after

  Sound-loads :
      (proc : Proc) (errno attempts : ℕ) (rc : SrError) (p p' : Plugin S)
      → sr_plugin_init_cb hw (session_only act) proc errno attempts n p ≡ value (returned (rc, p'))
      → Sound p.main
      → Sound p'.main
  unfolding sr_plugin_init_cb
  Sound-loads proc errno attempts rc p p' h sound =
      let (s, linked, rest) =
        bind_value_steps (connect_loop hw attempts (hw.init p.main.session)) _ (returned (rc, p'))
          h in
      let e = connect_loop-SameCalls attempts (hw.init p.main.session) s linked in
      elim (Bool-cases (hw.populate (codes "boot") s).0) [
        | inl populated ↦
            Sound-populated proc errno rc p p' (hw.populate (codes "boot") s).1
              (λ g. none.populate (codes "boot") s g ∙ e g ∙ none.init p.main.session g)
              (rw populated at rest) sound
        | inr thrown ↦ let exits = rw thrown at rest in cc
      ]

  Sound-checks :
      (proc : Proc) (errno attempts : ℕ) (rc : SrError) (p p' : Plugin S)
      → sr_plugin_health_check_cb hw proc errno attempts p ≡ value (rc, p')
      → Sound p.main
      → Sound p'.main
  unfolding sr_plugin_health_check_cb
  Sound-checks proc errno attempts rc p p' h sound =
      elim (Bool-cases (int_eq (get_vpp_pid proc errno) p.vpp_pid_start)) [
        | inl unchanged ↦
            let pair : value (ok, p) ≡ value (rc, p') = rw unchanged at h in
            let same : p ≡ p' = cc in subst (λ (q : Plugin S). Sound q.main) same sound
        | inr changed ↦
            let (s, linked, rest) =
              bind_value_steps (connect_loop hw attempts (hw.disconnect p.main.session)) _ (rc, p')
                (rw changed at h) in
            let main : record p.main { session = hw.replay s } ≡ p'.main =
              ap (λ x. x.1.main) (value_injective rest) in
            let e = connect_loop-SameCalls attempts (hw.disconnect p.main.session) s linked in
            subst Sound main (
              Sound-session p.main (hw.replay s)
                (λ g. none.replay s g ∙ e g ∙ none.disconnect p.main.session g) sound)
      ]

  Sound-unloads :
      (private_ctx : Bool) (p p' : Plugin S)
      → sr_plugin_cleanup_cb hw (exit_only leave) n private_ctx p ≡ value p'
      → Sound p.main
      → Sound p'.main
  unfolding sr_plugin_cleanup_cb
  Sound-unloads private_ctx p p' h sound =
      let (m, called, rest) =
        bind_value_steps (sc_call_all_exit_function (exit_only leave) n p.main) _ p' h in
      let left = if private_ctx then hw.unsubscribe m.session else m.session in
      let main : record m { session = hw.disconnect left } ≡ p'.main =
        ap (λ x. x.main) (value_injective rest) in
      let quiet : SameCalls calls m.session left = λ g. elim (Bool-cases private_ctx) [
        | inl given ↦ rw given (none.unsubscribe m.session g)
        | inr absent ↦ rw absent
      ] in
      subst Sound main (
        Sound-session m (hw.disconnect left) (λ g. none.disconnect left g ∙ quiet g)
          (Sound-exit p.main m called sound))

  Sound-Happens :
      (p p' : Plugin S) → Happens hw act leave calls n p p' → Sound p.main → Sound p'.main
  Sound-Happens p p' (loads proc errno attempts rc _ _ e) h =
      Sound-loads proc errno attempts rc p p' e h
  Sound-Happens p p' (checks proc errno attempts rc _ _ e) h =
      Sound-checks proc errno attempts rc p p' e h
  Sound-Happens p p' (unloads private_ctx _ _ e) h = Sound-unloads private_ctx p p' e h
  Sound-Happens p p' (passes _ s e) h = Sound-session p.main s e h

  -- If the registered functions leave the lists alone, each init function counts its own calls,
  -- and nothing else counts any: in every state that the plugin reaches by loading, unloading and
  -- health checks that return, in any order, from one in which each init function stands once in
  -- the list and its flag is the number of its calls, the list has the same functions, and the
  -- flag of each is still the number of its calls, so that none is called twice.
  pub Reaches-IsSound :
      (p p' : Plugin S) → Reaches hw act leave calls n p p' → Sound p.main → Sound p'.main
  Reaches-IsSound p _ (here _) h = h
  Reaches-IsSound p p'' (further _ p' _ e r) h = Reaches-IsSound p' p'' r (Sound-Happens p p' e h)
