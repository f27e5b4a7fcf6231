-- ===== src/Plugin/Life/Laws.antt =====
-- Loading the plugin, and recovering when VPP has been restarted.
use sweetcomb.Prelude.{
  ℕ, zero, suc, ◌<◌, ◌≡◌, refl, Bool, true, false, codes, length, if◌then◌else◌, Bool-cases, inl,
  inr, arith,
}
use sweetcomb.Prelude.Int.{ℤ, pos, negsuc, int_eq, is_negative}
use sweetcomb.Prelude.Outcome.{value}
use sweetcomb.Sysrepo.{SrError, ok, disconnect, is_ok}
use sweetcomb.Init.Lists.{Entries, Represents}
use sweetcomb.Init.Calls.{session_only, call_entries, sc_call_all_init_function-Represents}
use sweetcomb.Init.Exits.{exit_only, exit_entries, sc_call_all_exit_function-Represents}
use sweetcomb.Plugin.Pid.{Proc, get_vpp_pid}
use sweetcomb.Plugin.Life.{
  Hardware, Plugin, returned, connect_loop, note_pid, sr_plugin_init_cb, sr_plugin_cleanup_cb,
  sr_plugin_health_check_cb,
}

pub int_eq_refl : (a : ℤ) → int_eq a a ≡ true
int_eq_refl (pos a) = ground arith
int_eq_refl (negsuc a) = ground arith

signs_differ : (a b : ℤ) → is_negative a ≡ false → is_negative b ≡ true → int_eq a b ≡ false
signs_differ (pos a) (pos b) h k = cc
signs_differ (pos a) (negsuc b) h k = refl
signs_differ (negsuc a) b h k = cc

module _ {S : Type 0} (hw : Hardware S) where
  -- From a state, the connection succeeds after this many failed attempts, in another state.
  pub data Connects : ℕ → S → S → Type 0 where
    now : (s s' : S) → hw.connect s ≡ (true, s') → Connects 0 s s'
    later :
        (k : ℕ) (s s' s'' : S)
        → hw.connect s ≡ (false, s')
        → Connects k s' s''
        → Connects (suc k) s s''

  -- The loop ends in the state in which the connection has succeeded, if it makes more attempts than
  -- have to fail.
  connect_loop-Connects :
      (n k : ℕ) (s s' : S) → Connects k s s' → k < n → connect_loop hw n s ≡ value s'
  unfolding connect_loop
  connect_loop-Connects zero k s s' c h = absurd (omega arith)
  connect_loop-Connects (suc n) _ s s' (now _ _ e) h = rw (connect_loop, e)
  connect_loop-Connects (suc n) _ s s' (later k _ t _ e c) h =
      rw (connect_loop, e) (connect_loop-Connects n k t s' c (omega arith))

  -- A health check that finds another pid than the one noted disconnects, connects again and replays
  -- the configuration, if the connection succeeds after some attempts, and notes the pid it has
  -- found; another health check that finds the same pid changes nothing.
  pub sr_plugin_health_check_cb_recovers :
      (proc : Proc) (errno n k : ℕ) (p : Plugin S) (s : S)
      → int_eq (get_vpp_pid proc errno) p.vpp_pid_start ≡ false
      → Connects k (hw.disconnect p.main.session) s
      → k < n
      → (p' : Plugin S) × (sr_plugin_health_check_cb hw proc errno n p ≡ value (ok, p'))
        × (p'.main ≡ record p.main { session = hw.replay s })
        × (sr_plugin_health_check_cb hw proc errno n p' ≡ value (ok, p'))
  unfolding sr_plugin_health_check_cb
  sr_plugin_health_check_cb_recovers proc errno n k p s changed connects enough = (
    record {
      main = record p.main { session = hw.replay s };
      vpp_pid_start = get_vpp_pid proc errno;
    },
    rw (changed, connect_loop-Connects n k (hw.disconnect p.main.session) s connects enough),
    refl,
    rw (int_eq_refl (get_vpp_pid proc errno)),
  )

  -- If the connection succeeds within the attempts: the pid that a health check notes is the one
  -- it has found before it waits for the connection. If VPP was not running then, and runs at the
  -- next check, that check disconnects, connects and replays once more, although VPP has not been
  -- restarted in between.
  pub sr_plugin_health_check_cb_replays_again :
      (proc proc' : Proc) (errno errno' n k k' : ℕ) (p : Plugin S) (s s' : S)
      → int_eq (get_vpp_pid proc errno) p.vpp_pid_start ≡ false
      → is_negative (get_vpp_pid proc errno) ≡ true
      → is_negative (get_vpp_pid proc' errno') ≡ false
      → Connects k (hw.disconnect p.main.session) s
      → Connects k' (hw.disconnect (hw.replay s)) s'
      → k < n
      → k' < n
      → (p' : Plugin S) × (sr_plugin_health_check_cb hw proc errno n p ≡ value (ok, p'))
        × (sr_plugin_health_check_cb hw proc' errno' n p'
            ≡ value (
              ok,
              record {
                main = record p.main { session = hw.replay s' };
                vpp_pid_start = get_vpp_pid proc' errno';
              },
            ))
  unfolding sr_plugin_health_check_cb
  sr_plugin_health_check_cb_replays_again proc proc' errno errno' n k k' p s s' changed gone back
        connects connects' enough enough' =
      let other : int_eq (get_vpp_pid proc' errno') (get_vpp_pid proc errno) ≡ false =
        signs_differ (get_vpp_pid proc' errno') (get_vpp_pid proc errno) back gone in
      (
        record {
          main = record p.main { session = hw.replay s };
          vpp_pid_start = get_vpp_pid proc errno;
        },
        rw (changed, connect_loop-Connects n k (hw.disconnect p.main.session) s connects enough),
        rw (other, connect_loop-Connects n k' (hw.disconnect (hw.replay s)) s' connects' enough'),
      )

  module _ (act : ℕ → S → SrError × S) where
    -- If the connection succeeds within the attempts, VOM is populated without an exception and
    -- the init functions leave the lists alone: loading the plugin connects, populates VOM and
    -- runs the registered functions in order until one fails, in the state reached. It returns
    -- the error of the function that fails; if none does, it notes the pid of VPP, and returns
    -- SR_ERR_DISCONNECT exactly if that is negative. The list holds the same functions, with the flags of the walk over them.
    pub sr_plugin_init_cb_runs :
        (proc : Proc) (errno attempts k n : ℕ) (l : Entries) (p : Plugin S) (s s' : S)
        → Connects k (hw.init p.main.session) s
        → k < attempts
        → hw.populate (codes "boot") s ≡ (true, s')
        → Represents p.main.init_function_registrations l
        → length l < n
        → (p' : Plugin S) × (sr_plugin_init_cb hw (session_only act) proc errno attempts n p
            ≡ value (
                returned (
                  (if is_ok (call_entries act ok l s').0
                      then if is_negative (get_vpp_pid proc errno) then disconnect else ok
                      else (call_entries act ok l s').0),
                  p',
                )))
          × (p'.main.session ≡ (call_entries act ok l s').2)
          × (p'.vpp_pid_start ≡ (
              if is_ok (call_entries act ok l s').0
              then get_vpp_pid proc errno
              else p.vpp_pid_start))
          × Represents p'.main.init_function_registrations (call_entries act ok l s').1
    unfolding sr_plugin_init_cb note_pid
    sr_plugin_init_cb_runs proc errno attempts k n l p s s' connects enough populated h long =
        let (pm, e, same, r, x) =
          sc_call_all_init_function-Represents act n l (record p.main { session = s' }) h long in
        let linked = connect_loop-Connects attempts k (hw.init p.main.session) s connects enough in
        elim (Bool-cases (is_ok (call_entries act ok l s').0)) [
          | inl good ↦ (
            record { main = pm; vpp_pid_start = get_vpp_pid proc errno },
            rw (linked, populated, e, good),
            same,
            rw good,
            r,
          )
          | inr bad ↦ (record p { main = pm }, rw (linked, populated, e, bad), same, rw bad, r)
        ]

  module _ (act : ℕ → S → S) where
    -- If the exit functions leave the lists alone: unloading the plugin runs the registered exit
    -- functions that have not been called, in order, then ends the subscription if there is one,
    -- and then disconnects. The pid stays.
    pub sr_plugin_cleanup_cb_runs :
        (n : ℕ) (private_ctx : Bool) (l : Entries) (p : Plugin S)
        → Represents p.main.exit_function_registrations l
        → length l < n
        → (p' : Plugin S) × (sr_plugin_cleanup_cb hw (exit_only act) n private_ctx p ≡ value p')
          × (p'.main.session
              ≡ hw.disconnect (
                  if private_ctx
                  then hw.unsubscribe (exit_entries act l p.main.session)
                  else exit_entries act l p.main.session))
          × (p'.vpp_pid_start ≡ p.vpp_pid_start)
    unfolding sr_plugin_cleanup_cb
    sr_plugin_cleanup_cb_runs n private_ctx l p h enough =
        let (pm, e, s, r, x) = sc_call_all_exit_function-Represents act n l p.main h enough in
        (
          record p {
            main = record pm {
              session =
                  hw.disconnect (if private_ctx then hw.unsubscribe pm.session else pm.session);
            };
          },
          rw e,
          rw s,
          refl,
        )
