-- ===== src/Plugin/Life.antt =====
-- `sr_plugin_init_cb`, `sr_plugin_cleanup_cb` and `sr_plugin_health_check_cb` of
-- src/plugins/sc_plugins.c. VOM's hardware queue and object manager are a parameter.
pub mod Laws
use sweetcomb.Prelude.{
  ℕ, zero, suc, Bool, true, false, Text, codes, Option, none, some, if◌then◌else◌,
}
use sweetcomb.Prelude.Int.{ℤ, int_eq, is_negative}
use sweetcomb.Prelude.Outcome.{Outcome, value, fault, out_of_fuel, ◌>>=◌}
use sweetcomb.Sysrepo.{SrError, ok, disconnect, is_ok}
use sweetcomb.Init.{PluginMain, sc_call_all_init_function, sc_call_all_exit_function}
use sweetcomb.Plugin.Pid.{Proc, get_vpp_pid}

-- `HW` and `OM`, on the state that they share with VPP.
pub record Hardware (S : Type 0) : Type 0 where
  -- the session is noted, then `HW::init(); OM::init();`
  pub init : S → S
  -- `HW::connect() == true`
  pub connect : S → Bool × S
  pub disconnect : S → S
  -- `OM::populate(key)`, where `false` is an exception
  pub populate : Text → S → Bool × S
  pub replay : S → S
  -- `sr_unsubscribe(session, private_ctx)`
  pub unsubscribe : S → S

-- `sc_plugin_main` and `vpp_pid_start`.
pub record Plugin (S : Type 0) : Type 0 where
  pub main : PluginMain S
  pub vpp_pid_start : ℤ

-- How a callback ends, if it ends: it returns, or it calls `exit`.
pub data Ended (A : Type 0) : Type 0 where
  returned : A → Ended A
  exited : ℕ → Ended A

module _ {S : Type 0} (hw : Hardware S) where
  -- `while (HW::connect() != true);`, for as many attempts as the fuel
  unfoldable pub connect_loop : ℕ → S → Outcome S
  connect_loop zero s = fault out_of_fuel
  connect_loop (suc n) s =
      let again = connect_loop n (hw.connect s).1 in
      if (hw.connect s).0 then value (hw.connect s).1 else again

  module _ (run : ℕ → PluginMain S → SrError × PluginMain S) where
    -- After the registered functions have run: the pid of VPP is noted.
    unfoldable pub note_pid : Proc → ℕ → Plugin S → SrError → PluginMain S → SrError × Plugin S
    note_pid proc errno p rc pm =
        if is_ok rc
        then (
          if is_negative (get_vpp_pid proc errno) then disconnect else ok,
          record { main = pm; vpp_pid_start = get_vpp_pid proc errno },
        )
        else (rc, record p { main = pm })

    -- The subscription, to which `*private_ctx` is set, is part of the state.
    unfoldable pub sr_plugin_init_cb :
        Proc → ℕ → ℕ → ℕ → Plugin S → Outcome (Ended (SrError × Plugin S))
    sr_plugin_init_cb proc errno attempts n p = do
      s ← connect_loop attempts (hw.init p.main.session)
      let (populated, s') = hw.populate (codes "boot") s
      if populated
          then (do
            (rc, pm) ← sc_call_all_init_function run n (record p.main { session = s' })
            value (returned (note_pid proc errno p rc pm)))
          else value (exited 1)

  module _ (run : ℕ → PluginMain S → PluginMain S) where
    -- The flag says that `private_ctx` is not null.
    unfoldable pub sr_plugin_cleanup_cb : ℕ → Bool → Plugin S → Outcome (Plugin S)
    sr_plugin_cleanup_cb n private_ctx p = do
      pm ← sc_call_all_exit_function run n p.main
      let s = if private_ctx then hw.unsubscribe pm.session else pm.session
      value (record p { main = record pm { session = hw.disconnect s } })

  unfoldable pub sr_plugin_health_check_cb : Proc → ℕ → ℕ → Plugin S → Outcome (SrError × Plugin S)
  sr_plugin_health_check_cb proc errno attempts p =
      if int_eq (get_vpp_pid proc errno) p.vpp_pid_start then value (ok, p) else (do
        s ← connect_loop attempts (hw.disconnect p.main.session)
        value (
          ok,
          record {
            main = record p.main { session = hw.replay s };
            vpp_pid_start = get_vpp_pid proc errno;
          },
        ))
