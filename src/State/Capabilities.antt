-- ===== src/State/Capabilities.antt =====
-- `nat_cap_state_cb` of src/plugins/ietf/ietf_nat.cpp.
pub mod Types
use sweetcomb.Prelude.{Text, codes, true, ◌++◌, if◌then◌else◌}
use sweetcomb.Prelude.Outcome.{Outcome, value}
use sweetcomb.Sysrepo.{SrError, ok, nomem, is_ok, Sysrepo}
use sweetcomb.State.Values.{bool_data, new_buffer, put, Reply, nothing, replies}

unfoldable pub nat_cap_state_cb : Sysrepo → Text → Outcome (SrError × Reply)
nat_cap_state_cb R xpath =
    if is_ok (R.new_values 1)
    then replies ok (
        put (xpath ++ codes "/static-mapping") (bool_data true)
          (record { buffer = new_buffer 1; cnt = 0 }))
    else value (nomem, nothing)
