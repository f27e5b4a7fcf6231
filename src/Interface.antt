-- ===== src/Interface.antt =====
-- `class interface_builder` of src/plugins/ietf/ietf_interface.cpp, which
-- src/plugins/openconfig/openconfig_interfaces.cpp repeats word for word, and the callbacks of both.
pub mod Changes
pub mod Create
pub mod OpenConfig
pub mod Address
pub mod Frame
use sweetcomb.Prelude.{
  Bool, true, false, Text, codes, text_eq, is_empty, Option, none, some, ◌++◌, ◌∷◌, ◌||◌,
  if◌then◌else◌,
}
use sweetcomb.Callback.{M, next}
use sweetcomb.Vom.{Vom}

pub record Builder : Type 0 where
  pub m_name : Text
  pub m_type : Text
  pub m_state : Bool

-- The constructor leaves `m_state` as the memory has it.
unfoldable pub new_builder : Bool → Builder
new_builder garbage = record { m_name = codes ""; m_type = codes ""; m_state = garbage }

unfoldable pub set_name : Text → Builder → Builder
set_name n b = record b { m_name = n }

unfoldable pub set_type : Text → Builder → Builder
set_type t b =
    if text_eq t (codes "iana-if-type:ethernetCsmacd")
    then record b { m_type = codes "ETHERNET" }
    else b

unfoldable pub set_state : Bool → Builder → Builder
set_state enable b = record b { m_state = enable }

module _ {W I P A : Type 0} (V : Vom W I P A) where
  -- `none` is `nullptr`.
  unfoldable pub build : Builder → M W (Option I)
  build b s =
      if is_empty b.m_name || is_empty b.m_type
      then (next none, s)
      else let made = V.make_interface b.m_name b.m_type b.m_state s.om in
        (next (some made.0), record s { om = made.1 })
