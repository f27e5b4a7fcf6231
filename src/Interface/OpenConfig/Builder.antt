-- ===== src/Interface/OpenConfig/Builder.antt =====
-- `class interface_builder` of src/plugins/openconfig/openconfig_interfaces.cpp, with the members of
-- the class of the same name in src/plugins/ietf/ietf_interface.cpp.
use sweetcomb.Prelude.{
  Bool, Text, codes, text_eq, is_empty, Option, none, some, ◌||◌, if◌then◌else◌, ◌≡◌, refl,
}
use sweetcomb.Callback.{Env, M, next}
use sweetcomb.Vom.{Vom}
use sweetcomb.Interface.{Builder, build as ietf_build}

-- The constructor leaves `m_state` as the memory has it.
unfoldable pub new_builder : Bool → Builder
new_builder garbage = record { m_name = codes ""; m_type = codes ""; m_state = garbage }

unfoldable pub set_name : Text → Builder → Builder
set_name n b = record b { m_name = n }

unfoldable pub set_type : Text → Builder → Builder
set_type t b =
    if text_eq t (codes "iana-if-type:ethernetCsmacd")
    then record b { m_type = codes "ETHERNET" }
    else b

unfoldable pub set_state : Bool → Builder → Builder
set_state enable b = record b { m_state = enable }

abbrev pub name : Builder → Text
name b = b.m_name

module _ {W I P A : Type 0} (V : Vom W I P A) where
  -- `none` is `nullptr`.
  unfoldable pub build : Builder → M W (Option I)
  build b s =
      if is_empty b.m_name || is_empty b.m_type
      then (next none, s)
      else let made = V.make_interface b.m_name b.m_type b.m_state s.om in
        (next (some made.0), record s { om = made.1 })

  -- The two classes build alike.
  pub build-ietf : (b : Builder) (s : Env W) → build b s ≡ ietf_build V b s
  unfolding build ietf_build
  build-ietf b s = refl
