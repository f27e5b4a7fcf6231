-- ===== src/Sysrepo.antt =====
-- What src/plugins uses of sysrepo 0.7: result codes, events, values and changes, and the calls
-- that a plugin makes, as a record of functions.
use sweetcomb.Prelude.{ℕ, Bool, true, false, Text, Option, List, ◌≡◌, refl}

-- `sr_error_t`: the codes that the plugin itself returns, and the rest by number.
pub data SrError : Type 0 where
  ok inval_arg nomem unsupported operation_failed disconnect : SrError
  other : ℕ → SrError

-- `rc == SR_ERR_OK`
abbrev pub is_ok : SrError → Bool
is_ok ok = true
is_ok _ = false

pub is_ok_eq : (rc : SrError) → is_ok rc ≡ true → rc ≡ ok
is_ok_eq ok h = refl
is_ok_eq inval_arg h = cc
is_ok_eq nomem h = cc
is_ok_eq unsupported h = cc
is_ok_eq operation_failed h = cc
is_ok_eq disconnect h = cc
is_ok_eq (other n) h = cc

-- `sr_notif_event_t`
pub data Event : Type 0 where
  verify apply abort enabled : Event

-- `sr_change_oper_t`
pub data Oper : Type 0 where
  created modified deleted moved : Oper

-- `sr_type_t`, as far as the plugin reads or writes it.
pub data SrType : Type 0 where
  list_t string_t enum_t identityref_t bool_t uint8_t uint16_t uint32_t uint64_t int32_t : SrType

-- `sr_val_t` as the callbacks read it: each field is the reading of one member of the union `data`.
pub record Val : Type 0 where
  pub xpath : Text
  pub val_type : SrType
  pub string_val : Text
  pub bool_val : Bool
  pub uint8_val : ℕ
  pub uint32_val : ℕ

-- What `sr_get_change_next` hands out; a null pointer is `none`.
pub record Change : Type 0 where
  pub oper : Oper
  pub old_val : Option Val
  pub new_val : Option Val

-- The calls of the library. `key_value` returns `none` for a null pointer.
pub record Sysrepo : Type 0 where
  pub node_name_eq : Text → Text → Bool
  pub key_value : Text → Text → Text → Option Text
  -- `sr_get_changes_iter` on an xpath, and the changes that the iterator then gives
  pub get_changes_iter : Text → SrError
  pub changes : Text → List Change
  -- `sr_new_values` for a number of values
  pub new_values : ℕ → SrError

-- An xpath has one node name.
pub record NamesNodes (R : Sysrepo) : Type 0 where
  pub one_name : (x a b : Text) → R.node_name_eq x a ≡ true → R.node_name_eq x b ≡ true → a ≡ b
