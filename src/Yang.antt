-- ===== src/Yang.antt =====
-- The YANG models under src/plugins/yang, as far as the state callbacks answer their leaves: the
-- leaves' types, and the test by which a value is one of a leaf.
pub mod Laws
use sweetcomb.Prelude.{
  ℕ, Bool, true, false, Text, codes, text_eq, List, [], ◌∷◌, ◌++◌, ltb, leb, ◌==◌, ◌&&◌, ◌||◌, ◌^◌,
}
use sweetcomb.Prelude.Int.{ℤ, pos, negsuc}
use sweetcomb.Sysrepo.{SrType, string_t, enum_t, identityref_t}
use sweetcomb.State.Values.{
  Datum, str_data, bool_data, uint16_data, uint32_data, uint64_data, int32_data, Value,
}

pub data YangType : Type 0 where
  enumeration : List Text → YangType
  -- `int32` with a range
  int32_range : ℕ → ℕ → YangType
  -- `yang:gauge64`, `oc-types:timeticks64`
  uint64 : YangType
  uint32 uint16 boolean text : YangType
  phys_address date_and_time : YangType
  -- `identityref { base interface-type; }`
  interface_type : YangType

pub record Leaf : Type 0 where
  pub name : Text
  pub leaf_type : YangType

-- `[0-9a-fA-F]`
abbrev pub is_hex : ℕ → Bool
is_hex c = (leb b'0' c && leb c b'9') || (leb b'a' c && leb c b'f') || (leb b'A' c && leb c b'F')

-- `(:[0-9a-fA-F]{2})*`
unfoldable pub is_octets : Text → Bool
is_octets [] = true
is_octets (c ∷ a ∷ b ∷ s) = (c == b':') && (is_hex a && (is_hex b && is_octets s))
is_octets _ = false

-- `([0-9a-fA-F]{2}(:[0-9a-fA-F]{2})*)?`, the pattern of `phys-address`
unfoldable pub is_phys_address : Text → Bool
is_phys_address [] = true
is_phys_address (a ∷ b ∷ s) = is_hex a && (is_hex b && is_octets s)
is_phys_address _ = false

unfoldable pub is_one_of : Text → List Text → Bool
is_one_of t [] = false
is_one_of t (u ∷ us) = text_eq t u || is_one_of t us

-- The test for an identity that is derived from `interface-type`, and the pattern of a date, are the
-- YANG library's.
pub record YangLibrary : Type 0 where
  pub is_interface_type : Text → Bool
  pub is_date : Text → Bool

module _ (Y : YangLibrary) where
  unfoldable pub accepts : YangType → Datum → Bool
  accepts (enumeration names) (str_data enum_t t) = is_one_of t names
  accepts (int32_range low high) (int32_data (pos n)) = leb low n && leb n high
  accepts uint64 (uint64_data n) = ltb n (2 ^ 64)
  accepts uint32 (uint32_data n) = ltb n (2 ^ 32)
  accepts uint16 (uint16_data n) = ltb n (2 ^ 16)
  accepts boolean (bool_data b) = true
  accepts text (str_data string_t t) = true
  accepts phys_address (str_data string_t t) = is_phys_address t
  accepts date_and_time (str_data string_t t) = Y.is_date t
  accepts interface_type (str_data identityref_t t) = Y.is_interface_type t
  accepts _ _ = false

  -- The model has a leaf of the name, whose type the value has.
  unfoldable pub has_leaf : List Leaf → Text → Datum → Bool
  has_leaf [] n d = false
  has_leaf (l ∷ model) n d = (text_eq n l.name && accepts l.leaf_type d) || has_leaf model n d

  -- The value is one of a leaf of the node `root`.
  unfoldable pub is_leaf_of : List Leaf → Text → Value → Bool
  is_leaf_of [] root v = false
  is_leaf_of (l ∷ model) root v =
      (text_eq v.xpath (root ++ b'/' ∷ l.name) && accepts l.leaf_type v.datum)
      || is_leaf_of model root v

abbrev leaf : Text → YangType → Leaf
leaf n t = record { name = n; leaf_type = t }

-- The leaves of the list `interface` in `interfaces-state` of ietf-interfaces.
abbrev pub interfaces_state_interface : List Leaf
interfaces_state_interface =
    leaf (codes "name") text
    ∷ leaf (codes "type") interface_type
    ∷ leaf (codes "admin-status") (enumeration (codes "up" ∷ codes "down" ∷ codes "testing" ∷ []))
    ∷ leaf (codes "oper-status") (
        enumeration (
          codes "up"
          ∷ codes "down"
          ∷ codes "testing"
          ∷ codes "unknown"
          ∷ codes "dormant"
          ∷ codes "not-present"
          ∷ codes "lower-layer-down"
          ∷ []))
    ∷ leaf (codes "last-change") date_and_time
    ∷ leaf (codes "if-index") (int32_range 1 2147483647)
    ∷ leaf (codes "phys-address") phys_address
    ∷ leaf (codes "speed") uint64
    ∷ []

-- The groupings of openconfig-interfaces by which the container `state` of an interface is made.
abbrev interface_common_config : List Leaf
interface_common_config = leaf (codes "description") text ∷ leaf (codes "enabled") boolean ∷ []

abbrev interface_phys_config : List Leaf
interface_phys_config =
    leaf (codes "name") text
    ∷ leaf (codes "type") interface_type
    ∷ leaf (codes "mtu") uint16
    ∷ leaf (codes "loopback-mode") boolean
    ∷ interface_common_config

abbrev interface_common_state : List Leaf
interface_common_state =
    leaf (codes "ifindex") uint32
    ∷ leaf (codes "admin-status") (enumeration (codes "UP" ∷ codes "DOWN" ∷ codes "TESTING" ∷ []))
    ∷ leaf (codes "oper-status") (
        enumeration (
          codes "UP"
          ∷ codes "DOWN"
          ∷ codes "TESTING"
          ∷ codes "UNKNOWN"
          ∷ codes "DORMANT"
          ∷ codes "NOT_PRESENT"
          ∷ codes "LOWER_LAYER_DOWN"
          ∷ []))
    ∷ leaf (codes "last-change") uint64
    ∷ leaf (codes "logical") boolean
    ∷ []

-- The leaves of the container `state`; its counters are a container of their own.
abbrev pub interface_state : List Leaf
interface_state = interface_phys_config ++ interface_common_state

-- The leaves of the container `capabilities` of ietf-nat.
abbrev pub capabilities : List Leaf
capabilities =
    leaf (codes "restricted-port-support") boolean
    ∷ leaf (codes "static-mapping-support") boolean
    ∷ leaf (codes "port-randomization-support") boolean
    ∷ leaf (codes "port-range-allocation-support") boolean
    ∷ leaf (codes "port-preservation-suport") boolean
    ∷ leaf (codes "port-parity-preservation-support") boolean
    ∷ leaf (codes "address-roundrobin-support") boolean
    ∷ leaf (codes "paired-address-pooling-support") boolean
    ∷ leaf (codes "endpoint-independent-mapping-support") boolean
    ∷ leaf (codes "address-dependent-mapping-support") boolean
    ∷ leaf (codes "address-and-port-dependent-mapping-support") boolean
    ∷ leaf (codes "endpoint-independent-filtering-support") boolean
    ∷ leaf (codes "address-dependent-filtering") boolean
    ∷ leaf (codes "address-and-port-dependent-filtering") boolean
    ∷ leaf (codes "fragment-behavior")
        (enumeration (codes "unsupported" ∷ codes "in-order" ∷ codes "out-of-order" ∷ []))
    ∷ []
