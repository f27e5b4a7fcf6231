-- ===== src/Examples/Order.antt =====
-- The same nodes in two orders.
use sweetcomb.Prelude.{true, false, codes, text_eq, [], ◌∷◌, map, ◌≡◌, refl, arith}
use mathlib.Core.List.{Permᴰ}
use sweetcomb.Sysrepo.{
  verify, string_t, enum_t, uint32_t, identityref_t, bool_t, Val, Sysrepo, NamesNodes,
}
use sweetcomb.Interface.Changes.{Edits, change_of, edited, created_in}
use sweetcomb.Interface.Changes.Order.{times}
use sweetcomb.Interface.Create.{Garbage, ietf_interface_create_cb}
use sweetcomb.Interface.Create.Order.{ietf_interface_create_cb-perm}
use sweetcomb.Nat.Config.Order.{IsOneMapping}
use sweetcomb.Examples.World.{node_of, two_change_sets, two_change_sets-NamesNodes, log_vom, val}

abbrev two_sets : Edits → Edits → Sysrepo
two_sets es fs = two_change_sets (map change_of es) (map change_of fs)

two_sets-NamesNodes : (es fs : Edits) → NamesNodes (two_sets es fs)
two_sets-NamesNodes es fs = two_change_sets-NamesNodes (map change_of es) (map change_of fs)

abbrev name : Val
name = val (codes "interface/name") string_t (codes "eth1") 0 false

abbrev ethernet : Val
ethernet = val (codes "interface/type") identityref_t (codes "iana-if-type:ethernetCsmacd") 0 false

abbrev enabled : Val
enabled = val (codes "interface/enabled") bool_t [] 0 true

abbrev name_first : Edits
name_first = (true, name) ∷ (true, ethernet) ∷ (true, enabled) ∷ []

abbrev type_first : Edits
type_first = (true, ethernet) ∷ (true, name) ∷ (true, enabled) ∷ []

abbrev calm : Garbage
calm = record { create = false; remove = false; modify = false; m_state = false }

ietf_interface_create_cb-perm_example :
    ietf_interface_create_cb (two_sets name_first type_first) log_vom (codes "first") verify calm []
    ≡ ietf_interface_create_cb
        (two_sets name_first type_first)
        log_vom
        (codes "second")
        verify
        calm
        []
unfolding times edited created_in node_of text_eq
ietf_interface_create_cb-perm_example =
    ietf_interface_create_cb-perm (two_sets name_first type_first) log_vom (codes "first")
      (codes "second") calm [] name_first type_first (two_sets-NamesNodes name_first type_first)
      refl refl refl refl (Permᴰ.swap refl refl) (omega arith) (omega arith)

abbrev index : Val
index = val (codes "mapping-entry/index") uint32_t [] 7 false

abbrev static : Val
static = val (codes "mapping-entry/type") enum_t (codes "static") 0 false

abbrev internal : Val
internal = val (codes "mapping-entry/internal-src-address") string_t (codes "10.0.0.1/32") 0 false

abbrev external : Val
external = val (codes "mapping-entry/external-src-address") string_t (codes "5.0.0.1/32") 0 false

abbrev index_first : Edits
index_first = (true, index) ∷ (true, static) ∷ (true, internal) ∷ (true, external) ∷ []

abbrev static_first : Edits
static_first = (true, static) ∷ (true, index) ∷ (true, internal) ∷ (true, external) ∷ []

index_first-IsOneMapping : IsOneMapping (two_sets index_first static_first) index_first
unfolding times edited created_in node_of text_eq
index_first-IsOneMapping = record {
  index = omega arith;
  type = omega arith;
  internal = omega arith;
  external = omega arith;
}
