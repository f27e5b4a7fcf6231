-- ===== src/Examples/Handlers.antt =====
-- A mapping and an interface, on a VOM that keeps its objects in a list.
use sweetcomb.Prelude.{
  ◌≡◌, refl, ap, ◌∙◌, inl, inr, true, false, Text, codes, text_eq, some, [], ◌∷◌, map, All, subst,
  sym, arith,
}
use sweetcomb.Prelude.Outcome.{value}
use sweetcomb.Decimal.{show, stoi}
use sweetcomb.SysUtil.Prefix.{make_prefix, of_string, find_last_of, default_prefix}
use sweetcomb.Decimal.Roundtrip.{IsDigit, show-digits}
use sweetcomb.Interface.Frame.{FreeNames}
use sweetcomb.Sysrepo.{SrError, ok, verify, abort, string_t, uint32_t, Val, Sysrepo}
use sweetcomb.Vom.{nat_obj}
use sweetcomb.Interface.Changes.{creation, deletion, last_val}
use sweetcomb.Interface.Create.{Garbage}
use sweetcomb.Interface.Create.Laws.{ietf_interface_create_cb_deletes}
use sweetcomb.Nat.Config.{NatState}
use sweetcomb.Nat.Config.Laws.{writes_mapping}
use sweetcomb.Handlers.{Call, calls_interface_create, calls_nat_mapping_table, handle, handle_all}
use sweetcomb.Handlers.Mirror.{SparesObjects, IsNoNumber, handle_all-Mirrored}
use sweetcomb.Handlers.Events.{handle_ends}
use sweetcomb.Handlers.Collision.{handle_drops_mapping}
use sweetcomb.Examples.Searching.{list_vom-Forgets, list_vom-AddsOne}
use sweetcomb.Examples.World.{node_of, sysrepo_with, sysrepo_with-NamesNodes, val}
use sweetcomb.Examples.Mirror.{
  Objects, HeldIn, list_vom, list_vom-KeepsObjects, addresses, garbage, at_first, creating, nodes,
  mapping_created,
}

list_vom-SparesObjects : SparesObjects list_vom HeldIn
list_vom-SparesObjects = record {
  making = λ n t b w k o h. h;
  setting = λ i b w k o h. h;
  writing = λ k' o' w k o h. inr h;
}

abbrev name_of : Text → Val
name_of n = val (codes "interface/name") string_t n 0 false

abbrev deleting : Text → Sysrepo
deleting n = sysrepo_with (map deletion (name_of n ∷ []))

abbrev all_false : Garbage
all_false = record { create = false; remove = false; modify = false; m_state = false }

abbrev mapped : NatState Objects Text
mapped = (writes_mapping list_vom 7 (codes "10.0.0.1") (codes "5.0.0.1") at_first).1.om

abbrev creates_mapping : Call
creates_mapping =
    calls_nat_mapping_table creating true (some (codes "mapping-entry")) verify garbage

abbrev deletes_interface : Text → Call
deletes_interface n = calls_interface_create (deleting n) (codes "interface") verify all_false

handled_mapping : handle addresses list_vom creates_mapping at_first ≡ (value ok, mapped)
unfolding handle
handled_mapping = ap (λ r. (r.0, r.1.om)) mapping_created

handled_interface :
    handle addresses list_vom (deletes_interface (codes "eth0")) mapped ≡ (value ok, mapped)
unfolding handle last_val node_of text_eq show
handled_interface =
    rw
      (ietf_interface_create_cb_deletes (deleting (codes "eth0")) list_vom (codes "interface")
        all_false mapped.vom (name_of (codes "eth0") ∷ []) (name_of (codes "eth0")) refl refl refl)
      refl

eth0-IsNoNumber : IsNoNumber (codes "eth0")
eth0-IsNoNumber i e = let (low, high) = (subst (All IsDigit) e (show-digits i)).0 in omega arith

eth0-FreeNames : FreeNames (deleting (codes "eth0")) IsNoNumber (deletion (name_of (codes "eth0")))
eth0-FreeNames v (inl e) n i s = cc e
eth0-FreeNames v (inr e) n i s =
    let same : codes "eth0" ≡ v.string_val = cc e in eth0-IsNoNumber i (s ∙ sym same)

handle_all-Mirrored_example :
    HeldIn mapped.vom (show 7) (nat_obj (codes "10.0.0.1") (codes "5.0.0.1"))
unfolding handle_all
handle_all-Mirrored_example =
    handle_all-Mirrored addresses list_vom HeldIn list_vom-KeepsObjects list_vom-SparesObjects
      (creates_mapping ∷ deletes_interface (codes "eth0") ∷ []) [] mapped 7 (codes "10.0.0.1")
      (codes "5.0.0.1") (tt, ((eth0-FreeNames, tt), tt))
      (rw (handle_all, handled_mapping, handled_interface) refl) refl

handle_ends_example :
    (rc : SrError) × (handle addresses list_vom
        (calls_interface_create (deleting (codes "eth0")) (codes "interface") abort all_false)
        mapped
      ≡ (value rc, mapped))
handle_ends_example =
    handle_ends addresses list_vom
      (calls_interface_create (deleting (codes "eth0")) (codes "interface") abort all_false) mapped
      (inr refl)

handle_drops_mapping_example :
    (let r = handle addresses list_vom creates_mapping at_first in
      let r' = handle addresses list_vom (deletes_interface (codes "7")) r.1 in
      (r.0 ≡ value ok)
      × HeldIn r.1.vom (show 7) (nat_obj (codes "10.0.0.1") (codes "5.0.0.1"))
      × (r'.0 ≡ value ok)
      × (r'.1.static_mapping_table 7 ≡ some (codes "10.0.0.1", codes "5.0.0.1"))
      × ¬ HeldIn r'.1.vom (codes "7") (nat_obj (codes "10.0.0.1") (codes "5.0.0.1")))
unfolding last_val node_of text_eq show make_prefix of_string find_last_of stoi default_prefix
handle_drops_mapping_example =
    handle_drops_mapping addresses list_vom HeldIn list_vom-Forgets list_vom-AddsOne creating
      (deleting (codes "7")) (codes "mapping-entry") (codes "interface") garbage all_false at_first
      nodes (name_of (codes "7") ∷ []) (val (codes "mapping-entry/index") uint32_t [] 7 false)
      (name_of (codes "7")) (codes "10.0.0.1") (codes "5.0.0.1") (codes "7") list_vom-KeepsObjects
      (λ k o w. refl) (sysrepo_with-NamesNodes (map creation nodes)) refl
      (refl, (refl, (refl, (refl, tt)))) refl refl refl refl refl refl refl refl refl refl refl
      (λ h. h)
