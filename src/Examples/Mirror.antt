-- ===== src/Examples/Mirror.antt =====
-- A VOM that keeps its objects in a list, and one run of the NAT callback on it.
use sweetcomb.Prelude.{
  ◌≡◌, ◌≢◌, refl, sym, ◌∙◌, ◌⊎◌, inl, inr, true, false, Text, codes, text_eq, text_eq_iff, none,
  some, List, [], ◌∷◌, map, if◌then◌else◌, Bool-cases,
}
use sweetcomb.Prelude.Outcome.{Outcome}
use sweetcomb.Sysrepo.{SrError, verify, Sysrepo, Val, string_t, enum_t, uint32_t}
use sweetcomb.Vom.{Vom, Obj, KeepsObjects}
use sweetcomb.Interface.Changes.{creation}
use sweetcomb.Nat.Config.{NatState, NatGarbage, nat_mapping_table_config_cb}
use sweetcomb.Nat.Config.Laws.{writes_mapping, nat_mapping_table_config_cb_creates}
use sweetcomb.Interface.Changes.{last_val}
use sweetcomb.Callback.{Env}
use sweetcomb.SysUtil.{Addresses}
use sweetcomb.SysUtil.Prefix.{make_prefix, of_string, find_last_of, default_prefix}
use sweetcomb.Decimal.{stoi}
use sweetcomb.Examples.World.{
  sysrepo_with-NamesNodes, node_of, val, sysrepo_with, texts_as_addresses, quad_255_255_240_0,
}

abbrev pub Objects : Type 0
Objects = List (Text × Obj Text Text Text)

abbrev pub without_key : Text → Objects → Objects
without_key k [] = []
without_key k ((k', o) ∷ w) = if text_eq k' k then without_key k w else (k', o) ∷ without_key k w

abbrev pub HeldIn : Objects → Text → Obj Text Text Text → Type 0
HeldIn [] k o = ⊥
HeldIn ((k', o') ∷ w) k o = ((k' ≡ k) × (o' ≡ o)) ⊎ HeldIn w k o

abbrev pub list_vom : Vom Objects Text Text Text
list_vom = record {
  find = λ n w. none;
  make_interface = λ n t b w. (n, w);
  set_state = λ i b w. w;
  key = λ i. i;
  name = λ i. i;
  make_prefix = λ a p. some a;
  prefix_to_string = λ p. p;
  write = λ k o w. (true, (k, o) ∷ w);
  remove = without_key;
}

without_key-HeldIn :
    (k k' : Text) (o : Obj Text Text Text) (w : Objects)
    → k' ≢ k
    → HeldIn w k' o
    → HeldIn (without_key k w) k' o
without_key-HeldIn k k' o [] ne h = h
without_key-HeldIn k k' o ((j, p) ∷ w) ne (inl (e, f)) = elim (Bool-cases (text_eq j k)) [
  | inl same ↦ absurd (ne (sym e ∙ (text_eq_iff j k).0 same))
  | inr other ↦ rw other (inl (e, f))
]
without_key-HeldIn k k' o ((j, p) ∷ w) ne (inr h) = elim (Bool-cases (text_eq j k)) [
  | inl same ↦ rw same (without_key-HeldIn k k' o w ne h)
  | inr other ↦ rw other (inr (without_key-HeldIn k k' o w ne h))
]

pub list_vom-KeepsObjects : KeepsObjects list_vom HeldIn
list_vom-KeepsObjects = record {
  written = λ k o w e. inl (refl, refl);
  kept = λ k k' o o' w e h. inr h;
  spared = λ k k' o' w ne h. without_key-HeldIn k k' o' w ne h;
}

abbrev pub addresses : Addresses Text
addresses = texts_as_addresses quad_255_255_240_0

abbrev pub nodes : List Val
nodes =
    val (codes "mapping-entry/index") uint32_t [] 7 false
    ∷ val (codes "mapping-entry/type") enum_t (codes "static") 0 false
    ∷ val (codes "mapping-entry/internal-src-address") string_t (codes "10.0.0.1/32") 0 false
    ∷ val (codes "mapping-entry/external-src-address") string_t (codes "5.0.0.1/32") 0 false
    ∷ []

abbrev pub garbage : NatGarbage
garbage = record {
  xindex = 99;
  create = true;
  remove = false;
  internal_src_len = 0;
  external_src_len = 0;
  internal_dest_len = 0;
  external_dest_len = 0;
}

abbrev pub at_first : NatState Objects Text
at_first = record { vom = []; static_mapping_table = λ i. none }

abbrev pub creating : Sysrepo
creating = sysrepo_with (map creation nodes)

abbrev pub with_mapping : Outcome SrError × Env (NatState Objects Text)
with_mapping =
    nat_mapping_table_config_cb addresses list_vom creating true (some (codes "mapping-entry"))
      verify garbage at_first

pub mapping_created :
    with_mapping ≡ writes_mapping list_vom 7 (codes "10.0.0.1") (codes "5.0.0.1") at_first
unfolding last_val node_of text_eq make_prefix of_string find_last_of stoi default_prefix
mapping_created =
    nat_mapping_table_config_cb_creates creating addresses list_vom (codes "mapping-entry") garbage
      at_first nodes (val (codes "mapping-entry/index") uint32_t [] 7 false)
      (sysrepo_with-NamesNodes (map creation nodes)) refl (refl, (refl, (refl, (refl, tt)))) refl
      refl refl
