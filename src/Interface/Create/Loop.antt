-- ===== src/Interface/Create/Loop.antt =====
-- What the loop of `ietf_interface_create_cb` collects.
use sweetcomb.Prelude.{
  false, codes, text_eq, List, [], ◌∷◌, map, ◌||◌, if◌then◌else◌, ◌≡◌, refl, ◌∙◌, text_eq_iff,
  arith, ap,
}
use sweetcomb.Sysrepo.{Val, Sysrepo, NamesNodes}
use sweetcomb.Callback.{Env, next}
use sweetcomb.Vom.{Vom}
use sweetcomb.Interface.{set_name, set_type, set_state}
use sweetcomb.Interface.Changes.{
  creation, deletion, last_val, has_node, has_value, last_or, exclusive,
}
use sweetcomb.Interface.Create.{Locals, on_created, on_deleted, on_change, loop}

-- The variables after a set of created nodes: the last name, type and state of each kind, and
-- whether there was a name.
abbrev pub collected : {I : Type 0} → Sysrepo → Locals I → List Val → Locals I
collected R l vs = record l {
  builder = record {
    m_name = last_or (λ v. v.string_val) (last_val R (codes "name") vs) l.builder.m_name;
    m_type =
        if has_value R (codes "type") (codes "iana-if-type:ethernetCsmacd") vs
        then codes "ETHERNET"
        else l.builder.m_type;
    m_state = last_or (λ v. v.bool_val) (last_val R (codes "enabled") vs) l.builder.m_state;
  };
  create = has_node R (codes "name") vs || l.create;
}

pub name_not_type : text_eq (codes "name") (codes "type") ≡ false
unfolding text_eq
name_not_type = refl

pub name_not_enabled : text_eq (codes "name") (codes "enabled") ≡ false
unfolding text_eq
name_not_enabled = refl

pub type_not_enabled : text_eq (codes "type") (codes "enabled") ≡ false
unfolding text_eq
type_not_enabled = refl

module _ {I : Type 0} (R : Sysrepo) (N : NamesNodes R) where
  collected_step :
      (l : Locals I) (v : Val) (vs : List Val)
      → collected R (on_created R l v) vs ≡ collected R l (v ∷ vs)
  unfolding on_created set_name set_type set_state last_val has_node has_value
  collected_step l v vs = ground (
    arith,
    exclusive R N v.xpath (codes "name") (codes "type") name_not_type,
    exclusive R N v.xpath (codes "name") (codes "enabled") name_not_enabled,
    exclusive R N v.xpath (codes "type") (codes "enabled") type_not_enabled,
    text_eq_iff v.string_val (codes "iana-if-type:ethernetCsmacd"),
  )

module _ {W I P A : Type 0} (R : Sysrepo) (N : NamesNodes R) (V : Vom W I P A) where
  pub loop-created :
      (l : Locals I) (vs : List Val) (s : Env W)
      → loop R V l (map creation vs) s ≡ (next (collected R l vs), s)
  unfolding loop on_change last_val has_node has_value
  loop-created l [] s = refl
  loop-created l (v ∷ vs) s =
      loop-created (on_created R l v) vs s ∙ ap (λ l'. (next l', s)) (collected_step R N l v vs)

-- The variables after a set of deleted nodes.
abbrev pub removed : {I : Type 0} → Sysrepo → Locals I → List Val → Locals I
removed R l vs = record l {
  builder = record l.builder {
    m_name = last_or (λ v. v.string_val) (last_val R (codes "name") vs) l.builder.m_name;
  };
  remove = has_node R (codes "name") vs || l.remove;
}

removed_step :
    {I : Type 0} (R : Sysrepo) (l : Locals I) (v : Val) (vs : List Val)
    → removed R (on_deleted R l v) vs ≡ removed R l (v ∷ vs)
unfolding on_deleted set_name last_val has_node
removed_step R l v vs = ground arith

module _ {W I P A : Type 0} (R : Sysrepo) (V : Vom W I P A) where
  pub loop-deleted :
      (l : Locals I) (vs : List Val) (s : Env W)
      → loop R V l (map deletion vs) s ≡ (next (removed R l vs), s)
  unfolding loop on_change last_val has_node
  loop-deleted l [] s = refl
  loop-deleted l (v ∷ vs) s =
      loop-deleted (on_deleted R l v) vs s ∙ ap (λ l'. (next l', s)) (removed_step R l v vs)
