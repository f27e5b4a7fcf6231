-- ===== src/Nat/Config/Loop.antt =====
-- What the loop of `nat_mapping_table_config_cb` collects from created nodes.
use sweetcomb.Prelude.{
  Bool, true, false, not, Text, codes, List, [], ◌∷◌, map, ◌||◌, if◌then◌else◌, ◌≡◌, refl, ◌∙◌, ap,
  All, text_eq, Bool-cases, inl, inr, arith,
}
use sweetcomb.Prelude.Outcome.{value}
use sweetcomb.Sysrepo.{Val, Sysrepo, NamesNodes}
use sweetcomb.Callback.{Env, next}
use sweetcomb.SysUtil.{Addresses}
use sweetcomb.SysUtil.Prefix.{Prefix, make_prefix, default_prefix}
use sweetcomb.Interface.Changes.{
  creation, deletion, last_val, has_node, last_or, exclusive, last_or-cons, has_node-cons,
}
use sweetcomb.Nat.Builder.{
  set_type, set_internal_src, set_external_src, set_internal_dest, set_external_dest,
}
use sweetcomb.Nat.Config.{NatLocals, nat_created, nat_deleted, nat_change, nat_loop}

module _ {A : Type 0} (B : Addresses A) where
  -- The text is a prefix.
  abbrev pub is_prefix : Text → Bool
  is_prefix s = elim (make_prefix B s) [ value p ↦ true | _ ↦ false ]

  -- The prefix that the text stands for, if it is one.
  abbrev pub prefix_of : Text → Prefix A
  prefix_of s = elim (make_prefix B s) [ value p ↦ p | _ ↦ default_prefix B 0 ]

module _ {A : Type 0} (R : Sysrepo) (B : Addresses A) where
  abbrev pub is_address_node : Val → Bool
  is_address_node v =
      R.node_name_eq v.xpath (codes "internal-src-address")
      || (R.node_name_eq v.xpath (codes "external-src-address")
          || (R.node_name_eq v.xpath (codes "internal-dst-address")
              || R.node_name_eq v.xpath (codes "external-dst-address")))

  -- An address node holds a prefix.
  abbrev pub IsReadable : Val → Type 0
  IsReadable v = (not (is_address_node v) || is_prefix B v.string_val) ≡ true

  -- The prefix of the last node with the name.
  abbrev pub last_prefix : Text → List Val → Prefix A → Prefix A
  last_prefix n vs = last_or (λ v. prefix_of B v.string_val) (last_val R n vs)

  -- The variables after a set of created nodes: the last index, type and addresses, and whether
  -- there was an index.
  abbrev pub nat_collected : NatLocals A → List Val → NatLocals A
  nat_collected l vs = record l {
    builder = record l.builder {
      m_type = last_or (λ v. v.string_val) (last_val R (codes "type") vs) l.builder.m_type;
      m_internal_src = last_prefix (codes "internal-src-address") vs l.builder.m_internal_src;
      m_external_src = last_prefix (codes "external-src-address") vs l.builder.m_external_src;
      m_internal_dest = last_prefix (codes "internal-dst-address") vs l.builder.m_internal_dest;
      m_external_dest = last_prefix (codes "external-dst-address") vs l.builder.m_external_dest;
    };
    xindex = last_or (λ v. v.uint32_val) (last_val R (codes "index") vs) l.xindex;
    create = has_node R (codes "index") vs || l.create;
  }

  abbrev if_node {ℓ} : {X : Type ℓ} → Text → Val → X → X → X
  if_node n v x y = if R.node_name_eq v.xpath n then x else y

  -- One created node, field by field.
  abbrev pub absorb : NatLocals A → Val → NatLocals A
  absorb l v = record l {
    builder = record l.builder {
      m_type = if_node (codes "type") v v.string_val l.builder.m_type;
      m_internal_src =
          if_node (codes "internal-src-address") v (prefix_of B v.string_val)
            l.builder.m_internal_src;
      m_external_src =
          if_node (codes "external-src-address") v (prefix_of B v.string_val)
            l.builder.m_external_src;
      m_internal_dest =
          if_node (codes "internal-dst-address") v (prefix_of B v.string_val)
            l.builder.m_internal_dest;
      m_external_dest =
          if_node (codes "external-dst-address") v (prefix_of B v.string_val)
            l.builder.m_external_dest;
    };
    xindex = if_node (codes "index") v v.uint32_val l.xindex;
    create = R.node_name_eq v.xpath (codes "index") || l.create;
  }

  pub nat_collected_step :
      (l : NatLocals A) (v : Val) (vs : List Val)
      → nat_collected (absorb l v) vs ≡ nat_collected l (v ∷ vs)
  nat_collected_step l v vs = rw (
    last_or-cons (λ u. u.string_val) R (codes "type") v vs l.builder.m_type,
    last_or-cons (λ u. prefix_of B u.string_val) R (codes "internal-src-address") v vs
        l.builder.m_internal_src,
    last_or-cons (λ u. prefix_of B u.string_val) R (codes "external-src-address") v vs
        l.builder.m_external_src,
    last_or-cons (λ u. prefix_of B u.string_val) R (codes "internal-dst-address") v vs
        l.builder.m_internal_dest,
    last_or-cons (λ u. prefix_of B u.string_val) R (codes "external-dst-address") v vs
        l.builder.m_external_dest,
    last_or-cons (λ u. u.uint32_val) R (codes "index") v vs l.xindex,
    has_node-cons R (codes "index") v vs l.create,
  )

  -- The node's name decides which variable is written.
  pub nat_created-absorb :
      (l : NatLocals A) (v : Val)
      → NamesNodes R
      → IsReadable v
      → nat_created R B l v ≡ value (absorb l v)
  unfolding nat_created set_type set_internal_src set_external_src set_internal_dest
      set_external_dest text_eq
  nat_created-absorb l v N h = elim (Bool-cases (R.node_name_eq v.xpath (codes "index"))) [
    | inl y ↦ ground (
      arith,
      y,
      exclusive R N v.xpath (codes "index") (codes "type") refl y,
      exclusive R N v.xpath (codes "index") (codes "internal-src-address") refl y,
      exclusive R N v.xpath (codes "index") (codes "external-src-address") refl y,
      exclusive R N v.xpath (codes "index") (codes "internal-dst-address") refl y,
      exclusive R N v.xpath (codes "index") (codes "external-dst-address") refl y,
    )
    | inr n0 ↦ elim (Bool-cases (R.node_name_eq v.xpath (codes "type"))) [
      | inl y ↦ ground (
        arith,
        n0,
        y,
        exclusive R N v.xpath (codes "type") (codes "internal-src-address") refl y,
        exclusive R N v.xpath (codes "type") (codes "external-src-address") refl y,
        exclusive R N v.xpath (codes "type") (codes "internal-dst-address") refl y,
        exclusive R N v.xpath (codes "type") (codes "external-dst-address") refl y,
      )
      | inr n1 ↦ elim (Bool-cases (R.node_name_eq v.xpath (codes "internal-src-address"))) [
        | inl y ↦ ground (
          arith,
          n0,
          n1,
          y,
          exclusive R N v.xpath (codes "internal-src-address") (codes "external-src-address") refl
              y,
          exclusive R N v.xpath (codes "internal-src-address") (codes "internal-dst-address") refl
              y,
          exclusive R N v.xpath (codes "internal-src-address") (codes "external-dst-address") refl
              y,
        )
        | inr n2 ↦ elim (Bool-cases (R.node_name_eq v.xpath (codes "external-src-address"))) [
          | inl y ↦ ground (
            arith,
            n0,
            n1,
            n2,
            y,
            exclusive R N v.xpath (codes "external-src-address") (codes "internal-dst-address") refl
                y,
            exclusive R N v.xpath (codes "external-src-address") (codes "external-dst-address") refl
                y,
          )
          | inr n3 ↦ elim (Bool-cases (R.node_name_eq v.xpath (codes "internal-dst-address"))) [
            | inl y ↦ ground (
              arith,
              n0,
              n1,
              n2,
              n3,
              y,
              exclusive R N v.xpath (codes "internal-dst-address") (codes "external-dst-address")
                  refl y,
            )
            | inr n4 ↦ elim (Bool-cases (R.node_name_eq v.xpath (codes "external-dst-address"))) [
              | inl y ↦ ground (arith, n0, n1, n2, n3, n4, y)
              | inr n5 ↦ ground (arith, n0, n1, n2, n3, n4, n5)
            ]
          ]
        ]
      ]
    ]
  ]

  -- The variables after a set of deleted nodes.
  abbrev pub nat_removed : NatLocals A → List Val → NatLocals A
  nat_removed l vs = record l {
    xindex = last_or (λ v. v.uint32_val) (last_val R (codes "index") vs) l.xindex;
    remove = has_node R (codes "index") vs || l.remove;
  }

  nat_removed_step :
      (l : NatLocals A) (v : Val) (vs : List Val)
      → nat_removed (nat_deleted R B l v) vs ≡ nat_removed l (v ∷ vs)
  unfolding nat_deleted last_val has_node
  nat_removed_step l v vs = ground arith

module _ {S A : Type 0} (R : Sysrepo) (B : Addresses A) where
  pub nat_loop-created :
      (l : NatLocals A) (vs : List Val) (s : Env S)
      → NamesNodes R
      → All (IsReadable R B) vs
      → nat_loop R B l (map creation vs) s ≡ (next (nat_collected R B l vs), s)
  unfolding nat_loop nat_change last_val has_node
  nat_loop-created l [] s N h = refl
  nat_loop-created l (v ∷ vs) s N h = rw (nat_created-absorb R B l v N h.0) (
      nat_loop-created (absorb R B l v) vs s N h.1
      ∙ ap (λ l'. (next l', s)) (nat_collected_step R B l v vs))

  pub nat_loop-deleted :
      (l : NatLocals A) (vs : List Val) (s : Env S)
      → nat_loop R B l (map deletion vs) s ≡ (next (nat_removed R B l vs), s)
  unfolding nat_loop nat_change last_val has_node
  nat_loop-deleted l [] s = refl
  nat_loop-deleted l (v ∷ vs) s =
      nat_loop-deleted (nat_deleted R B l v) vs s
      ∙ ap (λ l'. (next l', s)) (nat_removed_step R B l v vs)
