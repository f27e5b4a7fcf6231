-- ===== src/Interface/Changes.antt =====
-- Lists of changes, and what they hold by node name: a description of a change set that does not
-- follow the callbacks' loops.
pub mod Order
use mathlib.Core.Bool.{false≢true}
use sweetcomb.Prelude.{
  Bool, true, false, Text, text_eq, Option, none, some, List, [], ◌∷◌, ◌++◌, map, ◌||◌, ◌&&◌,
  if◌then◌else◌, ◌≡◌, sym, ◌∙◌, Bool-cases, Option-cases, inl, inr, text_eq_refl, arith,
}
use sweetcomb.Sysrepo.{Val, Change, Sysrepo, NamesNodes, created, deleted}

abbrev pub creation : Val → Change
creation v = record { oper = created; old_val = none; new_val = some v }

abbrev pub deletion : Val → Change
deletion v = record { oper = deleted; old_val = some v; new_val = none }

-- Nodes that are created (`true`) or deleted, in any order.
abbrev pub Edits : Type 0
Edits = List (Bool × Val)

abbrev pub change_of : Bool × Val → Change
change_of (true, v) = creation v
change_of (false, v) = deletion v

-- The values of all nodes, of those created and of those deleted.
unfoldable pub edited : Edits → List Val
edited [] = []
edited ((b, v) ∷ es) = v ∷ edited es

unfoldable pub created_in : Edits → List Val
created_in [] = []
created_in ((true, v) ∷ es) = v ∷ created_in es
created_in ((false, v) ∷ es) = created_in es

unfoldable pub deleted_in : Edits → List Val
deleted_in [] = []
deleted_in ((true, v) ∷ es) = deleted_in es
deleted_in ((false, v) ∷ es) = v ∷ deleted_in es

-- The created nodes before the deleted ones, or behind them.
abbrev pub mixed : Bool → List Val → List Val → List Change
mixed true vs us = map creation vs ++ map deletion us
mixed false vs us = map deletion us ++ map creation vs

-- The last value whose node has the name.
unfoldable pub last_val : Sysrepo → Text → List Val → Option Val
last_val R n [] = none
last_val R n (v ∷ vs) = elim (last_val R n vs) [
  | some w ↦ some w
  | none ↦ if R.node_name_eq v.xpath n then some v else none
]

-- Some node has the name.
unfoldable pub has_node : Sysrepo → Text → List Val → Bool
has_node R n [] = false
has_node R n (v ∷ vs) = R.node_name_eq v.xpath n || has_node R n vs

-- Some node of the name has the value.
unfoldable pub has_value : Sysrepo → Text → Text → List Val → Bool
has_value R n t [] = false
has_value R n t (v ∷ vs) =
    (R.node_name_eq v.xpath n && text_eq v.string_val t) || has_value R n t vs

-- What `f` reads in the last node of the name, or the default.
abbrev pub last_or {ℓ} : {A : Type ℓ} → (Val → A) → Option Val → A → A
last_or f none d = d
last_or f (some v) d = f v

-- A node that has one name has no other.
pub exclusive :
    (R : Sysrepo) (N : NamesNodes R) (x a b : Text)
    → text_eq a b ≡ false
    → R.node_name_eq x a ≡ true
    → R.node_name_eq x b ≡ false
exclusive R N x a b d h = elim (Bool-cases (R.node_name_eq x b)) [
  | inl e ↦
      let same : text_eq a b ≡ true = rw (N.one_name x a b h e) (text_eq_refl b) in
      absurd (false≢true (sym d ∙ same))
  | inr e ↦ e
]

-- One more node in front of a list.
pub last_or-cons {ℓ} :
    {X : Type ℓ} (f : Val → X) (R : Sysrepo) (n : Text) (v : Val) (vs : List Val) (d : X)
    → last_or f (last_val R n vs) (if R.node_name_eq v.xpath n then f v else d)
      ≡ last_or f (last_val R n (v ∷ vs)) d
unfolding last_val
last_or-cons f R n v vs d = ground arith

pub has_node-cons :
    (R : Sysrepo) (n : Text) (v : Val) (vs : List Val) (b : Bool)
    → (has_node R n vs || (R.node_name_eq v.xpath n || b)) ≡ (has_node R n (v ∷ vs) || b)
unfolding has_node
has_node-cons R n v vs b = ground arith

pub last_val-has_node :
    (R : Sysrepo) (n : Text) (vs : List Val) {v : Val}
    → last_val R n vs ≡ some v
    → has_node R n vs ≡ true
unfolding last_val has_node
last_val-has_node R n [] h = cc
last_val-has_node R n (u ∷ vs) h = elim (Option-cases (last_val R n vs)) [
  | inl e ↦ ground arith
  | inr (w, e) ↦ rw (last_val-has_node R n vs e) (ground arith)
]
