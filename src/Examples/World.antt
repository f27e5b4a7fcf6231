-- ===== src/Examples/World.antt =====
-- Small stand-ins for sysrepo, VOM and Boost, by which the theorems are tried out.
use sweetcomb.Prelude.{
  ℕ, Bool, true, false, Text, codes, text_eq, text_eq_iff, some, List, [], ◌∷◌, ◌++◌, ◌==◌,
  if◌then◌else◌, ◌∙◌, sym,
}
use sweetcomb.Decimal.{show}
use sweetcomb.Sysrepo.{ok, SrType, Val, Change, Sysrepo, NamesNodes}
use sweetcomb.Vom.{Vom}
use sweetcomb.SysUtil.{Addresses, Quad}

-- The part of an xpath behind its last slash.
unfoldable pub node_of : Text → Text → Text
node_of acc [] = acc
node_of acc (c ∷ s) = node_of (if c == b'/' then [] else acc ++ (c ∷ [])) s

abbrev pub sysrepo_with : List Change → Sysrepo
sysrepo_with cs = record {
  node_name_eq = λ x n. text_eq (node_of [] x) n;
  key_value = λ x l k. some (codes "eth0");
  get_changes_iter = λ x. ok;
  changes = λ x. cs;
  new_values = λ n. ok;
}

pub sysrepo_with-NamesNodes : (cs : List Change) → NamesNodes (sysrepo_with cs)
sysrepo_with-NamesNodes cs = record {
  one_name =
      λ x a b h k. sym ((text_eq_iff (node_of [] x) a).0 h) ∙ (text_eq_iff (node_of [] x) b).0 k;
}

-- The xpath "first" has the one change set, and any other has the other.
abbrev pub two_change_sets : List Change → List Change → Sysrepo
two_change_sets cs ds = record (sysrepo_with []) {
  changes = λ x. if text_eq x (codes "first") then cs else ds;
}

pub two_change_sets-NamesNodes : (cs ds : List Change) → NamesNodes (two_change_sets cs ds)
two_change_sets-NamesNodes cs ds = record { one_name = (sysrepo_with-NamesNodes []).one_name }

-- The state is the list of the keys written and removed, the last first.
abbrev pub log_vom : Vom (List Text) Text (Text × ℕ) Text
log_vom = record {
  find = λ n w. some n;
  make_interface = λ n t b w. (n, w);
  set_state = λ i b w. w;
  key = λ i. i;
  name = λ i. i;
  make_prefix = λ a p. some (a, p);
  prefix_to_string = λ p. p.0 ++ b'/' ∷ show p.1;
  write = λ k o w. (true, k ∷ w);
  remove = λ k w. (b'-' ∷ k) ∷ w;
}

-- Addresses are their texts, IPv4 all of them; `inet_pton` reads the bytes given.
abbrev pub texts_as_addresses : Quad → Addresses Text
texts_as_addresses q = record {
  from_string = λ s. some s;
  to_string = λ a. a;
  is_v4 = λ a. true;
  is_v6 = λ a. false;
  default = codes "0.0.0.0";
  inet_pton4 = λ s. some q;
  inet_pton6 = λ s. false;
}

abbrev pub quad_255_255_240_0 : Quad
quad_255_255_240_0 = record { b0 = 255; b1 = 255; b2 = 240; b3 = 0 }

-- A value with a text, a number and a truth value.
abbrev pub val : Text → SrType → Text → ℕ → Bool → Val
val x t s n b = record {
  xpath = x;
  val_type = t;
  string_val = s;
  bool_val = b;
  uint8_val = n;
  uint32_val = n;
}
