-- ===== src/Handlers/Collision.antt =====
-- An interface whose name is the text of a number, and the mapping of that index: both are objects
-- of VOM under the same key.
use sweetcomb.Prelude.{
  ◌≡◌, refl, sym, ap, subst, ◌==◌, ◌∙◌, true, false, Text, codes, text_eq, some, List, map, All,
  inl, inr, arith,
}
use sweetcomb.Prelude.Outcome.{Outcome, value}
use sweetcomb.Decimal.{show}
use sweetcomb.Sysrepo.{SrError, ok, verify, Val, Sysrepo, NamesNodes}
use sweetcomb.Vom.{Vom, Obj, nat_obj, KeepsObjects}
use sweetcomb.SysUtil.{Addresses}
use sweetcomb.Interface.Changes.{creation, deletion, last_val, last_or}
use sweetcomb.Interface.Create.{Garbage, ietf_interface_create_cb}
use sweetcomb.Interface.Create.Laws.{ietf_interface_create_cb_deletes}
use sweetcomb.Interface.Address.Clears.{Forgets}
use sweetcomb.Interface.Address.Roundtrip.{AddsOne}
use sweetcomb.Callback.{freed}
use sweetcomb.Nat.Config.{NatState, NatGarbage, table_set, nat_mapping_table_config_cb}
use sweetcomb.Nat.Config.Loop.{IsReadable}
use sweetcomb.Nat.Config.Laws.{source_address, nat_mapping_table_config_cb_creates}
use sweetcomb.Handlers.{calls_interface_create, calls_nat_mapping_table, with_table, handle}

module _ {W I P A : Type 0} (B : Addresses A) (V : Vom W I P A) where
  handled_mapping :
      (R : Sysrepo) (x : Text) (g : NatGarbage) (st st' : NatState W A) (rc : Outcome SrError)
      → nat_mapping_table_config_cb B V R true (some x) verify g st
        ≡ (rc, record { om = st'; iter = freed })
      → handle B V (calls_nat_mapping_table R true (some x) verify g) st ≡ (rc, st')
  unfolding handle
  handled_mapping R x g st st' rc e = ap (λ r. (r.0, r.1.om)) e

  handled_interface :
      (Q : Sysrepo) (y : Text) (c : Garbage) (st : NatState W A) (rc : Outcome SrError) (w : W)
      → ietf_interface_create_cb Q V y verify c st.vom ≡ (rc, record { om = w; iter = freed })
      → handle B V (calls_interface_create Q y verify c) st ≡ (rc, record st { vom = w })
  unfolding handle
  handled_interface Q y c st rc w e = ap (with_table B V st) e

module _ {W I P A : Type 0} (B : Addresses A) (V : Vom W I P A)
    (Holds : W → Text → Obj I P A → Type 0) (F : Forgets V Holds) (G : AddsOne V Holds) where
  Unheld-remove_written :
      (n k : Text) (o : Obj I P A) (w : W)
      → ¬ Holds w k o
      → ¬ Holds (V.remove n (V.write n o w).1) k o
  Unheld-remove_written n k o w fresh h =
      elim (G.newer n k o o w (F.older n k o (V.write n o w).1 h)) [
        | inl same ↦
            F.gone n o (V.write n o w).1
              (subst (λ j. Holds (V.remove n (V.write n o w).1) j o) (sym same) h)
        | inr before ↦ fresh before
      ]

  -- If VOM's writes succeed, take nothing away and add at most the object written, VOM keeps what is
  -- written until its own key is removed, and holds nothing under a key that has just been removed,
  -- and a removal adds nothing: on SR_EV_VERIFY, when the change iterators can be had, an xpath of
  -- the mapping's nodes has one node name, and `create` and `modify`, which the callback for
  -- interfaces never initialises, are false on entry to it: the NAT callback on a set of created
  -- nodes with an index, whose last type is "static" and whose address nodes hold prefixes, and
  -- then the callback for interfaces on a set of deleted nodes whose last name is the decimal text
  -- of that index. Both succeed. After the first, VOM holds the mapping under that text; after the
  -- second, it holds it under no key under which it did not hold it before the first, although
  -- the table of mappings keeps it.
  pub handle_drops_mapping :
      (R Q : Sysrepo) (x y : Text) (g : NatGarbage) (c : Garbage) (st : NatState W A)
      (vs us : List Val) (v u : Val) (a b : A) (k : Text)
      → KeepsObjects V Holds
      → ((j : Text) (o : Obj I P A) (w : W) → (V.write j o w).0 ≡ true)
      → NamesNodes R
      → R.get_changes_iter x ≡ ok
      → All (IsReadable R B) vs
      → R.changes x ≡ map creation vs
      → last_val R (codes "index") vs ≡ some v
      → text_eq
          (last_or (λ t. t.string_val) (last_val R (codes "type") vs) (codes ""))
          (codes "static")
        ≡ true
      → source_address R B V (codes "internal-src-address") vs g.internal_src_len ≡ a
      → source_address R B V (codes "external-src-address") vs g.external_src_len ≡ b
      → Q.get_changes_iter y ≡ ok
      → Q.changes y ≡ map deletion us
      → last_val Q (codes "name") us ≡ some u
      → u.string_val ≡ show v.uint32_val
      → c.create ≡ false
      → c.modify ≡ false
      → ¬ Holds st.vom k (nat_obj a b)
      → (let r = handle B V (calls_nat_mapping_table R true (some x) verify g) st in
          let r' = handle B V (calls_interface_create Q y verify c) r.1 in
          (r.0 ≡ value ok)
          × Holds r.1.vom (show v.uint32_val) (nat_obj a b)
          × (r'.0 ≡ value ok)
          × (r'.1.static_mapping_table v.uint32_val ≡ some (a, b))
          × ¬ Holds r'.1.vom k (nat_obj a b))
  handle_drops_mapping R Q x y g c st vs us v u a b k K succeeds N got readable set indexed typed
        inside outside got' set' named same no_create no_modify fresh =
      let i = v.uint32_val in
      let done = succeeds (show i) (nat_obj a b) st.vom in
      let written = (V.write (show i) (nat_obj a b) st.vom).1 in
      let st' : NatState W A = record {
        vom = written;
        static_mapping_table = table_set st.static_mapping_table i (some (a, b));
      } in
      let creates : nat_mapping_table_config_cb B V R true (some x) verify g st
          ≡ (value ok, record { om = st'; iter = freed }) =
        nat_mapping_table_config_cb_creates R B V x g st vs v N got readable set indexed typed
        ∙ rw (inside, outside, done) refl in
      let deletes : ietf_interface_create_cb Q V y verify c written
          ≡ (value ok, record { om = V.remove (show i) written; iter = freed }) =
        ietf_interface_create_cb_deletes Q V y c written us u got' set' named
        ∙ rw (no_create, no_modify, same) refl in
      let first : handle B V (calls_nat_mapping_table R true (some x) verify g) st
          ≡ (value ok, st') =
        handled_mapping B V R x g st st' (value ok) creates in
      let second : handle B V (calls_interface_create Q y verify c) st'
          ≡ (value ok, record st' { vom = V.remove (show i) written }) =
        handled_interface B V Q y c st' (value ok) (V.remove (show i) written) deletes in
      let itself : (i == i) ≡ true = ground arith in
      rw (first, second, itself)
        (
          refl,
          K.written (show i) (nat_obj a b) st.vom done,
          refl,
          refl,
          Unheld-remove_written (show i) k (nat_obj a b) st.vom fresh,
        )
