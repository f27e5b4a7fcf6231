-- ===== src/Handlers/Mirror.antt =====
-- The table of static mappings of src/plugins/ietf/ietf_nat.cpp among the other callbacks, which
-- write and remove objects of the same VOM.
use sweetcomb.Prelude.{ℕ, ◌≡◌, ◌≢◌, subst, Bool, Text, codes, none, some, List, [], ◌∷◌, All, arith}
use sweetcomb.Prelude.Outcome.{value, bind_value_steps}
use sweetcomb.Decimal.{show}
use sweetcomb.Decimal.Roundtrip.{IsDigit, show-digits, show-StartsWithDigit}
use sweetcomb.Sysrepo.{SrError}
use sweetcomb.Vom.{Vom, Obj, nat_obj, KeepsObjects}
use sweetcomb.SysUtil.{Addresses}
use sweetcomb.Interface.Address.{l3_key}
use sweetcomb.Interface.Frame.{KeptByInterfaces, FreeNames, ietf_interface_create_cb-Inv}
use sweetcomb.Interface.OpenConfig.Frame.{oc_interfaces_config_cb-Inv}
use sweetcomb.Interface.Address.Frame.{ietf_interface_ipv46_address_change_cb-Inv}
use sweetcomb.Nat.Config.{NatState, NatTable, nat_instance_config_cb}
use sweetcomb.Nat.Config.Mirror.{Mirrored, nat_mapping_table_config_cb-Mirrored}
use sweetcomb.Handlers.{
  Call, calls_interface_create, calls_interface_address, calls_oc_config, calls_nat_instance,
  calls_nat_mapping_table, handle, handle_all,
}

-- Interfaces are made and set beside the objects that VOM holds, and a write, also one that fails,
-- leaves them held.
pub record SparesObjects {W I P A : Type 0} (V : Vom W I P A)
    (Holds : W → Text → Obj I P A → Type 0) : Type 0 where
  pub making :
      (n t : Text) (b : Bool) (w : W) (k : Text) (o : Obj I P A)
      → Holds w k o
      → Holds (V.make_interface n t b w).1 k o
  pub setting :
      (i : I) (b : Bool) (w : W) (k : Text) (o : Obj I P A)
      → Holds w k o
      → Holds (V.set_state i b w) k o
  pub writing :
      (k' : Text) (o' : Obj I P A) (w : W) (k : Text) (o : Obj I P A)
      → Holds w k o
      → Holds (V.write k' o' w).1 k o

-- The text is not the decimal text of a number.
abbrev pub IsNoNumber : Text → Type 0
IsNoNumber k = (i : ℕ) → show i ≢ k

l3_key-IsNoNumber :
    {W I P A : Type 0} (V : Vom W I P A) (intf : I) (pfx : P) → IsNoNumber (l3_key V intf pfx)
unfolding l3_key
l3_key-IsNoNumber V intf pfx i e =
    let (low, high) = (subst (All IsDigit) e (show-digits i)).0 in omega arith

empty-IsNoNumber : IsNoNumber (codes "")
empty-IsNoNumber i e = let (c, t, s, lo, hi) = show-StartsWithDigit i in cc

-- No name of an interface in the call's change set is the text of a number.
abbrev pub NamesNoNumber : Call → Type 0
NamesNoNumber (calls_interface_create R xpath event g) =
    All (FreeNames R IsNoNumber) (R.changes xpath)
NamesNoNumber (calls_interface_address R xpath event) = Unit
NamesNoNumber (calls_oc_config R ds xpath event g) =
    (x : Text) → xpath ≡ some x → All (FreeNames R IsNoNumber) (R.changes x)
NamesNoNumber (calls_nat_instance event) = Unit
NamesNoNumber (calls_nat_mapping_table R ds xpath event g) = Unit

module _ {W I P A : Type 0} (B : Addresses A) (V : Vom W I P A)
    (Holds : W → Text → Obj I P A → Type 0) (K : KeepsObjects V Holds)
    (S : SparesObjects V Holds) where
  -- VOM mirrors the table.
  abbrev MirrorsTable : NatTable A → W → Type 0
  MirrorsTable t w = Mirrored B V Holds K (record { vom = w; static_mapping_table = t })

  kept_by_interfaces : (t : NatTable A) → KeptByInterfaces V (MirrorsTable t) IsNoNumber
  kept_by_interfaces t = record {
    making = λ n ty b w m i a b' e. S.making n ty b w _ _ (m i a b' e);
    setting = λ intf b w m i a b' e. S.setting intf b w _ _ (m i a b' e);
    writing = λ intf w m i a b e. S.writing _ _ w _ _ (m i a b e);
    writing_l3 = λ intf p w m i a b e. S.writing _ _ w _ _ (m i a b e);
    removing = λ k w free m i a b e. K.spared k (show i) _ w (free i) (m i a b e);
    removing_l3 = λ intf p w m i a b e.
        K.spared (l3_key V intf p) (show i) _ w (l3_key-IsNoNumber V intf p i) (m i a b e);
  }

  handle-Mirrored :
      (c : Call) (st : NatState W A) (rc : SrError)
      → NamesNoNumber c
      → (handle B V c st).0 ≡ value rc
      → Mirrored B V Holds K st
      → Mirrored B V Holds K (handle B V c st).1
  unfolding handle nat_instance_config_cb
  handle-Mirrored (calls_interface_create R xpath event g) st rc names done m =
      ietf_interface_create_cb-Inv R V _ IsNoNumber (kept_by_interfaces st.static_mapping_table)
        xpath event g st.vom empty-IsNoNumber names m
  handle-Mirrored (calls_interface_address R xpath event) st rc names done m =
      ietf_interface_ipv46_address_change_cb-Inv R B V _ IsNoNumber
        (kept_by_interfaces st.static_mapping_table) xpath event st.vom m
  handle-Mirrored (calls_oc_config R ds xpath event g) st rc names done m =
      oc_interfaces_config_cb-Inv R V _ IsNoNumber (kept_by_interfaces st.static_mapping_table) ds
        xpath event g st.vom empty-IsNoNumber names m
  handle-Mirrored (calls_nat_instance event) st rc names done m = m
  handle-Mirrored (calls_nat_mapping_table R ds xpath event g) st rc names done m =
      nat_mapping_table_config_cb-Mirrored B V Holds K R ds xpath event g st rc m done

  handle_all-keeps :
      (cs : List Call) (st t : NatState W A)
      → All NamesNoNumber cs
      → handle_all B V cs st ≡ value t
      → Mirrored B V Holds K st
      → Mirrored B V Holds K t
  unfolding handle_all
  handle_all-keeps [] st t h done m = subst (λ u. Mirrored B V Holds K u) (cc done) m
  handle_all-keeps (c ∷ cs) st t h done m =
      let (rc, first, rest) =
        bind_value_steps (handle B V c st).0 (λ rc. handle_all B V cs (handle B V c st).1) t done in
      handle_all-keeps cs (handle B V c st).1 t h.1 rest (handle-Mirrored c st rc h.0 first m)

  -- If VOM holds an object that is written under its key until that key is removed, and no other
  -- call of VOM takes it away: from an empty table, after any sequence of calls of the
  -- configuration callbacks of all models that ends without a fault, on any events, change sets
  -- and values on entry, in which no name of an interface is the text of a number, each mapping
  -- of the table is held by VOM under its index.
  pub handle_all-Mirrored :
      (cs : List Call) (w : W) (t : NatState W A) (i : ℕ) (a b : A)
      → All NamesNoNumber cs
      → handle_all B V cs (record { vom = w; static_mapping_table = λ i. none }) ≡ value t
      → t.static_mapping_table i ≡ some (a, b)
      → Holds t.vom (show i) (nat_obj a b)
  handle_all-Mirrored cs w t i a b names done e =
      handle_all-keeps cs (record { vom = w; static_mapping_table = λ i. none }) t names done
        (λ i a b e. cc e) i a b e
