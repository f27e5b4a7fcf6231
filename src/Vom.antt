-- ===== src/Vom.antt =====
-- What src/plugins uses of VPP's object model (VOM): interfaces and their table, the object manager
-- `OM` and the objects that are written to it. It is not part of the repository, and is a parameter.
use sweetcomb.Prelude.{ℕ, Bool, true, Text, Option, some, ◌≡◌, ◌≢◌}

-- The objects that the plugin hands to `OM::write`.
pub data Obj (I P A : Type 0) : Type 0 where
  interface_obj : I → Obj I P A
  -- `l3_binding(*intf, pfx)`
  l3_obj : I → P → Obj I P A
  -- `nat_static(inside, outside)`
  nat_obj : A → A → Obj I P A

-- The state `W` of VOM and of the VPP behind it, `shared_ptr<interface>` as `I`, `route::prefix_t`
-- as `P` and IP addresses as `A`.
pub record Vom (W I P A : Type 0) : Type 0 where
  -- `interface::find`
  pub find : Text → W → Option I
  -- `make_shared<interface>(name, type_t::from_string(type), admin_state_t::from_int(state))`
  pub make_interface : Text → Text → Bool → W → I × W
  -- `intf->set(admin_state_t::from_int(state))`, on the shared object
  pub set_state : I → Bool → W → W
  pub key : I → Text
  pub name : I → Text
  -- `prefix_t(addr, len)`, where `none` is the exception of the constructor
  pub make_prefix : Text → ℕ → Option P
  pub prefix_to_string : P → Text
  -- `OM::write(key, obj) == rc_t::OK`
  pub write : Text → Obj I P A → W → Bool × W
  -- `OM::remove(key)`
  pub remove : Text → W → W

module _ {W I P A : Type 0} (V : Vom W I P A) (Holds : W → Text → Obj I P A → Type 0) where
  -- What the object manager promises: an object that is written is held under its key, and stays
  -- held until its own key is removed.
  pub record KeepsObjects : Type 0 where
    pub written :
        (k : Text) (o : Obj I P A) (w : W) → (V.write k o w).0 ≡ true → Holds (V.write k o w).1 k o
    pub kept :
        (k k' : Text) (o o' : Obj I P A) (w : W)
        → (V.write k o w).0 ≡ true
        → Holds w k' o'
        → Holds (V.write k o w).1 k' o'
    pub spared :
        (k k' : Text) (o' : Obj I P A) (w : W) → k' ≢ k → Holds w k' o' → Holds (V.remove k w) k' o'

  -- An interface has the name that it is made with, and is found by it while it is held.
  pub record FindsInterfaces : Type 0 where
    pub made_name : (n t : Text) (b : Bool) (w : W) → V.name (V.make_interface n t b w).0 ≡ n
    pub finds : (i : I) (w : W) → Holds w (V.key i) (interface_obj i) → V.find (V.name i) w ≡ some i
