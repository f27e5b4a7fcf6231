-- ===== src/State/OpenConfig/Types.antt =====
-- The values of `oc_interfaces_state_cb` as leaves of the YANG model openconfig-interfaces.
use sweetcomb.Prelude.{
  ℕ, Bool, ◌%◌, ◌==◌, ◌≤◌, ◌<◌, ◌^◌, ◌≡◌, ◌↔◌, ◌∙◌, sym, refl, true, false, Text, codes, text_eq,
  some, List, ◌∷◌, ◌++◌, length, is_empty, All, Bool-cases, inl, inr, arith, ◌||◌,
}
use sweetcomb.Prelude.Outcome.{value}
use sweetcomb.Sysrepo.{ok, Sysrepo, enum_t, identityref_t}
use sweetcomb.State.Values.{Datum, str_data, uint16_data, uint32_data, Buffer, answer}
use sweetcomb.State.Values.Laws.{Holds}
use sweetcomb.State.Dump.{Details, Vpp}
use sweetcomb.State.OpenConfig.{up_or_down, oc_interfaces_state_cb}
use sweetcomb.State.OpenConfig.Laws.{state_of, reply_values, only, oc_interfaces_state_cb_answers}
use sweetcomb.Yang.{YangLibrary, is_one_of, accepts, has_leaf, is_leaf_of, interface_state}
use sweetcomb.Yang.Laws.{is_leaf_of-has_leaf}

module _ (Y : YangLibrary) where
  abbrev has : Text → Datum → Bool
  has = has_leaf Y interface_state

  admin_status : (n : ℕ) → has (codes "admin-status") (str_data enum_t (up_or_down n)) ≡ true
  unfolding has_leaf accepts is_one_of text_eq
  admin_status n = elim (Bool-cases (n == 0)) [ inl z ↦ rw z refl | inr nz ↦ rw nz refl ]

  oper_status : (n : ℕ) → has (codes "oper-status") (str_data enum_t (up_or_down n)) ≡ true
  unfolding has_leaf accepts is_one_of text_eq
  oper_status n = elim (Bool-cases (n == 0)) [ inl z ↦ rw z refl | inr nz ↦ rw nz refl ]

  mtu_leaf : (n : ℕ) → has (codes "mtu") (uint16_data (n % 2 ^ 16)) ≡ true
  unfolding has_leaf accepts text_eq
  mtu_leaf n = ground arith

  index_leaf : (n : ℕ) → n < 2 ^ 32 → has (codes "ifindex") (uint32_data n) ≡ true
  unfolding has_leaf accepts text_eq
  index_leaf n h = ground arith

  type_leaf :
      (t : Text)
      → has_leaf Y interface_state (codes "type") (str_data identityref_t t)
        ≡ (Y.is_interface_type t || false)
  unfolding has_leaf accepts text_eq
  type_leaf t = refl

  -- The seven values are values of leaves of the interface's state, with the leaves' types.
  abbrev pub IsTyped : Text → Details → Type 0
  IsTyped name d =
      All (λ v. is_leaf_of Y interface_state (state_of name) v ≡ true)
        (reply_values (state_of name) d)

  at_leaf :
      (name n : Text) (d : Datum)
      → is_leaf_of Y interface_state
          (state_of name)
          (record { xpath = state_of name ++ b'/' ∷ n; datum = d })
        ≡ has_leaf Y interface_state n d
  at_leaf name = is_leaf_of-has_leaf Y interface_state (state_of name)

  leaves_iff_interface_type :
      (name : Text) (d : Details)
      → d.sw_if_index < 2 ^ 32
      → IsTyped name d ↔ (Y.is_interface_type (codes "ianaift:ethernetCsmacd") ≡ true)
  unfolding has_leaf accepts text_eq
  leaves_iff_interface_type name d fits =
      let at = at_leaf name in
      let ethernet = codes "ianaift:ethernetCsmacd" in
      (
        λ h.
            let held : (Y.is_interface_type ethernet || false) ≡ true =
              sym (at (codes "type") (str_data identityref_t ethernet) ∙ type_leaf ethernet)
              ∙ h.1.0 in
            ground arith,
        λ h. (
          at (codes "name") _,
          (
            at (codes "type") _ ∙ type_leaf ethernet ∙ rw h,
            (
              at (codes "mtu") _ ∙ mtu_leaf d.link_mtu,
              (
                at (codes "enabled") _,
                (
                  at (codes "ifindex") _ ∙ index_leaf d.sw_if_index fits,
                  (
                    at (codes "admin-status") _ ∙ admin_status d.flags,
                    (at (codes "oper-status") _ ∙ oper_status d.link_duplex, tt),
                  ),
                ),
              ),
            ),
          ),
        ),
      )

  -- When the array can be allocated, for an interface whose name is not empty and fits into the
  -- request and into the xpath, and that VPP knows with an index of 32 bits: the seven values of
  -- the answer are values of leaves of the interface's state in the YANG model, with the types of
  -- the leaves, exactly if "ianaift:ethernetCsmacd" is a text for an interface type.
  pub oc_interfaces_state_cb_types_iff :
      (R : Sysrepo) (vpp : Vpp) (xpath name : Text) (d : Details) (rest : List Details)
      → R.key_value xpath (codes "interface") (codes "name") ≡ some name
      → is_empty name ≡ false
      → R.new_values 7 ≡ ok
      → length name ≤ 1941
      → length name < vpp.name_filter_size
      → vpp.interfaces (only name) ≡ d ∷ rest
      → d.sw_if_index < 2 ^ 32
      → (b : Buffer) × (oc_interfaces_state_cb R vpp (some xpath) true true
          ≡ value (ok, answer b 7))
        × Holds b 0 (reply_values (state_of name) d)
        × (IsTyped name d ↔ (Y.is_interface_type (codes "ianaift:ethernetCsmacd") ≡ true))
  oc_interfaces_state_cb_types_iff R vpp xpath name d rest named full got short fits known index =
      let (b, e, cap, holds) =
        oc_interfaces_state_cb_answers R vpp xpath name named full got d rest short fits known in
      (b, e, holds, leaves_iff_interface_type name d index)
