-- ===== src/State/Interfaces/Types.antt =====
-- The values of `ietf_interface_state_cb` as leaves of the YANG model ietf-interfaces.
use sweetcomb.Prelude.{
  ℕ, Bool, zero, suc, ◌-◌, ◌∙◌, ap, sym, ◌+◌, ◌*◌, ◌≤◌, ◌<◌, ◌^◌, ◌%◌, ◌/◌, ◌==◌, ◌≡◌, ◌↔◌, refl,
  true, false, Text, codes, text_eq, ◌∷◌, ◌++◌, append_assoc, length, All, All-iff, Bool-cases, inl,
  inr, arith, ltb,
}
use sweetcomb.Prelude.Int.{to_int32, neg}
use sweetcomb.Prelude.Outcome.{value}
use sweetcomb.Sysrepo.{ok, Sysrepo, string_t, enum_t}
use sweetcomb.State.Values.{Datum, str_data, uint64_data, int32_data, Buffer, answer}
use sweetcomb.State.Values.Laws.{Holds}
use sweetcomb.State.Dump.{Mac, Details, Vpp}
use sweetcomb.State.Interfaces.{
  hex_digit, hex2, phys_address, leaf_of, up_or_down, ietf_interface_state_cb,
}
use sweetcomb.State.Interfaces.Laws.{
  interface_values, all_values, everything, ietf_interface_state_cb_answers,
}
use sweetcomb.Yang.{
  YangLibrary, int32_range, is_hex, is_octets, is_phys_address, is_one_of, accepts, has_leaf,
  is_leaf_of, interfaces_state_interface,
}
use sweetcomb.Yang.Laws.{is_leaf_of-has_leaf}

-- The entry of the list `interface`.
abbrev pub entry_of : Text → Text → Text
entry_of xpath name = xpath ++ codes "[name='" ++ name ++ codes "']"

-- What VPP's message carries in 32 bits.
abbrev pub FitsDetails : Details → Type 0
FitsDetails d = (d.sw_if_index < 2 ^ 32) × (d.link_speed < 2 ^ 32)

-- The index of the interface is in the range of the leaf `if-index`.
abbrev pub IsIndexed : Details → Type 0
IsIndexed d = (1 ≤ d.sw_if_index) × (d.sw_if_index < 2 ^ 31)

leaf_of-entry_of : (xpath name n : Text) → leaf_of xpath name n ≡ entry_of xpath name ++ b'/' ∷ n
leaf_of-entry_of xpath name n = simp append_assoc

is_hex-hex_digit : (n : ℕ) → n < 16 → is_hex (hex_digit n) ≡ true
is_hex-hex_digit n h = ground arith

is_octets-hex2 : (n : ℕ) (s : Text) → is_octets (b':' ∷ hex2 n ++ s) ≡ is_octets s
unfolding hex2 is_octets
is_octets-hex2 n s =
    rw (is_hex-hex_digit (n / 16 % 16) (omega arith), is_hex-hex_digit (n % 16) (omega arith))

is_phys_address-hex2 : (n : ℕ) (s : Text) → is_phys_address (hex2 n ++ s) ≡ is_octets s
unfolding hex2 is_phys_address
is_phys_address-hex2 n s =
    rw (is_hex-hex_digit (n / 16 % 16) (omega arith), is_hex-hex_digit (n % 16) (omega arith))

is_octets-last : (n : ℕ) → is_octets (b':' ∷ hex2 n) ≡ true
unfolding hex2 is_octets
is_octets-last n =
    rw (is_hex-hex_digit (n / 16 % 16) (omega arith), is_hex-hex_digit (n % 16) (omega arith))

phys_address-is_phys_address : (a : Mac) → is_phys_address (phys_address a) ≡ true
unfolding phys_address is_octets hex2
phys_address-is_phys_address a =
    is_phys_address-hex2 a.m0 (
      b':' ∷ hex2 a.m1
      ++ b':' ∷ hex2 a.m2
      ++ b':' ∷ hex2 a.m3
      ++ b':' ∷ hex2 a.m4
      ++ b':' ∷ hex2 a.m5)
    ∙ is_octets-hex2 a.m1
        (b':' ∷ hex2 a.m2 ++ b':' ∷ hex2 a.m3 ++ b':' ∷ hex2 a.m4 ++ b':' ∷ hex2 a.m5)
    ∙ is_octets-hex2 a.m2 (b':' ∷ hex2 a.m3 ++ b':' ∷ hex2 a.m4 ++ b':' ∷ hex2 a.m5)
    ∙ is_octets-hex2 a.m3 (b':' ∷ hex2 a.m4 ++ b':' ∷ hex2 a.m5)
    ∙ is_octets-hex2 a.m4 (b':' ∷ hex2 a.m5)
    ∙ is_octets-last a.m5

module _ (Y : YangLibrary) where
  abbrev has : Text → Datum → Bool
  has = has_leaf Y interfaces_state_interface

  admin_status : (n : ℕ) → has (codes "admin-status") (str_data enum_t (up_or_down n)) ≡ true
  unfolding has_leaf accepts is_one_of text_eq
  admin_status n = elim (Bool-cases (n == 0)) [ inl z ↦ rw z refl | inr nz ↦ rw nz refl ]

  oper_status : (n : ℕ) → has (codes "oper-status") (str_data enum_t (up_or_down n)) ≡ true
  unfolding has_leaf accepts is_one_of text_eq
  oper_status n = elim (Bool-cases (n == 0)) [ inl z ↦ rw z refl | inr nz ↦ rw nz refl ]

  address_leaf : (a : Mac) → has (codes "phys-address") (str_data string_t (phys_address a)) ≡ true
  unfolding has_leaf accepts text_eq
  address_leaf a = rw (phys_address-is_phys_address a) refl

  speed_leaf : (n : ℕ) → n < 2 ^ 32 → has (codes "speed") (uint64_data n) ≡ true
  unfolding has_leaf accepts text_eq
  speed_leaf n h = ground arith

  not_positive : (k high : ℕ) → accepts Y (int32_range 1 high) (int32_data (neg k)) ≡ false
  unfolding accepts
  not_positive zero high = refl
  not_positive (suc k) high = refl

  index_leaf :
      (n : ℕ)
      → n < 2 ^ 32
      → has (codes "if-index") (int32_data (to_int32 n)) ≡ true ↔ ((1 ≤ n) × (n < 2 ^ 31))
  unfolding has_leaf accepts text_eq
  index_leaf n h = elim (Bool-cases (ltb n (2 ^ 31))) [
    | inl small ↦ rw small (ground arith)
    | inr big ↦
        rw (big, not_positive (2 ^ 32 - n) 2147483647)
          (λ e. cc, λ (low, high). absurd (ground arith))
  ]

  -- The five values of the interface are values of leaves of its entry, with the leaves' types.
  abbrev pub IsTyped : Text → Details → Type 0
  IsTyped xpath d =
      All (λ v. is_leaf_of Y interfaces_state_interface (entry_of xpath d.interface_name) v ≡ true)
        (interface_values xpath d)

  at_leaf :
      (xpath name n : Text) (d : Datum)
      → is_leaf_of Y interfaces_state_interface
          (entry_of xpath name)
          (record { xpath = leaf_of xpath name n; datum = d })
        ≡ has_leaf Y interfaces_state_interface n d
  at_leaf xpath name n d =
      ap
        (λ x.
          is_leaf_of Y interfaces_state_interface (entry_of xpath name)
            (record { xpath = x; datum = d }))
        (leaf_of-entry_of xpath name n)
      ∙ is_leaf_of-has_leaf Y interfaces_state_interface (entry_of xpath name) n d

  leaves_iff_indexed :
      (xpath : Text) (d : Details)
      → FitsDetails d
      → IsTyped xpath d ↔ ((1 ≤ d.sw_if_index) × (d.sw_if_index < 2 ^ 31))
  leaves_iff_indexed xpath d (index, speed) =
      let at = at_leaf xpath d.interface_name in
      (
        λ h.
            (index_leaf d.sw_if_index index).0
              (sym (at (codes "if-index") (int32_data (to_int32 d.sw_if_index))) ∙ h.1.1.1.0),
        λ h. (
          at _ _ ∙ admin_status d.flags,
          (
            at _ _ ∙ oper_status d.link_duplex,
            (
              at _ _ ∙ address_leaf d.l2_address,
              (
                at _ _ ∙ (index_leaf d.sw_if_index index).1 h,
                (at _ _ ∙ speed_leaf d.link_speed speed, tt),
              ),
            ),
          ),
        ),
      )

  -- When the array can be allocated, its size is an `int`, and VPP's numbers have 32 bits: the
  -- answer holds the five values of each interface, which are values of leaves of the interface's
  -- entry in the YANG model, with the types of the leaves, exactly if every `sw_if_index` is
  -- positive and less than 2 ^ 31.
  pub ietf_interface_state_cb_types_iff :
      (R : Sysrepo) (vpp : Vpp) (xpath : Text)
      → R.node_name_eq xpath (codes "interface") ≡ true
      → (length (everything vpp) + 1) * 6 < 2 ^ 31
      → R.new_values ((length (everything vpp) + 1) * 6) ≡ ok
      → All FitsDetails (everything vpp)
      → (b : Buffer) × (ietf_interface_state_cb R vpp xpath
          ≡ value (ok, answer b (5 * length (everything vpp))))
        × Holds b 0 (all_values xpath (everything vpp))
        × (All (IsTyped xpath) (everything vpp) ↔ All IsIndexed (everything vpp))
  ietf_interface_state_cb_types_iff R vpp xpath node small got fits =
      let (b, e, cap, holds) = ietf_interface_state_cb_answers R vpp xpath node small got in
      (
        b,
        e,
        holds,
        All-iff FitsDetails (IsTyped xpath) IsIndexed (leaves_iff_indexed xpath) (everything vpp)
            fits,
      )
