-- ===== src/State/OpenConfig/Laws.antt =====
-- What the OpenConfig request for an interface's state is answered, and when it goes wrong.
use sweetcomb.Prelude.{
  ◌%◌, ◌^◌, ◌≤◌, ◌<◌, ◌≡◌, ◌≢◌, ◌↔◌, Text, codes, some, List, [], ◌∷◌, ◌++◌, length, length-append,
  take_all, List-cases, is_empty, true, false, not, ltb, ◌==◌, Bool-cases, inl, inr, arith,
}
use sweetcomb.Prelude.Outcome.{value, fault, bind_value, empty_deref, stack_overrun}
use sweetcomb.Sysrepo.{SrError, ok, Sysrepo, string_t, identityref_t, enum_t}
use sweetcomb.State.Values.{
  Value, Datum, str_data, bool_data, uint16_data, uint32_data, Buffer, Filling, Reply, answer,
}
use sweetcomb.State.Values.Laws.{Holds, put_all, put_all-new}
use sweetcomb.State.Dump.{Details, Vpp, Request, fill_request, issue}
use sweetcomb.State.OpenConfig.{
  arg_check3, snprintf, xpath_root, up_or_down, put_reply, first_payload, answer_reply,
  answer_named, oc_interfaces_state_cb,
}

-- The xpath of the state of an interface.
abbrev pub state_of : Text → Text
state_of name =
    codes "/openconfig-interfaces:interfaces/interface[name='" ++ name ++ codes "']/state"

xpath_root_whole : (name : Text) → length name ≤ 1941 → xpath_root name ≡ state_of name
unfolding xpath_root snprintf
xpath_root_whole name h =
    take_all 1999 (state_of name) (omega (arith, length-append name (codes "']/state")))

abbrev leaf : Text → Datum → Value
leaf x d = record { xpath = x; datum = d }

abbrev pub reply_values : Text → Details → List Value
reply_values root d =
    leaf (root ++ codes "/name") (str_data string_t d.interface_name)
    ∷ leaf (root ++ codes "/type") (str_data identityref_t (codes "ianaift:ethernetCsmacd"))
    ∷ leaf (root ++ codes "/mtu") (uint16_data (d.link_mtu % 2 ^ 16))
    ∷ leaf (root ++ codes "/enabled") (bool_data (not (d.flags == 0)))
    ∷ leaf (root ++ codes "/ifindex") (uint32_data d.sw_if_index)
    ∷ leaf (root ++ codes "/admin-status") (str_data enum_t (up_or_down d.flags))
    ∷ leaf (root ++ codes "/oper-status") (str_data enum_t (up_or_down d.link_duplex))
    ∷ []

put_reply-put_all :
    (root : Text) (d : Details) (s : Filling) → put_reply root d s ≡ put_all (reply_values root d) s
unfolding put_reply put_all
put_reply-put_all root d s = simp (bind_value, put_all)

-- The request for one interface.
abbrev pub only : Text → Request
only name = record { name_filter_valid = 1; name_filter = name }

module _ (R : Sysrepo) (vpp : Vpp) (xpath name : Text)
    (named : R.key_value xpath (codes "interface") (codes "name") ≡ some name)
    (full : is_empty name ≡ false) (got : R.new_values 7 ≡ ok) where
  -- When the array can be allocated: for an interface whose name is not empty and fits into the
  -- request and into the xpath, and that VPP knows, the answer is the array of the seven values
  -- of VPP's first answer under the interface's state, filled to its end; the MTU is reduced to
  -- 16 bits.
  pub oc_interfaces_state_cb_answers :
      (d : Details) (rest : List Details)
      → length name ≤ 1941
      → length name < vpp.name_filter_size
      → vpp.interfaces (only name) ≡ d ∷ rest
      → (b : Buffer) × (oc_interfaces_state_cb R vpp (some xpath) true true
          ≡ value (ok, answer b 7))
        × (b.capacity ≡ 7)
        × Holds b 0 (reply_values (state_of name) d)
  unfolding oc_interfaces_state_cb arg_check3 answer_named answer_reply issue fill_request
      first_payload
  oc_interfaces_state_cb_answers d rest short fits known =
      let (b, e, cap, holds) = put_all-new 7 (reply_values (state_of name) d) (omega arith) in
      let room : ltb (length name) vpp.name_filter_size ≡ true = ground arith in
      (
        b,
        rw (
          oc_interfaces_state_cb,
          named,
          full,
          got,
          room,
          known,
          xpath_root_whole name short,
          put_reply-put_all,
          e,
        ),
        cap,
        holds,
      )

  long_name :
      ltb (length name) vpp.name_filter_size ≡ false
      → oc_interfaces_state_cb R vpp (some xpath) true true ≡ fault stack_overrun
  unfolding oc_interfaces_state_cb arg_check3 answer_named answer_reply issue fill_request
  long_name long = rw (oc_interfaces_state_cb, named, full, got, long)

  module _ (room : ltb (length name) vpp.name_filter_size ≡ true) where
    unknown_name :
        vpp.interfaces (only name) ≡ []
        → oc_interfaces_state_cb R vpp (some xpath) true true ≡ fault empty_deref
    unfolding oc_interfaces_state_cb arg_check3 answer_named answer_reply issue fill_request
        first_payload
    unknown_name unknown = rw (oc_interfaces_state_cb, named, full, got, room, unknown)

    known_name :
        (d : Details) (rest : List Details)
        → vpp.interfaces (only name) ≡ d ∷ rest
        → (r : SrError × Reply) × (oc_interfaces_state_cb R vpp (some xpath) true true ≡ value r)
    unfolding oc_interfaces_state_cb arg_check3 answer_named answer_reply issue fill_request
        first_payload
    known_name d rest known =
        let (b, e, cap, holds) = put_all-new 7 (reply_values (xpath_root name) d) (omega arith) in
        (
          (ok, answer b 7),
          rw (oc_interfaces_state_cb, named, full, got, room, known, put_reply-put_all, e),
        )

  -- When the array can be allocated, the callback returns for a named interface exactly if the name
  -- fits into the request and VPP knows the interface: a longer name overruns the request, and for
  -- an unknown interface the first of no answers is read.
  pub oc_interfaces_state_cb_returns_iff :
      ((r : SrError × Reply) × (oc_interfaces_state_cb R vpp (some xpath) true true ≡ value r))
      ↔ ((length name < vpp.name_filter_size) × (vpp.interfaces (only name) ≢ []))
  oc_interfaces_state_cb_returns_iff = elim (Bool-cases (ltb (length name) vpp.name_filter_size)) [
    | inl room ↦ elim (List-cases (vpp.interfaces (only name))) [
      | inl unknown ↦ (
        λ (r, e). absurd (cc (e, unknown_name room unknown)),
        λ (fits, some_known). absurd (some_known unknown),
      )
      | inr (d, rest, known) ↦
          (λ (r, e). (ground arith, λ none. cc (known, none)), λ h. known_name room d rest known)
    ]
    | inr long ↦
        (λ (r, e). absurd (cc (e, long_name long)), λ (fits, some_known). absurd (ground arith))
  ]
