-- ===== src/State/Interfaces/Laws.antt =====
-- What the request for the state of all interfaces is answered.
use sweetcomb.Prelude.{
  ◌+◌, ◌*◌, ◌^◌, ◌<◌, ◌≡◌, refl, Text, codes, List, [], ◌∷◌, ◌++◌, length, true, ltb, arith,
}
use sweetcomb.Prelude.Int.{to_int32}
use sweetcomb.Prelude.Outcome.{value, bind_assoc}
use sweetcomb.Sysrepo.{ok, Sysrepo, string_t, enum_t}
use sweetcomb.State.Values.{Value, str_data, uint64_data, int32_data, Buffer, Filling, answer}
use sweetcomb.State.Values.Laws.{Holds, put_all, put_all-new}
use sweetcomb.State.Dump.{Details, Vpp, fill_request, issue}
use sweetcomb.State.Interfaces.{
  phys_address, leaf_of, up_or_down, put_interface, put_interfaces, values_wanted,
  ietf_interface_state_cb,
}

-- The five values of an interface.
abbrev pub interface_values : Text → Details → List Value
interface_values xpath d =
    record {
      xpath = leaf_of xpath d.interface_name (codes "admin-status");
      datum = str_data enum_t (up_or_down d.flags);
    }
    ∷ record {
      xpath = leaf_of xpath d.interface_name (codes "oper-status");
      datum = str_data enum_t (up_or_down d.link_duplex);
    }
    ∷ record {
      xpath = leaf_of xpath d.interface_name (codes "phys-address");
      datum = str_data string_t (phys_address d.l2_address);
    }
    ∷ record {
      xpath = leaf_of xpath d.interface_name (codes "if-index");
      datum = int32_data (to_int32 d.sw_if_index);
    }
    ∷ record {
      xpath = leaf_of xpath d.interface_name (codes "speed");
      datum = uint64_data d.link_speed;
    }
    ∷ []

abbrev pub all_values : Text → List Details → List Value
all_values xpath [] = []
all_values xpath (d ∷ dump) = interface_values xpath d ++ all_values xpath dump

length-all_values :
    (xpath : Text) (dump : List Details) → length (all_values xpath dump) ≡ 5 * length dump
length-all_values xpath [] = omega arith
length-all_values xpath (d ∷ dump) = omega (arith, length-all_values xpath dump)

put_interfaces-put_all :
    (xpath : Text) (dump : List Details) (s : Filling)
    → put_interfaces xpath dump s ≡ put_all (all_values xpath dump) s
unfolding put_interface put_interfaces put_all
put_interfaces-put_all xpath [] s = refl
put_interfaces-put_all xpath (d ∷ dump) s =
    simp (put_interface, bind_assoc, put_interfaces-put_all xpath dump)

-- The interfaces that VPP answers a request without a name filter.
abbrev pub everything : Vpp → List Details
everything vpp = vpp.interfaces (record { name_filter_valid = 0; name_filter = [] })

-- A request for the interfaces' state is answered, without an access outside the array, by the five
-- values of each interface in VPP's order, if the array can be allocated and its size is an `int`.
-- The array has room for six values an interface and six more.
pub ietf_interface_state_cb_answers :
    (R : Sysrepo) (vpp : Vpp) (xpath : Text)
    → R.node_name_eq xpath (codes "interface") ≡ true
    → (length (everything vpp) + 1) * 6 < 2 ^ 31
    → R.new_values ((length (everything vpp) + 1) * 6) ≡ ok
    → (b : Buffer) × (ietf_interface_state_cb R vpp xpath
        ≡ value (ok, answer b (5 * length (everything vpp))))
      × (b.capacity ≡ (length (everything vpp) + 1) * 6)
      × Holds b 0 (all_values xpath (everything vpp))
unfolding ietf_interface_state_cb issue fill_request values_wanted
ietf_interface_state_cb_answers R vpp xpath node small got =
    let n = (length (everything vpp) + 1) * 6 in
    let (b, e, cap, holds) =
      put_all-new n (all_values xpath (everything vpp))
        (omega (arith, length-all_values xpath (everything vpp))) in
    let room : ltb n (2 ^ 31) ≡ true = ground arith in
    (b, rw (node, room, got, put_interfaces-put_all, e, length-all_values), cap, holds)
