-- ===== src/State/Capabilities/Types.antt =====
-- The value of `nat_cap_state_cb` and the YANG model ietf-nat.
use sweetcomb.Prelude.{
  ◌==◌, ◌∙◌, none, some, Text, codes, text_eq, true, false, [], ◌∷◌, ◌++◌, ◌≡◌, inl, inr, refl,
  if◌then◌else◌, Bool-cases,
}
use sweetcomb.Prelude.Outcome.{value}
use sweetcomb.Sysrepo.{ok, nomem, is_ok, Sysrepo}
use sweetcomb.State.Values.{Datum, bool_data, Value, Buffer, put, nothing, answer}
use sweetcomb.State.Values.Laws.{Holds}
use sweetcomb.State.Capabilities.{nat_cap_state_cb}
use sweetcomb.Yang.{YangLibrary, has_leaf, is_leaf_of, capabilities}
use sweetcomb.Yang.Laws.{is_leaf_of-has_leaf}

-- The one value of the answer.
abbrev pub static_mapping : Text → Value
static_mapping xpath = record { xpath = xpath ++ codes "/static-mapping"; datum = bool_data true }

no_leaf : (Y : YangLibrary) (d : Datum) → has_leaf Y capabilities (codes "static-mapping") d ≡ false
unfolding has_leaf text_eq
no_leaf Y d = refl

-- A request for the capabilities always gets an answer and never writes outside the array: no
-- values and SR_ERR_NOMEM if the array cannot be allocated; otherwise one value, which is true, and
-- which is of no leaf of the container `capabilities` in the YANG model.
pub nat_cap_state_cb_unknown_leaf :
    (Y : YangLibrary) (R : Sysrepo) (xpath : Text)
    → (b : Buffer) × (nat_cap_state_cb R xpath
        ≡ value (if is_ok (R.new_values 1) then (ok, answer b 1) else (nomem, nothing)))
      × (b.capacity ≡ 1)
      × Holds b 0 (static_mapping xpath ∷ [])
      × (is_leaf_of Y capabilities xpath (static_mapping xpath) ≡ false)
unfolding nat_cap_state_cb put
nat_cap_state_cb_unknown_leaf Y R xpath =
    let v = static_mapping xpath in
    (
      record { capacity = 1; vals = λ i. if i == 0 then some v else none },
      elim (Bool-cases (is_ok (R.new_values 1))) [ inl good ↦ rw good | inr bad ↦ rw bad ],
      refl,
      (refl, tt),
      is_leaf_of-has_leaf Y capabilities xpath (codes "static-mapping") (bool_data true)
          ∙ no_leaf Y (bool_data true),
    )
