-- ===== src/Nat/Builder.antt =====
-- `class nat_static_builder` of src/plugins/ietf/ietf_nat.cpp.
pub mod Laws
use sweetcomb.Prelude.{
  ℕ, Bool, true, false, not, ◌&&◌, Text, codes, text_eq, Option, none, some, ◌∷◌, if◌then◌else◌,
}
use sweetcomb.Prelude.Outcome.{Outcome, value, ◌>>=◌}
use sweetcomb.SysUtil.{Addresses}
use sweetcomb.SysUtil.Prefix.{Prefix, make_prefix, empty, default_prefix}

pub record NatBuilder (A : Type 0) : Type 0 where
  pub m_type : Text
  pub m_internal_src : Prefix A
  pub m_external_src : Prefix A
  pub m_internal_dest : Prefix A
  pub m_external_dest : Prefix A
  pub m_inside : A
  pub m_outside : A

unfoldable pub set_type : {A : Type 0} → Text → NatBuilder A → NatBuilder A
set_type t b = record b { m_type = t }

module _ {A : Type 0} (B : Addresses A) where
  -- The default constructor; the four prefix lengths are what the memory holds.
  unfoldable pub new_nat_builder : ℕ → ℕ → ℕ → ℕ → NatBuilder A
  new_nat_builder l₀ l₁ l₂ l₃ = record {
    m_type = codes "";
    m_internal_src = default_prefix B l₀;
    m_external_src = default_prefix B l₁;
    m_internal_dest = default_prefix B l₂;
    m_external_dest = default_prefix B l₃;
    m_inside = B.default;
    m_outside = B.default;
  }

  -- The builder after `build()` and the pair of its `nat_static`; `none` is `nullptr`.
  unfoldable pub build : NatBuilder A → NatBuilder A × Option (A × A)
  build b =
      if not (text_eq b.m_type (codes "static"))
      then (b, none)
      else if not (empty B b.m_internal_src) && not (empty B b.m_external_src)
      then (
        record b { m_inside = b.m_internal_src.m_address; m_outside = b.m_external_src.m_address },
        some (b.m_internal_src.m_address, b.m_external_src.m_address),
      )
      else if not (empty B b.m_internal_dest) && not (empty B b.m_external_dest)
      then (
        record b {
          m_inside = b.m_internal_dest.m_address;
          m_outside = b.m_external_dest.m_address;
        },
        some (b.m_internal_dest.m_address, b.m_external_dest.m_address),
      )
      else (b, none)

  unfoldable pub set_internal_src : Text → NatBuilder A → Outcome (NatBuilder A)
  set_internal_src s b = do p ← make_prefix B s; value (record b { m_internal_src = p })

  unfoldable pub set_external_src : Text → NatBuilder A → Outcome (NatBuilder A)
  set_external_src s b = do p ← make_prefix B s; value (record b { m_external_src = p })

  unfoldable pub set_internal_dest : Text → NatBuilder A → Outcome (NatBuilder A)
  set_internal_dest s b = do p ← make_prefix B s; value (record b { m_internal_dest = p })

  unfoldable pub set_external_dest : Text → NatBuilder A → Outcome (NatBuilder A)
  set_external_dest s b = do p ← make_prefix B s; value (record b { m_external_dest = p })
