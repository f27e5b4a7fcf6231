-- ===== src/Nat/Builder/Laws.antt =====
-- Which addresses `nat_static_builder::build` takes.
use sweetcomb.Prelude.{
  true, codes, text_eq, none, some, ◌≡◌, refl, if◌then◌else◌, Bool-cases, inl, inr,
}
use sweetcomb.SysUtil.{Addresses}
use sweetcomb.SysUtil.Prefix.Laws.{empty-false}
use sweetcomb.Nat.Builder.{NatBuilder, build}

module _ {A : Type 0} (B : Addresses A) where
  -- `build` succeeds exactly for the type "static", and always with the addresses of the two source
  -- prefixes, also where only destination prefixes have been set: no prefix is ever empty.
  pub build_sources :
      (b : NatBuilder A)
      → (build B b).1 ≡ (
          if text_eq b.m_type (codes "static")
          then some (b.m_internal_src.m_address, b.m_external_src.m_address)
          else none)
  unfolding build
  build_sources b = elim (Bool-cases (text_eq b.m_type (codes "static"))) [
    | inl yes_static ↦
        rw (yes_static, empty-false B b.m_internal_src, empty-false B b.m_external_src)
    | inr other ↦ rw other
  ]

  pub build_stores :
      (b : NatBuilder A)
      → text_eq b.m_type (codes "static") ≡ true
      → ((build B b).0.m_inside ≡ b.m_internal_src.m_address)
        × ((build B b).0.m_outside ≡ b.m_external_src.m_address)
  unfolding build
  build_stores b h =
      rw (h, empty-false B b.m_internal_src, empty-false B b.m_external_src) (refl, refl)
