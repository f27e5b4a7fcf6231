-- ===== src/Nat.antt =====
-- src/plugins/ietf/ietf_nat.cpp: the builder of static mappings, the mapping table and the callbacks
-- of the ietf-nat model.
pub mod Builder
pub mod Config
