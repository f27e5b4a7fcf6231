-- ===== src/State.antt =====
-- The callbacks that answer requests for state data: in src/plugins/ietf/ietf_interface.cpp,
-- src/plugins/ietf/ietf_nat.cpp and src/plugins/openconfig/openconfig_interfaces.cpp.
pub mod Values
pub mod Dump
pub mod Interfaces
pub mod Statistics
pub mod Capabilities
pub mod OpenConfig
