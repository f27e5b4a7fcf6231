-- ===== src/Plugin.antt =====
-- src/plugins/sc_plugins.c: the callbacks by which sysrepo loads, unloads and checks the plugin.
pub mod Pid
pub mod Life
pub mod Load
pub mod Retry
pub mod Runs
