-- ===== src/Lib.antt =====
-- Sweetcomb is a sysrepo plugin that configures VPP: sysrepo hands it changes of YANG-modelled
-- configuration and requests for state, and it answers through VPP's object model VOM. This
-- library models the plugin's C and C++ code, all of which is under src/plugins, and proves what
-- its callbacks do.
--
-- The parts and their files:
--
-- - Init models plugins/sc_init.h, sc_init.c and the struct `sc_plugin_main_t` of sc_plugins.h:
--   the linked lists of init and exit functions, which the loader fills by `add_function` and
--   empties by `rm_function`, and the loops `sc_call_all_init_function`,
--   `sc_call_all_exit_function` and `sc_call_init_function`. The elements are static variables,
--   one for each function, so that a function's number is also the address of its element; the
--   memory is a function from addresses to elements. What a registered function does is a
--   parameter: Init.Calls takes functions that leave the lists alone, Init.Dependencies such as
--   call others by `sc_call_init_function`.
-- - Interface models the `interface_builder` of plugins/ietf/ietf_interface.cpp, and
--   Interface.OpenConfig.Builder the copy of it in plugins/openconfig/openconfig_interfaces.cpp;
--   Interface.Create models `ietf_interface_create_cb`, Interface.Address models
--   `ietf_interface_ipv46_address_change_cb` with `parse_interface_ipv46_address` and
--   `ipv46_config_add_remove`, and Interface.OpenConfig models `oc_interfaces_config_cb`.
--   Interface.Changes has the changes that sysrepo reports and the abstract reading of a change
--   set: the last node of a name; Interface.Changes.Order compares two orders of the same nodes
--   by the library's `Permᴰ`.
-- - Nat models plugins/ietf/ietf_nat.cpp: Nat.Builder models `nat_static_builder`, Nat.Config the
--   table of static mappings and the callbacks `nat_instance_config_cb` and
--   `nat_mapping_table_config_cb`.
-- - SysUtil models plugins/sys_util.h and sys_util.cpp: SysUtil.Prefix models `utils::prefix` and
--   SysUtil.Netmask models `utils::netmask_to_plen`.
-- - Decimal models what the code uses of the standard library's conversions: decimal output,
--   `std::stoi` and `atoi`, which reads a sign and is `strtol`, with its 64-bit range, converted
--   to a 32-bit `int`.
-- - Prelude has the shared types, tests and lemmas. Texts are lists of character codes.
--   Prelude.Outcome has the results of code that may throw or go wrong: an uncaught exception, a
--   null or wild pointer and a double free are values.
-- - Examples has the theorems applied to concrete inputs, Examples.Searching the VOM with which
--   those on held objects are tried out.
-- - State models the state callbacks: State.Values the arrays that they fill, State.Dump
--   plugins/vpp-oper/interface.cpp, State.Interfaces and State.Statistics
--   `ietf_interface_state_cb` and `interface_statistics_cb` of plugins/ietf/ietf_interface.cpp,
--   State.Capabilities `nat_cap_state_cb` of plugins/ietf/ietf_nat.cpp and State.OpenConfig
--   `oc_interfaces_state_cb` of plugins/openconfig/openconfig_interfaces.cpp.
-- - Handlers puts the configuration callbacks of all models together, on the state that they
--   share: VOM and the table of static mappings. Handlers.Mirror has the table's invariant,
--   Handlers.Events the events that end a change and Handlers.Collision the keys that two models
--   share.
-- - Subscribe models the functions `ietf_interface_init`, `ietf_nat_init` and
--   `openconfig_interface_init`.
-- - Plugin models plugins/sc_plugins.c: Plugin.Pid the search for the VPP process, with /proc and
--   `errno` as parameters, and Plugin.Life the callbacks by which sysrepo loads, unloads and
--   checks the plugin, with VOM's hardware queue and object manager as the parameter `Hardware`.
--   The loop that waits for a connection runs on fuel, and its theorems assume a connection that
--   succeeds after some number of attempts, and one attempt more of fuel. Plugin.Load joins them
--   to the constructors that register the init functions, and Plugin.Retry loads the plugin again
--   after a failure.
-- - Yang has the leaves of the YANG models under plugins/yang that the state callbacks answer,
--   and the test by which a value is one of a leaf; State.Interfaces.Types,
--   State.OpenConfig.Types and State.Capabilities.Types compare the answers with them.
-- - Plugin.Runs has the life of the plugin as a relation on its states, by loading, unloading and
--   health checks in any order, and Init.Counts how often the loops over the lists call each
--   function.
-- - Handlers.Commit is one commit that creates an interface and its addresses, for which two
--   callbacks are called; what VOM promises of the objects written to it is in Vom, as
--   `KeepsObjects` and `FindsInterfaces`, and Interface.Address.Binds has what it holds then.
-- - Plugin.Pid.Handles is the search for VPP once more, with the directories and files that it
--   opens and closes.
--
-- The callbacks work on the state of VOM and on one resource, the change iterator. Callback has
-- the monad in which they are written: an environment with both, and a flow that goes on,
-- returns, jumps to the label at the end of the callback, throws or goes wrong. `foreach_change`
-- is a structural recursion on the list of changes that the iterator gives. The label frees the
-- iterator and returns the result code. Callback has the argument checks of plugins/sys_util.h
-- too (State.OpenConfig has ARG_CHECK3), and two logics of steps: Callback.Triple for invariants
-- of VOM's state, Callback.Safe for steps that do not go wrong.
--
-- Sysrepo calls the callbacks one at a time, in an order that the plugin does not choose, and
-- they share VOM: `handle` runs one call, and `handle_all` a sequence of calls, which a fault
-- ends. What each callback leaves alone in VOM is stated by a record of conditions on VOM's
-- calls, `KeptByInterfaces`, that any invariant may fill.
--
-- Sysrepo, VOM with VPP, the addresses of Boost and `inet_pton` are not part of the repository.
-- They are the parameters `Sysrepo`, `Vom` and `Addresses`, records of functions that the
-- sections of each module take; what a theorem needs of them is a named hypothesis, such as
-- `NamesNodes` (an xpath has one node name) or `PrintsAddresses` (an address is read back from
-- its text).
--
-- Variables that the C++ code leaves without an initialiser are arguments of the model
-- (`Garbage`, `NatGarbage`), so that a theorem says what does and does not depend on them.
-- Machine integers keep their wrap-around: a prefix length is stored in 16 bits and the counter
-- of `netmask_to_plen` in 8. The loop of `netmask_to_plen` runs on fuel 33, which is enough
-- because the number it shifts has 32 bits. The loops over linked lists run on fuel, and their
-- theorems need one step for each element and one for the end.
--
-- Not modelled: logging, the text of a builder that only the log shows, the freeing of single
-- values, the nodes of the YANG files that no state callback answers, the build files, the tests,
-- and the members of sysrepo's values that the plugin does not read.
pub mod Prelude
pub mod Decimal
pub mod SysUtil
pub mod Sysrepo
pub mod Init
pub mod Callback
pub mod Vom
pub mod Interface
pub mod Nat
pub mod Handlers
pub mod State
pub mod Yang
pub mod Subscribe
pub mod Plugin
mod Examples
