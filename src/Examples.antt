-- ===== src/Examples.antt =====
-- Tests, and the theorems at concrete inputs. `World` stands in for sysrepo, VOM and Boost.
mod World
mod SysUtil
mod Init
mod Interface
mod Address
mod State
mod Plugin
mod Mirror
mod Searching
mod Handlers
mod Load
mod Deletes
mod Mixed
mod Netmask
mod Order
mod Dependencies
mod Types
mod Lifetime
mod Runs
mod Commit
