-- ===== src/Control/Tests.antt =====
-- Runs of the daemon's parts on concrete inputs.
pub mod Leases
pub mod Consoles
pub mod Machines
pub mod Hosts
pub mod Terminals
pub mod Logins
pub mod Callers
pub mod Resizes
pub mod Upgrades
pub mod Settings
pub mod Boots
pub mod Jails
pub mod Pools
pub mod Images
pub mod Gates
