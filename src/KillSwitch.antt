-- ===== src/KillSwitch.antt =====
-- src/kill_switch and the parts of src/platform_kill_switch that the dispatcher and the ingest
-- service read: the rows, the in-process cache, the exclusion built from it, and the operator's
-- commands on a tenant's switches.
pub mod Scope
pub mod Model
pub mod Cache
pub mod Exclusion
pub mod Table
pub mod Refresh
pub mod Radius
pub mod Configure
pub mod Engaged
