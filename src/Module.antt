-- ===== src/Module.antt =====
-- The eventbroker module: module/hooks.c and module/net.c.
pub mod Routing
pub mod Fields
pub mod Recipients
pub mod Destinations
pub mod Dupes
pub mod Notify
pub mod OneNotifies
pub mod NoneNotifies
pub mod Net
pub mod Hooks
pub mod Echo
pub mod ResultFirst
pub mod Accept
pub mod AcceptStates
pub mod Closing
pub mod Lookup
pub mod Tests
