-- ===== src/Shim.antt =====
-- pkg/shim/shim.go and pkg/shim/autostart_common.go, and `runGetToken` of main.go: the client side
-- of the daemon. `W` is a state of the world, which the calls of the operating system change; the
-- clock counts nanoseconds. Every call is noted in a log, the latest one first.
pub mod Requests
mod Client
mod Autostart
mod Sessions
mod Calls
mod Bounds
mod Permitted
mod Replies
mod Served
mod Examples
