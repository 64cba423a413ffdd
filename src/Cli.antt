-- ===== src/Cli.antt =====
-- main.go: the command line. Flags that main.go parses itself out of a kubeconfig, the kubeconfig
-- entries that the setup commands write, and the cache key of a command. A kubeconfig is what
-- `clientcmd` loads, as a value; the flags of a command are what `cobra` has parsed.
mod Options
mod Args
mod Forms
mod Kubeconfig
mod Flags
mod Install
mod Segments
mod Parity
mod Installed
mod Entries
mod Updates
mod Kept
mod Migrate
mod Migrated
mod Daemon
mod Login
mod Settled
mod Clean
mod Reports
mod Exits
mod Runs
mod Examples
mod Upgrade
