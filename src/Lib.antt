-- ===== src/Lib.antt =====
-- A model of kubelogin-daemon, an exec credential plugin for kubectl whose tokens are kept by a
-- daemon. A short-lived shim asks the daemon over a local socket for the token of a cache key; the
-- daemon keeps a token manager for each key, refreshes tokens at the OIDC provider ahead of their
-- expiry, writes them to a private directory, and lets one process at a time log in.
--
-- Parts, from the bottom:
--   Prelude, Text, Strings, Assoc: shared names, strings as lists of code points, Go's maps as
--     association lists.
--   State: pkg/daemon/state.go, the authentication state of each key, with its login of at most
--     five minutes.
--   Persist: pkg/daemon/persist.go, with the nonce file and the clean-up of temporary files from
--     pkg/daemon/server.go. A writer is the sequence of its system calls over a directory
--     (Persist/Files), so that each of them may fail and the process may stop after any.
--   Jwt: pkg/jwt/decode.go and token.go, with `parseTokenExpiry` of pkg/daemon/server.go.
--   Refresher: pkg/daemon/refresher.go, one refresh at the provider; its filters, and those of
--     pkg/shim/auth.go, in Refresher/Filters.
--   Token: pkg/daemon/token_manager.go, the token of one key, its timers and retries. `Step` is one
--     critical section or atomic operation of any goroutine; a sequence of them is an interleaving.
--   Ipc: pkg/daemon/ipc.go, the requests and responses.
--   Server: pkg/daemon/server.go. Server.antt has the map of managers with its cap and eviction,
--     Server/Requests the handlers of the commands, Server/Watch the connection, the shutdown and
--     the idle watcher. A handler takes the whole state of the server and returns it with the
--     response.
--
--   Shim: pkg/shim/shim.go and `runGetToken` of main.go, the client that starts a daemon, asks it,
--     and restarts one of another version. It runs over a world that the calls of the operating
--     system change, and notes its calls; Shim/Served puts the modelled daemon at the other end, and
--     Shim/Bounds the start of a daemon into the loop.
--     Shim/Autostart is pkg/shim/autostart_common.go with autostart.go, the start of a daemon, and
--     Shim/Autostart/Herd has many shims at its guard directory at the same time, as a step relation.
--   Cli: main.go. Cli/Options and Cli/Args parse the flags of a kubeconfig entry, Cli/Flags completes
--     the flags of a command from it and makes the cache key, Cli/Install, Cli/Migrate and
--     Cli/Upgrade are the setup commands, Cli/Login, Cli/Reports and Cli/Clean are `login`, `check`
--     with `refresh`, and `clean`, and Cli/Daemon is how an upgrade stops a daemon.
--
-- A definition has the name of the function that it models, in lower case with underscores:
-- `handle_get_token` is `handleGetToken`. A time is a natural number of nanoseconds since Go's zero
-- time, and a difference of times stops at 0, where the code tests for one that is negative. All
-- loops are structural recursion over a list, or over the number of attempts that the code allows;
-- there is no fuel.
--
-- Code of other packages is a parameter: JSON (`Codec`, which decodes what it has encoded for ASCII
-- text, and `parse_json`), the provider with its discovery, exchange and verification, TLS
-- certificates and URLs (`Network`), and the outcome of each system call (`Faults`, `ReadFaults`).
--
-- A kubeconfig is what `clientcmd` loads, the flags of a command are what `cobra` has parsed, and the
-- checksum of a cache key (gob and SHA-256) is left out: the key itself is compared.
--
-- Not modelled: the accept loop of `ListenAndServe` and the sockets, logging, the Windows files,
-- `MigrateTokensFromLegacyDir`, `singleflight`, the write of the kubeconfig file, the repository of upstream's
-- token cache, and the interactive logins, whose result is a parameter. A handler runs as a whole; its
-- critical sections against those of other handlers are considered only for `GetState` and within a
-- token manager. The stress tests are test code.
pub mod Prelude
pub mod Text
pub mod Strings
pub mod Assoc
pub mod State
pub mod Persist
pub mod Jwt
pub mod Refresher
pub mod Token
pub mod Ipc
pub mod Server
pub mod Shim
pub mod Cli
