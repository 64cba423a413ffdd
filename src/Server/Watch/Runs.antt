-- ===== src/Server/Watch/Runs.antt =====
-- pkg/daemon/server.go: the life of a daemon, as the connections that it handles one after another.
use kubelogin_daemon.Prelude.{ℕ, ◌≤◌, ◌<◌, refl, Bool, List, [], ◌∷◌, arith}
use kubelogin_daemon.State.{Time}
use kubelogin_daemon.Persist.{Codec}
use kubelogin_daemon.Persist.Files.{Fs}
use kubelogin_daemon.Refresher.{Network}
use kubelogin_daemon.Server.{Server, Env, new_server}
use kubelogin_daemon.Server.Managers.{ServerInv}
use kubelogin_daemon.Server.Requests.Invariant.{ServerInv-mono}
use kubelogin_daemon.Server.Watch.{Incoming, handle_connection}
use kubelogin_daemon.Server.Watch.Invariant.{handle_connection-ServerInv}

-- A connection, with the surroundings in which it is handled.
abbrev pub Connection : Type 0
Connection = Env × Bool × Incoming

pub serve_all : Codec → Network → List Connection → Server → Server
serve_all codec net [] s = s
serve_all codec net ((env, peer_ok, incoming) ∷ cs) s =
    serve_all codec net cs (handle_connection codec net env peer_ok incoming s).0

-- The clock never goes back, from a time on.
abbrev pub Clocked : Time → List Connection → Type 0
Clocked t [] = Unit
Clocked t ((env, _, _) ∷ cs) = (t ≤ env.now) × (env.now ≤ env.later) × Clocked env.later cs

-- The time of the last answer.
abbrev pub end_of : Time → List Connection → Time
end_of t [] = t
end_of t ((env, _, _) ∷ cs) = end_of env.later cs

serve_all-from :
    (codec : Codec) (net : Network) (t : Time) (cs : List Connection) (s : Server)
    → 0 < t
    → Clocked t cs
    → ServerInv t s
    → ServerInv (end_of t cs) (serve_all codec net cs s)
unfolding serve_all
serve_all-from codec net t [] s p o v = v
serve_all-from codec net t ((env, peer_ok, incoming) ∷ cs) s p (a, b, o) v =
    serve_all-from codec net env.later cs _ (omega (arith, p, a, b)) o (
      handle_connection-ServerInv codec net env (omega (arith, p, a)) b peer_ok incoming s
        (ServerInv-mono s a v))

-- A daemon that has started, and has handled any connections one after another, has one manager a
-- key, counts them exactly, and never holds more than 256; its states are unique and sound. The
-- clock starts after 0 and never goes back.
pub serve_all-ServerInv :
    (codec : Codec) (net : Network) (started idle_timeout idle_check_tick : Time) (dir : Fs)
    (pid : ℕ) (cs : List Connection)
    → 0 < started
    → Clocked started cs
    → ServerInv
        (end_of started cs)
        (serve_all codec net cs (new_server started idle_timeout idle_check_tick dir pid))
unfolding new_server
serve_all-ServerInv codec net started idle_timeout idle_check_tick dir pid cs p o =
    serve_all-from codec net started cs _ p o (record {
      counted = record { unique = tt; exact = refl; capped = omega arith };
      states = record { unique = tt; sound = tt };
    })
