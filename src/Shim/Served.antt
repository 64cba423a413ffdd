-- ===== src/Shim/Served.antt =====
-- The shim and the daemon together: what `get-token` prints is what the server's manager holds.
use kubelogin_daemon.Prelude.{◌≤◌, ◌<◌, ◌≡◌, true, Option, none, some, ◌⊎◌, inl, inr, arith}
use kubelogin_daemon.Text.{Text, codes}
use kubelogin_daemon.State.{Time}
use kubelogin_daemon.Persist.{Codec}
use kubelogin_daemon.Refresher.{Network}
use kubelogin_daemon.Ipc.{Request, Response, success, get_token, protocol_version}
use kubelogin_daemon.Server.{Server, Env}
use kubelogin_daemon.Server.Managers.{ServerInv}
use kubelogin_daemon.Server.Requests.Tokens.{Serves}
use kubelogin_daemon.Server.Watch.{decoded, handle_connection}
use kubelogin_daemon.Server.Watch.Invariant.{handle_connection-ServerInv}
use kubelogin_daemon.Shim.Requests.{Os, IpcError, other_error}

-- A daemon that runs: its server, which satisfies its invariant, and the clock and the faults that
-- it meets.
pub record Running : Type 0 where
  pub env : Env
  pub server : Server
  pub started : 0 < env.now
  pub ordered : env.now ≤ env.later
  pub inv : ServerInv env.now server

-- The answer to a connection; without one, the shim reads the end of the stream.
abbrev pub answer : Option Response → IpcError ⊎ Response
answer none = inl (other_error (codes "EOF"))
answer (some r) = inr r

module _ (codec : Codec) (net : Network) where
  -- One exchange with the daemon, as a connection of the same user.
  unfoldable pub exchange_with : Request → Running → Running × (IpcError ⊎ Response)
  exchange_with req d =
      let reply = handle_connection codec net d.env true (decoded req) d.server in
      (
        record {
          env = record (d.env) { now = d.env.later };
          server = reply.0;
          started = omega (arith, d.started, d.ordered);
          ordered = omega arith;
          inv =
              handle_connection-ServerInv codec net d.env d.started d.ordered true (decoded req)
                d.server d.inv;
        },
        answer reply.1,
      )

  -- The calls of the operating system, with this daemon at the other end of every connection.
  abbrev pub connected_to : Os Running → Os Running
  connected_to os = record os { exchange = λ req dial limit d. exchange_with req d }

  -- The request as it is sent with a nonce.
  abbrev pub asked : Text → Request → Text → Request
  asked cache_key req nonce = record req {
    version = protocol_version;
    command = get_token;
    cache_key = cache_key;
    nonce = nonce;
  }

  -- The daemon `d` serves the request with this response, as it was asked at the time `t`.
  abbrev ServedAt : Text → Request → Running → Response → Time → Text → Type 0
  ServedAt cache_key req d resp t nonce =
      (t ≤ d.env.now)
      × Serves net (record (d.env) { now = t }) (asked cache_key req nonce) d.server resp

  -- A response that succeeds is the one with which the daemon has just served the request.
  abbrev IsServed : Text → Request → Running → Response → Type 0
  IsServed cache_key req d resp =
      resp.status ≡ success → (t : Time) × (nonce : Text) × ServedAt cache_key req d resp t nonce

  -- What a credential that is printed comes from, with the daemon as it is left.
  abbrev pub IsHeld : Text → Request → Running → Text → Time → Type 0
  IsHeld cache_key req d token expiry =
      (resp : Response) × (t : Time) × (nonce : Text) × ServedAt cache_key req d resp t nonce
      × (resp.token ≡ token)
      × (resp.expiry ≡ expiry)
