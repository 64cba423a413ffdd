-- ===== src/Server/Watch/Access.antt =====
-- pkg/daemon/server.go: who is served, and `Shutdown`.
use kubelogin_daemon.Prelude.{
  ◌≡◌, refl, inl, inr, ◌⊎◌, Bool, true, false, ◌&&◌, Option, none, some, [], ◌∷◌, arith, Bool-cases,
}
use kubelogin_daemon.Text.{Text, codes, text_eq}
use kubelogin_daemon.Assoc.{Assoc, lookup}
use kubelogin_daemon.Persist.{Codec}
use kubelogin_daemon.Refresher.{Network}
use kubelogin_daemon.Token.{TokenManager, stop, slots}
use kubelogin_daemon.Ipc.{Request, Response, Status}
use kubelogin_daemon.Server.{Server, Env}
use kubelogin_daemon.Server.Watch.{
  stop_all, shutdown, Incoming, undecodable, trailing, decoded, handle_request, some_response,
  handle_incoming, handle_connection,
}

-- The request that a connection brings, if it is one.
abbrev pub request_of : Incoming → Option Request
request_of (decoded req) = some req
request_of _ = none

-- Whether a connection is of the same user, with a request that carries the nonce of the server.
abbrev pub is_authorized : Bool → Incoming → Server → Bool
is_authorized peer_ok (decoded req) s = peer_ok && text_eq req.nonce s.nonce
is_authorized peer_ok _ s = false

-- No answer, or an error with no token.
abbrev pub IsRefusal : Option Response → Type 0
IsRefusal none = Unit
IsRefusal (some r) = (r.status ≡ Status.error) × (r.token ≡ []) × (r.error_code ≡ none)

-- A connection that is not of the same user, or that does not bring a request with the nonce,
-- leaves the whole server as it was. The answer, if there is one, is an error with no token.
pub handle_connection_unauthorized :
    (codec : Codec) (net : Network) (env : Env) (peer_ok : Bool) (incoming : Incoming) (s : Server)
    → is_authorized peer_ok incoming s ≡ false
    → let (s', r) = handle_connection codec net env peer_ok incoming s in (s' ≡ s) × IsRefusal r
unfolding handle_connection handle_incoming handle_request some_response
handle_connection_unauthorized codec net env false incoming s h = (refl, tt)
handle_connection_unauthorized codec net env true undecodable s h = (refl, (refl, refl, refl))
handle_connection_unauthorized codec net env true trailing s h = (refl, (refl, refl, refl))
handle_connection_unauthorized codec net env true (decoded req) s h =
    let bad : text_eq req.nonce s.nonce ≡ false = h in
    rw (bad, handle_connection, handle_request) (refl, (refl, refl, refl))

stop_all-lookup :
    (k : Text) (ms : Assoc TokenManager)
    → ((lookup k ms ≡ none) × (lookup k (stop_all ms) ≡ none))
      ⊎ ((m : TokenManager) × (lookup k ms ≡ some m) × (lookup k (stop_all ms) ≡ some (stop m)))
unfolding lookup
stop_all-lookup k [] = inl (refl, refl)
stop_all-lookup k ((j, m) ∷ ms) = elim (Bool-cases (text_eq j k)) [
  | inl e ↦ inr (m, rw e refl, rw e refl)
  | inr e ↦ rw e (stop_all-lookup k ms)
]

abbrev pub HasNoTimer : TokenManager → Type 0
HasNoTimer m = (m.stopped ≡ true) × (slots m.refresh_timer ≡ 0) × (slots m.persist_timer ≡ 0)

stop-HasNoTimer : (m : TokenManager) → m.stopped ≡ false → HasNoTimer (stop m)
unfolding stop
stop-HasNoTimer m h = ground arith

-- The first `Shutdown` removes the nonce file, leaves every other name of the directory, and a
-- second one does nothing. It keeps the manager of every key: one that was running is then stopped,
-- with no timer pending and the same token.
shutdown_stops :
    (s : Server) (name key : Text) (m : TokenManager)
    → s.is_shut_down ≡ false
    → lookup key s.managers ≡ some m
    → m.stopped ≡ false
    → let s' = shutdown s in
      (s'.dir (codes "nonce") ≡ none)
      × ((text_eq (codes "nonce") name ≡ true) ⊎ (s'.dir name ≡ s.dir name))
      × (shutdown s' ≡ s')
      × (lookup key s'.managers ≡ some (stop m))
      × HasNoTimer (stop m)
      × ((stop m).current ≡ m.current)
unfolding shutdown stop text_eq
shutdown_stops s name key m h at running =
    let kept : lookup key (stop_all s.managers) ≡ some (stop m) =
      elim (stop_all-lookup key s.managers) [
        | inl (none_at, gone) ↦ absurd (ground arith)
        | inr (m0, at0, after) ↦ ground arith
      ] in
    rw (h, shutdown)
      (
        refl,
        elim (Bool-cases (text_eq (codes "nonce") name)) [
          | inl e ↦ inl e
          | inr e ↦ inr (rw e refl)
        ],
        refl,
        kept,
        stop-HasNoTimer m running,
        ground arith,
      )
