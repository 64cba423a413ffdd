-- ===== src/Server/Watch/Served.antt =====
-- pkg/daemon/server.go: a connection that asks for a token.
use kubelogin_daemon.Prelude.{◌≡◌, sym, inl, inr, true, ◌==◌, some, arith, Bool-cases, ap, ◌∙◌}
use mathlib.Core.Path.{subst}
use kubelogin_daemon.Text.{text_eq}
use kubelogin_daemon.Persist.{Codec}
use kubelogin_daemon.Refresher.{Network}
use kubelogin_daemon.Ipc.{Request, Response, Status, Command, protocol_version}
use kubelogin_daemon.Server.{Server, Env}
use kubelogin_daemon.Server.Managers.{ServerInv}
use kubelogin_daemon.Server.Requests.Tokens.{Serves, handle_get_token-Serves}
use kubelogin_daemon.Server.Watch.{
  decoded, dispatch, handle_request, some_response, handle_incoming, handle_connection,
}
use kubelogin_daemon.Token.{unix_seconds}

module _ (codec : Codec) (net : Network) (env : Env) where
  -- The response of a pair, where it succeeds, is one that serves.
  abbrev IsServedPair : Request → Server × Response → Type 0
  IsServedPair req (s, r) = r.status ≡ Status.success → Serves net env req s r

  dispatch-IsServedPair :
      (req : Request) (s : Server)
      → req.command ≡ Command.get_token
      → ServerInv env.now s
      → IsServedPair req (dispatch codec net env req req.command s)
  unfolding dispatch
  dispatch-IsServedPair req s asks v =
      subst (λ c. IsServedPair req (dispatch codec net env req c s)) (sym asks)
        (handle_get_token-Serves codec net env req s v)

  handle_request-IsServedPair :
      (req : Request) (s : Server)
      → req.command ≡ Command.get_token
      → ServerInv env.now s
      → IsServedPair req (handle_request codec net env req s)
  unfolding handle_request dispatch
  handle_request-IsServedPair req s asks v = elim (Bool-cases (text_eq req.nonce s.nonce)) [
    | inr e ↦ rw (e, handle_request) (λ h. absurd (ground arith))
    | inl e ↦
        rw (e, handle_request)
          (elim (Bool-cases (req.version == protocol_version)) [
            | inr other ↦ rw other (λ h. absurd (ground arith))
            | inl same ↦ rw same (
                dispatch-IsServedPair req (record s { last_request = unix_seconds env.now }) asks
                  (record { counted = v.counted; states = v.states }))
          ])
  ]

  -- An authenticated connection that asks for a token and is answered with success gets the token
  -- of its key's entry, in the state that the server is left in.
  pub handle_connection-Serves :
      (req : Request) (s : Server) (r : Response)
      → req.command ≡ Command.get_token
      → ServerInv env.now s
      → (handle_connection codec net env true (decoded req) s).1 ≡ some r
      → r.status ≡ Status.success
      → Serves net env req (handle_connection codec net env true (decoded req) s).0 r
  unfolding handle_connection handle_incoming some_response
  handle_connection-Serves req s r asks v answered success =
      let same : (handle_request codec net env req s).1 ≡ r = ground arith in
      subst (Serves net env req (handle_request codec net env req s).0) same
        (handle_request-IsServedPair req s asks v (ap (λ t. t.status) same ∙ success))
