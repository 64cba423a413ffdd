-- ===== src/Cli/Settled.antt =====
-- How `runLogin` leaves the daemon.
use kubelogin_daemon.Prelude.{
  ◌≡◌, refl, ap, true, false, Option, none, some, List, ◌∷◌, ◌⊎◌, inl, inr, arith, Bool-cases,
  Sum-cases, if_both,
}
use kubelogin_daemon.Text.{Text}
use kubelogin_daemon.Refresher.{TokenSet, ok}
use kubelogin_daemon.Ipc.{
  Request, Response, Status, Command, success, error, needs_auth, login_in_progress,
}
use kubelogin_daemon.Shim.Requests.{
  Os, Session, Call, sent, IpcError, to_option, send, send_request, cancel_login_request,
  store_token_request, is_success,
}
use kubelogin_daemon.Cli.Flags.{OidcFlags, key_of, map_grant_type}
use kubelogin_daemon.Cli.Login.{
  LoginOs, LoginResult, invalid_configuration, cannot_start, cannot_connect, unsupported_grant,
  is_in_progress, login_interrupted, cannot_restart, not_saved, authentication_failed, logged_in,
  AuthResult, authenticated, auth_error, interrupted, login_provider, login_options,
  provider_request, Phase, Ended, replace_daemon, begun, begin_restarted, begin_by_force,
  begin_again, begin, cancel, stored_again, store_restarted, stored, after_auth, authenticate,
  after_begin, after_ensure, run_login,
}

-- The last call was a cancel of the login of a key.
abbrev pub IsCancel : Text → List Call → Type 0
IsCancel key (sent req dial limit reply ∷ calls) =
    (req.command ≡ Command.cancel_login) × (req.cache_key ≡ key)
IsCancel key _ = true ≡ false

-- The last call stored a token set under a key, and was answered with success.
abbrev pub IsStore : Text → TokenSet → Response → List Call → Type 0
IsStore key tokens resp (sent req dial limit reply ∷ calls) =
    (req.command ≡ Command.store_token)
    × (req.cache_key ≡ key)
    × (req.id_token ≡ tokens.id_token)
    × (req.refresh_token ≡ tokens.refresh_token)
    × (reply ≡ some resp)
    × (resp.status ≡ success)
IsStore key tokens resp _ = true ≡ false

is_success_iff : (s : Status) → is_success s ≡ true → s ≡ success
is_success_iff success h = refl
is_success_iff error h = absurd (ground arith)
is_success_iff needs_auth h = absurd (ground arith)
is_success_iff login_in_progress h = absurd (ground arith)

module _ {W : Type 0} (os : Os W) (more : LoginOs W) (f : OidcFlags) (key : Text) where
  -- A login that succeeds has stored what the provider gave; one that fails at the provider has
  -- cancelled.
  abbrev pub IsSettled : Ended W → Type 0
  IsSettled (s, logged_in resp) =
      (grant : Text) × (w : W) × (tokens : TokenSet) × (map_grant_type f.grant_type ≡ inr grant)
      × ((more.perform_auth (login_provider f) grant (login_options f grant) w).1
          ≡ authenticated tokens)
      × IsStore key tokens resp s.calls
  IsSettled (s, authentication_failed e) = IsCancel key s.calls
  IsSettled (s, login_interrupted) = IsCancel key s.calls
  IsSettled (s, unsupported_grant) = IsCancel key s.calls
  IsSettled (s, invalid_configuration) = Unit
  IsSettled (s, cannot_start) = Unit
  IsSettled (s, cannot_connect) = Unit
  IsSettled (s, cannot_restart) = Unit
  IsSettled (s, not_saved) = Unit

  cancelled : (s : Session W) → IsCancel key (send_request os (cancel_login_request key) s).0.calls
  unfolding send_request send cancel_login_request
  cancelled s = (refl, refl)

  -- The results with which a login has not come to the provider.
  abbrev EndsEarly : LoginResult → Type 0
  EndsEarly cannot_connect = Unit
  EndsEarly cannot_start = Unit
  EndsEarly _ = true ≡ false

  abbrev IsEarly : Phase W → Type 0
  IsEarly (s, none) = Unit
  IsEarly (s, some result) = EndsEarly result

  early-IsSettled :
      (s : Session W) (result : LoginResult) → EndsEarly result → IsSettled (s, result)
  early-IsSettled s cannot_connect e = tt
  early-IsSettled s cannot_start e = tt
  early-IsSettled s invalid_configuration e = tt
  early-IsSettled s cannot_restart e = tt
  early-IsSettled s not_saved e = tt
  early-IsSettled s unsupported_grant e = absurd (ground arith)
  early-IsSettled s login_interrupted e = absurd (ground arith)
  early-IsSettled s (authentication_failed t) e = absurd (ground arith)
  early-IsSettled s (logged_in r) e = absurd (ground arith)

  begun-IsEarly :
      (otherwise : Session W → Phase W) (r : Session W × (IpcError ⊎ Response))
      → ((s : Session W) → IsEarly (otherwise s))
      → IsEarly (begun os more otherwise r)
  unfolding begun
  begun-IsEarly otherwise (s, inl e) h = tt
  begun-IsEarly otherwise (s, inr resp) h = if_both IsEarly (is_in_progress resp.status) (h s) tt

  begin_restarted-IsEarly : (r : Session W × Option Text) → IsEarly (begin_restarted os more key r)
  unfolding begin_restarted
  begin_restarted-IsEarly (s, some e) = tt
  begin_restarted-IsEarly (s, none) = begun-IsEarly (λ s. (s, none)) _ (λ s. tt)

  begin-IsEarly : (s : Session W) → IsEarly (begin os more key s)
  unfolding begin begin_again begin_by_force
  begin-IsEarly s =
      begun-IsEarly (begin_again os more key) _
        (λ s. begun-IsEarly (begin_by_force os more key) _ (λ s. begin_restarted-IsEarly _))

  module _ (grant : Text) (w : W) (tokens : TokenSet)
      (mapped : map_grant_type f.grant_type ≡ inr grant)
      (given : (more.perform_auth (login_provider f) grant (login_options f grant) w).1
        ≡ authenticated tokens) where
    abbrev store_request : Request
    store_request =
        store_token_request key (provider_request f) tokens.id_token tokens.refresh_token

    -- A reply that succeeds is the last of the log.
    abbrev Logged : Session W × (IpcError ⊎ Response) → Type 0
    Logged r =
        (resp : Response)
        → r.1 ≡ inr resp
        → resp.status ≡ success
        → IsStore key tokens resp r.0.calls

    sent-Logged : (s : Session W) → Logged (send_request os store_request s)
    unfolding send_request send store_token_request
    sent-Logged s resp h accepted = (refl, refl, refl, refl, ap to_option h, accepted)

    stored_again-IsSettled :
        (r : Session W × (IpcError ⊎ Response)) → Logged r → IsSettled (stored_again os more r)
    unfolding stored_again
    stored_again-IsSettled (s, inl e) l = tt
    stored_again-IsSettled (s, inr resp) l = elim (Bool-cases (is_success resp.status)) [
      | inr e ↦ rw e tt
      | inl e ↦ rw e (grant, w, tokens, mapped, given, l resp refl (is_success_iff resp.status e))
    ]

    store_restarted-IsSettled :
        (r : Session W × Option Text) → IsSettled (store_restarted os more store_request r)
    unfolding store_restarted
    store_restarted-IsSettled (s, some e) = tt
    store_restarted-IsSettled (s, none) =
        stored_again-IsSettled (send_request os store_request s) (sent-Logged s)

    stored-IsSettled :
        (r : Session W × (IpcError ⊎ Response))
        → Logged r
        → IsSettled (stored os more store_request r)
    unfolding stored
    stored-IsSettled (s, inl e) l = store_restarted-IsSettled (replace_daemon os more s)
    stored-IsSettled (s, inr resp) l = elim (Bool-cases (is_success resp.status)) [
      | inr e ↦ rw e (store_restarted-IsSettled (replace_daemon os more s))
      | inl e ↦ rw e (grant, w, tokens, mapped, given, l resp refl (is_success_iff resp.status e))
    ]

  after_auth-IsSettled :
      (grant : Text) (w : W) (r : Session W × AuthResult)
      → map_grant_type f.grant_type ≡ inr grant
      → (more.perform_auth (login_provider f) grant (login_options f grant) w).1 ≡ r.1
      → IsSettled (after_auth os more key f r)
  unfolding after_auth cancel
  after_auth-IsSettled grant w (s, auth_error e) mapped given = cancelled s
  after_auth-IsSettled grant w (s, interrupted) mapped given =
      cancelled (send_request os (cancel_login_request key) s).0
  after_auth-IsSettled grant w (s, authenticated tokens) mapped given =
      stored-IsSettled grant w tokens mapped given _ (sent-Logged grant w tokens mapped given s)

  authenticate-IsSettled : (s : Session W) → IsSettled (authenticate os more key f s)
  unfolding authenticate cancel
  authenticate-IsSettled s = elim (Sum-cases (map_grant_type f.grant_type)) [
    | inl (e, refused) ↦ rw (refused, authenticate) (cancelled s)
    | inr (grant, mapped) ↦
        rw (mapped, authenticate) (after_auth-IsSettled grant s.world _ mapped refl)
  ]

  after_begin-IsSettled : (p : Phase W) → IsEarly p → IsSettled (after_begin os more key f p)
  unfolding after_begin
  after_begin-IsSettled (s, some result) e = early-IsSettled s result e
  after_begin-IsSettled (s, none) e = authenticate-IsSettled s

  after_ensure-IsSettled : (r : Session W × Option Text) → IsSettled (after_ensure os more key f r)
  unfolding after_ensure
  after_ensure-IsSettled (s, some e) = tt
  after_ensure-IsSettled (s, none) = after_begin-IsSettled (begin os more key s) (begin-IsEarly s)

  -- A login that succeeds has ended with a `store-token` for its cache key, answered with success,
  -- of the very tokens that the provider gave for the mapped grant type. One that fails at the
  -- provider, is interrupted there, or has a grant type that is not supported, has ended with a
  -- `cancel-login`, whatever the calls of the operating system return. The cache key can be
  -- computed.
  pub run_login-IsSettled :
      (s : Session W) → more.checksum (key_of f) ≡ ok key → IsSettled (run_login os more f s)
  unfolding run_login
  run_login-IsSettled s h = rw (h, run_login) (after_ensure-IsSettled _)
