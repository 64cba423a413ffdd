-- ===== src/Cli/Reports.antt =====
-- main.go: `runCheck` and `runRefresh`, over the session of the shim. What they print is a value,
-- with the exit code that they end in.
use kubelogin_daemon.Prelude.{
  ℕ, Bool, true, false, Option, none, some, if◌then◌else◌, ◌⊎◌, inl, inr,
}
use kubelogin_daemon.Text.{Text}
use kubelogin_daemon.State.{Time}
use kubelogin_daemon.Refresher.{Result, err, ok}
use kubelogin_daemon.Ipc.{
  Response, ErrCode, Message, Action, ReportedState, success, error, needs_auth, login_in_progress,
  token_expired, token_revoked, needs_login,
}
use kubelogin_daemon.Shim.Requests.{
  Os, Session, IpcError, check_request, refresh_request, health_request, send_request,
  call_auto_start,
}
use kubelogin_daemon.Cli.Flags.{OidcFlags, Key, key_of}
use kubelogin_daemon.Cli.Login.{provider_request}

-- The reasons for which a command does not come to the daemon's answer.
pub data Failure : Type 0 where
  bad_configuration cannot_start cannot_reach : Failure

-- What `runCheck` writes as JSON of a response. An absent Boolean counts as false.
pub record CheckOutput : Type 0 where
  pub ready : Bool
  pub state : Option ReportedState
  pub daemon_running : Bool
  pub access_token_expires : Option Time
  pub refresh_token_valid : Option Bool
  pub error_code : Option ErrCode
  pub message : Option Message
  pub action : Option Action
  pub login_started_at : Option Time

-- With `--output json` or without, a failure or the answer.
pub data CheckReport : Type 0 where
  json_failure plain_failure : Failure → CheckReport
  json_answer : CheckOutput → CheckReport
  valid_until : Option Time → CheckReport
  not_ready : Option ReportedState → Option Message → Option Action → CheckReport

abbrev pub holds : Option Bool → Bool
holds none = false
holds (some b) = b

unfoldable pub check_output : Response → CheckOutput
check_output resp = record {
  ready = holds resp.ready;
  state = resp.state;
  daemon_running = holds resp.daemon_running;
  access_token_expires = resp.access_token_expiry;
  refresh_token_valid = resp.refresh_token_valid;
  error_code = resp.error_code;
  message = resp.message;
  action = resp.action;
  login_started_at = resp.login_started_at;
}

-- The report and the exit code.
unfoldable pub check_failure : Bool → Failure → CheckReport × ℕ
check_failure json reason = ((if json then json_failure reason else plain_failure reason), 1)

unfoldable pub check_answer : Bool → Response → CheckReport × ℕ
unfolding check_output
check_answer true resp = (json_answer (check_output resp), if holds resp.ready then 0 else 1)
check_answer false resp =
    if holds resp.ready
    then (valid_until resp.access_token_expiry, 0)
    else (not_ready resp.state resp.message resp.action, 1)

pub data RefreshReport : Type 0 where
  refresh_impossible : Failure → RefreshReport
  quiet_success : RefreshReport
  renewed_until : Time → RefreshReport
  success_message : Option Message → RefreshReport
  session_expired unexpected : RefreshReport
  refresh_error : Option Message → RefreshReport

abbrev pub is_login_code : Option ErrCode → Bool
is_login_code (some needs_login) = true
is_login_code (some token_expired) = true
is_login_code (some token_revoked) = true
is_login_code _ = false

unfoldable pub refresh_answer : Bool → Response → RefreshReport × ℕ
refresh_answer quiet resp = elim resp.status [
  | success ↦ (
    (if quiet
        then quiet_success
        else if holds resp.refreshed
        then renewed_until resp.expiry
        else success_message resp.message),
    0,
  )
  | error ↦
      ((if is_login_code resp.error_code then session_expired else refresh_error resp.error), 1)
  | needs_auth ↦ (unexpected, 1)
  | login_in_progress ↦ (unexpected, 1)
]

module _ {W : Type 0} (os : Os W) (checksum : Key → Result Text) where
  -- The daemon is started where it does not answer.
  unfoldable pub start_unless_alive : Session W × (IpcError ⊎ Response) → Session W × Option Text
  start_unless_alive (s, inl e) = call_auto_start os s
  start_unless_alive (s, inr resp) = (s, none)

  unfoldable pub checked : Bool → Session W × (IpcError ⊎ Response) → Session W × (CheckReport × ℕ)
  checked json (s, inl e) = (s, check_failure json cannot_reach)
  checked json (s, inr resp) = (s, check_answer json resp)

  unfoldable pub check_started :
      Bool → Text → Session W × Option Text → Session W × (CheckReport × ℕ)
  unfolding checked
  check_started json key (s, some e) = (s, check_failure json cannot_start)
  check_started json key (s, none) = checked json (send_request os (check_request key) s)

  unfoldable pub run_check : Bool → OidcFlags → Session W → Session W × (CheckReport × ℕ)
  unfolding check_started start_unless_alive
  run_check json f s = elim (checksum (key_of f)) [
    | err e ↦ (s, check_failure json bad_configuration)
    | ok key ↦ check_started json key (start_unless_alive (send_request os health_request s))
  ]

  unfoldable pub refresh_replied :
      Bool → Session W × (IpcError ⊎ Response) → Session W × (RefreshReport × ℕ)
  refresh_replied quiet (s, inl e) = (s, (refresh_impossible cannot_reach, 1))
  refresh_replied quiet (s, inr resp) = (s, refresh_answer quiet resp)

  unfoldable pub refresh_started :
      Bool → OidcFlags → Text → Session W × Option Text → Session W × (RefreshReport × ℕ)
  unfolding refresh_replied
  refresh_started quiet f key (s, some e) = (s, (refresh_impossible cannot_start, 1))
  refresh_started quiet f key (s, none) =
      refresh_replied quiet (send_request os (refresh_request key (provider_request f)) s)

  unfoldable pub run_refresh_command :
      Bool → OidcFlags → Session W → Session W × (RefreshReport × ℕ)
  unfolding refresh_started start_unless_alive
  run_refresh_command quiet f s = elim (checksum (key_of f)) [
    | err e ↦ (s, (refresh_impossible bad_configuration, 1))
    | ok key ↦ refresh_started quiet f key (start_unless_alive (send_request os health_request s))
  ]
