-- ===== src/Cli/Exits.antt =====
-- When `check` and `refresh` end in success.
use kubelogin_daemon.Prelude.{
  ℕ, ◌*◌, ◌≡◌, refl, Bool, true, false, Option, none, some, List, ◌∷◌, ◌⊎◌, inl, inr, arith,
  Bool-cases, ap, sym,
}
use mathlib.Core.Path.{subst}
use kubelogin_daemon.Text.{Text}
use kubelogin_daemon.Refresher.{Result, ok}
use kubelogin_daemon.Ipc.{Request, Response, Command, success, Status-cases}
use kubelogin_daemon.Shim.Requests.{
  Os, Session, Call, sent, IpcError, to_option, second, read_daemon_nonce, send, send_request,
  check_request, refresh_request,
}
use kubelogin_daemon.Cli.Flags.{OidcFlags, Key, key_of}
use kubelogin_daemon.Cli.Login.{provider_request}
use kubelogin_daemon.Cli.Reports.{
  holds, check_failure, check_answer, refresh_answer, checked, check_started, run_check,
  refresh_replied, refresh_started, run_refresh_command,
}

-- The last call was a command for a key, whose response satisfies a condition.
abbrev pub IsAnswered : Command → Text → (Response → Type 0) → List Call → Type 0
IsAnswered command key P (sent req dial limit (some resp) ∷ calls) =
    (req.command ≡ command) × (req.cache_key ≡ key) × P resp
IsAnswered command key P _ = true ≡ false

check_answer_zero :
    (json : Bool) (resp : Response) → (check_answer json resp).1 ≡ 0 → holds resp.ready ≡ true
unfolding check_answer
check_answer_zero true resp h = elim (Bool-cases (holds resp.ready)) [
  | inl e ↦ e
  | inr e ↦ absurd (ground arith)
]
check_answer_zero false resp h = elim (Bool-cases (holds resp.ready)) [
  | inl e ↦ e
  | inr e ↦ absurd (ground arith)
]

refresh_answer_zero :
    (quiet : Bool) (resp : Response) → (refresh_answer quiet resp).1 ≡ 0 → resp.status ≡ success
unfolding refresh_answer
refresh_answer_zero quiet resp h = elim (Status-cases resp.status) [
  | inl e ↦ e
  | inr (inl e) ↦ absurd (ground arith)
  | inr (inr (inl e)) ↦ absurd (ground arith)
  | inr (inr (inr e)) ↦ absurd (ground arith)
]

sent-IsAnswered :
    (P : Response → Type 0) (req : Request) (dial limit : ℕ) (reply : Option Response)
    (resp : Response) (calls : List Call)
    → reply ≡ some resp
    → P resp
    → IsAnswered req.command req.cache_key P (sent req dial limit reply ∷ calls)
sent-IsAnswered P req dial limit reply resp calls h p =
    subst (λ o. IsAnswered req.command req.cache_key P (sent req dial limit o ∷ calls)) (sym h)
      (refl, refl, p)

module _ {W : Type 0} (os : Os W) (checksum : Key → Result Text) where
  send_request-IsAnswered :
      (P : Response → Type 0) (req : Request) (s : Session W) (resp : Response)
      → (send_request os req s).1 ≡ inr resp
      → P resp
      → IsAnswered req.command req.cache_key P (send_request os req s).0.calls
  unfolding send_request send
  send_request-IsAnswered P req s resp h p =
      sent-IsAnswered P (record req { nonce = read_daemon_nonce (os.nonce_file s.world) })
        (5 * second) (30 * second) _ resp s.calls (ap to_option h) p

  checked-IsAnswered :
      (key : Text) (json : Bool) (r : Session W × (IpcError ⊎ Response))
      → ((resp : Response)
          → r.1 ≡ inr resp
          → holds resp.ready ≡ true
          → IsAnswered Command.check key (λ t. holds t.ready ≡ true) r.0.calls)
      → (checked os checksum json r).1.1 ≡ 0
      → IsAnswered Command.check key
          (λ t. holds t.ready ≡ true)
          (checked os checksum json r).0.calls
  unfolding checked check_failure
  checked-IsAnswered key json (s, inl e) l h = absurd (ground arith)
  checked-IsAnswered key json (s, inr resp) l h = l resp refl (check_answer_zero json resp h)

  check_started-IsAnswered :
      (key : Text) (json : Bool) (r : Session W × Option Text)
      → (check_started os checksum json key r).1.1 ≡ 0
      → IsAnswered Command.check key
          (λ t. holds t.ready ≡ true)
          (check_started os checksum json key r).0.calls
  unfolding check_started check_failure check_request
  check_started-IsAnswered key json (s, some e) h = absurd (ground arith)
  check_started-IsAnswered key json (s, none) h =
      checked-IsAnswered key json (send_request os (check_request key) s)
        (λ resp e ready.
          send_request-IsAnswered (λ t. holds t.ready ≡ true) (check_request key) s resp e ready)
        h

  -- `check` ends with the exit code 0 only where its last call was a check of its cache key, which
  -- the daemon has answered with ready, with JSON and without it. The cache key can be computed.
  pub run_check-IsAnswered :
      (json : Bool) (f : OidcFlags) (key : Text) (s : Session W)
      → checksum (key_of f) ≡ ok key
      → (run_check os checksum json f s).1.1 ≡ 0
      → IsAnswered Command.check key
          (λ t. holds t.ready ≡ true)
          (run_check os checksum json f s).0.calls
  unfolding run_check
  run_check-IsAnswered json f key s keyed h =
      rw (keyed, run_check) (check_started-IsAnswered key json _ (rw (keyed, run_check) at h))

  refresh_replied-IsAnswered :
      (key : Text) (quiet : Bool) (r : Session W × (IpcError ⊎ Response))
      → ((resp : Response)
          → r.1 ≡ inr resp
          → resp.status ≡ success
          → IsAnswered Command.refresh key (λ t. t.status ≡ success) r.0.calls)
      → (refresh_replied os checksum quiet r).1.1 ≡ 0
      → IsAnswered Command.refresh key
          (λ t. t.status ≡ success)
          (refresh_replied os checksum quiet r).0.calls
  unfolding refresh_replied
  refresh_replied-IsAnswered key quiet (s, inl e) l h = absurd (ground arith)
  refresh_replied-IsAnswered key quiet (s, inr resp) l h =
      l resp refl (refresh_answer_zero quiet resp h)

  refresh_started-IsAnswered :
      (f : OidcFlags) (key : Text) (quiet : Bool) (r : Session W × Option Text)
      → (refresh_started os checksum quiet f key r).1.1 ≡ 0
      → IsAnswered Command.refresh key
          (λ t. t.status ≡ success)
          (refresh_started os checksum quiet f key r).0.calls
  unfolding refresh_started refresh_request
  refresh_started-IsAnswered f key quiet (s, some e) h = absurd (ground arith)
  refresh_started-IsAnswered f key quiet (s, none) h =
      refresh_replied-IsAnswered key quiet
        (send_request os (refresh_request key (provider_request f)) s)
        (λ resp e ready.
          send_request-IsAnswered (λ t. t.status ≡ success)
            (refresh_request key (provider_request f)) s resp e ready)
        h

  -- `refresh` ends with the exit code 0 only where its last call was a refresh of its cache key,
  -- which the daemon has answered with success.
  run_refresh_command-IsAnswered :
      (quiet : Bool) (f : OidcFlags) (key : Text) (s : Session W)
      → checksum (key_of f) ≡ ok key
      → (run_refresh_command os checksum quiet f s).1.1 ≡ 0
      → IsAnswered Command.refresh key
          (λ t. t.status ≡ success)
          (run_refresh_command os checksum quiet f s).0.calls
  unfolding run_refresh_command
  run_refresh_command-IsAnswered quiet f key s keyed h =
      rw (keyed, run_refresh_command)
        (refresh_started-IsAnswered f key quiet _ (rw (keyed, run_refresh_command) at h))
