-- ===== src/Shim/Replies.antt =====
-- What `GetTokenFromDaemon` returns is a daemon's reply to a request for the token.
use kubelogin_daemon.Prelude.{
  ℕ, zero, suc, ◌+◌, ◌-◌, ◌*◌, Bool, true, false, not, ◌&&◌, ◌==◌, Option, none, some, leb, ltb,
  ◌⊎◌, inl, inr, if_both, Option-cases,
}
use kubelogin_daemon.Text.{Text}
use kubelogin_daemon.Ipc.{Request, Response, protocol_version, get_token}
use kubelogin_daemon.Shim.Requests.{
  Os, Session, IpcError, is_connection_refused, is_no_such_file, send, send_request_with_timeout,
  send_shutdown, call_auto_start, call_kill, call_sleep, millisecond, get_token_request,
  ShutdownError,
}
use kubelogin_daemon.Shim.Client.{
  Outcome, get_token_timeout, once_started, start_or_wait, retry, connect, poll_gone,
  restarted_reply, ask_restarted, reconnect, after_kill, kill_old, kill_unless_gone, restart,
  is_mismatch, finish, get_token_from_daemon,
}

-- A property of the response, where there is one.
abbrev pub Returns : {A : Type 0} → (Response → Type 0) → A ⊎ Response → Type 0
Returns Q (inl e) = Unit
Returns Q (inr resp) = Q resp

-- A property of the world and the response with which a call returns.
abbrev pub Holds : {W A : Type 0} → (W → Response → Type 0) → Session W × (A ⊎ Response) → Type 0
Holds Q r = Returns (Q r.0.world) r.1

module _ {W : Type 0} (os : Os W) (cache_key : Text) (req : Request)
    (Q : W → Response → Type 0) where
  abbrev full : Request
  full = record req { version = protocol_version; command = get_token; cache_key = cache_key }

  -- Every reply to the request has the property, with whatever nonce it is sent.
  abbrev pub EveryReply : Type 0
  EveryReply =
      (nonce : Text) (limit : ℕ) (w : W)
      → let answered = os.exchange (record full { nonce = nonce }) limit limit w in
        Returns (Q answered.0) answered.1

  module _ (every : EveryReply) where
    send-Returns : (limit : ℕ) (s : Session W) → Holds Q (send_request_with_timeout os full limit s)
    unfolding send_request_with_timeout send
    send-Returns limit s = every _ limit s.world

    once_started-Returns :
        (again : Session W → Outcome W) (r : Session W × Option Text)
        → ((s : Session W) → Holds Q (again s))
        → Holds Q (once_started os again r)
    unfolding once_started
    once_started-Returns again (s, some text) ih = tt
    once_started-Returns again (s, none) ih = ih s

    start_or_wait-Returns :
        (again : Bool → Session W → Outcome W) (started : Bool) (s : Session W)
        → ((on : Bool) (s : Session W) → Holds Q (again on s))
        → Holds Q (start_or_wait os again started s)
    unfolding start_or_wait
    start_or_wait-Returns again true s ih = ih true (call_sleep os (200 * millisecond) s)
    start_or_wait-Returns again false s ih =
        once_started-Returns (again true) (call_auto_start os s) (ih true)

    retry-Returns :
        (again : IpcError → Bool → Session W → Outcome W) (started : Bool)
        (r : Session W × (IpcError ⊎ Response))
        → ((e : IpcError) (on : Bool) (s : Session W) → Holds Q (again e on s))
        → Holds Q r
        → Holds Q (retry os again started r)
    unfolding retry
    retry-Returns again started (s, inr resp) ih q = q
    retry-Returns again started (s, inl e) ih q =
        if_both (λ (r : Outcome W). Holds Q r)
          (not (is_connection_refused e) && not (is_no_such_file e)) tt
          (start_or_wait-Returns (again e) started s (ih e))

    connect-Returns :
        (deadline n : ℕ) (last : IpcError) (started : Bool) (s : Session W)
        → Holds Q (connect os full deadline n last started s)
    unfolding connect
    connect-Returns deadline zero last started s = tt
    connect-Returns deadline (suc n) last started s =
        if_both (λ (r : Outcome W). Holds Q r) (leb deadline (os.now s.world)) tt
          (retry-Returns (λ e on t. connect os full deadline n e on t) started
            (send_request_with_timeout os full (deadline - os.now s.world) s)
            (λ e on t. connect-Returns deadline n e on t)
            (send-Returns (deadline - os.now s.world) s))

    restarted_reply-Returns :
        (r : Session W × (IpcError ⊎ Response)) → Holds Q r → Holds Q (restarted_reply r)
    unfolding restarted_reply
    restarted_reply-Returns (s, inl e) q = tt
    restarted_reply-Returns (s, inr resp) q = q

    ask_restarted-Returns :
        (deadline : ℕ) (r : Session W × Option Text) → Holds Q (ask_restarted os full deadline r)
    unfolding ask_restarted
    ask_restarted-Returns deadline (s, some text) = tt
    ask_restarted-Returns deadline (s, none) =
        if_both (λ (r : Outcome W). Holds Q r) (leb deadline (os.now s.world)) tt
          (restarted_reply-Returns (send_request_with_timeout os full (deadline - os.now s.world) s)
            (send-Returns (deadline - os.now s.world) s))

    reconnect-Returns : (deadline : ℕ) (s : Session W) → Holds Q (reconnect os full deadline s)
    unfolding reconnect
    reconnect-Returns deadline s =
        if_both (λ (r : Outcome W). Holds Q r) (leb deadline (os.now s.world)) tt
          (ask_restarted-Returns deadline (call_auto_start os s))

    kill_old-Returns :
        (deadline old_pid : ℕ) (refusal : Option ShutdownError) (s : Session W)
        → Holds Q (kill_old os full deadline old_pid refusal s)
    unfolding kill_old
    kill_old-Returns deadline old_pid refusal s =
        if_both (λ (r : Outcome W). Holds Q r) (ltb 0 old_pid && not (old_pid == os.own_pid))
          (reconnect-Returns deadline (after_kill os (call_kill os old_pid s)))
          (elim (Option-cases refusal) [
            | inr (failure, refused) ↦ rw refused tt
            | inl accepted ↦ rw accepted (reconnect-Returns deadline s)
          ])

    kill_unless_gone-Returns :
        (deadline old_pid : ℕ) (refusal : Option ShutdownError) (r : Session W × Bool)
        → Holds Q (kill_unless_gone os full deadline old_pid refusal r)
    unfolding kill_unless_gone
    kill_unless_gone-Returns deadline old_pid refusal (s, true) = reconnect-Returns deadline s
    kill_unless_gone-Returns deadline old_pid refusal (s, false) =
        kill_old-Returns deadline old_pid refusal s

    restart-Returns :
        (deadline old_pid : ℕ) (r : Session W × Option ShutdownError)
        → Holds Q (restart os full deadline old_pid r)
    unfolding restart
    restart-Returns deadline old_pid (s, refusal) =
        kill_unless_gone-Returns deadline old_pid refusal (poll_gone os 6 s)

    finish-Returns :
        (deadline : ℕ) (r : Outcome W) → Holds Q r → Holds Q (finish os full deadline r)
    unfolding finish
    finish-Returns deadline (s, inl e) q = tt
    finish-Returns deadline (s, inr resp) q =
        if_both (λ (r : Outcome W). Holds Q r) (is_mismatch resp)
          (restart-Returns deadline resp.pid (send_shutdown os s)) q

    -- What holds of every reply to the request of `get-token`, in the world after it, holds of the
    -- response that it returns, in the world at its end, after a restart of the daemon too: the shim makes up no response of its own.
    pub get_token-Returns : (s : Session W) → Holds Q (get_token_from_daemon os cache_key req s)
    unfolding get_token_from_daemon get_token_request
    get_token-Returns s =
        finish-Returns (os.now s.world + get_token_timeout)
          (connect os full (os.now s.world + get_token_timeout) 3 IpcError.no_such_file false s)
          (connect-Returns (os.now s.world + get_token_timeout) 3 IpcError.no_such_file false s)
