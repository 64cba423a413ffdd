-- ===== src/Shim/Bounds.antt =====
-- `GetTokenFromDaemon` comes to an end: bounds on what it does, with the starts of a daemon in it.
use kubelogin_daemon.Prelude.{ℕ, ◌+◌, ◌*◌, ◌≤◌, Option, none, some, arith}
use kubelogin_daemon.Text.{Text}
use kubelogin_daemon.Ipc.{Request}
use kubelogin_daemon.Shim.Requests.{
  Os, Session, read_daemon_nonce, send, call_auto_start, call_probe, call_kill, call_sleep,
  millisecond, second,
}
use kubelogin_daemon.Shim.Client.{get_token_from_daemon}
use kubelogin_daemon.Shim.Calls.{sends, starts, kills, waits, get_token-Spent}
use kubelogin_daemon.Shim.Sessions.{Kept, get_token-kept}
use kubelogin_daemon.Shim.Autostart.{StartOs, StartError, auto_start_daemon}
use kubelogin_daemon.Shim.Autostart.Waits.{SleepLaws, auto_start_daemon_waits}

-- A result of `AutoStartDaemon` for the shim, which prints the error.
unfoldable pub described :
    {W : Type 0} → (StartError → Text) → W × Option StartError → W × Option Text
described print (w, none) = (w, none)
described print (w, some e) = (w, some (print e))

-- The calls of the shim, with `AutoStartDaemon` over `start`.
unfoldable pub with_starts : {W : Type 0} → (StartError → Text) → StartOs W → Os W → Os W
unfolding described
with_starts print start os = record os {
  auto_start = λ w. described print (auto_start_daemon start w);
}

-- Of the shim's own calls, only a sleep adds to the time that was slept.
pub record CallLaws {W : Type 0} (os : Os W) (slept : W → ℕ) : Type 0 where
  pub exchange_adds :
      (req : Request) (dial limit : ℕ) (w : W) → slept (os.exchange req dial limit w).0 ≤ slept w
  pub alive_adds : (w : W) → slept (os.probe_alive w).0 ≤ slept w
  pub kill_adds : (pid : ℕ) (w : W) → slept (os.kill pid w).0 ≤ slept w
  pub pause_adds : (n : ℕ) (w : W) → slept (os.sleep n w) ≤ n + slept w

module _ {W : Type 0} (print : StartError → Text) (start : StartOs W) (os : Os W) (slept : W → ℕ)
    (start_laws : SleepLaws start slept) (laws : CallLaws os slept) where
  described-slept :
      (r : W × Option StartError) (n : ℕ) → slept r.0 ≤ n → slept (described print r).0 ≤ n
  unfolding described
  described-slept (w, none) n h = h
  described-slept (w, some e) n h = h

  -- Since the session `s`, what was slept is in the log, with five seconds for each start.
  abbrev IsLogged : Session W → Session W → Type 0
  IsLogged s t =
      slept t.world + (waits s.calls + 5 * second * starts s.calls)
      ≤ slept s.world + (waits t.calls + 5 * second * starts t.calls)

  IsLogged-Kept : (s : Session W) → Kept (with_starts print start os) (IsLogged s)
  unfolding with_starts send call_auto_start call_probe call_kill call_sleep
  IsLogged-Kept s = record {
    by_send = λ dial limit req t i.
        let full : Request = record req { nonce = read_daemon_nonce (os.nonce_file t.world) } in
        let same = laws.exchange_adds full dial limit t.world in omega (arith, same, i);
    by_start = λ t i.
        let began =
          described-slept (auto_start_daemon start t.world) _
            (auto_start_daemon_waits start slept start_laws t.world) in
        omega (arith, began, i);
    by_probe = λ t i. let same = laws.alive_adds t.world in omega arith;
    by_kill = λ pid t i. let same = laws.kill_adds pid t.world in omega arith;
    by_sleep = λ n t i. let more = laws.pause_adds n t.world in omega arith;
  }

  -- `get-token` comes to an end after at most five requests to a daemon, two starts of one, one
  -- kill, and 11.4 seconds of sleep, the sleeps within the starts included, whatever the calls of
  -- the operating system return. Only sleeps count, each with a random part of at most 400 ms.
  pub get_token_bounds :
      (cache_key : Text) (req : Request) (s : Session W)
      → let end = (get_token_from_daemon (with_starts print start os) cache_key req s).0 in
        (sends end.calls ≤ 5 + sends s.calls)
        × (starts end.calls ≤ 2 + starts s.calls)
        × (kills end.calls ≤ 1 + kills s.calls)
        × (slept end.world ≤ 11_400 * millisecond + slept s.world)
  get_token_bounds cache_key req s =
      let end = (get_token_from_daemon (with_starts print start os) cache_key req s).0 in
      let (asked, started, killed, waited) =
        get_token-Spent (with_starts print start os) cache_key req s in
      let logged : IsLogged s end =
        get_token-kept (with_starts print start os) (IsLogged s) (IsLogged-Kept s) cache_key req s
          (omega arith) in
      (asked, started, killed, omega arith)
