-- ===== src/Token/Examples.antt =====
-- The theorems on pkg/daemon/token_manager.go at a concrete manager.
use kubelogin_daemon.Prelude.{◌+◌, ◌*◌, ◌≤◌, ◌<◌, ◌≡◌, refl, ◌⊎◌, true, some, arith}
use kubelogin_daemon.Text.{Text, codes, contains, has_prefix}
use kubelogin_daemon.State.{Time}
use kubelogin_daemon.Refresher.{OidcRefresher, TokenSet, Result, err}
use kubelogin_daemon.Refresher.Samples.{plain_refresher}
use kubelogin_daemon.Token.{
  TokenManager, TokenEntry, Config, armed, second, backoff, RefreshError, new_token_manager,
  schedule_retry, schedule_proactive_refresh, fire_refresh_timer, stop, refresh_result,
  proactive_callback, retry_callback, here, next, stops,
}
use kubelogin_daemon.Token.Accounting.{WgInv, new-Steps-WgInv, stop_final, new_token_manager-WgInv}
use kubelogin_daemon.Token.Backoff.{schedule_retry_bounds, schedule_proactive_refresh_bounds}
use kubelogin_daemon.Token.Refreshing.{
  AfterCallback, callbacks_after_refusal, proactive_callback_cases,
}

abbrev plain_config : Config
plain_config = record {
  refresher = plain_refresher;
  cache_key = codes "ab12";
  refresh_margin = 0;
  min_refresh_interval = 0;
  persist_interval = 0;
}

abbrev now : Time
now = 1_000_000 * second

abbrev fresh : TokenManager
fresh = new_token_manager now plain_config

abbrev hour_token : TokenEntry
hour_token = record {
  id_token = codes "h.p.s";
  refresh_token = codes "rt";
  expiry = now + 3_600 * second;
  obtained_at = now;
}

-- A manager with a token for an hour, whose timer has fired.
abbrev firing : TokenManager
firing =
    fire_refresh_timer
      (schedule_proactive_refresh now hour_token (record fresh { current = some hour_token }))

abbrev refused : OidcRefresher → Text → Result TokenSet
refused r token = err (codes "invalid_grant")

new-Steps-WgInv_example : WgInv (stop fresh)
new-Steps-WgInv_example = new-Steps-WgInv now plain_config (stop fresh) (next here stops)

stop_final_example :
    ((stop fresh).running ≡ 0) × ((stop fresh).callback_wg ≡ 0) × ((stop fresh).canceled ≡ true)
unfolding stop new_token_manager
stop_final_example =
    stop_final {m = fresh} (new_token_manager-WgInv now plain_config) here refl here

abbrev holding : TokenManager
holding = record fresh { current = some hour_token }

callbacks_after_refusal_example :
    (proactive_callback refused now 7 hour_token holding ≡ holding)
    × (retry_callback refused now 7 holding ≡ holding)
unfolding contains has_prefix new_token_manager
callbacks_after_refusal_example =
    callbacks_after_refusal refused now 7 hour_token hour_token holding (codes "invalid_grant") refl
      refl refl

schedule_retry_bounds_example :
    (d : Time) × ((schedule_retry now 7 hour_token fresh).refresh_timer ≡ armed d)
    × (now + d ≤ hour_token.expiry)
    × (4 * d ≤ 5 * backoff 1)
    × (4 * d ≤ 150 * second)
    × ((3 * backoff 1 ≤ 4 * d + 5) ⊎ (now + d ≡ hour_token.expiry))
    × ((schedule_retry now 7 hour_token fresh).retry_count ≡ 1)
unfolding new_token_manager
schedule_retry_bounds_example =
    schedule_retry_bounds now 7 hour_token fresh refl (omega arith) (omega arith)

schedule_proactive_refresh_bounds_example :
    (d : Time) × ((schedule_proactive_refresh now hour_token fresh).refresh_timer ≡ armed d)
    × (fresh.min_refresh_interval ≤ d)
    × ((now + d < hour_token.expiry) ⊎ (d ≡ fresh.min_refresh_interval))
unfolding new_token_manager
schedule_proactive_refresh_bounds_example =
    schedule_proactive_refresh_bounds now hour_token fresh refl (omega arith) (omega arith)

revoked_error : RefreshError
revoked_error = record { text = codes "refresh token revoked: invalid_grant"; is_permanent = true }

renewed : TokenEntry
renewed = record {
  id_token = codes "h.e30.s";
  refresh_token = codes "rt";
  expiry = 62_135_604_000_000_000_000;
  obtained_at = now;
}

proactive_callback_cases_example :
    AfterCallback now hour_token firing
      (proactive_callback refused now 7 hour_token firing)
      (refresh_result refused now firing)
unfolding fire_refresh_timer schedule_proactive_refresh new_token_manager
proactive_callback_cases_example =
    proactive_callback_cases refused now 7 hour_token firing refl refl refl
