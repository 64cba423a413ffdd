-- ===== src/Server/Requests/Classify.antt =====
-- pkg/daemon/server.go: `classifyRefreshError` on the errors that `TokenManager.Refresh` has.
use kubelogin_daemon.Prelude.{
  ◌≡◌, refl, inl, inr, true, false, Option, some, ◌++◌, arith, if◌then◌else◌, Option-cases,
  Bool-cases,
}
use kubelogin_daemon.Text.{
  Text, codes, is_empty, has_prefix, contains, contains-append_right, contains_prefix,
}
use kubelogin_daemon.State.{Time}
use kubelogin_daemon.Refresher
use kubelogin_daemon.Refresher.{
  Network, TlsClient, OidcRefresher, TokenSet, Result, ok, err, wrap, build_tls_config, HttpClient,
  Endpoint, filter_request_headers,
}
use kubelogin_daemon.Token.{
  TokenManager, TokenEntry, RefreshError, not_refreshed, refresh_result, refresh_error, is_revoked,
}
use kubelogin_daemon.Token.Refreshing.{Result-cases, is_revoked-refresh_error}
use kubelogin_daemon.Ipc.{ErrCode, Status}
use kubelogin_daemon.Server.Requests.{classify_refresh_error, is_unreachable}

-- The code of an answer to an error that is about a refresh.
abbrev pub code_of : Text → ErrCode
code_of e =
    if is_revoked e
    then ErrCode.token_revoked
    else if is_unreachable e
    then ErrCode.provider_unreachable
    else ErrCode.refresh_failed

refresh_error-mentions : (e : Text) → contains (refresh_error e).text (codes "refresh") ≡ true
unfolding refresh_error contains has_prefix
refresh_error-mentions e = elim (Bool-cases (is_revoked e)) [
  | inl h ↦ rw (h, refresh_error) refl
  | inr h ↦ rw (h, refresh_error) refl
]

local_errors_mention :
    (contains (codes "no token to refresh") (codes "refresh") ≡ true)
    × (contains (codes "refresh token is empty, re-authentication required") (codes "refresh")
        ≡ true)
unfolding contains has_prefix
local_errors_mention = (refl, refl)

-- Whatever the provider answers, an error of `Refresh` has a text with the word refresh, so that
-- its answer never is the one that needs a login for an unknown reason: it has the status of an
-- error, and the code TOKEN_REVOKED, PROVIDER_UNREACHABLE or REFRESH_FAILED by what the text says.
classify-refresh_result :
    (exchange : OidcRefresher → Text → Result TokenSet) (now : Time) (m : TokenManager)
    (e : RefreshError)
    → refresh_result exchange now m ≡ not_refreshed e
    → let r = classify_refresh_error e.text in
      (contains e.text (codes "refresh") ≡ true)
      × (r.status ≡ Status.error)
      × (r.error_code ≡ some (code_of e.text))
unfolding classify_refresh_error refresh_result
classify-refresh_result exchange now m e h =
    let mentions : contains e.text (codes "refresh") ≡ true = elim (Option-cases m.current) [
      | inl c ↦ ground (arith, local_errors_mention)
      | inr (t, c) ↦ elim (Result-cases (exchange m.refresher t.refresh_token)) [
        | inl (s, a) ↦ ground (arith, local_errors_mention)
        | inr (x, a) ↦ ground (arith, local_errors_mention, refresh_error-mentions x)
      ]
    ] in
    (mentions, ground arith, ground arith)

-- A provider whose discovery fails is reported as PROVIDER_UNREACHABLE, whatever the error says,
-- unless its text is one of a revoked grant. The manager has a refresh token, and the TLS
-- configuration can be built.
pub classify-discovery_failure :
    (net : Network) (now : Time) (m : TokenManager) (t : TokenEntry) (tls : Option TlsClient)
    (x : Text)
    → m.current ≡ some t
    → is_empty t.refresh_token ≡ false
    → build_tls_config net m.refresher.tls_config ≡ ok tls
    → net.discover
        (record {
          tls = tls;
          headers = filter_request_headers m.refresher.provider.request_headers;
        })
        m.refresher.provider.issuer_url
      ≡ err x
    → is_revoked (codes "oidc discovery: " ++ x) ≡ false
    → (e : RefreshError) × (refresh_result (Refresher.refresh net) now m ≡ not_refreshed e)
      × ((classify_refresh_error e.text).error_code ≡ some ErrCode.provider_unreachable)
unfolding refresh_result refresh_error
classify-discovery_failure net now m t tls x c full built failed calm =
    let failure : Refresher.refresh net m.refresher t.refresh_token
        ≡ err (codes "oidc discovery: " ++ x) =
      unfold Refresher.refresh in rw (built, failed) refl in
    let e = codes "oidc discovery: " ++ x in
    let named : contains e (codes "oidc discovery") ≡ true =
      contains_prefix e (codes "oidc discovery") (unfold has_prefix in refl) in
    let reported : contains (refresh_error e).text (codes "oidc discovery") ≡ true =
      rw (calm, refresh_error) (contains-append_right (codes "refresh failed: ") e _ named) in
    (
      refresh_error (codes "oidc discovery: " ++ x),
      rw (c, refresh_result, full, failure) refl,
      unfold classify_refresh_error in ground (arith, reported, is_revoked-refresh_error e),
    )
