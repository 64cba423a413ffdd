-- ===== src/Refresher/Exchange.antt =====
-- pkg/daemon/refresher.go, `Refresh`: what a token set that it returns has gone through.
use kubelogin_daemon.Prelude.{◌≡◌, refl, sym, ap, ◌∙◌, Option, none, some, arith, if◌then◌else◌}
use kubelogin_daemon.Text.{Text, codes, is_empty}
use kubelogin_daemon.Jwt
use kubelogin_daemon.State.{Time}
use kubelogin_daemon.Jwt.{Claims, decode_without_verify}
use kubelogin_daemon.Refresher.Tls.{
  IsTls, AsksAs, build_tls_config-IsTls, oauth_config-AsksAs, >>=-eq-ok, wrap-eq-ok, ok-injective,
}
use kubelogin_daemon.Refresher.{
  OauthConfig, Provider, OidcRefresher, ok, wrap, Network, HttpClient, TlsClient, Endpoint,
  OauthToken, TokenSet, build_tls_config, oauth_config, select_token, expiry_of_claims,
  filter_request_headers, refresh,
}

-- How a verified token was checked: an access token without a client, an ID token for the client.
abbrev pub verifier_of : Provider → Option Text
verifier_of p = if p.use_access_token then none else some p.client_id

abbrev pub raw_token : Provider → OauthToken → Option Text
raw_token p t = if p.use_access_token then t.access_token else t.id_token

pub record Obtained (net : Network) (r : OidcRefresher) (old : Text) (s : TokenSet) : Type 0 where
  pub client : HttpClient
  pub endpoint : Endpoint
  pub token : OauthToken
  pub claims : Claims
  pub config : OauthConfig
  pub tls_right : IsTls net r.tls_config client.tls
  pub headers_filtered : client.headers ≡ filter_request_headers r.provider.request_headers
  pub discovered : net.discover client r.provider.issuer_url ≡ ok endpoint
  pub asked : AsksAs r endpoint config
  pub exchanged : net.exchange client config old ≡ ok token
  pub selected : raw_token r.provider token ≡ some s.id_token
  pub verified : net.verify client (verifier_of r.provider) s.id_token ≡ ok tt
  pub decoded : decode_without_verify net.parse_json s.id_token ≡ Jwt.ok claims
  pub expires : s.expiry ≡ claims.expiry
  pub rotated :
      s.refresh_token ≡ (if is_empty token.refresh_token then old else token.refresh_token)

select_token-eq-ok :
    (net : Network) (client : HttpClient) (p : Provider) (t : OauthToken) {s : Text}
    → select_token net client p t ≡ ok s
    → (raw_token p t ≡ some s) × (net.verify client (verifier_of p) s ≡ ok tt)
unfolding select_token
select_token-eq-ok net client p t h = ground arith

expiry_of_claims-eq-ok :
    (net : Network) (c : Jwt.Result Claims) {t : Time}
    → expiry_of_claims net c ≡ ok t
    → (x : Claims) × (c ≡ Jwt.ok x) × (t ≡ x.expiry)
expiry_of_claims-eq-ok net (Jwt.ok x) h = (x, refl, ground arith)
expiry_of_claims-eq-ok net (Jwt.err e) h = cc

abbrev client_of : OidcRefresher → Option TlsClient → HttpClient
client_of r tls = record { tls = tls; headers = filter_request_headers r.provider.request_headers }

module _ (net : Network) (r : OidcRefresher) (old : Text) (s : TokenSet) where
  -- The token set at the end of the chain.
  token_set : OauthToken → Text → Time → TokenSet
  token_set token result expiry = record {
    id_token = result;
    refresh_token = if is_empty token.refresh_token then old else token.refresh_token;
    expiry = expiry;
  }

  Obtained-of_parts :
      (tls : Option TlsClient) (endpoint : Endpoint) (token : OauthToken) (result : Text)
      (claims : Claims) (expiry : Time)
      → let client = client_of r tls in
        build_tls_config net r.tls_config ≡ ok tls
        → net.discover client r.provider.issuer_url ≡ ok endpoint
        → net.exchange client (oauth_config net r endpoint) old ≡ ok token
        → select_token net client r.provider token ≡ ok result
        → decode_without_verify net.parse_json result ≡ Jwt.ok claims
        → expiry ≡ claims.expiry
        → token_set token result expiry ≡ s
        → Obtained net r old s
  unfolding token_set
  Obtained-of_parts tls endpoint token result claims expiry p q e v d x h =
      let (raw, verified) = select_token-eq-ok net (client_of r tls) r.provider token v in
      let same : result ≡ s.id_token = ap (λ (t : TokenSet). t.id_token) h in
      record {
        client = client_of r tls;
        endpoint = endpoint;
        token = token;
        claims = claims;
        config = oauth_config net r endpoint;
        tls_right = build_tls_config-IsTls net r.tls_config tls p;
        asked = oauth_config-AsksAs net r endpoint;
        headers_filtered = refl;
        discovered = q;
        exchanged = e;
        selected = raw ∙ ap some same;
        verified = rw same at verified;
        decoded = rw same at d;
        expires = sym (ap (λ (t : TokenSet). t.expiry) h) ∙ x;
        rotated = sym (ap (λ (t : TokenSet). t.refresh_token) h);
      }

pub refresh-Obtained :
    (net : Network) (r : OidcRefresher) (old : Text) (s : TokenSet)
    → refresh net r old ≡ ok s
    → Obtained net r old s
unfolding refresh token_set
refresh-Obtained net r old s h =
    let (tls, p, h₁) = >>=-eq-ok (wrap (codes "build TLS config: ") _) _ h in
    let (endpoint, q, h₂) = >>=-eq-ok (wrap (codes "oidc discovery: ") _) _ h₁ in
    let (token, e, h₃) = >>=-eq-ok (wrap (codes "refresh token exchange: ") _) _ h₂ in
    let (result, v, h₄) = >>=-eq-ok (select_token net (client_of r tls) r.provider token) _ h₃ in
    let (expiry, d, h₅) = >>=-eq-ok (wrap (codes "decode token claims: ") _) _ h₄ in
    let (claims, c, x) =
      expiry_of_claims-eq-ok net _ (wrap-eq-ok (codes "decode token claims: ") _ d) in
    Obtained-of_parts net r old s tls endpoint token result claims expiry
      (wrap-eq-ok (codes "build TLS config: ") _ p) (wrap-eq-ok (codes "oidc discovery: ") _ q)
      (wrap-eq-ok (codes "refresh token exchange: ") _ e) v c x (ok-injective h₅)
