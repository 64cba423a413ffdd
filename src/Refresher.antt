-- ===== src/Refresher.antt =====
-- pkg/daemon/refresher.go: the refresh grant of one request. The network, the provider's library
-- the formatting of the errors of pkg/jwt and the file system are the fields of `Network`; a goroutine's deadline shows as one of their
-- errors. pkg/shim/auth.go repeats the filters for the login.
pub mod Filters
mod Tls
pub mod Exchange
pub mod Samples
mod Examples
use kubelogin_daemon.Prelude.{
  ℕ, ◌≡◌, Bool, true, false, not, ◌&&◌, ◌||◌, Option, none, some, List, [], ◌∷◌, ◌++◌, ◌==◌,
  if◌then◌else◌,
}
use kubelogin_daemon.Text.{Text, codes, text_eq, is_empty, to_lower}
use kubelogin_daemon.Assoc.{Assoc, insert}
use kubelogin_daemon.State.{Time}
use kubelogin_daemon.Jwt
use kubelogin_daemon.Jwt.{JwtError, RawClaims, Claims, decode_without_verify}

-- `oidc.Provider`, as `providerFromRequest` fills it.
pub record Provider : Type 0 where
  pub issuer_url : Text
  pub client_id : Text
  pub client_secret : Text
  pub extra_scopes : List Text
  pub use_access_token : Bool
  pub request_headers : Assoc Text
  pub redirect_url : Text

-- `tlsclientconfig.Config`.
pub record TlsConfig : Type 0 where
  pub ca_cert_filename : List Text
  pub ca_cert_data : List Text
  pub skip_tls_verify : Bool
  pub renegotiation : ℕ

pub record OidcRefresher : Type 0 where
  pub provider : Provider
  pub tls_config : TlsConfig
  pub extra_params : Assoc Text

-- An error is its text.
pub data Result {α} (S : Type α) : Type α where
  err : Text → Result S
  ok : S → Result S

infixl 5 ◌>>=◌
abbrev pub ◌>>=◌ {α β} : {S : Type α} {T : Type β} → Result S → (S → Result T) → Result T
err failure >>= next = err failure
ok value >>= next = next value

-- `fmt.Errorf("prefix%w", err)`.
abbrev pub wrap {ℓ} : {A : Type ℓ} → Text → Result A → Result A
wrap prefix (ok a) = ok a
wrap prefix (err e) = err (prefix ++ e)

abbrev pub blocked_oauth_params : List Text
blocked_oauth_params =
    codes "scope"
    ∷ codes "client_id"
    ∷ codes "client_secret"
    ∷ codes "redirect_uri"
    ∷ codes "grant_type"
    ∷ codes "code"
    ∷ codes "code_verifier"
    ∷ codes "refresh_token"
    ∷ codes "response_type"
    ∷ []

abbrev pub blocked_request_headers : List Text
blocked_request_headers = codes "authorization" ∷ codes "host" ∷ codes "cookie" ∷ []

-- A lookup in a map whose values are all `true`.
unfoldable pub is_member : Text → List Text → Bool
is_member key [] = false
is_member key (k ∷ ks) = text_eq k key || is_member key ks

unfoldable pub is_blocked_oauth_param : Text → Bool
is_blocked_oauth_param key = is_member (to_lower key) blocked_oauth_params

unfoldable pub is_blocked_request_header : Text → Bool
is_blocked_request_header key = is_member (to_lower key) blocked_request_headers

-- The entries of a map whose key fails the test.
unfoldable pub filter_keys : (Text → Bool) → Assoc Text → Assoc Text
filter_keys blocked [] = []
filter_keys blocked ((k, v) ∷ m) =
    if blocked k then filter_keys blocked m else (k, v) ∷ filter_keys blocked m

unfoldable pub filter_request_headers : Assoc Text → Assoc Text
unfolding filter_keys
filter_request_headers headers = filter_keys is_blocked_request_header headers

-- The loop over `ExtraParams`: `q.Set` replaces all values of a key.
unfoldable pub set_extra_params : Assoc Text → Assoc (List Text) → Assoc (List Text)
set_extra_params [] q = q
set_extra_params ((k, v) ∷ params) q =
    set_extra_params params (if is_blocked_oauth_param k then q else insert k (v ∷ []) q)

-- A client configuration: verification off or on, and the certificate pool, if there is one.
pub record TlsClient : Type 0 where
  pub insecure_skip_verify : Bool
  pub renegotiation : ℕ
  pub root_cas : Option (List Text)

pub record HttpClient : Type 0 where
  pub tls : Option TlsClient
  pub headers : Assoc Text

pub record Endpoint : Type 0 where
  pub token_url : Text
  pub auth_in_params : Bool

pub record Url : Type 0 where
  pub base : Text
  pub query : Assoc (List Text)

pub record OauthConfig : Type 0 where
  pub endpoint : Endpoint
  pub client_id : Text
  pub client_secret : Text
  pub redirect_url : Text
  pub scopes : List Text

-- A token response: the tokens are `none` where the response has no such string.
pub record OauthToken : Type 0 where
  pub refresh_token : Text
  pub access_token : Option Text
  pub id_token : Option Text

-- `gooidc.Config`: `none` skips the check of the client.
abbrev pub Verifier : Type 0
Verifier = Option Text

pub record Network : Type 0 where
  pub read_file : Text → Result Text
  pub decode_base64 : Text → Result Text
  pub has_certs : Text → Bool
  pub discover : HttpClient → Text → Result Endpoint
  pub parse_url : Text → Option Url
  pub print_url : Url → Text
  pub exchange : HttpClient → OauthConfig → Text → Result OauthToken
  pub verify : HttpClient → Verifier → Text → Result (Unit {0})
  pub parse_json : Text → Option RawClaims
  pub describe : JwtError → Text

pub record TokenSet : Type 0 where
  pub id_token : Text
  pub refresh_token : Text
  pub expiry : Time

abbrev append_pem : Network → Text → Text → List Text → Result (List Text)
append_pem net message pem pool = if net.has_certs pem then ok (pool ++ (pem ∷ [])) else err message

-- The two loops over the certificates.
add_files : Network → List Text → List Text → Result (List Text)
add_files net [] pool = ok pool
add_files net (f ∷ fs) pool = do
  pem ← wrap (codes "read CA cert " ++ (f ++ codes ": ")) (net.read_file f)
  pool' ← append_pem net (codes "no valid certificates in " ++ f) pem pool
  add_files net fs pool'

add_data : Network → List Text → List Text → Result (List Text)
add_data net [] pool = ok pool
add_data net (d ∷ ds) pool = do
  pem ← wrap (codes "decode base64 CA data: ") (net.decode_base64 d)
  pool' ← append_pem net (codes "no valid certificates in inline CA data") pem pool
  add_data net ds pool'

abbrev is_nil {ℓ} : {A : Type ℓ} → List A → Bool
is_nil [] = true
is_nil (x ∷ xs) = false

abbrev tls_client : TlsConfig → Option (List Text) → TlsClient
tls_client cfg pool = record {
  insecure_skip_verify = cfg.skip_tls_verify;
  renegotiation = cfg.renegotiation;
  root_cas = pool;
}

-- `buildTLSConfig`.
unfoldable pub build_tls_config : Network → TlsConfig → Result (Option TlsClient)
unfolding add_files add_data
build_tls_config net cfg =
    let no_certs = is_nil cfg.ca_cert_filename && is_nil cfg.ca_cert_data in
    if no_certs && (not cfg.skip_tls_verify && cfg.renegotiation == 0)
    then ok none
    else if no_certs
    then ok (some (tls_client cfg none))
    else (do
      files ← add_files net cfg.ca_cert_filename []
      pool ← add_data net cfg.ca_cert_data files
      ok (some (tls_client cfg (some pool))))

abbrev with_params : Network → Assoc Text → Endpoint → Option Url → Endpoint
with_params net params e none = e
with_params net params e (some u) = record e {
  token_url = net.print_url (record u { query = set_extra_params params u.query });
}

-- The endpoint with the authentication style and the extra parameters put in.
unfoldable pub adjust_endpoint : Network → OidcRefresher → Endpoint → Endpoint
adjust_endpoint net r e =
    let e' = if is_empty r.provider.client_secret then record e { auth_in_params = true } else e in
    if is_nil r.extra_params
    then e'
    else with_params net r.extra_params e' (net.parse_url e'.token_url)

unfoldable pub oauth_config : Network → OidcRefresher → Endpoint → OauthConfig
unfolding adjust_endpoint
oauth_config net r e = record {
  endpoint = adjust_endpoint net r e;
  client_id = r.provider.client_id;
  client_secret = r.provider.client_secret;
  redirect_url = r.provider.redirect_url;
  scopes = r.provider.extra_scopes ++ (codes "openid" ∷ []);
}

abbrev pub or_missing : Text → Option Text → Result Text
or_missing message none = err message
or_missing message (some t) = ok t

abbrev expiry_of_claims : Network → Jwt.Result Claims → Result Time
expiry_of_claims net (Jwt.ok c) = ok c.expiry
expiry_of_claims net (Jwt.err e) = err (net.describe e)

-- The token to use, once it has been verified.
unfoldable pub select_token : Network → HttpClient → Provider → OauthToken → Result Text
select_token net client p t =
    if p.use_access_token
    then (do
      access ← or_missing (codes "access_token missing in response") t.access_token
      _ ← wrap (codes "verify access token: ") (net.verify client none access)
      ok access)
    else (do
      raw ← or_missing (codes "id_token missing in response") t.id_token
      _ ← wrap (codes "verify id token: ") (net.verify client (some p.client_id) raw)
      ok raw)

-- `(*OIDCRefresher).Refresh`.
unfoldable pub refresh : Network → OidcRefresher → Text → Result TokenSet
unfolding build_tls_config oauth_config select_token
refresh net r refresh_token = do
  tls ← wrap (codes "build TLS config: ") (build_tls_config net r.tls_config)
  let client : HttpClient = record {
    tls = tls;
    headers = filter_request_headers r.provider.request_headers;
  }
  endpoint ← wrap (codes "oidc discovery: ") (net.discover client r.provider.issuer_url)
  token ←
      wrap (codes "refresh token exchange: ")
        (net.exchange client (oauth_config net r endpoint) refresh_token)
  result ← select_token net client r.provider token
  expiry ←
      wrap (codes "decode token claims: ")
        (expiry_of_claims net (decode_without_verify net.parse_json result))
  ok (record {
    id_token = result;
    refresh_token = if is_empty token.refresh_token then refresh_token else token.refresh_token;
    expiry = expiry;
  })
