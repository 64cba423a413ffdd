-- ===== src/Refresher/Samples.antt =====
-- Test data for pkg/daemon/refresher.go: a provider and a request's configuration.
use kubelogin_daemon.Prelude.{true, false, none, some, [], ◌∷◌}
use kubelogin_daemon.Text.{codes}
use kubelogin_daemon.Jwt.{Seconds}
use kubelogin_daemon.Refresher.{Provider, OidcRefresher, ok, err, Network}

-- A provider that answers with a new token and no new refresh token.
abbrev pub answering : Network
answering = record {
  read_file = λ name. err (codes "no such file");
  decode_base64 = λ s. ok s;
  has_certs = λ pem. true;
  discover = λ client issuer. ok (record { token_url = issuer; auth_in_params = false });
  parse_url = λ s. some (record { base = s; query = [] });
  print_url = λ u. u.base;
  exchange = λ client config token.
      ok (record { refresh_token = []; access_token = none; id_token = some (codes "h.e30.s") });
  verify = λ client v token. ok tt;
  parse_json = λ s. some (record { subject = []; expires_at = Seconds.since 7_200 });
  describe = λ e. codes "bad token";
}

abbrev pub plain_provider : Provider
plain_provider = record {
  issuer_url = codes "https://issuer";
  client_id = codes "kubectl";
  client_secret = [];
  extra_scopes = codes "groups" ∷ [];
  use_access_token = false;
  request_headers = (codes "Host", codes "evil") ∷ (codes "X-Id", codes "7") ∷ [];
  redirect_url = [];
}

abbrev pub plain_refresher : OidcRefresher
plain_refresher = record {
  provider = plain_provider;
  tls_config = record {
    ca_cert_filename = [];
    ca_cert_data = [];
    skip_tls_verify = false;
    renegotiation = 0;
  };
  extra_params = (codes "audience", codes "k8s") ∷ (codes "SCOPE", codes "admin") ∷ [];
}
