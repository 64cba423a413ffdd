-- ===== src/Refresher/Tls.antt =====
-- pkg/daemon/refresher.go: the client configuration and the request that the settings of a provider
-- ask for, said without the code that builds them.
use mathlib.Core.Path.{subst}
use kubelogin_daemon.Prelude.{
  ◌≡◌, refl, sym, ap, ◌∙◌, Bool, true, false, not, ◌&&◌, ◌||◌, ◌==◌, Option, none, some, List, [],
  ◌∷◌, ◌++◌, ◌⊎◌, inl, inr, arith, Bool-cases, ==_iff,
}
use kubelogin_daemon.Text.{Text, codes, is_empty}
use kubelogin_daemon.Refresher.{
  OidcRefresher, Result, ok, err, wrap, Network, TlsConfig, TlsClient, Endpoint, OauthConfig,
  add_files, add_data, append_pem, tls_client, is_nil, build_tls_config, adjust_endpoint,
  oauth_config, ◌>>=◌,
}

-- Inversion of a successful step of the chain.
pub >>=-eq-ok {α β} :
    {S : Type α} {T : Type β} (step : Result S) (next : S → Result T) {t : T}
    → (step >>= next) ≡ ok t
    → (value : S) × (step ≡ ok value) × (next value ≡ ok t)
>>=-eq-ok (err failure) next e = cc
>>=-eq-ok (ok value) next e = (value, refl, e)

pub wrap-eq-ok {ℓ} :
    {A : Type ℓ} (prefix : Text) (m : Result A) {a : A} → wrap prefix m ≡ ok a → m ≡ ok a
wrap-eq-ok prefix (ok x) h = h
wrap-eq-ok prefix (err e) h = cc

pub ok-injective {ℓ} : {A : Type ℓ} {a b : A} → ok a ≡ ok b → a ≡ b
ok-injective {a} h = ap (λ (m : Result _). elim m [ ok x ↦ x | err e ↦ a ]) h

-- The certificates that are read from a list of sources, in its order.
abbrev pub AreRead : Network → (Text → Result Text) → List Text → List Text → Type 0
AreRead net read [] [] = Unit
AreRead net read [] (pem ∷ pems) = ⊥
AreRead net read (source ∷ sources) [] = ⊥
AreRead net read (source ∷ sources) (pem ∷ pems) =
    (read source ≡ ok pem) × (net.has_certs pem ≡ true) × AreRead net read sources pems

-- No pool without certificates, and else all the files and all the data.
abbrev pub IsPool : Network → TlsConfig → Option (List Text) → Type 0
IsPool net cfg none = (cfg.ca_cert_filename ≡ []) × (cfg.ca_cert_data ≡ [])
IsPool net cfg (some pool) =
    (files : List Text) × (data' : List Text) × AreRead net net.read_file cfg.ca_cert_filename files
    × AreRead net net.decode_base64 cfg.ca_cert_data data'
    × (pool ≡ files ++ data')

-- No configuration where every setting is at its default.
abbrev pub IsTls : Network → TlsConfig → Option TlsClient → Type 0
IsTls net cfg none = (cfg.skip_tls_verify ≡ false) × (cfg.renegotiation ≡ 0) × IsPool net cfg none
IsTls net cfg (some c) =
    (c.insecure_skip_verify ≡ cfg.skip_tls_verify)
    × (c.renegotiation ≡ cfg.renegotiation)
    × IsPool net cfg c.root_cas

append_nil {ℓ} : {A : Type ℓ} (xs : List A) → xs ++ [] ≡ xs
append_nil [] = refl
append_nil (x ∷ xs) = rw (append_nil xs) refl

append_assoc {ℓ} : {A : Type ℓ} (xs ys zs : List A) → (xs ++ ys) ++ zs ≡ xs ++ (ys ++ zs)
append_assoc [] ys zs = refl
append_assoc (x ∷ xs) ys zs = rw (append_assoc xs ys zs) refl

append_pem-eq-ok :
    (net : Network) (message pem : Text) (pool : List Text) {pool' : List Text}
    → append_pem net message pem pool ≡ ok pool'
    → (net.has_certs pem ≡ true) × (pool' ≡ pool ++ (pem ∷ []))
append_pem-eq-ok net message pem pool h = ground arith

add_files-AreRead :
    (net : Network) (fs pool : List Text) {pool' : List Text}
    → add_files net fs pool ≡ ok pool'
    → (pems : List Text) × AreRead net net.read_file fs pems × (pool' ≡ pool ++ pems)
unfolding add_files
add_files-AreRead net [] pool h = ([], tt, sym (ok-injective h) ∙ sym (append_nil pool))
add_files-AreRead net (f ∷ fs) pool h =
    let (pem, read, h1) =
      >>=-eq-ok (wrap (codes "read CA cert " ++ (f ++ codes ": ")) (net.read_file f)) _ h in
    let (next, added, h2) =
      >>=-eq-ok (append_pem net (codes "no valid certificates in " ++ f) pem pool) _ h1 in
    let (certs, same) =
      append_pem-eq-ok net (codes "no valid certificates in " ++ f) pem pool added in
    let (pems, rest, total) = add_files-AreRead net fs next h2 in
    (
      pem ∷ pems,
      (wrap-eq-ok (codes "read CA cert " ++ (f ++ codes ": ")) (net.read_file f) read, certs, rest),
      total ∙ ap (λ p. p ++ pems) same ∙ append_assoc pool (pem ∷ []) pems,
    )

add_data-AreRead :
    (net : Network) (ds pool : List Text) {pool' : List Text}
    → add_data net ds pool ≡ ok pool'
    → (pems : List Text) × AreRead net net.decode_base64 ds pems × (pool' ≡ pool ++ pems)
unfolding add_data
add_data-AreRead net [] pool h = ([], tt, sym (ok-injective h) ∙ sym (append_nil pool))
add_data-AreRead net (d ∷ ds) pool h =
    let (pem, read, h1) =
      >>=-eq-ok (wrap (codes "decode base64 CA data: ") (net.decode_base64 d)) _ h in
    let (next, added, h2) =
      >>=-eq-ok (append_pem net (codes "no valid certificates in inline CA data") pem pool) _ h1 in
    let (certs, same) =
      append_pem-eq-ok net (codes "no valid certificates in inline CA data") pem pool added in
    let (pems, rest, total) = add_data-AreRead net ds next h2 in
    (
      pem ∷ pems,
      (wrap-eq-ok (codes "decode base64 CA data: ") (net.decode_base64 d) read, certs, rest),
      total ∙ ap (λ p. p ++ pems) same ∙ append_assoc pool (pem ∷ []) pems,
    )

is_nil-eq : (xs : List Text) → is_nil xs ≡ true → xs ≡ []
is_nil-eq [] h = refl
is_nil-eq (x ∷ xs) h = cc

both : (a b : Bool) → (a && b) ≡ true → (a ≡ true) × (b ≡ true)
both a b h = ground arith

-- `buildTLSConfig` builds what the settings ask for.
pub build_tls_config-IsTls :
    (net : Network) (cfg : TlsConfig) (tls : Option TlsClient)
    → build_tls_config net cfg ≡ ok tls
    → IsTls net cfg tls
unfolding build_tls_config
build_tls_config-IsTls net cfg tls h =
    elim (Bool-cases (is_nil cfg.ca_cert_filename && is_nil cfg.ca_cert_data)) [
      | inl empty ↦
          let (files, data') = both (is_nil cfg.ca_cert_filename) (is_nil cfg.ca_cert_data) empty in
          let no_pool : IsPool net cfg none =
            (is_nil-eq cfg.ca_cert_filename files, is_nil-eq cfg.ca_cert_data data') in
          elim (Bool-cases (not cfg.skip_tls_verify && cfg.renegotiation == 0)) [
            | inl default ↦
                let built : build_tls_config net cfg ≡ ok none =
                  rw (empty, default, build_tls_config) refl in
                let (checks, zero_) =
                  both (not cfg.skip_tls_verify) (cfg.renegotiation == 0) default in
                subst (IsTls net cfg) (ok-injective (sym built ∙ h))
                  (ground arith, (==_iff cfg.renegotiation 0).0 zero_, no_pool)
            | inr changed ↦
                let built : build_tls_config net cfg ≡ ok (some (tls_client cfg none)) =
                  rw (empty, changed, build_tls_config) refl in
                subst (IsTls net cfg) (ok-injective (sym built ∙ h)) (refl, refl, no_pool)
          ]
      | inr certs ↦
          let chain : Result (Option TlsClient) = (do
            files ← add_files net cfg.ca_cert_filename []
            pool ← add_data net cfg.ca_cert_data files
            ok (some (tls_client cfg (some pool)))) in
          let built : build_tls_config net cfg ≡ chain = rw (certs, build_tls_config) refl in
          let (pool1, e1, h1) =
            >>=-eq-ok (add_files net cfg.ca_cert_filename []) _ (sym built ∙ h) in
          let (pool2, e2, h2) = >>=-eq-ok (add_data net cfg.ca_cert_data pool1) _ h1 in
          let (files, read, same) = add_files-AreRead net cfg.ca_cert_filename [] e1 in
          let (data', read', same') = add_data-AreRead net cfg.ca_cert_data pool1 e2 in
          subst (IsTls net cfg) (ok-injective h2)
            (refl, refl, (files, data', read, read', same' ∙ ap (λ p. p ++ data') same))
    ]

-- What is sent to the token endpoint, for the client of the provider. Without a client secret the
-- credentials are in the parameters; without extra parameters the address is the provider's own.
abbrev pub AsksAs : OidcRefresher → Endpoint → OauthConfig → Type 0
AsksAs r e c =
    (c.client_id ≡ r.provider.client_id)
    × (c.client_secret ≡ r.provider.client_secret)
    × (c.redirect_url ≡ r.provider.redirect_url)
    × (c.scopes ≡ r.provider.extra_scopes ++ (codes "openid" ∷ []))
    × (c.endpoint.auth_in_params ≡ (is_empty r.provider.client_secret || e.auth_in_params))
    × ((is_nil r.extra_params ≡ false) ⊎ (c.endpoint.token_url ≡ e.token_url))

pub oauth_config-AsksAs :
    (net : Network) (r : OidcRefresher) (e : Endpoint) → AsksAs r e (oauth_config net r e)
unfolding oauth_config adjust_endpoint
oauth_config-AsksAs net r e =
    (refl, refl, refl, refl, ground arith, ground (arith, Bool-cases (is_nil r.extra_params)))
