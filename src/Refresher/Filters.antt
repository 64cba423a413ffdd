-- ===== src/Refresher/Filters.antt =====
-- The filters of pkg/daemon/refresher.go and of pkg/shim/auth.go.
use kubelogin_daemon.Prelude.{
  ◌≡◌, refl, ap, inl, inr, Bool, none, some, List, [], ◌∷◌, arith, if◌then◌else◌, Bool-cases,
}
use kubelogin_daemon.Text.{Text, codes, text_eq, text_eq_iff, to_lower}
use kubelogin_daemon.Assoc.{Assoc, lookup, insert, lookup-insert, Unique}
use kubelogin_daemon.Refresher.{
  is_member, is_blocked_oauth_param, is_blocked_request_header, filter_keys, filter_request_headers,
  set_extra_params,
}

-- `blockedAuthCodeParams` and `blockedHeaders` of pkg/shim/auth.go.
abbrev pub blocked_auth_code_params : List Text
blocked_auth_code_params =
    codes "scope"
    ∷ codes "client_id"
    ∷ codes "client_secret"
    ∷ codes "redirect_uri"
    ∷ codes "grant_type"
    ∷ codes "code"
    ∷ codes "code_verifier"
    ∷ codes "refresh_token"
    ∷ codes "response_type"
    ∷ []

abbrev pub blocked_headers : List Text
blocked_headers = codes "authorization" ∷ codes "host" ∷ codes "cookie" ∷ []

-- `filterBlockedOAuthParams` and `filterBlockedRequestHeaders` of pkg/shim/auth.go.
unfoldable pub filter_blocked_oauth_params : Assoc Text → Assoc Text
unfolding filter_keys
filter_blocked_oauth_params params =
    filter_keys (λ k. is_member (to_lower k) blocked_auth_code_params) params

unfoldable pub filter_blocked_request_headers : Assoc Text → Assoc Text
unfolding filter_keys
filter_blocked_request_headers headers =
    filter_keys (λ k. is_member (to_lower k) blocked_headers) headers

lookup-filter_keys :
    (blocked : Text → Bool) (k : Text) (m : Assoc Text)
    → lookup k (filter_keys blocked m) ≡ (if blocked k then none else lookup k m)
unfolding filter_keys lookup
lookup-filter_keys blocked k [] = ground arith
lookup-filter_keys blocked k ((j, v) ∷ m) = elim (Bool-cases (text_eq j k)) [
  | inl e ↦
      let same = (text_eq_iff j k).0 e in
      rw same (ground (arith, lookup-filter_keys blocked k m, text_eq_iff k k))
  | inr e ↦ ground (arith, lookup-filter_keys blocked k m)
]

-- The daemon drops exactly the headers whose name is, in lower case, on its list, and the shim
-- drops the same headers.
filter_request_headers_exact :
    (k : Text) (headers : Assoc Text)
    → (lookup k (filter_request_headers headers)
        ≡ (if is_blocked_request_header k then none else lookup k headers))
      × (filter_blocked_request_headers headers ≡ filter_request_headers headers)
unfolding filter_request_headers filter_blocked_request_headers is_blocked_request_header
filter_request_headers_exact k headers =
    (lookup-filter_keys is_blocked_request_header k headers, refl)

lookup-set_extra_params :
    (k : Text) (params : Assoc Text) (q : Assoc (List Text))
    → Unique params
    → lookup k (set_extra_params params q) ≡ (elim (lookup k params) [
      | none ↦ lookup k q
      | some v ↦ if is_blocked_oauth_param k then lookup k q else some (v ∷ [])
    ])
unfolding set_extra_params lookup
lookup-set_extra_params k [] q u = refl
lookup-set_extra_params k ((j, v) ∷ params) q u = elim (Bool-cases (text_eq j k)) [
  | inl e ↦
      let same = (text_eq_iff j k).0 e in
      let absent : lookup k params ≡ none = rw same at u.0 in
      let q' = if is_blocked_oauth_param j then q else insert j (v ∷ []) q in
      ground (
        arith,
        lookup-set_extra_params k params q' u.1,
        lookup-insert j k (v ∷ []) q,
        absent,
        ap is_blocked_oauth_param same,
      )
  | inr e ↦ ground (
    arith,
    lookup-set_extra_params k params (if is_blocked_oauth_param j then q else insert j (v ∷ []) q)
        u.1,
    lookup-insert j k (v ∷ []) q,
  )
]

-- Of extra parameters with distinct names, those whose name is, in lower case, on the list leave
-- the query of the token endpoint as it was under that name; any other sets its name to its value
-- alone; a name that is no extra parameter keeps its values. The shim's filter for the
-- authorization request drops exactly the names on the same list.
set_extra_params_exact :
    (k : Text) (params : Assoc Text) (q : Assoc (List Text))
    → Unique params
    → (lookup k (set_extra_params params q)
        ≡ (elim (lookup k (filter_blocked_oauth_params params)) [
          | none ↦ lookup k q
          | some v ↦ some (v ∷ [])
        ]))
      × (lookup k (filter_blocked_oauth_params params)
          ≡ (if is_blocked_oauth_param k then none else lookup k params))
unfolding filter_blocked_oauth_params
set_extra_params_exact k params q u =
    let kept = lookup-filter_keys is_blocked_oauth_param k params in
    let sets = lookup-set_extra_params k params q u in
    unfold is_blocked_oauth_param in (ground (arith, kept, sets), kept)
