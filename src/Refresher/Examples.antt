-- ===== src/Refresher/Examples.antt =====
-- The theorems on pkg/daemon/refresher.go at a concrete provider, and runs of its filters.
use kubelogin_daemon.Prelude.{◌≡◌, refl, [], ◌∷◌}
use kubelogin_daemon.Text.{codes, text_eq, to_lower}
use kubelogin_daemon.Assoc.{lookup, Unique}
use kubelogin_daemon.Refresher.{is_member, is_blocked_request_header, filter_request_headers}
use kubelogin_daemon.Refresher.Samples.{plain_provider, plain_refresher}

plain_params-Unique : Unique plain_refresher.extra_params
unfolding lookup text_eq
plain_params-Unique = (refl, (refl, tt))

-- A blocked header goes, whatever its case.
plain_headers_filtered :
    filter_request_headers plain_provider.request_headers ≡ (codes "X-Id", codes "7") ∷ []
unfolding filter_request_headers is_blocked_request_header is_member to_lower text_eq
plain_headers_filtered = refl
