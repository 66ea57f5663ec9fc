-- ===== src/Forwarder/Tcp/Proxied.antt =====
-- internal/forwarder/tcp.go: what the two ends of a proxied connection get.
use docker_in_kubernetes.Prelude.{
  ℕ, ◌≡◌, refl, ◌∙◌, ap, Bool, true, false, ◌&&◌, ◌||◌, List, [], ◌∷◌, ◌++◌, append_assoc,
  append-nil, arith, if◌then◌else◌,
}
use docker_in_kubernetes.Forwarder.Tcp.Accepting.{
  Event, client_sends, client_ends, upstream_sends, upstream_ends, ProxyState, new_proxy, proxy,
  proxy_step,
}

-- What the client sent until it ended, and the upstream likewise.
unfoldable pub from_client : List Event → List ℕ
from_client [] = []
from_client (client_sends bytes ∷ es) = bytes ++ from_client es
from_client (upstream_sends bytes ∷ es) = from_client es
from_client (client_ends ∷ es) = []
from_client (upstream_ends ∷ es) = from_client es

unfoldable pub from_upstream : List Event → List ℕ
from_upstream [] = []
from_upstream (client_sends bytes ∷ es) = from_upstream es
from_upstream (upstream_sends bytes ∷ es) = bytes ++ from_upstream es
from_upstream (client_ends ∷ es) = from_upstream es
from_upstream (upstream_ends ∷ es) = []

unfoldable pub has_client_end : List Event → Bool
has_client_end [] = false
has_client_end (client_sends bytes ∷ es) = has_client_end es
has_client_end (upstream_sends bytes ∷ es) = has_client_end es
has_client_end (client_ends ∷ es) = true
has_client_end (upstream_ends ∷ es) = has_client_end es

unfoldable pub has_upstream_end : List Event → Bool
has_upstream_end [] = false
has_upstream_end (client_sends bytes ∷ es) = has_upstream_end es
has_upstream_end (upstream_sends bytes ∷ es) = has_upstream_end es
has_upstream_end (client_ends ∷ es) = has_upstream_end es
has_upstream_end (upstream_ends ∷ es) = true

-- The state after some events, from the events.
abbrev expected : ProxyState → List Event → ProxyState
expected s es = record {
  to_upstream = (if s.upload_done then s.to_upstream else s.to_upstream ++ from_client es);
  to_client = (if s.download_done then s.to_client else s.to_client ++ from_upstream es);
  upload_done = s.upload_done || has_client_end es;
  download_done = s.download_done || has_upstream_end es;
  is_closed = (s.upload_done || has_client_end es) && (s.download_done || has_upstream_end es);
}

proxy-expected :
    (s : ProxyState) (es : List Event)
    → s.is_closed ≡ s.upload_done && s.download_done
    → proxy s es ≡ expected s es
unfolding proxy proxy_step from_client from_upstream has_client_end has_upstream_end
proxy-expected s [] h = ground (arith, h, append-nil s.to_upstream, append-nil s.to_client)
proxy-expected s (client_sends bytes ∷ es) h =
    proxy-expected (proxy_step s (client_sends bytes)) es (ground (arith, h))
    ∙ ground (arith, append_assoc s.to_upstream bytes (from_client es))
proxy-expected s (upstream_sends bytes ∷ es) h =
    proxy-expected (proxy_step s (upstream_sends bytes)) es (ground (arith, h))
    ∙ ground (arith, append_assoc s.to_client bytes (from_upstream es))
proxy-expected s (client_ends ∷ es) h =
    proxy-expected (proxy_step s client_ends) es (ground (arith, h))
    ∙ ground (arith, append-nil s.to_upstream)
proxy-expected s (upstream_ends ∷ es) h =
    proxy-expected (proxy_step s upstream_ends) es (ground (arith, h))
    ∙ ground (arith, append-nil s.to_client)

-- Each side gets what the other sent before it ended, in order and nothing else, however the two are
-- interleaved. The connections are closed exactly when both sides have ended: the end of one side alone
-- is not passed on to the other.
pub proxy_lem :
    (es : List Event)
    → let s = proxy new_proxy es in
      (s.to_upstream ≡ from_client es)
      × (s.to_client ≡ from_upstream es)
      × (s.is_closed ≡ has_client_end es && has_upstream_end es)
proxy_lem es =
    let e = proxy-expected new_proxy es refl in
    (ap (λ s. s.to_upstream) e, ap (λ s. s.to_client) e, ap (λ s. s.is_closed) e)
