-- ===== src/Discovery/Gateway.antt =====
-- practical2/api-gateway/main.go: a request for `/api/<name>/…` is forwarded to a healthy instance of
-- `<name>-service`.
use Prim.Native.String.{String}
use text.Mathlib.Text.{◌==◌}
use ss2025_web.Base.{ℕ, not, List, [], ◌∷◌, Result, ok, err, format_v, if◌then◌else◌}
use ss2025_web.Base.Paths.{split, join, trim_prefix}
use ss2025_web.Http.{status_bad_request, status_service_unavailable}
use ss2025_web.Discovery.{Consul, url_of}

-- What the handler does with a request: `http.Error`, or the reverse proxy of this target with this
-- path.
pub data Routed : Type 0 where
  rejects : String → ℕ → Routed
  forwards : String → String → Routed

-- `url.Parse` is a parameter.
module _ {S : Type 0} (consul : Consul S) (parse_url : String → Result String String) where
  unfoldable pub discover_service : String → S → Result String String
  discover_service name s = elim (consul.new_client consul.default_address) [
    | err e ↦ err e
    | ok client ↦ elim (consul.health client name s) [
      | err e ↦
          err (format_v (format_v "could not query Consul for service '" (format_v name "': ")) e)
      | ok [] ↦
          err (format_v "no healthy instances of service '" (format_v name "' found in Consul"))
      | ok (service ∷ _) ↦ parse_url (url_of service.address service.port)
    ]
  ]

  -- The handler from the segments of the path on.
  unfoldable pub route_segments : List String → S → Routed
  unfolding discover_service join
  route_segments [] s = rejects "Invalid request path" status_bad_request
  route_segments (first ∷ []) s = rejects "Invalid request path" status_bad_request
  route_segments (first ∷ name ∷ []) s = rejects "Invalid request path" status_bad_request
  route_segments (first ∷ name ∷ next ∷ rest) s =
      if not (first == "api")
      then rejects "Invalid request path" status_bad_request
      else elim (discover_service (format_v name "-service") s) [
        | err e ↦ rejects e status_service_unavailable
        | ok service_url ↦ forwards service_url (format_v "/" (join (name ∷ next ∷ rest)))
      ]

  unfoldable pub route_request : String → S → Routed
  unfolding split route_segments
  route_request path = route_segments (split (trim_prefix path "/"))
