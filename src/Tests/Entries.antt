-- ===== src/Tests/Entries.antt =====
-- Requests on their way into the pipeline: their URLs, headers and scopes.
use Prim.Native.String.{◌++◌}
use mitm_core.Prelude.{
  String, false, ◌≡◌, none, some, [], ◌∷◌, map, mem, if◌then◌else◌, ◌==◌, string_eq, nat_eq,
}
use mitm_core.Prelude.Assoc.{lookup}
use mitm_core.Prelude.Text.{to_lower}
use mitm_core.Net.{Headers, text}
use mitm_core.Scope.{RequestScope}
use mitm_core.Signals.{Thrown, error}
use mitm_core.Headers.{resolve_request_headers, resolve_response_headers, client_headers}
use mitm_core.Headers.Layers.{layered, present, resolve_headers_lem}
use mitm_core.Url.{Url, UrlLib, RequestData, http}
use mitm_core.Mutator.{applied, refused, invalid, apply_upgrade_state}
use mitm_core.Tests.Samples.{sample_scope, sample_req, sample_socket, sample_overrides}

resolve_headers_example :
    let upstream_headers : Headers = ("X-Trace", text "a") ∷ ("Server", text "b") ∷ [] in
    (lookup "x-trace" (resolve_request_headers (some sample_overrides) sample_scope) ≡ (
      if mem "x-trace" (map to_lower ("Cookie" ∷ []))
      then none
      else present
          (layered "x-trace" (client_headers sample_scope) (("X-Trace", text "on") ∷ []) [])))
    × (lookup "x-trace"
          (resolve_response_headers (some sample_overrides) sample_scope upstream_headers)
        ≡ (if mem "x-trace" (map to_lower ("Server" ∷ []))
            then none
            else present (layered "x-trace" upstream_headers [] [])))
resolve_headers_example =
    resolve_headers_lem (some sample_overrides) sample_scope
      (("X-Trace", text "a") ∷ ("Server", text "b") ∷ []) "x-trace"

abbrev pub sample_url : String → Url
sample_url href = record {
  protocol = "http:";
  host = "example.org:8443";
  hostname = "example.org";
  port = "8443";
  pathname = "/index.css";
  search = "";
  href = href;
}

-- Takes every text but the empty one for a URL on `example.org`.
abbrev pub sample_lib : UrlLib
sample_lib = record {
  parse = λ t. if t == "" then none else some (sample_url t);
  parse_from = λ path base. some (sample_url (base ++ path));
  with_port = λ port url. record url { port = port; href = url.href ++ ":" ++ port };
  with_protocol = λ protocol url. record url { protocol = protocol };
}

abbrev pub no_lib : UrlLib
no_lib = record sample_lib { parse = λ t. none; parse_from = λ path base. none }

abbrev connected_scope : RequestScope
connected_scope = record sample_scope {
  request = record (sample_scope.request) {
    target = record (sample_scope.request.target) { original_url = some "example.org:8443" };
  };
}

abbrev sample_data : RequestData
sample_data = record {
  protocol = "http:";
  host = "example.org";
  port = 8443;
  path = "/index.css";
  full_url = "http://example.org/index.css";
  is_encrypted = false;
  application_protocol = http;
}

abbrev failing : Thrown
failing = error "socket hang up" (some "ECONNRESET")

abbrev upgrading_scope : RequestScope
upgrading_scope = elim (apply_upgrade_state sample_lib sample_scope sample_req sample_socket []) [
  | applied t ↦ t
  | refused t ↦ t
  | invalid t ↦ t
]
