-- ===== src/Headers.antt =====
-- core/utils/HeaderResolver.ts, and the hop-by-hop headers of
-- core/transport/http1/responseDispatcher.ts. `globals` is `getConfig().globalHeaderOverrides`.
pub mod Layers
use mitm_core.Prelude.{
  String, Bool, true, false, not, ◌&&◌, Option, none, some, List, [], ◌∷◌, ◌++◌, if◌then◌else◌, map,
  mem, or_else, string_eq,
}
use mitm_core.Prelude.Assoc.{lookup, insert, remove}
use mitm_core.Prelude.Text.{to_lower}
use mitm_core.Net.{Headers, HeaderValue, undef, text, texts}
use mitm_core.Scope.{RequestScope, ExplicitHeaderOverrides}

-- `for (const [key, value] of Object.entries(layer)) resolved[key.toLowerCase()] = value`.
unfoldable pub overlay : Headers → Headers → Headers
overlay resolved [] = resolved
overlay resolved ((key, value) ∷ layer) = overlay (insert (to_lower key) value resolved) layer

unfoldable pub remove_all : List String → Headers → Headers
remove_all [] resolved = resolved
remove_all (key ∷ keys) resolved = remove_all keys (remove (to_lower key) resolved)

unfoldable pub is_absent : Option HeaderValue → Bool
is_absent none = true
is_absent (some undef) = true
is_absent (some (text t)) = false
is_absent (some (texts l)) = false

-- The cleanup of what is `undefined` or `null`, over `Object.keys(resolved)`.
unfoldable pub drop_absent : List String → Headers → Headers
drop_absent [] resolved = resolved
drop_absent (key ∷ keys) resolved =
    drop_absent keys (if is_absent (lookup key resolved) then remove key resolved else resolved)

unfoldable pub keys_of : Headers → List String
keys_of headers = map (λ e. e.0) headers

abbrev pub field_of {ℓ κ} : {A : Type ℓ} {B : Type κ} → (A → Option B) → B → Option A → B
field_of field default none = default
field_of field default (some a) = or_else (field a) default

unfoldable pub resolve : Headers → Headers → Headers → List String → Headers
unfolding keys_of
resolve base global_layer request_layer removals =
    let layered = overlay (overlay (overlay [] base) global_layer) request_layer in
    let kept = remove_all removals layered in drop_absent (keys_of kept) kept

abbrev pub client_headers : RequestScope → Headers
client_headers s = elim s.request.client.req [ none ↦ [] | some req ↦ req.headers ]

-- `HeaderResolver.resolveRequestHeaders`.
unfoldable pub resolve_request_headers : Option ExplicitHeaderOverrides → RequestScope → Headers
unfolding resolve
resolve_request_headers globals s =
    let own = s.request.explicit_header_overrides in
    resolve (client_headers s) (field_of (λ o. o.request_overrides) [] globals)
      (field_of (λ o. o.request_overrides) [] own)
      (field_of (λ o. o.request_headers_to_remove) [] globals
        ++ field_of (λ o. o.request_headers_to_remove) [] own)

-- `HeaderResolver.resolveResponseHeaders`.
unfoldable pub resolve_response_headers :
    Option ExplicitHeaderOverrides → RequestScope → Headers → Headers
unfolding resolve
resolve_response_headers globals s upstream_headers =
    let own = s.request.explicit_header_overrides in
    resolve upstream_headers (field_of (λ o. o.response_overrides) [] globals)
      (field_of (λ o. o.response_overrides) [] own)
      (field_of (λ o. o.response_headers_to_remove) [] globals
        ++ field_of (λ o. o.response_headers_to_remove) [] own)
