-- ===== src/Headers/Layers.antt =====
-- What a resolved set of headers holds under a name.
use mitm_core.Prelude.{
  String, false, ◌≡◌, refl, Option, none, some, List, [], ◌∷◌, ◌++◌, map, mem, arith, if◌then◌else◌,
  ◌==◌, string_eq, eq_iff,
}
use mitm_core.Prelude.Assoc.{lookup, insert, remove, lookup-insert, lookup-remove}
use mitm_core.Prelude.Text.{to_lower}
use mitm_core.Net.{Headers, HeaderValue, undef, text, texts}
use mitm_core.Scope.{RequestScope, ExplicitHeaderOverrides}
use mitm_core.Headers.{
  overlay, remove_all, drop_absent, is_absent, keys_of, resolve, resolve_request_headers,
  resolve_response_headers, field_of, client_headers,
}

-- The value of the last entry of a layer whose name is `name` up to case.
unfoldable pub last_entry : String → Headers → Option HeaderValue
last_entry name [] = none
last_entry name ((key, value) ∷ layer) = elim (last_entry name layer) [
  | some later ↦ some later
  | none ↦ if to_lower key == name then some value else none
]

-- The first of the two that is there.
abbrev pub first_of : Option HeaderValue → Option HeaderValue → Option HeaderValue
first_of none below = below
first_of (some v) below = some v

-- `undefined` and `null` count as nothing.
abbrev pub present : Option HeaderValue → Option HeaderValue
present none = none
present (some undef) = none
present (some (text t)) = some (text t)
present (some (texts l)) = some (texts l)

abbrev pub layered : String → Headers → Headers → Headers → Option HeaderValue
layered name base global_layer request_layer =
    first_of (last_entry name request_layer)
      (first_of (last_entry name global_layer) (last_entry name base))

lookup-overlay :
    (name : String) (layer resolved : Headers)
    → lookup name (overlay resolved layer) ≡ first_of (last_entry name layer) (lookup name resolved)
unfolding overlay last_entry
lookup-overlay name [] resolved = refl
lookup-overlay name ((key, value) ∷ layer) resolved = ground (
  arith,
  lookup-overlay name layer (insert (to_lower key) value resolved),
  lookup-insert (to_lower key) name value resolved,
)

lookup-remove_all :
    (name : String) (keys : List String) (resolved : Headers)
    → lookup name (remove_all keys resolved)
      ≡ (if mem name (map to_lower keys) then none else lookup name resolved)
unfolding remove_all
lookup-remove_all name [] resolved = refl
lookup-remove_all name (key ∷ keys) resolved = ground (
  arith,
  lookup-remove_all name keys (remove (to_lower key) resolved),
  lookup-remove (to_lower key) name resolved,
  eq_iff (to_lower key) name,
  eq_iff name (to_lower key),
)

lookup-dropped :
    (name key : String) (resolved : Headers)
    → lookup name (if is_absent (lookup key resolved) then remove key resolved else resolved)
      ≡ (if key == name then present (lookup name resolved) else lookup name resolved)
unfolding is_absent
lookup-dropped name key resolved = ground (arith, lookup-remove key name resolved, eq_iff key name)

lookup-drop_absent :
    (name : String) (keys : List String) (resolved : Headers)
    → lookup name (drop_absent keys resolved)
      ≡ (if mem name keys then present (lookup name resolved) else lookup name resolved)
unfolding drop_absent
lookup-drop_absent name [] resolved = refl
lookup-drop_absent name (key ∷ keys) resolved = ground (
  arith,
  lookup-drop_absent name keys
      (if is_absent (lookup key resolved) then remove key resolved else resolved),
  lookup-dropped name key resolved,
  eq_iff key name,
  eq_iff name key,
)

not_listed :
    (name : String) (headers : Headers)
    → mem name (keys_of headers) ≡ false
    → lookup name headers ≡ none
unfolding keys_of lookup
not_listed name [] h = refl
not_listed name ((key, value) ∷ headers) h =
    ground (arith, not_listed name headers, eq_iff key name, eq_iff name key)

lookup-clean :
    (name : String) (headers : Headers)
    → lookup name (drop_absent (keys_of headers) headers) ≡ present (lookup name headers)
lookup-clean name headers =
    ground (arith, lookup-drop_absent name (keys_of headers) headers, not_listed name headers)

lookup-resolve :
    (name : String) (base global_layer request_layer : Headers) (removals : List String)
    → lookup name (resolve base global_layer request_layer removals) ≡ (
        if mem name (map to_lower removals)
        then none
        else present (layered name base global_layer request_layer))
unfolding resolve lookup
lookup-resolve name base global_layer request_layer removals =
    let l1 = overlay [] base in
    let l2 = overlay l1 global_layer in
    let l3 = overlay l2 request_layer in
    ground (
      arith,
      lookup-clean name (remove_all removals l3),
      lookup-remove_all name removals l3,
      lookup-overlay name request_layer l2,
      lookup-overlay name global_layer l1,
      lookup-overlay name base [],
    )

-- What `resolveRequestHeaders` gives holds, under a lower-case name, what the overrides of the
-- request say, else what the global overrides say, else what the client sent, the last spelling of
-- the name winning within each; it holds nothing there if that is undefined, or if the name is listed
-- for removal, globally or for the request, in any spelling. What `resolveResponseHeaders` gives is
-- made of the upstream's headers, the response overrides and the response removals in the same way.
pub resolve_headers_lem :
    (globals : Option ExplicitHeaderOverrides) (s : RequestScope) (upstream_headers : Headers)
    (name : String)
    → let own = s.request.explicit_header_overrides in
      let of_request =
        field_of (λ o. o.request_headers_to_remove) [] globals
        ++ field_of (λ o. o.request_headers_to_remove) [] own in
      let of_response =
        field_of (λ o. o.response_headers_to_remove) [] globals
        ++ field_of (λ o. o.response_headers_to_remove) [] own in
      (lookup name (resolve_request_headers globals s) ≡ (
        if mem name (map to_lower of_request)
        then none
        else present (
            layered name
              (client_headers s)
              (field_of (λ o. o.request_overrides) [] globals)
              (field_of (λ o. o.request_overrides) [] own))))
      × (lookup name (resolve_response_headers globals s upstream_headers) ≡ (
          if mem name (map to_lower of_response)
          then none
          else present (
              layered name upstream_headers
                (field_of (λ o. o.response_overrides) [] globals)
                (field_of (λ o. o.response_overrides) [] own))))
unfolding resolve_request_headers resolve_response_headers
resolve_headers_lem globals s upstream_headers name =
    (lookup-resolve name _ _ _ _, lookup-resolve name _ _ _ _)
