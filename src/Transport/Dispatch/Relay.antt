-- ===== src/Transport/Dispatch/Relay.antt =====
-- What the client and the upstream see of a relayed response.
use mitm_core.Prelude.{
  ℕ, String, true, false, not, ◌&&◌, ◌≡◌, ◌≢◌, refl, ◌⊎◌, inl, inr, Option, none, some, [], ◌∷◌,
  ◌++◌, arith, if◌then◌else◌, mem, map, ◌==◌, nat_eq, string_eq, eq_iff, Bool-cases, is_some,
}
use mitm_core.Prelude.Assoc.{lookup, insert, lookup-insert}
use mitm_core.Prelude.Text.{to_lower}
use mitm_core.Net.{Headers, text, IncomingMessage}
use mitm_core.Signals.{Thrown, signal, error, object, primitive}
use mitm_core.Scope.{RequestScope, ExplicitHeaderOverrides}
use mitm_core.Headers.{field_of, is_absent, resolve_response_headers}
use mitm_core.Headers.Layers.{last_entry, first_of, present, resolve_headers_lem}
use mitm_core.Mutator.{fail_pipeline}
use mitm_core.Pipeline.Failure.Answers.{HasEnded}
use mitm_core.Cache.Store.{Lru}
use mitm_core.Transport.Dispatch.{
  Work, Streamed, final_headers, raw_cleaned_headers, is_hop, end_response, end_failed, tracked,
  is_expected_close, res_hop_headers,
}

last_entry-raw_cleaned_headers :
    (name : String) (headers : Headers)
    → mem name res_hop_headers ≡ true
    → last_entry name (raw_cleaned_headers headers) ≡ none
unfolding last_entry raw_cleaned_headers
last_entry-raw_cleaned_headers name [] hop = refl
last_entry-raw_cleaned_headers name ((key, value) ∷ headers) hop =
    elim (Bool-cases (not (is_absent (some value)) && not (is_hop key))) [
      | inr out ↦ simp out (last_entry-raw_cleaned_headers name headers hop)
      | inl kept ↦ simp kept (
          ground
            (arith, last_entry-raw_cleaned_headers name headers hop, eq_iff (to_lower key) name))
    ]

module _ (lru : Lru) where
  final_framed :
      (headers : Headers)
      → let sent =
          if is_some (lookup "content-length" headers)
          then headers
          else insert "transfer-encoding" (text "chunked") headers in
        (lookup "content-length" sent ≢ none)
        ⊎ (lookup "transfer-encoding" sent ≡ some (text "chunked"))
  final_framed headers = ground (
    arith,
    lookup-insert "transfer-encoding" "transfer-encoding" (text "chunked") headers,
    eq_iff "transfer-encoding" "transfer-encoding",
  )

  -- The head of a streamed response frames its body: it has a content length, or it announces chunks.
  -- No other hop-by-hop header of the upstream reaches the client: what stands under the name of one
  -- comes from the configured overrides alone.
  pub final_headers_lem :
      (globals : Option ExplicitHeaderOverrides) (s : RequestScope) (upstream_res : IncomingMessage)
      (name : String)
      → mem name res_hop_headers ≡ true
      → (name == "transfer-encoding") ≡ false
      → let own = s.request.explicit_header_overrides in
        let removals =
          field_of (λ o. o.response_headers_to_remove) [] globals
          ++ field_of (λ o. o.response_headers_to_remove) [] own in
        let sent = final_headers lru globals s upstream_res in
        ((lookup "content-length" sent ≢ none)
          ⊎ (lookup "transfer-encoding" sent ≡ some (text "chunked")))
        × (lookup name sent ≡ (
            if mem name (map to_lower removals)
            then none
            else present (
                first_of
                  (last_entry name (field_of (λ o. o.response_overrides) [] own))
                  (last_entry name (field_of (λ o. o.response_overrides) [] globals)))))
  unfolding final_headers
  final_headers_lem globals s upstream_res name hop other =
      let base = raw_cleaned_headers upstream_res.headers in
      let headers = resolve_response_headers globals s base in
      (
        final_framed headers,
        ground (
          arith,
          lookup-insert "transfer-encoding" name (text "chunked") headers,
          (resolve_headers_lem globals s base name).1,
          last_entry-raw_cleaned_headers name upstream_res.headers hop,
          eq_iff name "transfer-encoding",
          eq_iff "transfer-encoding" name,
        ),
      )

  -- The response is over, the upstream is closed, and the error goes on unless a peer just closed.
  abbrev pub IsCut : Thrown → Work lru → Type 0
  IsCut e w =
      HasEnded w.scope.request.client.res
      × (w.upstream_req.destroyed ≡ true)
      × (w.upstream_res.destroyed ≡ true)
      × (w.thrown ≡ (if is_expected_close e then none else some e))

  end_failed-IsCut : (r : Streamed) (w : Work lru) (e : Thrown) → IsCut e (end_failed lru r w e)
  unfolding end_failed is_expected_close fail_pipeline
  end_failed-IsCut r w (signal sig) = ground arith
  end_failed-IsCut r w (error a b) = ground arith
  end_failed-IsCut r w (object a b c) = ground arith
  end_failed-IsCut r w (primitive a) = ground arith

  -- When the stream of a response fails, the client's response is ended or destroyed, the upstream's
  -- request and response are destroyed, and the error is thrown on, unless it only says that a peer
  -- closed; then nothing is thrown.
  pub end_response-IsCut :
      (date_parse : String → Option ℕ) (now : ℕ) (r : Streamed) (w : Work lru) (e : Thrown)
      → r.thrown ≡ some e
      → IsCut e (end_response lru date_parse now r w)
  unfolding end_response
  end_response-IsCut date_parse now r w e thrown =
      rw thrown (end_failed-IsCut r (tracked lru r w) e)
