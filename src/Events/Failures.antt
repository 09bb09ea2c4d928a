-- ===== src/Events/Failures.antt =====
-- What an emission to listeners that run side by side throws.
use mitm_core.Prelude.{String, ◌≡◌, refl, ◌⊎◌, inl, inr, Option, none, some, List, [], ◌∷◌, arith}
use mitm_core.Signals.{Thrown, error}
use mitm_core.Events.{emit_settled, reasons, combined_message}

-- The emission succeeds exactly if no listener rejected; a single rejection is thrown as it is, so
-- an abort signal stays one; two or more are thrown as one `Error` that names them all in order.
pub emit_settled_lem :
    (event : String) (results : List (Option Thrown))
    → ((reasons results ≡ []) × (emit_settled event results ≡ none))
      ⊎ ((e : Thrown) × (reasons results ≡ e ∷ []) × (emit_settled event results ≡ some e))
      ⊎ ((e f : Thrown) × (rest : List Thrown) × (reasons results ≡ e ∷ f ∷ rest)
          × (emit_settled event results
              ≡ some (error (combined_message event (e ∷ f ∷ rest)) none)))
unfolding emit_settled
emit_settled_lem event results = by_reasons (reasons results) refl
  where
    by_reasons :
        (rs : List Thrown)
        → reasons results ≡ rs
        → ((reasons results ≡ []) × (emit_settled event results ≡ none))
          ⊎ ((e : Thrown) × (reasons results ≡ e ∷ []) × (emit_settled event results ≡ some e))
          ⊎ ((e f : Thrown) × (rest : List Thrown) × (reasons results ≡ e ∷ f ∷ rest)
              × (emit_settled event results
                  ≡ some (error (combined_message event (e ∷ f ∷ rest)) none)))
    by_reasons [] eq = inl (eq, ground arith)
    by_reasons (e ∷ []) eq = inr (inl (e, eq, ground arith))
    by_reasons (e ∷ (f ∷ rest)) eq = inr (inr (e, f, rest, eq, ground arith))
