-- ===== src/Pipeline/Compile.antt =====
-- `Pipeline.compile`. Every handler class of the registry has one of the four phases, so the
-- warning for an unknown phase is left out.
use mitm_core.Prelude.{◌≡◌, List, [], ◌∷◌, ◌++◌, ◌==◌, keep_if, arith, if◌then◌else◌, ◌∙◌}
use mathlib.Core.List.{append_assoc, append-nil}
use mitm_core.Phase.{Phase, phase_eq}
use mitm_core.Pipeline.Run.{Handler, Pipelines, steps_of}

-- `this.pipelines[phase].push(instance)`.
push : Handler → Phase → Pipelines → Pipelines
push h Phase.tcp p = record p { tcp = p.tcp ++ h ∷ [] }
push h Phase.handshake p = record p { handshake = p.handshake ++ h ∷ [] }
push h Phase.request p = record p { request = p.request ++ h ∷ [] }
push h Phase.response p = record p { response = p.response ++ h ∷ [] }

register : List Handler → Pipelines → Pipelines
register [] p = p
register (h ∷ hs) p = register hs (push h h.phase p)

-- `instances` are the handlers that `new HandlerClass()` gives for `HANDLERS`, in its order.
unfoldable pub compile : List Handler → Pipelines
unfolding register push
compile instances =
    register instances (record { tcp = []; handshake = []; request = []; response = [] })

-- `Pipeline.setPipelineForTest`.
unfoldable pub set_pipeline_for_test : Phase → List Handler → Pipelines → Pipelines
set_pipeline_for_test Phase.tcp hs p = record p { tcp = hs }
set_pipeline_for_test Phase.handshake hs p = record p { handshake = hs }
set_pipeline_for_test Phase.request hs p = record p { request = hs }
set_pipeline_for_test Phase.response hs p = record p { response = hs }

steps_of-push :
    (h : Handler) (q p : Phase) (ps : Pipelines)
    → steps_of (push h q ps) p ≡ steps_of ps p ++ (if q == p then h ∷ [] else [])
unfolding push
steps_of-push h q p ps = ground (arith, append-nil (steps_of ps p))

steps_of-register :
    (hs : List Handler) (ps : Pipelines) (p : Phase)
    → steps_of (register hs ps) p ≡ steps_of ps p ++ keep_if (λ h. h.phase == p) hs
unfolding register
steps_of-register [] ps p = simp append-nil
steps_of-register (h ∷ hs) ps p =
    simp (steps_of-register hs (push h h.phase ps) p, steps_of-push h h.phase p ps, append_assoc)
      (ground arith)

-- After `compile`, the handlers of a phase are those of the registry that name it, in the order of
-- the registry.
pub steps_of-compile :
    (hs : List Handler) (p : Phase) → steps_of (compile hs) p ≡ keep_if (λ h. h.phase == p) hs
unfolding compile
steps_of-compile hs p = steps_of-register hs _ p ∙ ground arith
