-- ===== src/Cache/Processor/Buffering.antt =====
-- The memory that a buffered response takes, and what is kept of it.
use mitm_core.Prelude.{
  ℕ, ◌+◌, ◌≤◌, ◌<◌, true, false, ◌≡◌, refl, ◌∙◌, List, [], ◌∷◌, ◌++◌, arith, length,
}
use native.Mathlib.Decide.{dec_le}
use mathlib.Core.List.{append-nil, append_assoc}
use mitm_core.Net.{Buffer}
use mitm_core.Cache.Policy.{size_limit}
use mitm_core.Cache.Processor.{Processor, track_chunk, abort}

-- The bytes of all chunks.
unfoldable pub total : List Buffer → ℕ
total [] = 0
total (b ∷ bs) = length b + total bs

total-append : (xs ys : List Buffer) → total (xs ++ ys) ≡ total xs + total ys
unfolding total
total-append [] ys = omega arith
total-append (x ∷ xs) ys = omega (arith, total-append xs ys)

-- The `data` events of the tee stream, in order.
unfoldable pub track_all : List Buffer → Processor → Processor
track_all [] p = p
track_all (b ∷ bs) p = track_all bs (track_chunk b p)

dropped : (bs : List Buffer) (p : Processor) → p.is_cacheable ≡ false → track_all bs p ≡ p
unfolding track_all track_chunk
dropped [] p h = refl
dropped (b ∷ bs) p h = ground (arith, dropped bs p h)

kept :
    (b : Buffer) (p : Processor)
    → p.is_cacheable ≡ true
    → p.accumulated_bytes + length b ≤ size_limit
    → track_chunk b p ≡ record p {
      accumulated_bytes = p.accumulated_bytes + length b;
      response_chunks = p.response_chunks ++ b ∷ [];
    }
unfolding track_chunk
kept b p c h = ground arith

aborted :
    (b : Buffer) (p : Processor)
    → p.is_cacheable ≡ true
    → size_limit < p.accumulated_bytes + length b
    → track_chunk b p ≡ abort p
unfolding track_chunk abort
aborted b p c h = ground arith

pub abort_idle : (p : Processor) → (abort p).is_cacheable ≡ false
unfolding abort
abort_idle p = refl

abort_forgets :
    (b : Buffer) (p : Processor)
    → abort (record p {
      accumulated_bytes = p.accumulated_bytes + length b;
      response_chunks = p.response_chunks ++ b ∷ [];
    })
      ≡ abort p
unfolding abort
abort_forgets b p = refl

-- As long as the chunks fit the limit, all of them are held, in order, and their bytes are counted.
pub track_all_from :
    (bs : List Buffer) (p : Processor)
    → p.is_cacheable ≡ true
    → p.accumulated_bytes + total bs ≤ size_limit
    → track_all bs p ≡ record p {
      accumulated_bytes = p.accumulated_bytes + total bs;
      response_chunks = p.response_chunks ++ bs;
    }
unfolding track_all total
track_all_from [] p c h = ground (arith, append-nil p.response_chunks)
track_all_from (b ∷ bs) p c h =
    let step = kept b p c (omega arith) in
    rw step (
      track_all_from bs _ c (omega arith)
      ∙ ground (arith, append_assoc p.response_chunks (b ∷ []) bs))

-- If the chunks of a response exceed the limit together, then in the end the buffer is empty and the
-- response is marked as not cacheable, wherever the limit was passed and whatever came after.
pub track_all_over :
    (bs : List Buffer) (p : Processor)
    → p.is_cacheable ≡ true
    → p.accumulated_bytes ≤ size_limit
    → size_limit < p.accumulated_bytes + total bs
    → track_all bs p ≡ abort p
unfolding track_all total
track_all_over [] p c k h = absurd (omega arith)
track_all_over (b ∷ bs) p c k h = elim (dec_le (p.accumulated_bytes + length b) size_limit) [
  | yes fits ↦ rw (kept b p c fits) (track_all_over bs _ c fits (omega arith) ∙ abort_forgets b p)
  | no over ↦ rw (aborted b p c (omega arith)) (dropped bs (abort p) (abort_idle p))
]
