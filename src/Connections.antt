-- ===== src/Connections.antt =====
-- core/connection/ConnectionManager.ts: the sockets that a shutdown destroys. The sockets lie in a
-- heap, by their references.
use mitm_core.Prelude.{
  ℕ, true, ◌||◌, ◌≡◌, List, [], ◌∷◌, ◌++◌, if◌then◌else◌, mem, keep_if, not, ◌==◌, nat_eq,
  nat_beq_iff, length, update, All, arith,
}
use mitm_core.Net.{Ref, Socket, destroy_socket}

pub record Connections : Type 0 where
  pub sockets : Ref → Socket
  pub active_sockets : List Ref

unfoldable pub track : Ref → Connections → Connections
track ref c =
    if (c.sockets ref).destroyed || mem ref c.active_sockets
    then c
    else record c { active_sockets = c.active_sockets ++ ref ∷ [] }

-- The `close` of a tracked socket.
unfoldable pub on_close : Ref → Connections → Connections
on_close ref c = record c { active_sockets = keep_if (λ r. not (r == ref)) c.active_sockets }

unfoldable pub destroy_sockets : List Ref → (Ref → Socket) → Ref → Socket
destroy_sockets [] heap = heap
destroy_sockets (ref ∷ refs) heap =
    destroy_sockets refs
      (update ref (if (heap ref).destroyed then heap ref else destroy_socket (heap ref)) heap)

unfoldable pub destroy_all : Connections → Connections
unfolding destroy_sockets
destroy_all c = record { sockets = destroy_sockets c.active_sockets c.sockets; active_sockets = [] }

unfoldable pub get_count : Connections → ℕ
get_count c = length c.active_sockets

destroyed_kept :
    (ref : Ref) (refs : List Ref) (heap : Ref → Socket)
    → (heap ref).destroyed ≡ true
    → (destroy_sockets refs heap ref).destroyed ≡ true
unfolding destroy_sockets
destroyed_kept ref [] heap d = d
destroyed_kept ref (r ∷ refs) heap d = destroyed_kept ref refs _ (ground (arith, nat_beq_iff r ref))

pub destroy_sockets_lem :
    (refs : List Ref) (heap : Ref → Socket)
    → All (λ ref. (destroy_sockets refs heap ref).destroyed ≡ true) refs
unfolding destroy_sockets
destroy_sockets_lem [] heap = tt
destroy_sockets_lem (r ∷ refs) heap =
    (destroyed_kept r refs _ (ground (arith, nat_beq_iff r r)), destroy_sockets_lem refs _)
