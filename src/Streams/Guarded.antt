-- ===== src/Streams/Guarded.antt =====
-- What the cleanup leaves of every stream, whichever of them throws.
use mitm_core.Prelude.{
  true, false, Option, none, some, List, [], ◌∷◌, ◌≡◌, ◌≢◌, arith, ◌⊎◌, WhenSome, All,
}
use mitm_core.Streams.{
  Stream, absent, works, throws, unpiped, torn_down, clean_up_streams, destroyed_by, ended_if,
}

-- A stream that works is gone: it is destroyed, or ended where it cannot be destroyed, and has no
-- pipe left where it could be unpiped.
abbrev pub IsGone : Stream → Type 0
IsGone s =
    ((s.destroyed ≡ true)
      ⊎ (s.destroy ≡ throws)
      ⊎ ((s.destroy ≡ absent) × ((s.ended ≡ true) ⊎ (s.end ≢ works))))
    × ((s.unpipe ≢ works) ⊎ (s.piped ≡ false))

torn_down-IsGone : (s : Stream) → (s.unpipe ≢ works) ⊎ (s.piped ≡ false) → IsGone (torn_down s)
unfolding torn_down destroyed_by ended_if
torn_down-IsGone s h = ground arith

unpiped_lem : (s : Stream) → ((unpiped s).unpipe ≢ works) ⊎ ((unpiped s).piped ≡ false)
unfolding unpiped
unpiped_lem s = ground arith

-- Whatever streams are missing, and whichever throw, every stream that is there is gone after the
-- cleanup: one stream that throws does not keep the others.
pub clean_up_streams_lem :
    (streams : List (Option Stream)) → All (WhenSome IsGone) (clean_up_streams streams)
unfolding clean_up_streams
clean_up_streams_lem [] = tt
clean_up_streams_lem (none ∷ streams) = (tt, clean_up_streams_lem streams)
clean_up_streams_lem (some s ∷ streams) =
    (torn_down-IsGone (unpiped s) (unpiped_lem s), clean_up_streams_lem streams)
