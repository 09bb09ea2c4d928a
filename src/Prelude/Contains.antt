-- ===== src/Prelude/Contains.antt =====
-- `String.prototype.includes` as a search at every place, and what it says of the text around.
use Prim.Native.String.{String, [], ◌∷◌, ◌++◌}
use Prim.Native.Char.{Char}
use Prim.Native.String.append
use mathlib.Core.Path.{◌≡◌, refl, ap, subst, ◌∙◌}
use mathlib.Core.Logic.{◌⊎◌, inl, inr}
use mathlib.Core.Bool.{Bool, true, ◌||◌}
use native.Mathlib.Omega.{arith}
use text.Mathlib.Text.{starts_with}
use text.Mathlib.TextEquality.{starts_with_iff}
use text.Mathlib.TextPositions.{starts_with-append}
use text.Mathlib.TextLemmas.{append_assoc}

unfoldable pub contains : String → String → Bool
contains [] t = starts_with [] t
contains (c ∷ s) t = let later = contains s t in starts_with (c ∷ s) t || later

or_cases : (a b : Bool) → (a || b) ≡ true → (a ≡ true) ⊎ (b ≡ true)
or_cases a b h = ground arith

or_true : (a : Bool) → (a || true) ≡ true
or_true a = ground arith

-- The places around an occurrence.
abbrev pub IsWithin : String → String → Type 0
IsWithin s t = (u : String) × (v : String) × (u ++ (t ++ v) ≡ s)

contains_at_head : (s t : String) → starts_with s t ≡ true → contains s t ≡ true
unfolding contains
contains_at_head [] t h = h
contains_at_head (c ∷ s) t h = rw h refl

pub contains_within : (u v t : String) → contains (u ++ (t ++ v)) t ≡ true
unfolding contains
contains_within [] v t =
    rw (append.nil (t ++ v)) (contains_at_head (t ++ v) t (starts_with-append t v))
contains_within (c ∷ u) v t =
    rw (append.cons c u (t ++ v), contains_within u v t)
      (or_true (starts_with (c ∷ (u ++ (t ++ v))) t))

head-IsWithin : (s t : String) → starts_with s t ≡ true → IsWithin s t
head-IsWithin s t h = let (v, e) = (starts_with_iff s t).0 h in ([], v, append.nil (t ++ v) ∙ e)

tail-IsWithin : (c : Char) (s t : String) → IsWithin s t → IsWithin (c ∷ s) t
tail-IsWithin c s t (u, v, e) = (c ∷ u, v, append.cons c u (t ++ v) ∙ ap (λ w. c ∷ w) e)

pub contains-IsWithin : (s t : String) → contains s t ≡ true → IsWithin s t
unfolding contains
contains-IsWithin [] t h = head-IsWithin [] t h
contains-IsWithin (c ∷ s) t h = elim (or_cases (starts_with (c ∷ s) t) (contains s t) h) [
  | inl here ↦ head-IsWithin (c ∷ s) t here
  | inr later ↦ tail-IsWithin c s t (contains-IsWithin s t later)
]

pub contains-append : (s t w : String) → contains s t ≡ true → contains (s ++ w) t ≡ true
contains-append s t w h =
    let (u, v, e) = contains-IsWithin s t h in
    subst (λ x. contains (x ++ w) t ≡ true) e
      (rw (append_assoc, append_assoc) (contains_within u (v ++ w) t))
