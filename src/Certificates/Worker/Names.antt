-- ===== src/Certificates/Worker/Names.antt =====
-- What a host is named in its certificate, and which hosts are addresses, apart from the code.
use mathlib.Core.Path.{ap}
use Prim.Native.String.{[], ◌∷◌, ◌++◌}
use Prim.Native.String.append
use Prim.Native.Char.{Char, code}
use mitm_core.Prelude.{
  ℕ, suc, zero, ◌+◌, ◌≤◌, ◌≡◌, ◌≢◌, refl, sym, subst, ◌∙◌, String, Bool, true, false, ◌&&◌, ◌||◌,
  if◌then◌else◌, leb, ◌==◌, nat_eq, string_eq, ◌⊎◌, ◌↔◌, inl, inr, arith, Bool-cases,
}
use mitm_core.Prelude.Contains.{contains, IsWithin, contains-IsWithin, contains_within}
use mitm_core.Prelude.Text.{to_lower, lower_char}
use mitm_core.Certificates.Worker.{
  is_digit, before, groups, is_ip_v4, is_ip, without_brackets, cleaned_host,
}

abbrev pub IsBracket : Char → Type 0
IsBracket c = (code c ≡ b'[') ⊎ (code c ≡ b']')

-- The name leaves the brackets out, and has every other character in lower case.
pub data IsNameOf : String → String → Type 0 where
  nothing : IsNameOf [] []
  bracket : {c : Char} {s t : String} → IsBracket c → IsNameOf s t → IsNameOf (c ∷ s) t
  other :
      {c : Char} {s t : String}
      → (code c ≢ b'[') × (code c ≢ b']')
      → IsNameOf s t
      → IsNameOf (c ∷ s) (lower_char c ∷ t)

name_by :
    (c : Char) (s : String) (b : Bool)
    → (code c == b'[' || code c == b']') ≡ b
    → IsNameOf s (to_lower (without_brackets s))
    → IsNameOf (c ∷ s) (to_lower (if b then without_brackets s else c ∷ without_brackets s))
unfolding to_lower
name_by c s true e h = bracket (ground arith) h
name_by c s false e h = other ((λ p. ground arith), (λ p. ground arith)) h

pub cleaned_host-IsNameOf : (host : String) → IsNameOf host (cleaned_host host)
unfolding cleaned_host without_brackets to_lower
cleaned_host-IsNameOf [] = nothing
cleaned_host-IsNameOf (c ∷ s) =
    name_by c s (code c == b'[' || code c == b']') refl (cleaned_host-IsNameOf s)

abbrev pub IsDigit : Char → Type 0
IsDigit c = (b'0' ≤ code c) × (code c ≤ b'9')

-- A group of one to three digits, of which `n` came before.
abbrev pub IsGroup : ℕ → String → Type 0
IsGroup n [] = (1 ≤ n) × (n ≤ 3)
IsGroup n (c ∷ s) = IsDigit c × IsGroup (n + 1) s

-- Groups with dots between them.
abbrev pub AreGroups : ℕ → ℕ → String → Type 0
AreGroups zero n s = IsGroup n s
AreGroups (suc left) n s =
    (d : String) × (dot : Char) × (t : String) × (s ≡ d ++ (dot ∷ t))
    × (code dot ≡ b'.')
    × IsGroup n d
    × AreGroups left 0 t

abbrev pub IsAddress : String → Type 0
IsAddress host = AreGroups 3 0 host ⊎ IsWithin host ":"

with_digit :
    (c : Char) (left n : ℕ) (s : String)
    → IsDigit c
    → AreGroups left (n + 1) s
    → AreGroups left n (c ∷ s)
with_digit c zero n s p h = (p, h)
with_digit c (suc left) n s p (d, dot, t, e, q, g, h) =
    (c ∷ d, dot, t, ap (λ x. c ∷ x) e ∙ sym (append.cons c d (dot ∷ t)), q, (p, g), h)

groups_digit :
    (c : Char) (left n : ℕ) (s : String)
    → is_digit c ≡ true
    → groups left n (c ∷ s) ≡ groups left (n + 1) s
unfolding groups
groups_digit c left n s e = rw e refl

groups_dot :
    (c : Char) (left n : ℕ) (s : String)
    → is_digit c ≡ false
    → groups left n (c ∷ s)
      ≡ (code c == b'.' && leb 1 left && leb 1 n && leb n 3 && groups (before left) 0 s)
unfolding groups
groups_dot c left n s e = rw e refl

digit_lem : (c : Char) → is_digit c ≡ true → IsDigit c
unfolding is_digit
digit_lem c e = ground arith

is_digit_lem : (c : Char) → IsDigit c → is_digit c ≡ true
unfolding is_digit
is_digit_lem c p = ground arith

not_digit : (c : Char) → code c ≡ b'.' → is_digit c ≡ false
unfolding is_digit
not_digit c e = ground arith

split_dot :
    (c : Char) (left n : ℕ) (r : Bool)
    → (code c == b'.' && leb 1 left && leb 1 n && leb n 3 && r) ≡ true
    → (code c ≡ b'.') × (1 ≤ left) × (1 ≤ n) × (n ≤ 3) × (r ≡ true)
split_dot c left n r h = ground arith

join_dot :
    (c : Char) (left n : ℕ) (r : Bool)
    → code c ≡ b'.'
    → 1 ≤ left
    → 1 ≤ n
    → n ≤ 3
    → r ≡ true
    → (code c == b'.' && leb 1 left && leb 1 n && leb n 3 && r) ≡ true
join_dot c left n r p a b d e = ground arith

after_dot :
    (c : Char) (left n : ℕ) (s : String)
    → (code c ≡ b'.') × (1 ≤ left) × (1 ≤ n) × (n ≤ 3)
    → AreGroups (before left) 0 s
    → AreGroups left n (c ∷ s)
unfolding before
after_dot c zero n s (p, a, b, d) h = absurd (omega (arith, a))
after_dot c (suc left) n s (p, a, b, d) h = ([], c, s, sym (append.nil (c ∷ s)), p, (b, d), h)

no_group : (left n : ℕ) → groups left n [] ≡ true → AreGroups left n []
unfolding groups
no_group zero n h = ground arith
no_group (suc left) n h = absurd (ground arith)

groups-AreGroups : (left n : ℕ) (s : String) → groups left n s ≡ true → AreGroups left n s
groups-AreGroups left n [] h = no_group left n h
groups-AreGroups left n (c ∷ s) h = elim (Bool-cases (is_digit c)) [
  | inl e ↦
      with_digit c left n s (digit_lem c e)
        (groups-AreGroups left (n + 1) s (sym (groups_digit c left n s e) ∙ h))
  | inr e ↦
      let (p, a, b, d, r) =
        split_dot c left n (groups (before left) 0 s) (sym (groups_dot c left n s e) ∙ h) in
      after_dot c left n s (p, a, b, d) (groups-AreGroups (before left) 0 s r)
]

groups_joined :
    (left n : ℕ) (d : String) (dot : Char) (t : String)
    → code dot ≡ b'.'
    → IsGroup n d
    → groups left 0 t ≡ true
    → groups (suc left) n (d ++ (dot ∷ t)) ≡ true
unfolding before
groups_joined left n [] dot t p (a, b) h =
    rw (append.nil (dot ∷ t), groups_dot dot (suc left) n t (not_digit dot p))
      (join_dot dot (suc left) n (groups left 0 t) p (omega arith) a b h)
groups_joined left n (c ∷ d) dot t p (q, g) h =
    rw (append.cons c d (dot ∷ t), groups_digit c (suc left) n (d ++ (dot ∷ t)) (is_digit_lem c q))
      (groups_joined left (n + 1) d dot t p g h)

AreGroups-groups : (left n : ℕ) (s : String) → AreGroups left n s → groups left n s ≡ true
unfolding groups
AreGroups-groups zero n [] (a, b) = ground arith
AreGroups-groups zero n (c ∷ s) (q, g) =
    groups_digit c zero n s (is_digit_lem c q) ∙ AreGroups-groups zero (n + 1) s g
AreGroups-groups (suc left) n s (d, dot, t, e, p, g, h) =
    subst (λ x. groups (suc left) n x ≡ true) (sym e)
      (groups_joined left n d dot t p g (AreGroups-groups left 0 t h))

or_cases : (a b : Bool) → (a || b) ≡ true → (a ≡ true) ⊎ (b ≡ true)
or_cases a b h = ground arith

or_holds : (a b : Bool) → (a ≡ true) ⊎ (b ≡ true) → (a || b) ≡ true
or_holds a b h = ground arith

-- The two tests of the worker find exactly the hosts that are dotted groups or have a colon.
pub is_ip_lem : (host : String) → (is_ip host ≡ true) ↔ IsAddress host
unfolding is_ip is_ip_v4
is_ip_lem host = (
  λ h. elim (or_cases (groups 3 0 host) (contains host ":") h) [
    | inl v4 ↦ inl (groups-AreGroups 3 0 host v4)
    | inr v6 ↦ inr (contains-IsWithin host ":" v6)
  ],
  λ h. or_holds (groups 3 0 host) (contains host ":") (elim h [
    | inl v4 ↦ inl (AreGroups-groups 3 0 host v4)
    | inr (u, v, e) ↦ inr (subst (λ x. contains x ":" ≡ true) e (contains_within u v ":"))
  ]),
)
