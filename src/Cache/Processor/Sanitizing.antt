-- ===== src/Cache/Processor/Sanitizing.antt =====
-- The headers that a stored response is served with.
use mitm_core.Prelude.{String, true, ◌≡◌, [], ◌∷◌, string_eq, ◌==◌, All, mem, inl, inr, Bool-cases}
use mitm_core.Prelude.Assoc.{insert}
use mitm_core.Prelude.Text.{to_lower}
use mitm_core.Net.{Headers, HeaderValue, undef, text, texts}
use mitm_core.Cache.Processor.{allowed, sanitize_headers, sanitize_onto, join_value}

abbrev pub IsJoined : HeaderValue → Type 0
IsJoined undef = Unit
IsJoined (text t) = Unit
IsJoined (texts l) = ⊥

-- An entry of the allow-list, with no array for its value.
abbrev pub IsServable : String × HeaderValue → Type 0
IsServable e = (mem e.0 allowed ≡ true) × IsJoined e.1

join_value-IsJoined : (v : HeaderValue) → IsJoined (join_value v)
unfolding join_value
join_value-IsJoined undef = tt
join_value-IsJoined (text t) = tt
join_value-IsJoined (texts l) = tt

insert-IsServable :
    (key : String) (v : HeaderValue) (h : Headers)
    → mem key allowed ≡ true
    → IsJoined v
    → All IsServable h
    → All IsServable (insert key v h)
unfolding insert
insert-IsServable key v [] k j a = ((k, j), tt)
insert-IsServable key v ((i, w) ∷ h) k j (x, a) = elim (Bool-cases (i == key)) [
  | inl e ↦ rw e ((k, j), a)
  | inr e ↦ rw e (x, insert-IsServable key v h k j a)
]

sanitize_onto-IsServable :
    (headers clean : Headers) → All IsServable clean → All IsServable (sanitize_onto clean headers)
unfolding sanitize_onto
sanitize_onto-IsServable [] clean a = a
sanitize_onto-IsServable ((key, val) ∷ headers) clean a =
    sanitize_onto-IsServable headers _ (elim (Bool-cases (mem (to_lower key) allowed)) [
      | inl e ↦
          rw e
            (insert-IsServable (to_lower key) (join_value val) clean e (join_value-IsJoined val) a)
      | inr e ↦ rw e a
    ])

-- Whatever the upstream sent, a response from the cache carries only headers of the allow-list, by
-- their lower-case names: no cookie, no hop-by-hop header; and arrays are joined to texts.
pub sanitize_headers-IsServable : (headers : Headers) → All IsServable (sanitize_headers headers)
unfolding sanitize_headers
sanitize_headers-IsServable headers = sanitize_onto-IsServable headers [] tt
