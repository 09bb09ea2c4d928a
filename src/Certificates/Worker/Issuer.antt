-- ===== src/Certificates/Worker/Issuer.antt =====
-- Which authority a certificate is issued by.
use mitm_core.Prelude.{
  ℕ, inl, false, subst, sym, ◌≡◌, refl, String, Bool, true, not, ◌||◌, Option, none, some,
  if◌then◌else◌, ◌==◌, string_eq, is_some, ◌⊎◌, inr, arith, eq_iff, List, [], ◌∷◌,
}
use mitm_core.Net.{Ref}
use mitm_core.Signals.{Thrown}
use mitm_core.Certificates.Worker.Names.{IsNameOf, IsAddress, is_ip_lem, cleaned_host-IsNameOf}
use mitm_core.Certificates.Worker.{
  CaConfig, Forge, Issued, Worker, fingerprint, is_ip, cleaned_host, load_ca, issue, issue_all,
  with_cert, with_key, sign, issued_of, accepted, new_worker,
}

module _ (forge : Forge) (ca : CaConfig) (cert key : Ref) where
  -- The variables are empty, or hold this authority.
  abbrev pub IsFor : Worker → Type 0
  IsFor w =
      ((w.cached_ca_cert ≡ none) × (w.cached_ca_key ≡ none))
      ⊎ ((w.cached_ca_cert ≡ some cert) × (w.cached_ca_key ≡ some key))

  -- A certificate for the host: by this authority, under the one name of the host, which is given as
  -- an address if the host is one.
  pub record IsIssuedFor (host : String) (i : Issued) : Type 0 where
    pub by : (i.issuer ≡ cert) × (i.signed_with ≡ key)
    pub named : IsNameOf host i.common_name
    pub alternative : i.alt_name ≡ i.common_name
    pub kind :
        ((i.alt_name_type ≡ 7) × IsAddress host) ⊎ ((i.alt_name_type ≡ 2) × (IsAddress host → ⊥))

  -- The host has this answer: the certificate, unless `forge` refuses its alternative name.
  abbrev pub Answers : String → Option Issued → Type 0
  Answers host answer =
      (i : Issued) × IsIssuedFor host i
      × (answer ≡ (if forge.refuses i.alt_name_type i.alt_name then none else some i))

  abbrev pub AnswerAll : List String → List (Option Issued) → Type 0
  AnswerAll [] [] = Unit
  AnswerAll [] (answer ∷ answers) = ⊥
  AnswerAll (host ∷ hosts) [] = ⊥
  AnswerAll (host ∷ hosts) (answer ∷ answers) = Answers host answer × AnswerAll hosts answers

  abbrev IsLoaded : Worker × Option Thrown → Type 0
  IsLoaded (w, thrown) =
      (thrown ≡ none) × (w.cached_ca_cert ≡ some cert) × (w.cached_ca_key ≡ some key)

  parsed :
      (w : Worker)
      → forge.certificate_from_pem ca.cert_pem ≡ inr cert
      → forge.key_from_pem ca.key_pem ≡ inr key
      → IsLoaded (with_cert forge ca w (forge.certificate_from_pem ca.cert_pem))
  unfolding with_cert with_key
  parsed w p q = rw (p, q) (refl, refl, refl)

  -- A worker whose variables are empty loads the authority, and one that holds it keeps it.
  loaded :
      (w : Worker) (same : Bool) (r : Worker × Option Thrown)
      → IsFor w
      → IsLoaded r
      → IsLoaded (
          if same || not (is_some w.cached_ca_cert) || not (is_some w.cached_ca_key)
          then r
          else (w, none))
  loaded w same r h l = ground arith

  load_ca-IsLoaded :
      (w : Worker)
      → forge.certificate_from_pem ca.cert_pem ≡ inr cert
      → forge.key_from_pem ca.key_pem ≡ inr key
      → IsFor w
      → IsLoaded (load_ca forge ca w)
  unfolding load_ca
  load_ca-IsLoaded w p q h =
      loaded w (not (w.last_ca_fingerprint == fingerprint ca)) _ h (parsed w p q)

  clash : (b : Bool) → b ≡ false → b ≡ true → ⊥
  clash b p q = ground arith

  kind_of :
      (host : String) (b : Bool)
      → is_ip host ≡ b
      → let kind : ℕ = if b then 7 else 2 in
        ((kind ≡ 7) × IsAddress host) ⊎ ((kind ≡ 2) × (IsAddress host → ⊥))
  kind_of host true e = inl (refl, (is_ip_lem host).0 e)
  kind_of host false e =
      inr (refl, λ address. absurd (clash (is_ip host) e ((is_ip_lem host).1 address)))

  issued_lem :
      (host : String) (r : Worker × Option Thrown)
      → IsLoaded r
      → Answers host (issued_of forge host r).1 × IsFor (issued_of forge host r).0
  unfolding issued_of sign accepted
  issued_lem host (w, none) (_, c, k) = (
    (
      record {
        common_name = cleaned_host host;
        issuer = cert;
        alt_name_type = if is_ip host then 7 else 2;
        alt_name = cleaned_host host;
        signed_with = key;
      },
      record {
        by = (refl, refl);
        named = cleaned_host-IsNameOf host;
        alternative = refl;
        kind = kind_of host (is_ip host) refl;
      },
      rw (c, k) refl,
    ),
    inr (c, k),
  )
  issued_lem host (w, some e) (t, _, _) = absurd cc

  issue_lem :
      (host : String) (w : Worker)
      → forge.certificate_from_pem ca.cert_pem ≡ inr cert
      → forge.key_from_pem ca.key_pem ≡ inr key
      → IsFor w
      → Answers host (issue forge host ca w).1 × IsFor (issue forge host ca w).0
  unfolding issue
  issue_lem host w p q h = issued_lem host (load_ca forge ca w) (load_ca-IsLoaded w p q h)

  -- A worker that only ever saw one authority, whose texts can be parsed, issues for every host in
  -- turn a certificate of this authority, signed with its key, or throws where `forge` refuses the
  -- alternative name. Its name is the host without brackets and in lower case; it is given as an
  -- address exactly if the host is four groups of one to three digits with dots between them, or has
  -- a colon.
  pub issue_all_lem :
      (hosts : List String) (w : Worker)
      → forge.certificate_from_pem ca.cert_pem ≡ inr cert
      → forge.key_from_pem ca.key_pem ≡ inr key
      → IsFor w
      → AnswerAll hosts (issue_all forge ca hosts w)
  unfolding issue_all
  issue_all_lem [] w p q h = tt
  issue_all_lem (host ∷ hosts) w p q h =
      let (answer, kept) = issue_lem host w p q h in
      (answer, issue_all_lem hosts (issue forge host ca w).0 p q kept)

module _ (forge : Forge) where
  held :
      (w : Worker) (b : Bool) (r : Worker × Option Thrown) (cert key : Ref)
      → b ≡ true
      → w.cached_ca_cert ≡ some cert
      → w.cached_ca_key ≡ some key
      → (if not b || not (is_some w.cached_ca_cert) || not (is_some w.cached_ca_key)
          then r
          else (w, none))
        ≡ (w, none)
  held w b r cert key p c k = ground arith

  load_ca_held :
      (ca : CaConfig) (w : Worker) (cert key : Ref)
      → w.cached_ca_cert ≡ some cert
      → w.cached_ca_key ≡ some key
      → w.last_ca_fingerprint ≡ fingerprint ca
      → load_ca forge ca w ≡ (w, none)
  unfolding load_ca
  load_ca_held ca w cert key c k f =
      held w (w.last_ca_fingerprint == fingerprint ca) _ cert key
        ((eq_iff w.last_ca_fingerprint (fingerprint ca)).1 f) c k

  keeps :
      (host : String) (r : Worker × Option Thrown) (w : Worker)
      → r ≡ (w, none)
      → (issued_of forge host r).0 ≡ w
  unfolding issued_of
  keeps host r w e = rw e refl

  -- The worker once it has loaded the authority.
  abbrev loaded_worker : CaConfig → Ref → Ref → Worker
  loaded_worker ca cert key = record {
    cached_ca_cert = some cert;
    cached_ca_key = some key;
    last_ca_fingerprint = fingerprint ca;
  }

  first_load :
      (ca : CaConfig) (cert key : Ref)
      → forge.certificate_from_pem ca.cert_pem ≡ inr cert
      → forge.key_from_pem ca.key_pem ≡ inr key
      → load_ca forge ca new_worker ≡ (loaded_worker ca cert key, none)
  unfolding load_ca with_cert with_key
  first_load ca cert key p q = filled (not ("" == fingerprint ca)) (rw (p, q) refl)
    where
      filled :
          (b : Bool) {r : Worker × Option Thrown}
          → r ≡ (loaded_worker ca cert key, none)
          → (if b || true || true then r else (new_worker, none))
            ≡ (loaded_worker ca cert key, none)
      filled true e = e
      filled false e = e

  share-AnswerAll :
      (other ca : CaConfig) (cert key : Ref) (hosts : List String)
      → fingerprint ca ≡ fingerprint other
      → AnswerAll forge ca cert key hosts (issue_all forge other hosts (loaded_worker ca cert key))
  unfolding issue_all issue
  share-AnswerAll other ca cert key [] same = tt
  share-AnswerAll other ca cert key (host ∷ hosts) same =
      let w = loaded_worker ca cert key in
      let held_load = load_ca_held other w cert key refl refl same in
      rw held_load (
        (issued_lem forge ca cert key host (w, none) (refl, refl, refl)).0,
        share-AnswerAll other ca cert key hosts same,
      )

  -- A new worker that was asked for a certificate by one authority answers all later requests by
  -- another authority of the same fingerprint, which is made of the lengths of its two texts, with
  -- certificates of the first one, signed with the key of the first one.
  pub same_lengths_share :
      (ca other : CaConfig) (cert key : Ref) (host : String) (hosts : List String)
      → forge.certificate_from_pem ca.cert_pem ≡ inr cert
      → forge.key_from_pem ca.key_pem ≡ inr key
      → fingerprint ca ≡ fingerprint other
      → AnswerAll forge ca cert key hosts
          (issue_all forge other hosts (issue forge host ca new_worker).0)
  unfolding issue
  same_lengths_share ca other cert key host hosts p q same =
      subst (λ w. AnswerAll forge ca cert key hosts (issue_all forge other hosts w))
        (sym (
          keeps host (load_ca forge ca new_worker) (loaded_worker ca cert key)
            (first_load ca cert key p q)))
        (share-AnswerAll other ca cert key hosts same)
