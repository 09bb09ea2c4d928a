-- ===== src/Certificates/Worker.antt =====
-- core/workers/Cert_Worker.ts: what the worker issues for a host. The key pair of the leaves, the
-- parsing of PEM texts, the signature and its encoding are those of `forge`; the serial number and
-- the dates are left to it too.
pub mod Issuer
pub mod Names
use mathlib.Core.List.{List}
use Prim.Native.String.{[], ◌∷◌, ◌++◌, count}
use Prim.Native.Char.{Char, code}
use mitm_core.Prelude.{
  ℕ, suc, zero, ◌+◌, ◌≡◌, refl, String, Bool, true, false, not, ◌&&◌, ◌||◌, Option, none, some,
  if◌then◌else◌, leb, ltb, ◌==◌, string_eq, nat_eq, is_some, ◌⊎◌, inl, inr,
}
use mitm_core.Prelude.Contains.{contains}
use mitm_core.Prelude.Text.{to_lower, decimal}
use mitm_core.Net.{Ref, Buffer}
use mitm_core.Signals.{Thrown}
use mitm_core.Certificates.{Leaf}

-- `caConfig`, as texts.
pub record CaConfig : Type 0 where
  pub cert_pem : String
  pub key_pem : String

-- The parts of `forge`: a certificate by its subject, and a private key. The two parsers may throw, and
-- so may the extension of an alternative name, as for "999.1.1.1" as an address.
pub record Forge : Type 0 where
  pub certificate_from_pem : String → Thrown ⊎ Ref
  pub key_from_pem : String → Thrown ⊎ Ref
  pub refuses : ℕ → String → Bool

-- What the worker signs: the subject's and the issuer's names, the kind of the alternative name,
-- which is 7 for an address and 2 for a name, and the key that signs.
pub record Issued : Type 0 where
  pub common_name : String
  pub issuer : Ref
  pub alt_name_type : ℕ
  pub alt_name : String
  pub signed_with : Ref

-- The module's variables.
pub record Worker : Type 0 where
  pub cached_ca_cert : Option Ref
  pub cached_ca_key : Option Ref
  pub last_ca_fingerprint : String

abbrev pub new_worker : Worker
new_worker = record { cached_ca_cert = none; cached_ca_key = none; last_ca_fingerprint = "" }

-- `currentFingerprint`: the two lengths, one behind the other. PEM is ASCII.
unfoldable pub fingerprint : CaConfig → String
fingerprint ca = decimal (count ca.cert_pem) ++ decimal (count ca.key_pem)

is_digit : Char → Bool
is_digit c = leb b'0' (code c) && leb (code c) b'9'

before : ℕ → ℕ
before zero = zero
before (suc n) = n

-- `/^(?:[0-9]{1,3}\.){3}[0-9]{1,3}$/`: the groups that are still to come, and the digits of this one.
groups : ℕ → ℕ → String → Bool
unfolding is_digit before
groups left digits [] = left == 0 && leb 1 digits && leb digits 3
groups left digits (c ∷ s) =
    let rest =
      groups (if is_digit c then left else before left) (if is_digit c then digits + 1 else 0) s in
    if is_digit c
    then rest
    else code c == b'.' && leb 1 left && leb 1 digits && leb digits 3 && rest

unfoldable pub is_ip_v4 : String → Bool
unfolding groups
is_ip_v4 host = groups 3 0 host

unfoldable pub is_ip : String → Bool
unfolding is_ip_v4
is_ip host = is_ip_v4 host || contains host ":"

-- `host.replace(/[[\]]/g, "")`.
unfoldable pub without_brackets : String → String
without_brackets [] = []
without_brackets (c ∷ s) =
    let rest = without_brackets s in if code c == b'[' || code c == b']' then rest else c ∷ rest

unfoldable pub cleaned_host : String → String
unfolding without_brackets
cleaned_host host = to_lower (without_brackets host)

module _ (forge : Forge) where
  with_key : Ref → CaConfig → Worker → Thrown ⊎ Ref → Worker × Option Thrown
  with_key cert ca w (inl e) = (record w { cached_ca_cert = some cert }, some e)
  with_key cert ca w (inr key) = (
    record {
      cached_ca_cert = some cert;
      cached_ca_key = some key;
      last_ca_fingerprint = fingerprint ca;
    },
    none,
  )

  with_cert : CaConfig → Worker → Thrown ⊎ Ref → Worker × Option Thrown
  unfolding with_key
  with_cert ca w (inl e) = (w, some e)
  with_cert ca w (inr cert) = with_key cert ca w (forge.key_from_pem ca.key_pem)

  -- The `if` that fills the module's variables; a parser may throw between the two assignments.
  unfoldable pub load_ca : CaConfig → Worker → Worker × Option Thrown
  unfolding with_cert
  load_ca ca w =
      if not (w.last_ca_fingerprint == fingerprint ca)
        || not (is_some w.cached_ca_cert)
        || not (is_some w.cached_ca_key)
      then with_cert ca w (forge.certificate_from_pem ca.cert_pem)
      else (w, none)

  accepted : Issued → Option Issued
  accepted i = if forge.refuses i.alt_name_type i.alt_name then none else some i

  sign : String → Option Ref → Option Ref → Option Issued
  unfolding is_ip cleaned_host accepted
  sign host none _ = none
  sign host (some cert) none = none
  sign host (some cert) (some key) = accepted (record {
    common_name = cleaned_host host;
    issuer = cert;
    alt_name_type = if is_ip host then 7 else 2;
    alt_name = cleaned_host host;
    signed_with = key;
  })

  issued_of : String → Worker × Option Thrown → Worker × Option Issued
  unfolding sign
  issued_of host (w, some e) = (w, none)
  issued_of host (w, none) = (w, sign host w.cached_ca_cert w.cached_ca_key)

  -- The worker's function: what is signed, or `none` for an exception.
  unfoldable pub issue : String → CaConfig → Worker → Worker × Option Issued
  unfolding issued_of load_ca
  issue host ca w = issued_of host (load_ca ca w)

  -- The certificates of the hosts that a worker is asked for in turn.
  unfoldable pub issue_all : CaConfig → List String → Worker → List (Option Issued)
  issue_all ca List.[] w = List.[]
  issue_all ca (List.◌∷◌ host hosts) w =
      let (next, answer) = issue host ca w in List.◌∷◌ answer (issue_all ca hosts next)

is_ip_v4_example : is_ip_v4 "192.168.0.1" ≡ true
unfolding is_ip_v4
is_ip_v4_example = refl

is_name_example : is_ip_v4 "1234.1.1.1" ≡ false
unfolding is_ip_v4
is_name_example = refl
