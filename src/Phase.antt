-- ===== src/Phase.antt =====
-- phase/Phase.ts, and the test of equality that indexing `Record<Phase, …>` makes.
use mitm_core.Prelude.{Bool, true, false, Eq, ◌≡◌, ◌↔◌, arith}

pub data Phase : Type 0 where
  handshake request response tcp : Phase

abbrev pub phase_beq : Phase → Phase → Bool
phase_beq handshake handshake = true
phase_beq request request = true
phase_beq response response = true
phase_beq tcp tcp = true
phase_beq _ _ = false

pub phase_beq_iff : (p q : Phase) → (phase_beq p q ≡ true) ↔ (p ≡ q)
phase_beq_iff p q = ground arith

instance abbrev pub phase_eq : Eq Phase
phase_eq = record { beq = phase_beq; beq_iff = phase_beq_iff }
