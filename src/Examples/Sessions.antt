-- ===== src/Examples/Sessions.antt =====
-- The theorems on sessions, for a party that signs alone.
use kawasekit_dkls.Prelude.{
  ◌⊎◌, ℕ, ◌≡◌, refl, List, [], ◌∷◌, true, false, Bytes, none, some, ok, replicate, at, bytes_eq,
}
use kawasekit_dkls.Backend.Toy.{Seven, n0, n1, n2, n3, n6}
use kawasekit_dkls.Backend.Wide.{wide, wide_field}
use kawasekit_dkls.Examples.Signing.{plain, plain_laws, wide_curve}
use kawasekit_dkls.Protocols.{PartyIndex}
use kawasekit_dkls.Protocols.Signature.{EcdsaSignature}
use kawasekit_dkls.Protocols.Signing.{
  Party, SignData, Broadcast3to4, verify_ecdsa_signature, parse_hex_to_scalar, verify_scalars,
  reduce_hash_bytes, reduce_hex_bytes,
}
use kawasekit_dkls.Protocols.Signing.PhaseOne.{
  PhaseOneDraws, sign_phase1, phase1_guards, phase1_loop,
}
use kawasekit_dkls.Protocols.Signing.Guards.{
  check_counterparties, check_routing, check_versions, check_roots,
}
use kawasekit_dkls.Protocols.Signing.PhaseTwo.{
  sign_phase2, signer_coefficient, signer_parts, phase2_checks, phase2_loop,
}
use kawasekit_dkls.Protocols.Signing.PhaseThree.{
  sign_phase3, phase3_totals, phase3_loop, first_totals, u_share, v_share,
}
use kawasekit_dkls.Protocols.Signing.PhaseFour.{
  sign_phase4, assemble, normalized, recover, signature_point, recovery_id_of,
}
use kawasekit_dkls.Utilities.ZeroShares.{compute, add_fragments}
use kawasekit_dkls.Protocols.SignSession.{
  finish_phase2, finish_phase3, SignSession, session_new, session_phase2, session_phase3,
  session_phase4,
}
use kawasekit_dkls.Protocols.SignSession.Order.{
  IsOrdered, Reachable, created, called_phase2, called_phase3, Ran3, Reachable-IsOrdered,
}
use kawasekit_dkls.Protocols.SignSession.Stages.{
  reached, wants_phase2, wants_phase3, Call, calls_phase2, calls_phase3, log, after, stage,
  Refuses2, Refuses3, session_new-reached,
}
use kawasekit_dkls.Protocols.SignSession.Delivers.{session_phase4-Reachable}

abbrev party : Party wide
party = record {
  parameters = record { threshold = 1; share_count = 1 };
  party_index = 1;
  session_id = replicate 32 1;
  poly_point = n3;
  pk = n3;
  zero_share = record { seeds = [] };
  mul_senders = [];
  mul_receivers = [];
  derivation_data = record {
    depth = 0;
    child_number = 0;
    parent_fingerprint = [];
    poly_point = n3;
    pk = n3;
    chain_code = replicate 32 5;
  };
  address = "";
}

abbrev sign_data : SignData
sign_data = record { sign_id = replicate 32 2; counterparties = []; message_hash = 1 ∷ [] }

abbrev draws : PhaseOneDraws wide
draws = record {
  instance_key = n2;
  inversion_mask = n1;
  salt_for = λ _. [];
  bits_for = λ _ _. false;
  extra_for = λ _ _. false;
}

abbrev unused : PartyIndex → ℕ → Seven
unused _ _ = n0

abbrev start : SignSession wide plain
start = record {
  party = party;
  sign_data = sign_data;
  phase1_to_2 =
      some (record { instance_key = n2; instance_point = n2; inversion_mask = n1; zeta = n0 }, []);
  phase2_to_3 = none;
  x_coord = none;
}

start_lem : session_new draws party sign_data ≡ ok (start, [])
unfolding session_new sign_phase1 phase1_guards check_counterparties phase1_loop compute
    add_fragments
start_lem = refl

abbrev after_phase3 : SignSession wide plain
after_phase3 = (session_phase3 (session_phase2 unused unused start []).0 []).0

after_phase3-Reachable : Reachable party sign_data after_phase3
after_phase3-Reachable =
    called_phase3 _ [] (called_phase2 unused unused start [] (created draws start [] start_lem))

Reachable-IsOrdered_example :
    (after_phase3.party ≡ party) × (after_phase3.sign_data ≡ sign_data) × IsOrdered after_phase3
Reachable-IsOrdered_example = Reachable-IsOrdered party sign_data after_phase3-Reachable

abbrev some_calls : List Call
some_calls = calls_phase3 [] ∷ calls_phase2 unused unused [] ∷ calls_phase3 [] ∷ []

session_new-reached_example :
    (reached wants_phase2 (log start some_calls) ≡ some (stage (after start some_calls)))
    × ((stage (after start some_calls) ≡ wants_phase2)
        ⊎ Refuses2 unused unused (after start some_calls) [])
    × ((stage (after start some_calls) ≡ wants_phase3) ⊎ Refuses3 (after start some_calls) [])
session_new-reached_example =
    session_new-reached draws party sign_data start [] some_calls unused unused [] [] start_lem

abbrev alone : List (Broadcast3to4 wide)
alone = record { u = n2; w = n6 } ∷ []

abbrev signature : EcdsaSignature
signature = record { r = 4 ∷ []; s = 3 ∷ []; recovery_id = 0 }

signed : session_phase4 after_phase3 alone ≡ ok signature
unfolding session_phase2 session_phase3 session_phase4 finish_phase2 sign_phase2 signer_coefficient
    signer_parts phase2_checks check_routing check_versions check_roots phase2_loop finish_phase3
    sign_phase3 phase3_totals phase3_loop first_totals reduce_hex_bytes sign_phase4 assemble u_share
    v_share normalized recover signature_point recovery_id_of verify_ecdsa_signature
    parse_hex_to_scalar verify_scalars reduce_hash_bytes at bytes_eq
signed = refl

session_phase4-Reachable_example :
    (x_coord : Bytes) × Ran3 party sign_data x_coord
    × (plain.decode x_coord ≡ some (4 ∷ []))
    × (s : Seven) × (3 ∷ [] ≡ wide.to_repr s)
    × (wide.is_high s ≡ false)
    × (verify_ecdsa_signature (1 ∷ []) n3 x_coord (plain.encode (3 ∷ [])) ≡ true)
session_phase4-Reachable_example =
    session_phase4-Reachable party sign_data after_phase3 alone signature after_phase3-Reachable
      signed
