-- ===== src/Examples.antt =====
-- The theorems at concrete inputs, over the field of seven elements.
pub mod KeyGeneration
pub mod Messages
pub mod Multiplication
pub mod Derivation
pub mod Signing
pub mod Sessions
pub mod Bans
use kawasekit_dkls.Prelude.{
  ℕ, ◌≡◌, ◌≢◌, refl, Bool, true, not, ◌==◌, [], ◌∷◌, Bytes, ok, arith, bytes_eq, to_be_bytes,
}
use kawasekit_dkls.Backend.Toy.{Seven, n0, n1, n2, n3, n4, n5, n6, toy, toy_field, toy_group}
use kawasekit_dkls.Backend.{◌•◌}
use kawasekit_dkls.Backend.Ring.Sum.{sum, filter}
use kawasekit_dkls.Utilities.OracleTags.{tag_commitment, tag_ot_base_h}
use kawasekit_dkls.Utilities.Hashes.{
  encoded, encode_components, len_prefixed, tagged_hash, tagged_hash_as_scalar,
}
use kawasekit_dkls.Utilities.Hashes.Injective.{encoded-injective}
use kawasekit_dkls.Utilities.Commits.{commit, verify_commitment}
use kawasekit_dkls.Utilities.Commits.Binding.{opening, commit_binding}
use kawasekit_dkls.Utilities.ZeroShares.{compute}
use kawasekit_dkls.Utilities.ZeroShares.Zero.{others, initialized, compute-sum_zero}
use kawasekit_dkls.Utilities.Proofs.Enc.{
  RandomCommitments, CpProof, cp_verify, enc_prove, enc_verify,
}
use kawasekit_dkls.Utilities.Proofs.Enc.Complete.{enc_prove-verify}
use kawasekit_dkls.Utilities.Proofs.Enc.Sound.{cp_special_soundness}
use kawasekit_dkls.Utilities.Ot.Base.{
  OtSender, OtReceiver, ReceiverDraws, base_h_of, receiver_run_phase1, receiver_run_phase2_step2,
  sender_run_phase2,
}
use kawasekit_dkls.Utilities.Ot.Base.Agree.{NonTrivial, base_ot_agree}

abbrev sid : Bytes
sid = 1 ∷ 2 ∷ 3 ∷ []

abbrev tag : Bytes
tag = 1 ∷ 2 ∷ []

encoded-injective_example : (tag ≡ tag) × (sid ∷ [] ∷ [] ≡ sid ∷ [] ∷ [])
encoded-injective_example =
    encoded-injective tag tag (sid ∷ [] ∷ []) (sid ∷ [] ∷ [])
      (omega arith, (omega arith, (omega arith, tt)))
      (omega arith, (omega arith, (omega arith, tt))) refl

-- Three parties of which the first and the third sign.
abbrev exchanged : ℕ → ℕ → Bytes
exchanged i j = i ∷ 7 ∷ j ∷ []

abbrev first_and_third : ℕ → Bool
first_and_third i = not (i == 2)

compute-sum_zero_example :
    sum (filter first_and_third (1 ∷ 2 ∷ 3 ∷ [])) (λ i.
      compute
        (initialized exchanged (1 ∷ 2 ∷ 3 ∷ []) i)
        (others i (filter first_and_third (1 ∷ 2 ∷ 3 ∷ [])))
        sid)
    ≡ n0
compute-sum_zero_example = compute-sum_zero sid exchanged first_and_third (1 ∷ 2 ∷ 3 ∷ [])

enc_prove-verify_example : enc_verify (enc_prove 1 (λ _. n2) n3 n4 sid n5 n6 true) sid ≡ true
enc_prove-verify_example =
    enc_prove-verify 1 (λ _. n2) n3 n4 sid n5 n6 true (λ e. cc) (λ e. cc) (λ e. cc) (λ e. cc)

-- For the statement 2 = 1 * 2, 6 = 3 * 2 with the nonce 4.
abbrev answer : Seven → CpProof toy
answer r = record { base_g = n1; base_h = n3; point_u = n2; point_v = n6; challenge_response = r }

abbrev nonce_commitments : RandomCommitments toy
nonce_commitments = record { rc_g = n4; rc_h = n5 }

cp_special_soundness_example : (w : Seven) × (n2 ≡ n1 • w) × (n6 ≡ n3 • w)
unfolding cp_verify
cp_special_soundness_example =
    cp_special_soundness (answer n2) (answer n0) nonce_commitments n1 n2 refl refl refl refl
      (λ e. cc) refl refl

abbrev receiver : OtReceiver
receiver = record { seed = 9 ∷ [] }

abbrev sender : OtSender toy
sender = record { s = n5; proof = record { point = n5; rand_commitments = []; proofs = [] } }

abbrev draws : ReceiverDraws toy
draws = record { r = n2; tries = 1; nonce = λ _. n2; fake_challenge = n4; fake_response = n5 }

non_trivial : NonTrivial sid (9 ∷ []) n2 true
unfolding base_h_of tagged_hash_as_scalar tagged_hash encoded encode_components len_prefixed
    tag_ot_base_h to_be_bytes
non_trivial = record { h_ne = λ e. cc; u_ne = λ e. cc; g_ne = λ e. cc; fake_ne = λ e. cc }

base_ot_agree_example :
    (m0 : Bytes) × (m1 : Bytes) × (sender_run_phase2 sender sid
        (9 ∷ [])
        (receiver_run_phase1 draws receiver sid true).1
      ≡ ok (m0, m1))
    × (m1 ≡ receiver_run_phase2_step2 sid (receiver_run_phase1 draws receiver sid true).0 (n1 • n5))
base_ot_agree_example = base_ot_agree sender receiver draws sid true non_trivial

-- Two openings that the toy hash does not tell apart.
commit_binding_example :
    (opening (0 ∷ []) (0 ∷ []) ≢ opening (1 ∷ []) (162 ∷ []))
    × (toy.sha256 (opening (0 ∷ []) (0 ∷ [])) ≡ toy.sha256 (opening (1 ∷ []) (162 ∷ [])))
unfolding commit verify_commitment tagged_hash encoded encode_components len_prefixed tag_commitment
    bytes_eq to_be_bytes
commit_binding_example =
    commit_binding (0 ∷ []) (0 ∷ []) (1 ∷ []) (162 ∷ []) (omega arith) (omega arith) (omega arith)
      (omega arith) (λ e. cc) refl
