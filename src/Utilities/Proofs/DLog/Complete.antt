-- ===== src/Utilities/Proofs/DLog/Complete.antt =====
-- A proof that `DLogProof::prove` finds is accepted by `DLogProof::verify`.
use kawasekit_dkls.Prelude.{
  ℕ, zero, suc, ◌+◌, ◌<◌, ◌≡◌, refl, subst, true, List, ◌∷◌, Option, none, some, Bytes, bytes_eq,
  bytes_eq_iff, IfSome, IfOk, length, get_elem?, Result, ok, err, Bool-cases, Option-cases, inl,
  inr, arith,
}
use kawasekit_dkls.Backend.{Backend, FieldLaws, GroupLaws, ◌•◌}
use kawasekit_dkls.Backend.Ring.{eq_point_refl}
use kawasekit_dkls.Utilities.Proofs.Schnorr.{schnorr}
use kawasekit_dkls.Utilities.Proofs.DLog.{
  half_rounds, challenge_bytes, InteractiveDLogProof, DLogDraws, ProofSearchExhausted,
  challenge_to_scalar, prove_step1, prove_step2, verify_interactive, fischlin_hash, state_of,
  commitment_of, search_second, search_first, add_round, search_rounds,
}

-- Each drawn challenge has `T / 8` bytes.
pub record ChallengesFit {B : Backend} (d : DLogDraws B) : Type 0 where
  pub first_fits : (i c : ℕ) → length (d.first_challenge i c) ≡ challenge_bytes
  pub second_fits : (i c k : ℕ) → length (d.second_challenge i c k) ≡ challenge_bytes

module _ ⦃B : Backend⦄ ⦃L : FieldLaws B⦄ ⦃G : GroupLaws B⦄ where
  interactive_complete :
      (scalar nonce : B.Scalar) (challenge : Bytes)
      → length challenge ≡ challenge_bytes
      → verify_interactive
          (prove_step2 scalar nonce challenge)
          (B.generator • scalar)
          (B.generator • nonce)
        ≡ true
  unfolding verify_interactive prove_step2
  interactive_complete scalar nonce challenge h =
      rw (h, schnorr B.generator nonce (challenge_to_scalar challenge) scalar)
        (eq_point_refl (B.generator • nonce))

  module _ (scalar : B.Scalar) (sid rc : Bytes) (d : DLogDraws B) (fits : ChallengesFit d) where
    -- The pair that was found for round i passes both tests of that round.
    unfoldable pub IsRound : ℕ → InteractiveDLogProof B → InteractiveDLogProof B → Type 0
    IsRound i a b =
        (verify_interactive a (B.generator • scalar) (commitment_of d i) ≡ true)
        × (verify_interactive b (B.generator • scalar) (commitment_of d (i + half_rounds)) ≡ true)
        × (fischlin_hash sid rc i a ≡ fischlin_hash sid rc (i + half_rounds) b)

    -- What the inner search finds for a first hash.
    IsSecond : ℕ → Bytes → InteractiveDLogProof B → Type 0
    IsSecond i first_hash b =
        (verify_interactive b (B.generator • scalar) (commitment_of d (i + half_rounds)) ≡ true)
        × (first_hash ≡ fischlin_hash sid rc (i + half_rounds) b)

    verify_step2 :
        (i : ℕ) (challenge : Bytes)
        → length challenge ≡ challenge_bytes
        → verify_interactive
            (prove_step2 scalar (state_of d i) challenge)
            (B.generator • scalar)
            (commitment_of d i)
          ≡ true
    unfolding state_of commitment_of prove_step1
    verify_step2 i challenge h = interactive_complete scalar _ challenge h

    search_second_found :
        (fuel i c k : ℕ) (first_hash : Bytes)
        → IfSome (IsSecond i first_hash) (search_second scalar sid rc d fuel i c k first_hash)
    unfolding search_second
    search_second_found zero i c k first_hash = tt
    search_second_found (suc fuel) i c k first_hash =
        elim (Bool-cases (bytes_eq first_hash (fischlin_hash sid rc (i + half_rounds) candidate))) [
          | inl e ↦ rw e (
              unfold IsSecond in
              (verify_step2 _ _ (fits.second_fits i c k), (bytes_eq_iff _ _).0 e))
          | inr e ↦ rw e (search_second_found fuel i c (suc k) first_hash)
        ]
      where
        candidate : InteractiveDLogProof B
        candidate = prove_step2 scalar (state_of d (i + half_rounds)) (d.second_challenge i c k)

    search_first_found :
        (fuel i c : ℕ)
        → IfSome
            (λ (p : InteractiveDLogProof B × InteractiveDLogProof B). IsRound i p.0 p.1)
            (search_first scalar sid rc d fuel i c)
    unfolding search_first
    search_first_found zero i c = tt
    search_first_found (suc fuel) i c =
        elim (Option-cases (search_second scalar sid rc d 65535 i c 0 first_hash)) [
          | inl e ↦ rw (e, search_first, IfSome) (search_first_found fuel i (suc c))
          | inr (b, e) ↦
              rw (e, search_first, IfSome)
                (round b (rw e at (search_second_found 65535 i c 0 first_hash)))
        ]
      where
        candidate : InteractiveDLogProof B
        candidate = prove_step2 scalar (state_of d i) (d.first_challenge i c)

        first_hash : Bytes
        first_hash = fischlin_hash sid rc i candidate

        round : (b : InteractiveDLogProof B) → IsSecond i first_hash b → IsRound i candidate b
        round b h = unfold IsSecond IsRound in (verify_step2 i _ (fits.first_fits i c), h.0, h.1)

    -- What a run of the rounds from i on returns.
    unfoldable pub AreRounds :
        ℕ → ℕ → List (InteractiveDLogProof B) × List (InteractiveDLogProof B) → Type 0
    AreRounds n i ps =
        (length ps.0 ≡ n)
        × (length ps.1 ≡ n)
        × ((k : ℕ)
            → k < n
            → (a : InteractiveDLogProof B) × (b : InteractiveDLogProof B) × (get_elem? ps.0 k
                ≡ some a)
              × (get_elem? ps.1 k ≡ some b)
              × IsRound (i + k) a b)

    add_round_found :
        (n i : ℕ) (o : Option (InteractiveDLogProof B × InteractiveDLogProof B))
        (rest : Result ProofSearchExhausted
          (List (InteractiveDLogProof B) × List (InteractiveDLogProof B)))
        → IfSome (λ (p : InteractiveDLogProof B × InteractiveDLogProof B). IsRound i p.0 p.1) o
        → IfOk (AreRounds n (suc i)) rest
        → IfOk (AreRounds (suc n) i) (add_round o rest)
    unfolding add_round AreRounds
    add_round_found n i none rest h hs = tt
    add_round_found n i (some (a, b)) (err e) h hs = tt
    add_round_found n i (some (a, b)) (ok (as', bs')) h hs =
        (omega (arith, hs.0), omega (arith, hs.1), found)
      where
        found :
            (k : ℕ)
            → k < suc n
            → (a' : InteractiveDLogProof B) × (b' : InteractiveDLogProof B) × (get_elem? (a ∷ as') k
                ≡ some a')
              × (get_elem? (b ∷ bs') k ≡ some b')
              × IsRound (i + k) a' b'
        found zero lt =
            (a, b, refl, refl, subst (λ j. IsRound j a b) {x = i} {y = i + 0} (omega arith) h)
        found (suc k) lt =
            let (a', b', ea, eb, r) = hs.2 k (omega arith) in
            (
              a',
              b',
              ea,
              eb,
              subst (λ j. IsRound j a' b') {x = suc i + k} {y = i + suc k} (omega arith) r,
            )

    pub search_rounds_found : (n i : ℕ) → IfOk (AreRounds n i) (search_rounds scalar sid rc d n i)
    unfolding search_rounds
    search_rounds_found zero i = unfold AreRounds in (refl, refl, λ k h. elim h [ ])
    search_rounds_found (suc n) i =
        add_round_found n i _ _ (search_first_found 65535 i 0) (search_rounds_found n (suc i))
