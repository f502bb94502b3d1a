-- ===== src/Protocols/Dkg/Phases/Opens.antt =====
-- What a party keeps in phase 2 opens the commitments that it sends.
use kawasekit_dkls.Prelude.{
  ℕ, suc, zero, ◌+◌, ◌≤◌, ◌<◌, ◌≡◌, ◌≢◌, refl, sym, ap, ◌∙◌, List, [], ◌∷◌, true, false, ◌||◌,
  range, ◌==◌, ==_iff, ==_refl, ==_false, Bool-cases, inl, inr, if◌then◌else◌, Option, none, some,
  ok, >>=-eq-ok, BTreeMap, insert, get, get-insert, arith,
}
use kawasekit_dkls.Backend.{Backend}
use kawasekit_dkls.Backend.Ring.Sum.{contains}
use kawasekit_dkls.Utilities.Commits.{commit}
use kawasekit_dkls.Utilities.Commits.Binding.{commit-verify}
use kawasekit_dkls.Utilities.ZeroShares.{generate_seed_with_commitment, verify_seed}
use kawasekit_dkls.Protocols.{PartyIndex}
use kawasekit_dkls.Protocols.Dkg.{step3}
use kawasekit_dkls.Protocols.Dkg.Phases.{
  SessionData, TransmitInitZeroShare, KeepInitZeroShare, PhaseDraws, PhaseTwo, zero_init, phase2,
}

-- The first message for a receiver.
unfoldable pub message_to : ℕ → List TransmitInitZeroShare → Option TransmitInitZeroShare
message_to i [] = none
message_to i (m ∷ ms) =
    let rest = message_to i ms in if i == m.parties.receiver then some m else rest

range-contains : (lo m j : ℕ) → lo ≤ j → j < lo + m → contains (range lo m) j ≡ true
unfolding contains
range-contains lo zero j low high = absurd (omega (arith, low, high))
range-contains lo (suc m) j low high = elim (Bool-cases (lo == j)) [
  | inl e ↦ ground arith
  | inr e ↦ ground (arith, range-contains (suc lo) m j (ground arith) (omega (arith, high)))
]

module _ ⦃B : Backend⦄ (d : PhaseDraws B) (own : PartyIndex) where
  kept_for : ℕ → KeepInitZeroShare
  kept_for i = record { seed = d.seed_for i; salt = d.salt_for i }

  sent_to : ℕ → TransmitInitZeroShare
  sent_to i = record {
    parties = record { sender = own; receiver = i };
    commitment = (commit (d.salt_for i) (d.seed_for i)).0;
  }

  zero_init-keep :
      (keep : BTreeMap KeepInitZeroShare) (is : List ℕ) (i : ℕ)
      → i ≢ own
      → get i (zero_init d own keep is).0
        ≡ (if contains is i then some (kept_for i) else get i keep)
  unfolding zero_init generate_seed_with_commitment contains kept_for commit
  zero_init-keep keep [] i ne = refl
  zero_init-keep keep (j ∷ is) i ne = elim (Bool-cases (j == own)) [
    | inl e ↦
        rw (e, ==_false j i (λ q. ne (sym q ∙ (==_iff j own).0 e))) (zero_init-keep keep is i ne)
    | inr e ↦ rw e (
        zero_init-keep (insert j (kept_for j) keep) is i ne
        ∙ ap (λ t. if contains is i then some (kept_for i) else t)
            (get-insert i j (kept_for j) keep)
        ∙ elim (Bool-cases (i == j)) [
          | inl q ↦ rw (q, sym ((==_iff i j).0 q), ==_refl i) (ground arith)
          | inr q ↦ rw (q, ==_false j i (λ p. apart i j q p)) refl
        ])
  ]
    where
      apart : (i j : ℕ) → (i == j) ≡ false → j ≡ i → ⊥
      apart i j q p = ground (arith)

  zero_init-sent :
      (keep : BTreeMap KeepInitZeroShare) (is : List ℕ) (i : ℕ)
      → i ≢ own
      → contains is i ≡ true
      → message_to i (zero_init d own keep is).1 ≡ some (sent_to i)
  unfolding zero_init generate_seed_with_commitment contains sent_to message_to commit kept_for
  zero_init-sent keep [] i ne m = cc
  zero_init-sent keep (j ∷ is) i ne m = elim (Bool-cases (j == own)) [
    | inl e ↦ rw e (zero_init-sent keep is i ne (listed (λ q. ne (sym q ∙ (==_iff j own).0 e)) m))
    | inr e ↦ rw e (elim (Bool-cases (i == j)) [
      | inl q ↦ rw (q, sym ((==_iff i j).0 q)) refl
      | inr q ↦
          rw q (zero_init-sent (insert j (kept_for j) keep) is i ne (listed (λ p. apart q p) m))
    ])
  ]
    where
      listed : j ≢ i → ((j == i) || contains is i) ≡ true → contains is i ≡ true
      listed h t = rw (==_false j i h) at t

      apart : (i == j) ≡ false → j ≡ i → ⊥
      apart q p = ground arith

module _ ⦃B : Backend⦄ where
  -- If phase 2 succeeds, then for every other party a seed and a salt are kept, and they open the
  -- commitment in the first message that is sent to that party, which names its sender and its
  -- receiver.
  pub phase2-verify_seed :
      (d : PhaseDraws B) (data_of : SessionData) (fragments : List B.Scalar) (out : PhaseTwo B)
      → phase2 d data_of fragments ≡ ok out
      → (i : ℕ) → 1 ≤ i
      → i ≤ data_of.parameters.share_count
      → i ≢ data_of.party_index
      → (kept : KeepInitZeroShare) × (message : TransmitInitZeroShare) × (get i out.zero_keep
          ≡ some kept)
        × (message_to i out.zero_transmit ≡ some message)
        × (message.parties ≡ record { sender = data_of.party_index; receiver = i })
        × (verify_seed kept.seed message.commitment kept.salt ≡ true)
  unfolding phase2 kept_for sent_to verify_seed commit
  phase2-verify_seed d data_of fragments out h i low high ne =
      let own = data_of.party_index in
      let is = range 1 data_of.parameters.share_count in
      let listed : contains is i ≡ true = range-contains 1 _ i low (omega (arith, high)) in
      let (made, _, done) = >>=-eq-ok (step3 d.proof_draws own data_of.session_id fragments) _ h in
      let keep : out.zero_keep ≡ (zero_init d own [] is).0 = cc in
      let sent : out.zero_transmit ≡ (zero_init d own [] is).1 = cc in
      (
        kept_for d own i,
        sent_to d own i,
        ap (get i) keep ∙ zero_init-keep d own [] is i ne ∙ rw listed refl,
        ap (message_to i) sent ∙ zero_init-sent d own [] is i ne listed,
        refl,
        commit-verify (d.salt_for i) (d.seed_for i),
      )
