-- ===== src/Protocols/SignSession/Order.antt =====
-- The phases of a session run in order, each on what the one before left.
use kawasekit_dkls.Prelude.{
  ℕ, ◌≡◌, refl, sym, ap, ◌∙◌, List, Option, none, some, Result, ok, err, BTreeMap, Option-cases,
  inl, inr, >>=-eq-ok,
}
use kawasekit_dkls.Backend.{Backend}
use kawasekit_dkls.Protocols.{PartyIndex, Failure}
use kawasekit_dkls.Protocols.Signature.{Hex}
use kawasekit_dkls.Protocols.Signing.{
  Party, SignData, UniqueKeep2to3, KeepPhase2to3, TransmitPhase1to2, TransmitPhase2to3,
  Broadcast3to4,
}
use kawasekit_dkls.Protocols.Signing.PhaseOne.{PhaseOneDraws, sign_phase1}
use kawasekit_dkls.Protocols.Signing.PhaseTwo.{sign_phase2}
use kawasekit_dkls.Protocols.Signing.PhaseThree.{sign_phase3}
use kawasekit_dkls.Protocols.SignSession.{
  Kept1to2, Kept2to3, SignSession, session_new, finish_phase2, session_phase2, finish_phase3,
  session_phase3,
}

-- Runs of the phases of one party on one message, each on the outcome of the one before.
module _ ⦃B : Backend⦄ where
  pub data Ran1 (party : Party B) (sign_data : SignData) (kept : Kept1to2 B) : Type 0 where
    ran1 :
        (d : PhaseOneDraws B) (sent : List TransmitPhase1to2)
        → sign_phase1 d party sign_data ≡ ok (kept.0, kept.1, sent)
        → Ran1 party sign_data kept

  pub data Ran2 (party : Party B) (sign_data : SignData) (kept : Kept2to3 B) : Type 0 where
    ran2 :
        (before : Kept1to2 B) (pads checks : PartyIndex → ℕ → B.Scalar)
        (received : List TransmitPhase1to2) (sent : List (TransmitPhase2to3 B))
        → Ran1 party sign_data before
        → sign_phase2 pads checks party sign_data before.0 before.1 received
          ≡ ok (kept.0, kept.1, sent)
        → Ran2 party sign_data kept

module _ ⦃B : Backend⦄ ⦃X : Hex⦄ where
  pub data Ran3 (party : Party B) (sign_data : SignData) (x_coord : X.Text) : Type 0 where
    ran3 :
        (before : Kept2to3 B) (received : List (TransmitPhase2to3 B)) (sent : Broadcast3to4 B)
        → Ran2 party sign_data before
        → sign_phase3 party sign_data before.0 before.1 received ≡ ok (x_coord, sent)
        → Ran3 party sign_data x_coord

  -- At most one of the three slots is full, and its content comes from the phases before it.
  pub data Slots (party : Party B) (sign_data : SignData)
      : Option (Kept1to2 B) → Option (Kept2to3 B) → Option X.Text → Type 0 where
    awaits_phase2 :
        (kept : Kept1to2 B)
        → Ran1 party sign_data kept
        → Slots party sign_data (some kept) none none
    awaits_phase3 :
        (kept : Kept2to3 B)
        → Ran2 party sign_data kept
        → Slots party sign_data none (some kept) none
    awaits_phase4 :
        (x_coord : X.Text)
        → Ran3 party sign_data x_coord
        → Slots party sign_data none none (some x_coord)
    spent : Slots party sign_data none none none

  abbrev pub IsOrdered : SignSession B X → Type 0
  IsOrdered session =
      Slots session.party session.sign_data session.phase1_to_2 session.phase2_to_3 session.x_coord

  -- The calls of an application on its session, in any order and with any messages.
  pub data Reachable (party : Party B) (sign_data : SignData) : SignSession B X → Type 0 where
    created :
        (d : PhaseOneDraws B) (session : SignSession B X) (sent : List TransmitPhase1to2)
        → session_new d party sign_data ≡ ok (session, sent)
        → Reachable party sign_data session
    called_phase2 :
        (pads checks : PartyIndex → ℕ → B.Scalar) (session : SignSession B X)
        (received : List TransmitPhase1to2)
        → Reachable party sign_data session
        → Reachable party sign_data (session_phase2 pads checks session received).0
    called_phase3 :
        (session : SignSession B X) (received : List (TransmitPhase2to3 B))
        → Reachable party sign_data session
        → Reachable party sign_data (session_phase3 session received).0

  finish_phase2-Slots :
      (pads checks : PartyIndex → ℕ → B.Scalar) (party : Party B) (sign_data : SignData)
      (kept : Kept1to2 B) (received : List TransmitPhase1to2)
      (r : Result Failure
        (UniqueKeep2to3 B × BTreeMap (KeepPhase2to3 B) × List (TransmitPhase2to3 B)))
      → Ran1 party sign_data kept
      → sign_phase2 pads checks party sign_data kept.0 kept.1 received ≡ r
      → IsOrdered
          (finish_phase2
            (record {
              party = party;
              sign_data = sign_data;
              phase1_to_2 = none;
              phase2_to_3 = none;
              x_coord = none;
            })
            r).0
  unfolding finish_phase2
  finish_phase2-Slots pads checks party sign_data kept received (err e) ran h = spent
  finish_phase2-Slots pads checks party sign_data kept received (ok (u, k, t)) ran h =
      awaits_phase3 (u, k) (ran2 kept pads checks received t ran h)

  finish_phase3-Slots :
      (party : Party B) (sign_data : SignData) (kept : Kept2to3 B)
      (received : List (TransmitPhase2to3 B)) (r : Result Failure (X.Text × Broadcast3to4 B))
      → Ran2 party sign_data kept
      → sign_phase3 party sign_data kept.0 kept.1 received ≡ r
      → IsOrdered
          (finish_phase3
            (record {
              party = party;
              sign_data = sign_data;
              phase1_to_2 = none;
              phase2_to_3 = none;
              x_coord = none;
            })
            r).0
  unfolding finish_phase3
  finish_phase3-Slots party sign_data kept received (err e) ran h = spent
  finish_phase3-Slots party sign_data kept received (ok (x_coord, sent)) ran h =
      awaits_phase4 x_coord (ran3 kept received sent ran h)

  pub session_phase2-Slots :
      (pads checks : PartyIndex → ℕ → B.Scalar) (party : Party B) (sign_data : SignData)
      (received : List TransmitPhase1to2) {a : Option (Kept1to2 B)} {b : Option (Kept2to3 B)}
      {c : Option X.Text}
      → Slots party sign_data a b c
      → IsOrdered
          (session_phase2 pads checks
            (record {
              party = party;
              sign_data = sign_data;
              phase1_to_2 = a;
              phase2_to_3 = b;
              x_coord = c;
            })
            received).0
  unfolding session_phase2
  session_phase2-Slots pads checks party sign_data received (awaits_phase2 kept ran) =
      finish_phase2-Slots pads checks party sign_data kept received _ ran refl
  session_phase2-Slots pads checks party sign_data received (awaits_phase3 kept ran) =
      awaits_phase3 kept ran
  session_phase2-Slots pads checks party sign_data received (awaits_phase4 x_coord ran) =
      awaits_phase4 x_coord ran
  session_phase2-Slots pads checks party sign_data received spent = spent

  pub session_phase3-Slots :
      (party : Party B) (sign_data : SignData) (received : List (TransmitPhase2to3 B))
      {a : Option (Kept1to2 B)} {b : Option (Kept2to3 B)} {c : Option X.Text}
      → Slots party sign_data a b c
      → IsOrdered
          (session_phase3
            (record {
              party = party;
              sign_data = sign_data;
              phase1_to_2 = a;
              phase2_to_3 = b;
              x_coord = c;
            })
            received).0
  unfolding session_phase3
  session_phase3-Slots party sign_data received (awaits_phase2 kept ran) = awaits_phase2 kept ran
  session_phase3-Slots party sign_data received (awaits_phase3 kept ran) =
      finish_phase3-Slots party sign_data kept received _ ran refl
  session_phase3-Slots party sign_data received (awaits_phase4 x_coord ran) =
      awaits_phase4 x_coord ran
  session_phase3-Slots party sign_data received spent = spent

  pub created-Slots :
      (d : PhaseOneDraws B) (party : Party B) (sign_data : SignData) (session : SignSession B X)
      (sent : List TransmitPhase1to2)
      → session_new d party sign_data ≡ ok (session, sent)
      → (kept : Kept1to2 B) × Ran1 party sign_data kept
        × (session ≡ record {
          party = party;
          sign_data = sign_data;
          phase1_to_2 = some kept;
          phase2_to_3 = none;
          x_coord = none;
        })
  unfolding session_new
  created-Slots d party sign_data session sent h =
      let (made, ran, last) = >>=-eq-ok (sign_phase1 d party sign_data) _ h in
      (
        (made.0, made.1),
        ran1 d made.2 ran,
        let pairs : ◌≡◌ {A = SignSession B X × List TransmitPhase1to2}
                (
                  record {
                    party = party;
                    sign_data = sign_data;
                    phase1_to_2 = some (made.0, made.1);
                    phase2_to_3 = none;
                    x_coord = none;
                  },
                  made.2,
                )
                (session, sent) =
              cc in
            sym (ap (λ p. p.0) pairs),
      )

  abbrev Same : SignSession B X → SignSession B X → Type 0
  Same s t = (s.party ≡ t.party) × (s.sign_data ≡ t.sign_data)

  finish_phase2-Same :
      (s : SignSession B X)
      (r : Result Failure
        (UniqueKeep2to3 B × BTreeMap (KeepPhase2to3 B) × List (TransmitPhase2to3 B)))
      → Same (finish_phase2 s r).0 s
  unfolding finish_phase2
  finish_phase2-Same s (err e) = (refl, refl)
  finish_phase2-Same s (ok made) = (refl, refl)

  finish_phase3-Same :
      (s : SignSession B X) (r : Result Failure (X.Text × Broadcast3to4 B))
      → Same (finish_phase3 s r).0 s
  unfolding finish_phase3
  finish_phase3-Same s (err e) = (refl, refl)
  finish_phase3-Same s (ok made) = (refl, refl)

  session_phase2-Same :
      (pads checks : PartyIndex → ℕ → B.Scalar) (s : SignSession B X)
      (received : List TransmitPhase1to2)
      → Same (session_phase2 pads checks s received).0 s
  unfolding session_phase2
  session_phase2-Same pads checks s received = elim (Option-cases s.phase1_to_2) [
    | inl e ↦ rw e (refl, refl)
    | inr (kept, e) ↦ rw e (finish_phase2-Same (record s { phase1_to_2 = none }) _)
  ]

  session_phase3-Same :
      (s : SignSession B X) (received : List (TransmitPhase2to3 B))
      → Same (session_phase3 s received).0 s
  unfolding session_phase3
  session_phase3-Same s received = elim (Option-cases s.phase2_to_3) [
    | inl e ↦ rw e (refl, refl)
    | inr (kept, e) ↦ rw e (finish_phase3-Same (record s { phase2_to_3 = none }) _)
  ]

  -- Whatever calls an application makes on a session, the session stays with its party and its
  -- data, at most one of its three slots is full, and what is in the slot was made by the phases
  -- before it, run in order, each on what the one before it left.
  pub Reachable-IsOrdered :
      (party : Party B) (sign_data : SignData) {session : SignSession B X}
      → Reachable party sign_data session
      → (session.party ≡ party) × (session.sign_data ≡ sign_data) × IsOrdered session
  Reachable-IsOrdered party sign_data (created d t sent h) =
      let (kept, ran, e) = created-Slots d party sign_data t sent h in
      rw e (refl, refl, awaits_phase2 kept ran)
  Reachable-IsOrdered party sign_data (called_phase2 pads checks before received r) =
      let (p, q, slots) = Reachable-IsOrdered party sign_data r in
      let (p', q') = session_phase2-Same pads checks before received in
      (
        p' ∙ p,
        q' ∙ q,
        session_phase2-Slots pads checks before.party before.sign_data received slots,
      )
  Reachable-IsOrdered party sign_data (called_phase3 before received r) =
      let (p, q, slots) = Reachable-IsOrdered party sign_data r in
      let (p', q') = session_phase3-Same before received in
      (p' ∙ p, q' ∙ q, session_phase3-Slots before.party before.sign_data received slots)
