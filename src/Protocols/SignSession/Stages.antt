-- ===== src/Protocols/SignSession/Stages.antt =====
-- A session as a machine with four stages.
use kawasekit_dkls.Prelude.{
  ℕ, ◌≡◌, ◌⊎◌, inl, inr, Option-cases, sym, ap, ◌∙◌, refl, List, [], ◌∷◌, Bool, true, false, Option,
  none, some, BTreeMap, Result, ok, err,
}
use kawasekit_dkls.Backend.{Backend}
use kawasekit_dkls.Protocols.{PartyIndex, Failure, aborts}
use kawasekit_dkls.Protocols.Signature.{Hex}
use kawasekit_dkls.Protocols.Signing.{
  Party, SignData, TransmitPhase1to2, TransmitPhase2to3, Broadcast3to4, UniqueKeep2to3,
  KeepPhase2to3,
}
use kawasekit_dkls.Protocols.Signing.PhaseOne.{PhaseOneDraws}
use kawasekit_dkls.Protocols.Signing.PhaseTwo.{sign_phase2}
use kawasekit_dkls.Protocols.Signing.PhaseThree.{sign_phase3}
use kawasekit_dkls.Protocols.SignSession.{
  Kept1to2, Kept2to3, SignSession, out_of_order, session_new, finish_phase2, session_phase2,
  finish_phase3, session_phase3,
}
use kawasekit_dkls.Protocols.SignSession.Order.{
  Slots, awaits_phase2, awaits_phase3, awaits_phase4, spent, IsOrdered, created-Slots,
  session_phase2-Slots, session_phase3-Slots,
}

pub data Stage : Type 0 where
  wants_phase2 wants_phase3 wants_phase4 over : Stage

pub data Kind : Type 0 where
  phase2 phase3 : Kind

-- The stage after a call that succeeds or fails: only the phase that is wanted can succeed, and if
-- it fails the session is over.
unfoldable pub follow : Stage → Kind → Bool → Option Stage
follow wants_phase2 phase2 true = some wants_phase3
follow wants_phase2 phase2 false = some over
follow wants_phase2 phase3 true = none
follow wants_phase2 phase3 false = some wants_phase2
follow wants_phase3 phase2 true = none
follow wants_phase3 phase2 false = some wants_phase3
follow wants_phase3 phase3 true = some wants_phase4
follow wants_phase3 phase3 false = some over
follow wants_phase4 kind true = none
follow wants_phase4 kind false = some wants_phase4
follow over kind true = none
follow over kind false = some over

-- The stage after a list of calls, if the machine allows their outcomes.
unfoldable pub reached : Stage → List (Kind × Bool) → Option Stage
reached stage [] = some stage
reached stage (e ∷ es) = elim (follow stage e.0 e.1) [ none ↦ none | some next ↦ reached next es ]

unfoldable pub is_ok {ℓ κ} : {E : Type ℓ} {A : Type κ} → Result E A → Bool
is_ok (ok value) = true
is_ok (err e) = false

reached-follow :
    (st next : Stage) (kind : Kind) (success : Bool) (events : List (Kind × Bool)) (last : Stage)
    → follow st kind success ≡ some next
    → reached next events ≡ some last
    → reached st ((kind, success) ∷ events) ≡ some last
unfolding reached
reached-follow st next kind success events last h k = rw (reached, h) k

module _ ⦃B : Backend⦄ ⦃X : Hex⦄ where
  -- A call of an application, with what it passes.
  pub data Call : Type 0 where
    calls_phase2 :
        (pads checks : PartyIndex → ℕ → B.Scalar) (received : List TransmitPhase1to2) → Call
    calls_phase3 : (received : List (TransmitPhase2to3 B)) → Call

  -- Which calls were made, and whether they succeeded.
  unfoldable pub log : SignSession B X → List Call → List (Kind × Bool)
  log session [] = []
  log session (calls_phase2 pads checks received ∷ calls) =
      (phase2, is_ok (session_phase2 pads checks session received).1)
      ∷ log (session_phase2 pads checks session received).0 calls
  log session (calls_phase3 received ∷ calls) =
      (phase3, is_ok (session_phase3 session received).1)
      ∷ log (session_phase3 session received).0 calls

  -- The session after the calls.
  unfoldable pub after : SignSession B X → List Call → SignSession B X
  after session [] = session
  after session (calls_phase2 pads checks received ∷ calls) =
      after (session_phase2 pads checks session received).0 calls
  after session (calls_phase3 received ∷ calls) = after (session_phase3 session received).0 calls

  unfoldable pub stage_of : Option (Kept1to2 B) → Option (Kept2to3 B) → Option X.Text → Stage
  stage_of (some kept) b c = wants_phase2
  stage_of none (some kept) c = wants_phase3
  stage_of none none (some x_coord) = wants_phase4
  stage_of none none none = over

  abbrev pub stage : SignSession B X → Stage
  stage session = stage_of session.phase1_to_2 session.phase2_to_3 session.x_coord

  finish_phase2-follow :
      (s : SignSession B X)
      (r : Result Failure
        (UniqueKeep2to3 B × BTreeMap (KeepPhase2to3 B) × List (TransmitPhase2to3 B)))
      → s.phase1_to_2 ≡ none
      → s.phase2_to_3 ≡ none
      → s.x_coord ≡ none
      → follow wants_phase2 phase2 (is_ok (finish_phase2 s r).1)
        ≡ some (stage (finish_phase2 s r).0)
  unfolding follow is_ok finish_phase2 stage_of
  finish_phase2-follow s (err e) a b c = rw (a, b, c) refl
  finish_phase2-follow s (ok made) a b c = rw a refl

  finish_phase3-follow :
      (s : SignSession B X) (r : Result Failure (X.Text × Broadcast3to4 B))
      → s.phase1_to_2 ≡ none
      → s.phase2_to_3 ≡ none
      → s.x_coord ≡ none
      → follow wants_phase3 phase3 (is_ok (finish_phase3 s r).1)
        ≡ some (stage (finish_phase3 s r).0)
  unfolding follow is_ok finish_phase3 stage_of
  finish_phase3-follow s (err e) a b c = rw (a, b, c) refl
  finish_phase3-follow s (ok made) a b c = rw (a, b) refl

  session_phase2-follow :
      (pads checks : PartyIndex → ℕ → B.Scalar) (party : Party B) (sign_data : SignData)
      (received : List TransmitPhase1to2) {a : Option (Kept1to2 B)} {b : Option (Kept2to3 B)}
      {c : Option X.Text}
      → Slots party sign_data a b c
      → (s : SignSession B X)
      → s ≡ record {
        party = party;
        sign_data = sign_data;
        phase1_to_2 = a;
        phase2_to_3 = b;
        x_coord = c;
      }
      → follow (stage_of a b c) phase2 (is_ok (session_phase2 pads checks s received).1)
        ≡ some (stage (session_phase2 pads checks s received).0)
  unfolding session_phase2 follow stage_of is_ok
  session_phase2-follow pads checks party sign_data received (awaits_phase2 kept ran) s e = rw e (
      finish_phase2-follow
        (record {
          party = party;
          sign_data = sign_data;
          phase1_to_2 = none;
          phase2_to_3 = none;
          x_coord = none;
        })
        (sign_phase2 pads checks party sign_data kept.0 kept.1 received) refl refl refl)
  session_phase2-follow pads checks party sign_data received (awaits_phase3 kept ran) s e =
      rw e refl
  session_phase2-follow pads checks party sign_data received (awaits_phase4 x_coord ran) s e =
      rw e refl
  session_phase2-follow pads checks party sign_data received spent s e = rw e refl

  session_phase3-follow :
      (party : Party B) (sign_data : SignData) (received : List (TransmitPhase2to3 B))
      {a : Option (Kept1to2 B)} {b : Option (Kept2to3 B)} {c : Option X.Text}
      → Slots party sign_data a b c
      → (s : SignSession B X)
      → s ≡ record {
        party = party;
        sign_data = sign_data;
        phase1_to_2 = a;
        phase2_to_3 = b;
        x_coord = c;
      }
      → follow (stage_of a b c) phase3 (is_ok (session_phase3 s received).1)
        ≡ some (stage (session_phase3 s received).0)
  unfolding session_phase3 follow stage_of is_ok
  session_phase3-follow party sign_data received (awaits_phase2 kept ran) s e = rw e refl
  session_phase3-follow party sign_data received (awaits_phase3 kept ran) s e = rw e (
      finish_phase3-follow
        (record {
          party = party;
          sign_data = sign_data;
          phase1_to_2 = none;
          phase2_to_3 = none;
          x_coord = none;
        })
        (sign_phase3 party sign_data kept.0 kept.1 received) refl refl refl)
  session_phase3-follow party sign_data received (awaits_phase4 x_coord ran) s e = rw e refl
  session_phase3-follow party sign_data received spent s e = rw e refl

  log-reached :
      (session : SignSession B X) (calls : List Call)
      → IsOrdered session
      → (reached (stage session) (log session calls) ≡ some (stage (after session calls)))
        × IsOrdered (after session calls)
  unfolding reached log after
  log-reached session [] slots = (refl, slots)
  log-reached session (calls_phase2 pads checks received ∷ calls) slots =
      let next = (session_phase2 pads checks session received).0 in
      let (rest, ordered) =
        log-reached next calls
          (session_phase2-Slots pads checks session.party session.sign_data received slots) in
      (
        reached-follow (stage session) (stage next) phase2 _ _ _
            (session_phase2-follow pads checks session.party session.sign_data received slots
              session refl)
            rest,
        ordered,
      )
  log-reached session (calls_phase3 received ∷ calls) slots =
      let next = (session_phase3 session received).0 in
      let (rest, ordered) =
        log-reached next calls
          (session_phase3-Slots session.party session.sign_data received slots) in
      (
        reached-follow (stage session) (stage next) phase3 _ _ _
            (session_phase3-follow session.party session.sign_data received slots session refl)
            rest,
        ordered,
      )

  -- A call of phase 2 that is refused, with the session as it was.
  abbrev pub Refuses2 :
      (PartyIndex → ℕ → B.Scalar)
      → (PartyIndex → ℕ → B.Scalar)
      → SignSession B X
      → List TransmitPhase1to2
      → Type 0
  Refuses2 pads checks s received =
      session_phase2 pads checks s received
      ≡ (s, err (aborts (out_of_order s.party.party_index "phase2 called out of order")))

  abbrev pub Refuses3 : SignSession B X → List (TransmitPhase2to3 B) → Type 0
  Refuses3 s received =
      session_phase3 s received
      ≡ (s, err (aborts (out_of_order s.party.party_index "phase3 called out of order")))

  turn2 :
      (pads checks : PartyIndex → ℕ → B.Scalar) (s : SignSession B X)
      (received : List TransmitPhase1to2)
      → (stage s ≡ wants_phase2) ⊎ Refuses2 pads checks s received
  unfolding session_phase2 stage_of
  turn2 pads checks s received = elim (Option-cases s.phase1_to_2) [
    | inl e ↦ inr (rw e refl)
    | inr (kept, e) ↦ inl (rw e refl)
  ]

  turn3 :
      (party : Party B) (sign_data : SignData) (received : List (TransmitPhase2to3 B))
      {a : Option (Kept1to2 B)} {b : Option (Kept2to3 B)} {c : Option X.Text}
      → Slots party sign_data a b c
      → (s : SignSession B X)
      → s ≡ record {
        party = party;
        sign_data = sign_data;
        phase1_to_2 = a;
        phase2_to_3 = b;
        x_coord = c;
      }
      → (stage s ≡ wants_phase3) ⊎ Refuses3 s received
  unfolding session_phase3 stage_of
  turn3 party sign_data received (awaits_phase2 kept ran) s e = inr (rw e refl)
  turn3 party sign_data received (awaits_phase3 kept ran) s e = inl (rw e refl)
  turn3 party sign_data received (awaits_phase4 x_coord ran) s e = inr (rw e refl)
  turn3 party sign_data received spent s e = inr (rw e refl)

  -- A new session refines the machine with the stages "wants phase 2", "wants phase 3", "wants
  -- phase 4" and "over", in which a phase succeeds only in the stage that wants it, a phase that
  -- fails there leads to "over", and any other call fails and leaves the stage. Whatever calls of
  -- phase 2 and 3 are made on the session, with any messages, the machine allows their outcomes and
  -- ends in the stage of the session after the calls. And then a call of phase 2 in a stage that
  -- does not want it is refused as out of order and leaves the whole session as it was, and so does
  -- a call of phase 3.
  pub session_new-reached :
      (d : PhaseOneDraws B) (party : Party B) (sign_data : SignData) (session : SignSession B X)
      (sent : List TransmitPhase1to2) (calls : List Call) (pads checks : PartyIndex → ℕ → B.Scalar)
      (received2 : List TransmitPhase1to2) (received3 : List (TransmitPhase2to3 B))
      → session_new d party sign_data ≡ ok (session, sent)
      → (reached wants_phase2 (log session calls) ≡ some (stage (after session calls)))
        × ((stage (after session calls) ≡ wants_phase2)
            ⊎ Refuses2 pads checks (after session calls) received2)
        × ((stage (after session calls) ≡ wants_phase3) ⊎ Refuses3 (after session calls) received3)
  unfolding stage_of
  session_new-reached d party sign_data session sent calls pads checks received2 received3 h =
      let (kept, ran, e) = created-Slots d party sign_data session sent h in
      let s = after session calls in
      let started : (stage session ≡ wants_phase2) × IsOrdered session =
        rw e (refl, awaits_phase2 kept ran) in
      let (runs, ordered) = log-reached session calls started.1 in
      (
        ap (λ st. reached st (log session calls)) (sym started.0) ∙ runs,
        turn2 pads checks s received2,
        turn3 s.party s.sign_data received3 ordered s refl,
      )
