-- ===== src/Protocols/SignSession/Delivers.antt =====
-- What a signature of a session stands for.
use kawasekit_dkls.Prelude.{
  ◌≡◌, subst, refl, sym, ap, ◌∙◌, List, true, false, Option, some, ok, ok_or, ok_or-eq-ok,
  >>=-eq-ok, Bytes,
}
use kawasekit_dkls.Backend.{Backend, FieldLaws}
use kawasekit_dkls.Protocols.{aborts, recoverable, invalid_hex}
use kawasekit_dkls.Protocols.Signature.{Hex, HexLaws, EcdsaSignature}
use kawasekit_dkls.Protocols.Signing.{Party, SignData, Broadcast3to4, verify_ecdsa_signature}
use kawasekit_dkls.Protocols.Signing.PhaseFour.{sign_phase4}
use kawasekit_dkls.Protocols.Signing.Equation.{CurveLaws}
use kawasekit_dkls.Protocols.Signing.Sound.{sign_phase4-verify_ecdsa_signature}
use kawasekit_dkls.Protocols.SignSession.{
  Kept1to2, Kept2to3, SignSession, session_phase4, out_of_order,
}
use kawasekit_dkls.Protocols.SignSession.Order.{
  Slots, awaits_phase2, awaits_phase3, awaits_phase4, spent, Reachable, Ran3, Reachable-IsOrdered,
}

module _ ⦃B : Backend⦄ ⦃X : Hex⦄ where
  filled-Ran3 :
      (party : Party B) (sign_data : SignData) (x_coord : X.Text) {a : Option (Kept1to2 B)}
      {b : Option (Kept2to3 B)} {c : Option X.Text}
      → Slots party sign_data a b c
      → c ≡ some x_coord
      → Ran3 party sign_data x_coord
  filled-Ran3 party sign_data x_coord (awaits_phase2 kept ran) e = cc
  filled-Ran3 party sign_data x_coord (awaits_phase3 kept ran) e = cc
  filled-Ran3 party sign_data x_coord (awaits_phase4 x ran) e =
      let same : x ≡ x_coord = cc in subst (λ t. Ran3 party sign_data t) same ran
  filled-Ran3 party sign_data x_coord spent e = cc

  Reachable-Ran3 :
      (party : Party B) (sign_data : SignData) (session : SignSession B X) (x_coord : X.Text)
      → Reachable party sign_data session
      → session.x_coord ≡ some x_coord
      → Ran3 party sign_data x_coord
  Reachable-Ran3 party sign_data session x_coord reached h =
      let (p, q, slots) = Reachable-IsOrdered party sign_data reached in
      subst (λ t. Ran3 t sign_data x_coord) p
        (subst (λ t. Ran3 session.party t x_coord) q
          (filled-Ran3 session.party session.sign_data x_coord slots h))

  -- Let phase 4 of a session, after any calls, return a signature. Then phases 1, 2 and 3 have all
  -- succeeded for this party and this data, in order and each on what the one before left, the
  -- bytes of r are those of the x coordinate of phase 3, those of s represent a scalar that is not
  -- high, and the signature verifies for the message and the public key of the party.
  pub session_phase4-Reachable :
      ⦃L : FieldLaws B⦄ ⦃C : CurveLaws B⦄ ⦃E : HexLaws B X⦄ (party : Party B) (sign_data : SignData)
      (session : SignSession B X) (received : List (Broadcast3to4 B)) (signature : EcdsaSignature)
      → Reachable party sign_data session
      → session_phase4 session received ≡ ok signature
      → (x_coord : X.Text) × Ran3 party sign_data x_coord
        × (X.decode x_coord ≡ some signature.r)
        × (s : B.Scalar) × (signature.s ≡ B.to_repr s)
        × (B.is_high s ≡ false)
        × (verify_ecdsa_signature sign_data.message_hash party.pk x_coord (X.encode signature.s)
            ≡ true)
  unfolding session_phase4
  session_phase4-Reachable ⦃E = E⦄ party sign_data session received signature reached h =
      let own = session.party.party_index in
      let (p, q, _) = Reachable-IsOrdered party sign_data reached in
      let (x, hx, rest1) =
        >>=-eq-ok (ok_or (aborts (out_of_order own "phase4 called out of order")) session.x_coord) _
          h in
      let (made, hm, rest2) =
        >>=-eq-ok (sign_phase4 session.party session.sign_data x received true) _ rest1 in
      let (r, hr, rest3) =
        >>=-eq-ok (ok_or (aborts (recoverable own (invalid_hex "invalid r hex"))) (X.decode x)) _
          rest2 in
      let (s, hs, last) =
        >>=-eq-ok (ok_or (aborts (recoverable own (invalid_hex "invalid s hex"))) (X.decode made.0))
          _ rest3 in
      let (verified, a, text, low) =
        sign_phase4-verify_ecdsa_signature session.party session.sign_data x received true made.0
          made.1 hm in
      let made_of : ◌≡◌ {A = EcdsaSignature} (record { r = r; s = s; recovery_id = made.1 })
          signature =
        cc in
      let decoded : ◌≡◌ {A = Option Bytes} (some s) (some (B.to_repr a)) =
        sym (ok_or-eq-ok _ (X.decode made.0) s hs) ∙ ap X.decode text ∙ E.decode-encode a in
      let bytes : s ≡ B.to_repr a = cc in
      let s_bytes : signature.s ≡ B.to_repr a = sym (ap (λ t. t.s) made_of) ∙ bytes in
      (
        x,
        Reachable-Ran3 party sign_data session x reached (ok_or-eq-ok _ session.x_coord x hx),
        ok_or-eq-ok _ (X.decode x) r hr ∙ ap (λ t. some t.r) made_of,
        a,
        s_bytes,
        low refl,
        rw (sym p, sym q, s_bytes, sym text) verified,
      )
