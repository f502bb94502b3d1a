-- ===== src/Utilities/Multiplication/Bans.antt =====
-- Which faults of a multiplication ban the counterparty.
use kawasekit_dkls.Prelude.{
  ◌≡◌, ◌⊎◌, refl, sym, ap, ◌∙◌, List, Bool, true, false, not, ◌||◌, inl, inr, Bool-cases, Bytes,
  length, take, drop, ◌==◌, bytes_eq, Result, ok, err, ◌>>=◌, ◌>>◌, fail_if, ℕ,
}
use Prim.Native.String.{String}
use kawasekit_dkls.Backend.{Backend}
use kawasekit_dkls.Utilities.Ot.{ErrorOt, malformed_message, malformed}
use kawasekit_dkls.Utilities.Ot.Extension.{kappa, batch_size}
use kawasekit_dkls.Utilities.Ot.Extension.Transpose.{cut_and_transpose}
use kawasekit_dkls.Utilities.Ot.Extension.Sender.{all_have_length}
use kawasekit_dkls.Utilities.Ot.Extension.Receiver.{v_of, t_b_of, ote_receiver_run_phase2}
use kawasekit_dkls.Utilities.Multiplication.{
  l, ot_width, MulReceiver, MulDataToReceiver, MulDataToKeepReceiver, ErrorMul, mul_fails,
  mul_panics, too_short, mul_consistency_failure, mul_malformed_message, mul_malformed,
  mul_consistency, from_ot, map_from_ot, ote_session_id, verify_r_of,
}
use kawasekit_dkls.Utilities.Multiplication.Receiver.{receiver_entry, mul_receiver_run_phase2}

-- Every error of a result is a malformed message.
record Recoverable {ℓ} {A : Type ℓ} (r : Result ErrorOt A) : Type ℓ where
  kind_of : (e : ErrorOt) → r ≡ err e → e.kind ≡ malformed_message

Recoverable-ok {ℓ} : {A : Type ℓ} (value : A) → Recoverable (ok value)
Recoverable-ok value = record { kind_of = λ e h. cc }

Recoverable-err {ℓ} : {A : Type ℓ} (d : String) → Recoverable {A = A} (err (malformed d))
Recoverable-err d = record {
  kind_of = λ e h. let same : malformed d ≡ e = cc in sym (ap (λ t. t.kind) same);
}

Recoverable-fail_if : (b : Bool) (d : String) → Recoverable (fail_if b (malformed d))
Recoverable-fail_if true d = Recoverable-err d
Recoverable-fail_if false d = Recoverable-ok tt

Recoverable->>= {ℓ κ} :
    {A : Type ℓ} {C : Type κ} (first : Result ErrorOt A) (next : A → Result ErrorOt C)
    → Recoverable first
    → ((a : A) → Recoverable (next a))
    → Recoverable (first >>= next)
Recoverable->>= (ok value) next h k = k value
Recoverable->>= (err f) next h k = record {
  kind_of = λ e p. let same : f ≡ e = cc in sym (ap (λ t. t.kind) same) ∙ h.kind_of f refl;
}

cut_and_transpose-Recoverable : (input : List Bytes) → Recoverable (cut_and_transpose input)
unfolding cut_and_transpose
cut_and_transpose-Recoverable input = elim (Bool-cases (length input == kappa)) [
  | inl e ↦ rw e (Recoverable-ok _)
  | inr e ↦ rw e (Recoverable-err _)
]

module _ ⦃B : Backend⦄ where
  phase2-Recoverable :
      (sid : Bytes) (width : ℕ) (choice_bits : List Bool) (extended : List Bytes)
      (tau : List (List B.Scalar))
      → Recoverable (ote_receiver_run_phase2 sid width choice_bits extended tau)
  unfolding ote_receiver_run_phase2
  phase2-Recoverable sid width choice_bits extended tau =
      Recoverable->>= _ _
        (Recoverable->>= _ _
          (Recoverable->>= _ _
            (Recoverable->>= _ _
              (Recoverable->>= _ _
                (Recoverable-fail_if (not (length choice_bits == batch_size))
                  "Choice bits vector has incorrect length")
                (λ _.
                  Recoverable-fail_if (not (length extended == kappa))
                    "Extended seed matrix has incorrect dimensions"))
              (λ _.
                Recoverable-fail_if (not (length tau == width))
                  "The vector sent by the sender does not have the expected size!"))
            (λ _.
              Recoverable-fail_if (not (all_have_length batch_size tau))
                "Tau vector has incorrect inner length"))
          (λ _. cut_and_transpose-Recoverable extended))
        (λ transposed_t.
          Recoverable-ok (t_b_of width choice_bits (v_of sid width transposed_t) tau))

  from_ot-kind :
      (e : ErrorOt) → e.kind ≡ malformed_message → (from_ot e).kind ≡ mul_malformed_message
  unfolding from_ot
  from_ot-kind e h = rw h refl

  -- The last tests, on what the OT extension gave.
  refuse :
      {A C : Type 0} (run : Result ErrorOt A) (a : A) (d : String) (accepts : A → Bool) (value : C)
      (e : ErrorMul)
      → run ≡ ok a
      → (few b short : Bool) → accepts a ≡ b
      → (fail_if few mul_panics
          >> fail_if (not b) (mul_fails (mul_consistency d))
          >> fail_if short mul_panics
          >> ok value)
        ≡ err (mul_fails e)
      → (e.kind ≡ mul_consistency_failure) × (a' : A) × (run ≡ ok a') × (accepts a' ≡ false)
  unfolding mul_consistency
  refuse run a d accepts value e hr true b short hb p = cc
  refuse run a d accepts value e hr false true true hb p = cc
  refuse run a d accepts value e hr false true false hb p = cc
  refuse run a d accepts value e hr false false short hb p =
      let same : mul_consistency d ≡ e = cc in (sym (ap (λ t. t.kind) same), a, hr, hb)

  classify :
      {A C : Type 0} (bad few short : Bool) (run : Result ErrorOt A)
      → Recoverable run
      → (d : String) (accepts : A → Bool) (d2 : String) (value : A → C) (e : ErrorMul)
      → (fail_if bad (mul_fails (mul_malformed d)) >> map_from_ot run >>= λ a.
          fail_if few mul_panics
          >> fail_if (not (accepts a)) (mul_fails (mul_consistency d2))
          >> fail_if short mul_panics
          >> ok (value a))
        ≡ err (mul_fails e)
      → (e.kind ≡ mul_malformed_message)
        ⊎ ((e.kind ≡ mul_consistency_failure) × (a : A) × (run ≡ ok a) × (accepts a ≡ false))
  unfolding map_from_ot mul_malformed
  classify true few short run r d accepts d2 value e h =
      let same : mul_malformed d ≡ e = cc in inl (sym (ap (λ t. t.kind) same))
  classify false few short (err f) r d accepts d2 value e h =
      let same : from_ot f ≡ e = cc in
      inl (sym (ap (λ t. t.kind) same) ∙ from_ot-kind f (r.kind_of f refl))
  classify false few short (ok a) r d accepts d2 value e h =
      inr (refuse (ok a) a d2 accepts (value a) e refl few (accepts a) short refl h)

  -- The hash of the matrix r that the receiver expects.
  abbrev pub expected :
      MulDataToKeepReceiver B → MulDataToReceiver B → Bytes → List (List B.Scalar) → Bytes
  expected kept received sid t_b =
      verify_r_of sid (receiver_entry kept received.verify_u (take l t_b) (drop l t_b))

  -- If the receiver's phase 2 returns an error, then either the error is a malformed message, or it
  -- is a consistency failure, the OT extension has succeeded, and the sender's hash is not the one
  -- of the matrix that the receiver computes from his output of the OT extension.
  pub mul_receiver_run_phase2-eq-err :
      (receiver : MulReceiver B) (sid : Bytes) (kept : MulDataToKeepReceiver B)
      (received : MulDataToReceiver B) (e : ErrorMul)
      → mul_receiver_run_phase2 receiver sid kept received ≡ err (mul_fails e)
      → (e.kind ≡ mul_malformed_message)
        ⊎ ((e.kind ≡ mul_consistency_failure)
            × (t_b : List (List B.Scalar)) × (ote_receiver_run_phase2
                  (ote_session_id sid)
                  ot_width
                  kept.choice_bits
                  kept.extended_seeds
                  received.vector_of_tau
                ≡ ok t_b)
            × (bytes_eq received.verify_r (expected kept received sid t_b) ≡ false))
  unfolding mul_receiver_run_phase2
  mul_receiver_run_phase2-eq-err receiver sid kept received e h =
      classify (not (length received.verify_u == l) || not (length received.gamma_sender == l))
        (too_short kept.chi_tilde l || too_short kept.chi_hat l)
        (too_short receiver.public_gadget batch_size) _
        (phase2-Recoverable _ ot_width _ _ received.vector_of_tau) _
        (λ t_b. bytes_eq received.verify_r (expected kept received sid t_b)) _ _ e h
