-- ===== src/Utilities/Ot/Extension/Agree.antt =====
-- The two parties of the OT extension end with a sharing of the chosen correlations.
use kawasekit_dkls.Prelude.{
  ℕ, ◌*◌, ◌≤◌, ◌<◌, ◌≡◌, refl, sym, ap, ap₂, ◌∙◌, List, [], ◌∷◌, ◌++◌, map, Bool, true, false,
  Bytes, ascii, length, length-take, concat, if◌then◌else◌, arith, All, ==_refl, ok, traverse-ok,
  table, at, at-table, at-All, table_congr, length-table, All-table, map-table, bit, bit_xor,
  or_shifted-lt_pow, bit-le_one,
}
use kawasekit_dkls.Backend.{Backend, HashLaws}
use kawasekit_dkls.Utilities.Hashes.{tagged_hash}
use kawasekit_dkls.Utilities.Ot.Extension.{
  kappa, prg_data_size, field_size, batch_size, ot_security, base_security, stat_security,
  OteSender, OteReceiver, OteDataToSender, compress, extend_seed, chi,
}
use kawasekit_dkls.Utilities.Ot.Extension.Sender.{
  weigh, all_have_length, q_matrix, verify_sender, sender_extended_seeds, check_rows,
}
use kawasekit_dkls.Utilities.Ot.Extension.Receiver.{
  u_matrix, receiver_extended_seeds, ote_receiver_run_phase1,
}
use kawasekit_dkls.Utilities.Ot.Extension.Seeds.{
  extend_seeds_lem, length-extend_seed, extend_seed_bytes,
}
use kawasekit_dkls.Utilities.Ot.Extension.Correlation.{q-cell}
use kawasekit_dkls.Utilities.Ot.Extension.Check.{
  weighed, weigh-eq-ok, IsShifted, weighed-shifted, weighed_eta, rows_eq_refl,
}

-- The states that the initialization is for: the sender knows one seed of each pair.
pub record Matching (sender : OteSender) (receiver : OteReceiver) : Type 0 where
  pub correlation_length : length sender.correlation ≡ kappa
  pub seeds_length : length sender.seeds ≡ kappa
  pub seeds0_length : length receiver.seeds0 ≡ kappa
  pub seeds1_length : length receiver.seeds1 ≡ kappa
  pub known :
      (i : ℕ)
      → i < kappa
      → at [] sender.seeds i ≡ (
          if at false sender.correlation i
          then at [] receiver.seeds1 i
          else at [] receiver.seeds0 i)

compress_small : (n : ℕ) (bits : List Bool) (j : ℕ) → at 0 (compress n bits) j < 256
unfolding compress
compress_small n bits j =
    at-All (λ b. b < 256) 0 _ j (omega arith)
      (All-table (λ b. b < 256) n _ (λ i h. or_shifted-lt_pow _ (λ k. bit-le_one _) 8))

length-compress : (n : ℕ) (bits : List Bool) → length (compress n bits) ≡ n
unfolding compress
length-compress n bits = length-table n _

field_size-le : field_size ≤ 32
unfolding field_size ot_security base_security stat_security
field_size-le = omega arith

pick :
    ⦃B : Backend⦄ (sid : Bytes) (i : ℕ) (c : Bool) (seed0 seed1 : Bytes)
    → extend_seed sid i (if c then seed1 else seed0)
      ≡ (if c then extend_seed sid i seed1 else extend_seed sid i seed0)
pick sid i true seed0 seed1 = refl
pick sid i false seed0 seed1 = refl

pub All-lengths {ℓ} :
    {A : Type ℓ} (m : ℕ) (xss : List (List A))
    → All (λ xs. length xs ≡ m) xss
    → all_have_length m xss ≡ true
unfolding all_have_length
All-lengths m [] h = refl
All-lengths m (xs ∷ xss) h = rw (h.0, ==_refl m, All-lengths m xss h.1) refl

pub all_have_length-table {ℓ} :
    {A : Type ℓ} (m n : ℕ) (f : ℕ → ℕ → A) → all_have_length m (table n (λ i. table m (f i))) ≡ true
all_have_length-table m n f = All-lengths m _ (All-table _ n _ (λ i h. length-table m (f i)))

module _ ⦃B : Backend⦄ ⦃H : HashLaws B⦄ where
  length-chi : (sid label msg : Bytes) → length (chi sid label msg) ≡ field_size
  unfolding chi tagged_hash
  length-chi sid label msg =
      length-take field_size _ (omega (arith, H.digest_length _, field_size-le))

  module _ (receiver : OteReceiver) (sid : Bytes) (choice_bits : List Bool) (draw : ℕ → Bool) where
    abbrev pub bits : List Bool
    bits = choice_bits ++ table ot_security draw

    abbrev pub x : Bytes
    x = compress prg_data_size bits

    abbrev pub t0 : List Bytes
    t0 = table kappa (λ i. (receiver_extended_seeds receiver sid i).0)

    abbrev pub t1 : List Bytes
    t1 = table kappa (λ i. (receiver_extended_seeds receiver sid i).1)

    abbrev weight : Bytes → Bytes
    weight =
        weighed (chi sid (ascii "chi1") (concat (u_matrix t0 t1 x)))
          (chi sid (ascii "chi2") (concat (u_matrix t0 t1 x)))

    abbrev pub sent : OteDataToSender
    sent = record { u = u_matrix t0 t1 x; verify_x = weight x; verify_t = map weight t0 }

    t0-at : (i : ℕ) → i < kappa → at [] t0 i ≡ extend_seed sid i (at [] receiver.seeds0 i)
    unfolding receiver_extended_seeds
    t0-at i h =
        at-table [] kappa _ i h
        ∙ ap (λ p. p.0) (extend_seeds_lem sid i (at [] receiver.seeds0 i) (at [] receiver.seeds1 i))

    t1-at : (i : ℕ) → i < kappa → at [] t1 i ≡ extend_seed sid i (at [] receiver.seeds1 i)
    unfolding receiver_extended_seeds
    t1-at i h =
        at-table [] kappa _ i h
        ∙ ap (λ p. p.1) (extend_seeds_lem sid i (at [] receiver.seeds0 i) (at [] receiver.seeds1 i))

    t0_small : (i j : ℕ) → i < kappa → at 0 (at [] t0 i) j < 256
    t0_small i j h =
        rw (t0-at i h) (at-All (λ b. b < 256) 0 _ j (omega arith) (extend_seed_bytes sid i _))

    pub t0_length : (i : ℕ) → length (receiver_extended_seeds receiver sid i).0 ≡ prg_data_size
    unfolding receiver_extended_seeds
    t0_length i =
        ap (λ p. length p.0)
          (extend_seeds_lem sid i (at [] receiver.seeds0 i) (at [] receiver.seeds1 i))
        ∙ length-extend_seed sid i _

    weigh_row :
        (row : Bytes)
        → length row ≡ prg_data_size
        → weigh
            (chi sid (ascii "chi1") (concat (u_matrix t0 t1 x)))
            (chi sid (ascii "chi2") (concat (u_matrix t0 t1 x)))
            row
          ≡ ok (weight row)
    weigh_row row h = weigh-eq-ok _ _ row (length-chi _ _ _) (length-chi _ _ _) h

    pub phase1 :
        length choice_bits ≡ batch_size
        → length receiver.seeds0 ≡ kappa
        → length receiver.seeds1 ≡ kappa
        → ote_receiver_run_phase1 draw receiver sid choice_bits ≡ ok (t0, sent)
    unfolding ote_receiver_run_phase1
    phase1 hb h0 h1 =
        rw
          (
            hb,
            h0,
            h1,
            ==_refl batch_size,
            ==_refl kappa,
            weigh_row x (length-compress prg_data_size bits),
            traverse-ok _ weight t0 (All-table _ kappa _ (λ i h. weigh_row _ (t0_length i))),
          )
          refl

    module _ (sender : OteSender) (m : Matching sender receiver) where
      abbrev correlation : List Bool
      correlation = sender.correlation

      abbrev pub known_rows : List Bytes
      known_rows = sender_extended_seeds sender sid

      abbrev pub q : List Bytes
      q = q_matrix correlation (u_matrix t0 t1 x) known_rows

      pub chosen :
          (i : ℕ)
          → i < kappa
          → at [] known_rows i ≡ (if at false correlation i then at [] t1 i else at [] t0 i)
      unfolding sender_extended_seeds
      chosen i h =
          at-table [] kappa _ i h
          ∙ ap (extend_seed sid i) (m.known i h)
          ∙ pick sid i (at false correlation i) _ _
          ∙ ap₂ (λ a b. if at false correlation i then a else b) (sym (t1-at i h)) (sym (t0-at i h))

      q-IsShifted :
          (i : ℕ) → i < kappa → IsShifted (at false correlation i) (at [] q i) (at [] t0 i) x
      q-IsShifted i h = record {
        cell = λ j p. q-cell correlation t0 t1 known_rows chosen bits i j h p;
        small_base = λ j. t0_small i j h;
        small_x = compress_small prg_data_size bits;
      }

      q_row_length : (i : ℕ) → i < kappa → length (at [] q i) ≡ prg_data_size
      unfolding q_matrix
      q_row_length i h = ap length (at-table [] kappa _ i h) ∙ length-table prg_data_size _

      verify_t_at : (i : ℕ) → i < kappa → weight (at [] t0 i) ≡ at [] (map weight t0) i
      verify_t_at i h =
          ap weight (at-table [] kappa _ i h)
          ∙ sym (at-table [] kappa _ i h)
          ∙ ap (λ rows. at [] rows i) (sym (map-table weight kappa _))

      All-weighed :
          All
            (λ row.
              weigh
                (chi sid (ascii "chi1") (concat (u_matrix t0 t1 x)))
                (chi sid (ascii "chi2") (concat (u_matrix t0 t1 x)))
                row
              ≡ ok (weight row))
            q
      unfolding q_matrix
      All-weighed = All-table _ kappa _ (λ i h. weigh_row _ (length-table prg_data_size _))

      weights_agree : map weight q ≡ verify_sender correlation sent
      unfolding q_matrix verify_sender
      weights_agree =
          map-table weight kappa _
          ∙ table_congr kappa _ _ (λ i h.
            ap weight (sym (at-table [] kappa _ i h))
            ∙ weighed_eta _ _ (at [] q i)
            ∙ table_congr field_size _ _ (λ k p.
              weighed-shifted (at false correlation i) _ _ (at [] q i) (at [] t0 i) x k
                (q-IsShifted i h) p
              ∙ ap (λ row. bit_xor (at 0 row k) (bit (at false correlation i) * at 0 (weight x) k))
                  (verify_t_at i h)))

      pub checked : check_rows sender sid sent q ≡ ok tt
      unfolding check_rows
      checked =
          rw
            (
              traverse-ok _ weight q All-weighed,
              weights_agree,
              rows_eq_refl (verify_sender correlation sent),
            )
            refl
