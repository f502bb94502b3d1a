-- ===== src/Utilities/ZeroShares/Zero.antt =====
-- The shares that the signers compute add up to zero.
use kawasekit_dkls.Prelude.{
  ℕ, List, [], ◌∷◌, map, Bool, true, false, not, ◌&&◌, Bytes, ◌≡◌, sym, ◌∙◌, ◌==◌, ==_refl,
  if◌then◌else◌, xor_bytes, xor_bytes_comm, arith, Bool-cases, inl, inr,
}
use kawasekit_dkls.Backend.{Backend, FieldLaws, ◌⊕◌}
use kawasekit_dkls.Backend.Ring.{add_assoc, add-zero, zero-add, add-neg, neg-add}
use kawasekit_dkls.Backend.Ring.Sum.{
  contains, contains-filter, filter, sum, sum-zero, sum_congr, sum-map, sum-filter,
  sum_antisymmetric,
}
use kawasekit_dkls.Utilities.OracleTags.{tag_zero_share_fragment}
use kawasekit_dkls.Utilities.Hashes.{tagged_hash_as_scalar}
use kawasekit_dkls.Utilities.ZeroShares.{
  SeedPair, ZeroShare, generate_seed_pair, initialize, fragment_of, add_fragment, add_fragments,
  compute,
}

-- The parties of a list, without one.
unfoldable pub others : ℕ → List ℕ → List ℕ
others i parties = filter (λ j. not (i == j)) parties

-- What party i holds after the initialization, where `sent i j` is the seed that i chose for j:
-- one pair for each other party.
unfoldable pub initialized : (ℕ → ℕ → Bytes) → List ℕ → ℕ → ZeroShare
initialized sent parties i =
    initialize (map (λ j. generate_seed_pair i j (sent i j) (sent j i)) (others i parties))

-- The summand of one seed pair, if its party takes part.
module _ ⦃B : Backend⦄ where
  signed : Bytes → SeedPair → B.Scalar
  signed session_id pair =
      if pair.lowest_index then B.neg (fragment_of session_id pair) else fragment_of session_id pair

module _ ⦃B : Backend⦄ ⦃L : FieldLaws B⦄ where
  add_fragment-signed :
      (cs : List ℕ) (sid : Bytes) (share : B.Scalar) (p : SeedPair)
      → add_fragment cs sid share p
        ≡ share ⊕ (if contains cs p.index_counterparty then signed sid p else B.zero)
  unfolding add_fragment signed
  add_fragment-signed cs sid share p = ground (arith, add-zero share)

  add_fragments-sum :
      (cs : List ℕ) (sid : Bytes) (share : B.Scalar) (pairs : List SeedPair)
      → add_fragments cs sid share pairs
        ≡ share ⊕ sum pairs (λ p. if contains cs p.index_counterparty then signed sid p else B.zero)
  unfolding add_fragments sum
  add_fragments-sum cs sid share [] = sym (add-zero share)
  add_fragments-sum cs sid share (p ∷ ps) =
      add_fragments-sum cs sid (add_fragment cs sid share p) ps
      ∙ (rw (add_fragment-signed cs sid share p) (add_assoc _ _ _))

  module _ (sid : Bytes) (sent : ℕ → ℕ → Bytes) (signs : ℕ → Bool) where
    -- What the pair of i and j adds to the share of i.
    pair_term : ℕ → ℕ → B.Scalar
    pair_term i j =
        if not (i == j) && (signs i && signs j)
        then signed sid (generate_seed_pair i j (sent i j) (sent j i))
        else B.zero

    pair_term_self : (i : ℕ) → pair_term i i ≡ B.zero
    unfolding pair_term
    pair_term_self i = ground (arith, ==_refl i)

    pair_term_swap : (i j : ℕ) → pair_term i j ⊕ pair_term j i ≡ B.zero
    unfolding pair_term signed generate_seed_pair fragment_of
    pair_term_swap i j =
        rw (xor_bytes_comm (sent j i) (sent i j))
          (ground (arith, add-neg (shared i j), neg-add (shared i j), zero-add B.zero))
      where
        shared : ℕ → ℕ → B.Scalar
        shared i j =
            tagged_hash_as_scalar tag_zero_share_fragment
              (sid ∷ xor_bytes (sent i j) (sent j i) ∷ [])

    -- Only a signer other than i counts for i.
    counted :
        (parties : List ℕ) (i : ℕ)
        → signs i ≡ true
        → (j : ℕ) → contains parties j ≡ true
        → (if not (i == j)
            then (if contains (others i (filter signs parties)) j
                then signed sid (generate_seed_pair i j (sent i j) (sent j i))
                else B.zero)
            else B.zero)
          ≡ pair_term i j
    unfolding others pair_term
    counted parties i h j m =
        rw
          (
            contains-filter (λ k. not (i == k)) (filter signs parties) j,
            contains-filter signs parties j,
            m,
            h,
          )
          (ground arith)

    -- A signer's share is the sum of its terms over all parties.
    compute-pair_term :
        (parties : List ℕ) (i : ℕ)
        → signs i ≡ true
        → compute (initialized sent parties i) (others i (filter signs parties)) sid
          ≡ sum parties (pair_term i)
    unfolding compute initialized initialize others generate_seed_pair
    compute-pair_term parties i h =
        add_fragments-sum (others i (filter signs parties)) sid B.zero _
        ∙ zero-add _
        ∙ sum-map (λ j. generate_seed_pair i j (sent i j) (sent j i)) (others i parties) _
        ∙ sum-filter (λ j. not (i == j)) parties _
        ∙ sum_congr parties _ (pair_term i) (counted parties i h)

    signer_term :
        (parties : List ℕ) (i : ℕ)
        → (if signs i
            then compute (initialized sent parties i) (others i (filter signs parties)) sid
            else B.zero)
          ≡ sum parties (pair_term i)
    signer_term parties i = elim (Bool-cases (signs i)) [
      | inl h ↦ rw h (compute-pair_term parties i h)
      | inr h ↦ rw h (
          sym
            (sum_congr parties (pair_term i) (λ _. B.zero) (λ j _. absent j h) ∙ sum-zero parties))
    ]
      where
        absent : (j : ℕ) → signs i ≡ false → pair_term i j ≡ B.zero
        absent j h = unfold pair_term in ground arith

    -- Let every pair of the parties have exchanged seeds, where `sent i j` is the one that i chose
    -- for j, and let any of the parties sign, as `signs` says. The zero shares that the signers
    -- compute, each with the other signers for its counterparties, add up to zero.
    pub compute-sum_zero :
        (parties : List ℕ)
        → sum
            (filter signs parties)
            (λ i. compute (initialized sent parties i) (others i (filter signs parties)) sid)
          ≡ B.zero
    compute-sum_zero parties =
        sum-filter signs parties _
        ∙ sum_congr parties _ (λ i. sum parties (pair_term i)) (λ i _. signer_term parties i)
        ∙ sum_antisymmetric parties pair_term pair_term_self pair_term_swap
