-- ===== src/Executor/Invalidations.antt =====
-- executor.rs: `generate_invalidations`, which input boxes of a rejected transaction to forget.
use spectrum_offchain_ergo.Prelude.{
  ℕ, suc, ◌+◌, ◌≤◌, ◌<◌, ◌≡◌, ◌⊎◌, inl, inr, ◌↔◌, Bool, true, Option, none, some, List, [], ◌∷◌,
  ◌++◌, arith, ltb, leb, ◌==◌, if◌then◌else◌, length, Elem, contains, contains-Elem, Elem-contains,
}

-- A missing index is an i32; the node gives positions of inputs, which are not negative.
pub data OrderType : Type 0 where
  deposit : OrderType
  compound : List ℕ → OrderType
  redeem : OrderType

pub data Invalidation : Type 0 where
  invalid_pool : Invalidation
  staking_bundles : List ℕ → Invalidation
  invalid_order : Invalidation
  funding : List ℕ → Invalidation

-- the loop over the funding boxes, from the position `i` on
unfoldable pub missing_funding_ixs : List ℕ → ℕ → List ℕ → List ℕ
missing_funding_ixs missing i [] = []
missing_funding_ixs missing i (_ ∷ boxes) =
    let rest = missing_funding_ixs missing (suc i) boxes in
    if contains (suc i) missing then suc i ∷ rest else rest

-- the loop over the missing indices, past the funding boxes
unfoldable pub bundles_to_invalidate : ℕ → List ℕ → List ℕ
bundles_to_invalidate funding_len [] = []
bundles_to_invalidate funding_len (ix ∷ missing) =
    let rest = bundles_to_invalidate funding_len missing in
    if ltb funding_len ix then ix ∷ rest else rest

abbrev pub when : Bool → Invalidation → List Invalidation
when b i = if b then i ∷ [] else []

unfoldable pub generate_invalidations : OrderType → List ℕ → List Invalidation
unfolding missing_funding_ixs bundles_to_invalidate
generate_invalidations deposit missing =
    when (contains 0 missing) invalid_pool ++ when (contains 1 missing) invalid_order
generate_invalidations (compound input_funding_box_ids) missing =
    when (contains 0 missing) invalid_pool
    ++ (funding (missing_funding_ixs missing 0 input_funding_box_ids)
        ∷ elim (bundles_to_invalidate (length input_funding_box_ids) missing) [
          | [] ↦ []
          | ix ∷ ixs ↦ staking_bundles (ix ∷ ixs) ∷ []
        ])
generate_invalidations redeem missing =
    when (contains 0 missing) invalid_pool
    ++ (when (contains 1 missing) (staking_bundles (1 ∷ []))
        ++ when (contains 2 missing) invalid_order)

missing_funding_ixs_lem :
    (missing : List ℕ) (i : ℕ) (boxes : List ℕ) (ix : ℕ)
    → Elem ix (missing_funding_ixs missing i boxes)
      ↔ (Elem ix missing × (i < ix) × (ix ≤ i + length boxes))
unfolding missing_funding_ixs
missing_funding_ixs_lem missing i [] ix =
    (λ m. absurd m, λ (m, lo, hi). absurd (omega (arith, lo, hi)))
missing_funding_ixs_lem missing i (b ∷ boxes) ix = ground (
  arith,
  missing_funding_ixs_lem missing (suc i) boxes ix,
  contains-Elem (suc i) missing,
  Elem-contains (suc i) missing,
)

bundles_to_invalidate_lem :
    (n : ℕ) (missing : List ℕ) (ix : ℕ)
    → Elem ix (bundles_to_invalidate n missing) ↔ (Elem ix missing × (n < ix))
unfolding bundles_to_invalidate
bundles_to_invalidate_lem n [] ix = (λ m. absurd m, λ (m, lo). absurd m)
bundles_to_invalidate_lem n (j ∷ missing) ix =
    ground (arith, bundles_to_invalidate_lem n missing ix)

-- what an input of the transaction of an order is
pub data Role : Type 0 where
  pool_input : Role
  order_input : Role
  bundle_input : Role
  funding_input : Role

-- The inputs of the three transactions: the pool is first; a deposit is second; a redeem follows its
-- bundle; the bundles of a compounding follow its funding boxes.
abbrev pub role_of : OrderType → ℕ → Option Role
role_of deposit ix = if ix == 0 then some pool_input else if ix == 1 then some order_input else none
role_of (compound boxes) ix =
    if ix == 0
    then some pool_input
    else if leb ix (length boxes)
    then some funding_input
    else some bundle_input
role_of redeem ix =
    if ix == 0
    then some pool_input
    else if ix == 1
    then some bundle_input
    else if ix == 2
    then some order_input
    else none

-- The invalidation forgets the input at the index, and takes it for an input of that role.
abbrev pub ForgetsOne : OrderType → Invalidation → Role → ℕ → Type 0
ForgetsOne t invalid_pool role ix = (role ≡ pool_input) × (ix ≡ 0)
ForgetsOne t (staking_bundles ixs) role ix = (role ≡ bundle_input) × Elem ix ixs
ForgetsOne deposit invalid_order role ix = (role ≡ order_input) × (ix ≡ 1)
ForgetsOne (compound _) invalid_order role ix = ⊥
ForgetsOne redeem invalid_order role ix = (role ≡ order_input) × (ix ≡ 2)
ForgetsOne t (funding ixs) role ix = (role ≡ funding_input) × Elem ix ixs

abbrev pub Forgets : OrderType → List Invalidation → Role → ℕ → Type 0
Forgets t [] role ix = ⊥
Forgets t (i ∷ invs) role ix = ForgetsOne t i role ix ⊎ Forgets t invs role ix

Forgets-append :
    (t : OrderType) (is js : List Invalidation) (role : Role) (ix : ℕ)
    → Forgets t (is ++ js) role ix ↔ (Forgets t is role ix ⊎ Forgets t js role ix)
Forgets-append t [] js role ix = (λ f. inr f, λ f. elim f [ inl n ↦ absurd n | inr f ↦ f ])
Forgets-append t (i ∷ is) js role ix =
    let (fwd, back) = Forgets-append t is js role ix in
    (
      (λ f. elim f [
        | inl o ↦ inl (inl o)
        | inr r ↦ elim (fwd r) [ inl a ↦ inl (inr a) | inr b ↦ inr b ]
      ]),
      (λ f. elim f [
        | inl a ↦ elim a [ inl o ↦ inl o | inr r ↦ inr (back (inl r)) ]
        | inr b ↦ inr (back (inr b))
      ]),
    )

Forgets-bundles :
    (t : OrderType) (ixs : List ℕ) (role : Role) (ix : ℕ)
    → Forgets t (elim ixs [ [] ↦ [] | i ∷ is ↦ staking_bundles (i ∷ is) ∷ [] ]) role ix
      ↔ ((role ≡ bundle_input) × Elem ix ixs)
Forgets-bundles t [] role ix = (λ n. absurd n, λ (r, m). absurd m)
Forgets-bundles t (i ∷ is) role ix = (λ f. elim f [ inl m ↦ m | inr n ↦ absurd n ], λ m. inl m)

contains_iff : (k : ℕ) (xs : List ℕ) → (contains k xs ≡ true) ↔ Elem k xs
contains_iff k xs = (contains-Elem k xs, Elem-contains k xs)

Forgets-deposit :
    (missing : List ℕ) (role : Role) (ix : ℕ)
    → Forgets deposit (generate_invalidations deposit missing) role ix
      ↔ (Elem ix missing × (role_of deposit ix ≡ some role))
unfolding generate_invalidations
Forgets-deposit missing role ix = ground (arith, contains_iff 0 missing, contains_iff 1 missing)

Forgets-redeem :
    (missing : List ℕ) (role : Role) (ix : ℕ)
    → Forgets redeem (generate_invalidations redeem missing) role ix
      ↔ (Elem ix missing × (role_of redeem ix ≡ some role))
unfolding generate_invalidations
Forgets-redeem missing role ix =
    ground (arith, contains_iff 0 missing, contains_iff 1 missing, contains_iff 2 missing)

role_of-compound :
    (boxes : List ℕ) (role : Role) (ix : ℕ)
    → (role_of (compound boxes) ix ≡ some role) ↔ (
        ((role ≡ pool_input) × (ix ≡ 0))
        ⊎ ((role ≡ funding_input) × (0 < ix) × (ix ≤ length boxes))
        ⊎ ((role ≡ bundle_input) × (length boxes < ix)))
role_of-compound boxes role ix = ground arith

Forgets-compound :
    (boxes missing : List ℕ) (role : Role) (ix : ℕ)
    → Forgets (compound boxes) (generate_invalidations (compound boxes) missing) role ix
      ↔ (Elem ix missing × (role_of (compound boxes) ix ≡ some role))
unfolding generate_invalidations
Forgets-compound boxes missing role ix =
    let t = compound boxes in
    let ixs = bundles_to_invalidate (length boxes) missing in
    let tail : List Invalidation = elim ixs [ [] ↦ [] | i ∷ is ↦ staking_bundles (i ∷ is) ∷ [] ] in
    let head = when (contains 0 missing) invalid_pool in
    let split =
      Forgets-append t head (funding (missing_funding_ixs missing 0 boxes) ∷ tail) role ix in
    let bundles = Forgets-bundles t ixs role ix in
    let past = bundles_to_invalidate_lem (length boxes) missing ix in
    let fund = missing_funding_ixs_lem missing 0 boxes ix in
    let pool : Forgets t head role ix ↔ (Elem ix missing × (role ≡ pool_input) × (ix ≡ 0)) =
      ground (arith, contains_iff 0 missing) in
    let (of_role, to_role) = role_of-compound boxes role ix in
    (
      (λ f. elim (split.0 f) [
        | inl h ↦ let (m, r, zero_ix) = pool.0 h in (m, to_role (inl (r, zero_ix)))
        | inr (inl (r, h)) ↦
            let (m, lo, hi) = fund.0 h in (m, to_role (inr (inl (r, lo, omega (arith, hi)))))
        | inr (inr b) ↦
            let (r, h) = bundles.0 b in
            let (m, over) = past.0 h in (m, to_role (inr (inr (r, over))))
      ]),
      (λ (m, is). elim (of_role is) [
        | inl (r, zero_ix) ↦ split.1 (inl (pool.1 (m, r, zero_ix)))
        | inr (inl (r, lo, hi)) ↦ split.1 (inr (inl (r, fund.1 (m, lo, omega (arith, hi)))))
        | inr (inr (r, over)) ↦ split.1 (inr (inr (bundles.1 (r, past.1 (m, over)))))
      ]),
    )

-- For each kind of order, the invalidations of a rejected transaction forget an input, as the pool,
-- as the box of the order, as a bundle or as a funding box, just when the node reported it missing
-- and that is what the input is in the transaction.
pub generate_invalidations_lem :
    (t : OrderType) (missing : List ℕ) (role : Role) (ix : ℕ)
    → Forgets t (generate_invalidations t missing) role ix
      ↔ (Elem ix missing × (role_of t ix ≡ some role))
generate_invalidations_lem deposit missing role ix = Forgets-deposit missing role ix
generate_invalidations_lem (compound boxes) missing role ix = Forgets-compound boxes missing role ix
generate_invalidations_lem redeem missing role ix = Forgets-redeem missing role ix
