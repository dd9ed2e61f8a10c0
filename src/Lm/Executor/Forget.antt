-- ===== src/Lm/Executor/Forget.antt =====
-- What the invalidations of a rejected transaction leave in the repositories of executor.rs in
-- spectrum-offchain-lm/src.
use spectrum_offchain_ergo.Prelude.{
  ℕ, zero, suc, ◌≡◌, ◌⊎◌, inl, inr, refl, sym, subst, ap, ◌∙◌, Bool, true, false, some, List, [],
  ◌∷◌, ◌++◌, map, arith, length, get_elem?, contains, Option-cases, Elem, Elem-append_inv,
}
use spectrum_offchain_ergo.Executor.Invalidations.{
  OrderType, deposit, compound, redeem, Invalidation, invalid_pool, staking_bundles, invalid_order,
  funding, when, missing_funding_ixs, bundles_to_invalidate, generate_invalidations,
}
use spectrum_offchain_ergo.Lm.Types.{AsBox}
use spectrum_offchain_ergo.Lm.Pool.{Pool}
use spectrum_offchain_ergo.Lm.Orders.{Order, Input}
use spectrum_offchain_ergo.Lm.Executor.{Setting, OrderExecutor}
use spectrum_offchain_ergo.Lm.Executor.Settle.{
  inputs_at, invalidate_bundles, apply_invalidation, apply_invalidations,
}

abbrev pub ids_of : List Input → List ℕ
ids_of inputs = map (λ (i : Input). i.box_id) inputs

get_elem?-ids_of :
    (inputs : List Input) (i : ℕ) (input : Input)
    → get_elem? inputs i ≡ some input
    → Elem input.box_id (ids_of inputs)
get_elem?-ids_of [] i input e = absurd (ground (arith, e))
get_elem?-ids_of (x ∷ xs) zero input e = inl (ground (arith, e))
get_elem?-ids_of (x ∷ xs) (suc i) input e = inr (get_elem?-ids_of xs i input e)

-- no invalidation of the pool
abbrev pub NoPool : List Invalidation → Type 0
NoPool [] = Unit
NoPool (invalid_pool ∷ is) = ⊥
NoPool (_ ∷ is) = NoPool is

NoPool-cons :
    (i : Invalidation) (is : List Invalidation) → NoPool (i ∷ is) → NoPool (i ∷ []) × NoPool is
NoPool-cons invalid_pool is h = absurd h
NoPool-cons (staking_bundles ixs) is h = (tt, h)
NoPool-cons invalid_order is h = (tt, h)
NoPool-cons (funding ixs) is h = (tt, h)

NoPool-when :
    (b : Bool) (i : Invalidation) (is : List Invalidation)
    → NoPool (i ∷ is)
    → NoPool (when b i ++ is)
NoPool-when true i is h = h
NoPool-when false i is h = (NoPool-cons i is h).1

NoPool-one : (b : Bool) (i : Invalidation) → NoPool (i ∷ []) → NoPool (when b i)
NoPool-one true i h = h
NoPool-one false i h = tt

NoPool-bundles :
    (ixs : List ℕ) → NoPool (elim ixs [ [] ↦ [] | i ∷ is ↦ staking_bundles (i ∷ is) ∷ [] ])
NoPool-bundles [] = tt
NoPool-bundles (i ∷ is) = tt

pool_first :
    (b : Bool) (rest : List Invalidation)
    → (when b invalid_pool ++ rest ≡ rest) ⊎ (when b invalid_pool ++ rest ≡ invalid_pool ∷ rest)
pool_first true rest = inr refl
pool_first false rest = inl refl

-- the pool is invalidated once at most, and first
pub generate_invalidations-pool :
    (t : OrderType) (missing : List ℕ)
    → (rest : List Invalidation) × NoPool rest
      × ((generate_invalidations t missing ≡ rest)
          ⊎ (generate_invalidations t missing ≡ invalid_pool ∷ rest))
unfolding generate_invalidations
generate_invalidations-pool deposit missing =
    let rest = when (contains 1 missing) invalid_order in
    (rest, NoPool-one (contains 1 missing) invalid_order tt, pool_first (contains 0 missing) rest)
generate_invalidations-pool (compound boxes) missing =
    let ixs = bundles_to_invalidate (length boxes) missing in
    let tail : List Invalidation = elim ixs [ [] ↦ [] | i ∷ is ↦ staking_bundles (i ∷ is) ∷ [] ] in
    let rest = funding (missing_funding_ixs missing 0 boxes) ∷ tail in
    (rest, NoPool-bundles ixs, pool_first (contains 0 missing) rest)
generate_invalidations-pool redeem missing =
    let last = when (contains 2 missing) invalid_order in
    let rest = when (contains 1 missing) (staking_bundles (1 ∷ [])) ++ last in
    (
      rest,
      NoPool-when (contains 1 missing) (staking_bundles (1 ∷ [])) last
          (NoPool-one (contains 2 missing) invalid_order tt),
      pool_first (contains 0 missing) rest,
    )

module _ (S : Setting) where
  open S use {backlog as L, pools as P, rocks as R}
  open R use {Db}

  inputs_at-Elem :
      (inputs : List Input) (ixs ids : List ℕ) (i : ℕ)
      → inputs_at S inputs ixs ≡ some ids
      → Elem i ids
      → Elem i (ids_of inputs)
  unfolding inputs_at
  inputs_at-Elem inputs [] ids i e m = absurd (ground (arith, e, m))
  inputs_at-Elem inputs (ix ∷ ixs) ids i e m = elim (Option-cases (get_elem? inputs ix)) [
    | inl z ↦ absurd (ground (arith, e, z))
    | inr (input, z) ↦ elim (Option-cases (inputs_at S inputs ixs)) [
      | inl y ↦ absurd (ground (arith, e, z, y))
      | inr (rest, y) ↦
          let all : input.box_id ∷ rest ≡ ids = ground (arith, e, z, y) in
          let first = subst (λ l. Elem i l) (sym all) m in
          elim first [
            | inl same ↦ rw same (get_elem?-ids_of inputs ix input z)
            | inr later ↦ inputs_at-Elem inputs ixs rest i y later
          ]
    ]
  ]

  invalidate_bundles-append :
      (xs ys : List ℕ) (db : Db)
      → invalidate_bundles S db (xs ++ ys) ≡ invalidate_bundles S (invalidate_bundles S db xs) ys
  unfolding invalidate_bundles
  invalidate_bundles-append [] ys db = refl
  invalidate_bundles-append (i ∷ xs) ys db = invalidate_bundles-append xs ys _

  -- Of the bundles only inputs of the transaction are invalidated.
  abbrev pub Spent : OrderExecutor S → OrderExecutor S → List Input → Type 0
  Spent x x' inputs =
      (ids : List ℕ) × (x'.bundle_repo ≡ invalidate_bundles S x.bundle_repo ids)
      × ((i : ℕ) → Elem i ids → Elem i (ids_of inputs))

  abbrev Kept : OrderExecutor S → OrderExecutor S → List Input → Type 0
  Kept x x' inputs = (x'.pool_repo ≡ x.pool_repo) × Spent x x' inputs

  Kept-same :
      (x x' : OrderExecutor S) (inputs : List Input)
      → x'.pool_repo ≡ x.pool_repo
      → x'.bundle_repo ≡ x.bundle_repo
      → Kept x x' inputs
  unfolding invalidate_bundles
  Kept-same x x' inputs p b = (p, ([], b, λ i m. absurd m))

  Spent-trans :
      (x x' x'' : OrderExecutor S) (inputs : List Input)
      → Spent x x' inputs
      → Spent x' x'' inputs
      → Spent x x'' inputs
  Spent-trans x x' x'' inputs (xs, e, m) (ys, e', m') = (
    xs ++ ys,
    e'
        ∙ ap (λ db. invalidate_bundles S db ys) e
        ∙ sym (invalidate_bundles-append xs ys x.bundle_repo),
    λ i h. elim (Elem-append_inv i xs ys h) [ inl l ↦ m i l | inr r ↦ m' i r ],
  )

  module _ (ord : Order) (pool : AsBox Pool) (inputs : List Input) where
    apply_invalidation-Kept :
        (x x' : OrderExecutor S) (i : Invalidation)
        → NoPool (i ∷ [])
        → apply_invalidation S x ord pool inputs i ≡ some x'
        → Kept x x' inputs
    unfolding apply_invalidation
    apply_invalidation-Kept x x' invalid_pool h e = absurd h
    apply_invalidation-Kept x x' invalid_order h e =
        Kept-same x x' inputs (ground (arith, e)) (ground (arith, e))
    apply_invalidation-Kept x x' (funding ixs) h e = elim (Option-cases (inputs_at S inputs ixs)) [
      | inl z ↦ absurd (ground (arith, e, z))
      | inr (ids, z) ↦ Kept-same x x' inputs (ground (arith, e, z)) (ground (arith, e, z))
    ]
    apply_invalidation-Kept x x' (staking_bundles ixs) h e =
        elim (Option-cases (inputs_at S inputs ixs)) [
          | inl z ↦ absurd (ground (arith, e, z))
          | inr (ids, z) ↦ (
            ground (arith, e, z),
            (ids, ground (arith, e, z), λ i m. inputs_at-Elem inputs ixs ids i z m),
          )
        ]

    pub apply_invalidations-Kept :
        (x x' : OrderExecutor S) (is : List Invalidation)
        → NoPool is
        → apply_invalidations S x ord pool inputs is ≡ some x'
        → Kept x x' inputs
    unfolding apply_invalidations
    apply_invalidations-Kept x x' [] h e =
        Kept-same x x' inputs (ground (arith, e)) (ground (arith, e))
    apply_invalidations-Kept x x' (i ∷ is) h e =
        elim (Option-cases (apply_invalidation S x ord pool inputs i)) [
          | inl z ↦ absurd (ground (arith, e, z))
          | inr (x1, z) ↦
              let (one, others) = NoPool-cons i is h in
              let (p, spent) = apply_invalidation-Kept x x1 i one z in
              let (p', spent') =
                apply_invalidations-Kept x1 x' is others (rw (z, apply_invalidations) at e) in
              (p' ∙ p, Spent-trans x x1 x' inputs spent spent')
        ]
