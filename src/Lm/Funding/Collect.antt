-- ===== src/Lm/Funding/Collect.antt =====
-- `collect` of funding.rs in spectrum-offchain-lm/src.
use spectrum_offchain_ergo.Prelude.{
  ℕ, ◌+◌, ◌^◌, ◌<◌, ◌≤◌, ◌≡◌, ◌⊎◌, inl, inr, refl, sym, ap, ◌∙◌, true, false, none, some, List, [],
  ◌∷◌, ◌++◌, arith, leb, Elem, Bool-cases, Option-cases, append_nil, append_assoc,
}
use native.Mathlib.Nat.{mod-eq_of_lt}
use spectrum_offchain_ergo.Storage.{Bytes, RocksDb, Bincode, Codec}
use spectrum_offchain_ergo.Lm.Types.{AsBox, wrap}
use spectrum_offchain_ergo.Lm.Funding.{
  DistributionFunding, FixedInts, ok, err, funding_key_prefix, select_funding, collect_loop,
  non_empty, collect,
}

abbrev pub total : List (AsBox DistributionFunding) → ℕ
total [] = 0
total (df ∷ dfs) = df.entity.erg_value + total dfs

total-append : (a b : List (AsBox DistributionFunding)) → total (a ++ b) ≡ total a + total b
total-append [] b = omega arith
total-append (x ∷ a) b = omega (arith, total-append a b)

module _ (R : RocksDb) (B : Bincode) (F : FixedInts) (C : Codec (AsBox DistributionFunding)) where
  open R use {Db, iterate}
  open B use {ser_str}
  open C use {deserialize}

  -- the boxes in the entries, in their order
  unfoldable pub boxes : List (Bytes × Bytes) → List (AsBox DistributionFunding)
  boxes [] = []
  boxes ((k, v) ∷ entries) =
      let rest = boxes entries in elim (deserialize v) [ none ↦ rest | some df ↦ df ∷ rest ]

  pub boxes-Elem :
      (k v : Bytes) (df : AsBox DistributionFunding) (entries : List (Bytes × Bytes))
      → deserialize v ≡ some df
      → Elem (k, v) entries
      → Elem df (boxes entries)
  unfolding boxes
  boxes-Elem k v df [] e m = absurd m
  boxes-Elem k v df ((j, w) ∷ entries) e (inl same) = ground (arith, e, same)
  boxes-Elem k v df ((j, w) ∷ entries) e (inr m) = ground (arith, boxes-Elem k v df entries e m)

  -- Before each box that is taken the target is not reached.
  abbrev pub IsShort : ℕ → ℕ → List (AsBox DistributionFunding) → Type 0
  IsShort target acc [] = Unit
  IsShort target acc (df ∷ taken) =
      (acc < target) × IsShort target (acc + df.entity.erg_value) taken

  -- What the loop ends with: it has taken the first boxes, up to the target or all of them.
  abbrev pub Takes :
      ℕ
      → List (AsBox DistributionFunding)
      → ℕ
      → List (AsBox DistributionFunding)
      → ℕ × List (AsBox DistributionFunding) × Db
      → Type 0
  Takes target all acc funds out =
      (taken rest : List (AsBox DistributionFunding)) × (all ≡ taken ++ rest)
      × (out.1 ≡ funds ++ taken)
      × (out.0 ≡ acc + total taken)
      × ((target ≤ out.0) ⊎ ((out.0 < target) × (rest ≡ [])))
      × IsShort target acc taken

  Takes-skip :
      (target acc : ℕ) (all funds : List (AsBox DistributionFunding)) (db : Db)
      → (target ≤ acc) ⊎ ((acc < target) × (all ≡ []))
      → Takes target all acc funds (acc, funds, db)
  Takes-skip target acc all funds db h = ([], all, refl, sym (append_nil funds), omega arith, h, tt)

  Takes-take :
      (target acc : ℕ) (df : AsBox DistributionFunding)
      (all funds : List (AsBox DistributionFunding))
      (out : ℕ × List (AsBox DistributionFunding) × Db)
      → acc < target
      → Takes target all (acc + df.entity.erg_value) (funds ++ (df ∷ [])) out
      → Takes target (df ∷ all) acc funds out
  Takes-take target acc df all funds out more (taken, rest, e, f, s, h, short) = (
    df ∷ taken,
    rest,
    ap (λ (x : List (AsBox DistributionFunding)). df ∷ x) e,
    f ∙ append_assoc funds (df ∷ []) taken,
    omega (arith, s),
    h,
    (more, short),
  )

  collect_loop_lem :
      (target : ℕ) (entries : List (Bytes × Bytes)) (acc : ℕ)
      (funds : List (AsBox DistributionFunding)) (db : Db)
      → acc + total (boxes entries) < 2 ^ 64
      → Takes target (boxes entries) acc funds (collect_loop R B F C target entries acc funds db)
  unfolding collect_loop boxes
  collect_loop_lem target [] acc funds db h =
      Takes-skip target acc [] funds db (elim (Bool-cases (leb target acc)) [
        | inl t ↦ inl (ground (arith, t))
        | inr f ↦ inr (ground (arith, f), refl)
      ])
  collect_loop_lem target ((k, v) ∷ entries) acc funds db h = elim (Bool-cases (leb target acc)) [
    | inl t ↦
        rw (t, collect_loop)
          (Takes-skip target acc (boxes ((k, v) ∷ entries)) funds db (inl (ground (arith, t))))
    | inr f ↦ elim (Option-cases (deserialize v)) [
      | inl e ↦
          rw (f, e, collect_loop, boxes)
            (collect_loop_lem target entries acc funds db (ground (arith, h, e)))
      | inr (df, e) ↦
          let fits : (acc + df.entity.erg_value) + total (boxes entries) < 2 ^ 64 =
            ground (arith, h, e) in
          let sum : wrap (acc + df.entity.erg_value) ≡ acc + df.entity.erg_value =
            mod-eq_of_lt (omega (arith, fits)) in
          let db' = select_funding R B F C db k v df.entity in
          let funds' = funds ++ (df ∷ []) in
          let out = collect_loop R B F C target entries (acc + df.entity.erg_value) funds' db' in
          rw (f, e, collect_loop, boxes, sum)
            (Takes-take target acc df (boxes entries) funds out (ground (arith, f))
              (collect_loop_lem target entries (acc + df.entity.erg_value) funds' db' fits))
    ]
  ]

  non_empty_lem :
      (target : ℕ) (taken : List (AsBox DistributionFunding))
      → 0 < target
      → target ≤ total taken
      → non_empty R B F C taken ≡ ok taken
  unfolding non_empty
  non_empty_lem target [] pos h = absurd (omega (arith, pos, h))
  non_empty_lem target (df ∷ taken) pos h = refl

  -- For a target above zero, while the values of all boxes sum up below 2^64: `collect` answers with
  -- the first boxes of the repository in the order of its keys, no more than it takes to reach the
  -- target, if all of them reach it; and with an error just when they do not. It never panics.
  pub collect_lem :
      (db : Db) (target : ℕ)
      → 0 < target
      → total (boxes (iterate db (ser_str funding_key_prefix))) < 2 ^ 64
      → let all = boxes (iterate db (ser_str funding_key_prefix)) in
        let result = (collect R B F C db target).0 in
        ((taken rest : List (AsBox DistributionFunding)) × (all ≡ taken ++ rest)
          × (target ≤ total taken)
          × IsShort target 0 taken
          × (result ≡ ok taken))
        ⊎ ((total all < target) × (result ≡ err))
  unfolding collect
  collect_lem db target pos small =
      let entries = iterate db (ser_str funding_key_prefix) in
      let out = collect_loop R B F C target entries 0 [] db in
      let (taken, rest, all, funds, acc, reached, short) =
        collect_loop_lem target entries 0 [] db (omega (arith, small)) in
      elim reached [
        | inl enough ↦
            let paid : target ≤ total taken = omega (arith, enough, acc) in
            let yes_it_is : leb target out.0 ≡ true = ground (arith, enough) in
            inl (
              taken,
              rest,
              all,
              paid,
              short,
              rw (yes_it_is, funds) (non_empty_lem target taken pos paid),
            )
        | inr (less, none_left) ↦
            let no_it_is_not : leb target out.0 ≡ false = ground (arith, less) in
            let same : boxes entries ≡ taken = rw (all, none_left) (append_nil taken) in
            inr (rw same (omega (arith, less, acc)), rw no_it_is_not refl)
      ]
