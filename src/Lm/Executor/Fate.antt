-- ===== src/Lm/Executor/Fate.antt =====
-- What becomes of the bundles of an order in executor.rs of spectrum-offchain-lm/src.
use mathlib.Core.Option
use spectrum_offchain_ergo.Prelude.{
  ℕ, zero, suc, ◌≡◌, inl, inr, refl, sym, ap, ◌∙◌, false, Option, none, some, List, [], ◌∷◌, map,
  arith, ◌==◌, if◌then◌else◌, bytes_eq, contains, drop, get_elem?, Option-cases,
}
use spectrum_offchain_ergo.Data.{Traced}
use spectrum_offchain_ergo.Lm.Types.{AsBox, StakingBundle, map_box}
use spectrum_offchain_ergo.Lm.Pool.{ProgramConfig}
use spectrum_offchain_ergo.Lm.Bundles.{
  IndexedBundle, index_bundle, prediction_link_prefix, last_predicted_prefix, put_predicted,
  get_prediction_predecessor,
}
use spectrum_offchain_ergo.Lm.Bundles.Reads.{put_state-get, put_predicted-get}
use spectrum_offchain_ergo.Lm.Executor.{Setting}
use spectrum_offchain_ergo.Lm.Executor.Settle.{put_bundles}

-- no state is there twice
abbrev pub Distinct : List ℕ → Type 0
Distinct [] = Unit
Distinct (i ∷ is) = (contains i is ≡ false) × Distinct is

abbrev pub state_ids : List (AsBox StakingBundle) → List ℕ
state_ids bs = map (λ b. b.entity.state_id) bs

abbrev head_id : List (AsBox StakingBundle) → Option ℕ
head_id [] = none
head_id (p ∷ ps) = some p.entity.state_id

index_bundle-state :
    (b : StakingBundle) (conf : ProgramConfig) (i : IndexedBundle)
    → index_bundle b conf ≡ some i
    → i.bundle ≡ b
unfolding index_bundle
index_bundle-state b conf i e = ground (arith, e)

module _ (S : Setting) where
  open S use {rocks as R, bincode as B, words as U, bundle_codec as BC}
  open R use {Db, get}
  open B use {ser_id, de_id, de_id-ser_id}

  abbrev pub link : Db → ℕ → Option ℕ
  link db s = get_prediction_predecessor R B U BC db s

  link-put_predicted :
      (db : Db) (t : Traced (AsBox IndexedBundle)) (s : ℕ)
      → link (put_predicted R B U BC db t) s ≡ elim t.prev_state_id [
        | none ↦ link db s
        | some prev ↦ if t.state.entity.bundle.state_id == s then some prev else link db s
      ]
  unfolding get_prediction_predecessor put_predicted Option.bind bytes_eq
  link-put_predicted db t s = elim (Option-cases t.prev_state_id) [
    | inl e ↦ ground (
      arith,
      e,
      put_state-get R B U BC last_predicted_prefix db t.state prediction_link_prefix s refl,
    )
    | inr (prev, e) ↦ ground (
      arith,
      e,
      put_predicted-get R B U BC db t prediction_link_prefix s prev e refl,
      de_id-ser_id prev,
    )
  ]

  link-put_predicted-other :
      (db : Db) (t : Traced (AsBox IndexedBundle)) (s : ℕ)
      → (t.state.entity.bundle.state_id == s) ≡ false
      → link (put_predicted R B U BC db t) s ≡ link db s
  link-put_predicted-other db t s other = elim (Option-cases t.prev_state_id) [
    | inl e ↦ ground (arith, e, link-put_predicted db t s)
    | inr (prev, e) ↦ ground (arith, e, other, link-put_predicted db t s)
  ]

  link-put_predicted-own :
      (db : Db) (t : Traced (AsBox IndexedBundle)) (s prev : ℕ)
      → t.state.entity.bundle.state_id ≡ s
      → t.prev_state_id ≡ some prev
      → link (put_predicted R B U BC db t) s ≡ some prev
  link-put_predicted-own db t s prev own e = ground (arith, own, e, link-put_predicted db t s)

  -- the prediction that is put for a bundle with its index
  abbrev traced :
      AsBox StakingBundle
      → IndexedBundle
      → List (AsBox StakingBundle)
      → Traced (AsBox IndexedBundle)
  traced n indexed prevs = record {
    state = map_box (λ _. indexed) n;
    prev_state_id = elim prevs [ [] ↦ none | p ∷ _ ↦ some p.entity.state_id ];
  }

  put_bundles-link :
      (nexts prevs : List (AsBox StakingBundle)) (db db' : Db) (conf : ProgramConfig) (s : ℕ)
      → contains s (state_ids nexts) ≡ false
      → put_bundles S db conf nexts prevs ≡ some db'
      → link db' s ≡ link db s
  unfolding put_bundles contains
  put_bundles-link [] prevs db db' conf s fresh e = ground (arith, e)
  put_bundles-link (n ∷ nexts) prevs db db' conf s fresh e =
      elim (Option-cases (index_bundle n.entity conf)) [
        | inl z ↦ absurd (ground (arith, e, z))
        | inr (indexed, z) ↦
            let t = traced n indexed prevs in
            let db1 = put_predicted R B U BC db t in
            let rest : put_bundles S db1 conf nexts (drop 1 prevs) ≡ some db' =
              rw (z, put_bundles) at e in
            let own : indexed.bundle.state_id ≡ n.entity.state_id =
              ap (λ (b : StakingBundle). b.state_id) (index_bundle-state n.entity conf indexed z) in
            let other : (indexed.bundle.state_id == s) ≡ false = ground (arith, fresh, own) in
            let kept : link db1 s ≡ link db s = link-put_predicted-other db t s other in
            put_bundles-link nexts (drop 1 prevs) db1 db' conf s (ground (arith, fresh)) rest ∙ kept
      ]

  put_bundles-cons :
      (b q : AsBox StakingBundle) (nexts prevs : List (AsBox StakingBundle)) (db db' : Db)
      (conf : ProgramConfig)
      → put_bundles S db conf (b ∷ nexts) (q ∷ prevs) ≡ some db'
      → (indexed : IndexedBundle) × (indexed.bundle.state_id ≡ b.entity.state_id)
        × (put_bundles S (put_predicted R B U BC db (traced b indexed (q ∷ prevs))) conf nexts prevs
            ≡ some db')
  unfolding put_bundles
  put_bundles-cons b q nexts prevs db db' conf e =
      elim (Option-cases (index_bundle b.entity conf)) [
        | inl z ↦ absurd (ground (arith, e, z))
        | inr (indexed, z) ↦ (
          indexed,
          ap (λ (x : StakingBundle). x.state_id) (index_bundle-state b.entity conf indexed z),
          rw (z, put_bundles) at e,
        )
      ]

  -- The bundles that an accepted transaction puts are linked one by one to those that it spent, while
  -- their states are all different: the predecessor of the next state of each is its state before.
  pub put_bundles_lem :
      (nexts prevs : List (AsBox StakingBundle)) (db db' : Db) (conf : ProgramConfig) (i : ℕ)
      (n p : AsBox StakingBundle)
      → Distinct (state_ids nexts)
      → put_bundles S db conf nexts prevs ≡ some db'
      → get_elem? nexts i ≡ some n
      → get_elem? prevs i ≡ some p
      → get_prediction_predecessor R B U BC db' n.entity.state_id ≡ some p.entity.state_id
  unfolding put_bundles
  put_bundles_lem [] prevs db db' conf i n p distinct e at at_prev = absurd (ground (arith, at))
  put_bundles_lem (b ∷ nexts) [] db db' conf i n p distinct e at at_prev =
      absurd (ground (arith, at_prev))
  put_bundles_lem (b ∷ nexts) (q ∷ prevs) db db' conf zero n p (fresh, _) e at at_prev =
      let (indexed, own, rest) = put_bundles-cons b q nexts prevs db db' conf e in
      let t = traced b indexed (q ∷ prevs) in
      let db1 = put_predicted R B U BC db t in
      let linked : link db' b.entity.state_id ≡ some q.entity.state_id =
        put_bundles-link nexts prevs db1 db' conf b.entity.state_id fresh rest
        ∙ link-put_predicted-own db t b.entity.state_id q.entity.state_id own refl in
      let is_n : b ≡ n = ground (arith, at) in
      let is_p : q ≡ p = ground (arith, at_prev) in
      ap (λ (x : AsBox StakingBundle). link db' x.entity.state_id) (sym is_n)
      ∙ linked
      ∙ ap (λ (x : AsBox StakingBundle). some x.entity.state_id) is_p
  put_bundles_lem (b ∷ nexts) (q ∷ prevs) db db' conf (suc i) n p (_, distinct) e at at_prev =
      let (indexed, own, rest) = put_bundles-cons b q nexts prevs db db' conf e in
      put_bundles_lem nexts prevs (put_predicted R B U BC db (traced b indexed (q ∷ prevs))) db'
        conf i n p distinct rest at at_prev
