-- ===== src/BoxResolver/Resolve.antt =====
-- box_resolver.rs: `resolve_entity_state`, over the trait `EntityRepo` of
-- box_resolver/persistence.rs, which the repository in RocksDB implements.
use spectrum_offchain_ergo.Prelude.{
  ℕ, zero, suc, ◌<◌, ◌≡◌, ◌≢◌, refl, ◌⊎◌, inl, inr, ◌↔◌, Bool, true, false, Option, none, some,
  arith, ◌==◌, ==_iff, if◌then◌else◌, Bool-cases, Option-cases,
}
use spectrum_offchain_ergo.Data.{OnChainEntity, Traced}
use spectrum_offchain_ergo.Storage.{RocksDb, Bincode, Codec}
use spectrum_offchain_ergo.BoxResolver.Repo

pub record EntityRepo (TEntity : Type 0) : Type 1 where
  pub Repo : Type 0
  pub get_prediction_predecessor : Repo → ℕ → Option ℕ
  pub get_last_predicted : Repo → ℕ → Option TEntity
  pub get_last_confirmed : Repo → ℕ → Option TEntity
  pub get_last_unconfirmed : Repo → ℕ → Option TEntity
  pub put_predicted : Repo → Traced TEntity → Repo
  pub put_confirmed : Repo → TEntity → Repo
  pub put_unconfirmed : Repo → TEntity → Repo
  pub invalidate : Repo → ℕ → ℕ → Repo
  pub eliminate : Repo → TEntity → Repo
  pub may_exist : Repo → ℕ → Bool
  pub get_state : Repo → ℕ → Option TEntity

-- `impl EntityRepo for EntityRepoRocksDB`
abbrev pub EntityRepoRocksDb :
    {TEntity : Type 0} (O : OnChainEntity TEntity) (R : RocksDb) (B : Bincode) (C : Codec TEntity)
    → EntityRepo TEntity
EntityRepoRocksDb O R B C = record {
  Repo = R.Db;
  get_prediction_predecessor = Repo.get_prediction_predecessor O R B C;
  get_last_predicted = Repo.get_last_predicted O R B C;
  get_last_confirmed = Repo.get_last_confirmed O R B C;
  get_last_unconfirmed = Repo.get_last_unconfirmed O R B C;
  put_predicted = Repo.put_predicted O R B C;
  put_confirmed = Repo.put_confirmed O R B C;
  put_unconfirmed = Repo.put_unconfirmed O R B C;
  invalidate = Repo.invalidate O R B C;
  eliminate = Repo.eliminate O R B C;
  may_exist = Repo.may_exist O R B C;
  get_state = Repo.get_state O R B C;
}

-- The loop of `is_linking`, over the predecessors; `none` when the fuel runs out.
unfoldable pub is_linking : ℕ → (ℕ → Option ℕ) → ℕ → ℕ → Option Bool
is_linking zero pred sid anchoring_sid = none
is_linking (suc fuel) pred sid anchoring_sid = elim (pred sid) [
  | none ↦ some false
  | some prev ↦
      let rest = is_linking fuel pred prev anchoring_sid in
      if prev == anchoring_sid then some true else rest
]

module _ {TEntity : Type 0} (O : OnChainEntity TEntity) where
  open O use {get_self_state_ref}

  abbrev pub anchoring_point : TEntity → Option TEntity → TEntity
  anchoring_point conf none = conf
  anchoring_point conf (some unconf) = unconf

  -- the first arm of the `match`
  unfoldable pub choose : ℕ → (ℕ → Option ℕ) → TEntity → TEntity → Option TEntity
  unfolding is_linking
  choose fuel links anchor pred =
      if get_self_state_ref pred == get_self_state_ref anchor
      then some pred
      else elim (is_linking fuel links (get_self_state_ref pred) (get_self_state_ref anchor)) [
        | none ↦ none
        | some linked ↦ some (if linked then pred else anchor)
      ]

  -- the `match` on the three states; the outer `none` is that of the fuel
  unfoldable pub resolve_states :
      ℕ
      → (ℕ → Option ℕ)
      → Option TEntity
      → Option TEntity
      → Option TEntity
      → Option (Option TEntity)
  unfolding choose
  resolve_states fuel links (some conf) unconf (some pred) =
      elim (choose fuel links (anchoring_point conf unconf) pred) [
        | none ↦ none
        | some e ↦ some (some e)
      ]
  resolve_states fuel links (some conf) (some unconf) none = some (some unconf)
  resolve_states fuel links (some conf) none none = some (some conf)
  resolve_states fuel links none (some unconf) none = some (some unconf)
  resolve_states fuel links none unconf (some pred) = some none
  resolve_states fuel links none none none = some none

  unfoldable pub resolve_entity_state :
      (E : EntityRepo TEntity) → ℕ → E.Repo → ℕ → Option (Option TEntity)
  unfolding resolve_states
  resolve_entity_state E fuel repo id =
      resolve_states fuel (E.get_prediction_predecessor repo) (E.get_last_confirmed repo id)
        (E.get_last_unconfirmed repo id) (E.get_last_predicted repo id)

-- The anchoring state comes before the given one, in one or more steps to a predecessor.
pub data IsLinked (pred : ℕ → Option ℕ) (anchor : ℕ) : ℕ → Type 0 where
  direct : {s : ℕ} → pred s ≡ some anchor → IsLinked pred anchor s
  step : {s t : ℕ} → pred s ≡ some t → IsLinked pred anchor t → IsLinked pred anchor s

module _ (pred : ℕ → Option ℕ) (anchor : ℕ) where
  IsLinked-none : {s : ℕ} → pred s ≡ none → ¬ IsLinked pred anchor s
  IsLinked-none e (direct p) = cc
  IsLinked-none e (step p l) = cc

  IsLinked-next :
      {s t : ℕ} → pred s ≡ some t → t ≢ anchor → IsLinked pred anchor s → IsLinked pred anchor t
  IsLinked-next e ne (direct p) = absurd (ne (ground (arith, e, p)))
  IsLinked-next {s} {t} e ne (step {t = u} p l) =
      let same : u ≡ t = ground (arith, e, p) in rw same at l

  -- Where each link goes down in some rank, the loop of `is_linking` ends within the rank of its start, and
  -- answers whether the anchoring state comes before it.
  pub is_linking_correct :
      (rank : ℕ → ℕ)
      → ((s t : ℕ) → pred s ≡ some t → rank t < rank s)
      → (fuel s : ℕ) → rank s < fuel
      → (b : Bool) × (is_linking fuel pred s anchor ≡ some b)
        × ((b ≡ true) ↔ IsLinked pred anchor s)
  unfolding is_linking
  is_linking_correct rank down zero s h = elim h [ ]
  is_linking_correct rank down (suc fuel) s h = elim (Option-cases (pred s)) [
    | inl e ↦ (false, rw (e, is_linking), (λ f. absurd (cc), λ l. absurd (IsLinked-none e l)))
    | inr (t, e) ↦ elim (Bool-cases (t == anchor)) [
      | inl same ↦
          (true, ground (arith, e, same), (λ _. direct (ground (arith, e, same)), λ _. refl))
      | inr other ↦
          let (b, ran, iff) = is_linking_correct rank down fuel t (omega (arith, down s t e)) in
          (
            b,
            ground (arith, e, other, ran),
            (λ h. step e (iff.0 h), λ l. iff.1 (IsLinked-next e (ground arith) l)),
          )
    ]
  ]

module _ {TEntity : Type 0} (O : OnChainEntity TEntity) (links : ℕ → Option ℕ) where
  open O use {get_self_state_ref}

  -- The prediction is the anchoring state, or has come from it.
  abbrev pub Stands : TEntity → TEntity → Type 0
  Stands anchor pred =
      (get_self_state_ref pred ≡ get_self_state_ref anchor)
      ⊎ IsLinked links (get_self_state_ref anchor) (get_self_state_ref pred)

  -- What `resolve_entity_state` makes of the last confirmed, unconfirmed and predicted states.
  abbrev pub Resolved : Option TEntity → Option TEntity → Option TEntity → Option TEntity → Type 0
  Resolved (some conf) unconf (some pred) r =
      let anchor = anchoring_point O conf unconf in
      ((r ≡ some pred) × Stands anchor pred) ⊎ ((r ≡ some anchor) × ¬ Stands anchor pred)
  Resolved (some conf) (some unconf) none r = r ≡ some unconf
  Resolved (some conf) none none r = r ≡ some conf
  Resolved none (some unconf) none r = r ≡ some unconf
  Resolved none unconf (some pred) r = r ≡ none
  Resolved none none none r = r ≡ none

  -- the result is one of the three states
  pub Resolved-source :
      (conf unconf pred r : Option TEntity) (e : TEntity)
      → Resolved conf unconf pred r
      → r ≡ some e
      → (conf ≡ some e) ⊎ (unconf ≡ some e) ⊎ (pred ≡ some e)
  Resolved-source (some conf) none (some pred) r e spec is = ground arith
  Resolved-source (some conf) (some unconf) (some pred) r e spec is = ground arith
  Resolved-source (some conf) (some unconf) none r e spec is = ground arith
  Resolved-source (some conf) none none r e spec is = ground arith
  Resolved-source none (some unconf) none r e spec is = ground arith
  Resolved-source none unconf (some pred) r e spec is = ground arith
  Resolved-source none none none r e spec is = ground arith

  module _ (rank : ℕ → ℕ) (down : (s t : ℕ) → links s ≡ some t → rank t < rank s) (fuel : ℕ) where
    choose_lem :
        (anchor pred : TEntity)
        → rank (get_self_state_ref pred) < fuel
        → (e : TEntity) × (choose O fuel links anchor pred ≡ some e)
          × (((some e ≡ some pred) × Stands anchor pred)
              ⊎ ((some e ≡ some anchor) × ¬ Stands anchor pred))
    unfolding choose
    choose_lem anchor pred h =
        let p = get_self_state_ref pred in
        let a = get_self_state_ref anchor in
        let (b, ran, iff) = is_linking_correct links a rank down fuel p h in
        elim (Bool-cases (p == a)) [
          | inl same ↦ (pred, rw (same, choose), inl (refl, inl ((==_iff p a).0 same)))
          | inr other ↦ elim (Bool-cases b) [
            | inl t ↦ (pred, ground (arith, other, ran, t), inl (refl, inr (iff.0 t)))
            | inr f ↦ (
              anchor,
              ground (arith, other, ran, f),
              inr (
                refl,
                λ st. elim st [ inl e ↦ ground (arith, e, other) | inr l ↦ cc (iff.1 l, f) ],
              ),
            )
          ]
        ]

    pub resolve_states_lem :
        (conf unconf pred : Option TEntity)
        → ((p : TEntity) → pred ≡ some p → rank (get_self_state_ref p) < fuel)
        → (r : Option TEntity) × (resolve_states O fuel links conf unconf pred ≡ some r)
          × Resolved conf unconf pred r
    unfolding resolve_states
    resolve_states_lem (some conf) unconf (some pred) h =
        let (e, ran, spec) = choose_lem (anchoring_point O conf unconf) pred (h pred refl) in
        (some e, rw (ran, resolve_states), spec)
    resolve_states_lem (some conf) (some unconf) none h = (some unconf, refl, refl)
    resolve_states_lem (some conf) none none h = (some conf, refl, refl)
    resolve_states_lem none (some unconf) none h = (some unconf, refl, refl)
    resolve_states_lem none unconf (some pred) h = (none, refl, refl)
    resolve_states_lem none none none h = (none, refl, refl)

-- Where each link goes down in some rank, `resolve_entity_state` ends. With a confirmed and a
-- predicted state it is the prediction if that is, or comes by links from, the anchoring state,
-- which is the unconfirmed state if there is one and else the confirmed one; and the anchoring
-- state if not. With no prediction it is the unconfirmed state if there is one, and else the
-- confirmed one. With no confirmed state a prediction makes it nothing.
pub resolve_entity_state_lem :
    {TEntity : Type 0} (O : OnChainEntity TEntity) (E : EntityRepo TEntity) (repo : E.Repo)
    (rank : ℕ → ℕ) (fuel id : ℕ)
    → ((s t : ℕ) → E.get_prediction_predecessor repo s ≡ some t → rank t < rank s)
    → ((p : TEntity) → E.get_last_predicted repo id ≡ some p → rank (O.get_self_state_ref p) < fuel)
    → (r : Option TEntity) × (resolve_entity_state O E fuel repo id ≡ some r)
      × Resolved O
          (E.get_prediction_predecessor repo)
          (E.get_last_confirmed repo id)
          (E.get_last_unconfirmed repo id)
          (E.get_last_predicted repo id)
          r
unfolding resolve_entity_state
resolve_entity_state_lem O E repo rank fuel id down enough =
    resolve_states_lem O (E.get_prediction_predecessor repo) rank down fuel
      (E.get_last_confirmed repo id) (E.get_last_unconfirmed repo id) (E.get_last_predicted repo id)
      enough
