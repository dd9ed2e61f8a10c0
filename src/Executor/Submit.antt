-- ===== src/Executor/Submit.antt =====
-- executor.rs: `try_execute_next` over the repository in RocksDB, when the node answers.
use spectrum_offchain_ergo.Prelude.{
  ℕ, ◌<◌, ◌≡◌, ◌≢◌, refl, sym, ap, ◌∙◌, Bool, true, false, Option, none, some,
}
use spectrum_offchain_ergo.Data.{OnChainOrder, OnChainEntity}
use spectrum_offchain_ergo.Storage.{RocksDb, Bincode, Codec}
use spectrum_offchain_ergo.BoxResolver.Repo
use spectrum_offchain_ergo.BoxResolver.Writes.{view}
use spectrum_offchain_ergo.BoxResolver.Refinement.{LinksParse}
use spectrum_offchain_ergo.BoxResolver.Resolve.{EntityRepoRocksDb, resolve_entity_state}
use spectrum_offchain_ergo.BoxResolver.Invalidate.{resolve_entity_state-invalidate}
use spectrum_offchain_ergo.BoxResolver.Predict.{resolve_entity_state-put_predicted}
use spectrum_offchain_ergo.Executor.Order.{
  Backlog, Run, ran, Market, OrderExecutor, on_run, try_execute_next,
}

-- an executor with the repository in RocksDB
pub record Node : Type 1 where
  pub TOrd : Type 0
  pub TEntity : Type 0
  pub Tx : Type 0
  pub order : OnChainOrder TOrd
  pub entity : OnChainEntity TEntity
  pub backlog : Backlog TOrd
  pub rocks : RocksDb
  pub bincode : Bincode
  pub codec : Codec TEntity
  pub try_run : TOrd → TEntity → Run TOrd TEntity Tx

module _ (E : Node) where
  open E use {
    TOrd, TEntity, Tx, order as O, entity as N, backlog as L, rocks as R, bincode as B, codec as C,
    try_run,
  }

  abbrev pub market : Market
  market = record {
    TOrd = TOrd;
    TEntity = TEntity;
    Tx = Tx;
    order = O;
    entity = N;
    backlog = L;
    repo = EntityRepoRocksDb N R B C;
    try_run = try_run;
  }

  abbrev resolve : ℕ → R.Db → ℕ → Option (Option TEntity)
  resolve = resolve_entity_state N (EntityRepoRocksDb N R B C)

  -- An order is popped, its entity has a state, and the order runs against it.
  abbrev pub Runs : ℕ → OrderExecutor market → TOrd → TEntity → Tx → TEntity → Type 0
  Runs fuel x0 ord entity tx next =
      ((L.try_pop x0.backlog).0 ≡ some ord)
      × (resolve fuel x0.entity_repo (O.get_entity_ref ord) ≡ some (some entity))
      × (try_run ord entity ≡ ran tx next)

  executed :
      (fuel : ℕ) (submit_tx : Tx → Bool) (x0 : OrderExecutor market) (ord : TOrd)
      (entity next : TEntity) (tx : Tx)
      → Runs fuel x0 ord entity tx next
      → try_execute_next market fuel submit_tx x0
        ≡ some (
          true,
          on_run market submit_tx
              (record x0 { backlog = (L.try_pop x0.backlog).1 })
              ord
              entity
              (ran tx next),
        )
  unfolding try_execute_next
  executed fuel submit_tx x0 ord entity next tx (popped, resolved, runs) =
      rw (popped, try_execute_next, resolved, runs)

  -- When the node rejects the transaction, the order is recharged, and the entity no longer
  -- resolves to the state that the order was run against, where the links of the repository are
  -- readable and go down in some rank, and the states have their own identifiers.
  pub try_execute_next_rejected :
      (fuel : ℕ) (submit_tx : Tx → Bool) (x0 : OrderExecutor market) (ord : TOrd)
      (entity next : TEntity) (tx : Tx) (rank : ℕ → ℕ)
      → Runs fuel x0 ord entity tx next
      → submit_tx tx ≡ false
      → LinksParse N R B C x0.entity_repo
      → ((i : ℕ) (e : TEntity)
          → Repo.get_state N R B C x0.entity_repo i ≡ some e
          → N.get_self_state_ref e ≡ i)
      → ((s t : ℕ)
          → Repo.get_prediction_predecessor N R B C x0.entity_repo s ≡ some t
          → rank t < rank s)
      → ((s : ℕ) → rank s < fuel)
      → (x1 : OrderExecutor market) × (try_execute_next market fuel submit_tx x0 ≡ some (true, x1))
        × (x1.backlog ≡ L.recharge (L.try_pop x0.backlog).1 ord)
        × ((r : Option TEntity) × (resolve fuel x1.entity_repo (N.get_self_ref entity) ≡ some r)
            × ((e : TEntity) → r ≡ some e → N.get_self_state_ref e ≢ N.get_self_state_ref entity))
  unfolding on_run
  try_execute_next_rejected fuel submit_tx x0 ord entity next tx rank runs rejected parse keyed down
        enough =
      (
        record {
          backlog = L.recharge (L.try_pop x0.backlog).1 ord;
          entity_repo =
              Repo.invalidate N R B C x0.entity_repo (N.get_self_state_ref entity)
                (N.get_self_ref entity);
        },
        executed fuel submit_tx x0 ord entity next tx runs ∙ rw (rejected, on_run),
        refl,
        resolve_entity_state-invalidate N R B C x0.entity_repo (N.get_self_state_ref entity)
            (N.get_self_ref entity) rank fuel parse keyed down enough,
      )

  -- When the node accepts the transaction, the entity, which had a confirmed state, resolves to
  -- the state that the order left it in, where that state is of the entity of the order and is not
  -- known before, and the links are readable, and go down in some rank once it is written.
  pub try_execute_next_accepted :
      (fuel : ℕ) (submit_tx : Tx → Bool) (x0 : OrderExecutor market) (ord : TOrd)
      (entity next conf : TEntity) (tx : Tx) (rank : ℕ → ℕ)
      → let db = x0.entity_repo in
        let sid = N.get_self_state_ref next in
        let db' =
          Repo.put_predicted N R B C db
            (record { state = next; prev_state_id = some (N.get_self_state_ref entity) }) in
        Runs fuel x0 ord entity tx next
        → submit_tx tx ≡ true
        → N.get_self_ref next ≡ O.get_entity_ref ord
        → LinksParse N R B C db
        → Repo.get_last_confirmed N R B C db (N.get_self_ref next) ≡ some conf
        → (view N R B C db).state sid ≡ none
        → (view N R B C db).link sid ≡ none
        → (view N R B C db).unconfirmed (N.get_self_ref next) ≢ some sid
        → ((s t : ℕ) → Repo.get_prediction_predecessor N R B C db' s ≡ some t → rank t < rank s)
        → ((s : ℕ) → rank s < fuel)
        → (x1 : OrderExecutor market) × (try_execute_next market fuel submit_tx x0
            ≡ some (true, x1))
          × (x1.backlog ≡ (L.try_pop x0.backlog).1)
          × (resolve fuel x1.entity_repo (O.get_entity_ref ord) ≡ some (some next))
  unfolding on_run
  try_execute_next_accepted fuel submit_tx x0 ord entity next conf tx rank runs accepted own parse
        confirmed fresh unlinked other down enough =
      let db' =
        Repo.put_predicted N R B C x0.entity_repo
          (record { state = next; prev_state_id = some (N.get_self_state_ref entity) }) in
      (
        record { backlog = (L.try_pop x0.backlog).1; entity_repo = db' },
        executed fuel submit_tx x0 ord entity next tx runs ∙ rw (accepted, on_run),
        refl,
        ap (resolve fuel db') (sym own)
            ∙ resolve_entity_state-put_predicted N R B C x0.entity_repo conf entity next rank fuel
                parse confirmed (ap (resolve fuel x0.entity_repo) own ∙ runs.1) fresh unlinked other
                down enough,
      )
