-- ===== src/Executor/Order.antt =====
-- executor.rs: `OrderExecutor`, and backlog/process.rs: `backlog_stream`, over the traits `Backlog`
-- and `EntityRepo`.
use spectrum_offchain_ergo.Prelude.{
  ℕ, ◌<◌, ◌≡◌, refl, ap, ◌∙◌, ◌⊎◌, inl, inr, Bool, true, false, Option, none, some, List,
  if◌then◌else◌, Option-cases,
}
use spectrum_offchain_ergo.Data.{
  OnChainOrder, OnChainEntity, PendingOrder, ProgressingOrder, OrderUpdate, new_order,
  order_eliminated,
}
use spectrum_offchain_ergo.BoxResolver.Resolve.{
  EntityRepo, resolve_entity_state, resolve_entity_state_lem,
}

-- the trait `Backlog`
pub record Backlog (TOrd : Type 0) : Type 1 where
  pub Service : Type 0
  pub put : Service → PendingOrder TOrd → Service
  pub suspend : Service → TOrd → Service × Bool
  pub check_later : Service → ProgressingOrder TOrd → Service × Bool
  pub try_pop : Service → Option TOrd × Service
  pub exists : Service → ℕ → Bool
  pub remove : Service → ℕ → Service
  pub recharge : Service → TOrd → Service
  pub find_orders : Service → (TOrd → Bool) → List TOrd

-- the body of `backlog_stream`
unfoldable pub backlog_event :
    {TOrd : Type 0} (L : Backlog TOrd) → L.Service → OrderUpdate TOrd → L.Service
backlog_event L b (new_order pending_order) = L.put b pending_order
backlog_event L b (order_eliminated elim_oid) = L.remove b elim_oid

pub data RunOrderError (TOrd : Type 0) : Type 0 where
  fatal : TOrd → RunOrderError TOrd
  non_fatal : TOrd → RunOrderError TOrd

unfoldable pub map_error : {A B : Type 0} → (A → B) → RunOrderError A → RunOrderError B
map_error f (fatal o) = fatal (f o)
map_error f (non_fatal o) = non_fatal (f o)

-- what `try_run` gives: a transaction and the next state, or an error
pub data Run (TOrd TEntity Tx : Type 0) : Type 0 where
  ran : Tx → TEntity → Run TOrd TEntity Tx
  failed : RunOrderError TOrd → Run TOrd TEntity Tx

-- The order logic and the node are parameters: `try_run`, and whether `submit_tx` accepts.
pub record Market : Type 1 where
  pub TOrd : Type 0
  pub TEntity : Type 0
  pub Tx : Type 0
  pub order : OnChainOrder TOrd
  pub entity : OnChainEntity TEntity
  pub backlog : Backlog TOrd
  pub repo : EntityRepo TEntity
  pub try_run : TOrd → TEntity → Run TOrd TEntity Tx

module _ (M : Market) where
  open M use {TOrd, TEntity, Tx, order as O, entity as N, backlog as L, repo as R, try_run}

  pub record OrderExecutor : Type 0 where
    pub backlog : L.Service
    pub entity_repo : R.Repo

  -- the arms on the result of `try_run`
  unfoldable pub on_run :
      (Tx → Bool) → OrderExecutor → TOrd → TEntity → Run TOrd TEntity Tx → OrderExecutor
  on_run submit_tx x ord entity (ran tx next_entity_state) =
      if submit_tx tx
      then record x {
        entity_repo = R.put_predicted x.entity_repo (record {
          state = next_entity_state;
          prev_state_id = some (N.get_self_state_ref entity);
        });
      }
      else record {
        entity_repo =
            R.invalidate x.entity_repo (N.get_self_state_ref entity) (N.get_self_ref entity);
        backlog = L.recharge x.backlog ord;
      }
  on_run submit_tx x ord entity (failed (non_fatal o)) = record x {
    backlog = (L.suspend x.backlog o).0;
  }
  on_run submit_tx x ord entity (failed (fatal o)) = record x {
    backlog = L.remove x.backlog (O.get_self_ref o);
  }

  -- The Boolean is whether the result is `Ok(())`; the outer `none` is that of the fuel for
  -- `resolve_entity_state`.
  unfoldable pub try_execute_next : ℕ → (Tx → Bool) → OrderExecutor → Option (Bool × OrderExecutor)
  unfolding on_run
  try_execute_next fuel submit_tx x0 =
      let (popped, backlog) = L.try_pop x0.backlog in
      let x = record x0 { backlog = backlog } in
      elim popped [
        | none ↦ some (false, x)
        | some ord ↦ elim (resolve_entity_state N R fuel x.entity_repo (O.get_entity_ref ord)) [
          | none ↦ none
          | some none ↦ some (false, x)
          | some (some entity) ↦ some (true, on_run submit_tx x ord entity (try_run ord entity))
        ]
      ]

  abbrev resolve : ℕ → OrderExecutor → TOrd → Option (Option TEntity)
  resolve fuel x ord = resolve_entity_state N R fuel x.entity_repo (O.get_entity_ref ord)

  -- `Ok(())`: an order was popped whose entity has a state, and was run against it. `Err(())`: no
  -- order was popped, or its entity has none, and the repository is as it was.
  abbrev pub Executed : ℕ → (Tx → Bool) → OrderExecutor → Bool × OrderExecutor → Type 0
  Executed fuel submit_tx x0 (ok, x1) =
      let popped = L.try_pop x0.backlog in
      let x : OrderExecutor = record x0 { backlog = popped.1 } in
      ((ok ≡ true)
        × ((ord : TOrd) × (entity : TEntity) × (popped.0 ≡ some ord)
            × (resolve fuel x0 ord ≡ some (some entity))
            × (x1 ≡ on_run submit_tx x ord entity (try_run ord entity))))
      ⊎ ((ok ≡ false)
          × (x1 ≡ x)
          × ((popped.0 ≡ none)
              ⊎ ((ord : TOrd) × (popped.0 ≡ some ord) × (resolve fuel x0 ord ≡ some none))))

  -- Where the links of the repository go down in some rank, `try_execute_next` ends. It answers
  -- `Ok(())` when an order was popped whose entity resolves to a state, and has then run it
  -- against that state; and `Err(())` when no order was popped or its entity resolves to none,
  -- and has then changed nothing but what `try_pop` did.
  pub try_execute_next_lem :
      (rank : ℕ → ℕ) (fuel : ℕ) (submit_tx : Tx → Bool) (x0 : OrderExecutor)
      → ((s t : ℕ) → R.get_prediction_predecessor x0.entity_repo s ≡ some t → rank t < rank s)
      → ((s : ℕ) → rank s < fuel)
      → (out : Bool × OrderExecutor) × (try_execute_next fuel submit_tx x0 ≡ some out)
        × Executed fuel submit_tx x0 out
  unfolding try_execute_next
  try_execute_next_lem rank fuel submit_tx x0 down enough =
      let x : OrderExecutor = record x0 { backlog = (L.try_pop x0.backlog).1 } in
      elim (Option-cases (L.try_pop x0.backlog).0) [
        | inl none_left ↦
            ((false, x), rw (none_left, try_execute_next), inr (refl, refl, inl none_left))
        | inr (ord, popped) ↦
            let (r, ended, _) =
              resolve_entity_state_lem N R x0.entity_repo rank fuel (O.get_entity_ref ord) down
                (λ p _. enough _) in
            elim (Option-cases r) [
              | inl unresolved ↦ (
                (false, x),
                rw (popped, try_execute_next, ended, unresolved),
                inr (refl, refl, inr (ord, popped, ended ∙ ap some unresolved)),
              )
              | inr (entity, resolved) ↦ (
                (true, on_run submit_tx x ord entity (try_run ord entity)),
                rw (popped, try_execute_next, ended, resolved),
                inl (refl, (ord, entity, popped, ended ∙ ap some resolved, refl)),
              )
            ]
      ]
