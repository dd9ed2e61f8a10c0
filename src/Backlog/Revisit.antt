-- ===== src/Backlog/Revisit.antt =====
-- `revisit_progressing_orders` of backlog.rs.
use native.Mathlib.Decide.{ℕ_discrete}
use spectrum_offchain_ergo.Prelude.{
  ℕ, suc, ◌≡◌, refl, ◌∙◌, ap, subst, ◌⊎◌, inl, inr, true, false, none, some, List, [], ◌∷◌, ◌++◌,
  arith, ==_self, Elem, All, Bool-cases, Option-cases,
}
use spectrum_offchain_ergo.Prelude.Int.{ℤ}
use spectrum_offchain_ergo.Data.{BacklogOrder}
use spectrum_offchain_ergo.Backlog.Queue.{WeightedOrder}
use spectrum_offchain_ergo.Backlog.Service.{
  BacklogConfig, Setup, BacklogService, weighted_order, elapsed_over, revisit_order, revisit_loop,
  revisit_progressing_orders,
}

unfoldable pub WeightedOrder-discrete : Discrete WeightedOrder
unfolding ℕ_discrete
WeightedOrder-discrete = hlevel ℕ_discrete

module _ (E : Setup) where
  open E use {TOrd, order as O, weighted as W, queue as P, store as S}
  open S use {get}

  abbrev pub IsQueued : BacklogService E → WeightedOrder → Type 0
  IsQueued b wo = (w : ℕ) × Elem (wo, w) (P.iter b.pending_pq)

  -- no order is changed in the store, some may be gone
  abbrev pub Shrinks : BacklogService E → BacklogService E → Type 0
  Shrinks b b' = (id : ℕ) → (get b'.store id ≡ get b.store id) ⊎ (get b'.store id ≡ none)

  -- the order is gone from the store, or is pending
  abbrev pub Served : BacklogService E → WeightedOrder → Type 0
  Served b wo =
      (get b.store wo.order_id ≡ none)
      ⊎ ((bo : BacklogOrder TOrd) × (get b.store wo.order_id ≡ some bo)
          × IsQueued b (weighted_order E bo.order bo.timestamp))

  push-IsQueued :
      (b : BacklogService E) (i : WeightedOrder) (w : ℕ) (wo : WeightedOrder)
      → IsQueued b wo
      → IsQueued (record b { pending_pq = P.push b.pending_pq i w }) wo
  push-IsQueued b i w wo (v, m) = elim (WeightedOrder-discrete wo i) [
    | yes e ↦ (w, rw e (P.push_self b.pending_pq i w))
    | no ne ↦ (v, P.push_keep b.pending_pq i w (wo, v) m ne)
  ]

  revisit_order_cases {ℓ} :
      (Q : BacklogService E → Type ℓ) (b : BacklogService E) (wo : WeightedOrder) (now : ℤ)
      → Q (record b { store = S.remove b.store wo.order_id })
      → (get b.store wo.order_id ≡ none → Q b)
      → ((bo : BacklogOrder TOrd)
          → get b.store wo.order_id ≡ some bo
          → Q (record b {
            pending_pq =
                P.push b.pending_pq (weighted_order E bo.order bo.timestamp) (W.weight bo.order);
          }))
      → Q (revisit_order E b wo now)
  unfolding revisit_order
  revisit_order_cases Q b wo now dropped missing pushed =
      elim (Bool-cases (elapsed_over E b.conf.order_lifespan now wo.timestamp)) [
        | inl old ↦ rw (old, revisit_order) dropped
        | inr young ↦ elim (Option-cases (get b.store wo.order_id)) [
          | inl e ↦ rw (young, e, revisit_order) (missing e)
          | inr (bo, e) ↦ rw (young, e, revisit_order) (pushed bo e)
        ]
      ]

  module _ (b : BacklogService E) (wo : WeightedOrder) (now : ℤ) where
    revisit_order-conf : (revisit_order E b wo now).conf ≡ b.conf
    revisit_order-conf =
        revisit_order_cases (λ b'. b'.conf ≡ b.conf) b wo now refl (λ e. refl) (λ bo e. refl)

    revisit_order-suspended : (revisit_order E b wo now).suspended_pq ≡ b.suspended_pq
    revisit_order-suspended =
        revisit_order_cases (λ b'. b'.suspended_pq ≡ b.suspended_pq) b wo now refl (λ e. refl)
          (λ bo e. refl)

    revisit_order-IsQueued :
        (x : WeightedOrder) → IsQueued b x → IsQueued (revisit_order E b wo now) x
    revisit_order-IsQueued x q =
        revisit_order_cases (λ b'. IsQueued b' x) b wo now q (λ e. q)
          (λ bo e. push-IsQueued b (weighted_order E bo.order bo.timestamp) (W.weight bo.order) x q)

    revisit_order-Shrinks : Shrinks b (revisit_order E b wo now)
    unfolding revisit_order
    revisit_order-Shrinks id = ground (arith, S.get-remove b.store wo.order_id id)

    revisit_order-Served : Served (revisit_order E b wo now) wo
    revisit_order-Served =
        revisit_order_cases (λ b'. Served b' wo) b wo now
          (inl (ground (arith, S.get-remove b.store wo.order_id wo.order_id, ==_self wo.order_id)))
          inl (λ bo e. inr (bo, e, (W.weight bo.order, P.push_self b.pending_pq _ _)))

  Served-later :
      (b b' : BacklogService E) (wo : WeightedOrder)
      → Shrinks b b'
      → ((x : WeightedOrder) → IsQueued b x → IsQueued b' x)
      → Served b wo
      → Served b' wo
  Served-later b b' wo s q (inl gone) = inl (ground (arith, s wo.order_id))
  Served-later b b' wo s q (inr (bo, stored, at)) = elim (s wo.order_id) [
    | inl same ↦ inr (bo, same ∙ stored, q _ at)
    | inr gone ↦ inl gone
  ]

  module _ (clock : ℕ → ℤ) where
    -- The orders that were taken had their time come when they were looked at, and the one that
    -- is left at the front, if any, had not.
    abbrev pub Due : ℤ → ℕ → List WeightedOrder → List WeightedOrder → Type 0
    Due span i [] [] = Unit
    Due span i [] (wo ∷ wos) = elapsed_over E span (clock i) wo.timestamp ≡ false
    Due span i (wo ∷ wos) left =
        (elapsed_over E span (clock i) wo.timestamp ≡ true) × Due span (suc i) wos left

    -- What the loop has done when it was started in the round `i` on the queue `wos`.
    pub record Revisited (b : BacklogService E) (wos : List WeightedOrder) (i : ℕ)
        (b' : BacklogService E) : Type 0 where
      pub shrinks : Shrinks b b'
      pub queued : (x : WeightedOrder) → IsQueued b x → IsQueued b' x
      pub suspended : b'.suspended_pq ≡ b.suspended_pq
      pub conf : b'.conf ≡ b.conf
      pub done : List WeightedOrder
      pub split : wos ≡ done ++ b'.revisit_queue
      pub due : Due b.conf.order_exec_time i done b'.revisit_queue
      pub served : All (Served b') done

    Revisited-next :
        (b b' : BacklogService E) (wo : WeightedOrder) (wos : List WeightedOrder) (i : ℕ)
        → elapsed_over E b.conf.order_exec_time (clock i) wo.timestamp ≡ true
        → Revisited (revisit_order E b wo (clock i)) wos (suc i) b'
        → Revisited b (wo ∷ wos) i b'
    Revisited-next b b' wo wos i due r =
        let b1 = revisit_order E b wo (clock i) in
        let same : b1.conf ≡ b.conf = revisit_order-conf b wo (clock i) in
        record {
          shrinks = λ id. ground (arith, r.shrinks id, revisit_order-Shrinks b wo (clock i) id);
          queued = λ x q. r.queued x (revisit_order-IsQueued b wo (clock i) x q);
          suspended = r.suspended ∙ revisit_order-suspended b wo (clock i);
          conf = r.conf ∙ same;
          done = wo ∷ r.done;
          split = ap (◌∷◌ wo) r.split;
          due = (
            due,
            subst (λ (c : BacklogConfig). Due c.order_exec_time (suc i) r.done b'.revisit_queue)
                same r.due,
          );
          served = (
            Served-later b1 b' wo r.shrinks r.queued (revisit_order-Served b wo (clock i)),
            r.served,
          );
        }

    pub revisit_loop-Revisited :
        (wos : List WeightedOrder) (i : ℕ) (b : BacklogService E)
        → Revisited b wos i (revisit_loop E wos i clock b)
    unfolding revisit_loop
    revisit_loop-Revisited [] i b = record {
      shrinks = λ id. inl refl;
      queued = λ x q. q;
      suspended = refl;
      conf = refl;
      done = [];
      split = refl;
      due = tt;
      served = tt;
    }
    revisit_loop-Revisited (wo ∷ wos) i b =
        elim (Bool-cases (elapsed_over E b.conf.order_exec_time (clock i) wo.timestamp)) [
          | inl due ↦
              rw (due, revisit_loop)
                (Revisited-next b _ wo wos i due
                  (revisit_loop-Revisited wos (suc i) (revisit_order E b wo (clock i))))
          | inr recent ↦
              rw (recent, revisit_loop)
                (record {
                  shrinks = λ id. inl refl;
                  queued = λ x q. q;
                  suspended = refl;
                  conf = refl;
                  done = [];
                  split = refl;
                  due = recent;
                  served = tt;
                })
        ]

    pub revisit_progressing_orders_lem :
        (b : BacklogService E)
        → Revisited b b.revisit_queue 0 (revisit_progressing_orders E clock b)
    unfolding revisit_progressing_orders
    revisit_progressing_orders_lem b = revisit_loop-Revisited b.revisit_queue 0 b
