-- ===== src/Backlog/Lifecycle.antt =====
-- What `remove`, `suspend` and `try_pop` of backlog.rs mean for one another.
use spectrum_offchain_ergo.Prelude.{
  ℕ, ◌≡◌, ◌≢◌, refl, sym, ◌∙◌, ap, inl, inr, some, arith, leb, if◌then◌else◌, Bool-cases,
}
use spectrum_offchain_ergo.Prelude.Int.{ℤ}
use spectrum_offchain_ergo.Data.{BacklogOrder}
use spectrum_offchain_ergo.Backlog.Service.{
  Setup, BacklogService, BacklogConfig, Popped, remove, try_pop, revisit_progressing_orders,
}
use spectrum_offchain_ergo.Backlog.Pop.{Kept, Outcome, try_pop_max_order_lem}
use spectrum_offchain_ergo.Backlog.Revisit.{revisit_progressing_orders_lem}

module _ (E : Setup) where
  open E use {TOrd, order as O, weighted as W, queue as P, store as S}
  open O use {get_self_ref}
  open S use {get}

  -- the queue that `try_pop` takes from
  abbrev pub chosen : BacklogService E → ℕ → P.Queue
  chosen b rng = if leb b.conf.retry_suspended_prob rng then b.pending_pq else b.suspended_pq

  abbrev pub TryPop : (ℕ → ℤ) → (ℕ → ℤ) → ℕ → BacklogService E → Type 0
  TryPop rc pc rng b =
      let b1 = revisit_progressing_orders E rc b in
      (p : Popped E) × (b' : BacklogService E) × (try_pop E rc pc rng b ≡ some (p.result, b'))
      × (b'.store ≡ p.store)
      × Kept E pc b1.conf b1.store (chosen b1 rng) p.store
      × Outcome E pc b1.conf (chosen b1 rng) p

  try_pop_lem : (rc pc : ℕ → ℤ) (rng : ℕ) (b : BacklogService E) → TryPop rc pc rng b
  unfolding try_pop
  try_pop_lem rc pc rng b =
      let b1 = revisit_progressing_orders E rc b in
      elim (Bool-cases (leb b1.conf.retry_suspended_prob rng)) [
        | inl t ↦
            let (p, ran, kept, out) = try_pop_max_order_lem E pc b1.conf b1.store b1.pending_pq in
            (
              p,
              record b1 { store = p.store; pending_pq = p.pq },
              ground (arith, t, ran),
              refl,
              rw t kept,
              rw t out,
            )
        | inr f ↦
            let (p, ran, kept, out) = try_pop_max_order_lem E pc b1.conf b1.store b1.suspended_pq in
            (
              p,
              record b1 { store = p.store; suspended_pq = p.pq },
              ground (arith, f, ran),
              refl,
              rw f kept,
              rw f out,
            )
      ]

  stored_of_Outcome :
      (pc : ℕ → ℤ) (conf : BacklogConfig) (pq : P.Queue) (p : Popped E) (ord : TOrd)
      → Outcome E pc conf pq p
      → p.result ≡ some ord
      → (id : ℕ) × (bo : BacklogOrder TOrd) × (get p.store id ≡ some bo) × (bo.order ≡ ord)
  stored_of_Outcome pc conf pq p ord (inl (r, _, _)) e = absurd (ground (arith, r, e))
  stored_of_Outcome pc conf pq p ord (inr (top, bo, i, f)) e =
      (top.0.order_id, bo, f.1, ground (arith, f.2, e))

  -- What `try_pop` returns is an order as it was stored, under its own identifier, and it is still
  -- stored afterwards.
  pub try_pop_stored :
      (rc pc : ℕ → ℤ) (rng : ℕ) (b b' : BacklogService E) (ord : TOrd)
      → S.IsWf b.store
      → try_pop E rc pc rng b ≡ some (some ord, b')
      → (bo : BacklogOrder TOrd) × (get b.store (get_self_ref ord) ≡ some bo)
        × (bo.order ≡ ord)
        × (get b'.store (get_self_ref ord) ≡ some bo)
  try_pop_stored rc pc rng b b' ord wf e =
      let b1 = revisit_progressing_orders E rc b in
      let (p, c, ran, st, kept, out) = try_pop_lem rc pc rng b in
      let res : p.result ≡ some ord = ground (arith, ran, e) in
      let after : c.store ≡ b'.store = ground (arith, ran, e) in
      let (id, bo, held, is) = stored_of_Outcome pc b1.conf (chosen b1 rng) p ord out res in
      let r = revisit_progressing_orders_lem E rc b in
      let before : get b.store id ≡ some bo = ground (arith, held, kept id, r.shrinks id) in
      let own : get_self_ref ord ≡ id =
        ap get_self_ref (sym is) ∙ S.get_self_ref-get b.store id bo wf before in
      let still : get b'.store id ≡ some bo = rw (← after, st) held in
      (bo, rw own before, is, rw own still)

  -- An order that was removed is never popped, though its entries are still in the queues.
  pub try_pop-remove :
      (rc pc : ℕ → ℤ) (rng id : ℕ) (b b' : BacklogService E) (ord : TOrd)
      → S.IsWf b.store
      → try_pop E rc pc rng (remove E b id) ≡ some (some ord, b')
      → get_self_ref ord ≢ id
  unfolding remove
  try_pop-remove rc pc rng id b b' ord wf e same =
      let b0 = remove E b id in
      let (bo, held, _, _) = try_pop_stored rc pc rng b0 b' ord (S.remove-IsWf b.store id wf) e in
      ground (arith, held, same, S.get-remove b.store id (get_self_ref ord))
