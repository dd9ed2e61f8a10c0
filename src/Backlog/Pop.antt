-- ===== src/Backlog/Pop.antt =====
-- `try_pop_max_order` of backlog.rs: what it returns, what it leaves, and that it ends.
use native.Mathlib.Decide.{dec_le}
use spectrum_offchain_ergo.Prelude.{
  ◌≤◌, ℕ, zero, suc, ◌<◌, ◌≡◌, refl, sym, ◌∙◌, ap, ◌⊎◌, inl, inr, true, false, Option, none, some,
  [], arith, ◌==◌, ==_iff, ==_self, Elem, length, Bool-cases, Option-cases,
}
use spectrum_offchain_ergo.Prelude.Int.{ℤ}
use spectrum_offchain_ergo.Data.{BacklogOrder}
use spectrum_offchain_ergo.Backlog.Queue.{WeightedOrder, Entry}
use spectrum_offchain_ergo.Backlog.Service.{
  BacklogConfig, Setup, Popped, elapsed_over, pop_loop, try_pop_max_order,
}

module _ (E : Setup) (clock : ℕ → ℤ) (conf : BacklogConfig) where
  open E use {queue as P, store as S}
  open P use {Queue, iter}
  open S use {Store, get}

  abbrev pub ExpiredAt : ℕ → WeightedOrder → Type 0
  ExpiredAt i wo = elapsed_over E conf.order_lifespan (clock i) wo.timestamp ≡ true

  -- The store loses nothing but orders that a queue entry shows as expired.
  abbrev pub Kept : Store → Queue → Store → Type 0
  Kept before pq after =
      (id : ℕ)
      → (get after id ≡ get before id)
        ⊎ ((x : Entry) × (i : ℕ) × Elem x (iter pq)
            × (x.0.order_id ≡ id)
            × ExpiredAt i x.0
            × (get after id ≡ none))

  abbrev pub Found : Queue → Popped E → Entry → BacklogOrder E.TOrd → ℕ → Type 0
  Found pq p top bo i =
      Elem top (iter pq)
      × (get p.store top.0.order_id ≡ some bo)
      × (p.result ≡ some bo.order)
      × (elapsed_over E conf.order_lifespan (clock i) top.0.timestamp ≡ false)
      × ((x : Entry) → Elem x (iter pq) → top.1 < x.1 → get p.store x.0.order_id ≡ none)

  -- No entry leads to an order; or the result is the order of an entry that has not expired, and
  -- every entry of a higher weight has no order any more.
  abbrev pub Outcome : Queue → Popped E → Type 0
  Outcome pq p =
      ((p.result ≡ none)
        × (iter p.pq ≡ [])
        × ((x : Entry) → Elem x (iter pq) → get p.store x.0.order_id ≡ none))
      ⊎ ((top : Entry) × (bo : BacklogOrder E.TOrd) × (i : ℕ) × Found pq p top bo i)

  module _ (pq rest : Queue) (top : Entry) (popped : P.pop pq ≡ some (top, rest)) where
    -- an entry of the queue is the popped one, with no order, or one of the rest
    gone_of :
        (after : Store) (x : Entry)
        → get after top.0.order_id ≡ none
        → (Elem x (iter rest) → get after x.0.order_id ≡ none)
        → Elem x (iter pq)
        → get after x.0.order_id ≡ none
    gone_of after x gone others m = elim (P.pop_keep pq rest top popped x m) [
      | inl same ↦ ap (λ (y : Entry). get after y.0.order_id) same ∙ gone
      | inr r ↦ others r
    ]

    Outcome-step :
        (p : Popped E) → get p.store top.0.order_id ≡ none → Outcome rest p → Outcome pq p
    Outcome-step p gone (inl (r, e, all)) = inl (r, e, λ x. gone_of p.store x gone (all x))
    Outcome-step p gone (inr (t, bo, i, (m, stored, r, fresh, heavier))) = inr (
      t,
      bo,
      i,
      (
        (P.pop_inv pq rest top popped t m).0,
        stored,
        r,
        fresh,
        λ x at lt. gone_of p.store x gone (λ at'. heavier x at' lt) at,
      ),
    )

    Kept-skip : (before after : Store) → Kept before rest after → Kept before pq after
    Kept-skip before after k id = elim (k id) [
      | inl e ↦ inl e
      | inr (x, i, m, at, old, e) ↦ inr (x, i, (P.pop_inv pq rest top popped x m).0, at, old, e)
    ]

    Kept-drop :
        (before after : Store) (i : ℕ)
        → ExpiredAt i top.0
        → Kept (S.remove before top.0.order_id) rest after
        → Kept before pq after
    Kept-drop before after i old k id =
        elim (Kept-skip (S.remove before top.0.order_id) after k id) [
          | inr dropped ↦ inr dropped
          | inl e ↦ elim (Bool-cases (top.0.order_id == id)) [
            | inl same ↦ inr (
              top,
              i,
              P.pop_top pq rest top popped,
              (==_iff _ _).0 same,
              old,
              ground (arith, e, S.get-remove before top.0.order_id id),
            )
            | inr other ↦ inl (ground (arith, e, S.get-remove before top.0.order_id id))
          ]
        ]

    gone_of_Kept :
        (before after : Store)
        → Kept before rest after
        → get before top.0.order_id ≡ none
        → get after top.0.order_id ≡ none
    gone_of_Kept before after k e = ground (arith, k top.0.order_id)

  abbrev Result : Store → Queue → Option (Popped E) → Type 0
  Result store pq r = (p : Popped E) × (r ≡ some p) × Kept store pq p.store × Outcome pq p

  pub pop_loop_correct :
      (fuel i : ℕ) (store : Store) (pq : Queue)
      → length (iter pq) < fuel
      → Result store pq (pop_loop E fuel i clock conf store pq)
  unfolding pop_loop
  pop_loop_correct zero i store pq h = elim h [ ]
  pop_loop_correct (suc fuel) i store pq h = elim (Option-cases (P.pop pq)) [
    | inl e ↦ (
      record { result = none; store = store; pq = pq },
      ground (arith, e),
      λ id. inl refl,
      inl (refl, P.pop_none pq e, λ x m. absurd (rw (P.pop_none pq e) at m)),
    )
    | inr ((top, rest), e) ↦
        let id = top.0.order_id in
        let shorter : length (iter rest) < fuel = omega (arith, P.pop_length pq rest top e) in
        elim (Bool-cases (elapsed_over E conf.order_lifespan (clock i) top.0.timestamp)) [
          | inl old ↦
              let (p, ran, kept, out) =
                pop_loop_correct fuel (suc i) (S.remove store id) rest shorter in
              let missing : get (S.remove store id) id ≡ none =
                ground (arith, S.get-remove store id id, ==_self id) in
              (
                p,
                ground (arith, e, old, ran),
                Kept-drop pq rest top e store p.store i old kept,
                Outcome-step pq rest top e p
                    (gone_of_Kept pq rest top e (S.remove store id) p.store kept missing) out,
              )
          | inr fresh ↦ elim (Option-cases (get store id)) [
            | inl missing ↦
                let (p, ran, kept, out) = pop_loop_correct fuel (suc i) store rest shorter in
                (
                  p,
                  ground (arith, e, fresh, missing, ran),
                  Kept-skip pq rest top e store p.store kept,
                  Outcome-step pq rest top e p
                      (gone_of_Kept pq rest top e store p.store kept missing) out,
                )
            | inr (bo, stored) ↦ (
              record { result = some bo.order; store = store; pq = rest },
              ground (arith, e, fresh, stored),
              λ j. inl refl,
              inr (
                top,
                bo,
                i,
                (
                  P.pop_top pq rest top e,
                  stored,
                  refl,
                  fresh,
                  λ x m lt. absurd (omega (arith, P.pop_max pq rest top e x m)),
                ),
              ),
            )
          ]
        ]
  ]

  -- `try_pop_max_order` always ends. It drops from the store only orders that an entry of the queue
  -- shows as older than the lifespan. Either no entry of the queue leads to a stored order, and the
  -- queue is left empty, or the result is the stored order of an entry that is not older than the
  -- lifespan, and every entry of a higher weight has no stored order any more.
  pub try_pop_max_order_lem :
      (store : Store) (pq : Queue)
      → (p : Popped E) × (try_pop_max_order E clock conf store pq ≡ some p)
        × Kept store pq p.store
        × Outcome pq p
  unfolding try_pop_max_order
  try_pop_max_order_lem store pq =
      pop_loop_correct (suc (length (iter pq))) 0 store pq (omega arith)

  -- While an entry of the queue leads to a stored order, and no entry of that order is older than
  -- the lifespan, `try_pop_max_order` returns an order: the one that the store has for an entry of the
  -- queue, which weighs at least as much as that entry and is not older than the lifespan. Every entry
  -- that weighs more than the one returned has no stored order after.
  pub try_pop_max_order_serves :
      (store : Store) (pq : Queue) (x : Entry) (bo : BacklogOrder E.TOrd)
      → Elem x (iter pq)
      → get store x.0.order_id ≡ some bo
      → ((y : Entry) (i : ℕ)
          → Elem y (iter pq)
          → y.0.order_id ≡ x.0.order_id
          → elapsed_over E conf.order_lifespan (clock i) y.0.timestamp ≡ false)
      → (p : Popped E) × (top : Entry) × (served : BacklogOrder E.TOrd) × (i : ℕ)
        × (try_pop_max_order E clock conf store pq ≡ some p)
        × (get store top.0.order_id ≡ some served)
        × (x.1 ≤ top.1)
        × Found pq p top served i
  try_pop_max_order_serves store pq x bo m held young =
      let (p, ran, kept, out) = try_pop_max_order_lem store pq in
      let still : get p.store x.0.order_id ≡ some bo = elim (kept x.0.order_id) [
        | inl same ↦ same ∙ held
        | inr (y, i, at, is, old, _) ↦ absurd (ground (arith, young y i at is, old))
      ] in
      elim out [
        | inl (_, _, gone) ↦ absurd (ground (arith, gone x m, still))
        | inr (top, served, i, found) ↦
            let before : get store top.0.order_id ≡ some served = elim (kept top.0.order_id) [
              | inl same ↦ sym same ∙ found.1
              | inr (_, _, _, _, _, dropped) ↦ absurd (ground (arith, dropped, found.1))
            ] in
            elim (dec_le x.1 top.1) [
              | yes h ↦ (p, top, served, i, ran, before, h, found)
              | no h ↦ absurd (ground (arith, found.4 x m (omega arith), still))
            ]
      ]
