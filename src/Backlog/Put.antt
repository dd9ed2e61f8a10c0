-- ===== src/Backlog/Put.antt =====
-- `put` of backlog.rs: its effect on the store and on the three queues.
use spectrum_offchain_ergo.Prelude.{
  ℕ, ◌-◌, ◌≡◌, ◌≢◌, refl, ◌∙◌, ap, ◌⊎◌, inl, inr, Bool, true, false, none, some, List, [], ◌∷◌,
  arith, ◌==◌, ==_iff, ==_self, if◌then◌else◌, Elem, Bool-cases, Option-cases, position, remove_at,
  find, any, find-any, count, find-Elem, Elem-any,
}
use spectrum_offchain_ergo.Data.{BacklogOrder, PendingOrder}
use spectrum_offchain_ergo.Backlog.Queue.{WeightedOrder, Entry}
use spectrum_offchain_ergo.Backlog.Service.{
  Setup, BacklogService, forget_revisit, forget_suspended, enqueue_pending, has_id, put, exists,
}

abbrev pub is_order : ℕ → WeightedOrder → Bool
is_order id wo = wo.order_id == id

-- To take away the element at the first position that passes.
abbrev drop_first : (WeightedOrder → Bool) → List WeightedOrder → List WeightedOrder
drop_first p wos = elim (position p wos) [ none ↦ wos | some i ↦ remove_at i wos ]

module _ (p : WeightedOrder → Bool) where
  count_of_no_position : (wos : List WeightedOrder) → position p wos ≡ none → count p wos ≡ 0
  unfolding count position
  count_of_no_position [] e = refl
  count_of_no_position (wo ∷ wos) e = ground (arith, count_of_no_position wos)

  drop_first-cons :
      (wo : WeightedOrder) (wos : List WeightedOrder)
      → drop_first p (wo ∷ wos) ≡ (if p wo then wos else wo ∷ drop_first p wos)
  unfolding position remove_at
  drop_first-cons wo wos = ground arith

  count-drop_first : (wos : List WeightedOrder) → count p (drop_first p wos) ≡ count p wos - 1
  unfolding count position
  count-drop_first [] = refl
  count-drop_first (wo ∷ wos) = elim (Bool-cases (p wo)) [
    | inl t ↦ rw (drop_first-cons, t) (omega arith)
    | inr f ↦ rw (drop_first-cons, f) (ground (arith, f, count-drop_first wos))
  ]

  -- the other elements stay
  count-drop_first_other :
      (q : WeightedOrder → Bool) (wos : List WeightedOrder)
      → ((wo : WeightedOrder) → p wo ≡ true → q wo ≡ false)
      → count q (drop_first p wos) ≡ count q wos
  unfolding count position
  count-drop_first_other q [] h = refl
  count-drop_first_other q (wo ∷ wos) h = elim (Bool-cases (p wo)) [
    | inl t ↦ rw (drop_first-cons, t) (ground (arith, h wo t))
    | inr f ↦ rw (drop_first-cons, f) (ground (arith, f, count-drop_first_other q wos h))
  ]

module _ (E : Setup) where
  open E use {TOrd, order as O, weighted as W, queue as P, store as S}
  open O use {get_self_ref}
  open S use {get}

  -- What `put` does to a backlog, for the identifier of the order.
  pub record PutEffect (b : BacklogService E) (id : ℕ) (b' : BacklogService E) : Type 0 where
    -- the order is stored; nothing that was stored has changed
    pub stored : exists E b' id ≡ true
    pub kept : (j : ℕ) → (get b'.store j ≡ get b.store j) ⊎ ((j ≡ id) × (get b.store j ≡ none))
    -- the order is pending, and so is all that was
    pub pending : any (has_id E id) (P.iter b'.pending_pq) ≡ true
    pub pending_kept : (e : Entry) → Elem e (P.iter b.pending_pq) → Elem e (P.iter b'.pending_pq)
    -- one entry of the order leaves the revisit queue, and no other entry
    pub revisit : count (is_order id) b'.revisit_queue ≡ count (is_order id) b.revisit_queue - 1
    pub revisit_kept :
        (j : ℕ) → j ≢ id → count (is_order j) b'.revisit_queue ≡ count (is_order j) b.revisit_queue
    -- one entry of the order, if there is any, leaves the suspended queue
    pub suspended :
        (any (has_id E id) (P.iter b.suspended_pq) ≡ false)
        ⊎ ((e : Entry) × Elem e (P.iter b.suspended_pq)
            × (e.0.order_id ≡ id)
            × ((x : Entry) → Elem x (P.iter b'.suspended_pq) → x.0 ≢ e.0))
    pub suspended_kept :
        (e : Entry)
        → Elem e (P.iter b.suspended_pq)
        → e.0.order_id ≢ id
        → Elem e (P.iter b'.suspended_pq)

  enqueue_pending-any :
      (ord : PendingOrder TOrd) (pq : P.Queue)
      → any (has_id E (get_self_ref ord.order)) (P.iter (enqueue_pending E ord pq)) ≡ true
  unfolding enqueue_pending
  enqueue_pending-any ord pq =
      let id = get_self_ref ord.order in
      elim (Bool-cases (any (has_id E id) (P.iter pq))) [
        | inl t ↦ rw (t, enqueue_pending) t
        | inr f ↦
            rw (f, enqueue_pending) (Elem-any (has_id E id) _ _ (P.push_self pq _ _) (==_self id))
      ]

  enqueue_pending-keep :
      (ord : PendingOrder TOrd) (pq : P.Queue) (e : Entry)
      → Elem e (P.iter pq)
      → Elem e (P.iter (enqueue_pending E ord pq))
  unfolding enqueue_pending
  enqueue_pending-keep ord pq e m =
      let id = get_self_ref ord.order in
      elim (Bool-cases (any (has_id E id) (P.iter pq))) [
        | inl t ↦ rw (t, enqueue_pending) m
        | inr f ↦
            rw (f, enqueue_pending)
              (P.push_keep pq _ _ e m
                (λ same. cc (f, Elem-any (has_id E id) _ e m (rw same (==_self id)))))
      ]

  forget_suspended-keep :
      (id : ℕ) (pq : P.Queue) (e : Entry)
      → Elem e (P.iter pq)
      → e.0.order_id ≢ id
      → Elem e (P.iter (forget_suspended E id pq))
  unfolding forget_suspended
  forget_suspended-keep id pq e m ne = elim (Option-cases (find (has_id E id) (P.iter pq))) [
    | inl n ↦ rw (n, forget_suspended) m
    | inr (x, s) ↦
        rw (s, forget_suspended)
          (P.remove_keep pq x.0 e m (λ same. ne (
            ap (λ (wo : WeightedOrder). wo.order_id) same
            ∙ (==_iff _ _).0 (find-Elem (has_id E id) _ x s).1)))
  ]

  forget_suspended_one :
      (id : ℕ) (pq : P.Queue)
      → (any (has_id E id) (P.iter pq) ≡ false)
        ⊎ ((e : Entry) × Elem e (P.iter pq)
            × (e.0.order_id ≡ id)
            × ((x : Entry) → Elem x (P.iter (forget_suspended E id pq)) → x.0 ≢ e.0))
  unfolding forget_suspended
  forget_suspended_one id pq = elim (Option-cases (find (has_id E id) (P.iter pq))) [
    | inl n ↦ inl (find-any (has_id E id) (P.iter pq) n)
    | inr (x, s) ↦
        let (m, has) = find-Elem (has_id E id) (P.iter pq) x s in
        inr (
          x,
          m,
          (==_iff _ _).0 has,
          rw (s, forget_suspended) (λ y at. (P.remove_inv pq x.0 y at).1),
        )
  ]

  put-exists :
      (b : BacklogService E) (ord : PendingOrder TOrd)
      → S.IsWf b.store
      → exists E (put E b ord) (get_self_ref ord.order) ≡ true
  unfolding put exists
  put-exists b ord wf =
      let id = get_self_ref ord.order in
      let bo : BacklogOrder TOrd = record { order = ord.order; timestamp = ord.timestamp } in
      elim (Bool-cases (S.exists b.store id)) [
        | inl t ↦ rw t t
        | inr f ↦
            rw (f, S.exists_lem, S.put-IsWf b.store bo wf, S.get-put) (ground (arith, ==_self id))
      ]

  put_kept :
      (b : BacklogService E) (ord : PendingOrder TOrd) (j : ℕ)
      → S.IsWf b.store
      → (get (put E b ord).store j ≡ get b.store j)
        ⊎ ((j ≡ get_self_ref ord.order) × (get b.store j ≡ none))
  unfolding put
  put_kept b ord j wf =
      let id = get_self_ref ord.order in
      let bo : BacklogOrder TOrd = record { order = ord.order; timestamp = ord.timestamp } in
      ground (arith, S.exists_lem b.store id wf, S.get-put b.store bo j)

  -- After `put` of an order in a well-formed store the order is stored and pending, what was stored
  -- has not changed and what was pending is pending; one entry of the order has left the revisit
  -- queue, if there was one, and none of another; and if an entry of it was suspended, one is no
  -- longer.
  pub put-PutEffect :
      (b : BacklogService E) (ord : PendingOrder TOrd)
      → S.IsWf b.store
      → PutEffect b (get_self_ref ord.order) (put E b ord)
  unfolding put forget_revisit
  put-PutEffect b ord wf =
      let id = get_self_ref ord.order in
      record {
        stored = put-exists b ord wf;
        kept = λ j. put_kept b ord j wf;
        pending = enqueue_pending-any ord b.pending_pq;
        pending_kept = enqueue_pending-keep ord b.pending_pq;
        revisit = count-drop_first (is_order id) b.revisit_queue;
        revisit_kept = λ j ne.
            count-drop_first_other (is_order id) (is_order j) b.revisit_queue
              (λ wo h. ground arith);
        suspended = forget_suspended_one id b.suspended_pq;
        suspended_kept = forget_suspended-keep id b.suspended_pq;
      }
