-- ===== src/Backlog/Queue.antt =====
-- What the backlog keeps in its queues, and the third-party crate `priority_queue` as a parameter.
use spectrum_offchain_ergo.Prelude.{
  ℕ, ◌≤◌, ◌<◌, ◌≡◌, ◌≢◌, ◌⊎◌, Option, none, some, List, [], Elem, length,
}
use spectrum_offchain_ergo.Prelude.Int.{ℤ}

pub record WeightedOrder : Type 0 where
  pub order_id : ℕ
  pub timestamp : ℤ

abbrev pub Entry : Type 0
Entry = WeightedOrder × ℕ

-- Each item is there at most once, and `push` of an item that is there changes its priority; `pop`
-- takes an item of the highest priority. `iter` lists the items in an order that is not specified.
pub record PriorityQueue : Type 1 where
  pub Queue : Type 0
  pub new : Queue
  pub push : Queue → WeightedOrder → ℕ → Queue
  pub pop : Queue → Option (Entry × Queue)
  pub remove : Queue → WeightedOrder → Queue
  pub iter : Queue → List Entry
  pub iter-new : iter new ≡ []
  pub push_self : (q : Queue) (i : WeightedOrder) (w : ℕ) → Elem (i, w) (iter (push q i w))
  pub push_keep :
      (q : Queue) (i : WeightedOrder) (w : ℕ) (x : Entry)
      → Elem x (iter q)
      → x.0 ≢ i
      → Elem x (iter (push q i w))
  pub push_inv :
      (q : Queue) (i : WeightedOrder) (w : ℕ) (x : Entry)
      → Elem x (iter (push q i w))
      → (x ≡ (i, w)) ⊎ (Elem x (iter q) × (x.0 ≢ i))
  pub remove_keep :
      (q : Queue) (i : WeightedOrder) (x : Entry)
      → Elem x (iter q)
      → x.0 ≢ i
      → Elem x (iter (remove q i))
  pub remove_inv :
      (q : Queue) (i : WeightedOrder) (x : Entry)
      → Elem x (iter (remove q i))
      → Elem x (iter q) × (x.0 ≢ i)
  pub pop_none : (q : Queue) → pop q ≡ none → iter q ≡ []
  pub pop_max :
      (q q' : Queue) (top : Entry)
      → pop q ≡ some (top, q')
      → (x : Entry) → Elem x (iter q)
      → x.1 ≤ top.1
  pub pop_top : (q q' : Queue) (top : Entry) → pop q ≡ some (top, q') → Elem top (iter q)
  pub pop_keep :
      (q q' : Queue) (top : Entry)
      → pop q ≡ some (top, q')
      → (x : Entry) → Elem x (iter q)
      → (x ≡ top) ⊎ Elem x (iter q')
  pub pop_inv :
      (q q' : Queue) (top : Entry)
      → pop q ≡ some (top, q')
      → (x : Entry) → Elem x (iter q')
      → Elem x (iter q) × (x.0 ≢ top.0)
  pub pop_length :
      (q q' : Queue) (top : Entry) → pop q ≡ some (top, q') → length (iter q') < length (iter q)
