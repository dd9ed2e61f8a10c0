-- ===== src/Backlog/Store.antt =====
-- backlog/persistence.rs: the trait `BacklogStore` as an interface with its laws, and its
-- implementation over RocksDB, which meets them.
use spectrum_offchain_ergo.Prelude.{
  ℕ, ◌≡◌, refl, sym, ◌∙◌, ◌⊎◌, inl, inr, Bool, true, Option, none, some, List, [], ◌∷◌, arith, ◌==◌,
  ==_iff, if◌then◌else◌, is_some, bytes_eq, bytes_eq_iff, Elem, Bool-cases, Option-cases,
}
use spectrum_offchain_ergo.Data.{OnChainOrder, BacklogOrder}
use spectrum_offchain_ergo.Storage.{Bytes, RocksDb, Bincode, Codec, starts_with}

-- `IsWf` is what an implementation keeps true of a store from the empty one on.
pub record BacklogStore {TOrd : Type 0} (O : OnChainOrder TOrd) : Type 1 where
  pub Store : Type 0
  pub IsWf : Store → Type 0
  pub put : Store → BacklogOrder TOrd → Store
  pub exists : Store → ℕ → Bool
  pub remove : Store → ℕ → Store
  pub get : Store → ℕ → Option (BacklogOrder TOrd)
  pub find_orders : Store → (TOrd → Bool) → List (BacklogOrder TOrd)
  pub put-IsWf : (s : Store) (b : BacklogOrder TOrd) → IsWf s → IsWf (put s b)
  pub remove-IsWf : (s : Store) (i : ℕ) → IsWf s → IsWf (remove s i)
  pub get-put :
      (s : Store) (b : BacklogOrder TOrd) (i : ℕ)
      → get (put s b) i ≡ (if O.get_self_ref b.order == i then some b else get s i)
  pub get-remove : (s : Store) (i j : ℕ) → get (remove s i) j ≡ (if i == j then none else get s j)
  pub exists_lem : (s : Store) (i : ℕ) → IsWf s → exists s i ≡ is_some (get s i)
  pub get_self_ref-get :
      (s : Store) (i : ℕ) (b : BacklogOrder TOrd)
      → IsWf s
      → get s i ≡ some b
      → O.get_self_ref b.order ≡ i
  pub find_complete :
      (s : Store) (f : TOrd → Bool) (i : ℕ) (b : BacklogOrder TOrd)
      → get s i ≡ some b
      → f b.order ≡ true
      → Elem b (find_orders s f)
  pub find_sound :
      (s : Store) (f : TOrd → Bool) (b : BacklogOrder TOrd)
      → IsWf s
      → Elem b (find_orders s f)
      → (get s (O.get_self_ref b.order) ≡ some b) × (f b.order ≡ true)

module _ {TOrd : Type 0} (O : OnChainOrder TOrd) (R : RocksDb) (B : Bincode)
    (C : Codec (BacklogOrder TOrd)) where
  open R use {Db, iterate, iterate_lem, get-put as db_get-put, get-delete as db_get-delete}
  open B use {ser_id, bytes_eq-ser_id}
  open C use {serialize, deserialize, deserialize-serialize}

  -- A value that does not parse makes the source panic at `unwrap`, and is read as absent here;
  -- `ParsesAll` says that there is none.
  unfoldable pub db_get : Db → ℕ → Option (BacklogOrder TOrd)
  db_get d i = elim (R.get d (ser_id i)) [ none ↦ none | some v ↦ deserialize v ]

  unfoldable pub db_put : Db → BacklogOrder TOrd → Db
  db_put d ord = R.put d (ser_id (O.get_self_ref ord.order)) (serialize ord)

  unfoldable pub db_exists : Db → ℕ → Bool
  db_exists d i = is_some (R.get d (ser_id i))

  unfoldable pub db_remove : Db → ℕ → Db
  db_remove d i = R.delete d (ser_id i)

  -- the `filter_map` over the iterator
  unfoldable pub collect_orders : (TOrd → Bool) → List (Bytes × Bytes) → List (BacklogOrder TOrd)
  collect_orders f [] = []
  collect_orders f ((k, v) ∷ entries) =
      let others = collect_orders f entries in
      elim (deserialize v) [ none ↦ others | some b ↦ if f b.order then b ∷ others else others ]

  unfoldable pub db_find_orders : Db → (TOrd → Bool) → List (BacklogOrder TOrd)
  unfolding collect_orders
  db_find_orders d f = collect_orders f (iterate d [])

  -- Every value parses, and stands at the key of the order that it holds.
  abbrev pub ParsesAll : Db → Type 0
  ParsesAll d =
      (k v : Bytes)
      → R.get d k ≡ some v
      → (b : BacklogOrder TOrd) × (deserialize v ≡ some b) × (k ≡ ser_id (O.get_self_ref b.order))

  ser_id-injective : (i j : ℕ) → ser_id i ≡ ser_id j → i ≡ j
  ser_id-injective i j e =
      (==_iff i j).0 (sym (bytes_eq-ser_id i j) ∙ (bytes_eq_iff (ser_id i) (ser_id j)).1 e)

  pub db_put-ParsesAll : (d : Db) (b : BacklogOrder TOrd) → ParsesAll d → ParsesAll (db_put d b)
  unfolding db_put
  db_put-ParsesAll d b h k v e =
      let key = ser_id (O.get_self_ref b.order) in
      let read = db_get-put d key (serialize b) k in
      elim (Bool-cases (bytes_eq key k)) [
        | inl same ↦
            (b, ground (arith, read, deserialize-serialize b), sym ((bytes_eq_iff key k).0 same))
        | inr other ↦ h k v (ground (arith, read))
      ]

  pub db_remove-ParsesAll : (d : Db) (i : ℕ) → ParsesAll d → ParsesAll (db_remove d i)
  unfolding db_remove
  db_remove-ParsesAll d i h k v e = h k v (ground (arith, db_get-delete d (ser_id i) k))

  pub db_get-db_put :
      (d : Db) (b : BacklogOrder TOrd) (i : ℕ)
      → db_get (db_put d b) i ≡ (if O.get_self_ref b.order == i then some b else db_get d i)
  unfolding db_get db_put
  db_get-db_put d b i =
      let j = O.get_self_ref b.order in
      ground (
        arith,
        db_get-put d (ser_id j) (serialize b) (ser_id i),
        bytes_eq-ser_id j i,
        deserialize-serialize b,
      )

  pub db_get-db_remove :
      (d : Db) (i j : ℕ) → db_get (db_remove d i) j ≡ (if i == j then none else db_get d j)
  unfolding db_get db_remove
  db_get-db_remove d i j =
      ground (arith, db_get-delete d (ser_id i) (ser_id j), bytes_eq-ser_id i j)

  pub db_exists_lem : (d : Db) (i : ℕ) → ParsesAll d → db_exists d i ≡ is_some (db_get d i)
  unfolding db_get db_exists
  db_exists_lem d i h = elim (Option-cases (R.get d (ser_id i))) [
    | inl e ↦ ground (arith, e)
    | inr (v, e) ↦ let (b, parsed, _) = h (ser_id i) v e in ground (arith, e, parsed)
  ]

  db_get_inv :
      (d : Db) (i : ℕ) (b : BacklogOrder TOrd)
      → db_get d i ≡ some b
      → (v : Bytes) × (R.get d (ser_id i) ≡ some v) × (deserialize v ≡ some b)
  unfolding db_get
  db_get_inv d i b e = ground arith

  pub db_get_self_ref :
      (d : Db) (i : ℕ) (b : BacklogOrder TOrd)
      → ParsesAll d
      → db_get d i ≡ some b
      → O.get_self_ref b.order ≡ i
  db_get_self_ref d i b h e =
      let (v, stored, parsed) = db_get_inv d i b e in
      let (b', parsed', at) = h (ser_id i) v stored in
      let same : b ≡ b' = ground (arith, parsed, parsed') in sym (ser_id-injective i _ (rw same at))

  collect_orders_complete :
      (f : TOrd → Bool) (k v : Bytes) (b : BacklogOrder TOrd) (entries : List (Bytes × Bytes))
      → deserialize v ≡ some b
      → f b.order ≡ true
      → Elem (k, v) entries
      → Elem b (collect_orders f entries)
  unfolding collect_orders
  collect_orders_complete f k v b [] p h m = absurd m
  collect_orders_complete f k v b ((j, w) ∷ entries) p h (inl e) = ground arith
  collect_orders_complete f k v b ((j, w) ∷ entries) p h (inr m) =
      ground (arith, collect_orders_complete f k v b entries p h m)

  collect_orders_step :
      (f : TOrd → Bool) (b : BacklogOrder TOrd) (k v : Bytes) (entries : List (Bytes × Bytes))
      → Elem b (collect_orders f ((k, v) ∷ entries))
      → ((deserialize v ≡ some b) × (f b.order ≡ true)) ⊎ Elem b (collect_orders f entries)
  unfolding collect_orders
  collect_orders_step f b k v entries m = ground arith

  collect_orders_sound :
      (f : TOrd → Bool) (b : BacklogOrder TOrd) (entries : List (Bytes × Bytes))
      → Elem b (collect_orders f entries)
      → (k v : Bytes) × Elem (k, v) entries × (deserialize v ≡ some b) × (f b.order ≡ true)
  unfolding collect_orders
  collect_orders_sound f b [] m = absurd m
  collect_orders_sound f b ((k, v) ∷ entries) m = elim (collect_orders_step f b k v entries m) [
    | inl (p, h) ↦ (k, v, inl refl, p, h)
    | inr rest ↦
        let (j, w, at, p, h) = collect_orders_sound f b entries rest in (j, w, inr at, p, h)
  ]

  pub db_find_complete :
      (d : Db) (f : TOrd → Bool) (i : ℕ) (b : BacklogOrder TOrd)
      → db_get d i ≡ some b
      → f b.order ≡ true
      → Elem b (db_find_orders d f)
  unfolding db_find_orders starts_with
  db_find_complete d f i b e h =
      let (v, stored, parsed) = db_get_inv d i b e in
      collect_orders_complete f (ser_id i) v b (iterate d []) parsed h
        ((iterate_lem d [] (ser_id i) v).1 (stored, refl))

  pub db_find_sound :
      (d : Db) (f : TOrd → Bool) (b : BacklogOrder TOrd)
      → ParsesAll d
      → Elem b (db_find_orders d f)
      → (db_get d (O.get_self_ref b.order) ≡ some b) × (f b.order ≡ true)
  unfolding db_find_orders db_get
  db_find_sound d f b h m =
      let (k, v, at, parsed, holds) = collect_orders_sound f b (iterate d []) m in
      let (stored, _) = (iterate_lem d [] k v).0 at in
      let (b', parsed', key) = h k v stored in
      let same : b' ≡ b = ground (arith, parsed, parsed') in
      let read : R.get d (ser_id (O.get_self_ref b.order)) ≡ some v = rw (← same, ← key) stored in
      (ground (arith, read, parsed), holds)

  -- `impl BacklogStore for BacklogStoreRocksDB`
  abbrev pub BacklogStoreRocksDb : BacklogStore O
  BacklogStoreRocksDb = record {
    Store = Db;
    IsWf = ParsesAll;
    put = db_put;
    exists = db_exists;
    remove = db_remove;
    get = db_get;
    find_orders = db_find_orders;
    put-IsWf = db_put-ParsesAll;
    remove-IsWf = db_remove-ParsesAll;
    get-put = db_get-db_put;
    get-remove = db_get-db_remove;
    exists_lem = db_exists_lem;
    get_self_ref-get = db_get_self_ref;
    find_complete = db_find_complete;
    find_sound = db_find_sound;
  }
