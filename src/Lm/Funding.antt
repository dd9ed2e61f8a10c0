-- ===== src/Lm/Funding.antt =====
-- funding.rs, funding/process.rs and data/funding.rs of spectrum-offchain-lm/src: the repository of
-- the boxes that pay for distributions, in RocksDB.
use spectrum_offchain_ergo.Prelude.{
  ℕ, ◌+◌, ◌≡◌, Bool, ◌&&◌, none, some, List, [], ◌∷◌, ◌++◌, ◌==◌, leb, if◌then◌else◌, bytes_eq,
}
use spectrum_offchain_ergo.Storage.{Bytes, RocksDb, Bincode, Codec, codes, prefixed_key}
use spectrum_offchain_ergo.Lm.Types.{wrap, sub_wrap, max_value, AsBox}
pub mod Collect
pub mod Double

pub record DistributionFunding : Type 0 where
  pub id : ℕ
  pub prop : ℕ
  pub erg_value : ℕ

pub data FundingUpdate : Type 0 where
  funding_created : AsBox DistributionFunding → FundingUpdate
  funding_eliminated : ℕ → FundingUpdate

-- What `bincode` says of a usize and a u64: eight bytes each.
pub record FixedInts : Type 0 where
  pub ser_u64 : ℕ → Bytes
  pub ser_u64-append :
      (n m : ℕ) (a b : Bytes)
      → bytes_eq (ser_u64 n ++ a) (ser_u64 m ++ b) ≡ ((n == m) && bytes_eq a b)

abbrev pub funding_key_prefix : Bytes
funding_key_prefix = codes "funding"

abbrev pub funding_key_index_prefix : Bytes
funding_key_index_prefix = codes "funding_index"

abbrev pub confirmed_priority : ℕ
confirmed_priority = 0

abbrev pub predicted_priority : ℕ
predicted_priority = 5

abbrev pub selected_priority : ℕ
selected_priority = 10

-- what `collect` comes to: `Ok`, `Err`, or the panic of `unwrap` when nothing is collected for a
-- target of zero
pub data Collected : Type 0 where
  ok : List (AsBox DistributionFunding) → Collected
  err : Collected
  panicked : Collected

module _ (R : RocksDb) (B : Bincode) (F : FixedInts) (C : Codec (AsBox DistributionFunding)) where
  open R use {Db, get, put, delete, key_may_exist, iterate}
  open B use {ser_str, ser_id}
  open F use {ser_u64}
  open C use {serialize, deserialize}

  unfoldable pub funding_key : Bytes → ℕ → ℕ → ℕ → Bytes
  funding_key prefix seq_num value id =
      ser_str prefix ++ (ser_u64 seq_num ++ (ser_u64 (sub_wrap max_value value) ++ ser_id id))

  -- the two writes of `put_confirmed` and `put_predicted`, which differ in the priority
  unfoldable pub put_funding : ℕ → Db → AsBox DistributionFunding → Db
  put_funding priority db df =
      let key = funding_key funding_key_prefix priority df.entity.erg_value df.entity.id in
      put (put db key (serialize df)) (prefixed_key B funding_key_index_prefix df.entity.id) key

  unfoldable pub put_confirmed : Db → AsBox DistributionFunding → Db
  put_confirmed db df = put_funding confirmed_priority db df

  unfoldable pub put_predicted : Db → AsBox DistributionFunding → Db
  put_predicted db df = put_funding predicted_priority db df

  unfoldable pub may_exist : Db → ℕ → Bool
  may_exist db fid = key_may_exist db (prefixed_key B funding_key_index_prefix fid)

  unfoldable pub remove : Db → ℕ → Db
  remove db fid =
      let index_key = prefixed_key B funding_key_index_prefix fid in
      elim (get db index_key) [ none ↦ db | some key ↦ delete (delete db index_key) key ]

  -- a box that is collected moves to the entries selected before
  unfoldable pub select_funding : Db → Bytes → Bytes → DistributionFunding → Db
  select_funding db key bytes df =
      let new_key = funding_key funding_key_prefix selected_priority df.erg_value df.id in
      put (put (delete db key) new_key bytes) (prefixed_key B funding_key_index_prefix df.id)
        new_key

  -- the loop of `collect`, over the entries of the iterator; a sum of u64 wraps
  unfoldable pub collect_loop :
      ℕ
      → List (Bytes × Bytes)
      → ℕ
      → List (AsBox DistributionFunding)
      → Db
      → ℕ × List (AsBox DistributionFunding) × Db
  collect_loop target [] acc funds db = (acc, funds, db)
  collect_loop target ((key, bytes) ∷ entries) acc funds db =
      let skip = collect_loop target entries acc funds db in
      let take = λ (df : AsBox DistributionFunding).
        collect_loop target entries (wrap (acc + df.entity.erg_value)) (funds ++ (df ∷ []))
          (select_funding db key bytes df.entity) in
      if leb target acc
      then (acc, funds, db)
      else elim (deserialize bytes) [ none ↦ skip | some df ↦ take df ]

  unfoldable pub non_empty : List (AsBox DistributionFunding) → Collected
  non_empty [] = panicked
  non_empty (f ∷ funds) = ok (f ∷ funds)

  unfoldable pub collect : Db → ℕ → Collected × Db
  unfolding collect_loop non_empty
  collect db target =
      let (acc, funds, db') =
        collect_loop target (iterate db (ser_str funding_key_prefix)) 0 [] db in
      (if leb target acc then non_empty funds else err, db')

  -- the body of `funding_update_stream`
  unfoldable pub funding_update : Db → FundingUpdate → Db
  funding_update db (funding_created funding) = put_confirmed db funding
  funding_update db (funding_eliminated fid) = remove db fid
