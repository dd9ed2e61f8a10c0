-- ===== src/Data.antt =====
-- spectrum-offchain/src/data.rs, data/order.rs, data/unique_entity.rs, combinators.rs and
-- backlog/data.rs: orders and entities on chain, and the states in which they are seen.
-- Identifiers are 32-byte digests, which the code compares and hashes and nothing else: numbers.
use spectrum_offchain_ergo.Prelude.{ℕ, Option, none, some}
use spectrum_offchain_ergo.Prelude.Int.{ℤ}

pub record OnChainOrder (TOrd : Type 0) : Type 0 where
  pub get_self_ref : TOrd → ℕ
  pub get_entity_ref : TOrd → ℕ

pub record Weighted (TOrd : Type 0) : Type 0 where
  pub weight : TOrd → ℕ

pub record OnChainEntity (TEntity : Type 0) : Type 0 where
  pub get_self_ref : TEntity → ℕ
  pub get_self_state_ref : TEntity → ℕ

-- The four order wrappers of the source have the same two fields.
pub record BacklogOrder (TOrd : Type 0) : Type 0 where
  pub order : TOrd
  pub timestamp : ℤ

pub record PendingOrder (TOrd : Type 0) : Type 0 where
  pub order : TOrd
  pub timestamp : ℤ

pub record ProgressingOrder (TOrd : Type 0) : Type 0 where
  pub order : TOrd
  pub timestamp : ℤ

pub data OrderUpdate (TOrd : Type 0) : Type 0 where
  new_order : PendingOrder TOrd → OrderUpdate TOrd
  order_eliminated : ℕ → OrderUpdate TOrd

-- `Traced<Predicted<T>>`: a predicted state with the state that it was predicted from.
pub record Traced (TEntity : Type 0) : Type 0 where
  pub state : TEntity
  pub prev_state_id : Option ℕ

pub data EitherOrBoth (A B : Type 0) : Type 0 where
  left : A → EitherOrBoth A B
  right : B → EitherOrBoth A B
  both : A → B → EitherOrBoth A B

unfoldable pub swap : {A B : Type 0} → EitherOrBoth A B → EitherOrBoth B A
swap (left a) = right a
swap (right b) = left b
swap (both a b) = both b a

-- `EitherOrBoth::try_from`
unfoldable pub try_from_pair : {A B : Type 0} → Option A → Option B → Option (EitherOrBoth A B)
try_from_pair (some l) (some r) = some (both l r)
try_from_pair (some l) none = some (left l)
try_from_pair none (some r) = some (right r)
try_from_pair none none = none

pub data StateUpdate (T : Type 0) : Type 0 where
  transition : EitherOrBoth T T → StateUpdate T
  transition_rollback : EitherOrBoth T T → StateUpdate T
