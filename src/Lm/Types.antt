-- ===== src/Lm/Types.antt =====
-- spectrum-offchain-lm/src/ergo.rs and data/{order, bundle, redeemer, executor, miner, context}.rs,
-- and spectrum-offchain/src/domain.rs: amounts, and the boxes that a pool takes and makes. Tokens,
-- boxes and scripts have identifiers, which the code copies and compares and nothing else.
use spectrum_offchain_ergo.Prelude.{ℕ, ◌+◌, ◌-◌, ◌%◌, ◌^◌, Option}
use spectrum_offchain_ergo.Storage.{Bytes}

-- u64 arithmetic, which wraps; a difference is of numbers below 2^64
abbrev pub wrap : ℕ → ℕ
wrap n = n % 2 ^ 64

abbrev pub sub_wrap : ℕ → ℕ → ℕ
sub_wrap a b = (a + (2 ^ 64 - b)) % 2 ^ 64

-- `TypedAssetAmount`
pub record TypedAssetAmount : Type 0 where
  pub token_id : ℕ
  pub amount : ℕ

unfoldable pub add : TypedAssetAmount → TypedAssetAmount → TypedAssetAmount
add a b = record { token_id = a.token_id; amount = wrap (a.amount + b.amount) }

unfoldable pub sub : TypedAssetAmount → TypedAssetAmount → TypedAssetAmount
sub a b = record { token_id = a.token_id; amount = sub_wrap a.amount b.amount }

-- `NanoErg::safe_sub`
abbrev pub safe_sub : ℕ → ℕ → ℕ
safe_sub a b = a - b

abbrev pub max_value : ℕ
max_value = 9223372036854775807

abbrev pub min_safe_box_value : ℕ
min_safe_box_value = 250000

abbrev pub min_safe_fat_box_value : ℕ
min_safe_fat_box_value = 522000

abbrev pub default_miner_fee : ℕ
default_miner_fee = 1000000

-- `BUNDLE_KEY_AMOUNT_USER`, one less than `MAX_VALUE`
abbrev pub bundle_key_amount_user : ℕ
bundle_key_amount_user = 9223372036854775806

-- a box, of which the code uses the identifier and the height, and what was read from it
pub record AsBox (T : Type 0) : Type 0 where
  pub box_id : ℕ
  pub creation_height : ℕ
  pub entity : T

-- `AsBox::map`
abbrev pub map_box : {T U : Type 0} → (T → U) → AsBox T → AsBox U
map_box f b = record { box_id = b.box_id; creation_height = b.creation_height; entity = f b.entity }

pub record TokenDetails : Type 0 where
  pub name : Bytes
  pub description : Bytes

pub record ExecutionContext : Type 0 where
  pub height : ℕ
  pub mintable_token_id : ℕ
  pub executor_prop : ℕ

pub record Deposit : Type 0 where
  pub order_id : ℕ
  pub pool_id : ℕ
  pub redeemer_prop : ℕ
  pub lq : TypedAssetAmount
  pub erg_value : ℕ
  pub expected_num_epochs : ℕ

pub record Redeem : Type 0 where
  pub order_id : ℕ
  pub pool_id : ℕ
  pub redeemer_prop : ℕ
  pub bundle_key : TypedAssetAmount
  pub expected_lq : TypedAssetAmount
  pub erg_value : ℕ

pub record StakingBundleProto : Type 0 where
  pub bundle_key_id : ℕ
  pub pool_id : ℕ
  pub vlq : TypedAssetAmount
  pub tmp : Option TypedAssetAmount
  pub redeemer_prop : ℕ
  pub erg_value : ℕ
  pub token_name : Bytes
  pub token_desc : Bytes

pub record StakingBundle : Type 0 where
  pub bundle_key_id : ℕ
  pub state_id : ℕ
  pub pool_id : ℕ
  pub vlq : TypedAssetAmount
  pub tmp : Option TypedAssetAmount
  pub redeemer_prop : ℕ
  pub erg_value : ℕ
  pub token_name : Bytes
  pub token_desc : Bytes

-- `StakingBundleProto::finalize`
unfoldable pub finalize : StakingBundleProto → ℕ → StakingBundle
finalize p state_id = record {
  bundle_key_id = p.bundle_key_id;
  state_id = state_id;
  pool_id = p.pool_id;
  vlq = p.vlq;
  tmp = p.tmp;
  redeemer_prop = p.redeemer_prop;
  erg_value = p.erg_value;
  token_name = p.token_name;
  token_desc = p.token_desc;
}

pub record DepositOutput : Type 0 where
  pub bundle_key : TypedAssetAmount
  pub redeemer_prop : ℕ
  pub erg_value : ℕ
  pub token_name : Bytes
  pub token_desc : Bytes

pub record RedeemOutput : Type 0 where
  pub lq : TypedAssetAmount
  pub redeemer_prop : ℕ
  pub erg_value : ℕ

pub record ExecutorOutput : Type 0 where
  pub executor_prop : ℕ
  pub erg_value : ℕ

pub record MinerOutput : Type 0 where
  pub erg_value : ℕ
