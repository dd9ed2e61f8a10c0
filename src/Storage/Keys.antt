-- ===== src/Storage/Keys.antt =====
-- The interfaces, and the keys of spectrum-offchain/src/binary.rs.
use Prim.Native.Char.{code}
use Prim.Native.String.{String}
use spectrum_offchain_ergo.Prelude.{
  ℕ, ◌≡◌, refl, ◌↔◌, Bool, true, false, ◌&&◌, Option, none, some, List, [], ◌∷◌, ◌++◌, arith, ◌==◌,
  if◌then◌else◌, bytes_eq, Elem,
}
use spectrum_offchain_ergo.Prelude.Int.{ℤ}

abbrev pub Bytes : Type 0
Bytes = List ℕ

-- The bytes of a literal in ASCII.
abbrev pub codes : String → Bytes
codes String.[] = []
codes (String.◌∷◌ c s) = code c ∷ codes s

unfoldable pub starts_with : Bytes → Bytes → Bool
starts_with [] k = true
starts_with (x ∷ p) [] = false
starts_with (x ∷ p) (y ∷ k) = (x == y) && starts_with p k

pub starts_with-append : (a b : Bytes) → starts_with a (a ++ b) ≡ true
unfolding starts_with
starts_with-append [] b = refl
starts_with-append (x ∷ a) b = ground (arith, starts_with-append a b)

pub record RocksDb : Type 1 where
  pub Db : Type 0
  pub empty : Db
  pub get : Db → Bytes → Option Bytes
  pub put : Db → Bytes → Bytes → Db
  pub delete : Db → Bytes → Db
  -- may say yes of a key that is not there
  pub key_may_exist : Db → Bytes → Bool
  -- a read-only iterator over the keys with a prefix, in the order of the keys
  pub iterate : Db → Bytes → List (Bytes × Bytes)
  pub get-put :
      (d : Db) (k v j : Bytes) → get (put d k v) j ≡ (if bytes_eq k j then some v else get d j)
  pub get-delete :
      (d : Db) (k j : Bytes) → get (delete d k) j ≡ (if bytes_eq k j then none else get d j)
  pub key_may_exist_lem : (d : Db) (k v : Bytes) → get d k ≡ some v → key_may_exist d k ≡ true
  pub iterate_lem :
      (d : Db) (p k v : Bytes)
      → Elem (k, v) (iterate d p) ↔ ((get d k ≡ some v) × (starts_with p k ≡ true))

-- Strings are written with their length in front, and identifiers at a fixed width: what follows
-- such a part can be told from it.
pub record Bincode : Type 0 where
  pub ser_str : Bytes → Bytes
  pub ser_id : ℕ → Bytes
  pub de_id : Bytes → Option ℕ
  pub ser_i64 : ℤ → Bytes
  pub de_i64 : Bytes → Option ℤ
  pub ser_str-append :
      (s t a b : Bytes)
      → bytes_eq (ser_str s ++ a) (ser_str t ++ b) ≡ (bytes_eq s t && bytes_eq a b)
  pub bytes_eq-ser_id : (i j : ℕ) → bytes_eq (ser_id i) (ser_id j) ≡ (i == j)
  pub de_id-ser_id : (i : ℕ) → de_id (ser_id i) ≡ some i
  pub de_i64-ser_i64 : (t : ℤ) → de_i64 (ser_i64 t) ≡ some t

-- How a type of values is written: `derive(Serialize, Deserialize)`.
pub record Codec (A : Type 0) : Type 0 where
  pub serialize : A → Bytes
  pub deserialize : Bytes → Option A
  pub deserialize-serialize : (a : A) → deserialize (serialize a) ≡ some a

module _ (B : Bincode) where
  open B use {ser_str, ser_id, ser_str-append, bytes_eq-ser_id}

  -- `prefixed_key`, at an identifier
  unfoldable pub prefixed_key : Bytes → ℕ → Bytes
  prefixed_key prefix id = ser_str prefix ++ ser_id id

  unfoldable pub raw_prefixed_key : Bytes → Bytes → Bytes
  raw_prefixed_key prefix bytes = ser_str prefix ++ bytes

  -- two keys are equal exactly when both the prefixes and the identifiers are
  pub bytes_eq-prefixed_key :
      (s t : Bytes) (i j : ℕ)
      → bytes_eq (prefixed_key s i) (prefixed_key t j) ≡ (bytes_eq s t && (i == j))
  unfolding prefixed_key
  bytes_eq-prefixed_key s t i j =
      ground (arith, ser_str-append s t (ser_id i) (ser_id j), bytes_eq-ser_id i j)
