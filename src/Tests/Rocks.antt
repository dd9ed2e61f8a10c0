-- ===== src/Tests/Rocks.antt =====
-- A key-value store and an encoding in memory, which meet the laws that Storage assumes.
use spectrum_offchain_ergo.Prelude.{
  ℕ, ◌≡◌, refl, ap, inl, inr, true, false, ◌&&◌, Option, none, some, List, [], ◌∷◌, ◌++◌, arith,
  ◌==◌, ==_iff, if◌then◌else◌, is_some, bytes_eq, bytes_eq_iff, Elem, length, Bool-cases,
}
use spectrum_offchain_ergo.Prelude.Int.{ℤ, pos, negsuc}
use spectrum_offchain_ergo.Storage.{Bytes, RocksDb, Bincode, starts_with}

abbrev pub Pairs : Type 0
Pairs = List (Bytes × Bytes)

unfoldable pub get : Pairs → Bytes → Option Bytes
get [] j = none
get ((k, v) ∷ d) j = if bytes_eq k j then some v else get d j

unfoldable pub delete : Pairs → Bytes → Pairs
delete [] j = []
delete ((k, v) ∷ d) j = if bytes_eq k j then delete d j else (k, v) ∷ delete d j

unfoldable pub put : Pairs → Bytes → Bytes → Pairs
put d k v = (k, v) ∷ d

-- The entries that `get` reads, at the keys with the prefix.
unfoldable pub iterate : Pairs → Bytes → Pairs
iterate [] p = []
iterate ((k, v) ∷ d) p =
    if starts_with p k then (k, v) ∷ delete (iterate d p) k else delete (iterate d p) k

pub get-delete :
    (d : Pairs) (k j : Bytes) → get (delete d k) j ≡ (if bytes_eq k j then none else get d j)
unfolding get delete
get-delete [] k j = ground arith
get-delete ((i, v) ∷ d) k j =
    ground (arith, get-delete d k j, bytes_eq_iff i k, bytes_eq_iff i j, bytes_eq_iff k j)

pub get-put :
    (d : Pairs) (k v j : Bytes) → get (put d k v) j ≡ (if bytes_eq k j then some v else get d j)
unfolding get put
get-put d k v j = refl

Elem-delete :
    (d : Pairs) (k j v : Bytes) → Elem (j, v) (delete d k) → Elem (j, v) d × (bytes_eq k j ≡ false)
unfolding delete
Elem-delete [] k j v m = absurd m
Elem-delete ((i, w) ∷ d) k j v m =
    ground (arith, Elem-delete d k j v, bytes_eq_iff i k, bytes_eq_iff i j, bytes_eq_iff k j)

Elem-delete_keep :
    (d : Pairs) (k j v : Bytes) → Elem (j, v) d → bytes_eq k j ≡ false → Elem (j, v) (delete d k)
unfolding delete
Elem-delete_keep [] k j v m h = absurd m
Elem-delete_keep ((i, w) ∷ d) k j v (inl e) h =
    ground (arith, bytes_eq_iff i k, bytes_eq_iff i j, bytes_eq_iff k j)
Elem-delete_keep ((i, w) ∷ d) k j v (inr m) h = ground (arith, Elem-delete_keep d k j v m h)

pub iterate_sound :
    (d : Pairs) (p k v : Bytes)
    → Elem (k, v) (iterate d p)
    → (get d k ≡ some v) × (starts_with p k ≡ true)
unfolding iterate get
iterate_sound [] p k v m = absurd m
iterate_sound ((j, w) ∷ d) p k v m =
    ground (arith, iterate_sound d p k v, Elem-delete (iterate d p) j k v, bytes_eq_iff j k)

pub iterate_complete :
    (d : Pairs) (p k v : Bytes)
    → get d k ≡ some v
    → starts_with p k ≡ true
    → Elem (k, v) (iterate d p)
unfolding iterate get
iterate_complete [] p k v e h = absurd (ground (arith, e))
iterate_complete ((j, w) ∷ d) p k v e h =
    ground (arith, iterate_complete d p k v, Elem-delete_keep (iterate d p) j k v, bytes_eq_iff j k)

pub get-some : (d : Pairs) (k v : Bytes) → get d k ≡ some v → is_some (get d k) ≡ true
get-some d k v e = rw e

abbrev pub memory : RocksDb
memory = record {
  Db = Pairs;
  empty = [];
  get = get;
  put = put;
  delete = delete;
  key_may_exist = λ d k. is_some (get d k);
  key_may_exist_lem = get-some;
  iterate = iterate;
  get-put = get-put;
  get-delete = get-delete;
  iterate_lem = λ d p k v. (iterate_sound d p k v, λ h. iterate_complete d p k v h.0 h.1);
}

-- A string is written with its length in front, an identifier as one digit.
unfoldable pub ser_str : Bytes → Bytes
ser_str s = length s ∷ s

unfoldable pub ser_i64 : ℤ → Bytes
ser_i64 (pos n) = 0 ∷ n ∷ []
ser_i64 (negsuc n) = 1 ∷ n ∷ []

unfoldable pub de_i64 : Bytes → Option ℤ
de_i64 (t ∷ n ∷ []) = if t == 0 then some (pos n) else some (negsuc n)
de_i64 _ = none

unfoldable pub de_id : Bytes → Option ℕ
de_id (n ∷ []) = some n
de_id _ = none

pub same_length :
    (s t a b : Bytes)
    → length s ≡ length t
    → bytes_eq (s ++ a) (t ++ b) ≡ (bytes_eq s t && bytes_eq a b)
unfolding bytes_eq
same_length [] [] a b h = refl
same_length [] (y ∷ t) a b h = absurd (omega arith)
same_length (x ∷ s) [] a b h = absurd (omega arith)
same_length (x ∷ s) (y ∷ t) a b h = ground (arith, same_length s t a b (omega arith))

pub bytes_eq-length : (s t : Bytes) → bytes_eq s t ≡ true → length s ≡ length t
bytes_eq-length s t h = ap length ((bytes_eq_iff s t).0 h)

pub ser_str-append :
    (s t a b : Bytes) → bytes_eq (ser_str s ++ a) (ser_str t ++ b) ≡ (bytes_eq s t && bytes_eq a b)
unfolding ser_str bytes_eq
ser_str-append s t a b = elim (Bool-cases (length s == length t)) [
  | inl e ↦ rw e (same_length s t a b ((==_iff _ _).0 e))
  | inr ne ↦ ground (arith, ne, bytes_eq-length s t)
]

pub bytes_eq-ser_id : (i j : ℕ) → bytes_eq (i ∷ []) (j ∷ []) ≡ (i == j)
unfolding bytes_eq
bytes_eq-ser_id i j = ground arith

pub de_i64-ser_i64 : (t : ℤ) → de_i64 (ser_i64 t) ≡ some t
unfolding de_i64 ser_i64
de_i64-ser_i64 (pos n) = refl
de_i64-ser_i64 (negsuc n) = refl

pub de_id-ser_id : (i : ℕ) → de_id (i ∷ []) ≡ some i
unfolding de_id
de_id-ser_id i = refl

abbrev pub digits : Bincode
digits = record {
  ser_str = ser_str;
  ser_id = λ i. i ∷ [];
  de_id = de_id;
  ser_i64 = ser_i64;
  de_i64 = de_i64;
  ser_str-append = ser_str-append;
  bytes_eq-ser_id = bytes_eq-ser_id;
  de_id-ser_id = de_id-ser_id;
  de_i64-ser_i64 = de_i64-ser_i64;
}
