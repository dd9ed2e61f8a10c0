-- ===== src/Lm/Progress.antt =====
-- How far a program has come: `epochs_left_to_process` of data/pool.rs and `From<Pool> for
-- PoolSchedule` of scheduler/data.rs in spectrum-offchain-lm/src.
use native.Mathlib.Nat.{
  mod-lt, mul-lt-mul_of_pos_right, suc-mul, div-lt_iff_lt-mul, div-add-mod', mul-le-mul_right,
  mul_comm,
}
use spectrum_offchain_ergo.Prelude.{
  ℕ, zero, suc, ◌+◌, ◌-◌, ◌*◌, ◌/◌, ◌%◌, ◌^◌, ◌≤◌, ◌<◌, ◌≡◌, refl, sym, ap, ◌∙◌, inl, inr, false,
  Option, none, some, arith, ltb, leb, ◌==◌, ==_iff, if◌then◌else◌, Bool-cases,
}
use spectrum_offchain_ergo.Lm.Pool.{Pool, shift, round_to, as_f64, epoch_alloc}
use spectrum_offchain_ergo.Lm.Epochs.{PoolSchedule}

-- the greatest power of two up to a number below 2^32
unfoldable pub top_bit : ℕ → ℕ → ℕ
top_bit zero n = 1
top_bit (suc fuel) n = let half = top_bit fuel (n / 2) in if ltb n 2 then 1 else 2 * half

-- `(a / b).ceil() as u32` of two whole f64: the quotient is rounded to 53 bits, the cast saturates,
-- and the quotient of zeros is not a number, which the cast makes 0.
unfoldable pub ceil_quotient : ℕ → ℕ → ℕ
unfolding top_bit
ceil_quotient a b =
    let n = a / b in
    let r = a % b in
    if b == 0
    then (if a == 0 then 0 else 2 ^ 32 - 1)
    else if leb (2 ^ 32 - 1) n
    then 2 ^ 32 - 1
    else if r == 0
    then n
    else if n == 0
    then 1
    else if leb (r * 2 ^ 53) (b * top_bit 32 n)
    then n
    else suc n

-- `none` where the division by the number of epochs panics
unfoldable pub epochs_left_to_process : Pool → Option ℕ
unfolding epoch_alloc as_f64 ceil_quotient
epochs_left_to_process self = elim (epoch_alloc self) [
  | none ↦ none
  | some alloc ↦ some (
      ceil_quotient (as_f64 (self.budget_rem.amount - self.conf.max_rounding_error)) (as_f64 alloc))
]

-- `PoolSchedule::from`; u32 wraps
unfoldable pub schedule_of : Pool → Option PoolSchedule
unfolding epochs_left_to_process
schedule_of pool = elim (epochs_left_to_process pool) [
  | none ↦ none
  | some epochs_left ↦ some (record {
    pool_id = pool.pool_id;
    epoch_len = pool.conf.epoch_len;
    epoch_num = pool.conf.epoch_num;
    program_start = pool.conf.program_start;
    last_completed_epoch_ix = (pool.conf.epoch_num + (2 ^ 32 - epochs_left)) % 2 ^ 32;
  })
]

top_bit-le : (fuel n : ℕ) → 0 < n → top_bit fuel n ≤ n
unfolding top_bit
top_bit-le zero n pos = omega (arith, pos)
top_bit-le (suc fuel) n pos = elim (Bool-cases (ltb n 2)) [
  | inl t ↦ rw t (omega (arith, pos))
  | inr f ↦
      let two : 2 ≤ n = ground (arith, f) in
      rw f (omega (arith, top_bit-le fuel (n / 2) (omega (arith, two))))
]

as_f64_small : (n : ℕ) → n < 2 ^ 53 → as_f64 n ≡ n
unfolding as_f64 shift round_to
as_f64_small n h = ground (arith, h)

-- the value, where the quotient is below the bound of the cast and not rounded down to a whole one
ceil_quotient_value :
    (a b : ℕ)
    → (b == 0) ≡ false
    → leb (2 ^ 32 - 1) (a / b) ≡ false
    → ((a % b == 0) ≡ false
        → (a / b == 0) ≡ false
        → leb (a % b * 2 ^ 53) (b * top_bit 32 (a / b)) ≡ false)
    → ceil_quotient a b ≡ (if a % b == 0 then a / b else suc (a / b))
unfolding ceil_quotient
ceil_quotient_value a b some_b few up =
    rw (some_b, few, ceil_quotient)
      (elim (Bool-cases (a % b == 0)) [
        | inl t ↦ rw t refl
        | inr f ↦ elim (Bool-cases (a / b == 0)) [
          | inl z ↦ rw (f, z) (ap suc (sym ((==_iff (a / b) 0).0 z)))
          | inr y ↦ rw (f, y, up f y) refl
        ]
      ])

ceil_quotient_lem :
    (a b : ℕ)
    → 0 < b
    → a < 2 ^ 53
    → a < (2 ^ 32 - 1) * b
    → (a ≤ ceil_quotient a b * b) × (ceil_quotient a b * b < a + b)
ceil_quotient_lem a b pos small few =
    let n = a / b in
    let r = a % b in
    let split = div-add-mod' a b in
    let below : r < b = mod-lt a pos in
    let bounded : n < 2 ^ 32 - 1 = (div-lt_iff_lt-mul pos).1 few in
    let up : (r == 0) ≡ false → (n == 0) ≡ false → leb (r * 2 ^ 53) (b * top_bit 32 n) ≡ false =
      λ f y.
        let some_left : 0 < r = ground (arith, f) in
        let some_whole : 0 < n = ground (arith, y) in
        let top : top_bit 32 n * b ≤ n * b = mul-le-mul_right b (top_bit-le 32 n some_whole) in
        let swap = mul_comm b (top_bit 32 n) in
        let over : b * top_bit 32 n < r * 2 ^ 53 =
          omega (arith, top, swap, split, small, some_left) in
        ground (arith, over) in
    let next : suc n * b ≡ n * b + b = suc-mul n b in
    let whole = ceil_quotient_value a b (ground (arith, pos)) (ground (arith, bounded)) up in
    elim (Bool-cases (r == 0)) [
      | inl t ↦
          let none_left : r ≡ 0 = (==_iff r 0).0 t in
          let value : ceil_quotient a b ≡ n = whole ∙ rw t refl in
          rw value (omega (arith, split, none_left, pos), omega (arith, split, none_left, pos))
      | inr f ↦
          let some_left : 0 < r = ground (arith, f) in
          let value : ceil_quotient a b ≡ suc n = whole ∙ rw f refl in
          rw value (omega (arith, split, next, below), omega (arith, split, next, some_left))
    ]

-- no more epochs are left than the program has
left_of_program : (n num alloc rest : ℕ) → n * alloc < rest + alloc → rest ≤ num * alloc → n ≤ num
left_of_program n num alloc rest above within = elim (Bool-cases (leb n num)) [
  | inl t ↦ ground (arith, t)
  | inr f ↦
      let more : suc num ≤ n = ground (arith, f) in
      let scaled : suc num * alloc ≤ n * alloc = mul-le-mul_right alloc more in
      absurd (omega (arith, scaled, suc-mul num alloc, above, within))
]

-- For a program whose budget and what remains of it are below 2^53, with an allocation per epoch
-- above zero, some number of epochs below 2^32 - 1, and no more left than the program pays: the
-- schedule of its pool has some number of epochs left, the least that pay out what remains beyond the rounding error, and the epochs
-- completed are the other ones.
pub schedule_of_lem :
    (pool : Pool)
    → let alloc = pool.conf.program_budget.amount / pool.conf.epoch_num in
      let rest = pool.budget_rem.amount - pool.conf.max_rounding_error in
      0 < pool.conf.epoch_num
      → pool.conf.epoch_num < 2 ^ 32 - 1
      → 0 < alloc
      → alloc < 2 ^ 53
      → rest < 2 ^ 53
      → rest ≤ pool.conf.epoch_num * alloc
      → (sc : PoolSchedule) × (left : ℕ) × (schedule_of pool ≡ some sc)
        × (rest ≤ left * alloc)
        × (left * alloc < rest + alloc)
        × (sc.last_completed_epoch_ix + left ≡ pool.conf.epoch_num)
unfolding schedule_of epochs_left_to_process epoch_alloc
schedule_of_lem pool some_epochs few_epochs pos small small_rest within =
    let num = pool.conf.epoch_num in
    let alloc = pool.conf.program_budget.amount / num in
    let rest = pool.budget_rem.amount - pool.conf.max_rounding_error in
    let left = ceil_quotient rest alloc in
    let wide : num * alloc < (2 ^ 32 - 1) * alloc = mul-lt-mul_of_pos_right few_epochs pos in
    let (covers, least) =
      ceil_quotient_lem rest alloc pos small_rest (omega (arith, wide, within)) in
    let no_more = left_of_program left num alloc rest least within in
    let not_zero : (num == 0) ≡ false = ground (arith, some_epochs) in
    let rounded : ceil_quotient (as_f64 rest) (as_f64 alloc) ≡ left =
      rw (as_f64_small rest small_rest, as_f64_small alloc small) refl in
    let sc : PoolSchedule = record {
      pool_id = pool.pool_id;
      epoch_len = pool.conf.epoch_len;
      epoch_num = num;
      program_start = pool.conf.program_start;
      last_completed_epoch_ix = (num + (2 ^ 32 - left)) % 2 ^ 32;
    } in
    (
      sc,
      left,
      rw (not_zero, schedule_of) (rw rounded refl),
      covers,
      least,
      omega (arith, no_more, few_epochs),
    )
