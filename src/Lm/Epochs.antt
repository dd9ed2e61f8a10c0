-- ===== src/Lm/Epochs.antt =====
-- The epochs of spectrum-offchain-lm/src: `current_epoch_ix` of data/pool.rs, and the schedule of
-- scheduler/data.rs.
use native.Mathlib.Nat.{
  mod-lt, div-add-mod', div-le_self, suc-mul, mul_comm, mul-le-mul_right, mul-lt-mul_of_pos_right,
}
use spectrum_offchain_ergo.Prelude.{
  ℕ, suc, ◌+◌, ◌-◌, ◌*◌, ◌/◌, ◌%◌, ◌^◌, ◌≤◌, ◌<◌, ◌≡◌, refl, ap, ◌⊎◌, inl, inr, ◌↔◌, true, false,
  ◌&&◌, Option, none, some, arith, ltb, leb, ◌==◌, ==_iff, if◌then◌else◌, Bool-cases,
}
use spectrum_offchain_ergo.Lm.Pool.{Pool, current_epoch_ix}

-- the number of epochs that blocks come to, rounded up
unfoldable epochs_of : ℕ → ℕ → ℕ
epochs_of r rem =
    if (rem == 0) && (r == 0) then 0 else if ltb 0 rem then (r + 1) % 2 ^ 32 else r % 2 ^ 32

epochs_of_part : (r rem : ℕ) → 0 < rem → r + 1 < 2 ^ 32 → epochs_of r rem ≡ suc r
unfolding epochs_of
epochs_of_part r rem some_rem small = ground (arith, some_rem, small)

epochs_of_whole : (r rem : ℕ) → rem ≡ 0 → r + 1 < 2 ^ 32 → epochs_of r rem ≡ r
unfolding epochs_of
epochs_of_whole r rem none_rem small = ground (arith, none_rem, small)

epochs_of_lem :
    (block len r rem : ℕ)
    → r * len + rem ≡ block
    → rem < len
    → r + 1 < 2 ^ 32
    → (block ≤ epochs_of r rem * len) × (epochs_of r rem * len < block + len)
epochs_of_lem block len r rem e lt small = elim (Bool-cases (rem == 0)) [
  | inl t ↦
      let z = (==_iff rem 0).0 t in
      rw (epochs_of_whole r rem z small) (omega (arith, e, z, lt), omega (arith, e, z, lt))
  | inr f ↦
      let up : suc r * len ≡ r * len + len = suc-mul r len in
      let pos : 0 < rem = ground (arith, f) in
      rw (epochs_of_part r rem pos small, up) (omega (arith, e, pos, lt), omega (arith, e, pos, lt))
]

-- From the start of the program on, while heights fit in 32 bits and epochs have a length,
-- `current_epoch_ix` is the number of epochs that the blocks so far come to, rounded up: they fill
-- no more than that many epochs, and more than one less.
pub current_epoch_ix_lem :
    (self : Pool) (height : ℕ)
    → 0 < self.conf.epoch_len
    → self.conf.program_start ≤ height + 1
    → height + 2 < 2 ^ 32
    → let blocks = (height + 1) - self.conf.program_start in
      (ix : ℕ) × (current_epoch_ix self height ≡ some ix)
      × (blocks ≤ ix * self.conf.epoch_len)
      × (ix * self.conf.epoch_len < blocks + self.conf.epoch_len)
unfolding current_epoch_ix epochs_of
current_epoch_ix_lem self height pos started small =
    let len = self.conf.epoch_len in
    let blocks = (height + 1) - self.conf.program_start in
    let bound : blocks / len + 1 < 2 ^ 32 = omega (arith, div-le_self blocks len, small) in
    let (lo, hi) =
      epochs_of_lem blocks len (blocks / len) (blocks % len) (div-add-mod' blocks len)
        (mod-lt blocks pos) bound in
    (epochs_of (blocks / len) (blocks % len), ground (arith, pos, started), lo, hi)

yes : (a b : ℕ) → a ≤ b → leb a b ≡ true
yes a b h = ground (arith, h)

no : (a b : ℕ) → b < a → leb a b ≡ false
no a b h = ground (arith, h)

-- `PoolSchedule`
pub record PoolSchedule : Type 0 where
  pub pool_id : ℕ
  pub epoch_len : ℕ
  pub epoch_num : ℕ
  pub program_start : ℕ
  pub last_completed_epoch_ix : ℕ

pub record Tick : Type 0 where
  pub pool_id : ℕ
  pub epoch_ix : ℕ
  pub height : ℕ

module _ (self : PoolSchedule) where
  -- u32 arithmetic wraps
  unfoldable pub schedule_end : ℕ
  schedule_end = (self.program_start + (self.epoch_len * self.epoch_num) % 2 ^ 32) % 2 ^ 32

  unfoldable pub next_compounding_at : Option ℕ
  unfolding schedule_end
  next_compounding_at =
      let next_epoch_start =
        ((self.program_start + (self.last_completed_epoch_ix * self.epoch_len) % 2 ^ 32) % 2 ^ 32
          + self.epoch_len)
        % 2 ^ 32 in
      if leb next_epoch_start schedule_end then some next_epoch_start else none

  -- `Tick::try_from`
  unfoldable pub try_from_schedule : Option Tick
  unfolding next_compounding_at
  try_from_schedule = elim next_compounding_at [
    | none ↦ none
    | some h ↦ some (record {
      pool_id = self.pool_id;
      epoch_ix = (self.last_completed_epoch_ix + 1) % 2 ^ 32;
      height = h;
    })
  ]

  products_le :
      0 < self.epoch_len
      → (suc self.last_completed_epoch_ix * self.epoch_len ≤ self.epoch_num * self.epoch_len)
        ↔ (self.last_completed_epoch_ix < self.epoch_num)
  products_le pos = (
    (λ h. elim (Bool-cases (ltb self.last_completed_epoch_ix self.epoch_num)) [
      | inl t ↦ ground (arith, t)
      | inr f ↦
          let over : self.epoch_num < suc self.last_completed_epoch_ix = ground (arith, f) in
          absurd (omega (arith, h, mul-lt-mul_of_pos_right over pos))
    ]),
    (λ lt. mul-le-mul_right self.epoch_len lt),
  )

  -- While the schedule's heights fit in 32 bits and its epochs have a length, there is a next tick
  -- just when an epoch is left; it is for the epoch after the last completed one, at the height
  -- where that ends, and not past the end of the program.
  pub try_from_schedule_lem :
      0 < self.epoch_len
      → self.program_start + suc self.epoch_num * self.epoch_len < 2 ^ 32
      → self.last_completed_epoch_ix ≤ self.epoch_num
      → self.epoch_num + 1 < 2 ^ 32
      → ((self.last_completed_epoch_ix < self.epoch_num)
          × (try_from_schedule
              ≡ some (record {
                pool_id = self.pool_id;
                epoch_ix = suc self.last_completed_epoch_ix;
                height = self.program_start + suc self.last_completed_epoch_ix * self.epoch_len;
              }))
          × (self.program_start + suc self.last_completed_epoch_ix * self.epoch_len ≤ schedule_end))
        ⊎ ((self.last_completed_epoch_ix ≡ self.epoch_num) × (try_from_schedule ≡ none))
  unfolding try_from_schedule schedule_end next_compounding_at
  try_from_schedule_lem pos room last small =
      let l = self.last_completed_epoch_ix in
      let n = self.epoch_num in
      let len = self.epoch_len in
      let up : suc l * len ≡ l * len + len = suc-mul l len in
      let upn : suc n * len ≡ n * len + len = suc-mul n len in
      let le : l * len ≤ n * len = mul-le-mul_right len last in
      let swapped : len * n ≡ n * len = mul_comm len n in
      let next : ((self.program_start + (l * len) % 2 ^ 32) % 2 ^ 32 + len) % 2 ^ 32
          ≡ self.program_start + suc l * len =
        omega (arith, up, upn, le, room) in
      let end : (self.program_start + (len * n) % 2 ^ 32) % 2 ^ 32 ≡ self.program_start + n * len =
        omega (arith, upn, swapped, room) in
      let ix : (l + 1) % 2 ^ 32 ≡ suc l = omega (arith, last, small) in
      let (fwd, back) = products_le pos in
      elim (Bool-cases (ltb l n)) [
        | inl t ↦
            let lt : l < n = ground (arith, t) in
            let inside : self.program_start + suc l * len ≤ self.program_start + n * len =
              omega (arith, back lt) in
            inl (
              lt,
              rw
                  (
                    try_from_schedule,
                    next_compounding_at,
                    next,
                    schedule_end,
                    end,
                    yes _ _ inside,
                    ix,
                  )
                  refl,
              rw end inside,
            )
        | inr f ↦
            let same : l ≡ n = ground (arith, f, last) in
            let past : self.program_start + n * len < self.program_start + suc l * len =
              omega (arith, up, ap (λ k. k * len) same, pos) in
            inr (
              same,
              rw (try_from_schedule, next_compounding_at, next, schedule_end, end, no _ _ past)
                  refl,
            )
      ]
