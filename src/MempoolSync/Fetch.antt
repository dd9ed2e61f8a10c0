-- ===== src/MempoolSync/Fetch.antt =====
-- The loop of `sync` that fetches the memory pool page by page.
use Prim.Native.Nat.{ℕ}
use mathlib.Core.List.{◌++◌}
use spectrum_offchain_ergo.Prelude.{
  zero, suc, ◌+◌, ◌-◌, ◌*◌, ◌≤◌, ◌<◌, ◌≡◌, refl, sym, ap, ◌∙◌, inl, inr, Bool, true, false, Option,
  none, some, List, [], ◌∷◌, map, arith, ltb, if◌then◌else◌, length, append_assoc, take, drop,
  count, take-append-drop, length-take, length-drop, min, Bool-cases,
}
use spectrum_offchain_ergo.MempoolSync.State.{fetch_pool, txs_per_request}

module _ {A : Type 0} where
  drop_nil : (n : ℕ) → drop {A = A} n [] ≡ []
  drop_nil zero = refl
  drop_nil (suc n) = refl

  drop_add : (a b : ℕ) (xs : List A) → drop (a + b) xs ≡ drop b (drop a xs)
  drop_add zero b xs = ap (λ n. drop n xs) (omega arith)
  drop_add (suc a) b [] = drop_nil _ ∙ sym (drop_nil b)
  drop_add (suc a) b (x ∷ xs) =
      let n : suc a + b ≡ suc (a + b) = omega arith in rw n (drop_add a b xs)

  drop-length-take : (n : ℕ) (xs : List A) → drop (length (take n xs)) xs ≡ drop n xs
  drop-length-take zero xs = refl
  drop-length-take (suc n) [] = refl
  drop-length-take (suc n) (x ∷ xs) = drop-length-take n xs

  take_short : (n : ℕ) (xs : List A) → length (take n xs) < n → take n xs ≡ xs
  take_short zero xs h = absurd (omega (arith, h))
  take_short (suc n) [] h = refl
  take_short (suc n) (x ∷ xs) h = ap (λ ys. x ∷ ys) (take_short n xs (omega (arith, h)))

ltb_below : (n m : ℕ) → ltb n m ≡ true → n < m
ltb_below n m h = ground (arith, h)

ltb_not_below : (n m : ℕ) → ltb n m ≡ false → m ≤ n
ltb_not_below n m h = ground (arith, h)

next_enough :
    (d page rest c : ℕ)
    → page ≡ min 100 d
    → 100 ≤ page
    → rest ≡ d - 100
    → d < suc c * 100
    → rest < c * 100
next_enough d page rest c p long r enough = omega (arith, p, long, r, enough)

module _ {Tx : Type 0} (id : Tx → ℕ) (iter : List ℕ → List ℕ) where
  -- A node with a pool, which is up and serves the page at an offset, or is not and fails.
  abbrev pub answer : List Tx → Bool → ℕ → Option (List Tx)
  answer pool up offset = if up then some (take txs_per_request (drop offset pool)) else none

  fetch_rest :
      (ups : List Bool) (pool got : List Tx) (offset : ℕ)
      → got ++ drop offset pool ≡ pool
      → length (drop offset pool) < count (λ up. up) ups * txs_per_request
      → fetch_pool id iter (map (answer pool) ups) got offset ≡ some pool
  unfolding fetch_pool count
  fetch_rest [] pool got offset whole enough = absurd (omega (arith, enough))
  fetch_rest (false ∷ ups) pool got offset whole enough =
      fetch_rest ups pool got offset whole enough
  fetch_rest (true ∷ ups) pool got offset whole enough =
      let d = drop offset pool in
      let page = take txs_per_request d in
      let next : drop (offset + length page) pool ≡ drop txs_per_request d =
        drop_add offset (length page) pool ∙ drop-length-take txs_per_request d in
      let whole' : (got ++ page) ++ drop (offset + length page) pool ≡ pool =
        rw
          (next, append_assoc got page (drop txs_per_request d), take-append-drop txs_per_request d)
          whole in
      elim (Bool-cases (ltb (length page) txs_per_request)) [
        | inl short ↦
            rw short (ap some (rw (take_short txs_per_request d (ltb_below _ _ short)) whole))
        | inr long ↦ rw long (
            fetch_rest ups pool (got ++ page) (offset + length page) whole' (
              rw next (
                next_enough (length d) (length page) _ _ (length-take txs_per_request d)
                  (ltb_not_below _ _ long) (length-drop txs_per_request d) enough)))
      ]

  -- While the pool of the node does not change, the loop ends once enough requests have been
  -- answered, however many fail between, and has then fetched the whole pool.
  pub fetch_pool_lem :
      (ups : List Bool) (pool : List Tx)
      → length pool < count (λ up. up) ups * txs_per_request
      → fetch_pool id iter (map (answer pool) ups) [] 0 ≡ some pool
  fetch_pool_lem ups pool enough = fetch_rest ups pool [] 0 refl enough
