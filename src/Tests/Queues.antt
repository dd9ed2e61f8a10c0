-- ===== src/Tests/Queues.antt =====
-- A priority queue as a list with each item at most once, which meets the laws that Backlog.Queue
-- assumes.

use spectrum_offchain_ergo.Prelude.{
  ℕ, ◌≤◌, ◌<◌, ◌≡◌, ◌≢◌, refl, sym, ◌∙◌, ap, subst, ◌⊎◌, inl, inr, Option, none, some, List, [],
  ◌∷◌, arith, leb, if◌then◌else◌, Elem, length,
}
use spectrum_offchain_ergo.Backlog.Queue.{WeightedOrder, Entry, PriorityQueue}
use spectrum_offchain_ergo.Backlog.Revisit.{WeightedOrder-discrete as dec}

unfoldable pub drop : WeightedOrder → List Entry → List Entry
drop i [] = []
drop i (x ∷ xs) = elim (dec x.0 i) [ yes _ ↦ drop i xs | no _ ↦ x ∷ drop i xs ]

pub drop-inv :
    (i : WeightedOrder) (xs : List Entry) (x : Entry) → Elem x (drop i xs) → Elem x xs × (x.0 ≢ i)
unfolding drop
drop-inv i [] x m = absurd m
drop-inv i (y ∷ ys) x m = elim (dec y.0 i) [
  | yes e ↦ let (at, ne) = drop-inv i ys x (ground (arith, e)) in (inr at, ne)
  | no ne ↦ ground (arith, ne, drop-inv i ys x)
]

pub drop-keep :
    (i : WeightedOrder) (xs : List Entry) (x : Entry) → Elem x xs → x.0 ≢ i → Elem x (drop i xs)
unfolding drop
drop-keep i [] x m h = absurd m
drop-keep i (y ∷ ys) x (inl e) h = ground arith
drop-keep i (y ∷ ys) x (inr m) h = ground (arith, drop-keep i ys x m h)

pub length-drop-le : (i : WeightedOrder) (xs : List Entry) → length (drop i xs) ≤ length xs
unfolding drop
length-drop-le i [] = omega arith
length-drop-le i (x ∷ xs) = ground (arith, length-drop-le i xs)

abbrev pub IsUnique : List Entry → Type 0
IsUnique [] = Unit
IsUnique (x ∷ xs) = ((y : Entry) → Elem y xs → y.0 ≢ x.0) × IsUnique xs

pub drop-IsUnique : (i : WeightedOrder) (xs : List Entry) → IsUnique xs → IsUnique (drop i xs)
unfolding drop
drop-IsUnique i [] u = tt
drop-IsUnique i (x ∷ xs) u =
    elim (dec x.0 i) as (λ d. IsUnique (elim d [ yes _ ↦ drop i xs | no _ ↦ x ∷ drop i xs ])) [
      | yes e ↦ drop-IsUnique i xs u.1
      | no ne ↦ (λ y m. u.0 y (drop-inv i xs y m).0, drop-IsUnique i xs u.1)
    ]

pub unique :
    (xs : List Entry) (x y : Entry) → IsUnique xs → Elem x xs → Elem y xs → x.0 ≡ y.0 → x ≡ y
unique [] x y u m n e = absurd m
unique (z ∷ zs) x y u (inl p) (inl q) e = p ∙ sym q
unique (z ∷ zs) x y u (inl p) (inr n) e = absurd (u.0 y n (sym e ∙ ap (λ (t : Entry). t.0) p))
unique (z ∷ zs) x y u (inr m) (inl q) e = absurd (u.0 x m (e ∙ ap (λ (t : Entry). t.0) q))
unique (z ∷ zs) x y u (inr m) (inr n) e = unique zs x y u.1 m n e

-- The heaviest entry of a list that begins with `x`.
unfoldable pub best : Entry → List Entry → Entry
best x [] = x
best x (y ∷ ys) = best (if leb y.1 x.1 then x else y) ys

pub best-Elem : (x : Entry) (ys : List Entry) → Elem (best x ys) (x ∷ ys)
unfolding best
best-Elem x [] = inl refl
best-Elem x (y ∷ ys) = ground (arith, best-Elem x ys, best-Elem y ys)

pub best-le : (x : Entry) (ys : List Entry) (z : Entry) → Elem z (x ∷ ys) → z.1 ≤ (best x ys).1
unfolding best
best-le x [] z m = ground arith
best-le x (y ∷ ys) z m =
    ground
      (arith, best-le x ys z, best-le y ys z, best-le x ys x (inl refl), best-le y ys y (inl refl))

pub length-drop-lt :
    (i : WeightedOrder) (xs : List Entry) (x : Entry)
    → Elem x xs
    → x.0 ≡ i
    → length (drop i xs) < length xs
unfolding drop
length-drop-lt i [] x m e = absurd m
length-drop-lt i (y ∷ ys) x (inl p) e = ground (arith, length-drop-le i ys)
length-drop-lt i (y ∷ ys) x (inr m) e = ground (arith, length-drop-lt i ys x m e)

unfoldable pub Queue : Type 0
Queue = (l : List Entry) × IsUnique l

unfoldable pub iter : Queue → List Entry
unfolding Queue
iter q = q.0

unfoldable pub new : Queue
unfolding Queue
new = ([], tt)

unfoldable pub remove : Queue → WeightedOrder → Queue
unfolding Queue
remove (l, u) i = (drop i l, drop-IsUnique i l u)

unfoldable pub push : Queue → WeightedOrder → ℕ → Queue
unfolding Queue
push (l, u) i w = ((i, w) ∷ drop i l, (λ y m. (drop-inv i l y m).1, drop-IsUnique i l u))

unfoldable pub pop : Queue → Option (Entry × Queue)
unfolding Queue remove
pop ([], u) = none
pop (x ∷ xs, u) = some (best x xs, remove (x ∷ xs, u) (best x xs).0)

abbrev top_or : Entry → Option (Entry × Queue) → Entry
top_or d none = d
top_or d (some r) = r.0

abbrev rest_or : List Entry → Option (Entry × Queue) → List Entry
rest_or d none = d
rest_or d (some r) = iter r.1

pub pop-none : (q : Queue) → pop q ≡ none → iter q ≡ []
unfolding Queue pop iter
pop-none ([], u) e = refl
pop-none (x ∷ xs, u) e = absurd (cc)

-- What `pop` takes is the heaviest entry, and it leaves the others.
pub pop_lem :
    (q q' : Queue) (top : Entry)
    → pop q ≡ some (top, q')
    → ((x : Entry) → Elem x (iter q) → x.1 ≤ top.1)
      × Elem top (iter q)
      × (iter q' ≡ drop top.0 (iter q))
      × IsUnique (iter q)
unfolding Queue pop iter remove
pop_lem ([], u) q' top e = absurd (cc)
pop_lem (x ∷ xs, u) q' top e =
    let is : best x xs ≡ top = ap (top_or top) e in
    let rest : drop (best x xs).0 (x ∷ xs) ≡ q'.0 = ap (rest_or []) e in
    (
      rw is at (best-le x xs),
      subst (λ (t : Entry). Elem t (x ∷ xs)) is (best-Elem x xs),
      sym rest ∙ ap (λ (t : Entry). drop t.0 (x ∷ xs)) is,
      u,
    )

pub push_inv :
    (q : Queue) (i : WeightedOrder) (w : ℕ) (x : Entry)
    → Elem x (iter (push q i w))
    → (x ≡ (i, w)) ⊎ (Elem x (iter q) × (x.0 ≢ i))
unfolding Queue push iter
push_inv (l, u) i w x (inl e) = inl e
push_inv (l, u) i w x (inr m) = inr (drop-inv i l x m)

pub push_self : (q : Queue) (i : WeightedOrder) (w : ℕ) → Elem (i, w) (iter (push q i w))
unfolding Queue push iter
push_self (l, u) i w = inl refl

pub push_keep :
    (q : Queue) (i : WeightedOrder) (w : ℕ) (x : Entry)
    → Elem x (iter q)
    → x.0 ≢ i
    → Elem x (iter (push q i w))
unfolding Queue push iter
push_keep (l, u) i w x m ne = inr (drop-keep i l x m ne)

pub remove_keep :
    (q : Queue) (i : WeightedOrder) (x : Entry)
    → Elem x (iter q)
    → x.0 ≢ i
    → Elem x (iter (remove q i))
unfolding Queue remove iter
remove_keep (l, u) i x m ne = drop-keep i l x m ne

pub remove_inv :
    (q : Queue) (i : WeightedOrder) (x : Entry)
    → Elem x (iter (remove q i))
    → Elem x (iter q) × (x.0 ≢ i)
unfolding Queue remove iter
remove_inv (l, u) i x m = drop-inv i l x m

pub pop_keep :
    (q q' : Queue) (top : Entry)
    → pop q ≡ some (top, q')
    → (x : Entry) → Elem x (iter q)
    → (x ≡ top) ⊎ Elem x (iter q')
pop_keep q q' top e x m =
    let (_, at, rest, u) = pop_lem q q' top e in
    elim (dec x.0 top.0) [
      | yes same ↦ inl (unique (iter q) x top u m at same)
      | no ne ↦ inr (rw rest (drop-keep top.0 (iter q) x m ne))
    ]

pub pop_inv :
    (q q' : Queue) (top : Entry)
    → pop q ≡ some (top, q')
    → (x : Entry) → Elem x (iter q')
    → Elem x (iter q) × (x.0 ≢ top.0)
pop_inv q q' top e x m =
    let (_, _, rest, _) = pop_lem q q' top e in drop-inv top.0 (iter q) x (rw rest at m)

pub pop-length :
    (q q' : Queue) (top : Entry) → pop q ≡ some (top, q') → length (iter q') < length (iter q)
pop-length q q' top e =
    let (_, at, rest, _) = pop_lem q q' top e in rw rest (length-drop-lt top.0 (iter q) top at refl)

unfoldable pub unique_list : PriorityQueue
unfolding Queue iter new push pop remove drop best
unique_list = record {
  Queue = Queue;
  new = new;
  push = push;
  pop = pop;
  remove = remove;
  iter = iter;
  iter-new = refl;
  push_self = push_self;
  push_keep = push_keep;
  push_inv = push_inv;
  remove_keep = remove_keep;
  remove_inv = remove_inv;
  pop_none = pop-none;
  pop_max = λ q q' top e. (pop_lem q q' top e).0;
  pop_top = λ q q' top e. (pop_lem q q' top e).1;
  pop_keep = pop_keep;
  pop_inv = pop_inv;
  pop_length = pop-length;
}
