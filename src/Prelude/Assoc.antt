-- ===== src/Prelude/Assoc.antt =====
-- Membership as a predicate by recursion, and the HashMap and HashSet of the source, keyed by
-- numbers, as association lists.
use Prim.Native.Nat.{ℕ}
use mathlib.Core.Path.{◌≡◌}
use mathlib.Core.Logic.{◌⊎◌, inl, inr}
use mathlib.Core.Bool.{Bool, true, false, ◌||◌}
use mathlib.Core.List.{List, [], ◌∷◌, ◌++◌, map}
use mathlib.Core.Option.{Option, none, some}
use native.Mathlib.Omega.{arith}
use spectrum_offchain_ergo.Prelude.Tests.{◌==◌, if◌then◌else◌}

abbrev pub Elem : {A : Type 0} → A → List A → Type 0
Elem a [] = ⊥
Elem a (x ∷ xs) = (a ≡ x) ⊎ Elem a xs

abbrev pub All {κ} : {A : Type 0} → (A → Type κ) → List A → Type κ
All P [] = Unit
All P (x ∷ xs) = P x × All P xs

pub Elem-append_left : {A : Type 0} (a : A) (xs ys : List A) → Elem a xs → Elem a (xs ++ ys)
Elem-append_left a [] ys h = absurd h
Elem-append_left a (x ∷ xs) ys (inl e) = inl e
Elem-append_left a (x ∷ xs) ys (inr h) = inr (Elem-append_left a xs ys h)

pub Elem-append_right : {A : Type 0} (a : A) (xs ys : List A) → Elem a ys → Elem a (xs ++ ys)
Elem-append_right a [] ys h = h
Elem-append_right a (x ∷ xs) ys h = inr (Elem-append_right a xs ys h)

pub Elem-append_inv :
    {A : Type 0} (a : A) (xs ys : List A) → Elem a (xs ++ ys) → Elem a xs ⊎ Elem a ys
Elem-append_inv a [] ys h = inr h
Elem-append_inv a (x ∷ xs) ys (inl e) = inl (inl e)
Elem-append_inv a (x ∷ xs) ys (inr h) = elim (Elem-append_inv a xs ys h) [
  | inl l ↦ inl (inr l)
  | inr r ↦ inr r
]

-- `HashSet::contains`, over the listed members.
unfoldable pub contains : ℕ → List ℕ → Bool
contains k [] = false
contains k (x ∷ xs) = (x == k) || contains k xs

pub contains-Elem : (k : ℕ) (xs : List ℕ) → contains k xs ≡ true → Elem k xs
unfolding contains
contains-Elem k [] h = ground arith
contains-Elem k (x ∷ xs) h = ground (arith, contains-Elem k xs)

pub Elem-contains : (k : ℕ) (xs : List ℕ) → Elem k xs → contains k xs ≡ true
unfolding contains
Elem-contains k [] h = absurd h
Elem-contains k (x ∷ xs) (inl e) = ground arith
Elem-contains k (x ∷ xs) (inr h) = ground (arith, Elem-contains k xs h)

module _ {V : Type 0} where
  -- `HashMap::get`
  unfoldable pub lookup : ℕ → List (ℕ × V) → Option V
  lookup k [] = none
  lookup k ((j, v) ∷ m) = if j == k then some v else lookup k m

  -- `HashMap::remove`, the map that is left
  unfoldable pub erase : ℕ → List (ℕ × V) → List (ℕ × V)
  erase k [] = []
  erase k ((j, v) ∷ m) = if j == k then erase k m else (j, v) ∷ erase k m

  -- `HashMap::insert`
  unfoldable pub insert : ℕ → V → List (ℕ × V) → List (ℕ × V)
  insert k v m = (k, v) ∷ erase k m

  abbrev pub keys : List (ℕ × V) → List ℕ
  keys = map (λ e. e.0)

  pub lookup-erase :
      (k j : ℕ) (m : List (ℕ × V)) → lookup j (erase k m) ≡ (if k == j then none else lookup j m)
  unfolding lookup erase
  lookup-erase k j [] = ground arith
  lookup-erase k j ((i, v) ∷ m) = ground (arith, lookup-erase k j m)

  pub lookup-insert :
      (k j : ℕ) (v : V) (m : List (ℕ × V))
      → lookup j (insert k v m) ≡ (if k == j then some v else lookup j m)
  unfolding lookup insert
  lookup-insert k j v m = ground (arith, lookup-erase k j m)

  pub lookup-Elem : (k : ℕ) (v : V) (m : List (ℕ × V)) → lookup k m ≡ some v → Elem k (keys m)
  unfolding lookup
  lookup-Elem k v [] h = ground arith
  lookup-Elem k v ((j, w) ∷ m) h = ground (arith, lookup-Elem k v m)

  pub Elem-lookup : (k : ℕ) (m : List (ℕ × V)) → Elem k (keys m) → (v : V) × (lookup k m ≡ some v)
  unfolding lookup
  Elem-lookup k [] h = absurd h
  Elem-lookup k ((j, w) ∷ m) (inl e) = (w, ground arith)
  Elem-lookup k ((j, w) ∷ m) (inr h) =
      let (v, found) = Elem-lookup k m h in (if j == k then w else v, ground arith)
