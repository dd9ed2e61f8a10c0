-- ===== src/Events/Pairing.antt =====
-- What `extract_transitions` of event_sink/handlers/entity.rs gives for a transaction.
use spectrum_offchain_ergo.Prelude.{
  ℕ, ◌≡◌, ◌≢◌, refl, sym, ap, ◌∙◌, ◌↔◌, inl, inr, false, Option, none, some, List, [], ◌∷◌, ◌++◌,
  arith, ◌==◌, ==_iff, ==_self, if◌then◌else◌, contains, lookup, erase, keys, lookup-insert,
  lookup-erase, lookup-Elem, Elem, Elem-append_left, Elem-append_right, Option-cases, Bool-cases,
}
use spectrum_offchain_ergo.Data.{EitherOrBoth, left, right, both, try_from_pair}
use spectrum_offchain_ergo.Events.Source.{Transaction}
use spectrum_offchain_ergo.Events.Transitions.{
  Context, consumed_by, insert_entity, consumed_entities, created_entities, pair_up,
  extract_transitions,
}

module _ (E : Context) where
  open E use {TEntity, Box, entity as O, repo as R, try_from_box, iter}
  open O use {get_self_ref}

  -- the last allowed entity among some that has a given identifier
  abbrev pub last_of : List ℕ → ℕ → Option TEntity → Option TEntity → Option TEntity
  last_of blacklist k none before = before
  last_of blacklist k (some e) before =
      if contains (get_self_ref e) blacklist
      then before
      else if get_self_ref e == k
      then some e
      else before

  lookup-insert_entity :
      (blacklist : List ℕ) (k : ℕ) (e : Option TEntity) (m : List (ℕ × TEntity))
      → lookup k (insert_entity E blacklist e m) ≡ last_of blacklist k e (lookup k m)
  lookup-insert_entity blacklist k none m = refl
  lookup-insert_entity blacklist k (some e) m = ground (arith, lookup-insert (get_self_ref e) k e m)

  -- the last state of the entity with an identifier that the inputs spend, and the outputs make
  abbrev pub last_spent : R.Repo → List ℕ → ℕ → List ℕ → Option TEntity → Option TEntity
  last_spent repo blacklist k [] before = before
  last_spent repo blacklist k (i ∷ inputs) before =
      last_spent repo blacklist k inputs (last_of blacklist k (consumed_by E repo i) before)

  abbrev pub last_made : List ℕ → ℕ → List Box → Option TEntity → Option TEntity
  last_made blacklist k [] before = before
  last_made blacklist k (bx ∷ outputs) before =
      last_made blacklist k outputs (last_of blacklist k (try_from_box bx) before)

  lookup-consumed :
      (repo : R.Repo) (blacklist : List ℕ) (k : ℕ) (inputs : List ℕ) (m : List (ℕ × TEntity))
      → lookup k (consumed_entities E repo blacklist inputs m)
        ≡ last_spent repo blacklist k inputs (lookup k m)
  unfolding consumed_entities
  lookup-consumed repo blacklist k [] m = refl
  lookup-consumed repo blacklist k (i ∷ inputs) m =
      lookup-consumed repo blacklist k inputs _
      ∙ ap (last_spent repo blacklist k inputs)
          (lookup-insert_entity blacklist k (consumed_by E repo i) m)

  lookup-created :
      (blacklist : List ℕ) (k : ℕ) (outputs : List Box) (m : List (ℕ × TEntity))
      → lookup k (created_entities E blacklist outputs m)
        ≡ last_made blacklist k outputs (lookup k m)
  unfolding created_entities
  lookup-created blacklist k [] m = refl
  lookup-created blacklist k (bx ∷ outputs) m =
      lookup-created blacklist k outputs _
      ∙ ap (last_made blacklist k outputs) (lookup-insert_entity blacklist k (try_from_box bx) m)

  -- An entity of a map is not on the blacklist, and has the key as its identifier.
  abbrev pub Allowed : List ℕ → List (ℕ × TEntity) → Type 0
  Allowed blacklist m =
      (k : ℕ) (e : TEntity)
      → lookup k m ≡ some e
      → (get_self_ref e ≡ k) × (contains k blacklist ≡ false)

  Allowed-insert_entity :
      (blacklist : List ℕ) (e : Option TEntity) (m : List (ℕ × TEntity))
      → Allowed blacklist m
      → Allowed blacklist (insert_entity E blacklist e m)
  Allowed-insert_entity blacklist none m a k f h = a k f h
  Allowed-insert_entity blacklist (some e) m a k f h =
      ground (arith, h, a k f, lookup-insert (get_self_ref e) k e m, ==_iff (get_self_ref e) k)

  pub Allowed-consumed :
      (repo : R.Repo) (blacklist inputs : List ℕ) (m : List (ℕ × TEntity))
      → Allowed blacklist m
      → Allowed blacklist (consumed_entities E repo blacklist inputs m)
  unfolding consumed_entities
  Allowed-consumed repo blacklist [] m a = a
  Allowed-consumed repo blacklist (i ∷ inputs) m a =
      Allowed-consumed repo blacklist inputs _
        (Allowed-insert_entity blacklist (consumed_by E repo i) m a)

  pub Allowed-created :
      (blacklist : List ℕ) (outputs : List Box) (m : List (ℕ × TEntity))
      → Allowed blacklist m
      → Allowed blacklist (created_entities E blacklist outputs m)
  unfolding created_entities
  Allowed-created blacklist [] m a = a
  Allowed-created blacklist (bx ∷ outputs) m a =
      Allowed-created blacklist outputs _ (Allowed-insert_entity blacklist (try_from_box bx) m a)

  -- the transition is of the entity with the identifier
  abbrev pub IsOf : ℕ → EitherOrBoth TEntity TEntity → Type 0
  IsOf k (left e) = get_self_ref e ≡ k
  IsOf k (right e) = get_self_ref e ≡ k
  IsOf k (both e f) = (get_self_ref e ≡ k) × (get_self_ref f ≡ k)

  kept_pair :
      (k j : ℕ) (c d : List (ℕ × TEntity)) (x : EitherOrBoth TEntity TEntity)
      → try_from_pair (lookup j (erase k c)) (lookup j (erase k d)) ≡ some x
      → try_from_pair (lookup j c) (lookup j d) ≡ some x
  unfolding try_from_pair
  kept_pair k j c d x e = ground (arith, e, lookup-erase k j c, lookup-erase k j d)

  pair_up_sound :
      (ks : List ℕ) (c d : List (ℕ × TEntity)) (x : EitherOrBoth TEntity TEntity)
      → Elem x (pair_up E ks c d)
      → (k : ℕ) × (try_from_pair (lookup k c) (lookup k d) ≡ some x)
  unfolding pair_up
  pair_up_sound [] c d x m = absurd m
  pair_up_sound (k ∷ ks) c d x m = elim (Option-cases (try_from_pair (lookup k c) (lookup k d))) [
    | inl e ↦ later (pair_up_sound ks (erase k c) (erase k d) x (rw (e, pair_up) at m))
    | inr (y, e) ↦ elim (rw (e, pair_up) at m) [
      | inl same ↦ (k, ground (arith, e, same))
      | inr rest ↦ later (pair_up_sound ks (erase k c) (erase k d) x rest)
    ]
  ]
    where
      later :
          ((j : ℕ) × (try_from_pair (lookup j (erase k c)) (lookup j (erase k d)) ≡ some x))
          → (j : ℕ) × (try_from_pair (lookup j c) (lookup j d) ≡ some x)
      later (j, e) = (j, kept_pair k j c d x e)

  other_pair :
      (k j : ℕ) (c d : List (ℕ × TEntity))
      → k ≢ j
      → try_from_pair (lookup j (erase k c)) (lookup j (erase k d))
        ≡ try_from_pair (lookup j c) (lookup j d)
  unfolding try_from_pair
  other_pair k j c d ne = ground (arith, ne, lookup-erase k j c, lookup-erase k j d)

  pair_up_complete :
      (ks : List ℕ) (c d : List (ℕ × TEntity)) (k : ℕ) (x : EitherOrBoth TEntity TEntity)
      → Elem k ks
      → try_from_pair (lookup k c) (lookup k d) ≡ some x
      → Elem x (pair_up E ks c d)
  unfolding pair_up
  pair_up_complete [] c d k x m e = absurd m
  pair_up_complete (j ∷ ks) c d k x m e = elim (Bool-cases (j == k)) [
    | inl t ↦
        let at : try_from_pair (lookup j c) (lookup j d) ≡ some x =
          ap (λ i. try_from_pair (lookup i c) (lookup i d)) ((==_iff j k).0 t) ∙ e in
        rw (at, pair_up) (inl refl)
    | inr f ↦
        let ne : j ≢ k = λ same. ground (arith, f, same, ==_self k) in
        let rest =
          pair_up_complete ks (erase j c) (erase j d) k x (tail_of m (λ same. ne (sym same)))
            (other_pair j k c d ne ∙ e) in
        elim (Option-cases (try_from_pair (lookup j c) (lookup j d))) [
          | inl n ↦ rw (n, pair_up) rest
          | inr (y, s) ↦ rw (s, pair_up) (inr rest)
        ]
  ]
    where
      tail_of : Elem k (j ∷ ks) → k ≢ j → Elem k ks
      tail_of (inl same) ne = absurd (ne same)
      tail_of (inr m) ne = m

  known_pair :
      (k : ℕ) (c d : List (ℕ × TEntity)) (x : EitherOrBoth TEntity TEntity)
      → try_from_pair (lookup k c) (lookup k d) ≡ some x
      → Elem k (keys c ++ keys d)
  unfolding try_from_pair
  known_pair k c d x e = elim (Option-cases (lookup k c)) [
    | inr (v, s) ↦ Elem-append_left k (keys c) (keys d) (lookup-Elem k v c s)
    | inl n ↦ elim (Option-cases (lookup k d)) [
      | inr (v, s) ↦ Elem-append_right k (keys c) (keys d) (lookup-Elem k v d s)
      | inl m ↦ absurd (ground (arith, e, n, m))
    ]
  ]

  pair_IsOf :
      (blacklist : List ℕ) (k : ℕ) (c d : List (ℕ × TEntity)) (x : EitherOrBoth TEntity TEntity)
      → Allowed blacklist c
      → Allowed blacklist d
      → try_from_pair (lookup k c) (lookup k d) ≡ some x
      → IsOf k x × (contains k blacklist ≡ false)
  unfolding try_from_pair
  pair_IsOf blacklist k c d (left e) a b h = ground (arith, h, a k e, b k e)
  pair_IsOf blacklist k c d (right e) a b h = ground (arith, h, a k e, b k e)
  pair_IsOf blacklist k c d (both e f) a b h = ground (arith, h, a k e, b k f)

  -- When a HashSet gives just its members: a transition is extracted just when, for some entity
  -- that is not on the blacklist, it pairs the last of its states that the inputs spend with the
  -- last that the outputs make, and those have that entity's identifier.
  pub extract_transitions_lem :
      (repo : R.Repo) (blacklist : List ℕ) (tx : Transaction Box) (x : EitherOrBoth TEntity TEntity)
      → ((xs : List ℕ) (i : ℕ) → Elem i (iter xs) ↔ Elem i xs)
      → Elem x (extract_transitions E repo blacklist tx) ↔ (
          (k : ℕ) × (try_from_pair
              (last_spent repo blacklist k tx.inputs none)
              (last_made blacklist k tx.outputs none)
            ≡ some x)
          × IsOf k x
          × (contains k blacklist ≡ false))
  unfolding extract_transitions lookup
  extract_transitions_lem repo blacklist tx x same =
      let c = consumed_entities E repo blacklist tx.inputs [] in
      let d = created_entities E blacklist tx.outputs [] in
      let a = Allowed-consumed repo blacklist tx.inputs [] (λ k e h. absurd (ground (arith, h))) in
      let b = Allowed-created blacklist tx.outputs [] (λ k e h. absurd (ground (arith, h))) in
      let spent : (k : ℕ) → lookup k c ≡ last_spent repo blacklist k tx.inputs none =
        λ k. lookup-consumed repo blacklist k tx.inputs [] in
      let made : (k : ℕ) → lookup k d ≡ last_made blacklist k tx.outputs none =
        λ k. lookup-created blacklist k tx.outputs [] in
      (
        (λ m.
            let (k, e) = pair_up_sound (iter (keys c ++ keys d)) c d x m in
            let (is, ok) = pair_IsOf blacklist k c d x a b e in
            (k, rw⁻¹ (spent k, made k) e, is, ok)),
        (λ (k, e, is, ok).
            let e' : try_from_pair (lookup k c) (lookup k d) ≡ some x = rw (spent k, made k) e in
            pair_up_complete (iter (keys c ++ keys d)) c d k x
              ((same (keys c ++ keys d) k).1 (known_pair k c d x e')) e'),
      )
