-- ===== src/Events/Transitions.antt =====
-- event_sink/handlers/entity.rs: `extract_transitions`.
use spectrum_offchain_ergo.Prelude.{
  ℕ, Option, none, some, List, [], ◌∷◌, ◌++◌, if◌then◌else◌, contains, lookup, insert, erase, keys,
}
use spectrum_offchain_ergo.Data.{OnChainEntity, EitherOrBoth, try_from_pair}
use spectrum_offchain_ergo.BoxResolver.Resolve.{EntityRepo}
use spectrum_offchain_ergo.Events.Source.{Transaction}

-- `try_from_box` reads an entity from a box; a HashSet gives its members in an order that is not
-- known.
pub record Context : Type 1 where
  pub TEntity : Type 0
  pub Box : Type 0
  pub entity : OnChainEntity TEntity
  pub repo : EntityRepo TEntity
  pub try_from_box : Box → Option TEntity
  pub iter : List ℕ → List ℕ

module _ (E : Context) where
  open E use {TEntity, Box, entity as O, repo as R, try_from_box, iter}
  open O use {get_self_ref}

  -- the state that an input spends
  unfoldable pub consumed_by : R.Repo → ℕ → Option TEntity
  consumed_by repo state_id = if R.may_exist repo state_id then R.get_state repo state_id else none

  abbrev pub insert_entity : List ℕ → Option TEntity → List (ℕ × TEntity) → List (ℕ × TEntity)
  insert_entity blacklist none m = m
  insert_entity blacklist (some e) m =
      if contains (get_self_ref e) blacklist then m else insert (get_self_ref e) e m

  -- the loop over the inputs
  unfoldable pub consumed_entities :
      R.Repo → List ℕ → List ℕ → List (ℕ × TEntity) → List (ℕ × TEntity)
  unfolding consumed_by
  consumed_entities repo blacklist [] m = m
  consumed_entities repo blacklist (i ∷ inputs) m =
      consumed_entities repo blacklist inputs (insert_entity blacklist (consumed_by repo i) m)

  -- the loop over the outputs
  unfoldable pub created_entities : List ℕ → List Box → List (ℕ × TEntity) → List (ℕ × TEntity)
  created_entities blacklist [] m = m
  created_entities blacklist (bx ∷ outputs) m =
      created_entities blacklist outputs (insert_entity blacklist (try_from_box bx) m)

  -- the `flat_map`, which takes each entity out of the two maps
  unfoldable pub pair_up :
      List ℕ → List (ℕ × TEntity) → List (ℕ × TEntity) → List (EitherOrBoth TEntity TEntity)
  unfolding try_from_pair
  pair_up [] consumed created = []
  pair_up (k ∷ ks) consumed created =
      let rest = pair_up ks (erase k consumed) (erase k created) in
      elim (try_from_pair (lookup k consumed) (lookup k created)) [
        | none ↦ rest
        | some x ↦ x ∷ rest
      ]

  unfoldable pub extract_transitions :
      R.Repo → List ℕ → Transaction Box → List (EitherOrBoth TEntity TEntity)
  unfolding consumed_entities created_entities pair_up
  extract_transitions repo blacklist tx =
      let consumed = consumed_entities repo blacklist tx.inputs [] in
      let created = created_entities blacklist tx.outputs [] in
      pair_up (iter (keys consumed ++ keys created)) consumed created
