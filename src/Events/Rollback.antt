-- ===== src/Events/Rollback.antt =====
-- `entity_tracking_stream` over the repository in RocksDB: a transition and its rollback.
use mathlib.Core.Option
use spectrum_offchain_ergo.Prelude.{
  ℕ, ◌≡◌, refl, sym, ap, ◌∙◌, Option, none, some, List, arith, ==_self,
}
use spectrum_offchain_ergo.Data.{
  OnChainEntity, EitherOrBoth, left, right, both, swap, transition, transition_rollback,
}
use spectrum_offchain_ergo.Storage.{RocksDb, Bincode, Codec}
use spectrum_offchain_ergo.BoxResolver.Repo
use spectrum_offchain_ergo.BoxResolver.View
use spectrum_offchain_ergo.BoxResolver.Writes.{view, view-put_confirmed, view-invalidate}
use spectrum_offchain_ergo.BoxResolver.Refinement.{get_last_confirmed-View, get_state-View}
use spectrum_offchain_ergo.BoxResolver.Resolve.{EntityRepoRocksDb}
use spectrum_offchain_ergo.Events.Transitions.{Context}
use spectrum_offchain_ergo.Events.Pairing.{IsOf}
use spectrum_offchain_ergo.Events.Entity.{entity_tracking}

module _ {T : Type 0} (O : OnChainEntity T) (R : RocksDb) (B : Bincode) (C : Codec T) (X : Type 0)
    (parse : X → Option T) (iter : List ℕ → List ℕ) where
  open O use {get_self_ref, get_self_state_ref}

  abbrev pub rocks : Context
  rocks = record {
    TEntity = T;
    Box = X;
    entity = O;
    repo = EntityRepoRocksDb O R B C;
    try_from_box = parse;
    iter = iter;
  }

  -- the state that was there before a transition
  abbrev pub before : EitherOrBoth T T → Option T
  before (left a) = some a
  before (right b) = none
  before (both a b) = some a

  confirmed-put :
      (db : R.Db) (e : T) (id : ℕ)
      → get_self_ref e ≡ id
      → Repo.get_last_confirmed O R B C (Repo.put_confirmed O R B C db e) id ≡ some e
  unfolding Option.bind
  confirmed-put db e id is =
      get_last_confirmed-View O R B C _ id
      ∙ ap (λ v. View.get_last_confirmed O v id) (view-put_confirmed O R B C db e)
      ∙ rw is (ground (arith, ==_self id, ==_self (get_self_state_ref e)))

  confirmed-invalidate :
      (db : R.Db) (sid id : ℕ)
      → Repo.get_prediction_predecessor O R B C db sid ≡ none
      → Repo.get_last_confirmed O R B C (Repo.invalidate O R B C db sid id) id ≡ none
  unfolding Option.bind
  confirmed-invalidate db sid id unlinked =
      let link : (view O R B C db).link sid ≡ none =
        sym (get_state-View O R B C db sid).1 ∙ unlinked in
      get_last_confirmed-View O R B C _ id
      ∙ ap (λ v. View.get_last_confirmed O v id) (view-invalidate O R B C db sid id)
      ∙ ground (arith, ==_self id, link)

  link-put_confirmed :
      (db : R.Db) (e : T) (sid : ℕ)
      → Repo.get_prediction_predecessor O R B C (Repo.put_confirmed O R B C db e) sid
        ≡ Repo.get_prediction_predecessor O R B C db sid
  link-put_confirmed db e sid =
      (get_state-View O R B C _ sid).1
      ∙ ap (λ v. v.link sid) (view-put_confirmed O R B C db e)
      ∙ sym (get_state-View O R B C db sid).1

  -- Tracking a transition of an entity and then its rollback, swapped as the handler swaps it,
  -- leaves as the last confirmed state of the entity the one the transition consumed, and none if
  -- it created the entity, when the created state is not a known prediction.
  pub entity_tracking_rollback :
      (db : R.Db) (tr : EitherOrBoth T T) (id : ℕ)
      → IsOf rocks id tr
      → ((b : T)
          → tr ≡ right b
          → Repo.get_prediction_predecessor O R B C db (get_self_state_ref b) ≡ none)
      → Repo.get_last_confirmed O R B C
          (entity_tracking rocks
            (entity_tracking rocks db (transition tr))
            (transition_rollback (swap tr)))
          id
        ≡ before tr
  unfolding entity_tracking swap
  entity_tracking_rollback db (left a) id is unlinked = confirmed-put _ a id is
  entity_tracking_rollback db (both a b) id is unlinked = confirmed-put _ a id is.0
  entity_tracking_rollback db (right b) id is unlinked = rw is (
      confirmed-invalidate (Repo.put_confirmed O R B C db b) (get_self_state_ref b) id
        (link-put_confirmed db b (get_self_state_ref b) ∙ unlinked b refl))
