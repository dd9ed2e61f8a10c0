-- ===== src/Events/Entity.antt =====
-- event_sink/handlers/entity.rs: `ConfirmedUpdateHandler` and `UnconfirmedUpgradeHandler`, and
-- box_resolver/process.rs: `entity_tracking_stream`, which takes the confirmed updates.
use spectrum_offchain_ergo.Prelude.{
  ℕ, ◌≡◌, ◌≢◌, refl, ap, ◌↔◌, none, some, List, [], ◌∷◌, ◌++◌, map,
}
use spectrum_offchain_ergo.Data.{
  EitherOrBoth, left, right, both, swap, StateUpdate, transition, transition_rollback,
}
use spectrum_offchain_ergo.MempoolSync.State.{
  MempoolUpdate, tx_accepted, tx_withdrawn, tx_confirmed,
}
use spectrum_offchain_ergo.Events.Source.{Transaction, LedgerTxEvent, applied_tx, unapplied_tx}
use spectrum_offchain_ergo.Events.Sink.{Sink, EventHandler, feed_all, feed_all_lem, flush}
use spectrum_offchain_ergo.Events.Transitions.{Context, extract_transitions}

module _ (E : Context) where
  open E use {TEntity, Box, entity as O, repo as R}

  pub record UpdateHandler : Type 0 where
    pub topic : Sink (StateUpdate TEntity)
    pub entities : R.Repo
    pub blacklisted_entities : List ℕ

  -- both handlers end with the flush of the sink
  abbrev pub publish : UpdateHandler → List (StateUpdate TEntity) → UpdateHandler
  publish h updates = record h { topic = flush (feed_all h.topic updates) }

  abbrev pub transitions_of : UpdateHandler → Transaction Box → List (EitherOrBoth TEntity TEntity)
  transitions_of h tx = extract_transitions E h.entities h.blacklisted_entities tx

  abbrev pub rollbacks : List (EitherOrBoth TEntity TEntity) → List (StateUpdate TEntity)
  rollbacks transitions = map (λ tr. transition_rollback (swap tr)) transitions

  -- `ConfirmedUpdateHandler::try_handle`
  unfoldable pub confirmed_try_handle : EventHandler UpdateHandler (LedgerTxEvent (Transaction Box))
  unfolding extract_transitions feed_all flush swap
  confirmed_try_handle h (applied_tx timestamp tx) =
      let transitions = transitions_of h tx in
      (
        elim transitions [ [] ↦ some (applied_tx timestamp tx) | _ ∷ _ ↦ none ],
        publish h (map transition transitions),
      )
  confirmed_try_handle h (unapplied_tx tx) =
      let transitions = transitions_of h tx in
      (
        elim transitions [ [] ↦ some (unapplied_tx tx) | _ ∷ _ ↦ none ],
        publish h (rollbacks transitions),
      )

  -- `UnconfirmedUpgradeHandler::try_handle`
  unfoldable pub unconfirmed_try_handle :
      EventHandler UpdateHandler (MempoolUpdate (Transaction Box))
  unfolding extract_transitions feed_all flush swap
  unconfirmed_try_handle h (tx_accepted tx) =
      let transitions = transitions_of h tx in
      (
        elim transitions [ [] ↦ none | _ ∷ _ ↦ some (tx_accepted tx) ],
        publish h (map transition transitions),
      )
  unconfirmed_try_handle h (tx_withdrawn tx) =
      let transitions = transitions_of h tx in
      (
        elim transitions [ [] ↦ none | _ ∷ _ ↦ some (tx_withdrawn tx) ],
        publish h (rollbacks transitions),
      )
  unconfirmed_try_handle h (tx_confirmed tx) = (some (tx_confirmed tx), publish h [])

  -- what the two handlers publish for an event
  abbrev pub ledger_updates :
      UpdateHandler → LedgerTxEvent (Transaction Box) → List (StateUpdate TEntity)
  ledger_updates h (applied_tx timestamp tx) = map transition (transitions_of h tx)
  ledger_updates h (unapplied_tx tx) = rollbacks (transitions_of h tx)

  abbrev pub mempool_updates :
      UpdateHandler → MempoolUpdate (Transaction Box) → List (StateUpdate TEntity)
  mempool_updates h (tx_accepted tx) = map transition (transitions_of h tx)
  mempool_updates h (tx_withdrawn tx) = rollbacks (transitions_of h tx)
  mempool_updates h (tx_confirmed tx) = []

  published :
      (h : UpdateHandler) (updates : List (StateUpdate TEntity))
      → publish h updates ≡ record h {
        topic = record { fed = []; flushed = h.topic.flushed ++ (h.topic.fed ++ updates) };
      }
  unfolding flush
  published h updates = rw (feed_all_lem updates h.topic)

  -- the event that is given back where only no transitions leave it unhandled, and the other way
  -- around
  module _ {Ev : Type 0} (ev : Ev)
      (update : EitherOrBoth TEntity TEntity → StateUpdate TEntity) where
    given_none :
        (ts : List (EitherOrBoth TEntity TEntity))
        → ((elim ts [ [] ↦ some ev | _ ∷ _ ↦ none ] ≡ some ev) ↔ (map update ts ≡ []))
          × ((elim ts [ [] ↦ some ev | _ ∷ _ ↦ none ] ≡ none) ↔ (map update ts ≢ []))
    given_none [] = ((λ _. refl, λ _. refl), (λ e. absurd (cc), λ n. absurd (n refl)))
    given_none (t ∷ ts) = ((λ e. absurd (cc), λ e. absurd (cc)), (λ _ e. cc, λ _. refl))

    given_some :
        (ts : List (EitherOrBoth TEntity TEntity))
        → ((elim ts [ [] ↦ none | _ ∷ _ ↦ some ev ] ≡ some ev) ↔ (map update ts ≢ []))
          × ((elim ts [ [] ↦ none | _ ∷ _ ↦ some ev ] ≡ none) ↔ (map update ts ≡ []))
    given_some [] = ((λ e. absurd (cc), λ n. absurd (n refl)), (λ _. refl, λ _. refl))
    given_some (t ∷ ts) = ((λ _ e. cc, λ _. refl), (λ e. absurd (cc), λ e. absurd (cc)))

  -- `ConfirmedUpdateHandler` keeps its part of `EventHandler`: it publishes the updates of the
  -- event's transitions, swapped and as rollbacks for a transaction that is unapplied, leaves
  -- nothing in the sink, and gives the event back just when there was none.
  pub confirmed_try_handle_lem :
      (h : UpdateHandler) (ev : LedgerTxEvent (Transaction Box))
      → ((confirmed_try_handle h ev).1.topic.flushed
          ≡ h.topic.flushed ++ (h.topic.fed ++ ledger_updates h ev))
        × ((confirmed_try_handle h ev).1.topic.fed ≡ [])
        × (((confirmed_try_handle h ev).0 ≡ some ev) ↔ (ledger_updates h ev ≡ []))
        × (((confirmed_try_handle h ev).0 ≡ none) ↔ (ledger_updates h ev ≢ []))
  unfolding confirmed_try_handle flush
  confirmed_try_handle_lem h (applied_tx timestamp tx) =
      let p = published h (map transition (transitions_of h tx)) in
      let (some_iff, none_iff) =
        given_none (applied_tx timestamp tx) transition (transitions_of h tx) in
      (ap (λ g. g.topic.flushed) p, refl, some_iff, none_iff)
  confirmed_try_handle_lem h (unapplied_tx tx) =
      let p = published h (rollbacks (transitions_of h tx)) in
      let (some_iff, none_iff) =
        given_none (unapplied_tx tx) (λ tr. transition_rollback (swap tr)) (transitions_of h tx) in
      (ap (λ g. g.topic.flushed) p, refl, some_iff, none_iff)

  -- `UnconfirmedUpgradeHandler` publishes the updates of the event's transitions in the same way,
  -- but answers the other way around from what `EventHandler` asks: of a transaction accepted or
  -- withdrawn it gives the event back just when it handled it, and keeps it when it did not.
  pub unconfirmed_try_handle_lem :
      (h : UpdateHandler) (ev : MempoolUpdate (Transaction Box))
      → ((tx : Transaction Box) → ev ≢ tx_confirmed tx)
      → ((unconfirmed_try_handle h ev).1.topic.flushed
          ≡ h.topic.flushed ++ (h.topic.fed ++ mempool_updates h ev))
        × (((unconfirmed_try_handle h ev).0 ≡ some ev) ↔ (mempool_updates h ev ≢ []))
        × (((unconfirmed_try_handle h ev).0 ≡ none) ↔ (mempool_updates h ev ≡ []))
  unfolding unconfirmed_try_handle flush
  unconfirmed_try_handle_lem h (tx_accepted tx) _ =
      let p = published h (map transition (transitions_of h tx)) in
      let (some_iff, none_iff) = given_some (tx_accepted tx) transition (transitions_of h tx) in
      (ap (λ g. g.topic.flushed) p, some_iff, none_iff)
  unconfirmed_try_handle_lem h (tx_withdrawn tx) _ =
      let p = published h (rollbacks (transitions_of h tx)) in
      let (some_iff, none_iff) =
        given_some (tx_withdrawn tx) (λ tr. transition_rollback (swap tr)) (transitions_of h tx) in
      (ap (λ g. g.topic.flushed) p, some_iff, none_iff)
  unconfirmed_try_handle_lem h (tx_confirmed tx) other = absurd (other tx refl)

  -- `entity_tracking_stream`: what it does to the repository for one confirmed update
  unfoldable pub entity_tracking : R.Repo → StateUpdate TEntity → R.Repo
  entity_tracking repo (transition (right new_state)) = R.put_confirmed repo new_state
  entity_tracking repo (transition (both _ new_state)) = R.put_confirmed repo new_state
  entity_tracking repo (transition (left st)) = R.eliminate repo st
  entity_tracking repo (transition_rollback (right new_state)) = R.put_confirmed repo new_state
  entity_tracking repo (transition_rollback (both _ new_state)) = R.put_confirmed repo new_state
  entity_tracking repo (transition_rollback (left st)) =
      R.invalidate repo (O.get_self_state_ref st) (O.get_self_ref st)

  unfoldable pub entity_tracking_stream : List (StateUpdate TEntity) → R.Repo → R.Repo
  unfolding entity_tracking
  entity_tracking_stream [] repo = repo
  entity_tracking_stream (upd ∷ upds) repo = entity_tracking_stream upds (entity_tracking repo upd)
