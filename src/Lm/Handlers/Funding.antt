-- ===== src/Lm/Handlers/Funding.antt =====
-- funding.rs of spectrum-offchain-lm/src/event_sink/handlers: the handler of the funding boxes.
use spectrum_offchain_ergo.Prelude.{
  ℕ, ◌≡◌, refl, sym, ap, ◌∙◌, inl, inr, Bool, true, false, Option, none, some, List, [], ◌∷◌, ◌++◌,
  if◌then◌else◌, append_assoc, append_nil, Option-cases, Bool-cases,
}
use spectrum_offchain_ergo.Events.Source.{Transaction, LedgerTxEvent, applied_tx, unapplied_tx}
use spectrum_offchain_ergo.Events.Sink.{Sink, EventHandler, feed, flush}
use spectrum_offchain_ergo.Lm.Types.{AsBox}
use spectrum_offchain_ergo.Lm.Funding.{
  DistributionFunding, FundingUpdate, funding_created, funding_eliminated,
}

module _ {Box : Type 0} (try_from_box : Box → Option (AsBox DistributionFunding))
    (may_exist : ℕ → Bool) where
  -- the loop over the inputs, with `is_success`
  unfoldable pub feed_spent : List ℕ → Bool × Sink FundingUpdate → Bool × Sink FundingUpdate
  unfolding feed
  feed_spent [] acc = acc
  feed_spent (i ∷ inputs) (is_success, topic) =
      feed_spent inputs
        (if may_exist i then (true, feed topic (funding_eliminated i)) else (is_success, topic))

  -- the loop over the outputs, with what it feeds for a funding box
  unfoldable pub feed_funding :
      (AsBox DistributionFunding → FundingUpdate)
      → List Box
      → Bool × Sink FundingUpdate
      → Bool × Sink FundingUpdate
  unfolding feed
  feed_funding update [] acc = acc
  feed_funding update (bx ∷ outputs) (is_success, topic) =
      feed_funding update outputs (elim (try_from_box bx) [
        | none ↦ (is_success, topic)
        | some funding ↦ (true, feed topic (update funding))
      ])

  abbrev pub gone : AsBox DistributionFunding → FundingUpdate
  gone funding = funding_eliminated funding.entity.id

  abbrev pub publish :
      {Ev : Type 0} → Ev → Bool × Sink FundingUpdate → Option Ev × Sink FundingUpdate
  publish ev (is_success, topic) = (if is_success then none else some ev, flush topic)

  -- `ConfirmedFundingHadler::try_handle`
  unfoldable pub funding_try_handle :
      EventHandler (Sink FundingUpdate) (LedgerTxEvent (Transaction Box))
  unfolding feed_spent feed_funding flush
  funding_try_handle topic (applied_tx timestamp tx) =
      publish (applied_tx timestamp tx)
        (feed_funding funding_created tx.outputs (feed_spent tx.inputs (false, topic)))
  funding_try_handle topic (unapplied_tx tx) =
      publish (unapplied_tx tx) (feed_funding gone tx.outputs (false, topic))

  -- the inputs that may be funding, and the funding among the outputs
  abbrev pub spent : List ℕ → List FundingUpdate
  spent [] = []
  spent (i ∷ inputs) =
      let rest = spent inputs in if may_exist i then funding_eliminated i ∷ rest else rest

  abbrev pub funded : (AsBox DistributionFunding → FundingUpdate) → List Box → List FundingUpdate
  funded update [] = []
  funded update (bx ∷ outputs) =
      let rest = funded update outputs in
      elim (try_from_box bx) [ none ↦ rest | some funding ↦ update funding ∷ rest ]

  abbrev pub some_of : Bool → List FundingUpdate → Bool
  some_of b [] = b
  some_of b (_ ∷ _) = true

  -- what a loop comes to that feeds some updates
  abbrev added : Bool → Sink FundingUpdate → List FundingUpdate → Bool × Sink FundingUpdate
  added b topic us = (some_of b us, record topic { fed = topic.fed ++ us })

  added-feed :
      (topic : Sink FundingUpdate) (u : FundingUpdate) (us : List FundingUpdate) (b : Bool)
      → added true (feed topic u) us ≡ added b topic (u ∷ us)
  unfolding feed
  added-feed topic u [] b =
      ap (λ l. (true, record topic { fed = l })) (append_assoc topic.fed (u ∷ []) [])
  added-feed topic u (v ∷ us) b =
      ap (λ l. (true, record topic { fed = l })) (append_assoc topic.fed (u ∷ []) (v ∷ us))

  added_nil : (acc : Bool × Sink FundingUpdate) → acc ≡ added acc.0 acc.1 []
  added_nil (b, topic) = ap (λ l. (b, record topic { fed = l })) (sym (append_nil topic.fed))

  added-added :
      (topic : Sink FundingUpdate) (xs ys : List FundingUpdate)
      → added (added false topic xs).0 (added false topic xs).1 ys ≡ added false topic (xs ++ ys)
  added-added topic [] ys =
      ap (λ l. (some_of false ys, record topic { fed = l ++ ys })) (append_nil topic.fed)
  added-added topic (x ∷ xs) [] =
      ap (λ l. (true, record topic { fed = l })) (append_assoc topic.fed (x ∷ xs) [])
  added-added topic (x ∷ xs) (y ∷ ys) =
      ap (λ l. (true, record topic { fed = l })) (append_assoc topic.fed (x ∷ xs) (y ∷ ys))

  feed_spent_lem :
      (inputs : List ℕ) (b : Bool) (topic : Sink FundingUpdate)
      → feed_spent inputs (b, topic) ≡ added b topic (spent inputs)
  unfolding feed_spent
  feed_spent_lem [] b topic = added_nil (b, topic)
  feed_spent_lem (i ∷ inputs) b topic = elim (Bool-cases (may_exist i)) [
    | inl t ↦
        let u = funding_eliminated i in
        rw (t, feed_spent)
          (feed_spent_lem inputs true (feed topic u) ∙ added-feed topic u (spent inputs) b)
    | inr f ↦ rw (f, feed_spent) (feed_spent_lem inputs b topic)
  ]

  feed_funding_lem :
      (update : AsBox DistributionFunding → FundingUpdate) (outputs : List Box) (b : Bool)
      (topic : Sink FundingUpdate)
      → feed_funding update outputs (b, topic) ≡ added b topic (funded update outputs)
  unfolding feed_funding
  feed_funding_lem update [] b topic = added_nil (b, topic)
  feed_funding_lem update (bx ∷ outputs) b topic = elim (Option-cases (try_from_box bx)) [
    | inl e ↦ rw (e, feed_funding, funded) (feed_funding_lem update outputs b topic)
    | inr (f, e) ↦
        rw (e, feed_funding, funded)
          (feed_funding_lem update outputs true (feed topic (update f))
            ∙ added-feed topic (update f) (funded update outputs) b)
  ]

  -- what the handler is to publish for an event
  abbrev pub funding_updates : LedgerTxEvent (Transaction Box) → List FundingUpdate
  funding_updates (applied_tx timestamp tx) = spent tx.inputs ++ funded funding_created tx.outputs
  funding_updates (unapplied_tx tx) = funded gone tx.outputs

  publish-added :
      (ev : LedgerTxEvent (Transaction Box)) (topic : Sink FundingUpdate) (us : List FundingUpdate)
      → publish ev (added false topic us) ≡ (
        elim us [ [] ↦ some ev | _ ∷ _ ↦ none ],
        record { fed = []; flushed = topic.flushed ++ (topic.fed ++ us) },
      )
  unfolding flush
  publish-added ev topic [] = refl
  publish-added ev topic (u ∷ us) = refl

  -- For an event the handler publishes an elimination for each input that may be known funding, in
  -- order, and then a creation for each funding box among the outputs; for a transaction that is
  -- unapplied, an elimination for each funding box among its outputs. It gives the event back just
  -- when there is nothing to publish, and leaves nothing unflushed.
  pub funding_try_handle_lem :
      (topic : Sink FundingUpdate) (ev : LedgerTxEvent (Transaction Box))
      → funding_try_handle topic ev ≡ (
        elim (funding_updates ev) [ [] ↦ some ev | _ ∷ _ ↦ none ],
        record { fed = []; flushed = topic.flushed ++ (topic.fed ++ funding_updates ev) },
      )
  unfolding funding_try_handle flush
  funding_try_handle_lem topic (applied_tx ts tx) =
      let made = funded funding_created tx.outputs in
      let before = added false topic (spent tx.inputs) in
      let fed : feed_funding funding_created tx.outputs (feed_spent tx.inputs (false, topic))
          ≡ added false topic (spent tx.inputs ++ made) =
        ap (feed_funding funding_created tx.outputs) (feed_spent_lem tx.inputs false topic)
        ∙ feed_funding_lem funding_created tx.outputs before.0 before.1
        ∙ added-added topic (spent tx.inputs) made in
      ap (publish (applied_tx ts tx)) fed
      ∙ publish-added (applied_tx ts tx) topic (spent tx.inputs ++ made)
  funding_try_handle_lem topic (unapplied_tx tx) =
      ap (publish (unapplied_tx tx)) (feed_funding_lem gone tx.outputs false topic)
      ∙ publish-added (unapplied_tx tx) topic (funded gone tx.outputs)
