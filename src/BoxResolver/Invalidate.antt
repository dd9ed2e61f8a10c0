-- ===== src/BoxResolver/Invalidate.antt =====
-- `invalidate` and `resolve_entity_state` together: what a failed submission does to an entity.
use mathlib.Core.Option
use mathlib.Core.Path.{fun_ext}
use spectrum_offchain_ergo.Prelude.{
  ℕ, ◌<◌, ◌≡◌, ◌≢◌, sym, ◌∙◌, ap, inl, inr, Option, some, arith, Option-cases, ==_self,
}
use spectrum_offchain_ergo.Data.{OnChainEntity}
use spectrum_offchain_ergo.Storage.{RocksDb, Bincode, Codec}
use spectrum_offchain_ergo.BoxResolver.Repo
use spectrum_offchain_ergo.BoxResolver.View
use spectrum_offchain_ergo.BoxResolver.View.{View}
use spectrum_offchain_ergo.BoxResolver.Writes.{view, view-invalidate}
use spectrum_offchain_ergo.BoxResolver.Refinement.{
  LinksParse, LinksParse-invalidate, get_last_predicted-View, get_last_confirmed-View,
  get_last_unconfirmed-View, get_state-View,
}
use spectrum_offchain_ergo.BoxResolver.Resolve.{
  EntityRepoRocksDb, resolve_entity_state, Resolved, Resolved-source, resolve_entity_state_lem,
}

module _ {TEntity : Type 0} (O : OnChainEntity TEntity) (v : View TEntity) (sid eid : ℕ) where
  open O use {get_self_state_ref}

  abbrev after : View TEntity
  after = View.invalidate O v sid eid

  module _ (keyed : (i : ℕ) (e : TEntity) → v.state i ≡ some e → get_self_state_ref e ≡ i)
      (rank : ℕ → ℕ) (down : (s t : ℕ) → v.link s ≡ some t → rank t < rank s) where
    confirmed_ne :
        (c : TEntity) → View.get_last_confirmed O after eid ≡ some c → get_self_state_ref c ≢ sid
    unfolding Option.bind
    confirmed_ne c e = elim (Option-cases (v.link sid)) [
      | inl n ↦ absurd (ground (arith, e, n, ==_self eid))
      | inr (p, l) ↦
          λ is. ground (arith, down sid p l, is, keyed p c (ground (arith, e, l, ==_self eid)))
    ]

    predicted_ne :
        (p : TEntity) → View.get_last_predicted O after eid ≡ some p → get_self_state_ref p ≢ sid
    unfolding Option.bind
    predicted_ne p e = elim (Option-cases (v.predicted eid)) [
      | inl n ↦ absurd (ground (arith, e, n))
      | inr (q, l) ↦ λ is. ground (arith, e, l, is, keyed q p)
    ]

    Resolved-after :
        (r : Option TEntity) (e : TEntity)
        → Resolved O after.link
            (View.get_last_confirmed O after eid)
            (View.get_last_unconfirmed O after eid)
            (View.get_last_predicted O after eid)
            r
        → r ≡ some e
        → get_self_state_ref e ≢ sid
    unfolding Option.bind
    Resolved-after r e spec is =
        elim (Resolved-source O after.link _ (View.get_last_unconfirmed O after eid) _ r e spec
          is) [
            | inl c ↦ confirmed_ne e c
            | inr (inl u) ↦ absurd (ground (arith, u, ==_self eid))
            | inr (inr p) ↦ predicted_ne e p
          ]

    after-down : (s t : ℕ) → after.link s ≡ some t → rank t < rank s
    after-down s t e = down s t (ground (arith, e))

-- In a store whose links all parse, where each state is stored under its own identifier, and where
-- a rank that stays below the fuel falls along every link, so that no links go round: after
-- `invalidate` of a state of an entity, `resolve_entity_state` ends, and what it gives for the entity
-- is never the state that was invalidated.
pub resolve_entity_state-invalidate :
    {TEntity : Type 0} (O : OnChainEntity TEntity) (R : RocksDb) (B : Bincode) (C : Codec TEntity)
    (db : R.Db) (sid eid : ℕ) (rank : ℕ → ℕ) (fuel : ℕ)
    → LinksParse O R B C db
    → ((i : ℕ) (e : TEntity) → Repo.get_state O R B C db i ≡ some e → O.get_self_state_ref e ≡ i)
    → ((s t : ℕ) → Repo.get_prediction_predecessor O R B C db s ≡ some t → rank t < rank s)
    → ((s : ℕ) → rank s < fuel)
    → (r : Option TEntity) × (resolve_entity_state O
          (EntityRepoRocksDb O R B C)
          fuel
          (Repo.invalidate O R B C db sid eid)
          eid
        ≡ some r)
      × ((e : TEntity) → r ≡ some e → O.get_self_state_ref e ≢ sid)
resolve_entity_state-invalidate {TEntity} O R B C db sid eid rank fuel parse keyed down enough =
    let db' = Repo.invalidate O R B C db sid eid in
    let v = view O R B C db in
    let keyed' : (i : ℕ) (e : TEntity) → v.state i ≡ some e → O.get_self_state_ref e ≡ i =
      λ i e h. keyed i e ((get_state-View O R B C db i).0 ∙ h) in
    let down' : (s t : ℕ) → v.link s ≡ some t → rank t < rank s =
      λ s t h. down s t ((get_state-View O R B C db s).1 ∙ h) in
    let same = view-invalidate O R B C db sid eid in
    let links : (s : ℕ)
        → Repo.get_prediction_predecessor O R B C db' s ≡ (after O v sid eid).link s =
      λ s. (get_state-View O R B C db' s).1 ∙ ap (λ w. w.link s) same in
    let conf =
      get_last_confirmed-View O R B C db' eid ∙ ap (λ w. View.get_last_confirmed O w eid) same in
    let unconf =
      get_last_unconfirmed-View O R B C db' eid
      ∙ ap (λ w. View.get_last_unconfirmed O w eid) same in
    let pred =
      get_last_predicted-View O R B C db' eid (LinksParse-invalidate O R B C db sid eid parse)
      ∙ ap (λ w. View.get_last_predicted O w eid) same in
    let (r, ran, spec) =
      resolve_entity_state_lem O (EntityRepoRocksDb O R B C) db' rank fuel eid
        (λ s t h. after-down O v sid eid keyed' rank down' s t (sym (links s) ∙ h))
        (λ p _. enough _) in
    let spec' = rw (fun_ext links, conf, unconf, pred) at spec in
    (r, ran, λ e. Resolved-after O v sid eid keyed' rank down' r e spec')
