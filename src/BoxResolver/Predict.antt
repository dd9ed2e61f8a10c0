-- ===== src/BoxResolver/Predict.antt =====
-- `put_predicted` and `resolve_entity_state` together: what a submitted transaction does to an
-- entity.
use mathlib.Core.Option
use mathlib.Core.Path.{fun_ext}
use spectrum_offchain_ergo.Prelude.{
  ℕ, ◌<◌, ◌≡◌, ◌≢◌, refl, sym, ◌∙◌, ap, inl, inr, Option, none, some, arith, ==_self, ==_iff,
}
use spectrum_offchain_ergo.Data.{OnChainEntity, Traced}
use spectrum_offchain_ergo.Storage.{RocksDb, Bincode, Codec}
use spectrum_offchain_ergo.BoxResolver.Repo
use spectrum_offchain_ergo.BoxResolver.View
use spectrum_offchain_ergo.BoxResolver.View.{View}
use spectrum_offchain_ergo.BoxResolver.Writes.{view, view-put_predicted}
use spectrum_offchain_ergo.BoxResolver.Refinement.{
  LinksParse, LinksParse-put_predicted, get_last_predicted-View, get_last_confirmed-View,
  get_last_unconfirmed-View, get_state-View,
}
use spectrum_offchain_ergo.BoxResolver.Resolve.{
  EntityRepoRocksDb, resolve_entity_state, Resolved, IsLinked, direct, step, Stands,
  anchoring_point, resolve_entity_state_lem,
}

module _ {T : Type 0} (O : OnChainEntity T) (v : View T) (n : T) (prev : ℕ) where
  open O use {get_self_ref, get_self_state_ref}

  abbrev after : View T
  after = View.put_predicted O v (record { state = n; prev_state_id = some prev })

  -- the new state is not known before
  module _ (fresh : v.state (get_self_state_ref n) ≡ none)
      (unlinked : v.link (get_self_state_ref n) ≡ none) where
    last_kept :
        (index : Option ℕ)
        → index ≢ some (get_self_state_ref n)
        → Option.bind index after.state ≡ Option.bind index v.state
    unfolding Option.bind
    last_kept none ne = refl
    last_kept (some i) ne = ground (arith, ne, ==_iff (get_self_state_ref n) i)

    last_some :
        (index : Option ℕ) (c : T)
        → Option.bind index v.state ≡ some c
        → index ≢ some (get_self_state_ref n)
    unfolding Option.bind
    last_some none c e is = cc
    last_some (some i) c e is = ground (arith, e, is, fresh)

    predicted_now : View.get_last_predicted O after (get_self_ref n) ≡ some n
    unfolding Option.bind
    predicted_now = ground (arith, ==_self (get_self_ref n), ==_self (get_self_state_ref n))

    link_now : after.link (get_self_state_ref n) ≡ some prev
    link_now = ground (arith, ==_self (get_self_state_ref n))

    link_kept : (s t : ℕ) → v.link s ≡ some t → after.link s ≡ some t
    link_kept s t e = ground (arith, e, unlinked, ==_iff (get_self_state_ref n) s)

    IsLinked-after : (anchor : ℕ) {s : ℕ} → IsLinked v.link anchor s → IsLinked after.link anchor s
    IsLinked-after anchor (direct {s} e) = direct (link_kept s anchor e)
    IsLinked-after anchor (step {s} {t} e l) = step (link_kept s t e) (IsLinked-after anchor l)

    -- the new prediction stands where the state it is predicted from is resolved
    Stands-after :
        (anchor e : T)
        → get_self_state_ref e ≡ prev
        → Stands O v.link anchor e
        → Stands O after.link anchor n
    Stands-after anchor e is (inl same) = inr (direct (link_now ∙ ap some (sym is ∙ same)))
    Stands-after anchor e is (inr linked) =
        inr (step (link_now ∙ ap some (sym is)) (IsLinked-after (get_self_state_ref anchor) linked))

    Resolved-Stands :
        (conf e : T) (unconf pred : Option T)
        → get_self_state_ref e ≡ prev
        → Resolved O v.link (some conf) unconf pred (some e)
        → Stands O after.link (anchoring_point O conf unconf) n
    Resolved-Stands conf e unconf (some p) is (inl (same, stands)) =
        Stands-after (anchoring_point O conf unconf) p (ground (arith, same, is)) stands
    Resolved-Stands conf e unconf (some p) is (inr (same, _)) =
        Stands-after (anchoring_point O conf unconf) e is (inl (ground (arith, same)))
    Resolved-Stands conf e (some u) none is same = Stands-after u e is (inl (ground (arith, same)))
    Resolved-Stands conf e none none is same = Stands-after conf e is (inl (ground (arith, same)))

    Resolved-after :
        (conf : T) (unconf r : Option T)
        → Stands O after.link (anchoring_point O conf unconf) n
        → Resolved O after.link (some conf) unconf (some n) r
        → r ≡ some n
    Resolved-after conf unconf r stands (inl (is, _)) = is
    Resolved-after conf unconf r stands (inr (_, not_stands)) = absurd (not_stands stands)

-- Where the links go down in some rank once the prediction is written, and its state is not known
-- before: if an entity with a confirmed state resolves to a state, and a prediction from that
-- state is put, then the entity resolves to the prediction.
pub resolve_entity_state-put_predicted :
    {T : Type 0} (O : OnChainEntity T) (R : RocksDb) (B : Bincode) (C : Codec T) (db : R.Db)
    (conf e n : T) (rank : ℕ → ℕ) (fuel : ℕ)
    → let id = O.get_self_ref n in
      let sid = O.get_self_state_ref n in
      let db' =
        Repo.put_predicted O R B C db
          (record { state = n; prev_state_id = some (O.get_self_state_ref e) }) in
      LinksParse O R B C db
      → Repo.get_last_confirmed O R B C db id ≡ some conf
      → resolve_entity_state O (EntityRepoRocksDb O R B C) fuel db id ≡ some (some e)
      → (view O R B C db).state sid ≡ none
      → (view O R B C db).link sid ≡ none
      → (view O R B C db).unconfirmed id ≢ some sid
      → ((s t : ℕ) → Repo.get_prediction_predecessor O R B C db' s ≡ some t → rank t < rank s)
      → ((s : ℕ) → rank s < fuel)
      → resolve_entity_state O (EntityRepoRocksDb O R B C) fuel db' id ≡ some (some n)
resolve_entity_state-put_predicted {T} O R B C db conf e n rank fuel parse confirmed now fresh
      unlinked other down enough =
    let id = O.get_self_ref n in
    let prev = O.get_self_state_ref e in
    let t : Traced T = record { state = n; prev_state_id = some prev } in
    let db' = Repo.put_predicted O R B C db t in
    let v = view O R B C db in
    let same = view-put_predicted O R B C db t in
    let links : (s : ℕ)
        → Repo.get_prediction_predecessor O R B C db' s ≡ (after O v n prev).link s =
      λ s. (get_state-View O R B C db' s).1 ∙ ap (λ w. w.link s) same in
    let links0 : (s : ℕ) → Repo.get_prediction_predecessor O R B C db s ≡ v.link s =
      λ s. (get_state-View O R B C db s).1 in
    let conf0 = sym (get_last_confirmed-View O R B C db id) ∙ confirmed in
    let conf' =
      get_last_confirmed-View O R B C db' id
      ∙ ap (λ w. View.get_last_confirmed O w id) same
      ∙ last_kept O v n prev fresh unlinked (v.confirmed id)
          (last_some O v n prev fresh unlinked (v.confirmed id) conf conf0)
      ∙ conf0 in
    let unconf' =
      get_last_unconfirmed-View O R B C db' id
      ∙ ap (λ w. View.get_last_unconfirmed O w id) same
      ∙ last_kept O v n prev fresh unlinked (v.unconfirmed id) other
      ∙ sym (get_last_unconfirmed-View O R B C db id) in
    let pred' =
      get_last_predicted-View O R B C db' id
        (LinksParse-put_predicted O R B C db n (some prev) parse)
      ∙ ap (λ w. View.get_last_predicted O w id) same
      ∙ predicted_now O v n prev fresh unlinked in
    let down0 : (s t : ℕ)
        → Repo.get_prediction_predecessor O R B C db s ≡ some t
        → rank t < rank s =
      λ s t h. down s t (links s ∙ link_kept O v n prev fresh unlinked s t (sym (links0 s) ∙ h)) in
    let (r, ran, spec) =
      resolve_entity_state_lem O (EntityRepoRocksDb O R B C) db rank fuel id down0
        (λ p _. enough _) in
    let (r', ran', spec') =
      resolve_entity_state_lem O (EntityRepoRocksDb O R B C) db' rank fuel id down
        (λ p _. enough _) in
    let is : r ≡ some e = ground (arith, ran, now) in
    let resolved = rw (fun_ext links0, confirmed, is) at spec in
    let stands = Resolved-Stands O v n prev fresh unlinked conf e _ _ refl resolved in
    let resolved' = rw (fun_ext links, conf', unconf', pred') at spec' in
    ran'
    ∙ ap some (
        Resolved-after O v n prev fresh unlinked conf (Repo.get_last_unconfirmed O R B C db id) r'
          stands resolved')
