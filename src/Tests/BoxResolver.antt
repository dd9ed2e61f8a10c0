-- ===== src/Tests/BoxResolver.antt =====
-- The entity repository over the store in memory, with entities that are an identifier and the
-- identifier of a state.
use mathlib.Core.Option
use spectrum_offchain_ergo.Prelude.{
  ℕ, zero, suc, ◌<◌, ◌≡◌, ◌≢◌, refl, Option, none, some, sym, ap, ◌∙◌, if◌then◌else◌, [], ◌∷◌,
  arith, ◌==◌, bytes_eq,
}
use spectrum_offchain_ergo.Data.{OnChainEntity, Traced}
use spectrum_offchain_ergo.Storage.{Bytes, Codec, prefixed_key}
use spectrum_offchain_ergo.BoxResolver.Repo
use spectrum_offchain_ergo.BoxResolver.View
use spectrum_offchain_ergo.BoxResolver.Writes.{view, read, view-put_confirmed, view-put_predicted}
use spectrum_offchain_ergo.BoxResolver.Refinement.{
  LinksParse, LinksParse-operations, EntityRepo-View, get_state-View,
}
use spectrum_offchain_ergo.BoxResolver.Resolve.{
  EntityRepoRocksDb, is_linking, choose, resolve_states, resolve_entity_state, Resolved,
  resolve_entity_state_lem,
}
use spectrum_offchain_ergo.BoxResolver.Invalidate.{resolve_entity_state-invalidate}
use spectrum_offchain_ergo.BoxResolver.Predict.{resolve_entity_state-put_predicted}
use spectrum_offchain_ergo.Tests.Rocks.{Pairs, memory, digits, de_id, get, put, ser_str}

abbrev pub Thing : Type 0
Thing = ℕ × ℕ

abbrev pub things : OnChainEntity Thing
things = record { get_self_ref = λ e. e.0; get_self_state_ref = λ e. e.1 }

abbrev pub write_thing : Thing → Bytes
write_thing e = e.0 ∷ e.1 ∷ []

abbrev pub read_thing : Bytes → Option Thing
read_thing (i ∷ s ∷ []) = some (i, s)
read_thing _ = none

pub read_thing-write_thing : (e : Thing) → read_thing (write_thing e) ≡ some e
read_thing-write_thing e = refl

abbrev pub thing_codec : Codec Thing
thing_codec = record {
  serialize = write_thing;
  deserialize = read_thing;
  deserialize-serialize = read_thing-write_thing;
}

-- entity 1 confirmed in state 10, and predicted in state 11 from it
abbrev pub confirmed_db : Pairs
confirmed_db = Repo.put_confirmed things memory digits thing_codec [] (1, 10)

abbrev pub predicted_db : Pairs
predicted_db =
    Repo.put_predicted things memory digits thing_codec confirmed_db
      (record { state = (1, 11); prev_state_id = some 10 })

-- the links of the three repositories
empty_links : (s : ℕ) → Repo.get_prediction_predecessor things memory digits thing_codec [] s ≡ none
unfolding Repo.get_prediction_predecessor get Option.bind
empty_links s = refl

pub confirmed_links :
    (s : ℕ) → Repo.get_prediction_predecessor things memory digits thing_codec confirmed_db s ≡ none
confirmed_links s =
    (get_state-View things memory digits thing_codec confirmed_db s).1
    ∙ ap (λ v. v.link s) (view-put_confirmed things memory digits thing_codec [] (1, 10))
    ∙ sym (get_state-View things memory digits thing_codec [] s).1
    ∙ empty_links s

predicted_links :
    (db : Pairs) (n prev s : ℕ)
    → Repo.get_prediction_predecessor things memory digits thing_codec
        (Repo.put_predicted things memory digits thing_codec db
          (record { state = (1, n); prev_state_id = some prev }))
        s
      ≡ (if n == s
          then some prev
          else Repo.get_prediction_predecessor things memory digits thing_codec db s)
predicted_links db n prev s =
    (get_state-View things memory digits thing_codec _ s).1
    ∙ ap (λ v. v.link s)
        (view-put_predicted things memory digits thing_codec db
          (record { state = (1, n); prev_state_id = some prev }))
    ∙ ap (λ l. if n == s then some prev else l)
        (sym (get_state-View things memory digits thing_codec db s).1)

abbrev pub repo_rank : ℕ → ℕ
repo_rank s = if s == 12 then 2 else if s == 11 then 1 else 0

pub rank_below : (s : ℕ) → repo_rank s < 3
rank_below s = ground arith

pub predicted_down :
    (s t : ℕ)
    → Repo.get_prediction_predecessor things memory digits thing_codec predicted_db s ≡ some t
    → repo_rank t < repo_rank s
predicted_down s t e = ground (arith, e, predicted_links confirmed_db 11 10 s, confirmed_links s)

pub next_down :
    (s t : ℕ)
    → Repo.get_prediction_predecessor things memory digits thing_codec
        (Repo.put_predicted things memory digits thing_codec predicted_db
          (record { state = (1, 12); prev_state_id = some 11 }))
        s
      ≡ some t
    → repo_rank t < repo_rank s
next_down s t e = ground (
  arith,
  e,
  predicted_links predicted_db 12 11 s,
  predicted_links confirmed_db 11 10 s,
  confirmed_links s,
)

empty_LinksParse : LinksParse things memory digits thing_codec []
unfolding get
empty_LinksParse s v e = cc

confirmed_LinksParse : LinksParse things memory digits thing_codec confirmed_db
confirmed_LinksParse =
    (LinksParse-operations things memory digits thing_codec []
      (record { state = (1, 11); prev_state_id = some 10 }) (1, 10) 10 1 empty_LinksParse).1

pub predicted_LinksParse : LinksParse things memory digits thing_codec predicted_db
predicted_LinksParse =
    (LinksParse-operations things memory digits thing_codec confirmed_db
      (record { state = (1, 11); prev_state_id = some 10 }) (1, 10) 10 1 confirmed_LinksParse).0

abbrev next : Traced Thing
next = record { state = (1, 12); prev_state_id = some 11 }

EntityRepo-View_example :
    let v = view things memory digits thing_codec predicted_db in
    (view things memory digits thing_codec
        (Repo.put_predicted things memory digits thing_codec predicted_db next)
      ≡ View.put_predicted things v next)
    × (view things memory digits thing_codec
          (Repo.put_confirmed things memory digits thing_codec predicted_db (1, 11))
        ≡ View.put_confirmed things v (1, 11))
    × (view things memory digits thing_codec
          (Repo.put_unconfirmed things memory digits thing_codec predicted_db (1, 11))
        ≡ View.put_unconfirmed things v (1, 11))
    × (view things memory digits thing_codec
          (Repo.invalidate things memory digits thing_codec predicted_db 11 1)
        ≡ View.invalidate things v 11 1)
    × (view things memory digits thing_codec
          (Repo.eliminate things memory digits thing_codec predicted_db (1, 11))
        ≡ View.eliminate things v (1, 11))
    × (Repo.get_state things memory digits thing_codec predicted_db 11 ≡ v.state 11)
    × (Repo.get_prediction_predecessor things memory digits thing_codec predicted_db 11 ≡ v.link 11)
    × (Repo.get_last_predicted things memory digits thing_codec predicted_db 1
        ≡ View.get_last_predicted things v 1)
    × (Repo.get_last_confirmed things memory digits thing_codec predicted_db 1
        ≡ View.get_last_confirmed things v 1)
    × (Repo.get_last_unconfirmed things memory digits thing_codec predicted_db 1
        ≡ View.get_last_unconfirmed things v 1)
EntityRepo-View_example =
    EntityRepo-View things memory digits thing_codec predicted_db next (1, 11) 11 1
      predicted_LinksParse

-- states 3, 2, 1, each from the one before
abbrev chain : ℕ → Option ℕ
chain zero = none
chain (suc n) = some n

chain_down : (s t : ℕ) → chain s ≡ some t → t < s
chain_down zero t e = absurd (ground (arith, e))
chain_down (suc n) t e = ground (arith, e)

-- what a run of the resolver computes with
program : Unit {0}
unfolding is_linking choose resolve_states resolve_entity_state Repo.get_prediction_predecessor
    Repo.get_last_predicted Repo.get_last_confirmed Repo.get_last_unconfirmed Repo.put_confirmed
    Repo.put_predicted Repo.get_state prefixed_key get put bytes_eq ser_str de_id Option.bind
program = tt

resolve_entity_state_lem_example :
    (r : Option Thing) × (resolve_entity_state things
        (EntityRepoRocksDb things memory digits thing_codec)
        3
        predicted_db
        1
      ≡ some r)
    × Resolved things
        (Repo.get_prediction_predecessor things memory digits thing_codec predicted_db)
        (Repo.get_last_confirmed things memory digits thing_codec predicted_db 1)
        (Repo.get_last_unconfirmed things memory digits thing_codec predicted_db 1)
        (Repo.get_last_predicted things memory digits thing_codec predicted_db 1)
        r
resolve_entity_state_lem_example =
    resolve_entity_state_lem things (EntityRepoRocksDb things memory digits thing_codec)
      predicted_db repo_rank 3 1 predicted_down (λ p _. rank_below p.1)

-- the states have their own identifiers
pub keyed :
    (i : ℕ) (e : Thing)
    → Repo.get_state things memory digits thing_codec predicted_db i ≡ some e
    → e.1 ≡ i
unfolding view read get Option.bind
keyed i e h = ground (
  arith,
  sym (get_state-View things memory digits thing_codec predicted_db i).0 ∙ h,
  ap (λ v. v.state i)
      (view-put_predicted things memory digits thing_codec confirmed_db
        (record { state = (1, 11); prev_state_id = some 10 })),
  ap (λ v. v.state i) (view-put_confirmed things memory digits thing_codec [] (1, 10)),
)

resolve_entity_state-invalidate_example :
    (r : Option Thing) × (resolve_entity_state things
        (EntityRepoRocksDb things memory digits thing_codec)
        3
        (Repo.invalidate things memory digits thing_codec predicted_db 11 1)
        1
      ≡ some r)
    × ((e : Thing) → r ≡ some e → e.1 ≢ 11)
resolve_entity_state-invalidate_example =
    resolve_entity_state-invalidate things memory digits thing_codec predicted_db 11 1 repo_rank 3
      predicted_LinksParse keyed predicted_down rank_below

pub next_fresh :
    ((view things memory digits thing_codec predicted_db).state 12 ≡ none)
    × ((view things memory digits thing_codec predicted_db).link 12 ≡ none)
    × ((view things memory digits thing_codec predicted_db).unconfirmed 1 ≢ some 12)
unfolding program view read
next_fresh = (refl, refl, λ e. cc)

resolve_entity_state-put_predicted_example :
    resolve_entity_state things
      (EntityRepoRocksDb things memory digits thing_codec)
      3
      (Repo.put_predicted things memory digits thing_codec predicted_db
        (record { state = (1, 12); prev_state_id = some 11 }))
      1
    ≡ some (some (1, 12))
unfolding program
resolve_entity_state-put_predicted_example =
    resolve_entity_state-put_predicted things memory digits thing_codec predicted_db (1, 10) (1, 11)
      (1, 12) repo_rank 3 predicted_LinksParse refl refl next_fresh.0 next_fresh.1 next_fresh.2
      next_down rank_below

pub resolves_now :
    resolve_entity_state things
      (EntityRepoRocksDb things memory digits thing_codec)
      3
      predicted_db
      1
    ≡ some (some (1, 11))
unfolding program
resolves_now = refl

pub confirmed_now :
    Repo.get_last_confirmed things memory digits thing_codec predicted_db 1 ≡ some (1, 10)
unfolding program
confirmed_now = refl
