-- ===== src/Lm/Bundles/Resolve.antt =====
-- `resolve_bundle_state` of bundle.rs in spectrum-offchain-lm/src.
use mathlib.Core.Option
use spectrum_offchain_ergo.Prelude.{
  ℕ, suc, ◌<◌, ◌≡◌, ◌≢◌, ◌⊎◌, inl, inr, refl, ap, ◌∙◌, Option, none, some, arith, ◌==◌, bytes_eq,
  Option-cases, Bool-cases,
}
use spectrum_offchain_ergo.Data.{Traced}
use spectrum_offchain_ergo.Storage.{Bytes, RocksDb, Bincode, Codec}
use spectrum_offchain_ergo.BoxResolver.Resolve.{
  is_linking, resolve_states, choose, resolve_states_lem, Resolved,
}
use spectrum_offchain_ergo.Lm.Types.{AsBox, StakingBundle}
use spectrum_offchain_ergo.Lm.Bundles.{
  IndexedBundle, plain, bundle_entity, Words, state_prefix, prediction_link_prefix,
  last_predicted_prefix, last_confirmed_prefix, key, put_confirmed, put_predicted, invalidate,
  get_last, get_last_confirmed, get_last_predicted, get_prediction_predecessor, resolve_match,
  resolve_bundle_state,
}
use spectrum_offchain_ergo.Lm.Bundles.Reads.{
  put_confirmed-get, put_predicted-get, get_last_lem, get_prediction_predecessor_lem,
  invalidate-get,
}

module _ (R : RocksDb) (B : Bincode) (U : Words) (C : Codec (AsBox IndexedBundle)) where
  open R use {Db, get}
  open B use {ser_id, de_id, de_id-ser_id}
  open C use {serialize, deserialize}

  -- the `match` is that of an entity with no unconfirmed state
  pub resolve_match-eq-resolve_states :
      (fuel : ℕ) (links : ℕ → Option ℕ) (conf pred : Option (AsBox StakingBundle))
      → resolve_match R B U C fuel links conf pred
        ≡ resolve_states bundle_entity fuel links conf none pred
  unfolding resolve_match resolve_states choose
  resolve_match-eq-resolve_states fuel links (some conf) (some pred) =
      elim (Option-cases (is_linking fuel links pred.entity.state_id conf.entity.state_id)) [
        | inl e ↦ ground (arith, e)
        | inr (b, e) ↦ ground (arith, e)
      ]
  resolve_match-eq-resolve_states fuel links (some conf) none = refl
  resolve_match-eq-resolve_states fuel links none (some pred) = refl
  resolve_match-eq-resolve_states fuel links none none = refl

  -- Where each link goes down in some rank, `resolve_bundle_state` ends. With a confirmed state and a
  -- predicted one it is the prediction if that is the confirmed state or comes from it by links, and
  -- else the confirmed state; with a confirmed state alone it is that, and without one nothing.
  pub resolve_bundle_state_lem :
      (db : Db) (rank : ℕ → ℕ) (fuel id : ℕ)
      → ((s t : ℕ) → get_prediction_predecessor R B U C db s ≡ some t → rank t < rank s)
      → ((p : AsBox StakingBundle)
          → get_last_predicted R B U C db id ≡ some p
          → rank p.entity.state_id < fuel)
      → (r : Option (AsBox StakingBundle)) × (resolve_bundle_state R B U C fuel db id ≡ some r)
        × Resolved bundle_entity
            (get_prediction_predecessor R B U C db)
            (get_last_confirmed R B U C db id)
            none
            (get_last_predicted R B U C db id)
            r
  unfolding resolve_bundle_state
  resolve_bundle_state_lem db rank fuel id down enough =
      let links = get_prediction_predecessor R B U C db in
      let conf = get_last_confirmed R B U C db id in
      let pred = get_last_predicted R B U C db id in
      let (r, ran, spec) =
        resolve_states_lem bundle_entity links rank down fuel conf none pred enough in
      (r, resolve_match-eq-resolve_states fuel links conf pred ∙ ran, spec)

  resolve_match_linked :
      (fuel : ℕ) (links : ℕ → Option ℕ) (conf pred : AsBox StakingBundle)
      → links pred.entity.state_id ≡ some conf.entity.state_id
      → resolve_match R B U C (suc fuel) links (some conf) (some pred) ≡ some (some pred)
  unfolding resolve_match is_linking
  resolve_match_linked fuel links conf pred e = ground (arith, e)

  -- A bundle that was confirmed, and whose next state was then predicted from it, resolves to the
  -- prediction: in any repository, with fuel for one link.
  pub resolve_bundle_state-put_predicted :
      (db : Db) (c p : AsBox IndexedBundle) (fuel : ℕ)
      → p.entity.bundle.bundle_key_id ≡ c.entity.bundle.bundle_key_id
      → p.entity.bundle.state_id ≢ c.entity.bundle.state_id
      → let after =
          put_predicted R B U C
            (put_confirmed R B U C db c)
            (record { state = p; prev_state_id = some c.entity.bundle.state_id }) in
        resolve_bundle_state R B U C (suc fuel) after c.entity.bundle.bundle_key_id
        ≡ some (some (plain p))
  unfolding resolve_bundle_state get_last_confirmed get_last_predicted bytes_eq
  resolve_bundle_state-put_predicted db c p fuel same_key other =
      let db1 = put_confirmed R B U C db c in
      let cid = c.entity.bundle.state_id in
      let pid = p.entity.bundle.state_id in
      let id = c.entity.bundle.bundle_key_id in
      let t : Traced (AsBox IndexedBundle) = record { state = p; prev_state_id = some cid } in
      let after = put_predicted R B U C db1 t in
      let conf : get_last R B U C last_confirmed_prefix after id ≡ some (plain c) =
        get_last_lem R B U C last_confirmed_prefix after id cid c
          (ground (
            arith,
            put_predicted-get R B U C db1 t last_confirmed_prefix id cid refl refl,
            put_confirmed-get R B U C db c last_confirmed_prefix id refl,
          ))
          (ground (
            arith,
            other,
            put_predicted-get R B U C db1 t state_prefix cid cid refl refl,
            put_confirmed-get R B U C db c state_prefix cid refl,
          )) in
      let pred : get_last R B U C last_predicted_prefix after id ≡ some (plain p) =
        get_last_lem R B U C last_predicted_prefix after id pid p
          (ground (
            arith,
            same_key,
            put_predicted-get R B U C db1 t last_predicted_prefix id cid refl refl,
          ))
          (ground (arith, put_predicted-get R B U C db1 t state_prefix pid cid refl refl)) in
      let link = get_prediction_predecessor_lem R B U C after pid cid (
        ground (arith, put_predicted-get R B U C db1 t prediction_link_prefix pid cid refl refl)) in
      rw (conf, pred)
        (resolve_match_linked fuel (get_prediction_predecessor R B U C after) (plain c) (plain p)
          link)

  -- every value at the key of a state is one of a bundle in that state
  abbrev pub StatesParse : Db → Type 0
  StatesParse db =
      (sid : ℕ) (v : Bytes) (st : AsBox IndexedBundle)
      → get db (key R B U C state_prefix sid) ≡ some v
      → deserialize v ≡ some st
      → st.entity.bundle.state_id ≡ sid

  get_last_inv :
      (prefix : Bytes) (db : Db) (id : ℕ) (e : AsBox StakingBundle)
      → get_last R B U C prefix db id ≡ some e
      → (sid : ℕ) × (v : Bytes) × (st : AsBox IndexedBundle) × (get db
            (key R B U C state_prefix sid)
          ≡ some v)
        × (deserialize v ≡ some st)
        × (e ≡ plain st)
  unfolding get_last Option.bind
  get_last_inv prefix db id e h = elim (Option-cases (get db (key R B U C prefix id))) [
    | inl z ↦ ground (arith, h, z)
    | inr (bs, z) ↦ elim (Option-cases (de_id bs)) [
      | inl y ↦ ground (arith, h, z, y)
      | inr (sid, y) ↦ elim (Option-cases (get db (key R B U C state_prefix sid))) [
        | inl x ↦ ground (arith, h, z, y, x)
        | inr (v, x) ↦ elim (Option-cases (deserialize v)) [
          | inl w ↦ ground (arith, h, z, y, x, w)
          | inr (st, w) ↦ (sid, v, st, x, w, ground (arith, h, z, y, x, w))
        ]
      ]
    ]
  ]

  resolve_match-source :
      (fuel : ℕ) (links : ℕ → Option ℕ) (conf pred : Option (AsBox StakingBundle))
      (e : AsBox StakingBundle)
      → resolve_match R B U C fuel links conf pred ≡ some (some e)
      → (conf ≡ some e) ⊎ (pred ≡ some e)
  unfolding resolve_match
  resolve_match-source fuel links (some conf) (some pred) e h =
      elim (Option-cases (is_linking fuel links pred.entity.state_id conf.entity.state_id)) [
        | inl z ↦ ground (arith, h, z)
        | inr (b, z) ↦ ground (arith, h, z)
      ]
  resolve_match-source fuel links (some conf) none e h = ground (arith, h)
  resolve_match-source fuel links none (some pred) e h = ground (arith, h)
  resolve_match-source fuel links none none e h = ground (arith, h)

  get_last-invalidate :
      (prefix : Bytes) (db : Db) (sid id : ℕ) (e : AsBox StakingBundle)
      → StatesParse db
      → get_last R B U C prefix (invalidate R B U C db sid) id ≡ some e
      → e.entity.state_id ≢ sid
  unfolding bytes_eq
  get_last-invalidate prefix db sid id e parse h same =
      let (s, v, st, stored, parsed, is) = get_last_inv prefix (invalidate R B U C db sid) id e h in
      let read = invalidate-get R B U C db sid state_prefix s in
      let state : e.entity.state_id ≡ st.entity.bundle.state_id =
        ap (λ (x : AsBox StakingBundle). x.entity.state_id) is in
      elim (Bool-cases (sid == s)) [
        | inl t ↦ ground (arith, stored, read, t)
        | inr f ↦
            let old : get db (key R B U C state_prefix s) ≡ some v =
              ground (arith, stored, read, f) in
            ground (arith, parse s v st old parsed, state, same, f)
      ]

  -- After `invalidate` no bundle resolves to the invalidated state, whatever the fuel.
  pub resolve_bundle_state-invalidate :
      (db : Db) (sid fuel id : ℕ) (e : AsBox StakingBundle)
      → StatesParse db
      → resolve_bundle_state R B U C fuel (invalidate R B U C db sid) id ≡ some (some e)
      → e.entity.state_id ≢ sid
  unfolding resolve_bundle_state get_last_confirmed get_last_predicted
  resolve_bundle_state-invalidate db sid fuel id e parse h =
      let db' = invalidate R B U C db sid in
      elim (resolve_match-source fuel (get_prediction_predecessor R B U C db')
        (get_last R B U C last_confirmed_prefix db' id)
        (get_last R B U C last_predicted_prefix db' id) e h) [
          | inl c ↦ get_last-invalidate last_confirmed_prefix db sid id e parse c
          | inr p ↦ get_last-invalidate last_predicted_prefix db sid id e parse p
        ]
