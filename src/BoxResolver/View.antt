-- ===== src/BoxResolver/View.antt =====
-- What an `EntityRepo` promises: five finite maps, and its operations on them.
use mathlib.Core.Option
use spectrum_offchain_ergo.Prelude.{ℕ, ◌==◌, Option, none, some, if◌then◌else◌}
use spectrum_offchain_ergo.Data.{OnChainEntity, Traced}

-- The states by their identifiers, the predecessors of predicted states, and for each entity the
-- identifiers of its last predicted, confirmed and unconfirmed states.
pub record View (TEntity : Type 0) : Type 0 where
  pub state : ℕ → Option TEntity
  pub link : ℕ → Option ℕ
  pub predicted : ℕ → Option ℕ
  pub confirmed : ℕ → Option ℕ
  pub unconfirmed : ℕ → Option ℕ

abbrev pub at : {A : Type 0} → ℕ → Option A → (ℕ → Option A) → ℕ → Option A
at k v m j = if k == j then v else m j

module _ {TEntity : Type 0} (O : OnChainEntity TEntity) where
  open O use {get_self_ref, get_self_state_ref}

  abbrev pub put_predicted : View TEntity → Traced TEntity → View TEntity
  put_predicted v t =
      let sid = get_self_state_ref t.state in
      record v {
        state = at sid (some t.state) v.state;
        predicted = at (get_self_ref t.state) (some sid) v.predicted;
        link = elim t.prev_state_id [ none ↦ v.link | some prev ↦ at sid (some prev) v.link ];
      }

  abbrev pub put_confirmed : View TEntity → TEntity → View TEntity
  put_confirmed v e = record v {
    state = at (get_self_state_ref e) (some e) v.state;
    confirmed = at (get_self_ref e) (some (get_self_state_ref e)) v.confirmed;
  }

  abbrev pub put_unconfirmed : View TEntity → TEntity → View TEntity
  put_unconfirmed v e = record v {
    state = at (get_self_state_ref e) (some e) v.state;
    unconfirmed = at (get_self_ref e) (some (get_self_state_ref e)) v.unconfirmed;
  }

  -- back to the predecessor of an invalidated state, if it is known
  abbrev pub invalidate : View TEntity → ℕ → ℕ → View TEntity
  invalidate v sid eid = record v {
    link = at sid none v.link;
    confirmed = at eid (v.link sid) v.confirmed;
    unconfirmed = at eid none v.unconfirmed;
  }

  abbrev pub eliminate : View TEntity → TEntity → View TEntity
  eliminate v e = record v {
    link = at (get_self_state_ref e) none v.link;
    predicted = at (get_self_ref e) none v.predicted;
    confirmed = at (get_self_ref e) none v.confirmed;
    unconfirmed = at (get_self_ref e) none v.unconfirmed;
  }

  abbrev pub get_last_confirmed : View TEntity → ℕ → Option TEntity
  get_last_confirmed v id = Option.bind (v.confirmed id) v.state

  abbrev pub get_last_unconfirmed : View TEntity → ℕ → Option TEntity
  get_last_unconfirmed v id = Option.bind (v.unconfirmed id) v.state

  -- a prediction counts while its link is there
  abbrev pub get_last_predicted : View TEntity → ℕ → Option TEntity
  get_last_predicted v id =
      Option.bind (v.predicted id) λ sid. Option.bind (v.link sid) λ prev. v.state sid
