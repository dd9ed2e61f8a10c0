-- ===== src/Events/Sink.antt =====
-- event_sink.rs and event_sink/types.rs: the loop that shows each event to every handler.
use spectrum_offchain_ergo.Prelude.{
  ◌≡◌, refl, sym, ap, ◌∙◌, ◌++◌, append_nil, append_assoc, ◌⊎◌, inl, inr, Option, none, some, List,
  [], ◌∷◌, arith, Option-cases,
}

-- The handlers, with the sinks and repositories they hold, change one state of the program.
-- `EventHandler::try_handle`
abbrev pub EventHandler : Type 0 → Type 0 → Type 0
EventHandler W Ev = W → Ev → Option Ev × W

-- `DefaultEventHandler::handle`
abbrev pub DefaultEventHandler : Type 0 → Type 0 → Type 0
DefaultEventHandler W Ev = W → Ev → W

-- A `Sink` of the futures library: what has been fed and waits, and what has been flushed.
pub record Sink (A : Type 0) : Type 0 where
  pub fed : List A
  pub flushed : List A

module _ {W Ev : Type 0} where
  -- the loop over the handlers, with the event that is still unhandled
  unfoldable pub show_all : List (EventHandler W Ev) → Ev → Option Ev → W → Option Ev × W
  show_all [] ev unhandled_ev w = (unhandled_ev, w)
  show_all (han ∷ hans) ev unhandled_ev w =
      let (maybe_unhandled_ev, w') = han w ev in
      show_all hans ev (elim unhandled_ev [ some _ ↦ maybe_unhandled_ev | none ↦ none ]) w'

  -- the body of `process_events`
  unfoldable pub process_event : List (EventHandler W Ev) → DefaultEventHandler W Ev → W → Ev → W
  unfolding show_all
  process_event handlers default_han w ev =
      let (unhandled_ev, w') = show_all handlers ev (some ev) w in
      elim unhandled_ev [ some unhandled ↦ default_han w' unhandled | none ↦ w' ]

  -- the state once every handler has been shown the event, in order
  abbrev pub after_all : List (EventHandler W Ev) → Ev → W → W
  after_all [] ev w = w
  after_all (han ∷ hans) ev w = after_all hans ev (han w ev).1

  -- every handler gives an event back
  abbrev pub AllUnhandled : List (EventHandler W Ev) → Ev → W → Type 0
  AllUnhandled [] ev w = Unit
  AllUnhandled (han ∷ hans) ev w =
      ((e : Ev) × ((han w ev).0 ≡ some e)) × AllUnhandled hans ev (han w ev).1

  show_all-after :
      (hans : List (EventHandler W Ev)) (ev : Ev) (now : Option Ev) (w : W)
      → (show_all hans ev now w).1 ≡ after_all hans ev w
  unfolding show_all
  show_all-after [] ev now w = refl
  show_all-after (han ∷ hans) ev now w = show_all-after hans ev _ (han w ev).1

  show_all-handled :
      (hans : List (EventHandler W Ev)) (ev : Ev) (w : W) → (show_all hans ev none w).0 ≡ none
  unfolding show_all
  show_all-handled [] ev w = refl
  show_all-handled (han ∷ hans) ev w = show_all-handled hans ev (han w ev).1

  show_all-unhandled :
      (hans : List (EventHandler W Ev)) (ev now : Ev) (w : W)
      → (((show_all hans ev (some now) w).0 ≡ none) × ¬ AllUnhandled hans ev w)
        ⊎ ((e : Ev) × ((show_all hans ev (some now) w).0 ≡ some e) × AllUnhandled hans ev w)
  unfolding show_all
  show_all-unhandled [] ev now w = inr (now, refl, tt)
  show_all-unhandled (han ∷ hans) ev now w = elim (Option-cases (han w ev).0) [
    | inl e ↦ inl (
      rw (e, show_all) (show_all-handled hans ev (han w ev).1),
      λ all. absurd (ground (arith, e, all.0.1)),
    )
    | inr (back, e) ↦ elim (show_all-unhandled hans ev back (han w ev).1) [
      | inl (gone, not_all) ↦ inl (rw (e, show_all) gone, λ all. not_all all.1)
      | inr (last, is, all) ↦ inr (last, rw (e, show_all) is, ((back, e), all))
    ]
  ]

  -- Every handler is shown the event, in order, whatever the ones before it did. The default
  -- handler comes last, and only if each of them gave the event back.
  pub process_event_lem :
      (handlers : List (EventHandler W Ev)) (default_han : DefaultEventHandler W Ev) (w : W)
      (ev : Ev)
      → ((process_event handlers default_han w ev ≡ after_all handlers ev w)
          × ¬ AllUnhandled handlers ev w)
        ⊎ ((e : Ev) × (process_event handlers default_han w ev
              ≡ default_han (after_all handlers ev w) e)
            × AllUnhandled handlers ev w)
  unfolding process_event
  process_event_lem handlers default_han w ev = elim (show_all-unhandled handlers ev ev w) [
    | inl (gone, not_all) ↦ inl (rw (gone, process_event) (show_all-after handlers ev _ w), not_all)
    | inr (e, is, all) ↦ inr (
      e,
      rw (is, process_event) (ap (λ v. default_han v e) (show_all-after handlers ev _ w)),
      all,
    )
  ]

-- `SinkExt::feed` and `SinkExt::flush`; the handlers do not look at their errors
module _ {A : Type 0} where
  unfoldable pub feed : Sink A → A → Sink A
  feed s a = record s { fed = s.fed ++ (a ∷ []) }

  unfoldable pub flush : Sink A → Sink A
  flush s = record { fed = []; flushed = s.flushed ++ s.fed }

  unfoldable pub feed_all : Sink A → List A → Sink A
  unfolding feed
  feed_all s [] = s
  feed_all s (a ∷ more) = feed_all (feed s a) more

  pub feed_all_lem :
      (items : List A) (s : Sink A)
      → feed_all s items ≡ record { fed = s.fed ++ items; flushed = s.flushed }
  unfolding feed_all feed
  feed_all_lem [] s = ap (λ l. record { fed = l; flushed = s.flushed }) (sym (append_nil s.fed))
  feed_all_lem (a ∷ more) s =
      feed_all_lem more (feed s a)
      ∙ ap (λ l. record { fed = l; flushed = s.flushed }) (append_assoc s.fed (a ∷ []) more)
