-- ===== src/Osmosis/Publisher/Watched.antt =====
-- handleBlocks and handleTransactions (internal/osmosis/subscriptions.block.go and
-- subscriptions.tx.go): the loops over the events of a subscription, each with its sentinel.
use osmosis_publisher.Prelude.{
  ℕ, ℤ, pos, ◌*◌, ◌+ℤ◌, ◌*ℤ◌, ◌≤ℤ◌, Text, List, [], ◌∷◌, ◌++◌, map, append-nil, Option, none, some,
  ◌≡◌, refl, sym, ◌∙◌, ap,
}
use osmosis_publisher.Types.{Time, Float64, err, nanos_per_second}
use osmosis_publisher.Interfaces.{Block}
use osmosis_publisher.Osmosis.Publisher.{Site, Act, ◌>>◌, followed}
use osmosis_publisher.Osmosis.Publisher.Handlers.{
  Wiring, handle_new_block, handle_transaction, handle_other_event,
}
use osmosis_publisher.Osmosis.Publisher.Events.{Event, handle, handle_all}
use osmosis_publisher.Osmosis.Publisher.Sentinel.{
  make_sentinel, watched, timed_out, IsInTime, last_time, followed_same, followed-pure, followed_eq,
  watched_early, watched_late,
}

abbrev pub minute : ℤ
minute = pos (60 * nanos_per_second)

-- The events of the subscriptions.
abbrev pub event_of_block : Option (Block × Time) → Event
event_of_block (some (block, now)) = Event.new_block block now
event_of_block none = Event.other_event

abbrev event_of_transaction : Option (Text × ℕ) → Event
event_of_transaction (some (raw, code)) = Event.transaction raw code
event_of_transaction none = Event.other_event

module _ {F S D B J P : Type 0} ⦃float : Float64 F⦄ (wiring : Wiring F S D B J P) where
  -- An event of the blocks' subscription: a new block and the time of now, or another.
  abbrev block_event : Option (Block × Time) → Act (Site F S B J P) (Unit {0})
  block_event (some (block, now)) = handle_new_block wiring block now
  block_event none = handle_other_event wiring

  -- handleBlocks
  unfoldable pub handle_blocks :
      Time → List (Time × Option (Block × Time)) → Act (Site F S B J P) (Unit {0})
  unfolding watched make_sentinel
  handle_blocks start events = watched block_event events (make_sentinel minute start)

  abbrev transaction_event : Option (Text × ℕ) → Act (Site F S B J P) (Unit {0})
  transaction_event (some (raw, code)) = handle_transaction wiring raw code
  transaction_event none = handle_other_event wiring

  -- handleTransactions
  unfoldable handle_transactions :
      Time → List (Time × Option (Text × ℕ)) → Act (Site F S B J P) (Unit {0})
  unfolding watched make_sentinel
  handle_transactions start events =
      watched transaction_event events (make_sentinel (pos 10 *ℤ minute) start)

module _ {F S D B J P : Type 0} ⦃float : Float64 F⦄ (wiring : Wiring F S D B J P) where
  module _ {E : Type 0} (step : E → Act (Site F S B J P) (Unit {0})) (event_of : E → Event)
      (same : (e : E) (s : Site F S B J P) → step e s ≡ handle wiring (event_of e) s)
      (timeout : ℤ) where
    abbrev events_of : List (Time × E) → List Event
    events_of = map (λ e. event_of e.1)

    watched-handle_all :
        (last : Time) (es rest : List (Time × E)) (s : Site F S B J P)
        → IsInTime timeout last es
        → watched step (es ++ rest) (make_sentinel timeout last) s
          ≡ (handle_all wiring (events_of es)
                >> watched step rest (make_sentinel timeout (last_time last es)))
              s
    unfolding watched handle_all
    watched-handle_all last [] rest s h = refl
    watched-handle_all last ((t, e) ∷ es) rest s (h, hs) =
        watched_early step timeout last t e (es ++ rest) s h
        ∙ ap (λ r. followed r (λ a. watched step (es ++ rest) (make_sentinel timeout t))) (same e s)
        ∙ followed_eq (handle wiring (event_of e) s) (handle_all wiring (events_of es))
            (watched step (es ++ rest) (make_sentinel timeout t))
            (watched step rest (make_sentinel timeout (last_time t es)))
            (λ s'. watched-handle_all t es rest s' hs)

    abbrev fails_late : Act (Site F S B J P) (Unit {0})
    fails_late s = (err timed_out, s)

    watched_cases :
        (start t : Time) (es rest : List (Time × E)) (e : E) (s : Site F S B J P)
        → IsInTime timeout start es
        → last_time start es +ℤ timeout ≤ℤ t
        → (watched step es (make_sentinel timeout start) s ≡ handle_all wiring (events_of es) s)
          × (watched step (es ++ (t, e) ∷ rest) (make_sentinel timeout start) s
              ≡ (handle_all wiring (events_of es) >> fails_late) s)
    unfolding watched
    watched_cases start t es rest e s h late =
        let done = handle_all wiring (events_of es) s in
        let last = last_time start es in
        (
          ap (λ l. watched step l (make_sentinel timeout start) s) (sym (append-nil es))
              ∙ watched-handle_all start es [] s h
              ∙ followed-pure done,
          watched-handle_all start es ((t, e) ∷ rest) s h
              ∙ followed_same done (watched step ((t, e) ∷ rest) (make_sentinel timeout last))
                  fails_late (λ s'. watched_late step timeout last t e rest s' late),
        )

  block_event-handle :
      (e : Option (Block × Time)) (s : Site F S B J P)
      → block_event wiring e s ≡ handle wiring (event_of_block e) s
  unfolding handle
  block_event-handle (some (block, now)) s = refl
  block_event-handle none s = refl

  transaction_event-handle :
      (e : Option (Text × ℕ)) (s : Site F S B J P)
      → transaction_event wiring e s ≡ handle wiring (event_of_transaction e) s
  unfolding handle
  transaction_event-handle (some (raw, code)) s = refl
  transaction_event-handle none s = refl

  -- If each event of the blocks' subscription is taken before a minute has passed since the one
  -- before, or since the start, the loop handles each in turn, and returns what the handlers do
  -- when the channel is closed; and if a further event is taken a minute or more after the last,
  -- the loop handles those before it, and then, unless a handler panicked or failed, returns that
  -- the subscription timed out, with neither that event nor a later one handled.
  pub handle_blocks-handle_all :
      (start t : Time) (es rest : List (Time × Option (Block × Time))) (e : Option (Block × Time))
      (s : Site F S B J P)
      → IsInTime minute start es
      → last_time start es +ℤ minute ≤ℤ t
      → let handled = handle_all wiring (map (λ x. event_of_block x.1) es) in
        (handle_blocks wiring start es s ≡ handled s)
        × (handle_blocks wiring start (es ++ (t, e) ∷ rest) s
            ≡ (handled >> (λ s'. (err timed_out, s'))) s)
  unfolding handle_blocks
  handle_blocks-handle_all start t es rest e s =
      watched_cases (block_event wiring) event_of_block block_event-handle minute start t es rest e
        s

  -- The loop of transactions likewise, with ten minutes.
  handle_transactions-handle_all :
      (start t : Time) (es rest : List (Time × Option (Text × ℕ))) (e : Option (Text × ℕ))
      (s : Site F S B J P)
      → IsInTime (pos 10 *ℤ minute) start es
      → last_time start es +ℤ (pos 10 *ℤ minute) ≤ℤ t
      → let handled = handle_all wiring (map (λ x. event_of_transaction x.1) es) in
        (handle_transactions wiring start es s ≡ handled s)
        × (handle_transactions wiring start (es ++ (t, e) ∷ rest) s
            ≡ (handled >> (λ s'. (err timed_out, s'))) s)
  unfolding handle_transactions
  handle_transactions-handle_all start t es rest e s =
      watched_cases (transaction_event wiring) event_of_transaction transaction_event-handle
        (pos 10 *ℤ minute) start t es rest e s
