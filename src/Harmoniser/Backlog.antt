-- ===== src/Harmoniser/Backlog.antt =====
-- eventbacklog.go and blockbacklog.go: which missing events are asked for, and what becomes of the
-- events of a missing range. A time is compared by its nanoseconds; the store of the node and its repository of
-- events are parameters.
use wineventchain.Common.{
  ℕ, ◌+◌, ◌≤◌, ◌<◌, ◌≡◌, inl, inr, Bool, true, false, ◌&&◌, not, ltb, leb, List, [], ◌∷◌, Option,
  none, some, Outcome, ok, err, panic, All, arith, subst, some-injective, Bool-cases, Outcome-cases,
  Option-cases, if◌then◌else◌,
}
use wineventchain.Store.Codec.{TimeFormat, MissingEvent}
use wineventchain.Harmoniser.Listener.{logged}

-- The settings of the backfill.
pub record Backfill : Type 0 where
  pub new_event_ignore_threshold : ℕ
  pub event_max_retries : ℕ
  pub event_retry_interval : ℕ
  pub try_unicast_first : Bool

-- state.Store and repository.Events, as far as the backlog uses them. A call that fails leaves the
-- store as it was.
pub record EventStore (time : TimeFormat) : Type 1 where
  pub State : Type 0
  pub Error : Type 0
  pub exists : List ℕ → Outcome Error Bool
  pub remove_event : State → List ℕ → Outcome Error State
  pub add_event : State → MissingEvent time → Outcome Error State
  pub remove_range : State → List ℕ → Outcome Error State
  pub update_range : State → List ℕ → ℕ → ℕ → Outcome Error State

module _ (time : TimeFormat) (nanoseconds : time.Time → ℕ) (store : EventStore time)
    (config : Backfill) where
  -- Without a request, after the event is removed.
  unfoldable pub drop_event :
      store.State → MissingEvent time → Outcome store.Error (store.State × Bool × Bool)
  drop_event s ev = elim (store.remove_event s ev.event_id) [
    | ok s' ↦ ok (s', false, false)
    | err e ↦ err e
    | panic ↦ panic
  ]

  -- The rest of handleMissingEvent on an event that the repository does not have.
  unfoldable pub retry_event :
      ℕ → store.State → MissingEvent time → Outcome store.Error (store.State × Bool × Bool)
  unfolding drop_event
  retry_event now s ev =
      if ltb now (nanoseconds ev.received_time + config.new_event_ignore_threshold)
      then ok (s, false, false)
      else if leb config.event_max_retries ev.retry_count
      then drop_event s ev
      else if ltb now (nanoseconds ev.last_retry_time + config.event_retry_interval)
      then ok (s, false, false)
      else ok (s, true, not (config.try_unicast_first && not ev.retried_unicast))

  -- handleMissingEvent: whether to request the event, and whether by multicast.
  unfoldable pub handle_missing_event :
      ℕ → store.State → MissingEvent time → Outcome store.Error (store.State × Bool × Bool)
  unfolding retry_event drop_event
  handle_missing_event now s ev = elim (store.exists ev.event_id) [
    | err e ↦ err e
    | panic ↦ panic
    | ok here ↦ if here then drop_event s ev else retry_event now s ev
  ]

  -- The buffers of the event backfill loop over a chunk of events: those to request by multicast,
  -- then those by unicast, with the events in place of their identifiers. The clock is read once for a
  -- chunk. An error is logged; `none` is a panic.
  unfoldable pub request_chunk :
      ℕ
      → store.State
      → List (MissingEvent time)
      → Option (store.State × List (MissingEvent time) × List (MissingEvent time))
  request_chunk now s [] = some (s, [], [])
  request_chunk now s (ev ∷ evs) = elim (handle_missing_event now s ev) [
    | panic ↦ none
    | err e ↦ request_chunk now s evs
    | ok (s', should_request, use_multicast) ↦ elim (request_chunk now s' evs) [
      | none ↦ none
      | some (s'', multicast, unicast) ↦
          if should_request
          then (if use_multicast
              then some (s'', ev ∷ multicast, unicast)
              else some (s'', multicast, ev ∷ unicast))
          else some (s'', multicast, unicast)
    ]
  ]

  -- The events of a chunk, added one by one, and the height of the last.
  unfoldable pub add_events : store.State → List (MissingEvent time) → Option store.State
  unfolding logged
  add_events s [] = some s
  add_events s (ev ∷ evs) = elim (logged s (store.add_event s ev)) [
    | none ↦ none
    | some s' ↦ add_events s' evs
  ]

  unfoldable pub max_height : List (MissingEvent time) → Option ℕ
  max_height [] = none
  max_height (ev ∷ []) = some ev.block_height
  max_height (ev ∷ (next ∷ evs)) = max_height (next ∷ evs)

  -- handleBacklogChunk on the range `low` to `high` with the identifier `id`.
  unfoldable pub handle_backlog_chunk :
      store.State → List ℕ → ℕ → List (MissingEvent time) → Option store.State
  unfolding add_events max_height logged
  handle_backlog_chunk s id high evs = elim (add_events s evs) [
    | none ↦ none
    | some s' ↦ elim (max_height evs) [
      | none ↦ some s'
      | some height ↦
          if leb high (height + 1)
          then logged s' (store.remove_range s' id)
          else logged s' (store.update_range s' id height high)
    ]
  ]

  -- An event that may be asked for at the time `now`: the repository does not have it, it is no new
  -- event, it has retries left and the last of them is long enough ago.
  pub record IsDue (now : ℕ) (ev : MissingEvent time) : Type 0 where
    pub absent : store.exists ev.event_id ≡ ok false
    pub old : nanoseconds ev.received_time + config.new_event_ignore_threshold ≤ now
    pub left : ev.retry_count < config.event_max_retries
    pub waited : nanoseconds ev.last_retry_time + config.event_retry_interval ≤ now

  request-IsDue :
      (now : ℕ) (s s' : store.State) (ev : MissingEvent time) (use_multicast : Bool)
      → handle_missing_event now s ev ≡ ok (s', true, use_multicast)
      → IsDue now ev × (use_multicast ≡ not (config.try_unicast_first && not ev.retried_unicast))
  unfolding handle_missing_event retry_event drop_event
  request-IsDue now s s' ev use_multicast h = elim (Outcome-cases (store.exists ev.event_id)) [
    | inr (inl (x, e)) ↦ absurd (ground arith)
    | inr (inr e) ↦ absurd (ground arith)
    | inl (here, e) ↦ elim (Bool-cases here) [
      | inl found ↦ absurd (ground arith)
      | inr missing ↦ (
        record {
          absent = ground arith;
          old = ground arith;
          left = ground arith;
          waited = ground arith;
        },
        ground arith,
      )
    ]
  ]

  abbrev wants_unicast : MissingEvent time → Bool
  wants_unicast ev = config.try_unicast_first && not ev.retried_unicast

  abbrev Chosen : ℕ → store.State × List (MissingEvent time) × List (MissingEvent time) → Type 0
  Chosen now (s, multicast, unicast) =
      All (λ ev. IsDue now ev × (wants_unicast ev ≡ false)) multicast
      × All (λ ev. IsDue now ev × (wants_unicast ev ≡ true)) unicast

  -- Of a chunk of missing events, only those that are due are requested: by unicast those that were
  -- not retried by it, where the settings say so, and by multicast the others.
  pub request_chunk-IsDue :
      (now : ℕ) (evs : List (MissingEvent time)) (s s' : store.State)
      (multicast unicast : List (MissingEvent time))
      → request_chunk now s evs ≡ some (s', multicast, unicast)
      → All
          (λ ev. IsDue now ev × ((config.try_unicast_first && not ev.retried_unicast) ≡ false))
          multicast
        × All
            (λ ev. IsDue now ev × ((config.try_unicast_first && not ev.retried_unicast) ≡ true))
            unicast
  unfolding request_chunk
  request_chunk-IsDue now [] s s' multicast unicast h =
      subst (Chosen now) (some-injective (s, [], []) (s', multicast, unicast) h) (tt, tt)
  request_chunk-IsDue now (ev ∷ evs) s s' multicast unicast h =
      elim (Outcome-cases (handle_missing_event now s ev)) [
        | inr (inl (x, e)) ↦ request_chunk-IsDue now evs s s' multicast unicast (ground arith)
        | inr (inr e) ↦ absurd (ground arith)
        | inl ((s1, should_request, use_multicast), e) ↦
            elim (Option-cases (request_chunk now s1 evs)) [
              | inl f ↦ absurd (ground arith)
              | inr ((s2, more, others), f) ↦
                  let (many, few) = request_chunk-IsDue now evs s1 s2 more others f in
                  elim (Bool-cases should_request) [
                    | inr quiet ↦
                        let same : ◌≡◌
                            {A = store.State × List (MissingEvent time) × List (MissingEvent time)}
                            (s2, more, others) (s', multicast, unicast) =
                          ground arith in
                        subst (Chosen now) same (many, few)
                    | inl asked ↦
                        let (due, how) = request-IsDue now s s1 ev use_multicast (ground arith) in
                        elim (Bool-cases use_multicast) [
                          | inl wide ↦
                              let same : ◌≡◌
                                  {A = store.State
                                    × List (MissingEvent time)
                                    × List (MissingEvent time)}
                                  (s2, ev ∷ more, others) (s', multicast, unicast) =
                                ground arith in
                              subst (Chosen now) same (((due, ground arith), many), few)
                          | inr narrow ↦
                              let same : ◌≡◌
                                  {A = store.State
                                    × List (MissingEvent time)
                                    × List (MissingEvent time)}
                                  (s2, more, ev ∷ others) (s', multicast, unicast) =
                                ground arith in
                              subst (Chosen now) same (many, ((due, ground arith), few))
                        ]
                  ]
            ]
      ]
