-- ===== src/Rabbitmq/Consumer/Status.antt =====
-- What the consumer's state machine tells its status callback, over whole runs.
use tom_notifier.Base.{
  ◌≡◌, ◌∙◌, refl, inl, inr, Bool, true, false, List, [], ◌∷◌, ◌++◌, Option, none, some, is_some,
  Option-cases, ◌+◌, ℕ, arith, Bool-cases,
}
use mathlib.Core.Path.{subst}
use tom_notifier.Rabbitmq.Retry.{retry}
use tom_notifier.Rabbitmq.Await.{Outcome, pending, panicked, done, Progress, unpolled, polled}
use tom_notifier.Rabbitmq.Consumer.Machine.{
  State, Status, consuming, recovering, StateMachine, Effect, status_callback, register_callback,
  basic_consume, channel_close, Restored, Event, ok_entered, connection_changed, consumer_cancelled,
  connections_seen, channel_awaited, restore_awaited, Position, between, in_ok, Running, bind_all,
  try_restore_consumer, recreate, at_state, ok_leave, waiting_for_connection_state, after_recreate,
  recreating_channel_state, restoring_consumer_state, leave, dispatch, step_at, step,
}

-- The statuses among some effects.
abbrev pub statuses : {Ch B N : Type 0} → List (Effect Ch B N) → List Status
statuses [] = []
statuses (status_callback status ∷ effects) = status ∷ statuses effects
statuses (_ ∷ effects) = statuses effects

-- A client that follows the statuses: `true` while it is told that the consumer consumes. `none`:
-- a status repeats the one before it.
abbrev pub follow : Bool → List Status → Option Bool
follow told [] = some told
follow false (consuming ∷ rest) = follow true rest
follow true (recovering ∷ rest) = follow false rest
follow _ (_ ∷ rest) = none

follow-append :
    (a b : Bool) (xs ys : List Status) → follow a xs ≡ some b → follow a (xs ++ ys) ≡ follow b ys
follow-append a b [] ys h = ground arith
follow-append false b (consuming ∷ rest) ys h = follow-append true b rest ys h
follow-append true b (recovering ∷ rest) ys h = follow-append false b rest ys h
follow-append false b (recovering ∷ rest) ys h = cc
follow-append true b (consuming ∷ rest) ys h = cc

statuses-append :
    {Ch B N : Type 0} (xs ys : List (Effect Ch B N))
    → statuses (xs ++ ys) ≡ statuses xs ++ statuses ys
statuses-append [] ys = refl
statuses-append (status_callback status ∷ xs) ys = rw (statuses-append xs ys)
statuses-append (channel_close c ∷ xs) ys = statuses-append xs ys
statuses-append (_ ∷ xs) ys = statuses-append xs ys

-- The client is told that the consumer consumes exactly while `ok_state` waits.
abbrev pub waits : Position → Bool
waits between = false
waits in_ok = true

module _ {C Ch B N : Type 0} where
  -- A connection is held outside `WaitingForConnection`.
  abbrev pub HoldsAt : State → StateMachine C Ch B N → Type 0
  HoldsAt State.waiting_for_connection s = Unit {0}
  HoldsAt State.ok s = is_some s.connection ≡ true
  HoldsAt State.recreating_channel s = is_some s.connection ≡ true
  HoldsAt State.restoring_consumer s = is_some s.connection ≡ true

  abbrev pub Holds : Position → StateMachine C Ch B N → Type 0
  Holds between s = HoldsAt s.state s
  Holds in_ok s = is_some s.connection ≡ true

  abbrev pub IsCoherent : Running C Ch B N → Type 0
  IsCoherent r = Holds r.position r.machine

  abbrev pub Follows : Bool → Outcome (Running C Ch B N × List (Effect Ch B N)) → Type 0
  Follows told pending = Unit {0}
  Follows told panicked = ⊥
  Follows told (done r) = IsCoherent r.0 × (follow told (statuses r.1) ≡ some (waits r.0.position))

  ok_leave-Follows :
      (event : Event C Ch N) (s : StateMachine C Ch B N)
      → is_some s.connection ≡ true
      → Follows true (ok_leave event s)
  unfolding ok_leave
  ok_leave-Follows connection_changed s h = (tt, refl)
  ok_leave-Follows consumer_cancelled s h = (h, refl)
  ok_leave-Follows _ s h = tt

  waiting-Follows :
      (seen : List (Option C)) (s : StateMachine C Ch B N)
      → Follows false (leave (waiting_for_connection_state seen s) (λ t. (at_state t, [])))
  unfolding waiting_for_connection_state
  waiting-Follows [] s = tt
  waiting-Follows (some c ∷ seen) s = (refl, refl)
  waiting-Follows (none ∷ seen) s = waiting-Follows seen (record s { connection = none })

  -- The block unwraps a connection that is there, and reports no status.
  recreate-done :
      (progress : Progress Ch) (connection : Option C) (channel : Ch) (notifier fresh : N)
      → is_some connection ≡ true
      → (r : Ch × N × List (Effect Ch B N) × Bool) × (recreate progress connection channel notifier
            fresh
          ≡ done r)
        × (statuses r.2 ≡ [])
  unfolding recreate
  recreate-done unpolled connection channel notifier fresh h =
      ((channel, notifier, [], false), refl, refl)
  recreate-done (polled opens registers) none channel notifier fresh h = cc
  recreate-done (polled opens registers) (some c) channel notifier fresh h =
      elim (Option-cases (retry opens)) [
        | inl e ↦ ((channel, notifier, [], false), rw (e, recreate), refl)
        | inr (opened, e) ↦ elim (Option-cases (retry registers)) [
          | inl f ↦ (
            (opened, fresh, register_callback opened fresh ∷ [], false),
            rw (e, f, recreate),
            refl,
          )
          | inr (t, f) ↦ (
            (opened, fresh, register_callback opened fresh ∷ [], true),
            rw (e, f, recreate),
            refl,
          )
        ]
      ]

  after_recreate-Follows :
      (changed : Bool) (s : StateMachine C Ch B N) (r : Ch × N × List (Effect Ch B N) × Bool)
      → is_some s.connection ≡ true
      → statuses r.2 ≡ []
      → Follows false (leave (after_recreate changed s (done r)) (λ t. (at_state t.0, t.1)))
  unfolding after_recreate
  after_recreate-Follows true s (channel, notifier, effects, finished) h e = (tt, rw e)
  after_recreate-Follows false s (channel, notifier, effects, true) h e = (h, rw e)
  after_recreate-Follows false s (channel, notifier, effects, false) h e = tt

  recreating-Follows :
      (changed : Bool) (fresh : N) (progress : Progress Ch) (s : StateMachine C Ch B N)
      → is_some s.connection ≡ true
      → Follows false
          (leave (recreating_channel_state changed fresh progress s) (λ r. (at_state r.0, r.1)))
  unfolding recreating_channel_state
  recreating-Follows changed fresh progress s h =
      let (r, e, f) = recreate-done progress s.connection s.channel s.consumer_cancelled fresh h in
      rw (e, recreating_channel_state) (after_recreate-Follows changed s r h f)

module _ {Ch B : Type 0} (N : Type 0) where
  bind_all-statuses :
      (channel : Ch) (bound : ℕ → Bool) (i : ℕ) (args : List B)
      → statuses {N = N} (bind_all channel bound i args).1 ≡ []
  unfolding bind_all
  bind_all-statuses channel bound i [] = refl
  bind_all-statuses channel bound i (b ∷ args) = elim (Bool-cases (bound i)) [
    | inl e ↦ rw e (bind_all-statuses channel bound (i + 1) args)
    | inr e ↦ rw e refl
  ]

  -- Restoring the consumer reports no status.
  restore-statuses :
      (channel : Ch) (args : List B) (results : Restored)
      → statuses {N = N} (try_restore_consumer channel args results).1 ≡ []
  unfolding try_restore_consumer
  restore-statuses channel args results =
      let binds = bind_all {N = N} channel results.bound 0 args in
      let none_bound : statuses binds.1 ≡ [] = bind_all-statuses channel results.bound 0 args in
      let consumed : statuses (binds.1 ++ basic_consume channel ∷ []) ≡ [] =
        statuses-append binds.1 (basic_consume channel ∷ []) ∙ rw none_bound refl in
      ground arith

module _ {C Ch B N : Type 0} where
  restoring-Follows :
      (changed : Bool) (results : Restored) (s : StateMachine C Ch B N)
      → is_some s.connection ≡ true
      → let r = restoring_consumer_state changed results s in
        Follows false (done (at_state r.0, r.1))
  unfolding restoring_consumer_state
  restoring-Follows true results s h = (tt, refl)
  restoring-Follows false results s h =
      let r = try_restore_consumer s.channel s.queue_bind_args results in
      let silent : statuses r.1 ≡ [] = restore-statuses N s.channel s.queue_bind_args results in
      elim (Bool-cases r.0) [ inl e ↦ rw e (h, rw silent refl) | inr e ↦ rw e (h, rw silent refl) ]

  dispatch-Follows :
      (state : State) (event : Event C Ch N) (s : StateMachine C Ch B N)
      → HoldsAt state s
      → Follows false (dispatch state event s)
  unfolding dispatch
  dispatch-Follows State.ok ok_entered s h = (h, refl)
  dispatch-Follows State.waiting_for_connection (connections_seen seen) s h = waiting-Follows seen s
  dispatch-Follows State.recreating_channel (channel_awaited changed fresh progress) s h =
      recreating-Follows changed fresh progress s h
  dispatch-Follows State.restoring_consumer (restore_awaited changed results) s h =
      restoring-Follows changed results s h
  dispatch-Follows _ _ s h = tt

  -- From a coherent state no event makes an `unwrap` fail; the next state is coherent, and the
  -- statuses reported are right for a client that was told right before.
  pub step-Follows :
      (event : Event C Ch N) (r : Running C Ch B N)
      → IsCoherent r
      → Follows (waits r.position) (step event r)
  unfolding step
  step-Follows event r h = at r.position h
    where
      at : (p : Position) → Holds p r.machine → Follows (waits p) (step_at p event r.machine)
      at between h' = dispatch-Follows r.machine.state event r.machine h'
      at in_ok h' = ok_leave-Follows event r.machine h'

  -- A run, with the statuses that it reports.
  pub data Run : Running C Ch B N → List Status → Running C Ch B N → Type 0 where
    here : (r : Running C Ch B N) → Run r [] r
    next :
        (event : Event C Ch N) (r t u : Running C Ch B N) (effects : List (Effect Ch B N))
        (reported : List Status)
        → step event r ≡ done (t, effects)
        → Run t reported u
        → Run r (statuses effects ++ reported) u

  -- Over any run from a coherent state the reported statuses alternate, and the last one says
  -- `Consuming` exactly if the machine waits in `ok_state` at the end.
  pub Run-Follows :
      {r u : Running C Ch B N} {reported : List Status}
      → Run r reported u
      → IsCoherent r
      → IsCoherent u × (follow (waits r.position) reported ≡ some (waits u.position))
  Run-Follows (here r) h = (h, ground arith)
  Run-Follows (next event r t u effects reported e run) h =
      let (ht, told) = subst (Follows (waits r.position)) e (step-Follows event r h) in
      let (hu, rest) = Run-Follows run ht in
      (
        hu,
        follow-append (waits r.position) (waits t.position) (statuses effects) reported told ∙ rest,
      )
