-- ===== src/Rabbitmq/Consumer/Start.antt =====
-- shared/rabbitmq_client/src/consumer/rabbitmq_consumer.rs: `RabbitmqConsumer::new`, up to the spawn
-- of its task.
use mathlib.Core.List.{append-nil}
use tom_notifier.Base.{
  ℕ, ◌+◌, ◌≡◌, refl, inl, inr, Bool, true, false, List, [], ◌∷◌, ◌++◌, Option, none, some,
  if◌then◌else◌, Bool-cases,
}
use tom_notifier.Rabbitmq.Consumer.Machine.{
  StateMachine, Effect, exchange_declare, queue_declare, basic_consume, queue_bind,
  register_callback, Restored, bind_all, new, try_restore_consumer,
}

module _ {Ch B N : Type 0} where
  -- The loop over the bindings, which an error leaves together with `new`, and the call after it.
  unfoldable pub bind_and_consume :
      Ch → (ℕ → Bool) → Bool → ℕ → List B → Bool × List (Effect Ch B N)
  bind_and_consume channel bound consumed i [] = (consumed, basic_consume channel ∷ [])
  bind_and_consume channel bound consumed i (args ∷ rest) =
      let r = bind_and_consume channel bound consumed (i + 1) rest in
      if bound i
      then (r.0, queue_bind channel args ∷ r.1)
      else (false, queue_bind channel args ∷ [])

  -- What is left of the calls, and whether all succeed, with the loop run first.
  abbrev Looped : Ch → Bool → Bool × List (Effect Ch B N) → Bool × List (Effect Ch B N) → Type 0
  Looped channel consumed binds all = all ≡ (
    if binds.0 then consumed else false,
    binds.1 ++ (if binds.0 then basic_consume channel ∷ [] else []),
  )

  bind_and_consume-bind_all :
      (channel : Ch) (bound : ℕ → Bool) (consumed : Bool) (i : ℕ) (queue_bind_args : List B)
      → Looped channel consumed
          (bind_all channel bound i queue_bind_args)
          (bind_and_consume channel bound consumed i queue_bind_args)
  unfolding bind_and_consume bind_all
  bind_and_consume-bind_all channel bound consumed i [] = refl
  bind_and_consume-bind_all channel bound consumed i (args ∷ rest) =
      let e = bind_and_consume-bind_all channel bound consumed (i + 1) rest in
      elim (Bool-cases (bound i)) [ inl ok ↦ rw (ok, e) refl | inr fails ↦ rw fails refl ]

module _ {C Ch B N : Type 0} where
  -- The machine that the task runs, or `none` for an error; and the calls. The arguments are the
  -- connection that is held now, the results of opening the channel and of registering its
  -- callback, those of the other calls, the bindings and the notifier of the callback.
  unfoldable pub start :
      Option C
      → Option Ch
      → Bool
      → Restored
      → List B
      → N
      → Option (StateMachine C Ch B N) × List (Effect Ch B N)
  unfolding bind_and_consume
  start none opened registered results queue_bind_args notifier = (none, [])
  start (some connection) none registered results queue_bind_args notifier = (none, [])
  start (some connection) (some channel) registered results queue_bind_args notifier =
      let r = bind_and_consume channel results.bound results.consumed 0 queue_bind_args in
      if registered
      then (if results.declared
          then (if results.queued
              then (
                if r.0 then some (new connection channel queue_bind_args notifier) else none,
                register_callback channel notifier
                    ∷ exchange_declare channel
                    ∷ queue_declare channel
                    ∷ r.1,
              )
              else (
                none,
                register_callback channel notifier
                    ∷ exchange_declare channel
                    ∷ queue_declare channel
                    ∷ [],
              ))
          else (none, register_callback channel notifier ∷ exchange_declare channel ∷ []))
      else (none, register_callback channel notifier ∷ [])

  -- Once the channel is open and its callback is registered, a new consumer makes the calls by which
  -- the state machine restores a consumer on that channel, binding for binding, and the same
  -- failures stop it: where the restoring succeeds the task starts with a new machine, and where it
  -- fails there is an error.
  pub start-try_restore_consumer :
      (connection : C) (channel : Ch) (results : Restored) (queue_bind_args : List B) (notifier : N)
      → let r = try_restore_consumer channel queue_bind_args results in
        start (some connection) (some channel) true results queue_bind_args notifier ≡ (
          if r.0 then some (new connection channel queue_bind_args notifier) else none,
          register_callback channel notifier ∷ r.1,
        )
  unfolding start try_restore_consumer
  start-try_restore_consumer connection channel results queue_bind_args notifier =
      let e =
        bind_and_consume-bind_all {N = N} channel results.bound results.consumed 0
          queue_bind_args in
      let binds = bind_all {N = N} channel results.bound 0 queue_bind_args in
      elim (Bool-cases results.declared) [
        | inr fails ↦ rw fails refl
        | inl declared ↦ elim (Bool-cases results.queued) [
          | inr fails ↦ rw (declared, fails) refl
          | inl queued ↦ elim (Bool-cases binds.0) [
            | inr fails ↦ rw (declared, queued, e, fails, append-nil) refl
            | inl bound ↦ rw (declared, queued, e, bound) refl
          ]
        ]
      ]
