-- ===== src/Delivery/Consume/Follow.antt =====
-- The network status that the users are told, over whole runs of the consumer.
use tom_notifier.Base.{◌≡◌, refl, Bool, true, false, List, [], ◌∷◌, some, is_empty, arith}
use tom_notifier.Rabbitmq.Consumer.Machine.{Status, consuming, recovering, Running}
use tom_notifier.Rabbitmq.Consumer.Status.{follow, waits, IsCoherent, Run, Run-Follows}
use tom_notifier.Delivery.Websocket.Service.{
  Service, Fresh, store_network_status, broadcast_network_status,
}
use tom_notifier.Delivery.Consume.{External, execute_status, network_status}

-- The status callback for each status in turn.
unfoldable pub execute_statuses : External → Fresh → List Status → Service → Service
execute_statuses x fresh [] s = s
execute_statuses x fresh (status ∷ reported) s =
    execute_statuses x fresh reported (execute_status x fresh status s)

abbrev consumes : Status → Bool
consumes consuming = true
consumes recovering = false

module _ (x : External) (fresh : Fresh) where
  flag_after :
      (status : Status) (s : Service)
      → (execute_status x fresh status s).network_status_ok ≡ consumes status
  unfolding execute_status store_network_status broadcast_network_status network_status
  flag_after consuming s = refl
  flag_after recovering s = refl

  follow-head :
      (a b : Bool) (status : Status) (reported : List Status)
      → follow a (status ∷ reported) ≡ some b
      → follow (consumes status) reported ≡ some b
  follow-head false b consuming reported e = e
  follow-head true b recovering reported e = e
  follow-head true b consuming reported e = cc
  follow-head false b recovering reported e = cc

  flag-follow :
      (a b : Bool) (reported : List Status) (s : Service)
      → s.network_status_ok ≡ a
      → follow a reported ≡ some b
      → (execute_statuses x fresh reported s).network_status_ok ≡ b
  unfolding execute_statuses
  flag-follow a b [] s f e = ground arith
  flag-follow a b (status ∷ reported) s f e =
      flag-follow (consumes status) b reported (execute_status x fresh status s)
        (flag_after status s) (follow-head a b status reported e)

  flag-reported :
      (a b : Bool) (reported : List Status) (s : Service)
      → follow a reported ≡ some b
      → is_empty reported ≡ false
      → (execute_statuses x fresh reported s).network_status_ok ≡ b
  unfolding execute_statuses
  flag-reported a b [] s e some_reported = cc
  flag-reported a b (status ∷ reported) s e some_reported =
      flag-follow (consumes status) b reported (execute_status x fresh status s)
        (flag_after status s) (follow-head a b status reported e)

  -- After any run of the consumer from a coherent state in which it reported something, the network
  -- status that the websockets service holds is well exactly if the consumer waits in `ok_state`.
  pub network_status_follows :
      {C Ch B N : Type 0} {r u : Running C Ch B N} {reported : List Status} (s : Service)
      → Run r reported u
      → IsCoherent r
      → is_empty reported ≡ false
      → (execute_statuses x fresh reported s).network_status_ok ≡ waits u.position
  network_status_follows {r = r} {u = u} {reported = reported} s run h some_reported =
      flag-reported (waits r.position) (waits u.position) reported s (Run-Follows run h).1
        some_reported
