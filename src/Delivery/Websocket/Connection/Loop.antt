-- ===== src/Delivery/Websocket/Connection/Loop.antt =====
-- One step of the loop of `try_run`.
use Prim.Native.String.{String}
use tom_notifier.Base.{ℕ, ◌≡◌, refl, List, ◌∷◌, Option, none, some, arith}
use tom_notifier.Delivery.Websocket.Callback.{Flags}
use tom_notifier.Delivery.Websocket.Types.{Connection, Handled, Event, Error}
use tom_notifier.Delivery.Websocket.Connection.{after_round, round, try_run}

module _ (decode : List ℕ → Option String) (from_str : String → Option ℕ) where
  pub try_run_next :
      (event : Event) (events : List Event) (c : Connection) (flags : Flags) (h : Handled)
      → round decode from_str event c flags ≡ some h
      → h.error ≡ none
      → try_run decode from_str (event ∷ events) c flags
        ≡ after_round h (try_run decode from_str events h.connection h.flags)
  unfolding try_run
  try_run_next event events c flags h ready e = rw (ready, try_run) (rw (e, try_run) refl)

  pub try_run_stop :
      (event : Event) (events : List Event) (c : Connection) (flags : Flags) (h : Handled)
      (error : Error)
      → round decode from_str event c flags ≡ some h
      → h.error ≡ some error
      → try_run decode from_str (event ∷ events) c flags ≡ h
  unfolding try_run
  try_run_stop event events c flags h error ready e = rw (ready, try_run) (ground arith)
