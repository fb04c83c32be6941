-- ===== src/Delivery/Websocket/Connection/Run.antt =====
-- `run` of websocket_connection.rs: the loop, and the closing of the socket after it.
use Prim.Native.String.{String}
use tom_notifier.Base.{ℕ, ◌+◌, ◌≤◌, ◌≡◌, ◌≢◌, refl, List, [], ◌∷◌, ◌++◌, Option, none, some, map}
use tom_notifier.Delivery.Websocket.Callback.{Flags}
use tom_notifier.Delivery.Websocket.Types.{Connection, Message, Event, Error}
use tom_notifier.Delivery.Websocket.Connection.{try_run}
use tom_notifier.Delivery.Websocket.Connection.Silence.{Silent, unanswered_pings_end_loop}

-- What is asked of the sink of the socket, in order.
pub data SinkCall : Type 0 where
  send : Message → SinkCall
  close : SinkCall

-- After either kind of error; without one, the loop still runs.
abbrev pub after_try_run : List Message → Option Error → Option (List SinkCall)
after_try_run sent none = none
after_try_run sent (some (Error.close message)) = some (map send sent ++ close ∷ [])
after_try_run sent (some (Error.anyhow err)) = some (map send sent ++ close ∷ [])

module _ (decode : List ℕ → Option String) (from_str : String → Option ℕ) where
  -- `none` while the loop has not ended with the branches that became ready.
  unfoldable pub run : List Event → Connection → Flags → Option (List SinkCall)
  unfolding try_run
  run events c flags =
      let h = try_run decode from_str events c flags in after_try_run h.sent h.error

  pub run-ended :
      (events : List Event) (c : Connection) (flags : Flags)
      → (try_run decode from_str events c flags).error ≢ none
      → run events c flags
        ≡ some (map send (try_run decode from_str events c flags).sent ++ close ∷ [])
  unfolding run
  run-ended events c flags stops = by_error (try_run decode from_str events c flags).error stops
    where
      sent : List Message
      sent = (try_run decode from_str events c flags).sent

      by_error :
          (e : Option Error) → e ≢ none → after_try_run sent e ≡ some (map send sent ++ close ∷ [])
      by_error none stops = elim (stops refl) [ ]
      by_error (some (Error.close message)) stops = refl
      by_error (some (Error.anyhow err)) stops = refl

  -- The socket of a silent user is closed: whatever messages come for the user and however often they
  -- are sent again, when so many pings were due that with those that are unanswered they are three,
  -- `run` has ended, and the last thing it did to the socket, after all that it sent, was to close it.
  pub unanswered_pings_close_socket :
      {interval n time : ℕ} {events : List Event} (c : Connection) (flags : Flags)
      → c.config.ping_interval ≡ interval
      → c.ping_time ≡ time
      → c.pings_sent ≤ 2
      → n + c.pings_sent ≡ 3
      → Silent interval n time events
      → run events c flags
        ≡ some (map send (try_run decode from_str events c flags).sent ++ close ∷ [])
  unanswered_pings_close_socket {events = events} c flags same_interval same_time few three silent =
      run-ended events c flags
        (unanswered_pings_end_loop decode from_str c flags same_interval same_time few three silent)
