-- ===== src/Delivery/Web/Opened.antt =====
-- The call of `handle_client` in `websocket_upgrade` of tom-notifier-ws-delivery/src/routing.rs, and
-- the connections that users have.
use mathlib.Core.List.{append-nil}
use tom_notifier.Base.{
  ℕ, ◌==◌, ◌≡◌, ◌∙◌, ap, sym, ==_iff, refl, inl, inr, true, false, Bool, List, [], ◌∷◌, ◌++◌, map,
  Option, none, some, if◌then◌else◌, lookup, lookup-insert, Bool-cases,
}
use tom_notifier.Protobuf.{NetworkStatus, WebSocketNotification}
use tom_notifier.Delivery.Websocket.Types.{WebSocketMessage}
use tom_notifier.Delivery.Websocket.Service.{
  Service, Receiver, Fresh, receive, register, subscribe, create_message,
}
use tom_notifier.Delivery.Websocket.Service.Registry.{informed, register_lem}

-- The connections of a channel, and of a user.
abbrev channel : Option (List Receiver) → List ℕ
channel none = []
channel (some receivers) = map (λ r. r.connection) receivers

abbrev pub connections_of : ℕ → Service → List ℕ
connections_of user_id s = channel (lookup user_id s.users_connections)

-- What a user gets when a connection is opened for a client, if any.
abbrev pub newcomer : Option ℕ → ℕ → ℕ → List ℕ
newcomer none connection user_id = []
newcomer (some client) connection user_id = if client == user_id then connection ∷ [] else []

pub kept : (user_id : ℕ) (s : Service) → connections_of user_id s ≡ connections_of user_id s ++ []
kept user_id s = sym (append-nil (connections_of user_id s))

receive-channel :
    (message : WebSocketMessage) (receivers : List Receiver)
    → map (λ (r : Receiver). r.connection) (map (receive message) receivers)
      ≡ map (λ r. r.connection) receivers
receive-channel message [] = refl
receive-channel message (r ∷ receivers) = rw (receive-channel message receivers) refl

informed-channel :
    (ok : Bool) (message : WebSocketMessage) (receivers : List Receiver)
    → channel (some (informed ok message receivers)) ≡ channel (some receivers)
informed-channel true message receivers = refl
informed-channel false message receivers = receive-channel message receivers

append-channel :
    (others : List Receiver) (connection : ℕ)
    → channel (some (others ++ record { connection = connection; inbox = [] } ∷ []))
      ≡ channel (some others) ++ connection ∷ []
append-channel [] connection = refl
append-channel (r ∷ others) connection = rw (append-channel others connection) refl

subscribe-channel :
    (connection : ℕ) (found : Option (List Receiver))
    → channel (some (subscribe connection found)) ≡ channel found ++ connection ∷ []
subscribe-channel connection none = refl
subscribe-channel connection (some others) = append-channel others connection

module _ (encode : WebSocketNotification → List ℕ) (fresh : Fresh) (connection : ℕ) where
  -- The task that runs after the answer of the upgrade; without a client there is none.
  unfoldable pub opened : Option ℕ → Service → Service
  unfolding register
  opened none s = s
  opened (some client) s = elim (register encode fresh client connection s) [
    | none ↦ s
    | some registered ↦ registered
  ]

  pub opened-newcomer :
      (client : Option ℕ) (s : Service) (user_id : ℕ)
      → connections_of user_id (opened client s)
        ≡ connections_of user_id s ++ newcomer client connection user_id
  unfolding opened
  opened-newcomer none s user_id = kept user_id s
  opened-newcomer (some client) s user_id =
      let message = create_message encode fresh NetworkStatus.error none in
      let before = lookup client s.users_connections in
      let after = informed s.network_status_ok message (subscribe connection before) in
      rw (register_lem encode fresh client connection s, opened)
        (ap channel (lookup-insert client user_id after s.users_connections)
          ∙ elim (Bool-cases (client == user_id)) [
            | inl same ↦ rw same (
                informed-channel s.network_status_ok message (subscribe connection before)
                ∙ subscribe-channel connection before
                ∙ ap (λ u. connections_of u s ++ connection ∷ []) ((==_iff client user_id).0 same))
            | inr other ↦ rw other (kept user_id s)
          ])
