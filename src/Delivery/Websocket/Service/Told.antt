-- ===== src/Delivery/Websocket/Service/Told.antt =====
-- What a user of websockets_service believes of the network after the messages of an inbox.
use tom_notifier.Base.{
  ℕ, ◌≡◌, inl, inr, refl, Bool, true, false, List, [], ◌∷◌, ◌++◌, Option, none, some, if◌then◌else◌,
  Option-cases,
}
use tom_notifier.Delivery.Websocket.Types.{WebSocketMessage}
use tom_notifier.Protobuf.{NetworkStatus}
use tom_notifier.Delivery.Websocket.Service.{Receiver}

abbrev pub is_ok : NetworkStatus → Bool
is_ok NetworkStatus.ok = true
is_ok NetworkStatus.error = false

-- What a user believes after the messages of an inbox that carry a status alone, from a belief that
-- all is well: what `read` yields of a payload is its status and whether it has a notification.
module _ (read : List ℕ → Option (NetworkStatus × Bool)) where
  abbrev pub told : Bool → List WebSocketMessage → Bool
  told belief [] = belief
  told belief (m ∷ messages) = elim (read m.payload) [
    | none ↦ told belief messages
    | some (status, has_notification) ↦
        told (if has_notification then belief else is_ok status) messages
  ]

  abbrev pub Knows : Bool → Receiver → Type 0
  Knows flag r = told true r.inbox ≡ flag

  pub told-status :
      (m : WebSocketMessage) (status : NetworkStatus) (belief : Bool)
      (messages : List WebSocketMessage)
      → read m.payload ≡ some (status, false)
      → told belief (messages ++ m ∷ []) ≡ is_ok status
  told-status m status belief [] e = rw e refl
  told-status m status belief (x ∷ messages) e = elim (Option-cases (read x.payload)) [
    | inl f ↦ rw f (told-status m status belief messages e)
    | inr ((s, b), f) ↦ rw f (told-status m status (if b then belief else is_ok s) messages e)
  ]

  pub told-notification :
      (m : WebSocketMessage) (status : NetworkStatus) (belief : Bool)
      (messages : List WebSocketMessage)
      → read m.payload ≡ some (status, true)
      → told belief (messages ++ m ∷ []) ≡ told belief messages
  told-notification m status belief [] e = rw e refl
  told-notification m status belief (x ∷ messages) e = elim (Option-cases (read x.payload)) [
    | inl f ↦ rw (f, told) (told-notification m status belief messages e)
    | inr ((s, b), f) ↦
        rw (f, told) (told-notification m status (if b then belief else is_ok s) messages e)
  ]
