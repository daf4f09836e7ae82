-- ===== src/Gateway/Dispatcher/Subscribers.antt =====
-- The WebSocket subscribers of a session.
use open_nipper.Prelude.{
  ℕ, ◌≡◌, ap, ◌∙◌, false, List, [], ◌∷◌, ◌++◌, Text, ◌==◌, nat_eq, list_eq, All, Dict, if_true,
  if_false, beq_refl,
}
use open_nipper.Prelude.GoMap.{lookup, lookup-insert_self, lookup-remove_self}
use open_nipper.Gateway.Dispatcher.{
  Dispatcher, or_no_subscribers, subscribe_web_socket, unsubscribe_web_socket, remove_first,
  put_subscribers,
}

-- The subscribers of a session, in the order in which they are offered an event.
unfoldable pub subscribers : Text → Dispatcher → List ℕ
subscribers key d = or_no_subscribers (lookup key d.ws_subscribers)

subscribers-put :
    (key : Text) (chs : List ℕ) (m : Dict Text (List ℕ))
    → or_no_subscribers (lookup key (put_subscribers key chs m)) ≡ chs
subscribers-put key [] m = ap or_no_subscribers (lookup-remove_self key m)
subscribers-put key (ch ∷ chs) m = ap or_no_subscribers (lookup-insert_self key (ch ∷ chs) m)

remove_first-snoc :
    (ch : ℕ) (chs : List ℕ)
    → All (λ x. (x == ch) ≡ false) chs
    → remove_first ch (chs ++ ch ∷ []) ≡ chs
unfolding remove_first
remove_first-snoc ch [] new = if_true _ _ (beq_refl ch)
remove_first-snoc ch (x ∷ chs) new =
    if_false _ _ new.0 ∙ ap (λ l. x ∷ l) (remove_first-snoc ch chs new.1)

-- Subscribing a channel puts it behind the subscribers of the session, and unsubscribing a channel
-- that was not subscribed before leaves the subscribers from before.
pub unsubscribe_undoes :
    (key : Text) (ch : ℕ) (d : Dispatcher)
    → All (λ x. (x == ch) ≡ false) (subscribers key d)
    → (subscribers key (subscribe_web_socket key ch d) ≡ subscribers key d ++ ch ∷ [])
      × (subscribers key (unsubscribe_web_socket key ch (subscribe_web_socket key ch d))
          ≡ subscribers key d)
unfolding subscribers subscribe_web_socket unsubscribe_web_socket
unsubscribe_undoes key ch d new =
    let chs = or_no_subscribers (lookup key d.ws_subscribers) in
    let put = lookup-insert_self key (chs ++ ch ∷ []) d.ws_subscribers in
    (
      ap or_no_subscribers put,
      subscribers-put key _ _
          ∙ ap (λ o. remove_first ch (or_no_subscribers o)) put
          ∙ remove_first-snoc ch chs new,
    )
