-- ===== src/Gateway/Dispatcher/Shown.antt =====
-- How often a list of effects shows the typing indicator of a session.
use open_nipper.Prelude.{
  ℕ, zero, suc, ◌+◌, ◌≡◌, refl, ◌∙◌, Bool, ◌&&◌, Option, none, some, List, [], ◌∷◌, ◌++◌, arith,
  Text, codes, ◌==◌, nat_eq, list_eq, if◌then◌else◌, not,
}
use open_nipper.Prelude.GoMap.{lookup}
use open_nipper.Strings.{cut_at}
use open_nipper.Models.Channel.{ChannelType}
use open_nipper.Models.Message.{NipperResponse}
use open_nipper.Models.Event.{NipperEvent}
use open_nipper.Gateway.Delivery.{
  Effect, typing_on, typing_off, attempted, Env, Adapter, Trace, retry, deliver_with_retry,
  delivery_max_retries, broadcast, broadcast_one, send_broadcast, broadcast_response,
}
use open_nipper.Gateway.Dispatcher.{offers}

-- Whether an effect shows the typing indicator of session j, or else whether it removes it.
abbrev pub toggles : Bool → Text → Effect → ℕ
toggles on j (typing_on key dc meta) = if on && (key == j) then 1 else 0
toggles on j (typing_off key dc meta) = if not on && (key == j) then 1 else 0
toggles on j _ = 0

-- How often the typing indicator of a session was shown, or else removed.
unfoldable pub toggled : Bool → Text → Trace → ℕ
toggled on j [] = 0
toggled on j (x ∷ tr) = toggles on j x + toggled on j tr

pub toggled-append :
    (on : Bool) (j : Text) (a b : Trace) → toggled on j (a ++ b) ≡ toggled on j a + toggled on j b
unfolding toggled
toggled-append on j [] b = omega arith
toggled-append on j (x ∷ a) b = omega (arith, toggled-append on j a b)

pub toggled-offers :
    (on : Bool) (j : Text) (event : NipperEvent) (chs : List ℕ)
    → toggled on j (offers event chs) ≡ 0
unfolding toggled offers
toggled-offers on j event [] = refl
toggled-offers on j event (ch ∷ chs) = omega (arith, toggled-offers on j event chs)

pub toggled-snoc :
    (on : Bool) (j : Text) (tr : Trace) (x : Effect)
    → toggled on j (tr ++ x ∷ []) ≡ toggled on j tr + toggles on j x
toggled-snoc on j tr x = toggled-append on j tr (x ∷ []) ∙ unfold toggled in omega arith

pub toggled-retry :
    (on : Bool) (j : Text) (env : Env) (ct : ChannelType) (adapter : Adapter)
    (resp : NipperResponse) (n : ℕ) (tr : Trace)
    → toggled on j (retry env ct adapter resp n tr) ≡ toggled on j tr
unfolding retry
toggled-retry on j env ct adapter resp zero tr = refl
toggled-retry on j env ct adapter resp (suc n) tr =
    let tr' : Trace = tr ++ attempted ct resp (adapter.delivers tr resp) ∷ [] in
    ground (
      arith,
      toggled-retry on j env ct adapter resp n tr',
      toggled-snoc on j tr (attempted ct resp (adapter.delivers tr resp)),
    )

pub toggled-deliver :
    (on : Bool) (j : Text) (env : Env) (ct : ChannelType) (adapter : Adapter)
    (resp : NipperResponse) (tr : Trace)
    → toggled on j (deliver_with_retry env ct adapter resp tr) ≡ toggled on j tr
unfolding deliver_with_retry
toggled-deliver on j env ct adapter resp tr =
    toggled-retry on j env ct adapter resp delivery_max_retries tr

pub toggled-send_broadcast :
    (on : Bool) (j : Text) (env : Env) (now : ℕ) (event : NipperEvent) (text : Text)
    (ct : ChannelType) (id : Text) (o : Option Adapter) (tr : Trace)
    → toggled on j (send_broadcast env now event text ct id o tr) ≡ toggled on j tr
unfolding send_broadcast
toggled-send_broadcast on j env now event text ct id none tr = refl
toggled-send_broadcast on j env now event text ct id (some adapter) tr =
    toggled-deliver on j env ct adapter (broadcast_response now event text ct id) tr

pub toggled-broadcast_one :
    (on : Bool) (j : Text) (env : Env) (now : ℕ) (event : NipperEvent) (text : Text)
    (o : Option (Text × Text)) (tr : Trace)
    → toggled on j (broadcast_one env now event text o tr) ≡ toggled on j tr
unfolding broadcast_one
toggled-broadcast_one on j env now event text none tr = refl
toggled-broadcast_one on j env now event text (some (ct, id)) tr =
    toggled-send_broadcast on j env now event text ct id (lookup ct env.adapters) tr

pub toggled-broadcast :
    (on : Bool) (j : Text) (env : Env) (now : ℕ) (event : NipperEvent) (text : Text)
    (targets : List Text) (tr : Trace)
    → toggled on j (broadcast env now event text targets tr) ≡ toggled on j tr
unfolding broadcast
toggled-broadcast on j env now event text [] tr = refl
toggled-broadcast on j env now event text (target ∷ targets) tr =
    toggled-broadcast on j env now event text targets _
    ∙ toggled-broadcast_one on j env now event text (cut_at (codes ":") target) tr
