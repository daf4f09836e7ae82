-- ===== src/Gateway/Registry/Fifo.antt =====
-- The entries of a session's queue, through any sequence of arrivals and responses.
use open_nipper.Prelude.{
  ℕ, ◌≡◌, refl, sym, ap, ◌∙◌, Bool, true, false, Option, none, some, List, [], ◌∷◌, ◌++◌, Text,
  ◌==◌, list_eq, nat_eq, if◌then◌else◌, Bool-cases, inl, inr, ◌⊎◌, list_beq_iff,
}
use mathlib.Core.List.{append_assoc, append-nil}
use open_nipper.Models.Channel.{DeliveryContext, ChannelMeta}
use open_nipper.Models.Message.{ContentPart}
use open_nipper.Gateway.Registry.{DeliveryEntry, Registry, queue_of, register, consume, peek, head}
use open_nipper.Gateway.Registry.View.{new_entry, tail, queue-register, queue-consume, consume-peek}

-- A message arrives, or a response is sent.
pub data Step : Type 0 where
  arrive : ℕ → Text → DeliveryContext → Option ChannelMeta → List ContentPart → Step
  respond : Text → Step

unfoldable pub perform : Registry → Step → Registry
perform r (arrive now key dc meta parts) = register now key dc meta parts r
perform r (respond key) = (consume key r).0

unfoldable pub run : Registry → List Step → Registry
unfolding perform
run r [] = r
run r (s ∷ ss) = run (perform r s) ss

abbrev prepend : Option DeliveryEntry → List DeliveryEntry → List DeliveryEntry
prepend none q = q
prepend (some e) q = e ∷ q

-- The entry that one step adds to the queue of a session, and the one that it takes off.
abbrev added : Text → Step → List DeliveryEntry
added j (arrive now key dc meta parts) = if key == j then new_entry now dc meta parts ∷ [] else []
added j (respond key) = []

abbrev used : Text → Registry → Step → Option DeliveryEntry
used j r (arrive now key dc meta parts) = none
used j r (respond key) = if key == j then (consume key r).1 else none

-- The entries of a session, in the order in which they are registered.
unfoldable pub arrivals : Text → List Step → List DeliveryEntry
arrivals j [] = []
arrivals j (s ∷ ss) = added j s ++ arrivals j ss

-- The entries that the responses of a session are given, in the order of the responses.
unfoldable pub responses : Text → Registry → List Step → List DeliveryEntry
unfolding perform
responses j r [] = []
responses j r (s ∷ ss) = prepend (used j r s) (responses j (perform r s) ss)

head-tail : (q : List DeliveryEntry) → prepend (head q) (tail q) ≡ q
head-tail [] = refl
head-tail (e ∷ q) = refl

step_conserves :
    (j : Text) (r : Registry) (s : Step)
    → prepend (used j r s) (queue_of j (perform r s)) ≡ queue_of j r ++ added j s
unfolding perform
step_conserves j r (arrive now key dc meta parts) =
    queue-register now key j dc meta parts r ∙ go (key == j)
  where
    go :
        (b : Bool)
        → (if b then queue_of j r ++ new_entry now dc meta parts ∷ [] else queue_of j r)
          ≡ queue_of j r ++ (if b then new_entry now dc meta parts ∷ [] else [])
    go true = refl
    go false = sym (append-nil (queue_of j r))
step_conserves j r (respond key) =
    rw (queue-consume key j r, append-nil (queue_of j r)) (go (Bool-cases (key == j)))
  where
    go :
        ((key == j) ≡ true) ⊎ ((key == j) ≡ false)
        → prepend
            (if key == j then (consume key r).1 else none)
            (if key == j then tail (queue_of j r) else queue_of j r)
          ≡ queue_of j r
    go (inl e) =
        let same : key ≡ j = (list_beq_iff key j).0 e in
        rw e (rw (consume-peek key r) (rw same (unfold peek in head-tail (queue_of j r))))
    go (inr e) = rw e

prepend-append :
    (o : Option DeliveryEntry) (p q : List DeliveryEntry) → prepend o p ++ q ≡ prepend o (p ++ q)
prepend-append none p q = refl
prepend-append (some e) p q = refl

-- Over any interleaving of arrivals and responses of any sessions: the entries that the responses
-- of a session were given, followed by those still in its queue, are those that were in its queue
-- at the start followed by those that arrived, in order.
pub fifo :
    (j : Text) (r : Registry) (ss : List Step)
    → responses j r ss ++ queue_of j (run r ss) ≡ queue_of j r ++ arrivals j ss
unfolding run arrivals responses
fifo j r [] = sym (append-nil (queue_of j r))
fifo j r (s ∷ ss) =
    prepend-append (used j r s) (responses j (perform r s) ss) _
    ∙ ap (prepend (used j r s)) (fifo j (perform r s) ss)
    ∙ sym (prepend-append (used j r s) (queue_of j (perform r s)) (arrivals j ss))
    ∙ ap (λ q. q ++ arrivals j ss) (step_conserves j r s)
    ∙ append_assoc (queue_of j r) (added j s) (arrivals j ss)
