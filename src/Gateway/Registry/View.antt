-- ===== src/Gateway/Registry/View.antt =====
-- The registry as a function from session keys to queues: what each method does to that view.
use open_nipper.Prelude.{
  ℕ, ◌≡◌, refl, Option, List, [], ◌∷◌, ◌++◌, arith, Text, ◌==◌, list_eq, nat_eq, list_beq_iff,
  if◌then◌else◌,
}
use open_nipper.Prelude.GoMap.{insert, lookup-insert, lookup-remove}
use open_nipper.Models.Channel.{DeliveryContext, ChannelMeta}
use open_nipper.Models.Message.{ContentPart}
use open_nipper.Gateway.Registry.{
  none, DeliveryEntry, Registry, queue_of, register, head, peek, put_rest, pop_front, consume,
}

abbrev pub tail : List DeliveryEntry → List DeliveryEntry
tail [] = []
tail (e ∷ q) = q

abbrev pub new_entry : ℕ → DeliveryContext → Option ChannelMeta → List ContentPart → DeliveryEntry
new_entry now dc meta parts = record {
  context = dc;
  meta = meta;
  inbound_parts = parts;
  created_at = now;
}

-- Register appends to the queue of its session and leaves the other queues alone.
pub queue-register :
    (now : ℕ) (key j : Text) (dc : DeliveryContext) (meta : Option ChannelMeta)
    (parts : List ContentPart) (r : Registry)
    → queue_of j (register now key dc meta parts r)
      ≡ (if key == j then queue_of j r ++ new_entry now dc meta parts ∷ [] else queue_of j r)
unfolding queue_of register
queue-register now key j dc meta parts r = ground (
  arith,
  list_beq_iff key j,
  lookup-insert key j (queue_of key r ++ new_entry now dc meta parts ∷ []) r,
)

queue-put_rest :
    (key j : Text) (q : List DeliveryEntry) (r : Registry)
    → queue_of j (put_rest key q r) ≡ (if key == j then q else queue_of j r)
unfolding queue_of put_rest
queue-put_rest key j [] r =
    ground (arith, lookup-remove key j (insert key [] r), lookup-insert key j [] r)
queue-put_rest key j (e ∷ q) r = ground (arith, lookup-insert key j (e ∷ q) r)

-- Consume takes the front of the queue of its session, and leaves the other queues alone.
pub queue-consume :
    (key j : Text) (r : Registry)
    → queue_of j (consume key r).0 ≡ (if key == j then tail (queue_of j r) else queue_of j r)
unfolding consume
queue-consume key j r = go (queue_of key r) refl
  where
    go :
        (q : List DeliveryEntry)
        → queue_of key r ≡ q
        → queue_of j (pop_front key q r).0
          ≡ (if key == j then tail (queue_of j r) else queue_of j r)
    go [] e = unfold pop_front in ground (arith, list_beq_iff key j, e)
    go (x ∷ q) e =
        unfold pop_front in ground (arith, list_beq_iff key j, e, queue-put_rest key j q r)

-- What Consume returns is what Lookup shows.
pub consume-peek : (key : Text) (r : Registry) → (consume key r).1 ≡ peek key r
unfolding consume peek
consume-peek key r = go (queue_of key r)
  where
    go : (q : List DeliveryEntry) → (pop_front key q r).1 ≡ head q
    go [] = unfold pop_front in refl
    go (x ∷ q) = unfold pop_front in refl

-- Where Lookup finds nothing, Consume changes nothing.
pub consume_absent : (key : Text) (r : Registry) → peek key r ≡ none → (consume key r).0 ≡ r
unfolding peek consume pop_front
consume_absent key r h = go (queue_of key r) h
  where
    go : (q : List DeliveryEntry) → head q ≡ none → (pop_front key q r).0 ≡ r
    go [] e = refl
    go (x ∷ q) e = absurd (cc)
