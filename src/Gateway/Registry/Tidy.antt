-- ===== src/Gateway/Registry/Tidy.antt =====
-- Whether the map holds a session twice or an empty queue; what the methods do to its size.
use open_nipper.Prelude.{
  ℕ, ◌+◌, ◌≡◌, refl, ap, ◌∙◌, ◌≢◌, Option, none, some, List, [], ◌∷◌, ◌++◌, arith, Text, length,
  length-append, ◌==◌, list_eq, nat_eq, list_beq_iff, Bool-cases, inl, inr,
}
use open_nipper.Prelude.GoMap.{
  lookup, insert, remove, sweep, total, lookup-sweep, Unique, insert-Unique, remove-Unique,
  sweep-Unique, total-insert, total-remove, size_at, sweep_at,
}
use open_nipper.Models.Channel.{DeliveryContext, ChannelMeta}
use open_nipper.Models.Message.{ContentPart}
use open_nipper.Gateway.Registry.{
  DeliveryEntry, Registry, or_nil, queue_of, register, put_rest, pop_front, consume, size,
  keep_fresh, count_stale, sweep_queue, evict_older_than, non_empty,
}
use open_nipper.Gateway.Registry.View.{new_entry}

abbrev pub NoEmpty : Registry → Type 0
NoEmpty [] = Unit
NoEmpty ((k, q) ∷ r) = (q ≢ []) × NoEmpty r

pub record IsTidy (r : Registry) : Type 0 where
  pub unique : Unique r
  pub no_empty : NoEmpty r

insert-NoEmpty :
    (k : Text) (q : List DeliveryEntry) (r : Registry) → q ≢ [] → NoEmpty r → NoEmpty (insert k q r)
unfolding insert
insert-NoEmpty k q [] h n = (h, tt)
insert-NoEmpty k q ((j, p) ∷ r) h n = elim (Bool-cases (j == k)) [
  | inl e ↦ rw (e, insert) (h, n.1)
  | inr e ↦ rw (e, insert) (n.0, insert-NoEmpty k q r h n.1)
]

remove-NoEmpty : (k : Text) (r : Registry) → NoEmpty r → NoEmpty (remove k r)
unfolding remove
remove-NoEmpty k [] n = tt
remove-NoEmpty k ((j, p) ∷ r) n = elim (Bool-cases (j == k)) [
  | inl e ↦ rw (e, remove) (remove-NoEmpty k r n.1)
  | inr e ↦ rw (e, remove) (n.0, remove-NoEmpty k r n.1)
]

remove-insert :
    (k : Text) (q : List DeliveryEntry) (r : Registry) → remove k (insert k q r) ≡ remove k r
unfolding remove insert
remove-insert k q [] = ground (arith, list_beq_iff k k)
remove-insert k q ((j, p) ∷ r) = ground (arith, list_beq_iff k k, remove-insert k q r)

put_rest-IsTidy :
    (k : Text) (q : List DeliveryEntry) (r : Registry) → IsTidy r → IsTidy (put_rest k q r)
unfolding put_rest
put_rest-IsTidy k [] r t =
    rw (remove-insert k [] r)
      (record { unique = remove-Unique k r t.unique; no_empty = remove-NoEmpty k r t.no_empty })
put_rest-IsTidy k (e ∷ q) r t = record {
  unique = insert-Unique k (e ∷ q) r t.unique;
  no_empty = insert-NoEmpty k (e ∷ q) r (ground arith) t.no_empty;
}

snoc-ne-nil : (q : List DeliveryEntry) (e : DeliveryEntry) → q ++ e ∷ [] ≢ []
snoc-ne-nil [] e = ground arith
snoc-ne-nil (x ∷ q) e = ground arith

-- Registering a message keeps the registry tidy.
pub register-IsTidy :
    (now : ℕ) (key : Text) (dc : DeliveryContext) (meta : Option ChannelMeta)
    (parts : List ContentPart) (r : Registry)
    → IsTidy r
    → IsTidy (register now key dc meta parts r)
unfolding register
register-IsTidy now key dc meta parts r t = record {
  unique = insert-Unique key _ r t.unique;
  no_empty = insert-NoEmpty key _ r (snoc-ne-nil (queue_of key r) _) t.no_empty;
}

pop_front-IsTidy :
    (k : Text) (q : List DeliveryEntry) (r : Registry) → IsTidy r → IsTidy (pop_front k q r).0
unfolding pop_front
pop_front-IsTidy k [] r t = t
pop_front-IsTidy k (e ∷ q) r t = put_rest-IsTidy k q r t

-- Consuming the front of a queue keeps the registry tidy: an emptied queue is deleted.
pub consume-IsTidy : (key : Text) (r : Registry) → IsTidy r → IsTidy (consume key r).0
unfolding consume
consume-IsTidy key r t = pop_front-IsTidy key (queue_of key r) r t

non_empty-NoEmpty : (cutoff : ℕ) (r : Registry) → NoEmpty (sweep (sweep_queue cutoff) r)
unfolding sweep
non_empty-NoEmpty cutoff [] = tt
non_empty-NoEmpty cutoff ((k, q) ∷ r) = go (keep_fresh cutoff q) (non_empty-NoEmpty cutoff r)
  where
    go :
        (p : List DeliveryEntry)
        → NoEmpty (sweep (sweep_queue cutoff) r)
        → NoEmpty (elim (non_empty p) [
          | none ↦ sweep (sweep_queue cutoff) r
          | some w ↦ (k, w) ∷ sweep (sweep_queue cutoff) r
        ])
    go [] h = h
    go (x ∷ p) h = (ground arith, h)

-- Evicting keeps the registry tidy: a queue of which nothing is left is deleted.
pub evict-IsTidy : (cutoff : ℕ) (r : Registry) → IsTidy r → IsTidy (evict_older_than cutoff r).0
unfolding evict_older_than
evict-IsTidy cutoff r t = record {
  unique = sweep-Unique (sweep_queue cutoff) r t.unique;
  no_empty = non_empty-NoEmpty cutoff r;
}

size_of_lookup :
    (key : Text) (r : Registry) → size_at length (lookup key r) ≡ length (queue_of key r)
unfolding queue_of
size_of_lookup key r = ground arith

-- Len after Register is one more.
pub size-register :
    (now : ℕ) (key : Text) (dc : DeliveryContext) (meta : Option ChannelMeta)
    (parts : List ContentPart) (r : Registry)
    → size (register now key dc meta parts r) ≡ size r + 1
unfolding size register
size-register now key dc meta parts r = omega (
  arith,
  total-insert length key (queue_of key r ++ new_entry now dc meta parts ∷ []) r,
  size_of_lookup key r,
  length-append {0} (queue_of key r) (new_entry now dc meta parts ∷ []),
)

abbrev pub taken : Option DeliveryEntry → ℕ
taken none = 0
taken (some e) = 1

size-put_rest :
    (key : Text) (q : List DeliveryEntry) (r : Registry)
    → Unique r
    → total length (put_rest key q r) + length (queue_of key r) ≡ total length r + length q
unfolding put_rest
size-put_rest key [] r u =
    rw (remove-insert key [] r) (omega (arith, total-remove length key r u, size_of_lookup key r))
size-put_rest key (e ∷ q) r u =
    omega (arith, total-insert length key (e ∷ q) r, size_of_lookup key r)

-- Consume takes one entry off the size if it returns one, and none otherwise.
pub size-consume :
    (key : Text) (r : Registry)
    → IsTidy r
    → size (consume key r).0 + taken (consume key r).1 ≡ size r
unfolding size consume
size-consume key r t = go (queue_of key r) refl
  where
    go :
        (q : List DeliveryEntry)
        → queue_of key r ≡ q
        → total length (pop_front key q r).0 + taken (pop_front key q r).1 ≡ total length r
    go [] e = unfold pop_front in omega arith
    go (x ∷ q) e =
        unfold pop_front in omega (arith, size-put_rest key q r t.unique, ap (length {0}) e)

fresh_or_stale :
    (cutoff : ℕ) (q : List DeliveryEntry)
    → length (keep_fresh cutoff q) + count_stale cutoff q ≡ length q
unfolding keep_fresh count_stale
fresh_or_stale cutoff [] = omega arith
fresh_or_stale cutoff (e ∷ q) = ground (arith, fresh_or_stale cutoff q)

length-non_empty : (q : List DeliveryEntry) → size_at length (non_empty q) ≡ length q
length-non_empty [] = refl
length-non_empty (e ∷ q) = refl

total-sweep_cons :
    (k : Text) (o : Option (List DeliveryEntry)) (rest : Registry)
    → total length (elim o [ none ↦ rest | some w ↦ (k, w) ∷ rest ])
      ≡ size_at length o + total length rest
unfolding total
total-sweep_cons k none rest = omega arith
total-sweep_cons k (some w) rest = refl

-- The number that EvictOlderThan returns is the number of entries that it removed.
pub size-evict :
    (cutoff : ℕ) (r : Registry)
    → size (evict_older_than cutoff r).0 + (evict_older_than cutoff r).1 ≡ size r
unfolding size evict_older_than sweep total
size-evict cutoff [] = omega arith
size-evict cutoff ((k, q) ∷ r) = omega (
  arith,
  size-evict cutoff r,
  fresh_or_stale cutoff q,
  length-non_empty (keep_fresh cutoff q),
  total-sweep_cons k (non_empty (keep_fresh cutoff q)) (sweep (sweep_queue cutoff) r),
)

-- EvictOlderThan keeps of each queue exactly the entries not created before the cutoff, in their
-- order.
pub queue-evict :
    (cutoff : ℕ) (key : Text) (r : Registry)
    → IsTidy r
    → queue_of key (evict_older_than cutoff r).0 ≡ keep_fresh cutoff (queue_of key r)
unfolding queue_of evict_older_than
queue-evict cutoff key r t =
    ap or_nil (lookup-sweep (sweep_queue cutoff) key r t.unique) ∙ go (lookup key r)
  where
    back : (q : List DeliveryEntry) → or_nil (non_empty q) ≡ q
    back [] = refl
    back (x ∷ q) = refl

    go :
        (o : Option (List DeliveryEntry))
        → or_nil (sweep_at (sweep_queue cutoff) key o) ≡ keep_fresh cutoff (or_nil o)
    go none = unfold keep_fresh in refl
    go (some q) = back (keep_fresh cutoff q)
