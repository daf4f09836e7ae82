-- ===== src/Gateway/Registry.antt =====
-- internal/gateway/registry.go: for each session, the queue of delivery contexts of its messages.
pub mod View
pub mod Fifo
pub mod Tidy
use open_nipper.Prelude.{
  ℕ, ◌+◌, ◌-◌, Bool, true, false, Option, none, some, List, [], ◌∷◌, ◌++◌, Text, ltb, length,
  list_eq, nat_eq, if◌then◌else◌, Dict,
}
use open_nipper.Prelude.GoMap.{lookup, insert, remove, sweep, total}
use open_nipper.Models.Channel.{DeliveryContext, ChannelMeta}
use open_nipper.Models.Message.{ContentPart}

pub record DeliveryEntry : Type 0 where
  pub context : DeliveryContext
  pub meta : Option ChannelMeta
  pub inbound_parts : List ContentPart
  pub created_at : ℕ

abbrev pub Registry : Type 0
Registry = Dict Text (List DeliveryEntry)

-- Reading a missing key of a Go map gives the nil slice.
abbrev or_nil : Option (List DeliveryEntry) → List DeliveryEntry
or_nil none = []
or_nil (some q) = q

unfoldable pub queue_of : Text → Registry → List DeliveryEntry
queue_of key r = or_nil (lookup key r)

-- Register; `now` is its clock reading.
unfoldable pub register :
    ℕ → Text → DeliveryContext → Option ChannelMeta → List ContentPart → Registry → Registry
unfolding queue_of
register now key dc meta parts r =
    let entry : DeliveryEntry = record {
      context = dc;
      meta = meta;
      inbound_parts = parts;
      created_at = now;
    } in
    insert key (queue_of key r ++ entry ∷ []) r

abbrev head : List DeliveryEntry → Option DeliveryEntry
head [] = none
head (e ∷ q) = some e

-- Lookup
unfoldable pub peek : Text → Registry → Option DeliveryEntry
unfolding queue_of
peek key r = head (queue_of key r)

-- `r.entries[sessionKey] = q[1:]`, and `delete` if that is empty.
put_rest : Text → List DeliveryEntry → Registry → Registry
put_rest key [] r = remove key (insert key [] r)
put_rest key (e ∷ q) r = insert key (e ∷ q) r

pop_front : Text → List DeliveryEntry → Registry → Registry × Option DeliveryEntry
unfolding put_rest
pop_front key [] r = (r, none)
pop_front key (e ∷ q) r = (put_rest key q r, some e)

-- Consume
unfoldable pub consume : Text → Registry → Registry × Option DeliveryEntry
unfolding queue_of pop_front
consume key r = pop_front key (queue_of key r) r

-- Len
unfoldable pub size : Registry → ℕ
size r = total length r

unfoldable pub keep_fresh : ℕ → List DeliveryEntry → List DeliveryEntry
keep_fresh cutoff [] = []
keep_fresh cutoff (e ∷ q) =
    let keep = keep_fresh cutoff q in if ltb e.created_at cutoff then keep else e ∷ keep

unfoldable pub count_stale : ℕ → List DeliveryEntry → ℕ
count_stale cutoff [] = 0
count_stale cutoff (e ∷ q) =
    let stale = count_stale cutoff q in if ltb e.created_at cutoff then stale + 1 else stale

abbrev non_empty : List DeliveryEntry → Option (List DeliveryEntry)
non_empty [] = none
non_empty (e ∷ q) = some (e ∷ q)

abbrev sweep_queue : ℕ → Text → List DeliveryEntry → Option (List DeliveryEntry)
sweep_queue cutoff key q = non_empty (keep_fresh cutoff q)

-- EvictOlderThan
unfoldable pub evict_older_than : ℕ → Registry → Registry × ℕ
evict_older_than cutoff r = (sweep (sweep_queue cutoff) r, total (count_stale cutoff) r)
