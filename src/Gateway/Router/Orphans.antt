-- ===== src/Gateway/Router/Orphans.antt =====
-- The delivery entry of a message that is suppressed as a duplicate.
use open_nipper.Prelude.{
  nat_eq, list_eq, ℕ, ◌≡◌, refl, ap, ◌∙◌, if_true, beq_refl, Bool, true, none, [], ◌∷◌, ◌++◌, Text,
  ok,
}
use open_nipper.Models.Message.{NipperMessage}
use open_nipper.Gateway.Resolver.{resolve}
use open_nipper.Gateway.Registry.{queue_of, register}
use open_nipper.Gateway.Registry.View.{new_entry, queue-register}
use open_nipper.Gateway.Dedup.{is_duplicate}
use open_nipper.Gateway.Collect.{Router, RouterEnv}
use open_nipper.Gateway.Router.{
  dedup_strategy, derive_dedup_key, deduplicate, admit, admit_as, handle_normalized_message,
}
use open_nipper.Gateway.Router.Frame.{Passes, identified, handle_admits, submitted}

duplicate_stops :
    (env : RouterEnv) (now later : ℕ) (notify : Bool) (m : NipperMessage) (r : Router)
    → (is_duplicate r.dedup now later m.user_id
        (dedup_strategy m)
        (derive_dedup_key env.prompt_hash m)).1
      ≡ true
    → ((deduplicate env now later notify m r).1 ≡ none)
      × ((deduplicate env now later notify m r).0.actions ≡ r.actions)
      × ((deduplicate env now later notify m r).0.registry ≡ r.registry)
unfolding deduplicate
duplicate_stops env now later notify m r h = rw h (refl, refl, refl)

admit_duplicate :
    (env : RouterEnv) (now later : ℕ) (notify : Bool) (m : NipperMessage) (r : Router) (key : Text)
    → resolve m ≡ ok key
    → (is_duplicate r.dedup now later m.user_id
        (dedup_strategy m)
        (derive_dedup_key env.prompt_hash m)).1
      ≡ true
    → ((admit env now later notify m r).1 ≡ none)
      × ((admit env now later notify m r).0.actions ≡ r.actions)
      × ((admit env now later notify m r).0.registry
          ≡ register now key m.delivery_context m.meta m.content.parts r.registry)
unfolding admit dedup_strategy derive_dedup_key
admit_duplicate env now later notify m r key resolved h =
    let stops =
      duplicate_stops env now later notify (record m { session_key = key })
        (record r {
          registry = register now key m.delivery_context m.meta m.content.parts r.registry;
        })
        h in
    let eq = ap (λ o. admit_as env now later notify m o r) resolved in
    (
      ap (λ o. o.1) eq ∙ stops.0,
      ap (λ o. o.0.actions) eq ∙ stops.1,
      ap (λ o. o.0.registry) eq ∙ stops.2,
    )

-- A message that passes the guard, resolves to a session key and is a duplicate: the pipeline
-- reports no error and hands the publisher nothing, but the queue of delivery contexts of the
-- session is one entry longer.
pub duplicate_leaves_entry :
    (env : RouterEnv) (now later : ℕ) (notify : Bool) (msg : NipperMessage) (r : Router)
    (key : Text)
    → Passes env now msg r
    → resolve (identified env now msg r).0 ≡ ok key
    → (let m = (identified env now msg r).0 in
        (is_duplicate r.dedup now later m.user_id
          (dedup_strategy m)
          (derive_dedup_key env.prompt_hash m)).1
        ≡ true)
    → (let m = (identified env now msg r).0 in
        let out = handle_normalized_message env now later notify msg r in
        (out.1 ≡ none)
        × (submitted out.0.actions ≡ submitted r.actions)
        × (queue_of key out.0.registry
            ≡ queue_of key r.registry
              ++ new_entry now m.delivery_context m.meta m.content.parts ∷ []))
duplicate_leaves_entry env now later notify msg r key passes resolved seen =
    let m = (identified env now msg r).0 in
    let (s, same, eq) = handle_admits env now later notify msg r passes in
    let (no_error, acts, entries) =
      admit_duplicate env now later notify m s key resolved (rw same.dedup seen) in
    (
      ap (λ o. o.1) eq ∙ no_error,
      ap (λ o. submitted o.0.actions) eq ∙ ap submitted acts ∙ same.items,
      ap (λ o. queue_of key o.0.registry) eq ∙ ap (queue_of key) entries ∙ own s m same.registry,
    )
  where
    own :
        (s : Router) (m : NipperMessage)
        → s.registry ≡ r.registry
        → queue_of key (register now key m.delivery_context m.meta m.content.parts s.registry)
          ≡ queue_of key r.registry ++ new_entry now m.delivery_context m.meta m.content.parts ∷ []
    own s m same =
        queue-register now key key m.delivery_context m.meta m.content.parts s.registry
        ∙ if_true _ _ (beq_refl key)
        ∙ ap (λ t. queue_of key t ++ new_entry now m.delivery_context m.meta m.content.parts ∷ [])
            same
