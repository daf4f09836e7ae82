-- ===== src/Gateway/Router/Frame.antt =====
-- What the steps before the deduplication leave alone, and the run of a message that passes them.
use open_nipper.Prelude.{
  ℕ, ◌≡◌, refl, sym, ap, ◌∙◌, ◌⊎◌, inl, inr, Bool, true, false, Option, none, some, List, [], ◌∷◌,
  ◌++◌, map, arith, Text, is_empty, Result, ok, err, Bool-cases, ◌==◌, list_eq, nat_eq,
}
use mathlib.Core.List.{append_assoc, append-nil}
use open_nipper.Models.Channel.{cron}
use open_nipper.Models.Message.{NipperMessage}
use open_nipper.Models.Queue.{QueueItem}
use open_nipper.Allowlist.{Repository, Rejection, check}
use open_nipper.Allowlist.Policy.{IsPermitted, check_iff}
use open_nipper.Gateway.Collect.{Action, Actions, audited, published, Router, RouterEnv}
use open_nipper.Gateway.Router.{
  RouteError, allowlist_failed, with_defaults, matched_user, resolve_user, identify, admit,
  after_check, guarded, handle_normalized_message,
}

abbrev submitted_by : Action → List QueueItem
submitted_by (published item success) = item ∷ []
submitted_by _ = []

-- The items that the pipeline handed to the publisher, in order.
unfoldable pub submitted : Actions → List QueueItem
submitted [] = []
submitted (a ∷ acts) = submitted_by a ++ submitted acts

pub submitted-append : (xs ys : Actions) → submitted (xs ++ ys) ≡ submitted xs ++ submitted ys
unfolding submitted
submitted-append [] ys = refl
submitted-append (a ∷ xs) ys =
    ap (λ l. submitted_by a ++ l) (submitted-append xs ys)
    ∙ sym (append_assoc (submitted_by a) (submitted xs) (submitted ys))

submitted-audits : (entries : List Rejection) → submitted (map audited entries) ≡ []
unfolding submitted
submitted-audits [] = refl
submitted-audits (e ∷ es) = submitted-audits es

-- The second state has the registry, the deduplicator, the buffers, the pending flushes and the
-- submitted items of the first.
pub record SameCore (r : Router) (s : Router) : Type 0 where
  pub registry : s.registry ≡ r.registry
  pub dedup : s.dedup ≡ r.dedup
  pub buffers : s.collect_buffers ≡ r.collect_buffers
  pub flushing : s.flushing ≡ r.flushing
  pub items : submitted s.actions ≡ submitted r.actions

acted :
    (acts : Actions) (r : Router)
    → submitted acts ≡ []
    → SameCore r (record r { actions = r.actions ++ acts })
acted acts r h = record {
  registry = refl;
  dedup = refl;
  buffers = refl;
  flushing = refl;
  items = submitted-append r.actions acts ∙ ap (λ l. submitted r.actions ++ l) h ∙ append-nil _;
}

same_trans : {r s t : Router} → SameCore r s → SameCore s t → SameCore r t
same_trans p q = record {
  registry = q.registry ∙ p.registry;
  dedup = q.dedup ∙ p.dedup;
  buffers = q.buffers ∙ p.buffers;
  flushing = q.flushing ∙ p.flushing;
  items = q.items ∙ p.items;
}

submitted-matched :
    (msg : NipperMessage) (o : Option (Text × Text)) → submitted (matched_user msg o).1 ≡ []
unfolding submitted matched_user
submitted-matched msg none = refl
submitted-matched msg (some (identity, user)) = ground arith

submitted-resolve_user :
    (repo : Repository) (msg : NipperMessage) → submitted (resolve_user repo msg).1 ≡ []
unfolding resolve_user submitted
submitted-resolve_user repo msg = elim (Bool-cases (is_empty msg.channel_identity)) [
  | inl e ↦ rw e refl
  | inr e ↦ rw e (submitted-matched msg _)
]

identify-SameCore :
    (env : RouterEnv) (msg : NipperMessage) (r : Router) → SameCore r (identify env msg r).1
unfolding identify
identify-SameCore env msg r = elim (Bool-cases (is_empty msg.user_id)) [
  | inl e ↦ rw e (acted _ r (submitted-resolve_user (env.repo r.actions) msg))
  | inr e ↦
      rw e (record { registry = refl; dedup = refl; buffers = refl; flushing = refl; items = refl })
]

-- The message after the defaults and the identification, and the state then.
abbrev pub identified : RouterEnv → ℕ → NipperMessage → Router → NipperMessage × Router
identified env now msg r = identify env (with_defaults env now r msg) r

-- A cron message, or one whose user may use its channel.
abbrev pub Passes : RouterEnv → ℕ → NipperMessage → Router → Type 0
Passes env now msg r =
    let (m, r1) = identified env now msg r in
    ((m.channel_type == cron) ≡ true) ⊎ IsPermitted (env.repo r1.actions) m.user_id m.channel_type

after_check_admits :
    (env : RouterEnv) (now later : ℕ) (notify : Bool) (m : NipperMessage) (r : Router)
    (c : List Rejection × Result Text Bool)
    → c.1 ≡ ok true
    → (s : Router) × SameCore r s
      × (after_check env now later notify m c r ≡ admit env now later notify m s)
unfolding after_check
after_check_admits env now later notify m r (entries, answer) h = (
  record r { actions = r.actions ++ map audited entries },
  acted (map audited entries) r (submitted-audits entries),
  rw h refl,
)

pub handle_admits :
    (env : RouterEnv) (now later : ℕ) (notify : Bool) (msg : NipperMessage) (r : Router)
    → Passes env now msg r
    → (s : Router) × SameCore r s
      × (handle_normalized_message env now later notify msg r
          ≡ admit env now later notify (identified env now msg r).0 s)
unfolding handle_normalized_message guarded
handle_admits env now later notify msg r (inl e) =
    ((identified env now msg r).1, identify-SameCore env (with_defaults env now r msg) r, rw e refl)
handle_admits env now later notify msg r (inr p) =
    let (m, r1) = identified env now msg r in
    let c = check (env.repo r1.actions) m.user_id m.channel_type in
    let (s, same, eq) =
      after_check_admits env now later notify m r1 c
        ((check_iff (env.repo r1.actions) m.user_id m.channel_type).1 p) in
    elim (Bool-cases (m.channel_type == cron)) [
      | inl e ↦ (r1, identify-SameCore env (with_defaults env now r msg) r, rw e refl)
      | inr e ↦
          (s, same_trans (identify-SameCore env (with_defaults env now r msg) r) same, rw e eq)
    ]

-- No error, or that of a datastore that failed.
abbrev pub IsQuiet : Option RouteError → Type 0
IsQuiet o = (o ≡ none) ⊎ ((e : Text) × (o ≡ some (allowlist_failed e)))

after_check_stops :
    (env : RouterEnv) (now later : ℕ) (notify : Bool) (m : NipperMessage) (r : Router)
    (c : List Rejection × Result Text Bool)
    → ¬ (c.1 ≡ ok true)
    → SameCore r (after_check env now later notify m c r).0
      × IsQuiet (after_check env now later notify m c r).1
unfolding after_check
after_check_stops env now later notify m r (entries, err e) h =
    (acted (map audited entries) r (submitted-audits entries), inr (e, refl))
after_check_stops env now later notify m r (entries, ok false) h =
    (acted (map audited entries) r (submitted-audits entries), inl refl)
after_check_stops env now later notify m r (entries, ok true) h = absurd (h refl)

pub handle_stops :
    (env : RouterEnv) (now later : ℕ) (notify : Bool) (msg : NipperMessage) (r : Router)
    → ¬ Passes env now msg r
    → SameCore r (handle_normalized_message env now later notify msg r).0
      × IsQuiet (handle_normalized_message env now later notify msg r).1
unfolding handle_normalized_message guarded
handle_stops env now later notify msg r h =
    let (m, r1) = identified env now msg r in
    let c = check (env.repo r1.actions) m.user_id m.channel_type in
    elim (Bool-cases (m.channel_type == cron)) [
      | inl e ↦ absurd (h (inl e))
      | inr e ↦
          let (same, quiet) =
            after_check_stops env now later notify m r1 c
              (λ p. h (inr ((check_iff (env.repo r1.actions) m.user_id m.channel_type).0 p))) in
          (
            rw e (same_trans (identify-SameCore env (with_defaults env now r msg) r) same),
            rw e quiet,
          )
    ]
