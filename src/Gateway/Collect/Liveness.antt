-- ===== src/Gateway/Collect/Liveness.antt =====
-- Every buffer of collected messages has a flush ahead of it.
use open_nipper.Prelude.{
  ◌≤◌, ℕ, ◌≡◌, ◌⊎◌, refl, sym, ap, ◌∙◌, Bool, true, false, Option, none, some, List, [], ◌∷◌, ◌++◌,
  arith, Text, ℤ, ◌==◌, length, leb, nat_eq, list_eq, list_beq_iff, beq_refl, if◌then◌else◌,
  if_true, if_false, Bool-cases, inl, inr,
}
use mathlib.Core.Path.{subst}
use mathlib.Core.List.{append-nil}
use open_nipper.Prelude.GoMap.{lookup, lookup-insert, lookup-remove}
use open_nipper.Models.Message.{NipperMessage}
use open_nipper.Models.Queue.{QueueMode}
use open_nipper.Gateway.Collect.{
  CollectBuffer, Router, RouterEnv, buffer_key, new_buffer, append_msg, buffer_or, is_full,
  enqueue_collect, flush_found, publish_collected, flush_collect_buffer,
}
use open_nipper.Gateway.Collect.Timers.{
  System, Progress, Reach, Flush, collects, timer_fires, orphan_fires, goroutine_runs, first, later,
  runs, fires_and_runs, is_started, drop_one, fire_timer, run_goroutine, due_of,
}
use open_nipper.Gateway.Collect.Conservation.{
  left, buffered, msgs_of, flush, messages_conserved, run, perform, arrivals,
}

abbrev IsFilled : CollectBuffer → Type 0
IsFilled buf = (m : NipperMessage) × (ms : List NipperMessage) × (buf.msgs ≡ m ∷ ms)

-- A buffer has a message, and a timer or a goroutine that will flush it.
abbrev HasFlush : List Text → Text → CollectBuffer → Type 0
HasFlush ks key buf = IsFilled buf × (((t : ℕ) × (buf.timer ≡ some t)) ⊎ (is_started key ks ≡ true))

record Pending (r : Router) : Type 0 where
  ahead :
      (key : Text) (buf : CollectBuffer)
      → lookup key r.collect_buffers ≡ some buf
      → HasFlush r.flushing key buf

is_started-append :
    (key : Text) (ks js : List Text) → is_started key ks ≡ true → is_started key (ks ++ js) ≡ true
unfolding is_started
is_started-append key [] js h = absurd (cc h)
is_started-append key (k ∷ ks) js h = ground (arith, is_started-append key ks js)

is_started-snoc : (key : Text) (ks : List Text) → is_started key (ks ++ (key ∷ [])) ≡ true
unfolding is_started
is_started-snoc key [] = ground (arith, beq_refl key)
is_started-snoc key (k ∷ ks) = ground (arith, is_started-snoc key ks)

is_started-drop_one :
    (key j : Text) (ks : List Text)
    → (key == j) ≡ false
    → is_started j (drop_one key ks) ≡ is_started j ks
unfolding is_started drop_one
is_started-drop_one key j [] h = refl
is_started-drop_one key j (k ∷ ks) h =
    ground (
      arith,
      list_beq_iff k key,
      list_beq_iff k j,
      list_beq_iff key j,
      is_started-drop_one key j ks,
    )

snoc_parts :
    (xs : List NipperMessage) (x : NipperMessage)
    → (m : NipperMessage) × (ms : List NipperMessage) × (xs ++ (x ∷ []) ≡ m ∷ ms)
snoc_parts [] x = (x, [], refl)
snoc_parts (y ∷ ys) x = (y, ys ++ (x ∷ []), refl)

-- The goroutines after a message was put in a buffer.
abbrev after_append : List Text → Text → CollectBuffer → List Text
after_append ks key buf = if is_full buf then ks ++ (key ∷ []) else ks

append-HasFlush :
    (ks : List Text) (key : Text) (msg : NipperMessage) (buf : CollectBuffer)
    → ((t : ℕ) × (buf.timer ≡ some t)) ⊎ (is_started key ks ≡ true)
    → HasFlush (after_append ks key (append_msg msg buf)) key (append_msg msg buf)
unfolding append_msg
append-HasFlush ks key msg buf ahead = (
  snoc_parts buf.msgs msg,
  elim (Bool-cases (leb buf.cap (length (buf.msgs ++ (msg ∷ []))))) [
    | inl full ↦ inr (rw full (is_started-snoc key ks))
    | inr room ↦ elim ahead [
      | inl timed ↦ inl (timed.0, if_false _ _ room ∙ timed.1)
      | inr started ↦ inr (rw room started)
    ]
  ],
)

buffer_or-ahead :
    (ks : List Text) (key : Text) (fresh : CollectBuffer) (t : ℕ) (o : Option CollectBuffer)
    → fresh.timer ≡ some t
    → ((buf : CollectBuffer) → o ≡ some buf → HasFlush ks key buf)
    → ((u : ℕ) × ((buffer_or fresh o).timer ≡ some u)) ⊎ (is_started key ks ≡ true)
buffer_or-ahead ks key fresh t none timed h = inl (t, timed)
buffer_or-ahead ks key fresh t (some buf) timed h = (h buf refl).1

keep-HasFlush :
    (ks : List Text) (key j : Text) (full : Bool) (buf : CollectBuffer)
    → HasFlush ks j buf
    → HasFlush (if full then ks ++ (key ∷ []) else ks) j buf
keep-HasFlush ks key j full buf (parts, inl timed) = (parts, inl timed)
keep-HasFlush ks key j true buf (parts, inr started) =
    (parts, inr (is_started-append j ks (key ∷ []) started))
keep-HasFlush ks key j false buf (parts, inr started) = (parts, inr started)

collect-Pending :
    (env : RouterEnv) (now : ℕ) (msg : NipperMessage) (mode : QueueMode) (priority : ℤ) (r : Router)
    → Pending r
    → Pending (enqueue_collect env.config now msg mode priority r)
unfolding enqueue_collect new_buffer
collect-Pending env now msg mode priority r pending =
    let key = buffer_key msg in
    let fresh = new_buffer env.config now msg.channel_type mode priority in
    let old = buffer_or fresh (lookup key r.collect_buffers) in
    let new = append_msg msg old in
    record {
      ahead = λ j buf found. elim (Bool-cases (key == j)) [
        | inl own ↦
            let same : key ≡ j = (list_beq_iff key j).0 own in
            let is : some new ≡ some buf =
              sym (if_true _ _ own) ∙ sym (lookup-insert key j new r.collect_buffers) ∙ found in
            let same_buf : new ≡ buf = cc is in
            subst (λ k. HasFlush (after_append r.flushing key new) k buf) same
              (subst (HasFlush (after_append r.flushing key new) key) same_buf (
                append-HasFlush r.flushing key msg old (
                  buffer_or-ahead r.flushing key fresh _ (lookup key r.collect_buffers) refl
                    (pending.ahead key))))
        | inr other ↦ keep-HasFlush r.flushing key j (is_full new) buf (
            pending.ahead j buf
              (sym (if_false _ _ other) ∙ sym (lookup-insert key j new r.collect_buffers) ∙ found))
      ];
    }

-- What a flush does to the buffers and the goroutines.
record Flushed (key : Text) (r r' : Router) : Type 0 where
  gone : lookup key r'.collect_buffers ≡ none
  others :
      (j : Text) → (key == j) ≡ false → lookup j r'.collect_buffers ≡ lookup j r.collect_buffers
  same_goroutines : r'.flushing ≡ r.flushing

flush_found-Flushed :
    (env : RouterEnv) (now : ℕ) (key : Text) (r : Router) (o : Option CollectBuffer)
    → lookup key r.collect_buffers ≡ o
    → ((buf : CollectBuffer) → o ≡ some buf → IsFilled buf)
    → Flushed key r (flush_found env now key o r)
unfolding flush_found publish_collected
flush_found-Flushed env now key r none there filled = record {
  gone = there;
  others = λ j h. refl;
  same_goroutines = refl;
}
flush_found-Flushed env now key r (some buf) there filled =
    let (m, ms, is) = filled buf refl in
    subst (λ l. Flushed key r (publish_collected env now key buf l r)) (sym is)
      (record {
        gone = lookup-remove key key r.collect_buffers ∙ if_true _ _ (beq_refl key);
        others = λ j h. lookup-remove key j r.collect_buffers ∙ if_false _ _ h;
        same_goroutines = refl;
      })

flush-Flushed :
    (env : RouterEnv) (now : ℕ) (key : Text) (r : Router)
    → ((buf : CollectBuffer) → lookup key r.collect_buffers ≡ some buf → IsFilled buf)
    → Flushed key r (flush_collect_buffer env now key r)
unfolding flush_collect_buffer
flush-Flushed env now key r filled = flush_found-Flushed env now key r _ refl filled

-- A flush of a key leaves what is pending for the others.
flush-Pending :
    (env : RouterEnv) (now : ℕ) (key : Text) (r : Router) (ks : List Text)
    → ((j : Text) → (key == j) ≡ false → is_started j ks ≡ is_started j r.flushing)
    → Pending r
    → Pending (flush_collect_buffer env now key (record r { flushing = ks }))
flush-Pending env now key r ks same pending =
    let done =
      flush-Flushed env now key (record r { flushing = ks })
        (λ buf h. (pending.ahead key buf h).0) in
    record {
      ahead = λ j buf found. elim (Bool-cases (key == j)) [
        | inl own ↦ absurd (cc (found, done.gone, (list_beq_iff key j).0 own))
        | inr other ↦
            let before = pending.ahead j buf (sym (done.others j other) ∙ found) in
            (
              before.0,
              elim before.1 [
                | inl timed ↦ inl timed
                | inr started ↦
                    inr (ap (is_started j) done.same_goroutines ∙ same j other ∙ started)
              ],
            )
      ];
    }

-- A fired timer is a goroutine.
fire-Pending :
    (key : Text) (buf : CollectBuffer) (r : Router)
    → lookup key r.collect_buffers ≡ some buf
    → Pending r
    → Pending (fire_timer key buf r)
fire-Pending key buf r there pending =
    let fired : CollectBuffer = record buf { timer = none } in
    record {
      ahead = λ j b found. elim (Bool-cases (key == j)) [
        | inl own ↦
            let same : key ≡ j = (list_beq_iff key j).0 own in
            let is : some fired ≡ some b =
              sym (if_true _ _ own) ∙ sym (lookup-insert key j fired r.collect_buffers) ∙ found in
            let same_buf : fired ≡ b = cc is in
            subst (λ k. HasFlush (r.flushing ++ key ∷ []) k b) same
              (subst (HasFlush (r.flushing ++ key ∷ []) key) same_buf
                ((pending.ahead key buf there).0, inr (is_started-snoc key r.flushing)))
        | inr other ↦ keep-HasFlush r.flushing key j true b (
            pending.ahead j b (
              sym (if_false _ _ other) ∙ sym (lookup-insert key j fired r.collect_buffers) ∙ found))
      ];
    }

Progress-Pending :
    {env : RouterEnv} {s s' : System} → Progress env s s' → Pending s.router → Pending s'.router
Progress-Pending {env} {s} (collects now msg mode priority) pending =
    collect-Pending env now msg mode priority s.router pending
Progress-Pending {env} {s} (timer_fires now key buf t there timed due) pending =
    fire-Pending key buf s.router there pending
Progress-Pending {env} {s} (orphan_fires now key t xs ys there due) pending = record {
  ahead = λ j buf found. keep-HasFlush s.router.flushing key j true buf (pending.ahead j buf found);
}
Progress-Pending {env} {s} (goroutine_runs now key started) pending =
    flush-Pending env now key s.router (drop_one key s.router.flushing)
      (λ j h. is_started-drop_one key j s.router.flushing h) pending

Reach-Pending : {env : RouterEnv} {s : System} → Reach env s → Pending s.router
unfolding lookup
Reach-Pending {env} (first s no_buffers) = record {
  ahead = λ key buf h. absurd (cc (h, ap (lookup key) no_buffers));
}
Reach-Pending {env} (later reach progress) = Progress-Pending progress (Reach-Pending reach)

-- All that a buffer held has left it.
unfoldable pub IsDelivered : Text → CollectBuffer → Router → Router → Type 0
IsDelivered key buf r r' =
    (lookup key r'.collect_buffers ≡ none) × (left key r'.actions ≡ left key r.actions ++ buf.msgs)

flush-IsDelivered :
    (env : RouterEnv) (now : ℕ) (key : Text) (buf : CollectBuffer) (r : Router)
    → ((b : CollectBuffer) → lookup key r.collect_buffers ≡ some b → IsFilled b)
    → lookup key r.collect_buffers ≡ some buf
    → IsDelivered key buf r (flush_collect_buffer env now key r)
unfolding IsDelivered buffered run perform arrivals
flush-IsDelivered env now key buf r filled there =
    let done = flush-Flushed env now key r filled in
    let conserved = messages_conserved env key (flush now key ∷ []) r in
    (
      done.gone,
      sym (append-nil (left key (flush_collect_buffer env now key r).actions))
          ∙ ap (λ o. left key (flush_collect_buffer env now key r).actions ++ msgs_of o)
              (sym done.gone)
          ∙ conserved
          ∙ append-nil (left key r.actions ++ buffered key r)
          ∙ ap (λ o. left key r.actions ++ msgs_of o) there,
    )

-- A goroutine that runs for a buffer delivers it.
run-IsDelivered :
    (env : RouterEnv) (now : ℕ) (key : Text) (buf : CollectBuffer) (s : System)
    → Pending s.router
    → lookup key s.router.collect_buffers ≡ some buf
    → IsDelivered key buf s.router (run_goroutine env now key s).router
unfolding IsDelivered
run-IsDelivered env now key buf s pending there =
    flush-IsDelivered env now key buf
      (record s.router { flushing = drop_one key s.router.flushing })
      (λ b h. (pending.ahead key b h).0) there

fired-IsDelivered :
    (env : RouterEnv) (now : ℕ) (key : Text) (buf : CollectBuffer) (s : System)
    → Pending s.router
    → lookup key s.router.collect_buffers ≡ some buf
    → IsDelivered key buf s.router
        (run_goroutine env now key (record s { router = fire_timer key buf s.router })).router
unfolding IsDelivered
fired-IsDelivered env now key buf s pending there =
    run-IsDelivered env now key (record buf { timer = none })
      (record s { router = fire_timer key buf s.router })
      (fire-Pending key buf s.router there pending)
      (lookup-insert key key (record buf { timer = none }) s.router.collect_buffers
        ∙ if_true _ _ (beq_refl key))

-- In every state that the router reaches, for every buffer, and at every time from the one at which
-- its timer is due, or at every time when it has none: the buffer's timer is armed and due and can
-- fire, or a goroutine for it was started before, and that goroutine, or the one of the timer, when it
-- runs next, removes the buffer and takes all its messages out of it.
pub collected_leave :
    (env : RouterEnv) (s : System) (now : ℕ) (key : Text) (buf : CollectBuffer)
    → Reach env s
    → lookup key s.router.collect_buffers ≡ some buf
    → due_of buf.timer ≤ now
    → (s' : System) × Flush env now key s s' × IsDelivered key buf s.router s'.router
unfolding IsDelivered due_of
collected_leave env s now key buf reach there due =
    let pending = Reach-Pending reach in
    elim (pending.ahead key buf there).1 [
      | inl timed ↦ (
        _,
        fires_and_runs buf timed.0 there timed.1 (subst (λ o. due_of o ≤ now) timed.1 due),
        fired-IsDelivered env now key buf s pending there,
      )
      | inr started ↦ (_, runs started, run-IsDelivered env now key buf s pending there)
    ]
