-- ===== src/RateLimit/Sliding.antt =====
-- The limiter and its promise, over any sequence of calls.
use open_nipper.Prelude.{
  ℕ, ◌≤◌, ◌≡◌, refl, sym, ap, ◌∙◌, false, Option, none, some, List, [], ◌∷◌, ◌++◌, Text, leb,
  length, list_eq, nat_eq, list_beq_iff, ◌==◌, Bool-cases, inl, inr, if_true, if_false,
}
use mathlib.Core.Path.{subst}
use open_nipper.Prelude.GoMap.{lookup, insert, Unique, insert-Unique, remove-Unique, sweep-Unique}
use open_nipper.RateLimit.{
  new_limiter, Limiter, events_of, prune, cutoff_at, allow, reset, count, count_found, cleanup,
  or_empty,
}
use open_nipper.RateLimit.History.{since}
use open_nipper.RateLimit.Promise.{
  Call, allow_call, count_call, cleanup_call, reset_call, time, counted, perform, answers, History,
  update, promise, promised, IsTimed,
}
use open_nipper.RateLimit.Matches.{
  Matches, Matches-later, Matches-prune, Matches-pruned, Matches-admitted, Matches-nothing,
  events-insert, events-remove, events-cleanup,
}

record Refines (l : Limiter) (h : History) (t : ℕ) : Type 0 where
  unique : Unique l.windows
  keys : (key : Text) → Matches l.window t (events_of key l) (h key)

put_Refines :
    (l : Limiter) (h h' : History) (t u : ℕ) (key : Text) (events : List ℕ)
    → Refines l h t
    → t ≤ u
    → Matches l.window u events (h' key)
    → ((j : Text) → (key == j) ≡ false → h' j ≡ h j)
    → Refines (record l { windows = insert key events l.windows }) h' u
put_Refines l h h' t u key events r later own others = record {
  unique = insert-Unique key events l.windows r.unique;
  keys = λ j. elim (Bool-cases (key == j)) [
    | inl same ↦
        subst (λ es. Matches l.window u es (h' j))
          (sym (events-insert key j events l ∙ if_true _ _ same))
          (subst (λ k. Matches l.window u events (h' k)) ((list_beq_iff key j).0 same) own)
    | inr other ↦
        subst (λ es. Matches l.window u es (h' j))
          (sym (events-insert key j events l ∙ if_false _ _ other))
          (subst (λ es. Matches l.window u (events_of j l) es) (sym (others j other))
            (Matches-later l.window t u (events_of j l) (h j) later (r.keys j)))
  ];
}

update_own : (key : Text) (es : List ℕ) (h : History) → update key es h key ≡ es
unfolding update
update_own key es h = if_true _ _ ((list_beq_iff key key).1 refl)

update_other :
    (key j : Text) (es : List ℕ) (h : History) → (key == j) ≡ false → update key es h j ≡ h j
unfolding update
update_other key j es h other = if_false _ _ other

-- A call answers as promised, and the limiter keeps matching the history.
record Keeps (l : Limiter) (h : History) (t : ℕ) (c : Call) : Type 0 where
  answer : (perform l c).1 ≡ (promise l.max l.window h c).1
  refined : Refines (perform l c).0 (promise l.max l.window h c).0 (time t c)
  same_max : (perform l c).0.max ≡ l.max
  same_window : (perform l c).0.window ≡ l.window

allow-Keeps :
    (l : Limiter) (h : History) (t : ℕ) (key : Text) (now : ℕ)
    → Refines l h t
    → t ≤ now
    → Keeps l h t (allow_call key now)
unfolding perform promise allow
allow-Keeps l h t key now r later =
    let w = l.window in
    let pruned = Matches-prune w t now (events_of key l) (h key) later (r.keys key) in
    elim (Bool-cases (leb l.max (length (since (cutoff_at w now) (h key))))) [
      | inl full ↦ record {
        answer = rw pruned (rw full refl);
        refined = rw pruned (
            rw full (
              rw (← pruned) (
                put_Refines l h h t now key _ r later
                  (Matches-pruned w t now (events_of key l) (h key) later (r.keys key))
                  (λ j o. refl))));
        same_max = rw pruned (rw full refl);
        same_window = rw pruned (rw full refl);
      }
      | inr free ↦ record {
        answer = rw pruned (rw free refl);
        refined = rw pruned (
            rw free (
              rw (← pruned) (
                put_Refines l h (update key (h key ++ now ∷ []) h) t now key _ r later
                  (rw (update_own key (h key ++ now ∷ []) h)
                    (Matches-admitted w t now (events_of key l) (h key) later (r.keys key)))
                  (λ j o. update_other key j (h key ++ now ∷ []) h o))));
        same_max = rw pruned (rw free refl);
        same_window = rw pruned (rw free refl);
      }
    ]

found_keeps :
    (l : Limiter) (h : History) (t : ℕ) (key : Text) (now : ℕ) (o : Option (List ℕ))
    → Refines l h t
    → t ≤ now
    → lookup key l.windows ≡ o
    → ((count_found key now o l).1 ≡ length (since (cutoff_at l.window now) (h key)))
      × Refines (count_found key now o l).0 h now
      × ((count_found key now o l).0.max ≡ l.max)
      × ((count_found key now o l).0.window ≡ l.window)
unfolding count_found events_of
found_keeps l h t key now none r later found =
    let pruned = Matches-prune l.window t now (events_of key l) (h key) later (r.keys key) in
    let nothing : [] ≡ since (cutoff_at l.window now) (h key) =
      unfold prune in ap (λ o. prune (cutoff_at l.window now) (or_empty o)) (sym found) ∙ pruned in
    (
      ap length nothing,
      record {
        unique = r.unique;
        keys = λ j. Matches-later l.window t now (events_of j l) (h j) later (r.keys j);
      },
      refl,
      refl,
    )
found_keeps l h t key now (some events) r later found =
    let own : Matches l.window t events (h key) =
      subst (λ o. Matches l.window t (or_empty o) (h key)) found (r.keys key) in
    (
      ap length (Matches-prune l.window t now events (h key) later own),
      put_Refines l h h t now key _ r later (Matches-pruned l.window t now events (h key) later own)
          (λ j o. refl),
      refl,
      refl,
    )

count-Keeps :
    (l : Limiter) (h : History) (t : ℕ) (key : Text) (now : ℕ)
    → Refines l h t
    → t ≤ now
    → Keeps l h t (count_call key now)
unfolding perform promise count
count-Keeps l h t key now r later =
    let (same, refined, same_max, same_window) =
      found_keeps l h t key now (lookup key l.windows) r later refl in
    record {
      answer = ap counted same;
      refined = refined;
      same_max = same_max;
      same_window = same_window;
    }

cleanup-Keeps :
    (l : Limiter) (h : History) (t now : ℕ)
    → Refines l h t
    → t ≤ now
    → Keeps l h t (cleanup_call now)
unfolding perform promise cleanup
cleanup-Keeps l h t now r later = record {
  answer = refl;
  refined = record {
    unique = sweep-Unique _ l.windows r.unique;
    keys = λ j.
        subst (λ es. Matches l.window now es (h j)) (sym (events-cleanup j now l r.unique))
          (Matches-pruned l.window t now (events_of j l) (h j) later (r.keys j));
  };
  same_max = refl;
  same_window = refl;
}

reset-Keeps :
    (l : Limiter) (h : History) (t : ℕ) (key : Text) → Refines l h t → Keeps l h t (reset_call key)
unfolding perform promise reset update
reset-Keeps l h t key r = record {
  answer = refl;
  refined = record {
    unique = remove-Unique key l.windows r.unique;
    keys = λ j. elim (Bool-cases (key == j)) [
      | inl same ↦ rw (events-remove key j l) (rw same (Matches-nothing l.window t))
      | inr other ↦ rw (events-remove key j l) (rw other (r.keys j))
    ];
  };
  same_max = refl;
  same_window = refl;
}

keeps :
    (l : Limiter) (h : History) (t : ℕ) (c : Call) → Refines l h t → t ≤ time t c → Keeps l h t c
keeps l h t (allow_call key now) r later = allow-Keeps l h t key now r later
keeps l h t (count_call key now) r later = count-Keeps l h t key now r later
keeps l h t (cleanup_call now) r later = cleanup-Keeps l h t now r later
keeps l h t (reset_call key) r later = reset-Keeps l h t key r

answers-promised :
    (l : Limiter) (h : History) (t : ℕ) (cs : List Call)
    → Refines l h t
    → IsTimed t cs
    → answers l cs ≡ promised l.max l.window h cs
unfolding answers promised
answers-promised l h t [] r timed = refl
answers-promised l h t (c ∷ cs) r timed =
    let k = keeps l h t c r timed.0 in
    let rest =
      answers-promised (perform l c).0 (promise l.max l.window h c).0 (time t c) cs k.refined
        timed.1 in
    let same : promised (perform l c).0.max (perform l c).0.window (promise l.max l.window h c).0 cs
        ≡ promised l.max l.window (promise l.max l.window h c).0 cs =
      ap (λ m. promised m (perform l c).0.window (promise l.max l.window h c).0 cs) k.same_max
      ∙ ap (λ w. promised l.max w (promise l.max l.window h c).0 cs) k.same_window in
    ap (λ a. a ∷ answers (perform l c).0 cs) k.answer
    ∙ ap (λ later. (promise l.max l.window h c).1 ∷ later) (rest ∙ same)

-- A new limiter, used with a clock that does not go back, answers every sequence of Allow, Count,
-- Cleanup and Reset calls as one that keeps the whole history of admitted events: an event is
-- admitted exactly if fewer than `max` events of its key were admitted in the window that ends then,
-- and a count is their number. What it forgets by pruning and cleaning up is never missed.
pub limits_sliding_window :
    (max window : ℕ) (cs : List Call)
    → IsTimed 0 cs
    → answers (new_limiter max window) cs ≡ promised max window (λ key. []) cs
unfolding events_of new_limiter lookup
limits_sliding_window max window cs timed =
    answers-promised (new_limiter max window) (λ key. []) 0 cs
      (record { unique = tt; keys = λ key. Matches-nothing window 0 }) timed
