-- ===== src/RateLimit/Matches.antt =====
-- The events that a limiter keeps for a key, against all its admitted events.
use open_nipper.Prelude.{
  ℕ, ◌≤◌, ◌≡◌, refl, sym, ap, ◌∙◌, Option, none, some, List, [], ◌∷◌, ◌++◌, Text, if◌then◌else◌,
  list_eq, nat_eq, ◌==◌, All, arith,
}
use open_nipper.Prelude.GoMap.{
  lookup, insert, remove, sweep_at, Unique, lookup-insert, lookup-remove, lookup-sweep,
}
use open_nipper.RateLimit.{Limiter, events_of, prune, cutoff_at, cleanup, or_empty, non_empty}
use open_nipper.RateLimit.History.{
  since, IsSorted, prune-since, since-snoc, All-snoc, All-later, IsSorted-snoc,
}

-- The events kept for a key are those of its history since some earlier cutoff.
pub record Matches (window : ℕ) (t : ℕ) (events : List ℕ) (es : List ℕ) : Type 0 where
  pub sorted : IsSorted es
  pub past : All (λ x. x ≤ t) es
  pub from : ℕ
  pub early : from ≤ cutoff_at window t
  pub kept : events ≡ since from es

pub Matches-later :
    (w t u : ℕ) (events es : List ℕ) → t ≤ u → Matches w t events es → Matches w u events es
Matches-later w t u events es h m = record {
  sorted = m.sorted;
  past = All-later t u es h m.past;
  from = m.from;
  early = let early = m.early in ground arith;
  kept = m.kept;
}

pub Matches-prune :
    (w t u : ℕ) (events es : List ℕ)
    → t ≤ u
    → Matches w t events es
    → prune (cutoff_at w u) events ≡ since (cutoff_at w u) es
Matches-prune w t u events es h m =
    ap (prune (cutoff_at w u)) m.kept
    ∙ prune-since m.from (cutoff_at w u) es m.sorted (let early = m.early in ground arith)

pub Matches-pruned :
    (w t u : ℕ) (events es : List ℕ)
    → t ≤ u
    → Matches w t events es
    → Matches w u (prune (cutoff_at w u) events) es
Matches-pruned w t u events es h m = record {
  sorted = m.sorted;
  past = All-later t u es h m.past;
  from = cutoff_at w u;
  early = ground arith;
  kept = Matches-prune w t u events es h m;
}

pub Matches-admitted :
    (w t u : ℕ) (events es : List ℕ)
    → t ≤ u
    → Matches w t events es
    → Matches w u (prune (cutoff_at w u) events ++ u ∷ []) (es ++ u ∷ [])
Matches-admitted w t u events es h m =
    let past = All-later t u es h m.past in
    record {
      sorted = IsSorted-snoc es u past m.sorted;
      past = All-snoc u es u past (ground arith);
      from = cutoff_at w u;
      early = ground arith;
      kept =
          ap (λ l. l ++ u ∷ []) (Matches-prune w t u events es h m)
          ∙ sym (since-snoc (cutoff_at w u) u es (ground arith));
    }

pub Matches-nothing : (w t : ℕ) → Matches w t [] []
Matches-nothing w t =
    unfold since in record { sorted = tt; past = tt; from = 0; early = ground arith; kept = refl }

pub events-insert :
    (key j : Text) (events : List ℕ) (l : Limiter)
    → events_of j (record l { windows = insert key events l.windows })
      ≡ (if key == j then events else events_of j l)
unfolding events_of
events-insert key j events l = ground (arith, lookup-insert key j events l.windows)

pub events-remove :
    (key j : Text) (l : Limiter)
    → events_of j (record l { windows = remove key l.windows })
      ≡ (if key == j then [] else events_of j l)
unfolding events_of
events-remove key j l = ground (arith, lookup-remove key j l.windows)

pub events-cleanup :
    (j : Text) (now : ℕ) (l : Limiter)
    → Unique l.windows
    → events_of j (cleanup now l) ≡ prune (cutoff_at l.window now) (events_of j l)
unfolding events_of cleanup prune
events-cleanup j now l v =
    ap or_empty
      (lookup-sweep (λ key events. non_empty (prune (cutoff_at l.window now) events)) j l.windows v)
    ∙ go (lookup j l.windows)
  where
    back : (es : List ℕ) → or_empty (non_empty es) ≡ es
    back [] = refl
    back (e ∷ es) = refl

    go :
        (o : Option (List ℕ))
        → or_empty (sweep_at (λ key events. non_empty (prune (cutoff_at l.window now) events)) j o)
          ≡ prune (cutoff_at l.window now) (or_empty o)
    go none = refl
    go (some es) = back (prune (cutoff_at l.window now) es)
