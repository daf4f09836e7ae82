-- ===== src/Agent/ToolDedup/Limit.antt =====
-- How often a tool runs on the same arguments.
use open_nipper.Prelude.{
  ℕ, ◌+◌, ◌-◌, ◌≡◌, ap, ◌∙◌, Option, some, List, [], ◌∷◌, Text, ltb, leb, if◌then◌else◌, list_eq,
  nat_eq, pair_eq, ◌==◌, arith, Bool-cases, inl, inr,
}
use mathlib.Core.Path.{subst}
use open_nipper.Prelude.Equality.{pair_beq_iff}
use open_nipper.Prelude.GoMap.{lookup-insert}
use open_nipper.Agent.ToolDedup.{
  DedupKey, ToolCallTracker, or_zero, calls_of, limit_of, check, name_or_empty, Outcome, refused,
  ran, invoke,
}

-- A call of a tool: what its Info says, its behaviour, and its arguments.
pub record Call (E : Type 0) : Type 0 where
  pub info : Option Text
  pub inner : Text → E
  pub args : Text

abbrev pub key_of : {E : Type 0} → (Text → Text) → Call E → DedupKey
key_of sha c = (name_or_empty c.info, sha c.args)

abbrev pub ran_once : {E : Type 0} → Outcome E → ℕ
ran_once (refused r) = 0
ran_once (ran e) = 1

abbrev pub if_same : DedupKey → DedupKey → ℕ → ℕ
if_same key j n = if key == j then n else 0

-- How often the inner tools ran for a key, through calls that share a tracker.
unfoldable pub runs : {E : Type 0} → (Text → Text) → DedupKey → List (Call E) → ToolCallTracker → ℕ
runs sha j [] t = 0
runs sha j (c ∷ cs) t =
    let (t', outcome) = invoke sha c.info c.inner c.args t in
    if_same (key_of sha c) j (ran_once outcome) + runs sha j cs t'

unfoldable pub occurrences : {E : Type 0} → (Text → Text) → DedupKey → List (Call E) → ℕ
occurrences sha j [] = 0
occurrences sha j (c ∷ cs) = if_same (key_of sha c) j 1 + occurrences sha j cs

abbrev pub min : ℕ → ℕ → ℕ
min m n = if leb m n then m else n

calls-check :
    (key j : DedupKey) (t : ToolCallTracker)
    → calls_of j (check key t).0 ≡ if_same key j 1 + calls_of j t
unfolding check calls_of
calls-check key j t = elim (Bool-cases (key == j)) [
  | inl same ↦ rw (lookup-insert key j (calls_of key t + 1) t) (
      rw same (
        subst (λ k. or_zero (some (calls_of key t + 1)) ≡ 1 + calls_of k t)
          ((pair_beq_iff key j).0 same) (ground arith)))
  | inr other ↦ rw (lookup-insert key j (calls_of key t + 1) t) (rw other (ground arith))
]

invoke_tracker :
    {E : Type 0} (sha : Text → Text) (c : Call E) (t : ToolCallTracker)
    → (invoke sha c.info c.inner c.args t).0 ≡ (check (key_of sha c) t).0
unfolding invoke
invoke_tracker sha c t = ground arith

invoke_ran :
    {E : Type 0} (sha : Text → Text) (c : Call E) (t : ToolCallTracker)
    → ran_once (invoke sha c.info c.inner c.args t).1
      ≡ (if ltb (calls_of (key_of sha c) t) (limit_of (key_of sha c).0) then 1 else 0)
unfolding invoke check
invoke_ran sha c t = ground arith

-- With a tracker that has counted some calls already, the inner tools run for a tool name and a
-- hash of the arguments as often as they are called with them, but no more often than what is left
-- of the limit of the name.
pub runs_limited :
    {E : Type 0} (sha : Text → Text) (j : DedupKey) (cs : List (Call E)) (t : ToolCallTracker)
    → runs sha j cs t ≡ min (occurrences sha j cs) (limit_of j.0 - calls_of j t)
unfolding runs occurrences
runs_limited sha j [] t = ground arith
runs_limited sha j (c ∷ cs) t =
    let key = key_of sha c in
    let t' = (invoke sha c.info c.inner c.args t).0 in
    let counted : calls_of j t' ≡ if_same key j 1 + calls_of j t =
      ap (calls_of j) (invoke_tracker sha c t) ∙ calls-check key j t in
    let rest = runs_limited sha j cs t' in
    elim (Bool-cases (key == j)) [
      | inl same ↦
          let own =
            subst
              (λ k.
                ran_once (invoke sha c.info c.inner c.args t).1
                ≡ (if ltb (calls_of k t) (limit_of k.0) then 1 else 0))
              ((pair_beq_iff key j).0 same) (invoke_ran sha c t) in
          ground (arith, same, own, counted, rest)
      | inr other ↦ ground (arith, other, counted, rest)
    ]
