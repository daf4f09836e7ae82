-- ===== src/Gateway/Dedup/KeySpace.antt =====
-- The keys of messages of different users.
use open_nipper.Prelude.{
  ℕ, ◌+◌, ◌≡◌, refl, sym, ap, ◌∙◌, ◌≢◌, Bool, false, ◌||◌, Option, none, some, arith, Text,
  is_empty, list_eq, nat_eq, list_beq_iff, Bool-cases, inl, inr, ltb,
}
use open_nipper.Prelude.GoMap.{lookup, remove, lookup-insert, lookup-remove}
use open_nipper.Strings.Search.{IsColonFree, colon_split}
use open_nipper.Gateway.Dedup.{
  Deduplicator, Strategy, by_message_id, by_prompt, no_strategy, strategy_text, is_none, build_key,
  is_duplicate, check_entry,
}
use open_nipper.Gateway.Dedup.Window.{is_duplicate_tracked, is_duplicate_untracked}

strategy-IsColonFree : (s : Strategy) → IsColonFree (strategy_text s)
strategy-IsColonFree by_message_id = ground arith
strategy-IsColonFree by_prompt = ground arith
strategy-IsColonFree no_strategy = ground arith

strategy_text_injective : (s t : Strategy) → strategy_text s ≡ strategy_text t → s ≡ t
strategy_text_injective s t h = ground arith

-- The keys of two messages are equal only if their users, strategies and raw keys are, where the
-- users have no colon.
pub build_key_injective :
    (u v : Text) (s t : Strategy) (k l : Text)
    → IsColonFree u
    → IsColonFree v
    → build_key u s k ≡ build_key v t l
    → (u ≡ v) × (s ≡ t) × (k ≡ l)
unfolding build_key
build_key_injective u v s t k l hu hv e =
    let outer = colon_split u v _ _ hu hv e in
    let inner =
      colon_split (strategy_text s) (strategy_text t) k l (strategy-IsColonFree s)
        (strategy-IsColonFree t) outer.1 in
    (outer.0, strategy_text_injective s t inner.0, inner.1)

check_entry_other :
    (d : Deduplicator) (key other : Text) (t t' : ℕ) (o : Option ℕ)
    → key ≢ other
    → lookup other (check_entry d key t t' o).0.entries ≡ lookup other d.entries
unfolding check_entry
check_entry_other d key other t t' none h =
    ground
      (arith, list_beq_iff key other, lookup-insert key other (t' + d.default_window) d.entries)
check_entry_other d key other t t' (some x) h = ground (
  arith,
  list_beq_iff key other,
  lookup-insert key other (t' + d.default_window) (remove key d.entries),
  lookup-remove key other d.entries,
)

lookup-is_duplicate_other :
    (d : Deduplicator) (t t' : ℕ) (u : Text) (s : Strategy) (k other : Text)
    → build_key u s k ≢ other
    → lookup other (is_duplicate d t t' u s k).0.entries ≡ lookup other d.entries
lookup-is_duplicate_other d t t' u s k other h = elim (Bool-cases (is_none s || is_empty k)) [
  | inl e ↦ rw (is_duplicate_untracked d t t' u s k e)
  | inr e ↦
      rw (is_duplicate_tracked d t t' u s k e)
        (check_entry_other d (build_key u s k) other t t' _ h)
]

unfoldable pub answer : Option ℕ → ℕ → Bool
answer none now = false
answer (some x) now = ltb now x

pub check_entry-answer :
    (d : Deduplicator) (key : Text) (t t' : ℕ) (o : Option ℕ)
    → (check_entry d key t t' o).1 ≡ answer o t
unfolding check_entry answer
check_entry-answer d key t t' none = refl
check_entry-answer d key t t' (some x) = ground arith

-- Whether a message is a duplicate does not depend on a message of another user that was checked
-- before it, where neither user has a colon.
pub users_independent :
    (d : Deduplicator) (t t' now later : ℕ) (u v : Text) (s r : Strategy) (k l : Text)
    → u ≢ v
    → IsColonFree u
    → IsColonFree v
    → (is_duplicate (is_duplicate d t t' u s k).0 now later v r l).1
      ≡ (is_duplicate d now later v r l).1
users_independent d t t' now later u v s r k l apart hu hv =
    let d' = (is_duplicate d t t' u s k).0 in
    elim (Bool-cases (is_none r || is_empty l)) [
      | inl e ↦
          rw (
            is_duplicate_untracked d now later v r l e,
            is_duplicate_untracked d' now later v r l e,
          )
      | inr e ↦
          rw (is_duplicate_tracked d now later v r l e, is_duplicate_tracked d' now later v r l e)
            (check_entry-answer d' (build_key v r l) now later _
              ∙ ap (λ o. answer o now)
                  (lookup-is_duplicate_other d t t' u s k (build_key v r l)
                    (λ same. apart (build_key_injective u v s r k l hu hv same).0))
              ∙ sym (check_entry-answer d (build_key v r l) now later _))
    ]
