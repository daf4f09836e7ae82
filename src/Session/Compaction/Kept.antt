-- ===== src/Session/Compaction/Kept.antt =====
-- What a compaction that succeeds leaves in the transcript.
use open_nipper.Prelude.{
  ℕ, ◌-◌, ◌≡◌, refl, ap, ◌∙◌, true, Option, none, some, List, map, Text, Result, ok, err, arith,
  Bool-cases, inl, inr, list_eq, nat_eq, length, leb,
}
use open_nipper.Prelude.Lists.{drop, length-drop}
use open_nipper.Prelude.GoMap.{lookup, lookup-insert_self}
use open_nipper.Session.Types.{Session, TranscriptLine}
use open_nipper.Session.Store.Disk.{entry, UserStore, StoreError, Env, write_rest, move_transcript}
use open_nipper.Session.Store.{Did, cannot_lock, read_transcript, update_for_user}
use open_nipper.Session.Compaction.{
  SessionMetadata, CompactionResult, counted, rename_over, rewrite_transcript, after_update,
  count_compaction, after_rewrite, after_archive, after_load, compact_for_user, result_of,
  not_needed,
}
use open_nipper.Session.Compaction.Conservation.{lines-after_rewrite}

module _ (env later : Env) (meanwhile : UserStore → UserStore) (user id : Text) where
  abbrev kept_of : List TranscriptLine → ℕ → List TranscriptLine
  kept_of lines keep = drop (length lines - keep) lines

  abbrev pub IsCounted : List TranscriptLine → ℕ → CompactionResult → Type 0
  IsCounted lines keep c =
      (c.original_line_count ≡ length lines)
      × (c.archived_line_count ≡ length lines - keep)
      × (c.remaining_line_count ≡ length (kept_of lines keep))

  after_update-IsCounted :
      (lines : List TranscriptLine) (keep : ℕ) (metadata : SessionMetadata) (d : Did (Unit {0}))
      (c : CompactionResult)
      → (after_update lines keep metadata d).1 ≡ ok c
      → IsCounted lines keep c
  unfolding after_update result_of
  after_update-IsCounted lines keep metadata (us, err e) c h = absurd (cc h)
  after_update-IsCounted lines keep metadata (us, ok done) c h = (cc h, cc h, cc h)

  count_compaction-IsCounted :
      (lines : List TranscriptLine) (keep : ℕ) (us : UserStore) (r : Result StoreError Session)
      (c : CompactionResult)
      → (count_compaction later user id lines keep us r).1 ≡ ok c
      → IsCounted lines keep c
  unfolding count_compaction
  count_compaction-IsCounted lines keep us (err e) c h = absurd (cc h)
  count_compaction-IsCounted lines keep us (ok sess) c h =
      let metadata = counted (length (kept_of lines keep)) sess.metadata in
      after_update-IsCounted lines keep metadata (update_for_user later metadata user id us) c h

  -- The kept messages stand in the transcript.
  abbrev pub Stands : List TranscriptLine → ℕ → UserStore → Type 0
  Stands lines keep us = lookup id us.transcripts ≡ some (map entry (kept_of lines keep))

  rename_over-Stands :
      (lines : List TranscriptLine) (keep : ℕ) (us : UserStore)
      → (rename_over env id (kept_of lines keep) us).1 ≡ none
      → Stands lines keep (rename_over env id (kept_of lines keep) us).0
  unfolding rename_over
  rename_over-Stands lines keep us = elim (Bool-cases (cannot_lock env us)) [
    | inl l ↦ rw l (λ h. absurd (cc h))
    | inr l ↦ elim (Bool-cases (env.fails move_transcript)) [
      | inl m ↦ rw (l, m) (λ h. absurd (cc h))
      | inr m ↦
          rw (l, m) (λ h. lookup-insert_self id (map entry (kept_of lines keep)) us.transcripts)
    ]
  ]

  rewrite_transcript-Stands :
      (lines : List TranscriptLine) (keep : ℕ) (us : UserStore)
      → (rewrite_transcript env meanwhile id (kept_of lines keep) us).1 ≡ none
      → Stands lines keep (rewrite_transcript env meanwhile id (kept_of lines keep) us).0
  unfolding rewrite_transcript
  rewrite_transcript-Stands lines keep us = elim (Bool-cases (env.fails write_rest)) [
    | inl w ↦ rw w (λ h. absurd (cc h))
    | inr w ↦ rw w (rename_over-Stands lines keep (meanwhile us))
  ]

  abbrev pub IsCompacted :
      List TranscriptLine → ℕ → Did CompactionResult → CompactionResult → Type 0
  IsCompacted lines keep d c = Stands lines keep d.0 × IsCounted lines keep c

  after_rewrite-IsCompacted :
      (lines : List TranscriptLine) (keep : ℕ) (r : UserStore × Option StoreError)
      (c : CompactionResult)
      → (r.1 ≡ none → Stands lines keep r.0)
      → (after_rewrite later user id lines keep r).1 ≡ ok c
      → IsCompacted lines keep (after_rewrite later user id lines keep r) c
  unfolding after_rewrite
  after_rewrite-IsCompacted lines keep (us, some e) c stands h = absurd (cc h)
  after_rewrite-IsCompacted lines keep (us, none) c stands h = (
    ap (λ f. lookup id f.0) (lines-after_rewrite env later user id lines keep (us, none))
        ∙ stands refl,
    count_compaction-IsCounted lines keep us _ c h,
  )

  after_archive-IsCompacted :
      (lines : List TranscriptLine) (keep : ℕ) (r : UserStore × Option StoreError)
      (c : CompactionResult)
      → (after_archive env later meanwhile user id lines keep r).1 ≡ ok c
      → IsCompacted lines keep (after_archive env later meanwhile user id lines keep r) c
  unfolding after_archive
  after_archive-IsCompacted lines keep (us, some e) c h = absurd (cc h)
  after_archive-IsCompacted lines keep (us, none) c h =
      after_rewrite-IsCompacted lines keep _ c (rewrite_transcript-Stands lines keep us) h

  -- After a compaction that succeeded, and was needed, the transcript is the last messages of those
  -- that were read at its start, as many as were asked for, and the result counts them. This is so
  -- whatever another process did to the files meanwhile: what it appended is not in the transcript.
  pub compacted_transcript :
      (lines : List TranscriptLine) (keep : ℕ) (us : UserStore) (c : CompactionResult)
      → read_transcript env id us ≡ ok lines
      → (compact_for_user env later meanwhile keep user id us).1 ≡ ok c
      → c.compacted ≡ true
      → IsCompacted lines keep (compact_for_user env later meanwhile keep user id us) c
        × (c.remaining_line_count ≡ keep)
  unfolding compact_for_user after_load not_needed
  compacted_transcript lines keep us c read = rw read (elim (Bool-cases (leb (length lines) keep)) [
    | inl few ↦ rw few (λ h compacted. absurd (cc (h, compacted)))
    | inr many ↦ rw many (λ h compacted.
        let all = after_archive-IsCompacted lines keep _ c h in
        (all, all.1.2 ∙ length-drop (length lines - keep) lines ∙ ground (arith, many)))
  ])
