-- ===== src/Session/Compaction/Conservation.antt =====
-- Where the lines of a compacted transcript are.
use open_nipper.Prelude.{
  ℕ, ◌-◌, ◌≡◌, ◌⊎◌, refl, sym, ap, ◌∙◌, Option, none, some, List, [], ◌∷◌, ◌++◌, map, Text, Result,
  ok, err, Bool-cases, inl, inr, list_eq, nat_eq, length, leb, ltb,
}
use open_nipper.Prelude.Lists.{take, drop, take-append-drop}
use open_nipper.Prelude.GoMap.{lookup, insert, lookup-insert_self, lookup-insert_ne}
use open_nipper.Session.Key.{parsed, parse_session_key}
use open_nipper.Session.Types.{Session, SessionMetadata, TranscriptLine}
use open_nipper.Session.Store.Disk.{
  Line, entry, UserStore, Store, StoreError, Env, make_archive_dir, create_archive, write_archive,
  write_rest, move_transcript,
}
use open_nipper.Session.Store.{
  Did, or_empty, user_store, cannot_lock, read_transcript, update_for_user,
}
use open_nipper.Session.Store.Frame.{lines_of, lines-update_for_user}
use open_nipper.Session.Compaction.{
  compact_name, with_archive, create_compaction_archive, write_compaction_archive, rename_over,
  rewrite_transcript, after_update, count_compaction, counted, after_rewrite, after_archive,
  after_load, compact_for_user, compact,
}

map-append : (xs ys : List TranscriptLine) → map entry (xs ++ ys) ≡ map entry xs ++ map entry ys
map-append [] ys = refl
map-append (x ∷ xs) ys = ap (λ zs. entry x ∷ zs) (map-append xs ys)

module _ (env later : Env) (user id : Text) where
  lines-after_update :
      (lines : List TranscriptLine) (keep : ℕ) (metadata : SessionMetadata) (r : Did (Unit {0}))
      → lines_of (after_update lines keep metadata r).0 ≡ lines_of r.0
  unfolding after_update
  lines-after_update lines keep metadata (us, err e) = refl
  lines-after_update lines keep metadata (us, ok done) = refl

  lines-count_compaction :
      (lines : List TranscriptLine) (keep : ℕ) (us : UserStore) (r : Result StoreError Session)
      → lines_of (count_compaction later user id lines keep us r).0 ≡ lines_of us
  unfolding count_compaction
  lines-count_compaction lines keep us (err e) = refl
  lines-count_compaction lines keep us (ok sess) =
      let metadata = counted (length (drop (length lines - keep) lines)) sess.metadata in
      lines-after_update lines keep metadata (update_for_user later metadata user id us)
      ∙ lines-update_for_user later metadata user id us

  pub lines-after_rewrite :
      (lines : List TranscriptLine) (keep : ℕ) (r : UserStore × Option StoreError)
      → lines_of (after_rewrite later user id lines keep r).0 ≡ lines_of r.0
  unfolding after_rewrite
  lines-after_rewrite lines keep (us, some e) = refl
  lines-after_rewrite lines keep (us, none) = lines-count_compaction lines keep us _

  -- The transcript is what it was, or the lines that were kept; the archive stays.
  lines-rewrite_transcript :
      (kept : List TranscriptLine) (us : UserStore)
      → (lines_of (rewrite_transcript env (λ u. u) id kept us).0 ≡ lines_of us)
        ⊎ (lines_of (rewrite_transcript env (λ u. u) id kept us).0
            ≡ (insert id (map entry kept) us.transcripts, us.archives))
  unfolding rewrite_transcript rename_over
  lines-rewrite_transcript kept us = elim (Bool-cases (env.fails write_rest)) [
    | inl e ↦ inl (rw e refl)
    | inr e ↦ elim (Bool-cases (cannot_lock env us)) [
      | inl l ↦ inl (rw (e, l) refl)
      | inr l ↦ elim (Bool-cases (env.fails move_transcript)) [
        | inl m ↦ inl (rw (e, l, m) refl)
        | inr m ↦ inr (rw (e, l, m) refl)
      ]
    ]
  ]

  -- The archive files that were there are there with the same lines.
  abbrev pub KeepsArchive : UserStore → UserStore → Type 0
  KeepsArchive us us' =
      (name : Text) (old : List Line)
      → lookup name us.archives ≡ some old
      → lookup name us'.archives ≡ some old

  -- The transcript is as it was, or the new archive file and what is left of it are the lines.
  abbrev pub KeepsLines : List TranscriptLine → UserStore → UserStore → Type 0
  KeepsLines lines us us' =
      (lookup id us'.transcripts ≡ lookup id us.transcripts)
      ⊎ (or_empty (lookup (compact_name env id) us'.archives)
            ++ or_empty (lookup id us'.transcripts)
          ≡ map entry lines)

  with_archive-KeepsArchive :
      (ts : List TranscriptLine) (us : UserStore)
      → lookup (compact_name env id) us.archives ≡ none
      → KeepsArchive us (with_archive env id ts us)
  unfolding with_archive
  with_archive-KeepsArchive ts us free name old h =
      lookup-insert_ne (compact_name env id) name (map entry ts) us.archives
        (λ same. absurd (cc (free, h, ap (λ n. lookup n us.archives) same)))
      ∙ h

  split_entries :
      (n : ℕ) (lines : List TranscriptLine)
      → map entry (take n lines) ++ map entry (drop n lines) ≡ map entry lines
  split_entries n lines =
      sym (map-append (take n lines) (drop n lines)) ∙ ap (map entry) (take-append-drop n lines)

  -- After the archive was written.
  archived-KeepsLines :
      (lines : List TranscriptLine) (keep : ℕ) (us : UserStore)
      → KeepsLines lines us
          (after_archive env later
            (λ u. u)
            user
            id
            lines
            keep
            (with_archive env id (take (length lines - keep) lines) us, none)).0
  unfolding after_archive with_archive
  archived-KeepsLines lines keep us =
      let n = length lines - keep in
      let us1 = with_archive env id (take n lines) us in
      let end =
        lines-after_rewrite lines keep (rewrite_transcript env (λ u. u) id (drop n lines) us1) in
      elim (lines-rewrite_transcript (drop n lines) us1) [
        | inl same ↦ inl (ap (λ f. lookup id f.0) (end ∙ same))
        | inr new ↦
            let made = end ∙ new in
            inr (
              ap (λ f. or_empty (lookup (compact_name env id) f.1) ++ or_empty (lookup id f.0)) made
              ∙ ap
                  (λ o.
                    or_empty o
                    ++ or_empty (lookup id (insert id (map entry (drop n lines)) us.transcripts)))
                  (lookup-insert_self (compact_name env id) (map entry (take n lines)) us.archives)
              ∙ ap (λ o. map entry (take n lines) ++ or_empty o)
                  (lookup-insert_self id (map entry (drop n lines)) us.transcripts)
              ∙ split_entries n lines)
      ]

  archived-archives :
      (lines : List TranscriptLine) (keep : ℕ) (us : UserStore)
      → (after_archive env later (λ u. u) user id lines keep (us, none)).0.archives ≡ us.archives
  unfolding after_archive
  archived-archives lines keep us =
      let kept = drop (length lines - keep) lines in
      let end = lines-after_rewrite lines keep (rewrite_transcript env (λ u. u) id kept us) in
      elim (lines-rewrite_transcript kept us) [
        | inl same ↦ ap (λ f. f.1) (end ∙ same)
        | inr new ↦ ap (λ f. f.1) (end ∙ new)
      ]

  created_keeps :
      (lines : List TranscriptLine) (keep : ℕ) (us : UserStore) (o : Option (List Line))
      → lookup (compact_name env id) us.archives ≡ o
      → KeepsLines lines us
          (after_archive env later
            (λ u. u)
            user
            id
            lines
            keep
            (create_compaction_archive env id (take (length lines - keep) lines) us o)).0
        × KeepsArchive us
            (after_archive env later
              (λ u. u)
              user
              id
              lines
              keep
              (create_compaction_archive env id (take (length lines - keep) lines) us o)).0
  unfolding create_compaction_archive after_archive
  created_keeps lines keep us (some old) there = (inl refl, λ name ls h. h)
  created_keeps lines keep us none free = elim (Bool-cases (env.fails create_archive)) [
    | inl c ↦ rw c (inl refl, λ name ls h. h)
    | inr c ↦ elim (Bool-cases (env.fails write_archive)) [
      | inl w ↦ rw (c, w) (inl refl, with_archive-KeepsArchive _ us free)
      | inr w ↦
          rw (c, w)
            (
              archived-KeepsLines lines keep us,
              λ name ls h.
                  ap (lookup name) (
                    archived-archives lines keep
                      (with_archive env id (take (length lines - keep) lines) us))
                  ∙ with_archive-KeepsArchive (take (length lines - keep) lines) us free name ls h,
            )
    ]
  ]

  compacted_keeps :
      (lines : List TranscriptLine) (keep : ℕ) (us : UserStore)
      → read_transcript env id us ≡ ok lines
      → KeepsLines lines us (compact_for_user env later (λ u. u) keep user id us).0
        × KeepsArchive us (compact_for_user env later (λ u. u) keep user id us).0
  unfolding compact_for_user after_load write_compaction_archive after_archive
  compacted_keeps lines keep us read = rw read (elim (Bool-cases (leb (length lines) keep)) [
    | inl few ↦ rw few (inl refl, λ name ls h. h)
    | inr many ↦ elim (Bool-cases (env.fails make_archive_dir)) [
      | inl m ↦ rw (many, m) (inl refl, λ name ls h. h)
      | inr m ↦
          rw (many, m) (created_keeps lines keep us (lookup (compact_name env id) us.archives) refl)
    ]
  ])

-- Whatever fails in a compaction of a transcript that could be read: the transcript is as it was, or
-- the new archive file followed by the transcript holds all its messages in their order; and every
-- archive file that was there is there unchanged. The files of the user are not changed by others
-- meanwhile.
pub compact_loses_nothing :
    (env later : Env) (key user ct id : Text) (keep : ℕ) (st : Store) (lines : List TranscriptLine)
    → parse_session_key key ≡ parsed user ct id
    → read_transcript env id (user_store user st) ≡ ok lines
    → KeepsLines env later user id lines
        (user_store user st)
        (user_store user (compact env later (λ u. u) key keep st).0)
      × KeepsArchive env later user id
          (user_store user st)
          (user_store user (compact env later (λ u. u) key keep st).0)
unfolding compact user_store
compact_loses_nothing env later key user ct id keep st lines named read =
    elim (Bool-cases (ltb keep 1)) [
      | inl small ↦ rw small (inl refl, λ name ls h. h)
      | inr large ↦
          rw (large, named)
            (rw
              (lookup-insert_self user
                (compact_for_user env later (λ u. u) keep user id (user_store user st)).0 st)
              (compacted_keeps env later user id lines keep (user_store user st) read))
    ]
