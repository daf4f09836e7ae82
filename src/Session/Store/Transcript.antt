-- ===== src/Session/Store/Transcript.antt =====
-- Appending to a transcript and loading it.
use open_nipper.Prelude.{
  ◌≡◌, refl, sym, ap, ◌∙◌, true, false, some, List, [], ◌∷◌, ◌++◌, Text, Result, ok, err,
  Bool-cases, inl, inr, list_eq, nat_eq, if_true, if_false,
}
use open_nipper.Prelude.GoMap.{lookup, insert, lookup-insert_self}
use open_nipper.Session.Key.{parsed, parse_session_key}
use open_nipper.Session.Types.{TranscriptLine}
use open_nipper.Session.Store.Disk.{
  Line, blank, malformed, entry, UserStore, Store, StoreError, line_too_long, Env, open_transcript,
  write_transcript,
}
use open_nipper.Session.Store.{
  or_empty, user_store, cannot_lock, prepend, scan, scan_file, read_transcript, load_transcript,
  append_line, append_transcript,
}

prepend-append :
    (t : TranscriptLine) (r : Result StoreError (List TranscriptLine)) (ts : List TranscriptLine)
    → prepend t r ≡ ok ts
    → (us : List TranscriptLine) × (r ≡ ok us) × (ts ≡ t ∷ us)
prepend-append t (ok us) ts h = (us, refl, cc h)
prepend-append t (err e) ts h = absurd (cc h)

-- The scan of one file behind another.
scan-append :
    (env : Env) (xs ys : List Line) (ts us : List TranscriptLine)
    → scan env xs ≡ ok ts
    → scan env ys ≡ ok us
    → scan env (xs ++ ys) ≡ ok (ts ++ us)
unfolding scan
scan-append env [] ys ts us hx hy = hy ∙ cc hx
scan-append env (blank ∷ xs) ys ts us hx hy = scan-append env xs ys ts us hx hy
scan-append env (malformed ∷ xs) ys ts us hx hy = scan-append env xs ys ts us hx hy
scan-append env (entry t ∷ xs) ys ts us hx hy = elim (Bool-cases (env.is_too_long t)) [
  | inl long ↦ absurd (cc (sym (if_true _ _ long) ∙ hx))
  | inr short ↦
      let (rest, found, is) = prepend-append t (scan env xs) ts (sym (if_false _ _ short) ∙ hx) in
      if_false _ _ short ∙ ap (prepend t) (scan-append env xs ys rest us found hy) ∙ cc is
]

scan-long :
    (env : Env) (xs ys : List Line) (t : TranscriptLine)
    → env.is_too_long t ≡ true
    → scan env (xs ++ (entry t ∷ ys)) ≡ err line_too_long
unfolding scan
scan-long env [] ys t long = if_true _ _ long
scan-long env (blank ∷ xs) ys t long = scan-long env xs ys t long
scan-long env (malformed ∷ xs) ys t long = scan-long env xs ys t long
scan-long env (entry x ∷ xs) ys t long = elim (Bool-cases (env.is_too_long x)) [
  | inl here ↦ if_true _ _ here
  | inr short ↦ if_false _ _ short ∙ ap (prepend x) (scan-long env xs ys t long)
]

appended_file :
    (env : Env) (line : TranscriptLine) (id : Text) (us : UserStore)
    → (append_line env line id us).1 ≡ ok tt
    → lookup id (append_line env line id us).0.transcripts
      ≡ some (or_empty (lookup id us.transcripts) ++ (entry line ∷ []))
unfolding append_line
appended_file env line id us = elim (Bool-cases (cannot_lock env us)) [
  | inl l ↦ rw l (λ h. absurd (cc h))
  | inr l ↦ elim (Bool-cases (env.fails open_transcript)) [
    | inl o ↦ rw (l, o) (λ h. absurd (cc h))
    | inr o ↦ elim (Bool-cases (env.fails write_transcript)) [
      | inl w ↦ rw (l, o, w) (λ h. absurd (cc h))
      | inr w ↦ rw (l, o, w) (λ h. lookup-insert_self id _ us.transcripts)
    ]
  ]
]

load_file :
    (reader : Env) (key user ct id : Text) (us : UserStore) (st : Store) (lines : List Line)
    → parse_session_key key ≡ parsed user ct id
    → reader.fails open_transcript ≡ false
    → lookup id us.transcripts ≡ some lines
    → (load_transcript reader key (insert user us st)).1 ≡ scan reader lines
unfolding load_transcript read_transcript user_store
load_file reader key user ct id us st lines named opens there =
    rw named (rw (lookup-insert_self user us st) (rw opens (ap (scan_file reader) there)))

append_result :
    (env : Env) (key user ct id : Text) (line : TranscriptLine) (st : Store)
    → parse_session_key key ≡ parsed user ct id
    → append_transcript env key line st ≡ (
      insert user (append_line env line id (user_store user st)).0 st,
      (append_line env line id (user_store user st)).1,
    )
unfolding append_transcript
append_result env key user ct id line st named = rw named refl

load_appended :
    (env reader : Env) (key user ct id : Text) (line : TranscriptLine) (st : Store)
    → parse_session_key key ≡ parsed user ct id
    → reader.fails open_transcript ≡ false
    → (append_transcript env key line st).1 ≡ ok tt
    → (load_transcript reader key (append_transcript env key line st).0).1
      ≡ scan reader (or_empty (lookup id (user_store user st).transcripts) ++ (entry line ∷ []))
load_appended env reader key user ct id line st named opens done =
    let us = user_store user st in
    let result = append_result env key user ct id line st named in
    let file = appended_file env line id us (sym (ap (λ p. p.1) result) ∙ done) in
    ap (λ p. (load_transcript reader key p.0).1) result
    ∙ load_file reader key user ct id (append_line env line id us).0 st _ named opens file

-- What was loaded before an append that succeeded, followed by the new message, is what is loaded
-- after it, where the file can be opened and the message is not too long for the scanner.
pub append_then_load :
    (env reader : Env) (key user ct id : Text) (line : TranscriptLine) (st : Store)
    (ts : List TranscriptLine)
    → parse_session_key key ≡ parsed user ct id
    → reader.fails open_transcript ≡ false
    → reader.is_too_long line ≡ false
    → scan reader (or_empty (lookup id (user_store user st).transcripts)) ≡ ok ts
    → (append_transcript env key line st).1 ≡ ok tt
    → (load_transcript reader key (append_transcript env key line st).0).1 ≡ ok (ts ++ (line ∷ []))
unfolding scan
append_then_load env reader key user ct id line st ts named opens short before done =
    let us = user_store user st in
    load_appended env reader key user ct id line st named opens done
    ∙ scan-append reader (or_empty (lookup id us.transcripts)) (entry line ∷ []) ts (line ∷ [])
        before (scan_one reader line short)
  where
    scan_one :
        (reader : Env) (line : TranscriptLine)
        → reader.is_too_long line ≡ false
        → scan reader (entry line ∷ []) ≡ ok (line ∷ [])
    scan_one reader line short = if_false _ _ short

-- An append of a message that is too long for the scanner can succeed, and the transcript cannot be
-- loaded after it.
pub long_line_blocks :
    (env reader : Env) (key user ct id : Text) (line : TranscriptLine) (st : Store)
    → parse_session_key key ≡ parsed user ct id
    → reader.fails open_transcript ≡ false
    → reader.is_too_long line ≡ true
    → (append_transcript env key line st).1 ≡ ok tt
    → (load_transcript reader key (append_transcript env key line st).0).1 ≡ err line_too_long
long_line_blocks env reader key user ct id line st named opens long done =
    let us = user_store user st in
    load_appended env reader key user ct id line st named opens done
    ∙ scan-long reader (or_empty (lookup id us.transcripts)) [] line long
