-- ===== src/Relay/Journal/History.antt =====
-- The journal against the whole history of events that it was given.
use Prim.Native.Nat.{max}
use steerloop.Common.{
  ℕ, ◌+◌, ◌*◌, ◌≤◌, ◌<◌, Text, List, [], ◌∷◌, ◌++◌, Option, Bool, Bool-cases, inl, inr, true, false,
  not, ◌||◌, leb, if◌then◌else◌, if_either, if_true, slice_last, slice_last_again, slice_last_short,
  length-slice_last-le, All, All-append, All-drop, arith, ◌≡◌, refl, ap, ◌∙◌, sym,
}
use steerloop.Protocol.Schema.{EventEnvelope}
use steerloop.Relay.Journal.{
  Journal, Store, written, CompactOutcome, compacted, before_rename, after_rename, Result, ok, err,
  compact_failed, newline, with_line, compacted_file, compact, compact_result, take_in, append,
}
use steerloop.Relay.Journal.Lines.{IsCodec, render, render-append, compacted_file-render}

-- The next append compacts the file.
abbrev pub is_due : Store → Bool
is_due st = leb (max (st.journal.max_events * 2) 2) (st.journal.persisted_lines + 1)

abbrev pub reopens : CompactOutcome → Bool
reopens compacted = true
reopens (before_rename reopened) = reopened
reopens (after_rename reopened) = reopened

abbrev pub succeeds : CompactOutcome → Bool
succeeds compacted = true
succeeds _ = false

module _ (encode : EventEnvelope → Text) (decode : Text → Option EventEnvelope)
    (IsGood : EventEnvelope → Type 0) where
  -- A journal, be it open or not, stands for a history: its file holds a line for each event of a log,
  -- the last `max_events` of the log are those of the history, and they are the events in memory.
  pub record Keeps (st : Store) (history : List EventEnvelope) : Type 0 where
    pub positive : 1 ≤ st.journal.max_events
    pub log : List EventEnvelope
    pub good : All IsGood log
    pub file : st.file ≡ render encode log
    pub events : st.journal.events ≡ slice_last st.journal.max_events log
    pub recent : slice_last st.journal.max_events log ≡ slice_last st.journal.max_events history

  -- An open journal that stands for a history.
  pub record Tracks (st : Store) (history : List EventEnvelope) : Type 0 where
    pub is_open : st.journal.is_open ≡ true
    pub keeps : Keeps st history

  module _ (codec : IsCodec encode decode IsGood) where
    slice_last-IsGood :
        (n : ℕ) (xs : List EventEnvelope) → All IsGood xs → All IsGood (slice_last n xs)
    unfolding slice_last
    slice_last-IsGood n xs h = All-drop IsGood _ xs h

    -- A journal whose file holds just the events in memory stands for what it did before.
    pub rewritten :
        (st : Store) (history : List EventEnvelope) (j : Journal)
        → j.max_events ≡ st.journal.max_events
        → j.events ≡ st.journal.events
        → Keeps st history
        → Keeps (record { journal = j; file = compacted_file encode st.journal.events }) history
    rewritten st history j same_max same_events t =
        let n = st.journal.max_events in
        let kept : slice_last n st.journal.events ≡ st.journal.events =
          slice_last_short n st.journal.events (rw t.events (length-slice_last-le n t.log)) in
        record {
          positive = rw same_max t.positive;
          log = st.journal.events;
          good = rw t.events (slice_last-IsGood n t.log t.good);
          file = compacted_file-render encode codec.object st.journal.events;
          events = rw (same_max, same_events) (sym kept);
          recent = rw same_max (kept ∙ t.events ∙ t.recent);
        }

    compact_result-Keeps :
        (outcome : CompactOutcome) (st : Store) (history : List EventEnvelope)
        → Keeps st history
        → Keeps (compact_result (compact encode outcome st)).0 history
    unfolding compact
    compact_result-Keeps (before_rename reopened) st history t = record {
      positive = t.positive;
      log = t.log;
      good = t.good;
      file = t.file;
      events = t.events;
      recent = t.recent;
    }
    compact_result-Keeps compacted st history t = rewritten st history _ refl refl t
    compact_result-Keeps (after_rename reopened) st history t = rewritten st history _ refl refl t

    take_in-Keeps :
        (outcome : CompactOutcome) (st : Store) (history : List EventEnvelope) (e : EventEnvelope)
        → IsGood e
        → Keeps st history
        → Keeps
            (take_in encode outcome (with_line st (encode e ++ newline ∷ [])) e).0
            (history ++ e ∷ [])
    unfolding take_in
    take_in-Keeps outcome st history e g t =
        if_either {A = Store × Result (List EventEnvelope)} (λ r. Keeps r.0 (history ++ e ∷ [])) _
          (compact_result-Keeps outcome _ (history ++ e ∷ []) taken) taken
      where
        n : ℕ
        n = st.journal.max_events

        again :
            (xs : List EventEnvelope)
            → slice_last n (slice_last n xs ++ e ∷ []) ≡ slice_last n (xs ++ e ∷ [])
        again xs = slice_last_again n xs e t.positive

        taken :
            Keeps
              (record {
                journal = record (st.journal) {
                  persisted_lines = st.journal.persisted_lines + 1;
                  events = slice_last n (st.journal.events ++ e ∷ []);
                };
                file = st.file ++ (encode e ++ newline ∷ []);
              })
              (history ++ e ∷ [])
        taken = record {
          positive = t.positive;
          log = t.log ++ e ∷ [];
          good = All-append IsGood t.log (e ∷ []) t.good (g, tt);
          file = rw t.file (sym (render-append encode t.log (e ∷ [])));
          events = rw t.events (again t.log);
          recent =
              sym (again t.log) ∙ ap (λ xs. slice_last n (xs ++ e ∷ [])) t.recent ∙ again history;
        }

    take_in_lem :
        (outcome : CompactOutcome) (st : Store) (e : EventEnvelope)
        → st.journal.is_open ≡ true
        → let t = take_in encode outcome st e in
          let events = slice_last st.journal.max_events (st.journal.events ++ e ∷ []) in
          (t.0.journal.is_open ≡ (not (is_due st) || reopens outcome))
          × (t.1 ≡ (if not (is_due st) || succeeds outcome then ok events else err compact_failed))
    unfolding take_in compact
    take_in_lem outcome st e h = elim (Bool-cases (is_due st)) [
      | inr early ↦ rw early (h, refl)
      | inl due ↦ rw due (failing outcome)
    ]
      where
        st' : Store
        st' = record st {
          journal = record (st.journal) {
            persisted_lines = st.journal.persisted_lines + 1;
            events = slice_last st.journal.max_events (st.journal.events ++ e ∷ []);
          };
        }

        failing :
            (o : CompactOutcome)
            → let t = compact_result (compact encode o st') in
              (t.0.journal.is_open ≡ reopens o)
              × (t.1 ≡ (if succeeds o then ok st'.journal.events else err compact_failed))
        failing compacted = (refl, refl)
        failing (before_rename b) = (refl, refl)
        failing (after_rename b) = (refl, refl)

    append_open :
        (outcome : CompactOutcome) (st : Store) (e : EventEnvelope)
        → st.journal.is_open ≡ true
        → append encode written outcome st e
          ≡ take_in encode outcome (with_line st (encode e ++ newline ∷ [])) e
    unfolding append
    append_open outcome st e h = if_true st.journal.is_open _ _ h

    -- An append to an open journal that stands for a history, whose line reaches the disk, leaves a
    -- journal that stands for the history with the event at its end, whatever becomes of a compaction.
    -- The answer is the last `max_events` of that history, or an error where a compaction was due and
    -- failed; the journal is then open only if its handle was not closed or the file was opened again.
    pub append-Tracks :
        (outcome : CompactOutcome) (st : Store) (history : List EventEnvelope) (e : EventEnvelope)
        → IsGood e
        → Tracks st history
        → let t = append encode written outcome st e in
          let recent = slice_last st.journal.max_events (history ++ e ∷ []) in
          Keeps t.0 (history ++ e ∷ [])
          × (t.0.journal.is_open ≡ (not (is_due st) || reopens outcome))
          × (t.1 ≡ (if not (is_due st) || succeeds outcome then ok recent else err compact_failed))
    append-Tracks outcome st history e g t =
        let st' = with_line st (encode e ++ newline ∷ []) in
        let k = t.keeps in
        let n = st.journal.max_events in
        let again = λ (xs : List EventEnvelope). slice_last_again n xs e k.positive in
        let recent : slice_last n (st.journal.events ++ e ∷ []) ≡ slice_last n (history ++ e ∷ []) =
          ap (λ xs. slice_last n (xs ++ e ∷ [])) (k.events ∙ k.recent) ∙ again history in
        let answer = take_in_lem outcome st' e t.is_open in
        let ends = not (is_due st) || succeeds outcome in
        rw (append_open outcome st e t.is_open) (
          take_in-Keeps outcome st history e g k,
          answer.0,
          answer.1 ∙ ap (λ es. if ends then ok es else err compact_failed) recent,
        )

  -- However many lines an open journal counts, an append whose write and compaction succeed leaves it
  -- with fewer than twice its limit.
  pub append_bounded :
      (st : Store) (e : EventEnvelope)
      → 1 ≤ st.journal.max_events
      → st.journal.is_open ≡ true
      → (append encode written compacted st e).0.journal.persisted_lines < st.journal.max_events * 2
  unfolding append take_in compact
  append_bounded st e positive opened =
      ground (arith, length-slice_last-le st.journal.max_events (st.journal.events ++ e ∷ []))
