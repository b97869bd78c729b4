-- ===== src/Relay/Journal.antt =====
-- apps/relay/src/event-journal.ts: the bounded journal of events, in memory and on disk. The file
-- is its text. `encode` is `JSON.stringify` on an event, and `decode` is `JSON.parse` followed by
-- the event schema, `none` where either throws. Faults of the file system are arguments.
pub mod Lines
pub mod Recovery
pub mod History
pub mod Corruption
pub mod Example
mod Tests
use Prim.Native.Nat.{max}
use steerloop.Common.{
  ℕ, ◌+◌, ◌*◌, Text, List, [], ◌∷◌, ◌++◌, Option, none, some, Bool, true, false, ◌&&◌, ◌||◌, not,
  ltb, leb, ◌==◌, if◌then◌else◌, length, take, slice_last,
}
use steerloop.Protocol.Schema.{EventEnvelope}

pub record Journal : Type 0 where
  pub max_events : ℕ
  pub sync_writes : Bool
  pub is_open : Bool
  pub events : List EventEnvelope
  pub persisted_lines : ℕ

-- The journal and the contents of its file.
pub record Store : Type 0 where
  pub journal : Journal
  pub file : Text

-- What becomes of the write of one line: it is done, only its first k units reach the file, or all
-- of it does and the sync fails.
pub data WriteOutcome : Type 0 where
  written : WriteOutcome
  torn : (k : ℕ) → WriteOutcome
  unsynced : WriteOutcome

-- What becomes of a compaction: it is done, or it fails before or after the file is replaced. After a
-- failure the journal is open if its handle was not closed yet, or the file could be opened again.
pub data CompactOutcome : Type 0 where
  compacted : CompactOutcome
  before_rename after_rename : (reopened : Bool) → CompactOutcome

pub data JournalError : Type 0 where
  journal_closed write_failed compact_failed : JournalError
  corrupt : (line : ℕ) → JournalError

pub data Result {ℓ} (A : Type ℓ) : Type ℓ where
  ok : A → Result A
  err : JournalError → Result A

abbrev pub newline : ℕ
newline = 10

-- The white space of `String.prototype.trim`.
unfoldable pub is_space : ℕ → Bool
is_space c =
    (leb 9 c && leb c 13)
    || (c == 32)
    || (c == 160)
    || (c == 0x1680)
    || (leb 0x2000 c && leb c 0x200a)
    || (c == 0x2028)
    || (c == 0x2029)
    || (c == 0x202f)
    || (c == 0x205f)
    || (c == 0x3000)
    || (c == 0xfeff)

-- `line.trim().length === 0`
unfoldable pub is_blank : Text → Bool
is_blank [] = true
is_blank (c ∷ s) = is_space c && is_blank s

abbrev pub cons_head : ℕ → List Text → List Text
cons_head c [] = (c ∷ []) ∷ []
cons_head c (l ∷ ls) = (c ∷ l) ∷ ls

-- `contents.split("\n")`
unfoldable pub split_lines : Text → List Text
split_lines [] = [] ∷ []
split_lines (c ∷ s) =
    let rest = split_lines s in if c == newline then [] ∷ rest else cons_head c rest

-- `contents.length === 0 || contents.endsWith("\n")`
unfoldable pub ends_with_newline : Text → Bool
ends_with_newline [] = true
ends_with_newline (c ∷ []) = c == newline
ends_with_newline (c ∷ d ∷ s) = ends_with_newline (d ∷ s)

-- What the lines hold, and whether the last one was cut off.
pub data Replay : Type 0 where
  read : List EventEnvelope → (truncated : Bool) → Replay
  broken : (line : ℕ) → Replay

abbrev pub with_event : EventEnvelope → Replay → Replay
with_event e (read es t) = read (e ∷ es) t
with_event e (broken n) = broken n

unfoldable pub close : Store → Store
close st = record st { journal = record (st.journal) { is_open = false } }

-- `contents.length === 0 ? "" : contents + "\n"`
abbrev pub terminated : Text → Text
terminated [] = []
terminated (c ∷ s) = (c ∷ s) ++ newline ∷ []

module _ (decode : Text → Option EventEnvelope) where
  -- The loop over the lines that are not blank; the line at `index` is one of `total`.
  unfoldable pub parse_lines : (total : ℕ) (ended : Bool) (index : ℕ) → List Text → Replay
  parse_lines total ended index [] = read [] false
  parse_lines total ended index (l ∷ ls) =
      let rest = parse_lines total ended (index + 1) ls in
      if is_blank l then rest else elim (decode l) [
        | none ↦ if (index + 1 == total) && not ended then read [] true else broken (index + 1)
        | some e ↦ with_event e rest
      ]

abbrev pub with_line : Store → Text → Store
with_line st t = record st { file = st.file ++ t }

abbrev pub compact_result : Store × Bool → Store × Result (List EventEnvelope)
compact_result (st, true) = (st, ok st.journal.events)
compact_result (st, false) = (st, err compact_failed)

module _ (encode : EventEnvelope → Text) where
  -- `events.map(JSON.stringify).join("\n")`
  unfoldable pub join_lines : List EventEnvelope → Text
  join_lines [] = []
  join_lines (e ∷ []) = encode e
  join_lines (e ∷ f ∷ es) = encode e ++ (newline ∷ join_lines (f ∷ es))

  unfoldable pub compacted_file : List EventEnvelope → Text
  compacted_file es = terminated (join_lines es)

  unfoldable pub compact : CompactOutcome → Store → Store × Bool
  compact compacted st = (
    record st {
      journal = record (st.journal) { is_open = true; persisted_lines = length st.journal.events };
      file = compacted_file st.journal.events;
    },
    true,
  )
  compact (before_rename reopened) st =
      (record st { journal = record (st.journal) { is_open = reopened } }, false)
  compact (after_rename reopened) st = (
    record st {
      journal = record (st.journal) { is_open = reopened };
      file = compacted_file st.journal.events;
    },
    false,
  )

  -- The line is on disk: the event is taken in, and a file that has grown too long is compacted.
  unfoldable pub take_in :
      CompactOutcome → Store → EventEnvelope → Store × Result (List EventEnvelope)
  take_in outcome st e =
      let j = st.journal in
      let j' = record j {
        persisted_lines = j.persisted_lines + 1;
        events = slice_last j.max_events (j.events ++ e ∷ []);
      } in
      let st' = record st { journal = j' } in
      if leb (max (j.max_events * 2) 2) j'.persisted_lines
      then compact_result (compact outcome st')
      else (st', ok j'.events)

  unfoldable pub append :
      WriteOutcome → CompactOutcome → Store → EventEnvelope → Store × Result (List EventEnvelope)
  append write outcome st e =
      let line = encode e ++ newline ∷ [] in
      if st.journal.is_open
      then elim write [
        | written ↦ take_in outcome (with_line st line) e
        | torn k ↦ (with_line st (take k line), err write_failed)
        | unsynced ↦
            if st.journal.sync_writes
            then (with_line st line, err write_failed)
            else take_in outcome (with_line st line) e
      ]
      else (st, err journal_closed)

abbrev pub opened : ℕ → Bool → List EventEnvelope → Text → Store
opened limit sync parsed file = record {
  journal = record {
    max_events = limit;
    sync_writes = sync;
    is_open = true;
    events = slice_last limit parsed;
    persisted_lines = length parsed;
  };
  file = file;
}

abbrev pub initialized : Store × Bool → Result Store
initialized (st, true) = ok st
initialized (st, false) = err compact_failed

module _ (encode : EventEnvelope → Text) (decode : Text → Option EventEnvelope) where
  -- The rest of `initialize`, once the lines are read.
  abbrev pub start_with : CompactOutcome → ℕ → Bool → Text → Replay → Result Store
  start_with outcome limit sync contents (broken n) = err (corrupt n)
  start_with outcome limit sync contents (read parsed truncated) =
      let st = opened limit sync parsed contents in
      if truncated || ltb (length st.journal.events) (length parsed)
      then initialized (compact encode outcome st)
      else ok st

  -- `initialize`, on the text of the file, which is empty where there is no file.
  unfoldable pub initialize : CompactOutcome → ℕ → Bool → Text → Result Store
  initialize outcome limit sync contents =
      let lines = split_lines contents in
      start_with outcome limit sync contents
        (parse_lines decode (length lines) (ends_with_newline contents) 0 lines)
