-- ===== src/Relay/Journal/Tests.antt =====
-- The journal on a concrete codec and concrete files, and each theorem at such an input.
use steerloop.Common.{
  ◌*◌, ◌<◌, text, text_dec, [], ◌∷◌, ◌++◌, none, true, false, not, ◌||◌, if◌then◌else◌, take,
  slice_last, All, arith, ◌≡◌, ◌≢◌, refl,
}
use steerloop.Relay.Journal.{
  Store, compacted, before_rename, written, torn, ok, err, corrupt, write_failed, journal_closed,
  compact_failed, newline, is_space, is_blank, split_lines, ends_with_newline, parse_lines,
  join_lines, compacted_file, compact, take_in, append, close, initialize,
}
use steerloop.Relay.Journal.Lines.{render}
use steerloop.Relay.Journal.History.{
  Keeps, Tracks, is_due, reopens, succeeds, append-Tracks, append_bounded,
}
use steerloop.Relay.Journal.Recovery.{initialize_recovers}
use steerloop.Relay.Journal.Example.{
  beat, write_beat, read_beat, IsBeat, IsBeat-IsCodec, fresh, full, full-Tracks,
}
use steerloop.Relay.Journal.Corruption.{initialize_corrupt, lost_line_end}

journal : Unit {0}
unfolding text_dec slice_last is_space is_blank split_lines ends_with_newline parse_lines join_lines
    compacted_file compact take_in append close initialize
journal = tt

abbrev appended : Store → Store
appended st = (append write_beat written compacted st beat).0

-- Four appends at a limit of two leave two lines.
journal_tests :
    ((appended (appended (appended (appended fresh)))).file ≡ render write_beat (beat ∷ beat ∷ []))
    × ((append write_beat (torn 1) compacted fresh beat).1 ≡ err write_failed)
    × ((append write_beat written compacted (close fresh) beat).1 ≡ err journal_closed)
    × (initialize write_beat read_beat compacted 2 true (text "{") ≡ ok fresh)
unfolding journal
journal_tests = (refl, refl, refl, refl)

-- The compaction that is due fails before the file is replaced, and the file cannot be opened again.
append-Tracks_example :
    let t = append write_beat written (before_rename false) full beat in
    let recent = slice_last 2 ((beat ∷ beat ∷ beat ∷ []) ++ beat ∷ []) in
    Keeps write_beat read_beat IsBeat t.0 ((beat ∷ beat ∷ beat ∷ []) ++ beat ∷ [])
    × (t.0.journal.is_open ≡ (not (is_due full) || reopens (before_rename false)))
    × (t.1 ≡ (
        if not (is_due full) || succeeds (before_rename false)
        then ok recent
        else err compact_failed))
append-Tracks_example =
    append-Tracks write_beat read_beat IsBeat IsBeat-IsCodec (before_rename false) full
      (beat ∷ beat ∷ beat ∷ []) beat refl full-Tracks

append_bounded_example :
    (append write_beat written compacted fresh beat).0.journal.persisted_lines < 2 * 2
append_bounded_example = append_bounded write_beat read_beat IsBeat fresh beat (omega arith) refl

initialize_recovers_example :
    (st : Store) × (initialize write_beat read_beat compacted 2 true
        (render write_beat (beat ∷ []) ++ take 1 (write_beat beat))
      ≡ ok st)
    × Tracks write_beat read_beat IsBeat st (beat ∷ [])
    × (st.journal.max_events ≡ 2)
    × (st.journal.persisted_lines < 2 * 2)
initialize_recovers_example =
    initialize_recovers write_beat read_beat IsBeat IsBeat-IsCodec 2 true (beat ∷ []) beat 1
      (omega arith) (omega arith) (refl, tt)

plain_line : All (λ c. c ≢ newline) (text "junk")
plain_line = omega arith

junk_facts : (is_blank (text "junk") ≡ false) × (read_beat (text "junk") ≡ none)
unfolding journal
junk_facts = (refl, refl)

initialize_corrupt_example :
    initialize write_beat read_beat compacted 2 true
      (render write_beat (beat ∷ []) ++ (text "junk" ++ (newline ∷ text "{}")))
    ≡ err (corrupt 2)
initialize_corrupt_example =
    initialize_corrupt write_beat read_beat IsBeat IsBeat-IsCodec 2 true (beat ∷ []) (text "junk")
      (text "{}") (refl, tt) plain_line junk_facts.0 junk_facts.1

lost_line_end_example :
    (st : Store) × (initialize write_beat read_beat compacted 2 true
        (render write_beat (beat ∷ []) ++ write_beat beat)
      ≡ ok st)
    × (initialize write_beat read_beat compacted 2 true
          (append write_beat written compacted st beat).0.file
        ≡ err (corrupt 2))
lost_line_end_example =
    lost_line_end write_beat read_beat IsBeat IsBeat-IsCodec 2 true (beat ∷ []) beat beat
      (omega arith) (omega arith) (refl, tt) refl
