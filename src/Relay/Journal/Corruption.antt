-- ===== src/Relay/Journal/Corruption.antt =====
-- A journal file that the relay refuses to start from, and how it can come about.
use mathlib.Core.List.{append_assoc}
use steerloop.Common.{
  ℕ, ◌+◌, ◌*◌, ◌≤◌, ◌<◌, Text, List, [], ◌∷◌, ◌++◌, Option, none, Bool, true, false, ◌||◌, ltb, map,
  length, slice_last, slice_last_short, length-append, All-append, if_false, All, arith, ◌≡◌, ◌≢◌,
  refl, ap, ◌∙◌, sym,
}
use steerloop.Protocol.Schema.{EventEnvelope}
use steerloop.Relay.Journal.{
  Store, compacted, ok, err, corrupt, newline, is_blank, split_lines, ends_with_newline, read,
  broken, parse_lines, take_in, append, written, opened, initialize,
}
use steerloop.Relay.Journal.Lines.{
  IsCodec, render, split_lines_cons, split_lines-render, with_events, parse_lines-map,
  is_blank_object,
}
use steerloop.Relay.Journal.Recovery.{
  with_events_read, with_events_broken, length-map_append, parse_file, initialize_parsed,
}

split_lines_pos : (t : Text) → 0 < length (split_lines t)
unfolding split_lines
split_lines_pos [] = omega arith
split_lines_pos (c ∷ t) = ground arith

kept :
    (n : ℕ) (xs : List EventEnvelope)
    → length xs ≤ n
    → (false || ltb (length (slice_last n xs)) (length xs)) ≡ false
kept n xs h = ground (arith, ap length (slice_last_short n xs h))

module _ (encode : EventEnvelope → Text) (decode : Text → Option EventEnvelope)
    (IsGood : EventEnvelope → Type 0) (codec : IsCodec encode decode IsGood) where
  -- A whole line that cannot be read stops the start, and is named by its number, however the file
  -- goes on.
  pub initialize_corrupt :
      (limit : ℕ) (sync : Bool) (log : List EventEnvelope) (bad rest : Text)
      → All IsGood log
      → All (λ c. c ≢ newline) bad
      → is_blank bad ≡ false
      → decode bad ≡ none
      → initialize encode decode compacted limit sync
          (render encode log ++ (bad ++ (newline ∷ rest)))
        ≡ err (corrupt (length log + 1))
  unfolding parse_lines
  initialize_corrupt limit sync log bad rest g one_line blank unread =
      initialize_parsed encode decode IsGood codec limit sync contents (broken (length log + 1)) (
        ap (λ ls. parse_lines decode (length ls) (ends_with_newline contents) 0 ls) lines
        ∙ parse_lines-map encode decode IsGood codec _ _ 0 log (bad ∷ split_lines rest) g
        ∙ ap (with_events log) here
        ∙ with_events_broken log (length log + 1))
    where
      contents : Text
      contents = render encode log ++ (bad ++ (newline ∷ rest))

      lines : split_lines contents ≡ map encode log ++ (bad ∷ split_lines rest)
      lines =
          split_lines-render encode codec.one_line log (bad ++ (newline ∷ rest))
          ∙ ap (◌++◌ (map encode log)) (split_lines_cons bad rest one_line)

      total : ℕ
      total = length (map encode log ++ (bad ∷ split_lines rest))

      here :
          parse_lines decode total
            (ends_with_newline contents)
            (0 + length log)
            (bad ∷ split_lines rest)
          ≡ broken (length log + 1)
      here = ground (
        arith,
        blank,
        unread,
        length-map_append encode log (bad ∷ split_lines rest),
        split_lines_pos rest,
      )

  -- A last line that is whole but for its line end is read as an event, and the file stays as it is.
  initialize_unterminated :
      (limit : ℕ) (sync : Bool) (log : List EventEnvelope) (e : EventEnvelope)
      → length log + 1 ≤ limit
      → All IsGood log
      → IsGood e
      → initialize encode decode compacted limit sync (render encode log ++ encode e)
        ≡ ok (opened limit sync (log ++ e ∷ []) (render encode log ++ encode e))
  unfolding parse_lines
  initialize_unterminated limit sync log e room g good =
      let (s, o) = codec.object e in
      let blank = is_blank_object (encode e) s o in
      let here : parse_lines decode (length log + 1)
            (ends_with_newline (render encode log ++ encode e)) (length log) (encode e ∷ [])
          ≡ read (e ∷ []) false =
        rw (blank, codec.decode-encode e good) in
      initialize_parsed encode decode IsGood codec limit sync (render encode log ++ encode e)
        (read (log ++ e ∷ []) false)
        (parse_file encode decode IsGood codec _ log (encode e) g (codec.one_line e)
          ∙ ap (with_events log) here
          ∙ with_events_read log (e ∷ []) false)
      ∙ if_false _ _ _ (kept limit (log ++ e ∷ []) (omega (arith, length-append log (e ∷ []))))

  appended_file :
      (st : Store) (f : EventEnvelope)
      → st.journal.is_open ≡ true
      → st.journal.persisted_lines + 1 < st.journal.max_events * 2
      → (append encode written compacted st f).0.file ≡ st.file ++ (encode f ++ newline ∷ [])
  unfolding append take_in
  appended_file st f is_open h = ground arith

  -- In a file with no more records than the limit, which is at least two, a crash that loses only the
  -- line end of the last one goes unnoticed by the next start; the next event is appended to the same
  -- line, and the start after that refuses the file, although each of the two records was written whole.
  pub lost_line_end :
      (limit : ℕ) (sync : Bool) (log : List EventEnvelope) (e f : EventEnvelope)
      → 2 ≤ limit
      → length log + 1 ≤ limit
      → All IsGood log
      → IsGood e
      → (st : Store) × (initialize encode decode compacted limit sync
            (render encode log ++ encode e)
          ≡ ok st)
        × (initialize encode decode compacted limit sync
              (append encode written compacted st f).0.file
            ≡ err (corrupt (length log + 1)))
  lost_line_end limit sync log e f two room g good =
      let (s, o) = codec.object e in
      let both : Text = encode e ++ encode f in
      let size = length-append log (e ∷ []) in
      (
        opened limit sync (log ++ e ∷ []) (render encode log ++ encode e),
        initialize_unterminated limit sync log e room g good,
        ap (initialize encode decode compacted limit sync) (
              appended_file (opened limit sync (log ++ e ∷ []) (render encode log ++ encode e)) f
                refl (omega (arith, size))
              ∙ append_assoc (render encode log) (encode e) (encode f ++ newline ∷ [])
              ∙ ap (◌++◌ (render encode log))
                  (sym (append_assoc (encode e) (encode f) (newline ∷ []))))
            ∙ initialize_corrupt limit sync log both [] g
                (All-append (λ c. c ≢ newline) (encode e) (encode f) (codec.one_line e)
                  (codec.one_line f))
                (is_blank_object both (s ++ encode f) (ap (λ t. t ++ encode f) o))
                (codec.two_objects e f),
      )
