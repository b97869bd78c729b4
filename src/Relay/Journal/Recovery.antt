-- ===== src/Relay/Journal/Recovery.antt =====
-- What a start of the relay finds in the journal file.
use mathlib.Core.List.{append-nil}
use native.Mathlib.Nat.{zero-add}
use steerloop.Common.{
  ℕ, zero, suc, ◌+◌, ◌*◌, ◌≤◌, ◌<◌, Text, List, [], ◌∷◌, ◌++◌, Option, none, Bool, true, false,
  ◌||◌, ltb, map, length, take, slice_last, length-slice_last-le, if_true, if_false, All, All-take,
  Bool-cases, inl, inr, arith, ◌≡◌, ◌≢◌, refl, ap, ◌∙◌, sym,
}
use steerloop.Protocol.Schema.{EventEnvelope}
use steerloop.Relay.Journal.{
  Store, compacted, ok, newline, is_blank, split_lines, ends_with_newline, Replay, read, broken,
  parse_lines, compact, opened, initialize, start_with,
}
use steerloop.Relay.Journal.Lines.{
  IsCodec, render, split_lines_one, split_lines-render, ends_with_newline-append,
  ends_with_newline_not, with_events, parse_lines-map, is_blank_object,
}
use steerloop.Relay.Journal.History.{Tracks, rewritten}

pub with_events_read :
    (es fs : List EventEnvelope) (b : Bool) → with_events es (read fs b) ≡ read (es ++ fs) b
with_events_read [] fs b = refl
with_events_read (e ∷ es) fs b = rw (with_events_read es fs b)

pub with_events_broken : (es : List EventEnvelope) (n : ℕ) → with_events es (broken n) ≡ broken n
with_events_broken [] n = refl
with_events_broken (e ∷ es) n = rw (with_events_broken es n)

pub length-map_append :
    {A B : Type 0} (f : A → B) (xs : List A) (ys : List B)
    → length (map f xs ++ ys) ≡ length xs + length ys
length-map_append f [] ys = omega arith
length-map_append f (x ∷ xs) ys = omega (arith, length-map_append f xs ys)

-- The last line, where it cannot be read.
pub parse_last :
    (decode : Text → Option EventEnvelope) (i : ℕ) (ended : Bool) (t : Text)
    → is_blank t ≡ false
    → decode t ≡ none
    → ended ≡ false
    → parse_lines decode (i + 1) ended i (t ∷ []) ≡ read [] true
unfolding parse_lines
parse_last decode i ended t blank none_t cut = ground arith

abbrev is_cut : ℕ → Bool
is_cut zero = false
is_cut (suc k) = true

module _ (encode : EventEnvelope → Text) (decode : Text → Option EventEnvelope)
    (IsGood : EventEnvelope → Type 0) (codec : IsCodec encode decode IsGood) where
  -- The lines of a file with some whole lines and a rest.
  pub parse_file :
      (ended : Bool) (log : List EventEnvelope) (tail : Text)
      → All IsGood log
      → All (λ c. c ≢ newline) tail
      → let lines = split_lines (render encode log ++ tail) in
        parse_lines decode (length lines) ended 0 lines
        ≡ with_events log (parse_lines decode (length log + 1) ended (length log) (tail ∷ []))
  parse_file ended log tail g one_line =
      rw
        (
          split_lines-render encode codec.one_line log tail,
          split_lines_one tail one_line,
          length-map_append encode log (tail ∷ []),
        )
        (parse_lines-map encode decode IsGood codec (length log + 1) ended 0 log (tail ∷ []) g
          ∙ ap (λ k. with_events log (parse_lines decode (length log + 1) ended k (tail ∷ [])))
              (zero-add (length log)))

  pub initialize_parsed :
      (limit : ℕ) (sync : Bool) (contents : Text) (r : Replay)
      → (let lines = split_lines contents in
          parse_lines decode (length lines) (ends_with_newline contents) 0 lines ≡ r)
      → initialize encode decode compacted limit sync contents
        ≡ start_with encode decode compacted limit sync contents r
  unfolding initialize
  initialize_parsed limit sync contents r h =
      ap (start_with encode decode compacted limit sync contents) h

  -- The rest of the file that a crash in the middle of a line leaves.
  parse_tail :
      (log : List EventEnvelope) (e : EventEnvelope) (k : ℕ)
      → k < length (encode e)
      → All IsGood log
      → let contents = render encode log ++ take k (encode e) in
        let lines = split_lines contents in
        parse_lines decode (length lines) (ends_with_newline contents) 0 lines ≡ read log (is_cut k)
  unfolding is_blank parse_lines
  parse_tail log e zero h g =
      parse_file _ log [] g tt
      ∙ with_events_read log [] false
      ∙ ap (λ l. read l false) (append-nil log)
  parse_tail log e (suc k) h g =
      let tail : Text = take (suc k) (encode e) in
      let one_line = All-take (λ c. c ≢ newline) (suc k) (encode e) (codec.one_line e) in
      let object : tail ≡ b'{' ∷ take k (codec.object e).0 = ap (take (suc k)) (codec.object e).1 in
      let cut : ends_with_newline (render encode log ++ tail) ≡ false =
        ap (λ t. ends_with_newline (render encode log ++ t)) object
        ∙ ends_with_newline-append (render encode log) b'{' (take k (codec.object e).0)
        ∙ sym (ap ends_with_newline object)
        ∙ ends_with_newline_not tail one_line (λ q. cc (sym object ∙ q)) in
      parse_file _ log tail g one_line
      ∙ ap (with_events log) (
          parse_last decode (length log) _ tail (is_blank_object tail _ object)
            (codec.cut_short e (suc k) h) cut)
      ∙ with_events_read log [] true
      ∙ ap (λ l. read l true) (append-nil log)

  opened-Tracks :
      (limit : ℕ) (sync : Bool) (log : List EventEnvelope)
      → 1 ≤ limit
      → All IsGood log
      → Tracks encode decode IsGood (opened limit sync log (render encode log)) log
  opened-Tracks limit sync log positive g = record {
    is_open = refl;
    keeps = record {
      positive = positive;
      log = log;
      good = g;
      file = refl;
      events = refl;
      recent = refl;
    };
  }

  -- A start after a crash in the middle of an append, or after none (k = 0): the unfinished line is
  -- dropped, and the journal tracks the events whose lines were whole. It counts fewer lines than
  -- twice its limit.
  pub initialize_recovers :
      (limit : ℕ) (sync : Bool) (log : List EventEnvelope) (e : EventEnvelope) (k : ℕ)
      → 1 ≤ limit
      → k < length (encode e)
      → All IsGood log
      → (st : Store) × (initialize encode decode compacted limit sync
            (render encode log ++ take k (encode e))
          ≡ ok st)
        × Tracks encode decode IsGood st log
        × (st.journal.max_events ≡ limit)
        × (st.journal.persisted_lines < limit * 2)
  unfolding compact
  initialize_recovers limit sync log e k positive h g =
      elim (Bool-cases (is_cut k || ltb (length (slice_last limit log)) (length log))) [
        | inl again ↦ (
          (compact encode compacted (opened limit sync log contents)).0,
          found ∙ if_true _ _ _ again,
          record {
            is_open = refl;
            keeps =
                rewritten encode decode IsGood codec (opened limit sync log (render encode log)) log
                  _ refl refl tracks.keeps;
          },
          refl,
          omega (arith, length-slice_last-le limit log),
        )
        | inr whole ↦ (
          opened limit sync log contents,
          found ∙ if_false _ _ _ whole,
          rw (whole_file k (ground arith)) tracks,
          refl,
          ground (arith, length-slice_last-le limit log),
        )
      ]
    where
      contents : Text
      contents = render encode log ++ take k (encode e)

      found :
          initialize encode decode compacted limit sync contents
          ≡ start_with encode decode compacted limit sync contents (read log (is_cut k))
      found = initialize_parsed limit sync contents (read log (is_cut k)) (parse_tail log e k h g)

      tracks : Tracks encode decode IsGood (opened limit sync log (render encode log)) log
      tracks = opened-Tracks limit sync log positive g

      whole_file :
          (n : ℕ) → is_cut n ≡ false → render encode log ++ take n (encode e) ≡ render encode log
      whole_file zero c = append-nil (render encode log)
      whole_file (suc n) c = cc
