-- ===== src/Relay/Journal/Lines.antt =====
-- The text of a journal and the lines that are read back from it.
use mathlib.Core.List.{append_assoc}
use native.Mathlib.Nat.{add-zero}
use steerloop.Common.{
  ℕ, ◌+◌, ◌<◌, Text, List, [], ◌∷◌, ◌++◌, Option, none, some, Bool, true, false, length, take, All,
  map, arith, ◌≡◌, ◌≢◌, refl, ap, ◌∙◌, sym,
}
use steerloop.Protocol.Schema.{EventEnvelope}
use steerloop.Relay.Journal.{
  newline, is_space, is_blank, split_lines, terminated, ends_with_newline, Replay, with_event,
  parse_lines, join_lines, compacted_file,
}

-- What the journal relies on of `JSON.stringify`, `JSON.parse` and the event schema: an event that
-- the schema accepts is read back from its text, which is one line and an object; an object that is
-- cut short, or that is followed by another, is no JSON text.
pub record IsCodec (encode : EventEnvelope → Text) (decode : Text → Option EventEnvelope)
    (IsGood : EventEnvelope → Type 0) : Type 0 where
  pub decode-encode : (e : EventEnvelope) → IsGood e → decode (encode e) ≡ some e
  pub one_line : (e : EventEnvelope) → All (λ c. c ≢ newline) (encode e)
  pub object : (e : EventEnvelope) → (s : Text) × (encode e ≡ b'{' ∷ s)
  pub cut_short :
      (e : EventEnvelope) (k : ℕ) → k < length (encode e) → decode (take k (encode e)) ≡ none
  pub two_objects : (e f : EventEnvelope) → decode (encode e ++ encode f) ≡ none

pub split_lines_one : (l : Text) → All (λ c. c ≢ newline) l → split_lines l ≡ l ∷ []
unfolding split_lines
split_lines_one [] h = refl
split_lines_one (c ∷ l) h = ground (arith, h.0, split_lines_one l h.1)

pub split_lines_cons :
    (l s : Text) → All (λ c. c ≢ newline) l → split_lines (l ++ (newline ∷ s)) ≡ l ∷ split_lines s
unfolding split_lines
split_lines_cons [] s h = refl
split_lines_cons (c ∷ l) s h = ground (arith, h.0, split_lines_cons l s h.1)

pub ends_with_newline_not :
    (l : Text) → All (λ c. c ≢ newline) l → l ≢ [] → ends_with_newline l ≡ false
unfolding ends_with_newline
ends_with_newline_not [] h n = absurd (n refl)
ends_with_newline_not (c ∷ []) h n = ground (arith, h.0)
ends_with_newline_not (c ∷ d ∷ l) h n = ends_with_newline_not (d ∷ l) h.1 (λ e. cc)

pub ends_with_newline-append :
    (t : Text) (c : ℕ) (s : Text) → ends_with_newline (t ++ (c ∷ s)) ≡ ends_with_newline (c ∷ s)
unfolding ends_with_newline
ends_with_newline-append [] c s = refl
ends_with_newline-append (x ∷ []) c s = refl
ends_with_newline-append (x ∷ y ∷ t) c s = ends_with_newline-append (y ∷ t) c s

ends_with_newline_more :
    (s : Text) → ends_with_newline s ≡ true → ends_with_newline (newline ∷ s) ≡ true
unfolding ends_with_newline
ends_with_newline_more [] h = refl
ends_with_newline_more (d ∷ s) h = h

pub is_blank_object : (t s : Text) → t ≡ b'{' ∷ s → is_blank t ≡ false
unfolding is_blank is_space
is_blank_object t s o = rw o

terminated_object : (t s : Text) → t ≡ b'{' ∷ s → terminated t ≡ t ++ newline ∷ []
terminated_object t s o = rw o

abbrev pub with_events : List EventEnvelope → Replay → Replay
with_events [] r = r
with_events (e ∷ es) r = with_event e (with_events es r)

module _ (encode : EventEnvelope → Text) where
  -- A journal file: a line for each event.
  abbrev pub render : List EventEnvelope → Text
  render [] = []
  render (e ∷ es) = encode e ++ (newline ∷ render es)

  pub render-append : (es fs : List EventEnvelope) → render (es ++ fs) ≡ render es ++ render fs
  render-append [] fs = refl
  render-append (e ∷ es) fs =
      ap (λ t. encode e ++ (newline ∷ t)) (render-append es fs)
      ∙ sym (append_assoc (encode e) (newline ∷ render es) (render fs))

  -- The lines of a file that begins with some events.
  pub split_lines-render :
      (one_line : (e : EventEnvelope) → All (λ c. c ≢ newline) (encode e)) (es : List EventEnvelope)
      (tail : Text)
      → split_lines (render es ++ tail) ≡ map encode es ++ split_lines tail
  split_lines-render one_line [] tail = refl
  split_lines-render one_line (e ∷ es) tail =
      rw
        (
          append_assoc (encode e) (newline ∷ render es) tail,
          split_lines_cons (encode e) (render es ++ tail) (one_line e),
        )
        (ap (λ ls. encode e ∷ ls) (split_lines-render one_line es tail))

  pub join_lines-render :
      (e : EventEnvelope) (es : List EventEnvelope)
      → join_lines encode (e ∷ es) ++ newline ∷ [] ≡ render (e ∷ es)
  unfolding join_lines
  join_lines-render e [] = refl
  join_lines-render e (f ∷ es) =
      append_assoc (encode e) (newline ∷ join_lines encode (f ∷ es)) (newline ∷ [])
      ∙ ap (λ t. encode e ++ (newline ∷ t)) (join_lines-render f es)

  join_lines-object :
      (object : (e : EventEnvelope) → (s : Text) × (encode e ≡ b'{' ∷ s)) (e : EventEnvelope)
      (es : List EventEnvelope)
      → (s : Text) × (join_lines encode (e ∷ es) ≡ b'{' ∷ s)
  unfolding join_lines
  join_lines-object object e [] = object e
  join_lines-object object e (f ∷ es) =
      let (s, o) = object e in
      (
        s ++ (newline ∷ join_lines encode (f ∷ es)),
        ap (λ t. t ++ (newline ∷ join_lines encode (f ∷ es))) o,
      )

  pub compacted_file-render :
      (object : (e : EventEnvelope) → (s : Text) × (encode e ≡ b'{' ∷ s)) (es : List EventEnvelope)
      → compacted_file encode es ≡ render es
  unfolding compacted_file join_lines
  compacted_file-render object [] = refl
  compacted_file-render object (e ∷ es) =
      let (s, o) = join_lines-object object e es in
      terminated_object (join_lines encode (e ∷ es)) s o ∙ join_lines-render e es

  pub ends_with_newline-render : (es : List EventEnvelope) → ends_with_newline (render es) ≡ true
  unfolding ends_with_newline
  ends_with_newline-render [] = refl
  ends_with_newline-render (e ∷ es) =
      ends_with_newline-append (encode e) newline (render es)
      ∙ ends_with_newline_more (render es) (ends_with_newline-render es)

module _ (encode : EventEnvelope → Text) (decode : Text → Option EventEnvelope)
    (IsGood : EventEnvelope → Type 0) (codec : IsCodec encode decode IsGood) where
  -- Whole lines are read back in order, whatever follows them.
  pub parse_lines-map :
      (total : ℕ) (ended : Bool) (i : ℕ) (es : List EventEnvelope) (rest : List Text)
      → All IsGood es
      → parse_lines decode total ended i (map encode es ++ rest)
        ≡ with_events es (parse_lines decode total ended (i + length es) rest)
  unfolding parse_lines
  parse_lines-map total ended i [] rest g = rw (add-zero i)
  parse_lines-map total ended i (e ∷ es) rest g =
      let ih = parse_lines-map total ended (i + 1) es rest g.1 in
      let (s, o) = codec.object e in
      rw (is_blank_object (encode e) s o, codec.decode-encode e g.0)
        (ap (with_event e)
          (ih ∙ ap (λ k. with_events es (parse_lines decode total ended k rest)) (omega arith)))
