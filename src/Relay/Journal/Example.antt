-- ===== src/Relay/Journal/Example.antt =====
-- A codec for one event, and open journals: inputs of the tests.
use steerloop.Common.{
  ℕ, zero, suc, ◌<◌, Text, text, text_dec, same, [], ◌∷◌, Option, none, some, true, if◌then◌else◌,
  take, slice_last, arith, ◌≡◌, refl,
}
use steerloop.Protocol.Schema.{EventEnvelope, host_heartbeat}
use steerloop.Relay.Journal.{Store}
use steerloop.Relay.Journal.Lines.{IsCodec, render}
use steerloop.Relay.Journal.History.{Tracks}

abbrev pub beat : EventEnvelope
beat = record {
  event_id = text "e1";
  sequence = 1;
  host_id = text "h";
  session_id = none;
  emitted_at = text "1";
  event = host_heartbeat (text "1");
}

-- One event, written as an empty object.
abbrev pub write_beat : EventEnvelope → Text
write_beat e = text "{}"

abbrev pub read_beat : Text → Option EventEnvelope
read_beat t = if same t (text "{}") then some beat else none

abbrev pub IsBeat : EventEnvelope → Type 0
IsBeat e = beat ≡ e

cut_beat : (k : ℕ) → k < 2 → read_beat (take k (text "{}")) ≡ none
unfolding text_dec
cut_beat zero h = refl
cut_beat (suc zero) h = refl
cut_beat (suc (suc k)) h = absurd (omega arith)

pub IsBeat-IsCodec : IsCodec write_beat read_beat IsBeat
unfolding text_dec
IsBeat-IsCodec = record {
  decode-encode = λ e good. cc;
  one_line = λ e. omega arith;
  object = λ e. (text "}", refl);
  cut_short = λ e k h. cut_beat k h;
  two_objects = λ e f. refl;
}

abbrev pub fresh : Store
fresh = record {
  journal = record {
    max_events = 2;
    sync_writes = true;
    is_open = true;
    events = [];
    persisted_lines = 0;
  };
  file = [];
}

pub fresh-Tracks : Tracks write_beat read_beat IsBeat fresh []
unfolding slice_last
fresh-Tracks = record {
  is_open = refl;
  keeps = record {
    positive = omega arith;
    log = [];
    good = tt;
    file = refl;
    events = refl;
    recent = refl;
  };
}

-- An open journal with three events in its file, of which it holds the last two.
abbrev pub full : Store
full = record {
  journal = record fresh.journal { events = beat ∷ beat ∷ []; persisted_lines = 3 };
  file = render write_beat (beat ∷ beat ∷ beat ∷ []);
}

pub full-Tracks : Tracks write_beat read_beat IsBeat full (beat ∷ beat ∷ beat ∷ [])
unfolding slice_last
full-Tracks = record {
  is_open = refl;
  keeps = record {
    positive = omega arith;
    log = beat ∷ beat ∷ beat ∷ [];
    good = (refl, (refl, (refl, tt)));
    file = refl;
    events = refl;
    recent = refl;
  };
}
