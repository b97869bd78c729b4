-- ===== src/Relay/Server/Lifetime.antt =====
-- apps/relay/src/server.ts: `start` and `stop`. The text of the journal's file, the devices in the file
-- of the registry, `none` where that file is refused, and the port that was bound are arguments.
mod Tests
use steerloop.Common.{
  ℕ, zero, ◌+◌, ◌≤◌, ◌<◌, Text, text, List, [], ◌∷◌, ◌++◌, Option, none, some, Bool, true, false,
  length, take, arith, if◌then◌else◌, or_else, ◌≡◌, refl, sym, ap, ◌∙◌, slice_last, subst, Assoc,
  All,
}
use mathlib.Core.List.{append-nil}
use steerloop.Common.Effects.{Effect, Outcome, ok, throws, ◌>>=◌, ◌>>◌, return, throw, modify, get}
use steerloop.Protocol.Schema.{EventEnvelope}
use steerloop.Relay.Journal
use steerloop.Relay.Journal.{
  Store, WriteOutcome, CompactOutcome, compacted, Result, initialize, newline,
}
use steerloop.Relay.Journal.Lines.{IsCodec, render}
use steerloop.Relay.Journal.History.{Tracks}
use steerloop.Relay.Journal.Recovery.{initialize_recovers}
use steerloop.Relay.Devices.{DeviceRegistry, RawDevice, open_registry}
use steerloop.Relay.Config.{RelayConfig}
use steerloop.Relay.Sockets.{Runtime, Connection, RelayServer, close}
use steerloop.Relay.Server.{next_task}

-- What the files hold when a relay starts.
pub record Files : Type 0 where
  pub journal_text : Text
  pub raw_devices : Option (List RawDevice)

module _ (rt : Runtime) (decode : Text → Option EventEnvelope) where
  abbrev pub take_store : Result Store → Effect RelayServer (Unit {0})
  take_store (Result.ok st) =
      modify (λ r. record r { journal = some st; history = st.journal.events })
  take_store (Result.err e) = throw (text "Journal")

  abbrev pub open_journal :
      RelayConfig → CompactOutcome → Text → Option Text → Effect RelayServer (Unit {0})
  open_journal c outcome contents none = return tt
  open_journal c outcome contents (some path) =
      take_store (initialize rt.encode decode outcome c.max_history c.journal_sync contents)

  abbrev take_registry : Option DeviceRegistry → Effect RelayServer (Unit {0})
  take_registry none = throw (text "Device registry is invalid")
  take_registry (some d) = modify (λ r. record r { registry = some d })

  abbrev read_registry : Option (List RawDevice) → Option DeviceRegistry
  read_registry none = none
  read_registry (some raw) = open_registry raw

  abbrev pub open_devices : Option (List RawDevice) → Option Text → Effect RelayServer (Unit {0})
  open_devices raw none = return tt
  open_devices raw (some path) = take_registry (read_registry raw)

  -- `bound` is the port that the server listens on, or why it does not.
  unfoldable pub start :
      RelayConfig → CompactOutcome → Files → (bound : Outcome ℕ) → Effect RelayServer ℕ
  start c outcome files bound = do
    open_journal c outcome files.journal_text c.journal_path
    open_devices files.raw_devices c.device_registry_path
    λ r. (r, bound)

  -- Every open socket is closed.
  unfoldable pub close_sockets : Assoc Connection → RelayServer → RelayServer
  close_sockets [] r = r
  close_sockets ((s, c) ∷ cs) r = close_sockets cs (if c.is_open then close s 1001 r else r)

  -- The frames that wait are done with, each at its time and with the outcome of its write.
  unfoldable pub finish_tasks : List (ℕ × WriteOutcome × CompactOutcome) → RelayServer → RelayServer
  finish_tasks [] r = r
  finish_tasks ((now, write, outcome) ∷ ts) r = finish_tasks ts (next_task rt now write outcome r)

  abbrev pub close_journal : Option Store → RelayServer → Option Store × RelayServer
  close_journal none r = (none, record r { journal = none; registry = none })
  close_journal (some st) r =
      (some (Journal.close st), record r { journal = none; registry = none })

  -- `stop`: the journal that is closed, and the relay without it.
  unfoldable pub stop :
      List (ℕ × WriteOutcome × CompactOutcome) → RelayServer → Option Store × RelayServer
  stop ts r = let r' = finish_tasks ts (close_sockets r.sockets r) in close_journal r'.journal r'

  module _ (IsGood : EventEnvelope → Type 0) (codec : IsCodec rt.encode decode IsGood) where
    -- The journal that a start finds in the file that a journal left.
    reopened :
        (limit : ℕ) (sync : Bool) (st : Store) (h : List EventEnvelope) (e : EventEnvelope)
        → limit ≡ st.journal.max_events
        → Tracks rt.encode decode IsGood st h
        → (st' : Store) × (initialize rt.encode decode compacted limit sync st.file ≡ Result.ok st')
          × (st'.journal.events ≡ st.journal.events)
          × Tracks rt.encode decode IsGood st' h
    reopened limit sync st h e same t =
        let k = t.keeps in
        let (rest, begins) = codec.object e in
        let some_text : 0 < length (rt.encode e) = rw begins (ground arith) in
        let (st', opened, tracks, kept, few) =
          initialize_recovers rt.encode decode IsGood codec limit sync k.log e 0
            (omega (arith, same, k.positive)) some_text k.good in
        let k' = tracks.keeps in
        let whole : render rt.encode k.log ++ take 0 (rt.encode e) ≡ st.file =
          append-nil (render rt.encode k.log) ∙ sym k.file in
        let sizes : st'.journal.max_events ≡ st.journal.max_events = kept ∙ same in
        (
          st',
          ap (initialize rt.encode decode compacted limit sync) (sym whole) ∙ opened,
          k'.events ∙ k'.recent ∙ ap (λ n. slice_last n k.log) sizes ∙ sym k.events,
          record {
            is_open = tracks.is_open;
            keeps = record {
              positive = k'.positive;
              log = k'.log;
              good = k'.good;
              file = k'.file;
              events = k'.events;
              recent =
                  k'.recent
                  ∙ ap (λ n. slice_last n k.log) sizes
                  ∙ k.recent
                  ∙ ap (λ n. slice_last n h) (sym sizes);
            };
          },
        )

    -- A relay with a journal that tracks a history is stopped, its waiting frames are done with, and a
    -- relay with the same bound is started on the file that is left, without a registry: it starts on
    -- its port, its history is the one of the journal that was closed, and its own journal tracks the
    -- same history.
    pub restart_keeps_history :
        (c : RelayConfig) (ts : List (ℕ × WriteOutcome × CompactOutcome)) (r fresh : RelayServer)
        (st : Store) (h : List EventEnvelope) (e : EventEnvelope) (path : Text) (port : ℕ)
        → (finish_tasks ts (close_sockets r.sockets r)).journal ≡ some st
        → Tracks rt.encode decode IsGood st h
        → c.journal_path ≡ some path
        → c.device_registry_path ≡ none
        → c.max_history ≡ st.journal.max_events
        → let u =
            start c compacted
              (record { journal_text = (Journal.close st).file; raw_devices = none })
              (ok port)
              fresh in
          ((stop ts r).0 ≡ some (Journal.close st))
          × (u.1 ≡ ok port)
          × (u.0.history ≡ st.journal.events)
          × ((st' : Store) × (u.0.journal ≡ some st') × Tracks rt.encode decode IsGood st' h)
    unfolding start stop Journal.close
    restart_keeps_history c ts r fresh st h e path port kept t named none_named limit =
        let (st', opened, events, tracks) = reopened c.max_history c.journal_sync st h e limit t in
        rw (kept, named, none_named, opened) (refl, refl, events, (st', refl, tracks))
