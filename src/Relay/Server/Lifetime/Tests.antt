-- ===== src/Relay/Server/Lifetime/Tests.antt =====
-- A relay that is stopped and started again.
use steerloop.Common.{text, [], ◌∷◌, none, some, true, false, ◌≡◌, refl}
use steerloop.Common.Effects.{ok}
use steerloop.Relay.Journal
use steerloop.Relay.Journal.{Store, compacted}
use steerloop.Relay.Journal.History.{Tracks}
use steerloop.Relay.Journal.Example.{
  beat, write_beat, read_beat, IsBeat, IsBeat-IsCodec, fresh, fresh-Tracks,
}
use steerloop.Relay.Config.{RelayConfig}
use steerloop.Relay.Sockets.{Runtime, RelayServer, unauthenticated, close}
use steerloop.Relay.Server.Lifetime.{
  start, stop, close_sockets, finish_tasks, restart_keeps_history,
}

abbrev rt : Runtime
rt = record {
  utf8 = λ t. t;
  hash = λ t. t;
  nfc = λ t. t;
  to_upper = λ t. t;
  date_parse = λ t. none;
  iso = λ n. [];
  check = λ k m s. false;
  encode = write_beat;
}

abbrev config : RelayConfig
config = record {
  host = text "127.0.0.1";
  port = 8787;
  token = text "t";
  auth_timeout_ms = 5000;
  max_history = 2;
  max_payload_bytes = 1024;
  journal_path = some (text "j");
  journal_sync = true;
  device_registry_path = none;
}

abbrev empty : RelayServer
empty = record {
  token = text "t";
  max_history = 2;
  sockets = [];
  agents = [];
  clients = [];
  pairing_offers = [];
  history = [];
  journal = none;
  registry = none;
  queue = [];
  sent = [];
}

-- One socket is open, and the journal is.
abbrev running : RelayServer
running = record empty {
  sockets = (text "s", record { peer = unauthenticated; is_open = true }) ∷ [];
  journal = some fresh;
}

closed_journal :
    (finish_tasks rt read_beat [] (close_sockets rt read_beat running.sockets running)).journal
    ≡ some fresh
unfolding finish_tasks close_sockets close
closed_journal = refl

restart_keeps_history_example :
    let u =
      start rt read_beat config compacted
        (record { journal_text = (Journal.close fresh).file; raw_devices = none })
        (ok 8787)
        empty in
    ((stop rt read_beat [] running).0 ≡ some (Journal.close fresh))
    × (u.1 ≡ ok 8787)
    × (u.0.history ≡ [])
    × ((st' : Store) × (u.0.journal ≡ some st') × Tracks write_beat read_beat IsBeat st' [])
restart_keeps_history_example =
    restart_keeps_history rt read_beat IsBeat IsBeat-IsCodec config [] running empty fresh [] beat
      (text "j") 8787 closed_journal fresh-Tracks refl refl refl
