-- ===== src/Examples/Device.antt =====
-- Tests of the device's queue, player and session, and their theorems at concrete inputs.
use ha_codex_voice.Prelude.{refl, true, false, none, some, [], ◌∷◌, ltb, arith}
use ha_codex_voice.Prelude.Hoare.{Post}
use ha_codex_voice.Device.Session.Audio.{AudioPacket, AudioQueue}
use ha_codex_voice.Device.Session.Player.{Player, Paplay, running, blocked, service}
use ha_codex_voice.Device.Session.Playback.{IsOwned, KeepsAll, service_lem}
use ha_codex_voice.Device.Session.State.{Session, Config, connecting}

abbrev pub packet : AudioPacket
packet = record { samples = 0 ∷ 1 ∷ 2 ∷ 3 ∷ []; captured_at = 5 }

abbrev pub queue : AudioQueue
queue = record { maximum_bytes = 8; bytes = 4; items = packet ∷ [] }

-- A child that runs, takes nothing, and is seen to have exited at the third call.
abbrev pub leaving_child : Paplay
leaving_child = record {
  spawn = λ _. running;
  exited = λ call. ltb 1 call;
  write = λ _ _. blocked;
  waited = λ _. true;
}

abbrev pub playing : Player
playing = record {
  maximum_bytes = 64;
  process = true;
  stdin = true;
  pending = 1 ∷ 2 ∷ [];
  finish_when_drained = true;
  epoch = some 3;
  taken = [];
  started = 1;
  reaped = 0;
  calls = 0;
}

pub playing-IsOwned : IsOwned playing
playing-IsOwned = record {
  bounded = omega arith;
  one_child = refl;
  epoch_process = refl;
  stdin_process = λ _. refl;
}

service_lem_example :
    Post (λ _. KeepsAll playing) (λ _. KeepsAll playing) (service leaving_child playing)
service_lem_example = service_lem leaving_child playing playing-IsOwned

abbrev pub config : Config
config = record {
  full_duplex = false;
  max_message_bytes = 64;
  input_queue_bytes = 8;
  output_queue_bytes = 64;
  handshake_timeout = 10;
  io_timeout = 10;
  max_session = 1000;
  idle_timeout = 100;
  ping_interval = 20;
  pong_timeout = 10;
}

abbrev pub capturing : Session
capturing = record {
  config = config;
  audio = queue;
  state = connecting;
  is_ready = false;
  terminal = false;
  stop_requested = false;
  interrupt_requested = false;
  interrupt_preserve_session = true;
  output_active = false;
  local_output_epoch = none;
  barge_in_requested_epoch = none;
  barge_in_frames = 0;
  suppressed_output_epoch = none;
  ever_ready = false;
}
