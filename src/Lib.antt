-- ===== src/Lib.antt =====
-- Codex Voice for Home Assistant: the realtime voice path between a ThirdReality device and the
-- bridge add-on, and the broker through which Home Assistant executes tools.
--
-- The program and its parts
--
-- The device runs device/thirdreality/realtime_client: websocket.py is its RFC 6455 client,
-- session.py the bounded session on it (capture queue, playback child, network thread), config.py
-- its settings. It talks to bridge/, whose realtime_wire.py holds the versioned wire contract and
-- whose service.py serves the socket; bridge/tool_broker.py hands the tool calls of the model to
-- Home Assistant, whose custom_components/codex_voice/realtime_tools.py executes them; app_server.py
-- drives the Codex child process by JSON-RPC, and audio.py and webrtc.py carry the sound to the
-- provider and back.
--
-- Which file models what
--
--   Prelude    numbers, tests, lists, integers; `Action` is a method that mutates an object and may
--              raise, `Hoare` its contracts.
--   Json       decoded JSON as Python sees it: dict.get, isinstance, ==.
--   Texts      the str methods that are used on ASCII texts.
--   Device/WebSocket    websocket.py. Frame: _frame_metadata, _read_frame, encode_client_frame and
--              _valid_close_code. Connection: the class, method by method. ServerFrames and
--              ClientFrames hold an independent encoder and decoder of the RFC. Xor, Utf8, Bounds,
--              Contracts and Canonical serve the proofs; Receive and Reassembly are about
--              receive_message.
--   Device/Config       the session preferences and realtime_start_message of config.py.
--   Device/Session      session.py. Audio: _BoundedAudioQueue, _AudioPacer and the signal tests.
--              Player: _PcmPlayer. State: the shared fields, submit_audio, interrupt and stop.
--              Protocol: the checks of what the bridge sends. Messages and Dispatch:
--              _handle_message and _flush_local_barge_in. Startup: _wait_for_started. Loop and Ends:
--              a pass of _run. Calls and Interleaved: what the other threads call between the stages
--              of a pass and of the finally clause, where a stage is one step. Queue, Playback,
--              Capture, Epochs, Acknowledged, Network, Silence, Threads and Ending prove.
--   Bridge/Wire         realtime_wire.py. Start: the negotiation and started_fields. Events:
--              parse_data_control_event. Negotiate, Controls, Roles and Handshake prove; Handshake also
--              holds the `started` object of service.py.
--   Bridge/ToolBroker   tool_broker.py. Registration and Language: _validated_registration and
--              _canonical_language. Broker: register, unregister, handle_message. World: call, and
--              the runs in which the stretches between two awaits interleave. Registered, Entries,
--              Invariant, Calls, Runs, Outcomes and Delivery prove.
--   Bridge/AppServer    app_server.py. Table: dicts keyed by JSON-RPC ids. Client: the state, calls,
--              responses and subscriptions. Responses: _respond, _handle_server_request and the
--              timeout. World: the runs in which the stretches between two awaits interleave. Layers:
--              assert_no_configured_mcp_servers. Answers, Locks and Once are about the answers to one
--              request; Queues, Limits and Bounds about the bounds; Late and Calls about one answer.
--   Pcm, Bridge/Audio   audio.py. Resampler: Pcm16MonoResampler. Positions, Ends, Drain, Chunks and
--              Streams prove.
--   Bridge/WebRtc       webrtc.py. Track: PcmAudioTrack. Transport: the receive queues of WebRtcPeer.
--              Validity, Playout and Fifo prove.
--   Bridge/Output       the output gate of _run_realtime_socket of service.py. Gate: its variables and
--              sections, cut at the sends, and audio. Tail: end_output up to its last section. Preroll
--              and Talk prove; Device runs the messages of the gate through Device/Session/Dispatch.
--   HomeAssistant       custom_components/codex_voice/realtime_tools.py. ToolClient: the state of one
--              connection. Connection: _async_serve_connection and _async_handle_tool_call, cut at
--              their awaits. Ledger, Calls, Once and Answered prove.
--   Examples   tests, and the theorems at concrete inputs.
--
-- What stands for the outside
--
-- A tool of Home Assistant enters by what it gives. The operating system enters as functions of
-- the number of the call or as the data of a step: what recv, sendall, urandom, Popen, poll,
-- write, wait and the clock answer. The loop of the session takes the connection as what its
-- methods do in one pass, as the code takes it from connection_factory. json.loads enters as the
-- decoded value, json.dumps as the size of the encoding, Unicode tables as functions. A playback child
-- counts as let go when _terminate_and_reap returns, also where its last wait timed out. A token of
-- secrets.token_urlsafe is an argument; that a new one is no pending id is a hypothesis. A future
-- of asyncio is a cell of a store, which the pending entry and the suspended call both name; so
-- are the state and the timer of a request of the app-server. Of a write to the child only its end
-- enters: completed, or raised with or without bytes on their way. Of a send to the device that
-- raises nothing more is modelled: the socket ends with it, so that what was sent is the start of
-- a run. The interpolation of two samples, which audio.py does in doubles, is a parameter, of
-- which only its value at the fraction 0 is assumed.
--
-- Bounds and fuel
--
-- receive_loop runs on the bytes in the buffer and 4098 more: every turn takes at least two bytes
-- off the buffer or ends the loop, and the one read of a call adds at most 4096, so that it is
-- enough. drain_loop runs on input frames times output rate and one: by then the position is past
-- the input. wait_tail needs 1001 passes: each takes at least a millisecond, and the wait ends a
-- second after the terminal event. The other loops recurse on their data. Times are natural
-- numbers, in units of 1/64000 of a second where the pacer counts.
--
-- What is not modelled
--
-- Of service.py, the rest of the sessions, transcription, synthesis and the routing of tools;
-- realtime.py and the aiortc calls of webrtc.py; of app_server.py, the subprocess, notify, the
-- account report and stderr; of audio.py, the one-shot conversion, base64 and WAV; the rest of the
-- Home Assistant integration; of the device, loading its configuration, the handshake with HTTP
-- and the PulseAudio checks. The text of an exception is modelled only as far as it tells one
-- raise from another.
pub mod Prelude
pub mod Pcm
pub mod Json
pub mod Texts
pub mod Device
pub mod Bridge
pub mod HomeAssistant
pub mod Examples
