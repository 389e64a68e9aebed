-- ===== src/Lib.antt =====
-- Verification of floodgate, a service that EMQX asks about every Meshtastic packet published to it.
-- floodgate answers that the packet is to be dropped, to be delivered with its hop limit set to 0,
-- or to be delivered as it is.
--
-- The parts of the program, all under src/floodgate/, and the files that model them:
--   config.py       load_config and its checks; should_zerohop and should_drop. Config holds the
--                   data, Config/Load the file and its keys, Config/Validate the checks of values,
--                   Config/Policy the two filters. Config/Valid says what a loaded configuration is.
--   zerohop.py      parse_meshtastic_topic in Topic; AntifloodStats in Stats; zerohop_json,
--                   zerohop_protobuf, _extract_proto_meta and _peek_meta in Zerohop; process_message
--                   in Process, with _fmt_node in Process/Format and the log records' fields in
--                   Process/Describe.
--   portnum.py      the two extractors, in Portnum.
--   decrypt.py      build_nonce and decrypt, in Decrypt.
--   exhook_server.py  OnProviderLoaded, OnMessagePublish and the hooks that do nothing, in ExHook;
--                   _stats_reporter in ExHook/Reporter; _log_startup_policy in ExHook/Startup. The
--                   messages are those of proto/emqx/exhook.proto. start in Server, with what it
--                   leaves up where it raises; RunningServer.stop, serve, the workers and the
--                   reporter as steps of threads in Server/Threads.
--   health.py       do_GET, in Health; start_health_server in Server.
--   log_setup.py    _escape and the lines of StructuredTextFormatter, in LogSetup; LogSetup/Escape
--                   has a reader of such lines. build_formatter and configure_logging in
--                   LogSetup/Install.
--   __main__.py     main, in Main, with the logging that it sets up; Main/Endings has each way in
--                   which it ends.
-- scripts/check_chart.py, which runs load_config on a rendered Helm chart, is modelled in Chart.
-- EMQX calls OnMessagePublish, which calls process_message and turns its result into an answer.
-- process_message parses the topic, reads the portnum (Portnum, Decrypt) if the drop filter is on,
-- asks the two filters (Config/Policy), and changes the payload (Zerohop). It counts the message
-- (Stats) and logs a record of it: that is the state in Service, which the functions pass on. What
-- it does to that state is a sequence of increments and records that the message alone decides
-- (Process/Effects/Messages), so in Server/Threads the workers take them one by one, between the
-- steps of the reporter and of the thread that serves or stops; gRPC may also end by itself. Broker
-- composes the answer with what EMQX does with it, or without it where it comes too late, down to
-- what subscribers get.
--
-- A dict of decoded JSON or of the configuration is an ordered list of fields (Value), with texts as
-- keys. Python's integers have no bound: they are the integers of Value/Int; a nonce's parts are
-- cut to 64 and 32 bits by low_bits. In LogSetup a text is the list of its code points. An exception
-- is `none`, or an error that says which; load_config raises a ConfigError or another exception, of
-- which only that it is another is kept. A set of texts is a list.
--
-- Parameters, with what the code relies on as their laws: the json module (Value/Json), the
-- generated protobuf classes (Proto), AES in counter mode (Decrypt), the case tables (Common/Text),
-- what Python says of characters (LogSetup), PyYAML, the file system and the environment
-- (Config/Load, Config/Validate), EMQX's handling of an answer and of a late call (Broker), `in` on
-- YAML's other objects (Chart), and what gRPC, the thread pool and the operating system answer when
-- the servers are started (Server). Samples and Config/Samples have small instances of them, for the
-- examples.
--
-- The only fuel is that of the hexadecimal digits of n (Process/Format/Hex), n + 1: each step
-- divides by 16, so it is enough (Process/Format/Hex/Digits reads the digits again). In
-- Server/Threads there is none: a run is any sequence of steps, and steps_left bounds those that
-- follow a stop.
--
-- Not modelled: free-text warnings and debug lines and the wording of error messages, which nothing
-- reads; argparse, the gRPC and HTTP servers and the log records' prefix, which are libraries; and
-- tests/integration/test-driver/run.py, a test program that talks to a running broker.
mod Common
pub mod Value
pub mod Topic
pub mod Bytes
pub mod Decrypt
pub mod Stats
pub mod Config
pub mod Proto
pub mod Portnum
pub mod Zerohop
pub mod Server
pub mod Service
pub mod Process
pub mod ExHook
pub mod LogSetup
pub mod Health
pub mod Main
pub mod Broker
pub mod Chart
pub mod Samples
