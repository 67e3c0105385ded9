-- ===== src/Lib.antt =====
-- pmb: the Personal Message Bus, a command line that connects clients and introducers over a broker.
--
-- A message is a JSON object. A client tags it with its id and host, encrypts it once under each of its
-- keys (api/util.go), and hands the bodies to a transport: AMQP (api/amqp.go), or a websocket to the
-- program's own broker (broker.go); a third, over a web server (api/http.go), is there but chosen by no
-- URI. Every receiver tries its keys on each body. Introducers (introducer.go) answer requests on the
-- desktop; of several, the one of the highest level is active. Commands connect (api/pmb.go), send one
-- message and wait for the reply.
--
-- Which module models what:
--   Base        the library's names, Go code with effects (done, fails, panics, waits), float64
--   Json        the values of encoding/json and the map operations of the program
--   Wire        api/util.go: encrypt, decrypt, localNetInfo, prepareMessage, parseMessage
--   Keys        parseKeys of api/pmb.go, and keys joined by commas
--   Random      api/pmb.go: GenerateRandomString and GenerateRandomID
--   CredHelper  api/crocker.go: the key in the credential helper
--   Client      api/pmb.go: testAuth and SendNotification, the loop in which a client waits;
--               runRemoteCopy, runOpenURL and runNotify of remotecopy.go, openurl.go and notify.go
--   Connect     api/pmb.go: getConfig, connect, connectWithKey, requestKey and their callers
--   Desktop     util.go: copyToClipboard, displayNotice, openURL
--   Introducer  introducer.go: runIntroducer, a round of whose loop is `step`; Introducer/Start: Execute
--               with the choice of the key
--   Broker      broker.go: Broker.run, a round of whose loop is `round`, runBrokerManager and Execute;
--               Broker/History: what its clients had; Broker/Relay: processReads and processWrites;
--               Broker/Hub: one broker among the goroutines of the manager and of its clients
--   Mobile      notify_mobile.go: runNotifyMobile, pushoverAgent; Mobile/Agent: unackAgent with
--               waitForComplete as a step relation; Mobile/System: all goroutines of runNotifyMobile
--   EndToEnd    a client's request, an introducer and its reply, over Wire and Broker/Relay
--   Protocol    the types of messages, which the senders in Client and Introducer keep to and the readers in
--               Introducer, Client, Mobile and Run rely on
--   Transport   parseMessage as the listeners of all transports call it
--   Amqp        api/amqp.go: the set-up, and sendToAMQP on one message; Amqp/Listen: listenToAMQP and
--               connectAMQP; Amqp/Sender: sendToAMQP over all messages
--   Http        api/http.go: connectHTTP, listenToHTTP, and sendToHTTP on one message
--   Run         run.go: runRun
--   Watch       watch.go: runWatch and findProcess
--   Ws          api/ws.go: connectWS, openWS, and the writer of processSocket on one message; Ws/Reader: its reader;
--               Ws/Loop: the writer over all that it meets
--   Config      api/config_api.go: splitKey and the names that GetAll makes; Config/Client: the client of the
--               configuration; Config/Command: config.go, and the broker that getConfig reads
--   Key         key.go: get, store, clear, check and copy; runShell of shell.go
--   Command     Execute of remotecopy.go, openurl.go, notify.go, notify_mobile.go and watch.go
--   Stream      stream.go and sink.go
--   Plugin      plugin.go: runPlugin and a run of a plugin, with the lines that bufio cuts from its output;
--               dump_raw.go
--   Entry       main.go, syslog.go and version.go: the options of the logger, `pmb version`
--   Process     process.go: MaskProcessArg
--   Launchd     osx.go: handleOSXCommand, start, stop, configure, generateLaunchConfig
-- In each, the module itself holds the definitions, its children the proofs, Examples concrete runs.
--
-- How state and time are modelled. A function that talks to the outside gives its effects in order and
-- how it ended: with a value, with an error, by a panic (a failed type assertion, a nil pointer), or
-- waiting for input. What arrives on a channel, and when a timer fires, is a list of events that the
-- function takes, so that a theorem for all lists covers all orders of arrival. Loops run over that
-- list and so need no fuel. Where several goroutines meet on channels (Broker/Reach, Broker/History,
-- Broker/Hub, Mobile/Agent, Mobile/System) the system is a relation of single steps, and a theorem speaks of all states
-- that they reach. A channel without a buffer is one step, in which both sides go on.
--
-- Sizes: a broker's buffer holds 256 messages, pushoverAgent remembers 10 ids, a key has 32 characters,
-- the vector of a body has 16 bytes, as in the source, and bufio.NewReader has a buffer of 4096 bytes. Numbers are unbounded; the program compares and
-- counts small ones only. A float64 is compared exactly, NaN and the infinities included.
--
-- Parameters: AES, base64 and JSON (Wire.Codec, with what they document in Wire.IsCodec); the library ini
-- on a disk (Config.Client.Ini, IsIni); the credential helpers (CredHelper.Crocker, IsCrocker); what the
-- host name look-up, the prompt, the dialler, exec.LookPath, launchctl, ps, the RabbitMQ server, the web
-- server and a plugin's process answer; the numbers that rand.Intn draws.
--
-- Not modelled: the deadlines of sockets, the upgrade of HTTP requests, sleeps;
-- the following of a file by the library tail; the parsing of
-- options, what is logged, and the libraries.
pub mod Base
pub mod Json
pub mod Wire
pub mod Keys
pub mod Client
pub mod Connect
pub mod Desktop
pub mod EndToEnd
pub mod Introducer
pub mod Broker
pub mod Mobile
pub mod Protocol
pub mod Process
pub mod Entry
pub mod Amqp
pub mod Run
pub mod Launchd
pub mod Watch
pub mod Ws
pub mod Config
pub mod Random
pub mod Command
pub mod Stream
pub mod Plugin
pub mod Key
pub mod Transport
pub mod Http
pub mod CredHelper
