-- ===== src/Stream.antt =====
-- stream.go and sink.go: the lines of a file go out on a sub-connection, and a sink prints what comes in
-- on it.
pub mod Printed
use pmb.Base.{String, Bool, Option, none, some, List, [], ◌∷◌, ◌<>◌, is_set, if◌then◌else◌}
use pmb.Base.Go.{◌>>=◌, ◌>>◌, Go, done, fails, panics, waits, after, lift}
use pmb.Json.{Value, Fields, str, end, field, get}
use pmb.Client.{Effect, sends, Connection}
use pmb.Wire.{Host}
use pmb.Connect.{Outside, Config, connect_sub_client}
use pmb.Command.{Bus, connected}

-- localIP; `os_error` and `lookup_error` are the texts of the errors of its two calls.
unfoldable pub local_ip : Host → String → String → Go Effect String
local_ip h os_error lookup_error = elim h.hostname [
  | none ↦ fails [] os_error
  | some name ↦ elim h.addrs [
    | none ↦ fails [] lookup_error
    | some [] ↦ panics []
    | some (a ∷ rest) ↦ done [] a
  ]
]

-- The identifier of runStream.
unfoldable pub identifier : String → Host → String → String → Go Effect String
identifier option h os_error lookup_error =
    if is_set option then done [] option else local_ip h os_error lookup_error

abbrev pub stream_fields : String → String → Fields
stream_fields ident text =
    field "type" (str "Stream") (field "identifier" (str ident) (field "data" (str text) end))

-- The loop over the lines of the file; it goes on for ever.
unfoldable pub stream_lines : List String → String → List String → Go Effect Unit
stream_lines keys ident [] = waits []
stream_lines keys ident (line ∷ lines) =
    after (sends keys (stream_fields ident line) ∷ []) (stream_lines keys ident lines)

-- runStream; `tail_error` is the error of TailFile.
unfoldable pub run_stream :
    Outside
    → Config
    → Connection
    → String
    → String
    → Host
    → String
    → String
    → Option String
    → List String
    → Go Effect Unit
run_stream o c conn name option h os_error lookup_error tail_error lines = do
  sub ← connect_sub_client o c conn name
  ident ← identifier option h os_error lookup_error
  elim tail_error [ some e ↦ fails [] e | none ↦ stream_lines sub.keys ident lines ]

-- The verb %s for an element of a map: a text, the text for a missing one, and what fmt makes of any
-- other value.
abbrev pub shown : (Value → String) → Option Value → String
shown show none = "%!s(<nil>)"
shown show (some (str s)) = s
shown show (some v) = show v

-- The line that the loop of runSink prints for a message.
unfoldable pub sink_line : (Value → String) → Fields → String
sink_line show m = shown show (get "identifier" m) <> ": " <> shown show (get "data" m) <> "\n"

-- The loop of runSink.
unfoldable pub run_sink : (Value → String) → List Fields → Go String Unit
run_sink show [] = waits []
run_sink show (m ∷ ms) = after (sink_line show m ∷ []) (run_sink show ms)

-- StreamCommand.Execute; the file must be there. `sub` is what the second connection meets.
unfoldable pub execute_stream :
    Bus
    → String
    → Bool
    → Outside
    → String
    → String
    → Host
    → String
    → String
    → Option String
    → List String
    → Go Effect Unit
execute_stream b file file_missing sub name option h os_error lookup_error tail_error lines =
    if file_missing then fails [] ("File " <> file <> " not found.") else (do
      conn ← connected b
      run_stream sub b.config conn name option h os_error lookup_error tail_error lines)

-- What a sink does with the broker, and what it prints.
pub data Act : Type 0 where
  on_bus : Effect → Act
  prints : String → Act

-- SinkCommand.Execute, with the messages that come in.
unfoldable pub execute_sink : Bus → Outside → String → (Value → String) → List Fields → Go Act Unit
execute_sink b sub name show ms = do
  conn ← lift on_bus (connected b)
  piped ← lift on_bus (connect_sub_client sub b.config conn name)
  lift prints (run_sink show ms)
