-- ===== src/Plugin.antt =====
-- plugin.go and dump_raw.go: a program that is run for each message and whose output lines are sent, and
-- the printing of raw messages. What the started program and its pipes do is an argument.
pub mod Output
pub mod Lines
mod Examples
use pmb.Base.{
  ℕ, String, Bool, false, not, length, ltb, nat_eq, ◌&&◌, ◌||◌, ◌==◌, Option, none, some, List, [],
  ◌∷◌, ◌++◌, Bytes, if◌then◌else◌,
}
use pmb.Base.Go.{◌>>=◌, ◌>>◌, Go, done, fails, panics, waits, after, must, lift}
use pmb.Json.{Value, as_object, text_at}
use pmb.Client.{Effect, sends, Connection}
use pmb.Wire.{Message}
use pmb.Broker.Relay.{reverse_onto}
use pmb.Command.{Bus, connected}

-- The number of bytes in the buffer of bufio.NewReader.
abbrev pub buffer_size : ℕ
buffer_size = 4096

-- A line, last byte first, without the carriage return at its end.
abbrev pub strip_return : Bytes → Bytes
strip_return [] = []
strip_return (b ∷ bs) = if nat_eq b 13 then bs else b ∷ bs

-- What the byte `b` ends, where the bytes `acc` of a line, last byte first, are in the buffer: a newline
-- the line, and a full buffer, too; a carriage return at its end then stays in the buffer.
abbrev pub ended : Bytes → ℕ → List Bytes
ended acc b =
    if nat_eq b 10
    then reverse_onto (strip_return acc) [] ∷ []
    else if ltb (length (b ∷ acc)) buffer_size
    then []
    else reverse_onto (strip_return (b ∷ acc)) [] ∷ []

abbrev pub buffered : Bytes → ℕ → Bytes
buffered acc b =
    if nat_eq b 10
    then []
    else if ltb (length (b ∷ acc)) buffer_size
    then b ∷ acc
    else if nat_eq b 13
    then b ∷ []
    else []

-- What ReadLine gives, call by call. The program does not look at isPrefix, which tells a full buffer.
unfoldable pub read_lines : Bytes → Bytes → List Bytes
read_lines [] [] = []
read_lines (a ∷ acc) [] = reverse_onto (a ∷ acc) [] ∷ []
read_lines acc (b ∷ bs) = ended acc b ++ read_lines (buffered acc b) bs

-- A run of the program: whether the pipes, the start and the write to it fail, and all that it writes.
pub record Process : Type 0 where
  pub stdin_fails : Bool
  pub stdout_fails : Bool
  pub start_fails : Bool
  pub write_fails : Bool
  pub output : Bytes

-- The loop over the lines; a line that is no JSON is skipped, and one that is no object panics.
unfoldable pub send_lines : (Bytes → Option Value) → List String → List Bytes → Go Effect Unit
send_lines unmarshal keys [] = done [] tt
send_lines unmarshal keys (line ∷ lines) =
    let rest = send_lines unmarshal keys lines in
    elim (unmarshal line) [
      | none ↦ rest
      | some v ↦ elim (as_object v) [ none ↦ panics [] | some m ↦ after (sends keys m ∷ []) rest ]
    ]

-- runPluginOnce
unfoldable pub run_plugin_once : (Bytes → Option Value) → List String → Process → Go Effect Unit
run_plugin_once unmarshal keys p =
    if p.stdin_fails || (p.stdout_fails || (p.start_fails || p.write_fails))
    then done [] tt
    else send_lines unmarshal keys (read_lines [] p.output)

-- runPlugin: the goroutines that it starts, one for each message; `process` is what the program does when
-- it is given the message's raw text.
unfoldable pub run_plugin :
    (Bytes → Option Value)
    → List String
    → Bool
    → (Bytes → Process)
    → List Message
    → List (Go Effect Unit)
unfolding run_plugin_once
run_plugin unmarshal keys single process [] = []
run_plugin unmarshal keys single process (m ∷ ms) =
    let rest = run_plugin unmarshal keys single process ms in
    if single then run_plugin_once unmarshal keys (process m.raw) ∷ rest else rest

-- The checks of PluginCommand.Execute.
unfoldable pub plugin_problem : List String → Bool → Bool → Option String
plugin_problem [] single generator = some "Please specify a command (with args)."
plugin_problem (command ∷ args) single generator =
    if not single && not generator
    then some "Please specify what type of plugin this is."
    else if generator
    then some "Not implemented yet."
    else none

-- `_, ok := ignoreTypes[type]`
abbrev pub listed : String → List String → Bool
listed type [] = false
listed type (t ∷ ts) = (t == type) || listed type ts

-- What runDumpRaw prints: a raw message, one that was indented, or the error of json.Indent.
pub data Line : Type 0 where
  raw_line : Bytes → Line
  pretty_line : Bytes → Line
  problem : String → Line

pub data Indented : Type 0 where
  indented : Bytes → Indented
  indent_error : String → Indented

abbrev pub pretty : Indented → Line
pretty (indented out) = pretty_line out
pretty (indent_error e) = problem e

abbrev pub dump_line : (Bytes → Indented) → Bool → Message → Line
dump_line indent is_pretty m = if is_pretty then pretty (indent m.raw) else raw_line m.raw

-- The loop of runDumpRaw.
unfoldable pub run_dump_raw : (Bytes → Indented) → List String → Bool → List Message → Go Line Unit
run_dump_raw indent ignored is_pretty [] = waits []
run_dump_raw indent ignored is_pretty (m ∷ ms) =
    let rest = run_dump_raw indent ignored is_pretty ms in
    must (text_at "type" m.contents) >>= λ type.
    if listed type ignored then rest else after (dump_line indent is_pretty m ∷ []) rest

-- What dump-raw does with the broker, and what it prints.
pub data Act : Type 0 where
  on_bus : Effect → Act
  prints : Line → Act

-- DumpRawCommand.Execute
unfoldable pub execute_dump_raw :
    Bus → (Bytes → Indented) → List String → Bool → List Message → Go Act Unit
execute_dump_raw b indent ignored is_pretty ms = do
  conn ← lift on_bus (connected b)
  lift prints (run_dump_raw indent ignored is_pretty ms)

-- PluginCommand.Execute up to the loop over the messages: the connection, or what keeps it from running.
unfoldable pub start_plugin : Bus → List String → Bool → Bool → Go Effect Connection
start_plugin b args single generator = elim (plugin_problem args single generator) [
  | some e ↦ fails [] e
  | none ↦ connected b
]
