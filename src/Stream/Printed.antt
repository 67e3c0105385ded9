-- ===== src/Stream/Printed.antt =====
-- From the lines of stream.go to what sink.go prints.
use pmb.Base.{String, ◌≡◌, refl, ap, ◌∙◌, List, [], ◌∷◌, ◌<>◌, map}
use pmb.Base.Go.{Go, waits, after, trace}
use pmb.Json.{Value, Fields, get, put}
use pmb.Client.{Effect, sends, stores, runs}
use pmb.Wire.{Host, tag}
use pmb.Stream.{stream_fields, stream_lines, sink_line, run_sink}

-- The contents of the messages that were sent.
abbrev pub contents : List Effect → List Fields
contents [] = []
contents (sends keys m ∷ t) = m ∷ contents t
contents (stores key ∷ t) = contents t
contents (runs args ∷ t) = contents t

abbrev pub printed : String → String → String
printed ident line = ident <> ": " <> line <> "\n"

stream_lines-waits :
    (keys : List String) (ident : String) (lines : List String)
    → stream_lines keys ident lines ≡ waits (map (λ l. sends keys (stream_fields ident l)) lines)
unfolding stream_lines
stream_lines-waits keys ident [] = refl
stream_lines-waits keys ident (l ∷ ls) =
    ap (after (sends keys (stream_fields ident l) ∷ [])) (stream_lines-waits keys ident ls)

sink_line-tag :
    (show : Value → String) (h : Host) (now id ident line : String)
    → sink_line show (tag h now id (stream_fields ident line)) ≡ printed ident line
unfolding sink_line tag get put
sink_line-tag show h now id ident line = refl

contents-map :
    (show : Value → String) (h : Host) (now id ident : String) (keys lines : List String)
    → run_sink show
        (map (tag h now id) (contents (map (λ l. sends keys (stream_fields ident l)) lines)))
      ≡ waits (map (printed ident) lines)
unfolding run_sink
contents-map show h now id ident keys [] = refl
contents-map show h now id ident keys (l ∷ ls) =
    rw (contents-map show h now id ident keys ls, sink_line-tag show h now id ident l)

-- A sink that receives the messages of a stream, with what prepareMessage has put into each, prints the
-- lines of the stream in their order, each behind the stream's identifier.
pub run_sink-stream_lines :
    (show : Value → String) (h : Host) (now id ident : String) (keys lines : List String)
    → run_sink show (map (tag h now id) (contents (trace (stream_lines keys ident lines))))
      ≡ waits (map (printed ident) lines)
run_sink-stream_lines show h now id ident keys lines =
    ap (λ (g : Go Effect Unit). run_sink show (map (tag h now id) (contents (trace g))))
      (stream_lines-waits keys ident lines)
    ∙ contents-map show h now id ident keys lines
