-- ===== src/Plugin/Examples.antt =====
-- Plugins of plugin.go at concrete inputs.
use pmb.Base.{◌≡◌, refl, inl, inr, Option, none, some, [], ◌∷◌, Bytes, nat_eq, arith, if◌then◌else◌}
use pmb.Base.Go.{done}
use pmb.Json.{Value, obj, end}
use pmb.Plugin.{run_plugin_once}
use pmb.Plugin.Output.{messages}
use pmb.Plugin.Lines.{unlines, writing, run_plugin_once-messages}

-- JSON that knows `{}` only.
abbrev braces : Bytes
braces = b'{' ∷ b'}' ∷ []

abbrev unmarshal : Bytes → Option Value
unmarshal [] = none
unmarshal (b ∷ []) = none
unmarshal (b ∷ c ∷ []) = if nat_eq b b'{' then some (obj end) else none
unmarshal (b ∷ c ∷ d ∷ bs) = none

run_plugin_once-messages_example :
    run_plugin_once unmarshal ("key" ∷ []) (writing (unlines (braces ∷ (b'-' ∷ []) ∷ braces ∷ [])))
    ≡ done (messages unmarshal ("key" ∷ []) (braces ∷ (b'-' ∷ []) ∷ braces ∷ [])) tt
run_plugin_once-messages_example =
    run_plugin_once-messages unmarshal ("key" ∷ []) (braces ∷ (b'-' ∷ []) ∷ braces ∷ [])
      (
        (((refl, refl), ((refl, refl), tt)), omega arith),
        (
          (((refl, refl), tt), omega arith),
          ((((refl, refl), ((refl, refl), tt)), omega arith), tt),
        ),
      )
      (inr (end, refl), (inl refl, (inr (end, refl), tt)))
