-- ===== src/Introducer/Examples.antt =====
-- Introducers of introducer.go at concrete inputs.
use pmb.Base.{◌≡◌, true, false, not, none, [], ◌∷◌, Any, ◌==◌}
use pmb.Base.Go.{done}
use pmb.Base.Float.{Float64, whole}
use pmb.Desktop.{Desk, sends}
use pmb.Introducer.{Setup, present, roll_call, run_introducer}
use pmb.Introducer.Election.{presents, has_higher, levels, run_introducer-presents, election_leader}

abbrev desk : Desk
desk = record {
  look = λ name. name == "tmux";
  temp_name = "/tmp/pmb1";
  temp_error = none;
  write_error = none;
  close_error = none;
  rename_error = none;
  browse_error = none;
}

abbrev setup : Float64 → Setup
setup level = record {
  level = level;
  level_sticky = whole 4;
  keys = "0123456789abcdef0123456789abcdef" ∷ [];
  desk = desk;
  screen_saver = false;
}

run_introducer-presents_example :
    run_introducer (setup (whole 2)) (presents (whole 1 ∷ whole 2 ∷ []))
    ≡ done
        (sends (present (whole 2)) ∷ sends roll_call ∷ [])
        (not (has_higher (whole 2) (whole 1 ∷ whole 2 ∷ [])))
run_introducer-presents_example = run_introducer-presents (setup (whole 2)) (whole 1 ∷ whole 2 ∷ [])

election_leader_example :
    Any
      (λ leader.
        run_introducer leader (presents (levels (setup (whole 1) ∷ setup (whole 2) ∷ [])))
        ≡ done (sends (present leader.level) ∷ sends roll_call ∷ []) true)
      (setup (whole 1) ∷ setup (whole 2) ∷ [])
election_leader_example = election_leader (setup (whole 1)) (setup (whole 2) ∷ [])
