-- ===== src/Gcode/Part3/Lines601.antt =====
-- Lines 601 to 750 of the program.
use edm_project.Prelude.{List, [], ◌∷◌}
use edm_project.Gcode.Script.{m, p, x, xy, y, z}
use edm_project.Rs274.Interpreter.Program.{Call}

abbrev pub part3_lines_601 : List Call
part3_lines_601 =
    xy (p 4276) (p 800)
    ∷ xy (p 4374) (p 227)
    ∷ xy (p 4365) (m 357)
    ∷ xy (p 4250) (m 927)
    ∷ y (p 927)
    ∷ x (p 3950)
    ∷ y (m 2450)
    ∷ xy (p 3864) (m 3036)
    ∷ xy (p 3532) (m 3532)
    ∷ xy (p 3036) (m 3864)
    ∷ xy (p 2450) (m 3950)
    ∷ x (m 2450)
    ∷ xy (m 3036) (m 3864)
    ∷ xy (m 3532) (m 3532)
    ∷ xy (m 3864) (m 3036)
    ∷ xy (m 3950) (m 2450)
    ∷ y (p 2450)
    ∷ xy (m 3864) (p 3036)
    ∷ xy (m 3532) (p 3532)
    ∷ xy (m 3036) (p 3864)
    ∷ xy (m 2450) (p 3950)
    ∷ x (p 2450)
    ∷ xy (p 3036) (p 3864)
    ∷ xy (p 3532) (p 3532)
    ∷ xy (p 3864) (p 3036)
    ∷ xy (p 3950) (p 2450)
    ∷ y (p 927)
    ∷ x (p 4250)
    ∷ xy (p 4276) (p 800)
    ∷ xy (p 8551) (p 1601)
    ∷ z (m 3584)
    ∷ z (p 10000)
    ∷ z (m 3782)
    ∷ z (m 6782)
    ∷ xy (p 5750) (p 1076)
    ∷ xy (p 5869) (m 360)
    ∷ xy (p 5604) (m 1780)
    ∷ xy (p 5001) (m 3093)
    ∷ xy (p 4095) (m 4219)
    ∷ xy (p 2943) (m 5091)
    ∷ xy (p 1613) (m 5655)
    ∷ xy (p 185) (m 5877)
    ∷ xy (m 1247) (m 5716)
    ∷ xy (m 927) (m 4250)
    ∷ x (p 927)
    ∷ xy (p 313) (m 4369)
    ∷ x (m 313)
    ∷ xy (m 927) (m 4250)
    ∷ xy (m 1247) (m 5716)
    ∷ xy (m 2698) (m 5225)
    ∷ xy (m 3958) (m 4348)
    ∷ xy (m 4949) (m 3176)
    ∷ xy (m 5602) (m 1787)
    ∷ xy (m 5874) (m 276)
    ∷ xy (m 5716) (p 1247)
    ∷ xy (m 4250) (p 927)
    ∷ y (m 927)
    ∷ xy (m 4369) (m 313)
    ∷ y (p 313)
    ∷ xy (m 4250) (p 927)
    ∷ xy (m 5716) (p 1247)
    ∷ xy (m 5225) (p 2698)
    ∷ xy (m 4348) (p 3958)
    ∷ xy (m 3176) (p 4949)
    ∷ xy (m 1787) (p 5602)
    ∷ xy (m 276) (p 5874)
    ∷ xy (p 1247) (p 5716)
    ∷ xy (p 927) (p 4250)
    ∷ x (m 927)
    ∷ xy (m 313) (p 4369)
    ∷ x (p 313)
    ∷ xy (p 927) (p 4250)
    ∷ xy (p 1247) (p 5716)
    ∷ xy (p 2552) (p 5297)
    ∷ xy (p 3712) (p 4560)
    ∷ xy (p 4669) (p 3574)
    ∷ xy (p 5371) (p 2394)
    ∷ xy (p 5750) (p 1076)
    ∷ xy (p 4276) (p 800)
    ∷ xy (p 4374) (p 227)
    ∷ xy (p 4365) (m 357)
    ∷ xy (p 4250) (m 927)
    ∷ y (p 927)
    ∷ x (p 3950)
    ∷ y (m 2450)
    ∷ xy (p 3864) (m 3036)
    ∷ xy (p 3532) (m 3532)
    ∷ xy (p 3036) (m 3864)
    ∷ xy (p 2450) (m 3950)
    ∷ x (m 2450)
    ∷ xy (m 3036) (m 3864)
    ∷ xy (m 3532) (m 3532)
    ∷ xy (m 3864) (m 3036)
    ∷ xy (m 3950) (m 2450)
    ∷ y (p 2450)
    ∷ xy (m 3864) (p 3036)
    ∷ xy (m 3532) (p 3532)
    ∷ xy (m 3036) (p 3864)
    ∷ xy (m 2450) (p 3950)
    ∷ x (p 2450)
    ∷ xy (p 3036) (p 3864)
    ∷ xy (p 3532) (p 3532)
    ∷ xy (p 3864) (p 3036)
    ∷ xy (p 3950) (p 2450)
    ∷ y (p 927)
    ∷ x (p 4250)
    ∷ xy (p 4276) (p 800)
    ∷ xy (p 8551) (p 1601)
    ∷ z (m 3782)
    ∷ z (p 10000)
    ∷ z (m 3980)
    ∷ z (m 6980)
    ∷ xy (p 5750) (p 1076)
    ∷ xy (p 5869) (m 360)
    ∷ xy (p 5604) (m 1780)
    ∷ xy (p 5001) (m 3093)
    ∷ xy (p 4095) (m 4219)
    ∷ xy (p 2943) (m 5091)
    ∷ xy (p 1613) (m 5655)
    ∷ xy (p 185) (m 5877)
    ∷ xy (m 1247) (m 5716)
    ∷ xy (m 927) (m 4250)
    ∷ x (p 927)
    ∷ xy (p 313) (m 4369)
    ∷ x (m 313)
    ∷ xy (m 927) (m 4250)
    ∷ xy (m 1247) (m 5716)
    ∷ xy (m 2698) (m 5225)
    ∷ xy (m 3958) (m 4348)
    ∷ xy (m 4949) (m 3176)
    ∷ xy (m 5602) (m 1787)
    ∷ xy (m 5874) (m 276)
    ∷ xy (m 5716) (p 1247)
    ∷ xy (m 4250) (p 927)
    ∷ y (m 927)
    ∷ xy (m 4369) (m 313)
    ∷ y (p 313)
    ∷ xy (m 4250) (p 927)
    ∷ xy (m 5716) (p 1247)
    ∷ xy (m 5225) (p 2698)
    ∷ xy (m 4348) (p 3958)
    ∷ xy (m 3176) (p 4949)
    ∷ xy (m 1787) (p 5602)
    ∷ xy (m 276) (p 5874)
    ∷ xy (p 1247) (p 5716)
    ∷ xy (p 927) (p 4250)
    ∷ x (m 927)
    ∷ xy (m 313) (p 4369)
    ∷ x (p 313)
    ∷ xy (p 927) (p 4250)
    ∷ []
