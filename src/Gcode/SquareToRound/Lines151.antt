-- ===== src/Gcode/SquareToRound/Lines151.antt =====
-- Lines 151 to 300 of the program.
use edm_project.Prelude.{List, [], ◌∷◌}
use edm_project.Gcode.Script.{m, p, x, xy, y, z}
use edm_project.Rs274.Interpreter.Program.{Call}

abbrev pub lines_151 : List Call
lines_151 =
    xy (m 3028) (m 3849)
    ∷ xy (m 3519) (m 3519)
    ∷ xy (m 3848) (m 3029)
    ∷ xy (m 3938) (m 2450)
    ∷ xy (m 3943) (m 1670)
    ∷ xy (m 3939) (p 2450)
    ∷ xy (m 3851) (p 3030)
    ∷ xy (m 3521) (p 3521)
    ∷ xy (m 3030) (p 3850)
    ∷ xy (m 2450) (p 3939)
    ∷ x (p 2450)
    ∷ xy (p 3029) (p 3848)
    ∷ xy (p 3519) (p 3519)
    ∷ xy (p 3849) (p 3029)
    ∷ xy (p 3940) (p 2450)
    ∷ y (p 971)
    ∷ x (p 4240)
    ∷ xy (p 4272) (p 822)
    ∷ xy (p 8543) (p 1645)
    ∷ z (m 1860)
    ∷ z (p 10000)
    ∷ xy (p 8548) (p 1617)
    ∷ z (m 1880)
    ∷ z (m 4880)
    ∷ xy (p 5748) (p 1088)
    ∷ xy (p 5869) (m 353)
    ∷ xy (p 5605) (m 1778)
    ∷ xy (p 5000) (m 3094)
    ∷ xy (p 4091) (m 4223)
    ∷ xy (p 2934) (m 5096)
    ∷ xy (p 1599) (m 5658)
    ∷ xy (p 167) (m 5878)
    ∷ xy (m 1269) (m 5711)
    ∷ xy (m 944) (m 4246)
    ∷ x (p 948)
    ∷ xy (p 322) (m 4368)
    ∷ x (m 318)
    ∷ xy (m 944) (m 4246)
    ∷ xy (m 1269) (m 5711)
    ∷ xy (m 2719) (m 5214)
    ∷ xy (m 3976) (m 4332)
    ∷ xy (m 4962) (m 3154)
    ∷ xy (m 5610) (m 1761)
    ∷ xy (m 5875) (m 248)
    ∷ xy (m 5709) (p 1275)
    ∷ xy (m 4245) (p 948)
    ∷ xy (m 4246) (m 945)
    ∷ xy (m 4368) (m 318)
    ∷ y (p 322)
    ∷ xy (m 4245) (p 948)
    ∷ xy (m 5709) (p 1275)
    ∷ xy (m 5211) (p 2724)
    ∷ xy (m 4328) (p 3980)
    ∷ xy (m 3149) (p 4965)
    ∷ xy (m 1756) (p 5612)
    ∷ xy (m 243) (p 5875)
    ∷ xy (p 1280) (p 5708)
    ∷ xy (p 952) (p 4245)
    ∷ x (m 952)
    ∷ xy (m 322) (p 4368)
    ∷ x (p 322)
    ∷ xy (p 952) (p 4245)
    ∷ xy (p 1280) (p 5708)
    ∷ xy (p 2575) (p 5286)
    ∷ xy (p 3724) (p 4550)
    ∷ xy (p 4673) (p 3569)
    ∷ xy (p 5370) (p 2396)
    ∷ xy (p 5748) (p 1088)
    ∷ xy (p 4274) (p 809)
    ∷ xy (p 4374) (p 225)
    ∷ xy (p 4364) (m 368)
    ∷ xy (p 4245) (m 948)
    ∷ xy (p 4246) (p 944)
    ∷ x (p 3946)
    ∷ xy (p 3945) (m 2450)
    ∷ xy (p 3856) (m 3032)
    ∷ xy (p 3525) (m 3525)
    ∷ xy (p 3032) (m 3856)
    ∷ xy (p 2450) (m 3945)
    ∷ xy (m 1670) (m 3947)
    ∷ xy (m 2450) (m 3945)
    ∷ xy (m 3032) (m 3855)
    ∷ xy (m 3524) (m 3525)
    ∷ xy (m 3855) (m 3032)
    ∷ xy (m 3944) (m 2450)
    ∷ xy (m 3947) (m 1670)
    ∷ xy (m 3945) (p 2450)
    ∷ xy (m 3857) (p 3033)
    ∷ xy (m 3526) (p 3526)
    ∷ xy (m 3033) (p 3857)
    ∷ xy (m 2450) (p 3945)
    ∷ x (p 2450)
    ∷ xy (p 3032) (p 3855)
    ∷ xy (p 3525) (p 3525)
    ∷ xy (p 3855) (p 3032)
    ∷ xy (p 3945) (p 2450)
    ∷ xy (p 3947) (p 1670)
    ∷ xy (p 3946) (p 944)
    ∷ x (p 4246)
    ∷ xy (p 4274) (p 809)
    ∷ xy (p 8548) (p 1617)
    ∷ z (m 1880)
    ∷ z (p 10000)
    ∷ xy (p 8550) (p 1611)
    ∷ z (m 1900)
    ∷ z (m 4900)
    ∷ xy (p 5749) (p 1083)
    ∷ xy (p 5869) (m 355)
    ∷ xy (p 5605) (m 1778)
    ∷ xy (p 5001) (m 3093)
    ∷ xy (p 4094) (m 4221)
    ∷ xy (p 2939) (m 5093)
    ∷ xy (p 1606) (m 5656)
    ∷ xy (p 176) (m 5877)
    ∷ xy (m 1258) (m 5713)
    ∷ xy (m 936) (m 4248)
    ∷ x (p 934)
    ∷ xy (p 315) (m 4369)
    ∷ x (m 317)
    ∷ xy (m 936) (m 4248)
    ∷ xy (m 1258) (m 5713)
    ∷ xy (m 2711) (m 5218)
    ∷ xy (m 3971) (m 4336)
    ∷ xy (m 4960) (m 3158)
    ∷ xy (m 5609) (m 1763)
    ∷ xy (m 5875) (m 248)
    ∷ xy (m 5709) (p 1278)
    ∷ xy (m 4245) (p 950)
    ∷ y (m 949)
    ∷ xy (m 4368) (m 321)
    ∷ y (p 322)
    ∷ xy (m 4245) (p 950)
    ∷ xy (m 5709) (p 1278)
    ∷ xy (m 5210) (p 2727)
    ∷ xy (m 4325) (p 3983)
    ∷ xy (m 3146) (p 4968)
    ∷ xy (m 1752) (p 5613)
    ∷ xy (m 238) (p 5875)
    ∷ xy (p 1285) (p 5707)
    ∷ xy (p 956) (p 4244)
    ∷ x (m 953)
    ∷ xy (m 321) (p 4368)
    ∷ x (p 324)
    ∷ xy (p 956) (p 4244)
    ∷ xy (p 1285) (p 5707)
    ∷ xy (p 2579) (p 5284)
    ∷ xy (p 3728) (p 4547)
    ∷ xy (p 4676) (p 3565)
    ∷ xy (p 5372) (p 2392)
    ∷ xy (p 5749) (p 1083)
    ∷ []
