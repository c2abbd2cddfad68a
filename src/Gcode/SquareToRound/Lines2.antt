-- ===== src/Gcode/SquareToRound/Lines2.antt =====
-- Lines 2 to 150 of the program.
use edm_project.Prelude.{List, [], ◌∷◌}
use edm_project.Gcode.Script.{m, p, x, xy, y, z}
use edm_project.Rs274.Interpreter.Program.{Call}
use edm_project.Rs274.Interpreter.State.{nat}

abbrev pub lines_2 : List Call
lines_2 =
    Call.g55
    ∷ Call.g90
    ∷ Call.f (nat 400)
    ∷ Call.g04 (p 1000)
    ∷ xy (p 8535) (p 1688)
    ∷ z (p 10000)
    ∷ xy (p 8542) (p 1652)
    ∷ z (m 1840)
    ∷ z (m 4840)
    ∷ xy (p 5744) (p 1111)
    ∷ xy (p 5870) (m 338)
    ∷ xy (p 5607) (m 1772)
    ∷ xy (p 4999) (m 3096)
    ∷ xy (p 4083) (m 4231)
    ∷ xy (p 2917) (m 5105)
    ∷ xy (p 1571) (m 5666)
    ∷ xy (p 129) (m 5879)
    ∷ xy (m 1314) (m 5701)
    ∷ xy (m 977) (m 4239)
    ∷ x (p 978)
    ∷ xy (p 331) (m 4367)
    ∷ xy (m 330) (m 4368)
    ∷ xy (m 977) (m 4239)
    ∷ xy (m 1314) (m 5701)
    ∷ xy (m 2762) (m 5191)
    ∷ xy (m 4014) (m 4297)
    ∷ xy (m 4991) (m 3108)
    ∷ xy (m 5627) (m 1707)
    ∷ xy (m 5877) (m 189)
    ∷ xy (m 5696) (p 1335)
    ∷ xy (m 4235) (p 993)
    ∷ xy (m 4237) (m 983)
    ∷ xy (m 4368) (m 329)
    ∷ xy (m 4367) (p 339)
    ∷ xy (m 4235) (p 993)
    ∷ xy (m 5696) (p 1335)
    ∷ xy (m 5183) (p 2777)
    ∷ xy (m 4288) (p 4023)
    ∷ xy (m 3102) (p 4995)
    ∷ xy (m 1704) (p 5628)
    ∷ xy (m 190) (p 5877)
    ∷ xy (p 1329) (p 5697)
    ∷ xy (p 988) (p 4236)
    ∷ xy (m 1001) (p 4233)
    ∷ xy (m 343) (p 4367)
    ∷ xy (p 330) (p 4368)
    ∷ xy (p 988) (p 4236)
    ∷ xy (p 1329) (p 5697)
    ∷ xy (p 2607) (p 5271)
    ∷ xy (p 3740) (p 4537)
    ∷ xy (p 4676) (p 3564)
    ∷ xy (p 5366) (p 2404)
    ∷ xy (p 5744) (p 1111)
    ∷ xy (p 4271) (p 826)
    ∷ xy (p 4374) (p 225)
    ∷ xy (p 4363) (m 386)
    ∷ xy (p 4238) (m 983)
    ∷ xy (p 4239) (p 978)
    ∷ x (p 3939)
    ∷ xy (p 3937) (m 1670)
    ∷ xy (p 3933) (m 2450)
    ∷ xy (p 3842) (m 3026)
    ∷ xy (p 3514) (m 3514)
    ∷ xy (p 3026) (m 3843)
    ∷ xy (p 2450) (m 3934)
    ∷ xy (p 1670) (m 3939)
    ∷ x (m 1670)
    ∷ xy (m 2450) (m 3933)
    ∷ xy (m 3186) (m 3763)
    ∷ xy (m 3734) (m 3234)
    ∷ xy (m 3930) (m 2505)
    ∷ xy (m 3938) (m 1670)
    ∷ xy (m 3934) (p 2450)
    ∷ xy (m 3765) (p 3187)
    ∷ xy (m 3235) (p 3736)
    ∷ xy (m 2505) (p 3931)
    ∷ xy (p 1670) (p 3937)
    ∷ xy (p 2505) (p 3931)
    ∷ xy (p 3234) (p 3734)
    ∷ xy (p 3763) (p 3186)
    ∷ xy (p 3934) (p 2450)
    ∷ xy (p 3939) (p 1670)
    ∷ y (p 978)
    ∷ x (p 4239)
    ∷ xy (p 4271) (p 826)
    ∷ xy (p 8542) (p 1652)
    ∷ z (m 1840)
    ∷ z (p 10000)
    ∷ xy (p 8543) (p 1645)
    ∷ z (m 1860)
    ∷ z (m 4860)
    ∷ xy (p 5745) (p 1106)
    ∷ xy (p 5870) (m 340)
    ∷ xy (p 5607) (m 1770)
    ∷ xy (p 5001) (m 3092)
    ∷ xy (p 4089) (m 4225)
    ∷ xy (p 2927) (m 5100)
    ∷ xy (p 1586) (m 5662)
    ∷ xy (p 147) (m 5878)
    ∷ xy (m 1293) (m 5705)
    ∷ xy (m 962) (m 4242)
    ∷ xy (p 969) (m 4241)
    ∷ xy (p 330) (m 4368)
    ∷ x (m 322)
    ∷ xy (m 962) (m 4242)
    ∷ xy (m 1293) (m 5705)
    ∷ xy (m 2741) (m 5202)
    ∷ xy (m 3996) (m 4314)
    ∷ xy (m 4977) (m 3131)
    ∷ xy (m 5618) (m 1734)
    ∷ xy (m 5876) (m 219)
    ∷ xy (m 5703) (p 1305)
    ∷ xy (m 4240) (p 970)
    ∷ xy (m 4242) (m 963)
    ∷ xy (m 4368) (m 323)
    ∷ y (p 330)
    ∷ xy (m 4240) (p 970)
    ∷ xy (m 5703) (p 1305)
    ∷ xy (m 5196) (p 2752)
    ∷ xy (m 4306) (p 4004)
    ∷ xy (m 3121) (p 4983)
    ∷ xy (m 1723) (p 5622)
    ∷ xy (m 207) (p 5876)
    ∷ xy (p 1316) (p 5700)
    ∷ xy (p 978) (p 4239)
    ∷ x (m 978)
    ∷ xy (m 331) (p 4367)
    ∷ x (p 331)
    ∷ xy (p 978) (p 4239)
    ∷ xy (p 1316) (p 5700)
    ∷ xy (p 2598) (p 5275)
    ∷ xy (p 3735) (p 4541)
    ∷ xy (p 4675) (p 3566)
    ∷ xy (p 5367) (p 2403)
    ∷ xy (p 5745) (p 1106)
    ∷ xy (p 4272) (p 822)
    ∷ xy (p 4374) (p 228)
    ∷ xy (p 4364) (m 376)
    ∷ xy (p 4241) (m 967)
    ∷ xy (p 4240) (p 971)
    ∷ x (p 3940)
    ∷ xy (p 3942) (m 1670)
    ∷ xy (p 3939) (m 2450)
    ∷ xy (p 3849) (m 3029)
    ∷ xy (p 3520) (m 3520)
    ∷ xy (p 3029) (m 3850)
    ∷ xy (p 2450) (m 3939)
    ∷ xy (m 1670) (m 3943)
    ∷ xy (m 2450) (m 3939)
    ∷ []
