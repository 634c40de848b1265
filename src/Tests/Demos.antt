-- ===== src/Tests/Demos.antt =====
-- The demonstration of the video library on a screen of 50 rows.
use rmtdos.Base.{ℕ, List, [], ◌∷◌, arith, false}
use rmtdos.Protocol.{VideoState}
use rmtdos.VgaDemo.{Press, draw_test_pattern, main}
use rmtdos.VgaDemo.Pattern.{All, OnScreen, pattern-OnScreen}
use rmtdos.VgaDemo.Keys.{IsValid, main-IsValid}
use rmtdos.Tests.Sessions.{video}

abbrev tall : VideoState
tall = record video { text_rows = 50 }

abbrev bios : ℕ → ℕ
bios at = at

abbrev keys : List Press
keys = (bios, 0x4800) ∷ (bios, 0x2f00) ∷ (bios, 0x1e61) ∷ (bios, 0x4b00) ∷ []

pattern-OnScreen_example : All (OnScreen tall) (draw_test_pattern false tall 0xb0)
pattern-OnScreen_example =
    pattern-OnScreen false tall 0xb0 (omega arith) (omega arith) (λ e. omega arith)

main-IsValid_example : IsValid false (λ mode. tall) (main false (λ mode. tall) keys)
main-IsValid_example = main-IsValid false (λ mode. tall) keys
