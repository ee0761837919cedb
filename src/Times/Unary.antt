-- ===== src/Times/Unary.antt =====
-- A format of times that names each instant, for the tests.
use Prim.Native.Char.{code}
use server_monitor.Base.{zero, suc, String, Bool, true, false, ◌≡◌, refl, ap, eqb}
use server_monitor.Base.Text.{append}
use server_monitor.Times.{Time, TimeFormat}

abbrev drop_char : String → String
drop_char String.[] = String.[]
drop_char (String.◌∷◌ c s) = s

abbrev at_end : String → Bool
at_end String.[] = true
at_end (String.◌∷◌ c s) = eqb (code c) b't'

unfoldable pub unary : Time → String
unary zero = "t"
unary (suc n) = append "i" (unary n)

pub unary_exact : (s t : Time) → unary s ≡ unary t → s ≡ t
unfolding unary
unary_exact zero zero e = refl
unary_exact zero (suc t) e = let d : true ≡ false = ap at_end e in cc d
unary_exact (suc s) zero e = let d : false ≡ true = ap at_end e in cc d
unary_exact (suc s) (suc t) e = ap suc (unary_exact s t (ap drop_char e))

abbrev pub unary_format : TimeFormat
unary_format = record { rfc3339_nano = unary; rfc3339_nano_exact = unary_exact }
