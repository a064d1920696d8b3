-- ===== src/Base/Texts.antt =====
-- Whole texts, which the program only compares.
use Prim.Native.String as Native
use text.Mathlib.Text as Text
use mathlib.Core.Bool.{Bool}

abbrev pub String : Type 0
String = Native.String

abbrev pub text_eq : String → String → Bool
text_eq s t = Text.◌==◌ s t
