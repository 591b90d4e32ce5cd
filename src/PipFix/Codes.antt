-- ===== src/PipFix/Codes.antt =====
-- The code points of a text.
use Prim.Native.Char.{code}
use Prim.Native.String.{[] as no_chars, ◌∷◌ as char_then}
use pa_sso_proxy.Prelude.{String, [], ◌∷◌}
use pa_sso_proxy.Unicode.{Text}

unfoldable pub codes : String → Text
codes no_chars = []
codes (char_then c cs) = code c ∷ codes cs
