-- ===== src/Util/Examples.antt =====
-- Tests of the models of src/util.c, and the theorems on them at concrete inputs.
use khttp.Common.{
  ◌≡◌, refl, ◌≢◌, true, false, some, length, All, List, [], ◌∷◌, ◌++◌, map, arith, Bytes, codes,
}
use khttp.Util.Replace.{str_replace}
use khttp.Util.Trim.{str_trimwhitespace}
use khttp.Util.Lines.{Line, whole, Proper, join_lines, str_splitlines, splitlines-join}

str_replace_title :
    str_replace (codes "<b>{{t}}</b>{{t}}") (codes "{{t}}") (codes "Hi") ≡ codes "<b>Hi</b>Hi"
unfolding str_replace
str_replace_title = refl

str_trimwhitespace_inner : str_trimwhitespace (codes "  a b ") ≡ codes "a b"
unfolding str_trimwhitespace
str_trimwhitespace_inner = refl

-- One line ends in a carriage return and a newline, the other in a newline.
abbrev two_lines : List Line
two_lines = record { text = codes "ab"; cr = true } ∷ record { text = codes "c"; cr = false } ∷ []

no_cr-c : (s : Bytes) → codes "c" ≢ s ++ 13 ∷ []
no_cr-c [] e = ground (arith, e)
no_cr-c (c ∷ []) e = ground (arith, e)
no_cr-c (c ∷ d ∷ s) e = ground (arith, e)

two_lines-Proper : All Proper two_lines
two_lines-Proper = (
  record {
    filled = λ e. ground (arith, e);
    plain = (omega arith, (omega arith, tt));
    no_cr = λ e. absurd (ground (arith, e));
  },
  (record { filled = λ e. ground (arith, e); plain = (omega arith, tt); no_cr = λ e. no_cr-c }, tt),
)

two_lines-ne : two_lines ≢ []
two_lines-ne e = ground (arith, e)

splitlines-join_example :
    str_splitlines (join_lines (map whole two_lines))
    ≡ some (map (λ l. l.text) two_lines, length two_lines)
splitlines-join_example = splitlines-join two_lines two_lines-ne two_lines-Proper
