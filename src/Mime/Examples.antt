-- ===== src/Mime/Examples.antt =====
-- The theorem on the model of `mime_load` of src/mime.c at a concrete line.
use khttp.Common.{◌≡◌, refl, [], ◌∷◌, map, arith, codes, ne_of_str_eq}
use khttp.Mime.Load.{type_entry, load_line}
use khttp.Mime.Lines.{type_line, load_line-type_line}

load_line-type_line_example :
    load_line (type_line (codes "a/b") (codes "htm") (codes "x1" ∷ []))
    ≡ map (type_entry (codes "a/b")) (codes "htm" ∷ codes "x1" ∷ [])
load_line-type_line_example =
    load_line-type_line b'a' (codes "/b") (codes "htm") (codes "x1" ∷ []) (refl, (refl, (refl, tt)))
      (omega arith)
      (
        (ne_of_str_eq (codes "htm") [] refl, (refl, (refl, (refl, tt)))),
        ((ne_of_str_eq (codes "x1") [] refl, (refl, (refl, tt))), tt),
      )
      (omega arith) refl
