-- ===== src/Server/Listing/Links.antt =====
-- Where the links of a directory listing of src/http-server.c lead.
use khttp.Common.{
  ℕ, suc, ◌≡◌, refl, ◌≢◌, none, some, [], ◌∷◌, ◌++◌, arith, length, drop, length-append, Bytes,
  str_prefix-append,
}
use khttp.Util.Replace.{str_replace, split_sub, replace_loop}
use khttp.Server.Listing.{link_of, drop_first}

drop-start : (xs ys : Bytes) → drop (length xs) (xs ++ ys) ≡ ys
drop-start [] ys = refl
drop-start (x ∷ xs) ys = ground (arith, drop-start xs ys)

split_sub-start : (c : ℕ) (s t : Bytes) → split_sub (c ∷ s) (c ∷ (s ++ t)) ≡ some ([], t)
unfolding split_sub
split_sub-start c s t = ground (arith, str_prefix-append (c ∷ s) t, drop-start s t)

replace_once :
    (n c : ℕ) (s t : Bytes)
    → split_sub (c ∷ s) t ≡ none
    → replace_loop (suc (suc n)) (c ∷ (s ++ t)) (c ∷ s) [] ≡ t
unfolding replace_loop
replace_once n c s t once = rw (split_sub-start c s t, replace_loop) (rw (once, replace_loop) refl)

-- The link that a listing gives to a path below the served directory is the path from the served
-- directory, and not from the listed one, without the slash in front, when the name of the served
-- directory does not come up again in it.
pub link_of-relative :
    (serve_dir rest : Bytes)
    → serve_dir ≢ []
    → split_sub serve_dir (b'/' ∷ rest) ≡ none
    → link_of serve_dir (serve_dir ++ b'/' ∷ rest) ≡ some rest
unfolding link_of str_replace drop_first
link_of-relative [] rest ne once = absurd (ne refl)
link_of-relative (c ∷ s) rest ne once =
    ground (arith, replace_once 998 c s (b'/' ∷ rest) once, length-append (c ∷ s) (b'/' ∷ rest))
