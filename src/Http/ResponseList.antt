-- ===== src/Http/ResponseList.antt =====
-- The lists of responses of src/http.c, in the order of their `next` pointers. A pointer to a response
-- is its position.
use khttp.Common.{ℕ, zero, suc, Bool, Option, none, some, List, [], ◌∷◌, ◌++◌, if◌then◌else◌}
use khttp.Http.Response.{Response}

unfoldable pub http_response_list_new : List Response
http_response_list_new = []

unfoldable pub http_response_list_append : List Response → Response → List Response
http_response_list_append list response = list ++ response ∷ []

-- LL_DELETE walks through NULL if the response is not in the list.
unfoldable pub http_response_list_remove : List Response → ℕ → Option (List Response)
http_response_list_remove [] pos = none
http_response_list_remove (r ∷ rs) zero = some rs
http_response_list_remove (r ∷ rs) (suc pos) = elim (http_response_list_remove rs pos) [
  | none ↦ none
  | some rest ↦ some (r ∷ rest)
]

unfoldable pub http_response_list_next2 : List Response → Bool → Option Response × List Response
http_response_list_next2 [] remove = (none, [])
http_response_list_next2 (r ∷ rs) remove = (some r, if remove then rs else r ∷ rs)

unfoldable pub http_response_list_next : List Response → Option Response
unfolding http_response_list_next2
http_response_list_next list = (http_response_list_next2 list Bool.false).0
