-- ===== src/Http/Request.antt =====
-- lib/HttpServer/src/SNFHttpServer/HttpRequest.h and HttpRequest.cpp.
use simply_node_framework.Prelude.{
  ℕ, Bool, List, [], false, if◌then◌else◌, none, some, true, ◌&&◌, ◌==◌, ◌∷◌,
}
use simply_node_framework.Prelude.Bytes.{codes}
use simply_node_framework.Prelude.Maps.{lookup}
use simply_node_framework.Prelude.Chars.{stoul, to_lower}

abbrev pub StringMap : Type 0
StringMap = List (List ℕ × List ℕ)

pub record Request : Type 0 where
  pub method : List ℕ
  pub path : List ℕ
  pub query_params : StringMap
  pub headers : StringMap
  pub body : List ℕ

abbrev pub empty_request : Request
empty_request = record { method = []; path = []; query_params = []; headers = []; body = [] }

-- `std::equal` under `tolower`.
unfoldable pub same_header : List ℕ → List ℕ → Bool
unfolding to_lower
same_header [] [] = true
same_header (x ∷ xs) (y ∷ ys) = to_lower x == to_lower y && same_header xs ys
same_header _ _ = false

unfoldable pub get_header : List ℕ → StringMap → List ℕ
unfolding same_header
get_header key [] = []
get_header key ((k, v) ∷ m) = if same_header k key then v else get_header key m

unfoldable pub get_query_param : List ℕ → Request → List ℕ
get_query_param key r = elim (lookup key r.query_params) [ none ↦ [] | some v ↦ v ]

unfoldable pub content_type : Request → List ℕ
unfolding get_header
content_type r =
    let ct = get_header (codes "Content-Type") r.headers in
    elim ct [ [] ↦ codes "text/plain" | c ∷ cs ↦ c ∷ cs ]

unfoldable pub content_length : Request → ℕ
unfolding get_header stoul
content_length r =
    let cl = get_header (codes "Content-Length") r.headers in
    elim cl [ [] ↦ 0 | c ∷ cs ↦ elim (stoul 10 (c ∷ cs)) [ none ↦ 0 | some n ↦ n ] ]
