-- ===== src/Http/Server/Tests.antt =====
-- A server with one route and one folder.
use mathlib.Core.List.{reverse}
use simply_node_framework.Prelude.{
  ℕ, List, [], arith, false, if◌then◌else◌, length, none, refl, some, ◌++◌, ◌||◌, ◌∷◌, ◌≡◌, ◌⊎◌,
}
use simply_node_framework.Prelude.Bytes.{codes, bytes_eq, find, starts_with}
use simply_node_framework.Prelude.Maps.{insert, bytes_lt}
use simply_node_framework.Prelude.Decimal.{decimal, decimal_on}
use simply_node_framework.Http.Server.{
  Server, FileSystem, close_socket, closed, deleted, ends_in_slash, file_response, find_route,
  find_static, joined_path, on_bytes_written, resolve_path, resolved_for, respond, send,
  serve_static,
}
use simply_node_framework.Http.Server.Flushed.{send-written_all, written_all}
use simply_node_framework.Http.Server.Files.{respond-IsFileOf, Among, IsFileOf}
use simply_node_framework.Http.Request.{Request}
use simply_node_framework.Http.RequestParser.{reset}
use simply_node_framework.Http.Response.{
  serialize, plain, Response, not_found, response, sent_headers, set_content, status_line,
  status_text, write_headers,
}

-- One file, /srv/a.txt.
abbrev one_file : FileSystem
one_file = record {
  canonical = λ path. if bytes_eq path (codes "/srv/../x") then some (codes "/x") else some path;
  relative =
      λ path base. if bytes_eq path (codes "/x") then some (codes "../x") else some (codes "a.txt");
  is_regular = λ path. bytes_eq path (codes "/srv/a.txt") || bytes_eq path (codes "/x");
  content = λ path. some (codes "hello");
}

abbrev empty_server : Server
empty_server = record { routes = []; static_prefixes = []; socket_states = λ x. none }

abbrev served : Server
served = serve_static (codes "/f/") (codes "/srv") empty_server

abbrev asking : List ℕ → Request
asking path = record {
  method = codes "GET";
  path = path;
  query_params = [];
  headers = [];
  body = [];
}

file_found :
    respond one_file served (asking (codes "/f/a.txt"))
    ≡ file_response one_file (codes "/srv/a.txt")
unfolding respond find_route find_static serve_static resolved_for resolve_path joined_path
    ends_in_slash find starts_with bytes_eq
file_found = refl

way_out_refused : respond one_file served (asking (codes "/f/../x")) ≡ not_found
unfolding respond find_route find_static serve_static resolved_for resolve_path joined_path
    ends_in_slash find starts_with bytes_eq
way_out_refused = refl

no_name : one_file.is_regular [] ≡ false
unfolding bytes_eq
no_name = refl

no_route : find_route (codes "GET") (codes "/f/a.txt") served.routes ≡ none
unfolding find_route serve_static
no_route = refl

respond-IsFileOf_example :
    (respond one_file served (asking (codes "/f/a.txt")) ≡ not_found)
    ⊎ Among
        (IsFileOf one_file (codes "/f/a.txt") (respond one_file served (asking (codes "/f/a.txt"))))
        (reverse served.static_prefixes)
respond-IsFileOf_example =
    respond-IsFileOf one_file served (asking (codes "/f/a.txt")) no_name no_route

abbrev tea : Response
tea = plain (codes "tea") (response 200 [])

tea_size : length (serialize tea) ≡ 67
unfolding serialize status_line status_text write_headers sent_headers plain set_content response
    insert bytes_eq bytes_lt decimal decimal_on
tea_size = refl

send-written_all_example :
    (let t = (send 7 reset tea empty_server).0 in
      ((written_all 7 (60 ∷ []) t).1 ≡ [])
      × ((written_all 7 ((60 ∷ []) ++ (50 ∷ [])) t).1 ≡ closed 7 ∷ deleted 7 ∷ [])
      × ((written_all 7 ((60 ∷ []) ++ (50 ∷ [])) t).0.socket_states 7 ≡ none))
send-written_all_example =
    send-written_all 7 50 (60 ∷ []) reset tea empty_server (omega (arith, tea_size))
      (omega (arith, tea_size))

-- A second response goes out before the first is written: reports for the first close the socket.
closed_early :
    (written_all 7 (40 ∷ 40 ∷ []) (send 7 reset tea (send 7 reset tea empty_server).0).0).1
    ≡ closed 7 ∷ deleted 7 ∷ []
unfolding written_all send on_bytes_written close_socket serialize status_line status_text
    write_headers sent_headers plain set_content response insert bytes_eq bytes_lt decimal
    decimal_on
closed_early = refl
