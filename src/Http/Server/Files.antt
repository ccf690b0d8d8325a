-- ===== src/Http/Server/Files.antt =====
-- Which files the server gives out.
use simply_node_framework.Prelude.{
  ℕ, List, [], Bool-cases, Option-cases, false, inl, inr, length, refl, some, sym, take, true, ◌≡◌,
  ◌⊎◌, ap, arith, by_test, drop, none, ◌&&◌, ◌∷◌,
}
use simply_node_framework.Prelude.Bytes.{codes, find, bytes_eq, bytes_eq_iff}
use simply_node_framework.Http.Server.{
  FileSystem, StaticPrefix, file_response, is_found, is_nil, joined_path, resolve_path, Server,
  find_route, find_static, index_html, resolved_for, respond,
}
use simply_node_framework.Http.Response.{Response, not_found}
use mathlib.Core.List.{reverse}
use mathlib.Core.Path.{subst}
use simply_node_framework.Http.Request.{Request}

-- The canonical path of a file that lies in the canonical folder of a prefix: the way from the one to
-- the other is not empty and has no two dots.
abbrev pub LiesIn : FileSystem → List ℕ → StaticPrefix → Type 0
LiesIn fs name p =
    (base : List ℕ) × (rel : List ℕ) × (fs.canonical p.fs_path ≡ some base)
    × (fs.relative name base ≡ some rel)
    × (is_nil rel ≡ false)
    × (is_found (find (codes "..") rel) ≡ false)

-- A response that is the content of a regular file in the folder of a prefix that the path begins with.
abbrev pub IsFileOf : FileSystem → List ℕ → Response → StaticPrefix → Type 0
IsFileOf fs path r p =
    (name : List ℕ) × (r ≡ file_response fs name)
    × (take (length p.url_prefix) path ≡ p.url_prefix)
    × (fs.is_regular name ≡ true)
    × LiesIn fs name p

resolve_path-LiesIn :
    (fs : FileSystem) (p : StaticPrefix) (path : List ℕ)
    → LiesIn fs (resolve_path fs p.fs_path path) p ⊎ (resolve_path fs p.fs_path path ≡ [])
unfolding resolve_path
resolve_path-LiesIn fs p path = elim (Option-cases (fs.canonical (joined_path p.fs_path path))) [
  | inl unknown ↦ inr (rw (resolve_path, unknown) refl)
  | inr (resolved, e1) ↦ elim (Option-cases (fs.canonical p.fs_path)) [
    | inl no_base ↦ inr (rw (resolve_path, e1, no_base) refl)
    | inr (base, e2) ↦ elim (Option-cases (fs.relative resolved base)) [
      | inl apart ↦ inr (rw (resolve_path, e1, e2, apart) refl)
      | inr (rel, e3) ↦ elim (Bool-cases (is_nil rel)) [
        | inl empty ↦ inr (rw (resolve_path, e1, e2, e3, empty) refl)
        | inr full ↦ elim (Bool-cases (is_found (find (codes "..") rel))) [
          | inl dots ↦ inr (rw (resolve_path, e1, e2, e3, full, dots) refl)
          | inr inside ↦
              let here : resolve_path fs p.fs_path path ≡ resolved =
                rw (resolve_path, e1, e2, e3, full, inside) refl in
              inl (subst (λ n. LiesIn fs n p) (sym here) (base, rel, e2, e3, full, inside))
        ]
      ]
    ]
  ]
]

-- One of the prefixes has it.
abbrev pub Among : (StaticPrefix → Type 0) → List StaticPrefix → Type 0
Among P [] = ⊥
Among P (p ∷ ps) = P p ⊎ Among P ps

find_static-IsFileOf :
    (fs : FileSystem) (path : List ℕ) (ps : List StaticPrefix)
    → fs.is_regular [] ≡ false
    → (find_static fs path ps ≡ not_found) ⊎ Among (IsFileOf fs path (find_static fs path ps)) ps
unfolding find_static resolved_for
find_static-IsFileOf fs path [] nameless = inl refl
find_static-IsFileOf fs path (p ∷ ps) nameless =
    let name = resolved_for fs path p in
    let R : Response → Type 0 = λ r. (r ≡ not_found) ⊎ Among (IsFileOf fs path r) (p ∷ ps) in
    by_test R (bytes_eq (take (length p.url_prefix) path) p.url_prefix && fs.is_regular name)
      (file_response fs name) (find_static fs path ps)
      (λ found.
        let begins : bytes_eq (take (length p.url_prefix) path) p.url_prefix ≡ true =
          ground (arith, found) in
        let regular : fs.is_regular name ≡ true = ground (arith, found) in
        inr (
          inl (
            name,
            refl,
            (bytes_eq_iff _ _).0 begins,
            regular,
            elim (resolve_path-LiesIn fs p (index_html (drop (length p.url_prefix) path))) [
              | inl inside ↦ inside
              | inr empty ↦ absurd (ground (arith, regular, nameless, ap fs.is_regular empty))
            ],
          )))
      (λ other. elim (find_static-IsFileOf fs path ps nameless) [
        | inl missing ↦ inl missing
        | inr later ↦ inr (inr later)
      ])

-- Where no file has the empty path: a request that no route is for is answered by 404, or by the
-- content of a regular file in the folder of a prefix that the path begins with. The file's canonical
-- path lies in the canonical folder, with no two dots on the way.
pub respond-IsFileOf :
    (fs : FileSystem) (s : Server) (request : Request)
    → fs.is_regular [] ≡ false
    → find_route request.method request.path s.routes ≡ none
    → (respond fs s request ≡ not_found)
      ⊎ Among (IsFileOf fs request.path (respond fs s request)) (reverse s.static_prefixes)
unfolding respond
respond-IsFileOf fs s request nameless unrouted =
    let here : respond fs s request ≡ find_static fs request.path (reverse s.static_prefixes) =
      rw (respond, unrouted) refl in
    subst (λ r. (r ≡ not_found) ⊎ Among (IsFileOf fs request.path r) (reverse s.static_prefixes))
      (sym here) (find_static-IsFileOf fs request.path (reverse s.static_prefixes) nameless)
