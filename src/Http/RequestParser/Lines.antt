-- ===== src/Http/RequestParser/Lines.antt =====
-- Where HttpRequestParser.cpp cuts its lines.
use simply_node_framework.Prelude.{
  ℕ, List, [], arith, length, some, suc, zero, ◌++◌, ◌+◌, ◌∷◌, ◌≡◌, ◌≤◌,
}
use simply_node_framework.Prelude.Bytes.{find, starts_with}
use simply_node_framework.Http.RequestParser.{crlf}

-- A line end that is found lies in the buffer, with both its bytes.
pub find-crlf-le : (s : List ℕ) (i : ℕ) → find crlf s ≡ some i → i + 2 ≤ length s
unfolding find starts_with
find-crlf-le [] i e = cc
find-crlf-le (c ∷ []) i e = ground arith
find-crlf-le (c ∷ d ∷ s) zero e = omega arith
find-crlf-le (c ∷ d ∷ s) (suc i) e = ground (arith, find-crlf-le (d ∷ s) i)

-- And is found at the same place when more bytes have come.
pub find-crlf-append : (s t : List ℕ) (i : ℕ) → find crlf s ≡ some i → find crlf (s ++ t) ≡ some i
unfolding find starts_with
find-crlf-append [] t i e = cc
find-crlf-append (c ∷ []) t i e = ground arith
find-crlf-append (c ∷ d ∷ s) t zero e = ground arith
find-crlf-append (c ∷ d ∷ s) t (suc i) e = ground (arith, find-crlf-append (d ∷ s) t i)
