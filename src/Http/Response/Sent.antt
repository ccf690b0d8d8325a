-- ===== src/Http/Response/Sent.antt =====
-- What HttpResponse.cpp sends.
use simply_node_framework.Prelude.{
  ℕ, List, Option, ap, false, if◌then◌else◌, length, none, some, ◌<◌, ◌^◌, ◌∙◌, ◌≡◌, refl, true,
  All, All-append, [], arith, by_test, ◌++◌, ◌==◌, ◌∷◌,
}
use simply_node_framework.Prelude.Bytes.{bytes_eq, codes}
use simply_node_framework.Prelude.Decimal.{decimal, stoul-decimal, IsDecimal, decimal-IsDecimal}
use simply_node_framework.Prelude.Chars.Pieces.{Fails, all_fail, all_fail→Fails}
use simply_node_framework.Http.Request.{StringMap}
use simply_node_framework.Http.Response.Read.{IsField, Message, read_message, read_message-written}
use simply_node_framework.Prelude.Maps.{lookup, lookup-insert, bytes_lt, insert}
use simply_node_framework.Http.RequestParser.{parse_content_length}
use simply_node_framework.Http.Response.{
  Response, content_length_key, sent_headers, serialize, status_line, status_text,
}

abbrev pub announced : Option (List ℕ) → ℕ
announced none = 0
announced (some text) = parse_content_length text

parse_content_length-decimal : (n : ℕ) → n < 2 ^ 64 → parse_content_length (decimal n) ≡ n
unfolding parse_content_length
parse_content_length-decimal n h = ap (λ o. elim o [ none ↦ 0 | some m ↦ m ]) (stoul-decimal n h)

same_key : bytes_eq content_length_key content_length_key ≡ true
unfolding bytes_eq
same_key = refl

IsField-insert :
    (name v : List ℕ) (m : StringMap)
    → IsField (name, v)
    → All IsField m
    → All IsField (insert name v m)
unfolding insert
IsField-insert name v [] f fs = (f, tt)
IsField-insert name v ((j, w) ∷ m) f (g, gs) =
    by_test (All IsField) (bytes_eq j name) ((name, v) ∷ m)
      (if bytes_lt name j then (name, v) ∷ (j, w) ∷ m else (j, w) ∷ insert name v m) (λ _. (f, gs))
      (λ _.
        by_test (All IsField) (bytes_lt name j) ((name, v) ∷ (j, w) ∷ m) ((j, w) ∷ insert name v m)
          (λ _. (f, (g, gs))) (λ _. (g, IsField-insert name v m f gs)))

abbrev HasNoReturn : List ℕ → Type 0
HasNoReturn s = Fails (λ c. c == 13) s

digits-HasNoReturn : (s : List ℕ) → IsDecimal s → HasNoReturn s
digits-HasNoReturn [] h = tt
digits-HasNoReturn (c ∷ s) (h, hs) = (ground (arith, h), digits-HasNoReturn s hs)

known : (s : List ℕ) → all_fail (λ c. c == 13) s ≡ true → HasNoReturn s
known s e = all_fail→Fails (λ c. c == 13) s e

status_text-HasNoReturn : (code : ℕ) → HasNoReturn (status_text code)
unfolding status_text
status_text-HasNoReturn code = known (status_text code) (ground arith)

-- The status line without its end.
abbrev pub start_of : Response → List ℕ
start_of r = codes "HTTP/1.1 " ++ decimal r.status_code ++ codes " " ++ status_text r.status_code

start_of-HasNoReturn : (r : Response) → HasNoReturn (start_of r)
start_of-HasNoReturn r =
    let none_in : ℕ → Type 0 = λ c. (c == 13) ≡ false in
    All-append none_in (codes "HTTP/1.1 " ++ decimal r.status_code ++ codes " ")
      (status_text r.status_code)
      (All-append none_in (codes "HTTP/1.1 " ++ decimal r.status_code) (codes " ")
        (All-append none_in (codes "HTTP/1.1 ") (decimal r.status_code)
          (known (codes "HTTP/1.1 ") refl)
          (digits-HasNoReturn (decimal r.status_code) (decimal-IsDecimal r.status_code)))
        (refl, tt))
      (status_text-HasNoReturn r.status_code)

serialize-read :
    (r : Response)
    → All IsField r.headers
    → read_message (serialize r)
      ≡ some (record { start_line = start_of r; fields = sent_headers r; content = r.body })
unfolding serialize status_line sent_headers
serialize-read r fields =
    let size = decimal (length r.body) in
    read_message-written (start_of r) (insert content_length_key size r.headers) r.body
      (start_of-HasNoReturn r)
      (IsField-insert content_length_key size r.headers
        (
          known content_length_key refl,
          all_fail→Fails (λ c. c == b':') content_length_key refl,
          digits-HasNoReturn size (decimal-IsDecimal (length r.body)),
        )
        fields)

sent_headers-lookup :
    (r : Response) (key : List ℕ)
    → lookup key (sent_headers r) ≡ (
        if bytes_eq content_length_key key
        then some (decimal (length r.body))
        else lookup key r.headers)
unfolding sent_headers
sent_headers-lookup r key = lookup-insert content_length_key key (decimal (length r.body)) r.headers

-- The text that `serialize` gives is read, as a message of HTTP, to the status line, the fields and the
-- body of the response: the length that the fields announce reads back as the size of the body, and
-- each field is the one that was given, save for a Content-Length that was given. The response has
-- headers without carriage returns and names without colons, and a body of less than 2 ^ 64 bytes.
pub serialize-read_message :
    (r : Response) (key : List ℕ)
    → All IsField r.headers
    → length r.body < 2 ^ 64
    → (m : Message) × (read_message (serialize r) ≡ some m)
      × (m.start_line ≡ start_of r)
      × (m.content ≡ r.body)
      × (announced (lookup content_length_key m.fields) ≡ length r.body)
      × (lookup key m.fields ≡ (
          if bytes_eq content_length_key key
          then some (decimal (length r.body))
          else lookup key r.headers))
serialize-read_message r key fields h = (
  record { start_line = start_of r; fields = sent_headers r; content = r.body },
  serialize-read r fields,
  refl,
  refl,
  ap announced (sent_headers-lookup r content_length_key)
      ∙ ap
          (λ b.
            announced
              (if b then some (decimal (length r.body)) else lookup content_length_key r.headers))
          same_key
      ∙ parse_content_length-decimal (length r.body) h,
  sent_headers-lookup r key,
)
