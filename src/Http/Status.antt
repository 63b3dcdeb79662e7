-- ===== src/Http/Status.antt =====
-- src/http.h, src/http.cpp: `HttpStatusErrors`, `HttpMethodFilter` and `HttpHeaderRecorder`, with
-- `compare_string` of src/utility.cpp.
pub mod Methods
use pinpoint_cpp_agent.Common.{
  ℕ, ◌+◌, ◌-◌, Bool, true, false, not, ◌&&◌, Option, none, some, List, [], ◌∷◌, ◌++◌, leb, ◌==◌,
  if◌then◌else◌, length, any, is_empty, Bytes, codes,
}
use pinpoint_cpp_agent.Common.Int.{ℤ, pos, negsuc, ltb_ℤ, pos_part, neg_part}

-- `std::toupper` in the C locale
abbrev pub to_upper : ℕ → ℕ
to_upper c = if leb b'a' c && leb c b'z' then c - 32 else c

-- `std::equal` with `char_iequal`, on texts of one length
abbrev pub equal_upper : Bytes → Bytes → Bool
equal_upper [] t = true
equal_upper (c ∷ s) [] = false
equal_upper (c ∷ s) (d ∷ t) = (to_upper c == to_upper d) && equal_upper s t

unfoldable pub compare_string : Bytes → Bytes → Bool
compare_string str1 str2 = if not (length str1 == length str2) then false else equal_upper str1 str2

-- `HttpStatusCode` and the classes that derive from it.
pub data StatusCode : Type 0 where
  server_error : StatusCode
  client_error : StatusCode
  redirection : StatusCode
  success : StatusCode
  informational : StatusCode
  default : ℤ → StatusCode

abbrev pub in_range : ℕ → ℕ → ℤ → Bool
in_range low high code = not (ltb_ℤ code (pos low)) && not (ltb_ℤ (pos high) code)

abbrev pub eqb_ℤ : ℤ → ℤ → Bool
eqb_ℤ a b = (pos_part a == pos_part b) && (neg_part a == neg_part b)

abbrev pub is_error : StatusCode → ℤ → Bool
is_error server_error code = in_range 500 599 code
is_error client_error code = in_range 400 499 code
is_error redirection code = in_range 300 399 code
is_error success code = in_range 200 299 code
is_error informational code = in_range 100 199 code
is_error (default own) code = eqb_ℤ own code

-- What is pushed for one token; `stoi` is the library's.
unfoldable pub status_of : (Bytes → Option ℤ) → Bytes → List StatusCode
unfolding compare_string
status_of stoi token =
    if compare_string token (codes "5xx")
    then server_error ∷ []
    else if compare_string token (codes "4xx")
    then client_error ∷ []
    else if compare_string token (codes "3xx")
    then redirection ∷ []
    else if compare_string token (codes "2xx")
    then success ∷ []
    else if compare_string token (codes "1xx")
    then informational ∷ []
    else elim (stoi token) [ none ↦ [] | some code ↦ default code ∷ [] ]

unfoldable pub status_errors : (Bytes → Option ℤ) → List Bytes → List StatusCode
unfolding status_of
status_errors stoi [] = []
status_errors stoi (token ∷ tokens) = status_of stoi token ++ status_errors stoi tokens

unfoldable pub is_error_code : List StatusCode → ℤ → Bool
is_error_code errors status_code = any (λ code. is_error code status_code) errors

unfoldable pub is_method_filtered : List Bytes → Bytes → Bool
unfolding compare_string
is_method_filtered methods method = any (λ filtered. compare_string method filtered) methods

-- What the application's reader offers: `Get`, and the headers that `ForEach` goes through.
pub record Headers : Type 0 where
  pub get : Bytes → Option Bytes
  pub each : List (Bytes × Bytes)

pub record HeaderRecorder : Type 0 where
  pub anno_key : ℕ
  pub cfg : List Bytes
  pub dump_all_headers : Bool

abbrev pub first_is_all : List Bytes → Bool
first_is_all [] = false
first_is_all (name ∷ names) = is_empty names && compare_string name (codes "HEADERS-ALL")

unfoldable pub header_recorder : ℕ → List Bytes → HeaderRecorder
unfolding compare_string
header_recorder anno_key cfg = record {
  anno_key = anno_key;
  cfg = cfg;
  dump_all_headers = first_is_all cfg;
}

abbrev pub record_all : ℕ → List (Bytes × Bytes) → List (ℕ × Bytes × Bytes)
record_all anno_key [] = []
record_all anno_key (h ∷ each) = (anno_key, h.0, h.1) ∷ record_all anno_key each

abbrev pub record_named : ℕ → (Bytes → Option Bytes) → List Bytes → List (ℕ × Bytes × Bytes)
record_named anno_key get [] = []
record_named anno_key get (name ∷ names) =
    let rest = record_named anno_key get names in
    elim (get name) [ none ↦ rest | some v ↦ (anno_key, name, v) ∷ rest ]

-- What is appended to the annotation.
unfoldable pub record_header : HeaderRecorder → Headers → List (ℕ × Bytes × Bytes)
record_header r header =
    if is_empty r.cfg
    then []
    else if r.dump_all_headers
    then record_all r.anno_key header.each
    else record_named r.anno_key header.get r.cfg
