-- ===== src/Http/Address.antt =====
-- src/http.cpp: `extractFirstIp` and `HttpTracerUtil::getRemoteAddr`.
pub mod Trim
pub mod Remote
use pinpoint_cpp_agent.Common.{
  ℕ, suc, ◌+◌, ◌-◌, Bool, true, false, not, ◌||◌, Option, none, some, [], ◌∷◌, ◌==◌, if◌then◌else◌,
  take, drop, is_empty, Bytes, codes, find_if, find_last_if,
}
use pinpoint_cpp_agent.Sql.{look_ahead}

-- `HeaderReader::Get`, which the application implements
abbrev pub HeaderReader : Type 0
HeaderReader = Bytes → Option Bytes

abbrev pub is_blank : ℕ → Bool
is_blank c = (c == b' ') || (c == b'\t')

abbrev pub is_comma : ℕ → Bool
is_comma c = c == b','

abbrev pub is_colon : ℕ → Bool
is_colon c = c == b':'

abbrev pub is_bracket_end : ℕ → Bool
is_bracket_end c = c == b']'

-- `first_ip` without the blanks around it
unfoldable pub trim : Bytes → Bytes
trim first_ip = elim (find_if (λ c. not (is_blank c)) first_ip) [
  | none ↦ []
  | some start ↦ elim (find_last_if (λ c. not (is_blank c)) first_ip) [
    | none ↦ []
    | some end_ ↦ take (end_ - start + 1) (drop start first_ip)
  ]
]

unfoldable pub extract_first_ip : Bytes → Bytes
unfolding trim
extract_first_ip value = if is_empty value then [] else elim (find_if is_comma value) [
  | some comma_pos ↦ trim (take comma_pos value)
  | none ↦ trim value
]

-- a header with an address in it
abbrev pub header_ip : Option Bytes → Option Bytes
header_ip none = none
header_ip (some value) = let ip = extract_first_ip value in if is_empty ip then none else some ip

-- without the port
unfoldable pub host_of : Bytes → Bytes
host_of addr = elim (find_last_if is_colon addr) [
  | none ↦ addr
  | some colon_pos ↦ elim (find_if is_colon addr) [
    | none ↦ addr
    | some first_colon ↦ if first_colon == colon_pos then take colon_pos addr else addr
  ]
]

unfoldable pub direct_addr : Bytes → Bytes
unfolding host_of
direct_addr [] = host_of []
direct_addr (c ∷ s) =
    if c == b'['
    then elim (find_if is_bracket_end (c ∷ s)) [
      | some bracket_end ↦ take (bracket_end + 1) (c ∷ s)
      | none ↦ host_of (c ∷ s)
    ]
    else host_of (c ∷ s)

unfoldable pub get_remote_addr : HeaderReader → Bytes → Bytes
unfolding extract_first_ip direct_addr
get_remote_addr get remote_addr = elim (header_ip (get (codes "X-Forwarded-For"))) [
  | some ip ↦ ip
  | none ↦ elim (header_ip (get (codes "X-Real-Ip"))) [
    | some ip ↦ ip
    | none ↦ direct_addr remote_addr
  ]
]
