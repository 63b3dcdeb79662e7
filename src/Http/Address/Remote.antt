-- ===== src/Http/Address/Remote.antt =====
-- Which address `getRemoteAddr` reports.
use pinpoint_cpp_agent.Common.{
  ℕ, ◌+◌, ◌≡◌, ◌≢◌, refl, ◌∙◌, Bool, true, false, ◌&&◌, Option, none, some, [], ◌∷◌, ◌++◌, arith,
  ◌==◌, any, length, length-append, is_empty, Bytes, All-append, codes, find_if, NoneOf,
  find_if-none, find_if-append, find_last_if-none, find_last_if-append, take-append, append_assoc,
  append-nil, Bool-cases, inl, inr,
}
use pinpoint_cpp_agent.Sql.{look_ahead}
use pinpoint_cpp_agent.Http.Address.{
  HeaderReader, is_comma, is_colon, is_bracket_end, trim, extract_first_ip, host_of, direct_addr,
  get_remote_addr,
}
use pinpoint_cpp_agent.Http.Address.Trim.{Blank, Trimmed, single, ends, trim-Trimmed}

-- What stands behind the first entry of a list: nothing, or a comma and the others.
abbrev pub others : Option Bytes → Bytes
others none = []
others (some list) = b',' ∷ list

Blank-no_comma : (s : Bytes) → Blank s → NoneOf is_comma s
Blank-no_comma [] h = tt
Blank-no_comma (c ∷ s) h = (ground arith, Blank-no_comma s h.1)

extract_first_ip-alone : (s : Bytes) → NoneOf is_comma s → s ≢ [] → extract_first_ip s ≡ trim s
unfolding extract_first_ip
extract_first_ip-alone [] h n = absurd (n refl)
extract_first_ip-alone (c ∷ s) h n = rw (find_if-none is_comma (c ∷ s) h) refl

extract_first_ip-list :
    (s list : Bytes) → NoneOf is_comma s → extract_first_ip (s ++ b',' ∷ list) ≡ trim s
unfolding extract_first_ip find_if
extract_first_ip-list [] list h = refl
extract_first_ip-list (c ∷ s) list h =
    cc (find_if-append is_comma (c ∷ s) list b',' h refl, take-append (c ∷ s) (b',' ∷ list))

not_empty : (lead ip trail : Bytes) → Trimmed ip → (lead ++ (ip ++ trail)) ≢ []
not_empty [] ip trail (single n) e = cc
not_empty [] ip trail (ends d mid n m) e = cc
not_empty (c ∷ lead) ip trail t e = cc

Trimmed-not_empty : (ip : Bytes) → Trimmed ip → is_empty ip ≡ false
Trimmed-not_empty ip (single n) = refl
Trimmed-not_empty ip (ends d mid n m) = refl

pub first_entry :
    (lead ip trail : Bytes) (more : Option Bytes)
    → Blank lead
    → Blank trail
    → Trimmed ip
    → NoneOf is_comma ip
    → extract_first_ip ((lead ++ (ip ++ trail)) ++ others more) ≡ ip
first_entry lead ip trail none hl ht t n =
    let plain : NoneOf is_comma (lead ++ (ip ++ trail)) =
      All-append (λ c. is_comma c ≡ false) lead (ip ++ trail) (Blank-no_comma lead hl)
        (All-append (λ c. is_comma c ≡ false) ip trail n (Blank-no_comma trail ht)) in
    cc (
      append-nil (lead ++ (ip ++ trail)),
      extract_first_ip-alone (lead ++ (ip ++ trail)) plain (not_empty lead ip trail t),
      trim-Trimmed lead ip trail hl ht t,
    )
first_entry lead ip trail (some list) hl ht t n =
    let plain : NoneOf is_comma (lead ++ (ip ++ trail)) =
      All-append (λ c. is_comma c ≡ false) lead (ip ++ trail) (Blank-no_comma lead hl)
        (All-append (λ c. is_comma c ≡ false) ip trail n (Blank-no_comma trail ht)) in
    extract_first_ip-list (lead ++ (ip ++ trail)) list plain ∙ trim-Trimmed lead ip trail hl ht t

-- If the header X-Forwarded-For is sent, and its first entry, up to a comma or the end and
-- without the blanks around it, is not empty, then that entry is the remote address, whatever
-- the other header and the address of the connection are.
pub get_remote_addr-forwarded :
    (get : HeaderReader) (remote_addr lead ip trail : Bytes) (more : Option Bytes)
    → get (codes "X-Forwarded-For") ≡ some ((lead ++ (ip ++ trail)) ++ others more)
    → Blank lead
    → Blank trail
    → Trimmed ip
    → NoneOf is_comma ip
    → get_remote_addr get remote_addr ≡ ip
unfolding get_remote_addr
get_remote_addr-forwarded get remote_addr lead ip trail more h hl ht t n =
    rw (get_remote_addr, h, first_entry lead ip trail more hl ht t n, Trimmed-not_empty ip t) refl

-- `[` first, and a `]` somewhere
abbrev pub bracketed : Bytes → Bool
bracketed addr = (look_ahead addr == b'[') && any is_bracket_end addr

-- The address without its port.
pub data Host : Bytes → Bytes → Type 0 where
  no_port : {host : Bytes} → bracketed host ≡ false → NoneOf is_colon host → Host host host
  port :
      {host : Bytes} (number : Bytes)
      → bracketed (host ++ b':' ∷ number) ≡ false
      → NoneOf is_colon host
      → NoneOf is_colon number
      → Host (host ++ b':' ∷ number) host
  bare_v6 :
      (a b c : Bytes)
      → bracketed (a ++ b':' ∷ (b ++ b':' ∷ c)) ≡ false
      → NoneOf is_colon a
      → NoneOf is_colon c
      → Host (a ++ b':' ∷ (b ++ b':' ∷ c)) (a ++ b':' ∷ (b ++ b':' ∷ c))
  v6 :
      (host rest : Bytes)
      → NoneOf is_bracket_end host
      → Host (b'[' ∷ (host ++ b']' ∷ rest)) (b'[' ∷ (host ++ b']' ∷ []))

any-false : (s : Bytes) → any is_bracket_end s ≡ false → NoneOf is_bracket_end s
any-false [] h = tt
any-false (c ∷ s) h = (ground arith, any-false s (ground arith))

direct_addr-host_of : (addr : Bytes) → bracketed addr ≡ false → direct_addr addr ≡ host_of addr
unfolding direct_addr
direct_addr-host_of [] h = refl
direct_addr-host_of (c ∷ s) h = elim (Bool-cases (c == b'[')) [
  | inr n ↦ rw n refl
  | inl e ↦
      let none_there : any is_bracket_end (c ∷ s) ≡ false = ground arith in
      rw (e, find_if-none is_bracket_end (c ∷ s) (any-false (c ∷ s) none_there)) refl
]

same_index : (n : ℕ) → (n == n) ≡ true
same_index n = ground arith

direct_addr-Host : {addr host : Bytes} → Host addr host → direct_addr addr ≡ host
unfolding direct_addr host_of
direct_addr-Host (no_port {host} b n) =
    cc (direct_addr-host_of host b, find_last_if-none is_colon host n)
direct_addr-Host (port {host} number b n m) = cc (
  direct_addr-host_of (host ++ b':' ∷ number) b,
  find_last_if-append is_colon host number b':' m refl,
  find_if-append is_colon host number b':' n refl,
  same_index (length host),
  take-append host (b':' ∷ number),
)
direct_addr-Host (bare_v6 a b c h n m) =
    let last = find_last_if-append is_colon (a ++ b':' ∷ b) c b':' m refl in
    let whole = append_assoc a (b':' ∷ b) (b':' ∷ c) in
    let differ : (length a == length (a ++ b':' ∷ b)) ≡ false =
      ground (arith, length-append a (b':' ∷ b)) in
    cc (
      direct_addr-host_of (a ++ b':' ∷ (b ++ b':' ∷ c)) h,
      last,
      whole,
      differ,
      find_if-append is_colon a (b ++ b':' ∷ c) b':' n refl,
    )
direct_addr-Host (v6 host rest n) =
    let found = find_if-append is_bracket_end (b'[' ∷ host) rest b']' (refl, n) refl in
    let size : length (b'[' ∷ host) + 1 ≡ length (b'[' ∷ (host ++ b']' ∷ [])) =
      omega (arith, length-append host (b']' ∷ [])) in
    let whole = append_assoc (b'[' ∷ host) (b']' ∷ []) rest in
    cc (found, size, whole, take-append (b'[' ∷ (host ++ b']' ∷ [])) rest)

-- Without the two headers, the address of the connection is reported without its port: as it is
-- with no colon or with two, up to the only colon, and up to the bracket that closes an address
-- in brackets.
pub get_remote_addr-direct :
    (get : HeaderReader) (addr host : Bytes)
    → get (codes "X-Forwarded-For") ≡ none
    → get (codes "X-Real-Ip") ≡ none
    → Host addr host
    → get_remote_addr get addr ≡ host
unfolding get_remote_addr
get_remote_addr-direct get addr host h k d = rw (get_remote_addr, h, k) (direct_addr-Host d)
