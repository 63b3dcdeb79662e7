-- ===== src/Http/Proxy/Fields.antt =====
-- Fields that are written to a proxy header are read back.
use pinpoint_cpp_agent.Common.{
  ℕ, zero, suc, ◌≤◌, ◌≡◌, refl, ap, ◌∙◌, true, false, not, some, List, [], ◌∷◌, ◌++◌, arith, length,
  length-append, Bytes, codes, bytes_eq, bytes_eq_iff, if◌then◌else◌, Bool-cases, inl, inr, All,
  NoneOf, find_if-none, find_if-append, take-append, drop-past, drop-append,
}
use pinpoint_cpp_agent.Sql.{look_ahead}
use pinpoint_cpp_agent.Http.Proxy.{
  ProxyHeaderValues, no_values, set_value, is_space, is_equals, value_step, field_step, parse_step,
  parse_loop, parse_proxy_header,
}
use pinpoint_cpp_agent.Http.Proxy.Parse.{no_step}

-- A field, and a header of fields.
abbrev pub Field : Type 0
Field = Bytes × Bytes

abbrev pub print_fields : List Field → Bytes
print_fields [] = []
print_fields (f ∷ []) = f.0 ++ b'=' ∷ f.1
print_fields (f ∷ g ∷ fs) = f.0 ++ b'=' ∷ (f.1 ++ b' ' ∷ print_fields (g ∷ fs))

abbrev set_values : List Field → ProxyHeaderValues → ProxyHeaderValues
set_values [] result = result
set_values (f ∷ fs) result = set_values fs (set_value f.0 f.1 result)

-- A key does not begin with a space and has no `=`; a value has no space.
abbrev pub Plain : Field → Type 0
Plain f = (is_space (look_ahead f.0) ≡ false) × NoneOf is_equals f.0 × NoneOf is_space f.1

-- With a space in front of a key or none, the field is read.
step_at :
    (c : ℕ) (text : Bytes) (result : ProxyHeaderValues)
    → is_space c ≡ false
    → (parse_step (c ∷ text) result ≡ field_step (c ∷ text) result)
      × (parse_step (b' ' ∷ c ∷ text) result ≡ field_step (c ∷ text) result)
unfolding parse_step
step_at c text result e =
    let plain : not (is_space c) ≡ true = ground arith in
    let here = find_if-append (λ d. not (is_space d)) [] text c tt plain in
    let behind = find_if-append (λ d. not (is_space d)) (b' ' ∷ []) text c (refl, tt) plain in
    (cc, cc)

parse_step-field :
    (f : Field) (rest : Bytes) (result : ProxyHeaderValues)
    → Plain f
    → (parse_step (f.0 ++ b'=' ∷ rest) result ≡ some (value_step f.0 rest result))
      × (parse_step (b' ' ∷ (f.0 ++ b'=' ∷ rest)) result ≡ some (value_step f.0 rest result))
unfolding field_step
parse_step-field (key, val) rest result h =
    let found = find_if-append is_equals key rest b'=' h.1 refl in
    let read : field_step (key ++ b'=' ∷ rest) result ≡ some (value_step key rest result) =
      cc (found, take-append key (b'=' ∷ rest), drop-past key rest b'=') in
    at key h.0 read
  where
    at :
        (k : Bytes)
        → is_space (look_ahead k) ≡ false
        → field_step (k ++ b'=' ∷ rest) result ≡ some (value_step key rest result)
        → (parse_step (k ++ b'=' ∷ rest) result ≡ some (value_step key rest result))
          × (parse_step (b' ' ∷ (k ++ b'=' ∷ rest)) result ≡ some (value_step key rest result))
    at [] e read =
        let (here, behind) = step_at b'=' rest result refl in (here ∙ read, behind ∙ read)
    at (c ∷ k) e read =
        let (here, behind) = step_at c (k ++ b'=' ∷ rest) result e in (here ∙ read, behind ∙ read)

value_step-last :
    (key val : Bytes) (result : ProxyHeaderValues)
    → NoneOf is_space val
    → value_step key val result ≡ ([], set_value key val result)
unfolding value_step
value_step-last key val result h = cc (find_if-none is_space val h)

value_step-next :
    (key val rest : Bytes) (result : ProxyHeaderValues)
    → NoneOf is_space val
    → value_step key (val ++ b' ' ∷ rest) result ≡ (b' ' ∷ rest, set_value key val result)
unfolding value_step
value_step-next key val rest result h = cc (
  find_if-append is_space val rest b' ' h refl,
  take-append val (b' ' ∷ rest),
  drop-append val (b' ' ∷ rest),
)

parse_loop_at_end : (n : ℕ) (result : ProxyHeaderValues) → parse_loop n [] result ≡ result
unfolding parse_loop
parse_loop_at_end zero result = refl
parse_loop_at_end (suc n) result = let e = no_step result in cc

parse_loop_round :
    (n : ℕ) (value : Bytes) (result : ProxyHeaderValues) (next : Bytes × ProxyHeaderValues)
    → parse_step value result ≡ some next
    → parse_loop (suc n) value result ≡ parse_loop n next.0 next.1
unfolding parse_loop
parse_loop_round n value result next e = cc

parse_loop-print_fields :
    (n : ℕ) (f : Field) (fs : List Field) (result : ProxyHeaderValues)
    → All Plain (f ∷ fs)
    → length (print_fields (f ∷ fs)) ≤ n
    → (parse_loop n (print_fields (f ∷ fs)) result ≡ set_values (f ∷ fs) result)
      × (parse_loop n (b' ' ∷ print_fields (f ∷ fs)) result ≡ set_values (f ∷ fs) result)
parse_loop-print_fields zero f [] result h k =
    absurd (omega (arith, length-append f.0 (b'=' ∷ f.1)))
parse_loop-print_fields zero f (g ∷ fs) result h k =
    absurd (omega (arith, length-append f.0 (b'=' ∷ (f.1 ++ b' ' ∷ print_fields (g ∷ fs)))))
parse_loop-print_fields (suc n) f [] result h k =
    let (here, behind) = parse_step-field f f.1 result h.0 in
    let last = value_step-last f.0 f.1 result h.0.2 in
    let ended = parse_loop_at_end n (set_value f.0 f.1 result) in
    (
      parse_loop_round n _ result _ (here ∙ ap some last) ∙ ended,
      parse_loop_round n _ result _ (behind ∙ ap some last) ∙ ended,
    )
parse_loop-print_fields (suc n) f (g ∷ fs) result h k =
    let rest = print_fields (g ∷ fs) in
    let (here, behind) = parse_step-field f (f.1 ++ b' ' ∷ rest) result h.0 in
    let read = value_step-next f.0 f.1 rest result h.0.2 in
    let (_, go) = parse_loop-print_fields n g fs (set_value f.0 f.1 result) h.1 (
      omega (
        arith,
        length-append f.0 (b'=' ∷ (f.1 ++ b' ' ∷ rest)),
        length-append f.1 (b' ' ∷ rest),
      )) in
    (
      parse_loop_round n _ result _ (here ∙ ap some read) ∙ go,
      parse_loop_round n _ result _ (behind ∙ ap some read) ∙ go,
    )

-- The last value that the fields give a key, or else the one from before.
abbrev pub latest : Bytes → Bytes → List Field → Bytes
latest key val [] = val
latest key val (f ∷ fs) = latest key (if bytes_eq f.0 key then f.1 else val) fs

-- The value of each of the five keys, and of no other, where it belongs.
abbrev pub values_of : List Field → ProxyHeaderValues → ProxyHeaderValues
values_of fs result = record {
  t_val = latest (codes "t") result.t_val fs;
  d_val = latest (codes "D") result.d_val fs;
  i_val = latest (codes "i") result.i_val fs;
  b_val = latest (codes "b") result.b_val fs;
  app_val = latest (codes "app") result.app_val fs;
}

-- One field.
set_value-values_of :
    (key val : Bytes) (result : ProxyHeaderValues)
    → set_value key val result ≡ values_of ((key, val) ∷ []) result
unfolding set_value
set_value-values_of key val result = elim (Bool-cases (bytes_eq key (codes "t"))) [
  | inl e ↦ let same = (bytes_eq_iff key (codes "t")).0 e in rw same refl
  | inr t ↦ elim (Bool-cases (bytes_eq key (codes "D"))) [
    | inl e ↦ let same = (bytes_eq_iff key (codes "D")).0 e in rw same refl
    | inr d ↦ elim (Bool-cases (bytes_eq key (codes "i"))) [
      | inl e ↦ let same = (bytes_eq_iff key (codes "i")).0 e in rw same refl
      | inr i ↦ elim (Bool-cases (bytes_eq key (codes "b"))) [
        | inl e ↦ let same = (bytes_eq_iff key (codes "b")).0 e in rw same refl
        | inr b ↦ elim (Bool-cases (bytes_eq key (codes "app"))) [
          | inl e ↦ let same = (bytes_eq_iff key (codes "app")).0 e in rw same refl
          | inr app ↦ rw (t, d, i, b, app) refl
        ]
      ]
    ]
  ]
]

set_values-values_of :
    (fs : List Field) (result : ProxyHeaderValues) → set_values fs result ≡ values_of fs result
set_values-values_of [] result = refl
set_values-values_of (f ∷ fs) result =
    set_values-values_of fs (set_value f.0 f.1 result)
    ∙ ap (values_of fs) (set_value-values_of f.0 f.1 result)

-- A header of fields with spaces between them, whose keys have no `=` and do not begin with a
-- space and whose values have no space, is read back: each of the five values is the last one
-- that a field gives to the key `t`, `D`, `i`, `b` or `app`, and empty without such a field.
pub parse_proxy_header-print_fields :
    (fs : List Field) → All Plain fs → parse_proxy_header (print_fields fs) ≡ values_of fs no_values
unfolding parse_proxy_header
parse_proxy_header-print_fields [] h = parse_loop_at_end 0 no_values
parse_proxy_header-print_fields (f ∷ fs) h =
    (parse_loop-print_fields (length (print_fields (f ∷ fs))) f fs no_values h (omega arith)).0
    ∙ set_values-values_of (f ∷ fs) no_values
