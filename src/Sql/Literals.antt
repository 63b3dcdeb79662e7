-- ===== src/Sql/Literals.antt =====
-- src/sql.cpp: statements that differ only in their literals normalize to the same text.
pub mod Theorem
use pinpoint_cpp_agent.Common.{
  ℕ, zero, suc, ◌+◌, ◌-◌, ◌≡◌, ◌≢◌, ◌⊎◌, inl, inr, refl, sym, ap, ◌∙◌, Bool, true, false, not, ◌&&◌,
  ◌||◌, List, [], ◌∷◌, ◌++◌, arith, ◌==◌, if◌then◌else◌, length, All, is_digit, is_empty, Bytes,
  Bool-cases,
}
use pinpoint_cpp_agent.Sql.{
  look_ahead, read_comment, slash_star, star_slash, two_slashes, two_dashes, newline,
}
use pinpoint_cpp_agent.Sql.Normalize.{
  NormalizeResult, quote, emit, append_separator, append_char, append_index, string_body,
  string_literal, is_numeric, numeric_run, numeric_literal, opens_number, joins_number,
  update_enable, pass_comment, slash_step, dash_step, digit_step, plain_enable, step, scan,
  normalize, empty_result,
}

-- The same text and as many parameters.
abbrev pub Same : NormalizeResult → NormalizeResult → Type 0
Same r r' = (r.normalized_sql ≡ r'.normalized_sql) × (r.param_index ≡ r'.param_index)

-- The bytes between the quotes of a literal, behind the first: no quote, or quotes in pairs.
pub data Body : Bytes → Type 0 where
  nil : Body []
  char : {c : ℕ} {xs : Bytes} → c ≢ quote → Body xs → Body (c ∷ xs)
  pair : {xs : Bytes} → Body xs → Body (quote ∷ quote ∷ xs)

-- The byte `c` before `s` is copied: it begins no literal and no comment.
abbrev pub Copied : Bool → ℕ → Bytes → Type 0
Copied enable c s =
    (c ≢ quote)
    × ((is_digit c && enable) ≡ false)
    × ((c == b'/' && (look_ahead s == b'*' || look_ahead s == b'/')) ≡ false)
    × ((c == b'-' && look_ahead s == b'-') ≡ false)

-- `number_token_start_enable` after a copied byte
abbrev pub enable_after : Bool → ℕ → Bytes → Bool
enable_after enable c s = (step true c s enable empty_result).1

-- Two texts that differ only in their literals; `enable` says whether a digit would begin one.
pub data Alike : Bool → Bytes → Bytes → Type 0 where
  same_rest : (enable : Bool) (s : Bytes) → Alike enable s s
  number :
      (c d : ℕ) (xs ys s t : Bytes)
      → is_digit c ≡ true
      → is_digit d ≡ true
      → All (λ x. is_numeric x ≡ true) xs
      → All (λ y. is_numeric y ≡ true) ys
      → is_numeric (look_ahead s) ≡ false
      → is_numeric (look_ahead t) ≡ false
      → Alike true s t
      → Alike true (c ∷ (xs ++ s)) (d ∷ (ys ++ t))
  text :
      (enable : Bool) (c d : ℕ) (xs ys s t : Bytes)
      → c ≢ quote
      → d ≢ quote
      → Body xs
      → Body ys
      → look_ahead s ≢ quote
      → look_ahead t ≢ quote
      → Alike enable s t
      → Alike enable (quote ∷ c ∷ (xs ++ quote ∷ s)) (quote ∷ d ∷ (ys ++ quote ∷ t))
  copied :
      (enable : Bool) (c : ℕ) (s t : Bytes)
      → Copied enable c s
      → Alike (enable_after enable c s) s t
      → Alike enable (c ∷ s) (c ∷ t)

pub scan_past :
    (remove : Bool) (xs s : Bytes) (enable : Bool) (r : NormalizeResult)
    → scan remove (length xs) (xs ++ s) enable r ≡ scan remove 0 s enable r
unfolding scan
scan_past remove [] s enable r = refl
scan_past remove (x ∷ xs) s enable r = scan_past remove xs s enable r

pub numeric_run_all :
    (xs s : Bytes)
    → All (λ x. is_numeric x ≡ true) xs
    → is_numeric (look_ahead s) ≡ false
    → numeric_run (xs ++ s) ≡ length xs
unfolding numeric_run
numeric_run_all [] [] h e = refl
numeric_run_all [] (c ∷ s) h e = rw e
numeric_run_all (x ∷ xs) s h e = rw h.0 (ap suc (numeric_run_all xs s h.1 e))

-- The parameters have no influence on the text and the index.
pub string_body-Same :
    (s : Bytes) (r r' : NormalizeResult)
    → Same r r'
    → ((string_body s r).0 ≡ (string_body s r').0) × Same (string_body s r).1 (string_body s r').1
unfolding string_body
string_body-Same [] r r' h = (refl, h)
string_body-Same (c ∷ []) r r' h = ground arith
string_body-Same (c ∷ d ∷ rest) r r' h = ground (
  arith,
  string_body-Same rest (record r { parameters = r.parameters ++ quote ∷ quote ∷ [] })
      (record r' { parameters = r'.parameters ++ quote ∷ quote ∷ [] }),
  string_body-Same (d ∷ rest) (append_char c r) (append_char c r'),
)

string_literal-Same :
    (s : Bytes) (r r' : NormalizeResult)
    → Same r r'
    → ((string_literal s r).0 ≡ (string_literal s r').0)
      × Same (string_literal s r).1 (string_literal s r').1
unfolding string_literal
string_literal-Same s r r' h = ground (
  arith,
  string_body-Same s (append_separator (emit (quote ∷ []) r))
      (append_separator (emit (quote ∷ []) r')),
)

pub numeric_literal-Same :
    (c d : ℕ) (s t : Bytes) (r r' : NormalizeResult)
    → Same r r'
    → Same (numeric_literal c s r).1 (numeric_literal d t r').1
unfolding numeric_literal
numeric_literal-Same c d s t r r' h = ground arith

numeric_literal-size :
    (c : ℕ) (s : Bytes) (r r' : NormalizeResult)
    → (numeric_literal c s r).0 ≡ (numeric_literal c s r').0
unfolding numeric_literal
numeric_literal-size c s r r' = refl

-- What two rounds of the loop agree on.
abbrev pub Agree : ℕ × Bool × NormalizeResult → ℕ × Bool × NormalizeResult → Type 0
Agree a b = (a.0 ≡ b.0) × (a.1 ≡ b.1) × Same a.2 b.2

-- A test that both rounds make keeps the agreement of the branches.
Agree-if :
    (b : Bool) (x y x' y' : ℕ × Bool × NormalizeResult)
    → Agree x x'
    → Agree y y'
    → Agree (if b then x else y) (if b then x' else y')
Agree-if true x y x' y' h k = h
Agree-if false x y x' y' h k = k

copy-Same :
    (c : ℕ) (e : Bool) (r r' : NormalizeResult)
    → Same r r'
    → Agree (0, e, emit (c ∷ []) r) (0, e, emit (c ∷ []) r')
copy-Same c e r r' h = (refl, refl, (cc, h.1))

pass_comment-Same :
    (remove : Bool) (s first end_ : Bytes) (enable : Bool) (r r' : NormalizeResult)
    → Same r r'
    → Agree (pass_comment remove s first end_ enable r) (pass_comment remove s first end_ enable r')
pass_comment-Same true s first end_ enable r r' h = (refl, refl, h)
pass_comment-Same false s first end_ enable r r' h = (refl, refl, (cc, h.1))

slash_step-Same :
    (remove : Bool) (s : Bytes) (enable : Bool) (r r' : NormalizeResult)
    → Same r r'
    → Agree (slash_step remove s enable r) (slash_step remove s enable r')
unfolding slash_step
slash_step-Same remove s enable r r' h =
    Agree-if (look_ahead s == b'*') _ _ _ _
      (pass_comment-Same remove (b'/' ∷ s) slash_star star_slash enable r r' h)
      (Agree-if (look_ahead s == b'/') _ _ _ _
        (pass_comment-Same remove (b'/' ∷ s) two_slashes newline enable r r' h)
        (copy-Same b'/' true r r' h))

dash_step-Same :
    (remove : Bool) (s : Bytes) (enable : Bool) (r r' : NormalizeResult)
    → Same r r'
    → Agree (dash_step remove s enable r) (dash_step remove s enable r')
unfolding dash_step
dash_step-Same remove s enable r r' h =
    Agree-if (look_ahead s == b'-') _ _ _ _
      (pass_comment-Same remove (b'-' ∷ s) two_dashes newline enable r r' h)
      (copy-Same b'-' true r r' h)

digit_step-Same :
    (c : ℕ) (s : Bytes) (enable : Bool) (r r' : NormalizeResult)
    → Same r r'
    → Agree (digit_step c s enable r) (digit_step c s enable r')
unfolding digit_step
digit_step-Same c s enable r r' h =
    Agree-if enable _ _ _ _
      (numeric_literal-size c s r r', refl, numeric_literal-Same c c s s r r' h)
      (copy-Same c enable r r' h)

pub step-Same :
    (remove : Bool) (c : ℕ) (s : Bytes) (enable : Bool) (r r' : NormalizeResult)
    → Same r r'
    → Agree (step remove c s enable r) (step remove c s enable r')
unfolding step
step-Same remove c s enable r r' h =
    let (k, same) = string_literal-Same s r r' h in
    Agree-if (c == b'/') _ _ _ _ (slash_step-Same remove s enable r r' h) (
      Agree-if (c == b'-') _ _ _ _ (dash_step-Same remove s enable r r' h) (
        Agree-if (c == quote) _ _ _ _ (k, refl, same)
          (Agree-if (is_digit c) _ _ _ _ (digit_step-Same c s enable r r' h)
            (copy-Same c (plain_enable c (look_ahead s) enable) r r' h))))
