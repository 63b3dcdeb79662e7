-- ===== src/UrlStat/Trim.antt =====
-- What `trim_url_path_view` keeps of a URL.
use mathlib.Core.Path.{subst}
use pinpoint_cpp_agent.Common.{
  ℕ, zero, suc, ◌+◌, ◌-◌, ◌≤◌, ◌<◌, ◌≡◌, ◌≢◌, ◌⊎◌, inl, inr, refl, sym, ap, Bool, true, false, [],
  ◌∷◌, ◌++◌, arith, ◌==◌, if◌then◌else◌, take, drop, Bytes, NoneOf, Bool-cases,
}
use pinpoint_cpp_agent.Common.Int.{ℤ, pos, negsuc}
use pinpoint_cpp_agent.Sql.{look_ahead}
use pinpoint_cpp_agent.UrlStat.{trim_from, at_least_one, trim_url_path_view}

abbrev pub is_question : ℕ → Bool
is_question c = c == b'?'

abbrev pub slash_count : ℕ → ℕ
slash_count c = if c == b'/' then 1 else 0

abbrev pub slashes : Bytes → ℕ
slashes [] = 0
slashes (c ∷ s) = slash_count c + slashes s

-- `path` ends with the slash that makes `depth`.
abbrev pub EndsAtSlash : ℕ → Bytes → Type 0
EndsAtSlash depth path =
    (front : Bytes) × (path ≡ front ++ b'/' ∷ []) × (suc (slashes front) ≡ depth)

-- `path`, kept in front of `rest`: it holds no `?`, and it ends at the slash that makes `depth`,
-- or else at the end or in front of a `?`, with fewer slashes.
abbrev pub Kept : ℕ → Bytes → Bytes → Bool → Type 0
Kept depth path rest wildcard =
    NoneOf is_question path
    × (wildcard ≡ true → EndsAtSlash depth path)
    × (wildcard ≡ false → (slashes path < depth) × ((rest ≡ []) ⊎ (look_ahead rest ≡ b'?')))

-- The four cases of one round.
at_question : (depth c : ℕ) (s : Bytes) → c ≡ b'?' → trim_from depth (c ∷ s) ≡ (0, false)
unfolding trim_from
at_question depth c s e = ground arith

at_last_slash : (c : ℕ) (s : Bytes) → c ≡ b'/' → trim_from 1 (c ∷ s) ≡ (1, true)
unfolding trim_from
at_last_slash c s e = ground arith

at_slash :
    (depth c : ℕ) (s : Bytes)
    → c ≡ b'/'
    → 1 ≤ depth
    → trim_from (suc depth) (c ∷ s) ≡ (suc (trim_from depth s).0, (trim_from depth s).1)
unfolding trim_from
at_slash depth c s e h =
    let less : suc depth - 1 ≡ depth = omega arith in
    let is_slash : (c == b'/') ≡ true = ground arith in
    let no_question : (c == b'?') ≡ false = ground arith in
    let not_zero : (depth == 0) ≡ false = ground arith in
    rw (is_slash, no_question, less, not_zero) refl

at_other :
    (depth c : ℕ) (s : Bytes)
    → c ≢ b'?'
    → c ≢ b'/'
    → trim_from depth (c ∷ s) ≡ (suc (trim_from depth s).0, (trim_from depth s).1)
unfolding trim_from
at_other depth c s n m =
    let is_slash : (c == b'/') ≡ false = ground arith in
    let no_question : (c == b'?') ≡ false = ground arith in rw (is_slash, no_question) refl

pub take-drop : (n : ℕ) (s : Bytes) → take n s ++ drop n s ≡ s
take-drop zero s = refl
take-drop (suc n) [] = refl
take-drop (suc n) (c ∷ s) = ap (◌∷◌ c) (take-drop n s)

-- What is kept, for a result of the loop.
abbrev Keeps : ℕ → Bytes → ℕ × Bool → Type 0
Keeps depth s cut = Kept depth (take cut.0 s) (drop cut.0 s) cut.1

more_slash :
    (depth c : ℕ) (s : Bytes) (cut : ℕ × Bool)
    → c ≡ b'/'
    → Keeps depth s cut
    → Keeps (suc depth) (c ∷ s) (suc cut.0, cut.1)
more_slash depth c s (n, w) e (free, reached, below) =
    let plain : is_question c ≡ false = ground arith in
    let one : slash_count c ≡ 1 = ground arith in
    (
      (plain, free),
      λ t.
          let (front, whole, count) = reached t in
          (c ∷ front, ap (λ p. c ∷ p) whole, omega (arith, one, count)),
      λ f. (omega (arith, one, (below f).0), (below f).1),
    )

more_other :
    (depth c : ℕ) (s : Bytes) (cut : ℕ × Bool)
    → c ≢ b'?'
    → c ≢ b'/'
    → Keeps depth s cut
    → Keeps depth (c ∷ s) (suc cut.0, cut.1)
more_other depth c s (n, w) q e (free, reached, below) =
    let plain : is_question c ≡ false = ground arith in
    let none_more : slash_count c ≡ 0 = ground arith in
    (
      (plain, free),
      λ t.
          let (front, whole, count) = reached t in
          (c ∷ front, ap (λ p. c ∷ p) whole, omega (arith, none_more, count)),
      λ f. (omega (arith, none_more, (below f).0), (below f).1),
    )

trim_from-Keeps : (depth : ℕ) (s : Bytes) → Keeps (suc depth) s (trim_from (suc depth) s)
unfolding trim_from
trim_from-Keeps depth [] = (tt, (λ e. ground arith), (λ e. (omega arith, inl refl)))
trim_from-Keeps depth (c ∷ s) = elim (Bool-cases (c == b'?')) [
  | inl e ↦
      let q : c ≡ b'?' = ground arith in
      subst (Keeps (suc depth) (c ∷ s)) (sym (at_question (suc depth) c s q))
        (tt, (λ e. ground arith), (λ e. (omega arith, inr q)))
  | inr n ↦ elim (Bool-cases (c == b'/')) [
    | inl e ↦ slash depth (ground arith) (λ d. trim_from-Keeps d s)
    | inr m ↦
        let q : c ≢ b'?' = ground arith in
        let e : c ≢ b'/' = ground arith in
        subst (Keeps (suc depth) (c ∷ s)) (sym (at_other (suc depth) c s q e))
          (more_other (suc depth) c s (trim_from (suc depth) s) q e (trim_from-Keeps depth s))
  ]
]
  where
    slash :
        (depth : ℕ)
        → c ≡ b'/'
        → ((d : ℕ) → Keeps (suc d) s (trim_from (suc d) s))
        → Keeps (suc depth) (c ∷ s) (trim_from (suc depth) (c ∷ s))
    slash zero e go =
        let plain : is_question c ≡ false = ground arith in
        let one : slash_count c ≡ 1 = ground arith in
        subst (Keeps 1 (c ∷ s)) (sym (at_last_slash c s e))
          ((plain, tt), (λ t. ([], ap (λ d. d ∷ []) e, refl)), (λ f. ground arith))
    slash (suc d) e go =
        subst (Keeps (suc (suc d)) (c ∷ s)) (sym (at_slash (suc d) c s e (omega arith)))
          (more_slash (suc d) c s (trim_from (suc d) s) e (go d))

-- The first byte of a URL is always kept. What is kept behind it holds no `?` and ends at the
-- slash that makes up the depth, which counts as 1 below 1; a URL with fewer slashes is kept up
-- to a `?` or to its end. The flag that a `*` is written is set in the first case only.
pub trim_url_path_view-Kept :
    (c : ℕ) (s : Bytes) (depth : ℤ)
    → (path : Bytes) × (rest : Bytes) × (s ≡ path ++ rest)
      × ((trim_url_path_view (c ∷ s) depth).0 ≡ c ∷ path)
      × Kept (at_least_one depth) path rest (trim_url_path_view (c ∷ s) depth).1
unfolding trim_url_path_view
trim_url_path_view-Kept c s depth =
    let cut = trim_from (at_least_one depth) s in
    (take cut.0 s, drop cut.0 s, sym (take-drop cut.0 s), refl, kept_at depth)
  where
    kept_at : (depth : ℤ) → Keeps (at_least_one depth) s (trim_from (at_least_one depth) s)
    kept_at (pos zero) = trim_from-Keeps 0 s
    kept_at (pos (suc n)) = trim_from-Keeps n s
    kept_at (negsuc n) = trim_from-Keeps 0 s
