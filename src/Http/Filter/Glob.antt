-- ===== src/Http/Filter/Glob.antt =====
-- What a URL pattern means, without tokens; the tokens match every URL that it describes.
pub mod Sound
use mathlib.Core.Path.{subst}
use pinpoint_cpp_agent.Common.{
  ℕ, zero, suc, ◌+◌, ◌≡◌, refl, ap, sym, ◌∙◌, Bool, true, false, not, ◌&&◌, ◌||◌, List, [], ◌∷◌,
  ◌++◌, arith, ltb, ◌==◌, if◌then◌else◌, length, is_empty, Bytes, starts_with, Bool-cases, ◌⊎◌, inl,
  inr, ◌↔◌, ==_iff,
}
use pinpoint_cpp_agent.Http.Filter.{
  Token, literal, question, star, double_star, double_star_slash, has_slash, token_at,
  compile_tokens, is_wildcard, compile_pattern, pattern_matches,
}
use pinpoint_cpp_agent.Http.Filter.Rows.{tokens_match, token_matches, some_segment, some_suffix}
use pinpoint_cpp_agent.Http.Filter.Compile.{pattern_matches-tokens_match}

-- `Glob p url`: `?` stands for one byte, `*` for a text without a slash, `**` for any text, and
-- `**/` for any text too, the slash with it, as long as some of the URL is left.
pub data Glob : Bytes → Bytes → Type 0 where
  nil : Glob [] []
  byte : {c : ℕ} {p s : Bytes} → is_wildcard c ≡ false → Glob p s → Glob (c ∷ p) (c ∷ s)
  any_byte : {c : ℕ} {p s : Bytes} → Glob p s → Glob (b'?' ∷ p) (c ∷ s)
  segment :
      {p s : Bytes} (q : Bytes)
      → starts_with p (b'*' ∷ []) ≡ false
      → has_slash q ≡ false
      → Glob p s
      → Glob (b'*' ∷ p) (q ++ s)
  path :
      {p s : Bytes} (q : Bytes)
      → starts_with p (b'/' ∷ []) ≡ false
      → Glob p s
      → Glob (b'*' ∷ b'*' ∷ p) (q ++ s)
  directories :
      {p s : Bytes} (q : Bytes)
      → is_empty (q ++ s) ≡ false
      → Glob p s
      → Glob (b'*' ∷ b'*' ∷ b'/' ∷ p) (q ++ s)

-- the tokens of a pattern
unfoldable pub tokens_of : Bytes → List Token
unfolding compile_tokens
tokens_of p = (compile_tokens 0 p).0

module _ where
  pub tokens_nil : tokens_of [] ≡ []
  unfolding tokens_of compile_tokens
  tokens_nil = refl

  pub tokens_byte :
      (c : ℕ) (p : Bytes) → is_wildcard c ≡ false → tokens_of (c ∷ p) ≡ literal c ∷ tokens_of p
  unfolding tokens_of compile_tokens token_at
  tokens_byte c p h = let e : token_at c p ≡ (0, literal c) = ground arith in rw e refl

  pub tokens_question : (p : Bytes) → tokens_of (b'?' ∷ p) ≡ question ∷ tokens_of p
  unfolding tokens_of compile_tokens token_at
  tokens_question p = refl

  pub tokens_star :
      (p : Bytes) → starts_with p (b'*' ∷ []) ≡ false → tokens_of (b'*' ∷ p) ≡ star ∷ tokens_of p
  unfolding tokens_of compile_tokens token_at
  tokens_star [] h = refl
  tokens_star (d ∷ p) h = let e : token_at b'*' (d ∷ p) ≡ (0, star) = ground arith in rw e refl

  pub tokens_path :
      (p : Bytes)
      → starts_with p (b'/' ∷ []) ≡ false
      → tokens_of (b'*' ∷ b'*' ∷ p) ≡ double_star ∷ tokens_of p
  unfolding tokens_of compile_tokens token_at
  tokens_path [] h = refl
  tokens_path (d ∷ p) h =
      let e : token_at b'*' (b'*' ∷ d ∷ p) ≡ (1, double_star) = ground arith in rw e refl

  pub tokens_directories :
      (p : Bytes) → tokens_of (b'*' ∷ b'*' ∷ b'/' ∷ p) ≡ double_star_slash ∷ tokens_of p
  unfolding tokens_of compile_tokens token_at
  tokens_directories p =
      let e : token_at b'*' (b'*' ∷ b'/' ∷ p) ≡ (2, double_star_slash) = ground arith in rw e refl

module _ (m : Bytes → Bool) where
  some_segment-append :
      (q s : Bytes) → has_slash q ≡ false → m s ≡ true → some_segment m (q ++ s) ≡ true
  some_segment-append [] [] h e = e
  some_segment-append [] (c ∷ s) h e = rw e refl
  some_segment-append (d ∷ q) s h e = ground (arith, some_segment-append q s)

  some_suffix-append : (q s : Bytes) → m s ≡ true → some_suffix m (q ++ s) ≡ true
  some_suffix-append [] [] e = e
  some_suffix-append [] (c ∷ s) e = ground arith
  some_suffix-append (d ∷ q) s e = rw (some_suffix-append q s e) refl

  pub some_segment-split :
      (s : Bytes)
      → some_segment m s ≡ true
      → (q : Bytes) × (r : Bytes) × (s ≡ q ++ r) × (has_slash q ≡ false) × (m r ≡ true)
  some_segment-split [] h = ([], [], refl, refl, h)
  some_segment-split (c ∷ s) h = elim (Bool-cases (m (c ∷ s))) [
    | inl e ↦ ([], c ∷ s, refl, refl, e)
    | inr e ↦
        let (q, r, split, plain, e') = some_segment-split s (ground arith) in
        (c ∷ q, r, ap (◌∷◌ c) split, ground arith, e')
  ]

  pub some_suffix-split :
      (s : Bytes) → some_suffix m s ≡ true → (q : Bytes) × (r : Bytes) × (s ≡ q ++ r) × (m r ≡ true)
  some_suffix-split [] h = ([], [], refl, h)
  some_suffix-split (c ∷ s) h = elim (Bool-cases (m (c ∷ s))) [
    | inl e ↦ ([], c ∷ s, refl, e)
    | inr e ↦
        let (q, r, split, e') = some_suffix-split s (ground arith) in
        (c ∷ q, r, ap (◌∷◌ c) split, e')
  ]

pub Glob-complete : {p s : Bytes} → Glob p s → tokens_match (tokens_of p) s ≡ true
unfolding tokens_match
Glob-complete nil = rw tokens_nil refl
Glob-complete (byte {c} {p} {s} w g) = rw (tokens_byte c p w) (ground (arith, Glob-complete g))
Glob-complete (any_byte {p} g) = rw (tokens_question p) (Glob-complete g)
Glob-complete (segment {p} {s} q h n g) =
    rw (tokens_star p h) (some_segment-append (tokens_match (tokens_of p)) q s n (Glob-complete g))
Glob-complete (path {p} {s} q h g) =
    rw (tokens_path p h) (some_suffix-append (tokens_match (tokens_of p)) q s (Glob-complete g))
Glob-complete (directories {p} {s} q n g) =
    rw (tokens_directories p)
      (nonempty (q ++ s) n (some_suffix-append (tokens_match (tokens_of p)) q s (Glob-complete g)))
  where
    nonempty :
        (t : Bytes)
        → is_empty t ≡ false
        → some_suffix (tokens_match (tokens_of p)) t ≡ true
        → token_matches double_star_slash (tokens_match (tokens_of p)) t ≡ true
    nonempty [] h e = ground arith
    nonempty (c ∷ t) h e = e
