-- ===== src/Http/Filter/Glob/Sound.antt =====
-- The filter of `HttpUrlFilter` decides what its patterns mean.
use mathlib.Core.Path.{subst}
use pinpoint_cpp_agent.Common.{
  ℕ, ◌≡◌, refl, sym, ◌∙◌, true, false, ◌&&◌, List, [], ◌∷◌, arith, ◌==◌, Bytes, starts_with,
  Bool-cases, ◌⊎◌, inl, inr, ◌↔◌,
}
use pinpoint_cpp_agent.Http.Filter.{is_wildcard, compile_pattern, pattern_matches}
use pinpoint_cpp_agent.Http.Filter.Rows.{tokens_match}
use pinpoint_cpp_agent.Http.Filter.Compile.{pattern_matches-tokens_match}
use pinpoint_cpp_agent.Http.Filter.{url_filter, is_filtered}
use pinpoint_cpp_agent.Http.Filter.Glob.{
  Glob, nil, byte, any_byte, segment, path, directories, tokens_of, tokens_nil, tokens_byte,
  tokens_question, tokens_star, tokens_path, tokens_directories, some_segment-split,
  some_suffix-split, Glob-complete,
}

-- A pattern, taken apart the way the relation does.
data Shape : Bytes → Type 0 where
  s_nil : Shape []
  s_byte : {c : ℕ} {p : Bytes} → is_wildcard c ≡ false → Shape p → Shape (c ∷ p)
  s_question : {p : Bytes} → Shape p → Shape (b'?' ∷ p)
  s_star : {p : Bytes} → starts_with p (b'*' ∷ []) ≡ false → Shape p → Shape (b'*' ∷ p)
  s_path : {p : Bytes} → starts_with p (b'/' ∷ []) ≡ false → Shape p → Shape (b'*' ∷ b'*' ∷ p)
  s_directories : {p : Bytes} → Shape p → Shape (b'*' ∷ b'*' ∷ b'/' ∷ p)

Shape-first : (c : ℕ) (p : Bytes) → Shape p → (c ≡ b'*' → Shape (b'*' ∷ p)) → Shape (c ∷ p)
Shape-first c p rest starred = elim (Bool-cases (is_wildcard c)) [
  | inr w ↦ s_byte w rest
  | inl w ↦ elim (Bool-cases (c == b'*')) [
    | inl e ↦
        let at_star : c ≡ b'*' = ground arith in
        subst (λ (x : ℕ). Shape (x ∷ p)) (sym at_star) (starred at_star)
    | inr n ↦
        let at_question : c ≡ b'?' = ground arith in
        subst (λ (x : ℕ). Shape (x ∷ p)) (sym at_question) (s_question rest)
  ]
]

Shape-second :
    (d : ℕ) (p : Bytes)
    → Shape (d ∷ p)
    → Shape p
    → (d ≡ b'*' → Shape (b'*' ∷ b'*' ∷ p))
    → Shape (b'*' ∷ d ∷ p)
Shape-second d p rest tail starred = elim (Bool-cases (d == b'*')) [
  | inl e ↦
      let at_star : d ≡ b'*' = ground arith in
      subst (λ (x : ℕ). Shape (b'*' ∷ x ∷ p)) (sym at_star) (starred at_star)
  | inr n ↦ s_star (ground arith) rest
]

Shape-third : (e : ℕ) (p : Bytes) → Shape (e ∷ p) → Shape p → Shape (b'*' ∷ b'*' ∷ e ∷ p)
Shape-third e p rest tail = elim (Bool-cases (e == b'/')) [
  | inl h ↦
      let at_slash : e ≡ b'/' = ground arith in
      subst (λ (x : ℕ). Shape (b'*' ∷ b'*' ∷ x ∷ p)) (sym at_slash) (s_directories tail)
  | inr n ↦ s_path (ground arith) rest
]

shape : (p : Bytes) → Shape p
shape [] = s_nil
shape (c ∷ []) = Shape-first c [] s_nil (λ e. s_star refl s_nil)
shape (c ∷ d ∷ []) =
    Shape-first c (d ∷ []) (shape (d ∷ []))
      (λ e. Shape-second d [] (shape (d ∷ [])) s_nil (λ f. s_path refl s_nil))
shape (c ∷ d ∷ e ∷ p) = Shape-first c (d ∷ e ∷ p) (shape (d ∷ e ∷ p)) (λ h.
    Shape-second d (e ∷ p) (shape (d ∷ e ∷ p)) (shape (e ∷ p))
      (λ i. Shape-third e p (shape (e ∷ p)) (shape p)))

Glob-sound : {p : Bytes} → Shape p → (s : Bytes) → tokens_match (tokens_of p) s ≡ true → Glob p s
unfolding tokens_match
Glob-sound s_nil [] h = nil
Glob-sound s_nil (c ∷ s) h = let e = tokens_nil in absurd (ground arith)
Glob-sound (s_byte {c} {p} w g) [] h = let e = tokens_byte c p w in absurd (ground arith)
Glob-sound (s_byte {c} {p} w g) (d ∷ s) h =
    let m : ((d == c) && tokens_match (tokens_of p) s) ≡ true = simp (tokens_byte c p w) at h in
    let e : d ≡ c = ground arith in
    subst (λ (x : ℕ). Glob (c ∷ p) (x ∷ s)) (sym e) (byte w (Glob-sound g s (ground arith)))
Glob-sound (s_question {p} g) [] h = let e = tokens_question p in absurd (ground arith)
Glob-sound (s_question {p} g) (d ∷ s) h = any_byte (Glob-sound g s (simp (tokens_question p) at h))
Glob-sound (s_star {p} n g) s h =
    let (q, r, split, plain, m) =
      some_segment-split (tokens_match (tokens_of p)) s (simp (tokens_star p n) at h) in
    subst (λ (x : Bytes). Glob (b'*' ∷ p) x) (sym split) (segment q n plain (Glob-sound g r m))
Glob-sound (s_path {p} n g) s h =
    let (q, r, split, m) =
      some_suffix-split (tokens_match (tokens_of p)) s (simp (tokens_path p n) at h) in
    subst (λ (x : Bytes). Glob (b'*' ∷ b'*' ∷ p) x) (sym split) (path q n (Glob-sound g r m))
Glob-sound (s_directories {p} g) [] h = let e = tokens_directories p in absurd (ground arith)
Glob-sound (s_directories {p} g) (c ∷ s) h =
    let (q, r, split, m) =
      some_suffix-split (tokens_match (tokens_of p)) (c ∷ s) (simp (tokens_directories p) at h) in
    subst (λ (x : Bytes). Glob (b'*' ∷ b'*' ∷ b'/' ∷ p) x) (sym split)
      (directories q (rw (sym split) refl) (Glob-sound g r m))

pattern_matches-Glob :
    (p url : Bytes) → (pattern_matches (compile_pattern p) url ≡ true) ↔ Glob p url
unfolding tokens_of
pattern_matches-Glob p url =
    let e = pattern_matches-tokens_match p url in
    (λ h. Glob-sound (shape p) url (sym e ∙ h), λ g. e ∙ Glob-complete g)

-- Some pattern of the configuration describes the URL.
abbrev pub Described : List Bytes → Bytes → Type 0
Described [] url = ⊥
Described (p ∷ cfg) url = Glob p url ⊎ Described cfg url

-- The filter built from a configuration filters a URL if and only if one of the configured
-- patterns describes it, whichever of its four kinds the pattern is compiled to.
pub is_filtered-Described :
    (cfg : List Bytes) (url : Bytes) → (is_filtered (url_filter cfg) url ≡ true) ↔ Described cfg url
unfolding is_filtered url_filter
is_filtered-Described [] url = (λ h. ground arith, λ b. absurd b)
is_filtered-Described (p ∷ cfg) url =
    let (sound, complete) = pattern_matches-Glob p url in
    let (sound_rest, complete_rest) = is_filtered-Described cfg url in
    (
      λ h. elim (Bool-cases (pattern_matches (compile_pattern p) url)) [
        | inl e ↦ inl (sound e)
        | inr e ↦ inr (sound_rest (ground arith))
      ],
      λ d. elim d [
        | inl g ↦ let e = complete g in ground arith
        | inr r ↦ let e = complete_rest r in ground arith
      ],
    )
