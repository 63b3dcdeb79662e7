-- ===== src/Http/Filter/Rows.antt =====
-- The table of `ant_match` holds, for each suffix of the URL, whether the tokens match it.
use pinpoint_cpp_agent.Common.{
  ℕ, ◌≡◌, refl, ap, ◌∙◌, Bool, true, false, not, ◌&&◌, ◌||◌, List, [], ◌∷◌, ◌==◌, if◌then◌else◌,
  is_empty, Bytes,
}
use pinpoint_cpp_agent.Http.Filter.{
  Token, literal, question, star, double_star, double_star_slash, entry, literal_row, question_row,
  star_row, double_star_row, token_row, token_rows, last_row,
}

-- The suffixes that `*` and `**` may leave.
abbrev pub some_segment : (Bytes → Bool) → Bytes → Bool
some_segment m [] = m []
some_segment m (c ∷ s) = m (c ∷ s) || (not (c == b'/') && some_segment m s)

abbrev pub some_suffix : (Bytes → Bool) → Bytes → Bool
some_suffix m [] = m []
some_suffix m (c ∷ s) = some_suffix m s || m (c ∷ s)

-- What one token matches in front of what `m` matches.
abbrev pub token_matches : Token → (Bytes → Bool) → Bytes → Bool
token_matches (literal value) m [] = false
token_matches (literal value) m (c ∷ s) = (c == value) && m s
token_matches question m [] = false
token_matches question m (c ∷ s) = m s
token_matches star m s = some_segment m s
token_matches double_star m s = some_suffix m s
token_matches double_star_slash m [] = false
token_matches double_star_slash m (c ∷ s) = some_suffix m (c ∷ s)

unfoldable pub tokens_match : List Token → Bytes → Bool
tokens_match [] s = is_empty s
tokens_match (t ∷ tokens) s = token_matches t (tokens_match tokens) s

-- The row that holds the answers of `m`.
abbrev pub row_of : (Bytes → Bool) → Bytes → List Bool
row_of m [] = m [] ∷ []
row_of m (c ∷ s) = m (c ∷ s) ∷ row_of m s

entry-row_of : (m : Bytes → Bool) (s : Bytes) → entry (row_of m s) ≡ m s
entry-row_of m [] = refl
entry-row_of m (c ∷ s) = refl

literal_row-row_of :
    (value : ℕ) (m : Bytes → Bool) (s : Bytes)
    → literal_row value s (row_of m s) ≡ row_of (token_matches (literal value) m) s
unfolding literal_row
literal_row-row_of value m [] = refl
literal_row-row_of value m (c ∷ s) = cc (entry-row_of m s, literal_row-row_of value m s)

question_row-row_of :
    (m : Bytes → Bool) (s : Bytes)
    → question_row s (row_of m s) ≡ row_of (token_matches question m) s
unfolding question_row
question_row-row_of m [] = refl
question_row-row_of m (c ∷ s) = cc (entry-row_of m s, question_row-row_of m s)

choose_or : (a b c : Bool) → (if not a && b then c else a) ≡ (a || (b && c))
choose_or true b c = refl
choose_or false true c = refl
choose_or false false c = refl

star_row-row_of :
    (m : Bytes → Bool) (s : Bytes) → star_row s (row_of m s) ≡ row_of (some_segment m) s
unfolding star_row
star_row-row_of m [] = refl
star_row-row_of m (c ∷ s) = cc (
  choose_or (m (c ∷ s)) (not (c == b'/')) (some_segment m s),
  entry-row_of (some_segment m) s,
  star_row-row_of m s,
)

double_star_row-row_of :
    (m : Bytes → Bool) (s : Bytes)
    → ((double_star_row (λ b. b) s (row_of m s)).0 ≡ some_suffix m s)
      × ((double_star_row (λ b. b) s (row_of m s)).1 ≡ row_of (some_suffix m) s)
unfolding double_star_row
double_star_row-row_of m [] = (refl, refl)
double_star_row-row_of m (c ∷ s) =
    let (running, row) = double_star_row-row_of m s in (cc running, cc (running, row))

double_star_slash_row-row_of :
    (m : Bytes → Bool) (s : Bytes)
    → ((double_star_row (λ b. false) s (row_of m s)).0 ≡ some_suffix m s)
      × ((double_star_row (λ b. false) s (row_of m s)).1
          ≡ row_of (token_matches double_star_slash m) s)
unfolding double_star_row
double_star_slash_row-row_of m [] = (refl, refl)
double_star_slash_row-row_of m (c ∷ s) =
    let (running, row) = double_star_slash_row-row_of m s in (cc running, cc (running, row))

token_row-row_of :
    (t : Token) (m : Bytes → Bool) (s : Bytes)
    → token_row t s (row_of m s) ≡ row_of (token_matches t m) s
unfolding token_row
token_row-row_of (literal value) m s = literal_row-row_of value m s
token_row-row_of question m s = question_row-row_of m s
token_row-row_of star m s = star_row-row_of m s
token_row-row_of double_star m s = (double_star_row-row_of m s).1
token_row-row_of double_star_slash m s = (double_star_slash_row-row_of m s).1

last_row-row_of : (s : Bytes) → last_row s ≡ row_of is_empty s
last_row-row_of [] = refl
last_row-row_of (c ∷ s) = ap (◌∷◌ false) (last_row-row_of s)

pub token_rows-row_of :
    (tokens : List Token) (s : Bytes) → token_rows tokens s ≡ row_of (tokens_match tokens) s
unfolding token_rows tokens_match
token_rows-row_of [] s = last_row-row_of s
token_rows-row_of (t ∷ tokens) s =
    ap (token_row t s) (token_rows-row_of tokens s) ∙ token_row-row_of t (tokens_match tokens) s

pub entry-token_rows :
    (tokens : List Token) (s : Bytes) → entry (token_rows tokens s) ≡ tokens_match tokens s
entry-token_rows tokens s = cc (token_rows-row_of tokens s, entry-row_of (tokens_match tokens) s)
