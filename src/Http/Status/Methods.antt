-- ===== src/Http/Status/Methods.antt =====
-- Which methods a configuration filters.
use pinpoint_cpp_agent.Common.{
  ◌≡◌, ◌↔◌, ◌⊎◌, inl, inr, refl, true, false, List, [], ◌∷◌, map, arith, ◌==◌, length, Bytes,
  Bool-cases, ==_iff,
}
use pinpoint_cpp_agent.Http.Status.{to_upper, equal_upper, compare_string, is_method_filtered}

-- a text with every letter in upper case
unfoldable pub upper : Bytes → Bytes
upper s = map to_upper s

equal_upper_sound : (s t : Bytes) → length s ≡ length t → equal_upper s t ≡ true → upper s ≡ upper t
unfolding upper
equal_upper_sound [] [] n h = refl
equal_upper_sound [] (d ∷ t) n h = absurd (omega arith)
equal_upper_sound (c ∷ s) [] n h = absurd (omega arith)
equal_upper_sound (c ∷ s) (d ∷ t) n h = elim (Bool-cases (to_upper c == to_upper d)) [
  | inl e ↦
      let same : to_upper c ≡ to_upper d = (==_iff (to_upper c) (to_upper d)).0 e in
      let tails : equal_upper s t ≡ true = cc in
      cc (same, equal_upper_sound s t (omega arith) tails)
  | inr e ↦ let no : false ≡ true = cc in cc
]

equal_upper_complete :
    (s t : Bytes) → upper s ≡ upper t → (length s ≡ length t) × (equal_upper s t ≡ true)
unfolding upper
equal_upper_complete [] t h = nil t h
  where
    nil : (t : Bytes) → [] ≡ map to_upper t → (0 ≡ length t) × (true ≡ true)
    nil [] h = (refl, refl)
    nil (d ∷ t) h = cc
equal_upper_complete (c ∷ s) [] h = cc
equal_upper_complete (c ∷ s) (d ∷ t) h =
    let same : to_upper c ≡ to_upper d = cc in
    let (n, e) = equal_upper_complete s t cc in
    (omega arith, cc ((==_iff (to_upper c) (to_upper d)).1 same, e))

pub compare_string_iff : (s t : Bytes) → (compare_string s t ≡ true) ↔ (upper s ≡ upper t)
unfolding compare_string
compare_string_iff s t = (
  λ h. equal_upper_sound s t (ground arith) (ground arith),
  λ h. let (n, e) = equal_upper_complete s t h in ground arith,
)

-- Some configured method is the method, letter for letter in upper case.
abbrev pub Listed : List Bytes → Bytes → Type 0
Listed [] method = ⊥
Listed (m ∷ methods) method = (upper method ≡ upper m) ⊎ Listed methods method

-- The method filter filters a method if and only if a configured method is the same text but
-- for the case of its letters.
pub is_method_filtered-Listed :
    (methods : List Bytes) (method : Bytes)
    → (is_method_filtered methods method ≡ true) ↔ Listed methods method
unfolding is_method_filtered
is_method_filtered-Listed [] method = (λ h. ground arith, λ b. absurd b)
is_method_filtered-Listed (m ∷ methods) method =
    let (sound, complete) = compare_string_iff method m in
    let (sound_rest, complete_rest) = is_method_filtered-Listed methods method in
    (
      λ h. elim (Bool-cases (compare_string method m)) [
        | inl e ↦ inl (sound e)
        | inr e ↦ inr (sound_rest (cc e))
      ],
      λ d. elim d [
        | inl g ↦ let e = complete g in cc
        | inr r ↦
            let e = complete_rest r in
            elim (Bool-cases (compare_string method m)) [ inl y ↦ cc | inr n ↦ cc ]
      ],
    )
