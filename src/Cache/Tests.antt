-- ===== src/Cache/Tests.antt =====
-- The cache on concrete inputs.
use mathlib.Core.Logic.{ite}
use native.Mathlib.Decide.{ℕ_discrete}
use pinpoint_cpp_agent.Common.{
  ℕ, ◌≡◌, ◌≢◌, refl, true, false, none, some, List, [], ◌∷◌, map, arith,
}
use pinpoint_cpp_agent.Cache.{Lru, fault, init, get_fast, promote, insert_or_promote, remove, get}
use pinpoint_cpp_agent.Cache.Spec.{entries, IsValid, find_entry, get_spec}
use pinpoint_cpp_agent.Cache.Promote.{init-IsValid}
use pinpoint_cpp_agent.Cache.Refine.{get-get_spec, insert_dangling, remove_dangling}
use pinpoint_cpp_agent.Cache.Shared.{none_yet, after, inserted, Sections-safe}
use pinpoint_cpp_agent.Cache.Ids.{next_id, IdCache, Step, Reach, start}
use pinpoint_cpp_agent.Cache.Ids
use pinpoint_cpp_agent.Cache.Ids.Sound.{id_of_one_key}

program : Unit {0}
unfolding init get insert_or_promote remove next_id ℕ_discrete get_spec
program = tt

abbrev empty : Lru ℕ ℕ
empty = init 2

-- two misses, a hit that moves to the front, and a miss that evicts the other
script : Lru ℕ ℕ → List ℕ → ℕ → List (ℕ × ℕ)
unfolding program
script c [] s = entries c
script c (k ∷ ks) s = elim (get ℕ_discrete next_id s c k) [
  | none ↦ []
  | some (s', c', r) ↦ script c' ks s'
]

script_lru : script empty (10 ∷ 20 ∷ 10 ∷ 30 ∷ []) 0 ≡ (30, 3) ∷ (10, 1) ∷ []
unfolding script
script_lru = refl

get-get_spec_example :
    (c' : Lru ℕ ℕ) × (get ℕ_discrete next_id 0 empty 7
      ≡ some (
        (get_spec ℕ_discrete next_id 0 2 (entries empty) 7).0,
        c',
        (get_spec ℕ_discrete next_id 0 2 (entries empty) 7).2,
      ))
    × IsValid ℕ_discrete c'
    × (entries c' ≡ (get_spec ℕ_discrete next_id 0 2 (entries empty) 7).1)
    × (c'.max_size ≡ 2)
unfolding init
get-get_spec_example =
    get-get_spec ℕ_discrete next_id 0 empty 7 (init-IsValid ℕ_discrete 2 (omega arith))

insert_dangling_example : insert_or_promote ℕ_discrete (init {V = ℕ} 0) 1 2 ≡ none
insert_dangling_example = insert_dangling ℕ_discrete 1 2

abbrev one : Lru ℕ ℕ
one = record {
  items = record { addr = 0; key = 7; value = 1 } ∷ [];
  find = λ j. ite (ℕ_discrete j 7) (some 0) none;
  size = 1;
  next = 1;
  max_size = 2;
}

one_inserted :
    insert_or_promote ℕ_discrete empty 7 1 ≡ some (one, record { value = 1; found = false })
unfolding program
one_inserted = refl

Sections-safe_example :
    IsValid ℕ_discrete one
    × ((k : ℕ) → get_fast ℕ_discrete one k ≢ fault)
    × ((k : ℕ) → promote ℕ_discrete one k ≢ none)
    × ((k : ℕ) (v : ℕ) → insert_or_promote ℕ_discrete one k v ≢ none)
    × ((k : ℕ) → remove ℕ_discrete false one k ≢ none)
Sections-safe_example =
    Sections-safe ℕ_discrete 2 (omega arith) (after none_yet (inserted 7 1 one _ one_inserted))

-- one id generated, and inserted for the key 7
abbrev generated_one : IdCache ℕ
generated_one = record (start 2) { seq = 1; pending = Ids.update (λ v. false) 1 true }

abbrev cached_one : IdCache ℕ
cached_one = record generated_one {
  cache = one;
  pending = Ids.update (Ids.update (λ v. false) 1 true) 1 false;
  owner = Ids.update (λ v. none) 1 (some 7);
}

cached_one-Reach : Reach ℕ_discrete (start 2) cached_one
unfolding program
cached_one-Reach =
    Ids.next (Ids.next Ids.here (Ids.generated (omega arith)))
      (Ids.inserted 7 1 one (record { value = 1; found = false }) refl one_inserted)

find_one : find_entry ℕ_discrete 7 (entries one) ≡ some 1
unfolding program find_entry
find_one = refl

one-IsValid : IsValid ℕ_discrete one
one-IsValid =
    (Sections-safe ℕ_discrete 2 (omega arith) (after none_yet (inserted 7 1 one _ one_inserted))).0

remove_dangling_example : remove ℕ_discrete true one 7 ≡ none
remove_dangling_example = remove_dangling ℕ_discrete one one-IsValid 7 1 find_one

-- with stored hash codes, the entry is removed
removed_one :
    ◌≡◌ {A = List ℕ}
      (elim (remove ℕ_discrete false one 7) [ none ↦ 7 ∷ [] | some c ↦ map (λ e. e.0) (entries c) ])
      []
unfolding program
removed_one = refl

id_of_one_key_example : ◌≡◌ {A = ℕ} 7 7
id_of_one_key_example =
    id_of_one_key ℕ_discrete 2 7 7 1 (omega arith) cached_one-Reach Ids.here find_one find_one
