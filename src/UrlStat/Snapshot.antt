-- ===== src/UrlStat/Snapshot.antt =====
-- What `UrlStatSnapshot::add` keeps: its size, and the number of entries that it has counted.
use pinpoint_cpp_agent.Common.{
  ℕ, suc, ◌+◌, ◌≤◌, ◌<◌, ◌≡◌, ◌⊎◌, inl, inr, refl, ◌∙◌, true, [], ◌∷◌, arith, ltb, length, All,
  Bool-cases,
}
use pinpoint_cpp_agent.UrlStat.{
  UrlStatConfig, UrlStatEntry, UrlKey, UrlStatMap, EachUrlStat, get_bucket, record_entry, new_stat,
  find_stat, at_key, key_eq, key_of, to_size, add,
}
use pinpoint_cpp_agent.UrlStat.Histogram.{sum, get_bucket-lt, length-count_at, sum-count_at}

-- the entries that the statistics of one key have counted
abbrev pub counted : EachUrlStat → ℕ
counted e = sum e.total_histogram.histogram

abbrev pub entries : UrlStatMap → ℕ
entries [] = 0
entries (e ∷ m) = counted e.1 + entries m

-- Every histogram has its eight buckets.
abbrev pub Whole : UrlStatMap → Type 0
Whole = All (λ e. length e.1.total_histogram.histogram ≡ 8)

counted-record_entry :
    (us : UrlStatEntry) (e : EachUrlStat)
    → length e.total_histogram.histogram ≡ 8
    → (counted (record_entry us e) ≡ suc (counted e))
      × (length (record_entry us e).total_histogram.histogram ≡ 8)
unfolding record_entry
counted-record_entry us e h =
    let i = get_bucket us.elapsed in
    (
      sum-count_at i e.total_histogram.histogram (omega (arith, get_bucket-lt us.elapsed)),
      length-count_at i e.total_histogram.histogram ∙ h,
    )

at_key_lem :
    (key : UrlKey) (us : UrlStatEntry) (m : UrlStatMap)
    → Whole m
    → find_stat key m ≡ true
    → (entries (at_key key (record_entry us) m) ≡ suc (entries m))
      × (length (at_key key (record_entry us) m) ≡ length m)
      × Whole (at_key key (record_entry us) m)
at_key_lem key us [] w h = ground arith
at_key_lem key us (e ∷ m) w h = elim (Bool-cases (key_eq key e.0)) [
  | inl y ↦
      let (one, eight) = counted-record_entry us e.1 w.0 in
      rw y (omega (arith, one), refl, (eight, w.1))
  | inr n ↦
      let rest : find_stat key m ≡ true = cc in
      let (more, size, whole) = at_key_lem key us m w.1 rest in
      rw n (omega (arith, more), omega (arith, size), (w.0, whole))
]

-- One entry is counted once, or the limit is reached and nothing changes; the map grows by one
-- key at most, and not beyond the limit.
pub add_lem :
    (us : UrlStatEntry) (config : UrlStatConfig) (m : UrlStatMap)
    → Whole m
    → Whole (add us config m)
      × (((entries (add us config m) ≡ suc (entries m))
            × ((length (add us config m) ≡ length m)
                ⊎ ((length (add us config m) ≡ suc (length m))
                    × (length m < to_size config.limit))))
          ⊎ ((add us config m ≡ m) × (to_size config.limit ≤ length m)))
unfolding add
add_lem us config m w = elim (Bool-cases (find_stat (key_of us config) m)) [
  | inl y ↦
      let (more, size, whole) = at_key_lem (key_of us config) us m w y in
      rw (add, y) (whole, inl (more, inl size))
  | inr n ↦ elim (Bool-cases (ltb (length m) (to_size config.limit))) [
    | inl room ↦
        let (one, eight) = counted-record_entry us (new_stat (key_of us config).url_tick) refl in
        rw (add, n, room) ((eight, w), inl (omega (arith, one), inr (refl, ground arith)))
    | inr full ↦ rw (add, n, full) (w, inr (refl, ground arith))
  ]
]
