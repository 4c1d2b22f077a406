-- ===== src/Matcher/Bounds.antt =====
-- The size and the tier of the candidate set over `CandidateSink::push` of completion/matcher.rs.
use Prim.Native.Nat.{max, Ordering}
use bash_lume.Base.{
  ℕ, ◌+◌, ◌≤◌, ◌<◌, ◌≡◌, refl, ◌∙◌, true, false, Bool-cases, inl, inr, Option, none, some, [], ◌∷◌,
  arith, length, leb, ltb, saturating_mul, usize_max, min, if◌then◌else◌,
}
use bash_lume.Base.Int.{compare_ℤ}
use bash_lume.Matcher.Candidate.{Candidate, candidate_set_tier, u64_max}
use bash_lume.Matcher.Sink.{
  CandidateSink, find_entry, remove_entry, replace_entry, truncate, truncate_if_full, merge_entry,
  store, stamp, push_stamped, push,
}
use bash_lume.Matcher.Entries.{length-remove_entry_found}
use bash_lume.Matcher.Ranking.{length-truncate}
use bash_lume.Matcher.Finish.{truncate-best_tier}

-- The set has room for a candidate before it is cut back.
abbrev pub IsWithin : CandidateSink → Type 0
IsWithin s = length s.candidates < saturating_mul s.limit 2

abbrev IsLimited : CandidateSink → Type 0
IsLimited s = (1 ≤ s.limit) × (s.limit < usize_max)

truncate-limit : (s : CandidateSink) → (truncate s).limit ≡ s.limit
unfolding truncate
truncate-limit s = elim (Bool-cases (leb (length s.candidates) s.limit)) [
  | inl fits ↦ rw fits refl
  | inr over ↦ rw over refl
]

truncate_if_full-IsWithin : (s : CandidateSink) → IsLimited s → IsWithin (truncate_if_full s)
unfolding truncate_if_full saturating_mul
truncate_if_full-IsWithin s h =
    elim (Bool-cases (leb (saturating_mul s.limit 2) (length s.candidates))) [
      | inl full ↦ rw full (ground (arith, length-truncate s, truncate-limit s))
      | inr room ↦ rw room (ground arith)
    ]

merge_entry-IsWithin :
    (s : CandidateSink) (c current : Candidate) (order : Ordering)
    → IsLimited s
    → IsWithin s
    → find_entry c.value s.candidates ≡ some current
    → IsWithin (merge_entry s c current order)
unfolding merge_entry
merge_entry-IsWithin s c current Ordering.gt l h found =
    truncate_if_full-IsWithin
      (record s { candidates = replace_entry current c ∷ remove_entry c.value s.candidates }) l
merge_entry-IsWithin s c current _ l h found =
    omega (arith, length-remove_entry_found c.value s.candidates current found)

store-IsWithin :
    (s : CandidateSink) (c : Candidate) (entry : Option Candidate)
    → IsLimited s
    → IsWithin s
    → find_entry c.value s.candidates ≡ entry
    → IsWithin (store s c entry)
unfolding store
store-IsWithin s c none l h found =
    truncate_if_full-IsWithin (record s { candidates = c ∷ s.candidates }) l
store-IsWithin s c (some current) l h found =
    merge_entry-IsWithin s c current (compare_ℤ c.score current.score) l h found

cleared-IsWithin : (limit : ℕ) → 1 ≤ limit → 0 < saturating_mul limit 2
unfolding saturating_mul
cleared-IsWithin limit h = ground arith

push_stamped-IsWithin :
    (s : CandidateSink) (c : Candidate) → IsLimited s → IsWithin s → IsWithin (push_stamped s c)
unfolding push_stamped
push_stamped-IsWithin s c l h =
    let tier = candidate_set_tier c.match_class in
    elim (Bool-cases (ltb tier s.best_tier)) [
      | inl weaker ↦ rw weaker h
      | inr at_least ↦ elim (Bool-cases (ltb s.best_tier tier)) [
        | inl stronger ↦
            rw (at_least, stronger)
              (store-IsWithin (record s { candidates = []; best_tier = tier }) c
                (find_entry c.value []) l (cleared-IsWithin s.limit l.0) refl)
        | inr equal ↦
            rw (at_least, equal) (store-IsWithin s c (find_entry c.value s.candidates) l h refl)
      ]
    ]

stamp-limit : (s : CandidateSink) (c : Candidate) → (stamp s c).0.limit ≡ s.limit
unfolding stamp
stamp-limit s c = elim (Bool-cases c.preserve_order) [
  | inl asks ↦ rw asks refl
  | inr free ↦ rw free refl
]

stamp-candidates : (s : CandidateSink) (c : Candidate) → (stamp s c).0.candidates ≡ s.candidates
unfolding stamp
stamp-candidates s c = elim (Bool-cases c.preserve_order) [
  | inl asks ↦ rw asks refl
  | inr free ↦ rw free refl
]

-- Where a sink with a limit from 1 to below `usize::MAX` holds fewer candidates than twice its limit, it still
-- does after a push.
pub push-IsWithin :
    (s : CandidateSink) (c : Candidate)
    → 1 ≤ s.limit
    → s.limit < usize_max
    → length s.candidates < saturating_mul s.limit 2
    → length (push s c).candidates < saturating_mul (push s c).limit 2
unfolding push
push-IsWithin s c low high h =
    push_stamped-IsWithin (stamp s c).0 (stamp s c).1 (rw (stamp-limit s c) (low, high))
      (rw (stamp-limit s c, stamp-candidates s c) h)

truncate_if_full-best_tier : (s : CandidateSink) → (truncate_if_full s).best_tier ≡ s.best_tier
unfolding truncate_if_full
truncate_if_full-best_tier s =
    elim (Bool-cases (leb (saturating_mul s.limit 2) (length s.candidates))) [
      | inl full ↦ rw full (truncate-best_tier s)
      | inr room ↦ rw room refl
    ]

merge_entry-best_tier :
    (s : CandidateSink) (c current : Candidate) (order : Ordering)
    → (merge_entry s c current order).best_tier ≡ s.best_tier
unfolding merge_entry
merge_entry-best_tier s c current Ordering.gt =
    truncate_if_full-best_tier
      (record s { candidates = replace_entry current c ∷ remove_entry c.value s.candidates })
merge_entry-best_tier s c current _ = refl

store-best_tier :
    (s : CandidateSink) (c : Candidate) (entry : Option Candidate)
    → (store s c entry).best_tier ≡ s.best_tier
unfolding store
store-best_tier s c none = truncate_if_full-best_tier (record s { candidates = c ∷ s.candidates })
store-best_tier s c (some current) =
    merge_entry-best_tier s c current (compare_ℤ c.score current.score)

push_stamped-best_tier :
    (s : CandidateSink) (c : Candidate)
    → (push_stamped s c).best_tier ≡ max s.best_tier (candidate_set_tier c.match_class)
unfolding push_stamped
push_stamped-best_tier s c =
    let tier = candidate_set_tier c.match_class in
    elim (Bool-cases (ltb tier s.best_tier)) [
      | inl weaker ↦ let e : s.best_tier ≡ max s.best_tier tier = ground arith in rw weaker e
      | inr at_least ↦ elim (Bool-cases (ltb s.best_tier tier)) [
        | inl stronger ↦
            let e : tier ≡ max s.best_tier tier = ground arith in
            rw (at_least, stronger)
              (store-best_tier (record s { candidates = []; best_tier = tier }) c
                  (find_entry c.value [])
                ∙ e)
        | inr equal ↦
            let e : s.best_tier ≡ max s.best_tier tier = ground arith in
            rw (at_least, equal) (store-best_tier s c (find_entry c.value s.candidates) ∙ e)
      ]
    ]

stamp-best_tier : (s : CandidateSink) (c : Candidate) → (stamp s c).0.best_tier ≡ s.best_tier
unfolding stamp
stamp-best_tier s c = elim (Bool-cases c.preserve_order) [
  | inl asks ↦ rw asks refl
  | inr free ↦ rw free refl
]

stamp-match_class : (s : CandidateSink) (c : Candidate) → (stamp s c).1.match_class ≡ c.match_class
unfolding stamp
stamp-match_class s c =
    let stamped : CandidateSink × Candidate = (
      record s { next_insertion_order = min (s.next_insertion_order + 1) u64_max },
      record c { insertion_order = s.next_insertion_order },
    ) in
    elim c.preserve_order
      as (λ b.
        (if◌then◌else◌ {A = CandidateSink × Candidate} b stamped (s, c)).1.match_class
        ≡ c.match_class) [ true ↦ refl | false ↦ refl ]

-- After a push the best tier is the larger of the best tier before it and the tier of the candidate.
pub push-best_tier :
    (s : CandidateSink) (c : Candidate)
    → (push s c).best_tier ≡ max s.best_tier (candidate_set_tier c.match_class)
unfolding push
push-best_tier s c =
    push_stamped-best_tier (stamp s c).0 (stamp s c).1
    ∙ rw (stamp-best_tier s c, stamp-match_class s c) refl
