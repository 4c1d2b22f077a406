-- ===== src/Matcher/Invariant.antt =====
-- The invariant of `CandidateSink` in completion/matcher.rs, over `push` and `truncate`.
use Prim.Native.Nat.{Ordering}
use bash_lume.Base.Int.{compare_ℤ}
use bash_lume.Base.{
  ℕ, ◌≤◌, ◌≡◌, refl, Bool-cases, inl, inr, Option, none, some, List, [], ◌∷◌, arith, length, All,
  saturating_mul, bytes_eq→eq, leb, ltb,
}
use bash_lume.Matcher.Candidate.{Candidate, candidate_set_tier}
use bash_lume.Matcher.Sink.{
  CandidateSink, new_sink, find_entry, remove_entry, beyond_limit, replace_entry, keep_entry,
  truncate, truncate_if_full, merge_entry, store, stamp, push_stamped, push,
}
use bash_lume.Matcher.Entries.{
  IsDistinct, find_entry-none, All-find_entry, All-remove_entry, All-remove_all,
  IsFresh-remove_entry, IsDistinct-remove_entry, IsDistinct-remove_all,
}

-- Every entry stands in the tier.
abbrev pub IsInTier : ℕ → List Candidate → Type 0
IsInTier tier = All (λ c. candidate_set_tier c.match_class ≡ tier)

-- The entries have distinct values, all of the best tier.
abbrev pub IsConsistent : CandidateSink → Type 0
IsConsistent s = IsDistinct s.candidates × IsInTier s.best_tier s.candidates × (1 ≤ s.limit)

pub new_sink-IsConsistent : (limit : ℕ) → IsConsistent (new_sink limit)
unfolding new_sink
new_sink-IsConsistent limit = (tt, tt, omega arith)

pub truncate-IsConsistent : (s : CandidateSink) → IsConsistent s → IsConsistent (truncate s)
unfolding truncate
truncate-IsConsistent s h = elim (Bool-cases (leb (length s.candidates) s.limit)) [
  | inl fits ↦ rw fits h
  | inr over ↦ rw over (
    IsDistinct-remove_all (beyond_limit s) s.candidates h.0,
    All-remove_all (λ c. candidate_set_tier c.match_class ≡ s.best_tier) (beyond_limit s)
        s.candidates h.1,
    h.2,
  )
]

truncate_if_full-IsConsistent :
    (s : CandidateSink) → IsConsistent s → IsConsistent (truncate_if_full s)
unfolding truncate_if_full
truncate_if_full-IsConsistent s h =
    elim (Bool-cases (leb (saturating_mul s.limit 2) (length s.candidates))) [
      | inl full ↦ rw full (truncate-IsConsistent s h)
      | inr room ↦ rw room h
    ]

store_new-IsConsistent :
    (s : CandidateSink) (c : Candidate)
    → IsConsistent s
    → candidate_set_tier c.match_class ≡ s.best_tier
    → find_entry c.value s.candidates ≡ none
    → IsConsistent (store s c none)
unfolding store
store_new-IsConsistent s c h tier fresh =
    truncate_if_full-IsConsistent (record s { candidates = c ∷ s.candidates })
      ((find_entry-none c.value s.candidates fresh, h.0), (tier, h.1), h.2)

-- What takes the place of the entry that was found has its key.
IsDistinct-replaced :
    (d c : Candidate) (cs : List Candidate)
    → d.value ≡ c.value
    → IsDistinct cs
    → IsDistinct (d ∷ remove_entry c.value cs)
IsDistinct-replaced d c cs e h =
    (rw e (IsFresh-remove_entry c.value cs), IsDistinct-remove_entry c.value cs h)

merge_entry-IsConsistent :
    (s : CandidateSink) (c current : Candidate) (order : Ordering)
    → IsConsistent s
    → candidate_set_tier c.match_class ≡ s.best_tier
    → find_entry c.value s.candidates ≡ some current
    → IsConsistent (merge_entry s c current order)
unfolding merge_entry replace_entry keep_entry
merge_entry-IsConsistent s c current Ordering.gt h tier found =
    truncate_if_full-IsConsistent
      (record s { candidates = replace_entry current c ∷ remove_entry c.value s.candidates })
      (
        IsDistinct-replaced (replace_entry current c) c s.candidates refl h.0,
        (
          tier,
          All-remove_entry (λ x. candidate_set_tier x.match_class ≡ s.best_tier) c.value
              s.candidates h.1,
        ),
        h.2,
      )
merge_entry-IsConsistent s c current _ h tier found =
    let InTier : Candidate → Type 0 = λ x. candidate_set_tier x.match_class ≡ s.best_tier in
    let (current_tier, same) = All-find_entry InTier c.value s.candidates current found h.1 in
    (
      IsDistinct-replaced (keep_entry current c) c s.candidates
          (bytes_eq→eq current.value c.value same) h.0,
      (current_tier, All-remove_entry InTier c.value s.candidates h.1),
      h.2,
    )

store-IsConsistent :
    (s : CandidateSink) (c : Candidate) (entry : Option Candidate)
    → IsConsistent s
    → candidate_set_tier c.match_class ≡ s.best_tier
    → find_entry c.value s.candidates ≡ entry
    → IsConsistent (store s c entry)
unfolding store
store-IsConsistent s c none h tier found = store_new-IsConsistent s c h tier found
store-IsConsistent s c (some current) h tier found =
    merge_entry-IsConsistent s c current (compare_ℤ c.score current.score) h tier found

push_stamped-IsConsistent :
    (s : CandidateSink) (c : Candidate) → IsConsistent s → IsConsistent (push_stamped s c)
unfolding push_stamped
push_stamped-IsConsistent s c h =
    let tier = candidate_set_tier c.match_class in
    elim (Bool-cases (ltb tier s.best_tier)) [
      | inl weaker ↦ rw weaker h
      | inr at_least ↦ elim (Bool-cases (ltb s.best_tier tier)) [
        | inl stronger ↦
            rw (at_least, stronger)
              (store-IsConsistent (record s { candidates = []; best_tier = tier }) c _ (tt, tt, h.2)
                refl refl)
        | inr equal ↦ rw (at_least, equal) (store-IsConsistent s c _ h (ground arith) refl)
      ]
    ]

stamp-IsConsistent :
    (s : CandidateSink) (c : Candidate) → IsConsistent s → IsConsistent (stamp s c).0
unfolding stamp
stamp-IsConsistent s c h = elim (Bool-cases c.preserve_order) [
  | inl asks ↦ rw asks h
  | inr free ↦ rw free h
]

-- A push into a sink whose entries have distinct values, all of the best tier, and whose limit is at least 1
-- leaves it so, also where it meets an entry of its value or makes the sink drop the entries beyond the limit.
pub push-IsConsistent :
    (s : CandidateSink) (c : Candidate) → IsConsistent s → IsConsistent (push s c)
unfolding push
push-IsConsistent s c h =
    push_stamped-IsConsistent (stamp s c).0 (stamp s c).1 (stamp-IsConsistent s c h)
