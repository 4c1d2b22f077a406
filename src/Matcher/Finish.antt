-- ===== src/Matcher/Finish.antt =====
-- The list that `CandidateSink::finish` of completion/matcher.rs delivers.
use Prim.Native.Nat.{Ordering, compare}
use bash_lume.Base.{
  ℕ, ◌≤◌, ◌≡◌, refl, true, false, ◌&&◌, not, Bool-cases, inl, inr, List, [], ◌∷◌, arith, length,
  all, All, leb,
}
use bash_lume.Matcher.Candidate.{
  Candidate, candidate_set_tier, sort_tier, compare_candidates, compare_ranked_candidates,
}
use bash_lume.Matcher.Sink.{CandidateSink, same_class, sort_by, truncate, is_uniform, finish}
use bash_lume.Matcher.Entries.{IsDistinct, IsDistinct-sort_by, All-sort_by, IsOrdered}
use bash_lume.Matcher.Invariant.{IsConsistent, IsInTier, truncate-IsConsistent}
use bash_lume.Matcher.Ranking.{
  sort_by-IsOrdered, compare_candidates-reverse, compare_ranked_candidates-reverse, length-truncate,
  length-sort_by,
}

-- Candidates of one class that ask for no place.
abbrev IsUniform : ℕ → Candidate → Type 0
IsUniform tier c = (c.preserve_order ≡ false) × (sort_tier c.match_class ≡ tier)

compare_self : (n : ℕ) → compare n n ≡ Ordering.eq
compare_self n = ground arith

uniform-compare_candidates :
    (tier : ℕ) (a b : Candidate)
    → IsUniform tier a
    → IsUniform tier b
    → compare_candidates a b ≡ compare_ranked_candidates a b
unfolding compare_candidates
uniform-compare_candidates tier a b h k = rw (h.0, k.0, h.1, k.1, compare_self tier) refl

all-IsUniform :
    (first : Candidate) (cs : List Candidate)
    → all (λ c. not c.preserve_order && same_class c.match_class first.match_class) cs ≡ true
    → All (IsUniform (sort_tier first.match_class)) cs
all-IsUniform first [] h = tt
all-IsUniform first (c ∷ cs) h = ground (arith, all-IsUniform first cs)

uniform-IsOrdered :
    (tier : ℕ) (cs : List Candidate)
    → All (IsUniform tier) cs
    → IsOrdered compare_ranked_candidates cs
    → IsOrdered compare_candidates cs
uniform-IsOrdered tier [] u h = tt
uniform-IsOrdered tier (a ∷ []) u h = (tt, tt)
uniform-IsOrdered tier (a ∷ b ∷ cs) u h = (
  rw (uniform-compare_candidates tier a b u.0 u.1.0) h.0,
  uniform-IsOrdered tier (b ∷ cs) u.1 h.1,
)

uniform-sort_by :
    (cs : List Candidate)
    → is_uniform cs ≡ true
    → IsOrdered compare_candidates (sort_by compare_ranked_candidates cs)
unfolding is_uniform
uniform-sort_by [] h = cc
uniform-sort_by (c ∷ cs) h =
    let tier = sort_tier c.match_class in
    uniform-IsOrdered tier (sort_by compare_ranked_candidates (c ∷ cs))
      (All-sort_by (IsUniform tier) compare_ranked_candidates (c ∷ cs) (all-IsUniform c (c ∷ cs) h))
      (sort_by-IsOrdered compare_ranked_candidates compare_ranked_candidates-reverse (c ∷ cs))

-- The delivered candidates are ordered by `compare_candidates`: none comes after its successor in it. This holds
-- also where they are sorted by `compare_ranked_candidates` alone, as they are if all are of one class and ask
-- for no place.
pub finish-IsOrdered : (s : CandidateSink) → IsOrdered compare_candidates (finish s)
unfolding finish
finish-IsOrdered s = elim (Bool-cases (is_uniform (truncate s).candidates)) [
  | inl uniform ↦ rw uniform (uniform-sort_by (truncate s).candidates uniform)
  | inr mixed ↦
      rw mixed
        (sort_by-IsOrdered compare_candidates compare_candidates-reverse (truncate s).candidates)
]

-- What the delivered candidates are: as many as the limit allows, with distinct values, all of the best tier.
abbrev pub IsRanked : CandidateSink → List Candidate → Type 0
IsRanked s cs = (length cs ≤ s.limit) × IsDistinct cs × IsInTier s.best_tier cs

pub truncate-best_tier : (s : CandidateSink) → (truncate s).best_tier ≡ s.best_tier
unfolding truncate
truncate-best_tier s = elim (Bool-cases (leb (length s.candidates) s.limit)) [
  | inl fits ↦ rw fits refl
  | inr over ↦ rw over refl
]

sort_by-IsRanked :
    (cmp : Candidate → Candidate → Ordering) (s : CandidateSink)
    → IsConsistent s
    → IsRanked s (sort_by cmp (truncate s).candidates)
sort_by-IsRanked cmp s h =
    let kept = truncate-IsConsistent s h in
    let same : length (sort_by cmp (truncate s).candidates) ≡ length (truncate s).candidates =
      length-sort_by cmp (truncate s).candidates in
    (
      omega (arith, length-truncate s),
      IsDistinct-sort_by cmp (truncate s).candidates kept.0,
      All-sort_by (λ c. candidate_set_tier c.match_class ≡ s.best_tier) cmp (truncate s).candidates
          (rw (truncate-best_tier s) at kept.1),
    )

-- From a sink whose entries have distinct values, all of the best tier, and whose limit is at least 1, no more
-- candidates are delivered than the limit, with distinct values and all of the best tier.
pub finish-IsRanked : (s : CandidateSink) → IsConsistent s → IsRanked s (finish s)
unfolding finish
finish-IsRanked s h = elim (Bool-cases (is_uniform (truncate s).candidates)) [
  | inl uniform ↦ rw uniform (sort_by-IsRanked compare_ranked_candidates s h)
  | inr mixed ↦ rw mixed (sort_by-IsRanked compare_candidates s h)
]
