-- ===== src/Matcher/Sink.antt =====
-- `CandidateSink` of completion/matcher.rs. The hash set is the list of its entries, in some order; an entry's
-- key is its `value`.
use Prim.Native.Nat.{Ordering, bit_and, bit_or, max}
use bash_lume.Base.{
  ℕ, ◌+◌, ◌-◌, Bool, true, false, ◌&&◌, ◌||◌, not, Option, none, some, List, [], ◌∷◌, Bytes, length,
  ltb, leb, ◌==◌, all, drop, min, map, if◌then◌else◌, bytes_eq, saturating_mul,
}
use bash_lume.Base.Int.{compare_ℤ, saturating_plus}
use bash_lume.Base.Order.{not_after}
use bash_lume.Matcher.Candidate.{
  MatchClass, candidate_set_tier, sort_tier, Candidate, u64_max, compare_candidates,
  compare_ranked_candidates,
}

pub record CandidateSink : Type 0 where
  pub limit : ℕ
  pub best_tier : ℕ
  pub candidates : List Candidate
  pub next_insertion_order : ℕ

unfoldable pub new_sink : ℕ → CandidateSink
new_sink limit = record {
  limit = max limit 1;
  best_tier = 0;
  candidates = [];
  next_insertion_order = 0;
}

abbrev is_nil : List Candidate → Bool
is_nil [] = true
is_nil (c ∷ cs) = false

unfoldable pub has_strong_matches : CandidateSink → Bool
has_strong_matches s =
    not (is_nil s.candidates) && s.best_tier == candidate_set_tier MatchClass.prefix

-- `HashSet::get`, `HashSet::remove`
unfoldable pub find_entry : Bytes → List Candidate → Option Candidate
find_entry key [] = none
find_entry key (c ∷ cs) = if bytes_eq c.value key then some c else find_entry key cs

unfoldable pub remove_entry : Bytes → List Candidate → List Candidate
remove_entry key [] = []
remove_entry key (c ∷ cs) =
    let rest = remove_entry key cs in if bytes_eq c.value key then rest else c ∷ rest

abbrev pub or_else : Option Bytes → Option Bytes → Option Bytes
or_else (some a) b = some a
or_else none b = b

-- `candidate.source_mask & !current.source_mask != 0 && current.source_mask != 0`
unfoldable pub brings_source : Candidate → Candidate → Bool
brings_source current candidate =
    not (bit_and candidate.source_mask (255 - current.source_mask) == 0)
    && not (current.source_mask == 0)

-- The candidate that replaces a current entry of a lower score.
unfoldable pub replace_entry : Candidate → Candidate → Candidate
unfolding brings_source
replace_entry current candidate = record candidate {
  description = or_else candidate.description current.description;
  source_mask = bit_or current.source_mask candidate.source_mask;
  append_space = current.append_space && candidate.append_space;
  score = saturating_plus candidate.score (if brings_source current candidate then 8 else 0);
  preserve_order = current.preserve_order || candidate.preserve_order;
  insertion_order = min current.insertion_order candidate.insertion_order;
}

-- The current entry, kept, with what the candidate adds to it.
unfoldable pub keep_entry : Candidate → Candidate → Candidate
unfolding brings_source
keep_entry current candidate = record current {
  description = or_else current.description candidate.description;
  source_mask = bit_or current.source_mask candidate.source_mask;
  append_space = current.append_space && candidate.append_space;
  score =
      if brings_source current candidate then saturating_plus current.score 8 else current.score;
  preserve_order = current.preserve_order || candidate.preserve_order;
  insertion_order = min current.insertion_order candidate.insertion_order;
}

-- `sort_unstable_by`: the list in an order in which no element comes after its successor.
unfoldable pub insert_by :
    (Candidate → Candidate → Ordering) → Candidate → List Candidate → List Candidate
insert_by cmp c [] = c ∷ []
insert_by cmp c (x ∷ xs) =
    let rest = insert_by cmp c xs in if not_after (cmp c x) then c ∷ x ∷ xs else x ∷ rest

unfoldable pub sort_by : (Candidate → Candidate → Ordering) → List Candidate → List Candidate
unfolding insert_by
sort_by cmp [] = []
sort_by cmp (c ∷ cs) = insert_by cmp c (sort_by cmp cs)

unfoldable pub remove_all : List Bytes → List Candidate → List Candidate
unfolding remove_entry
remove_all [] cs = cs
remove_all (key ∷ keys) cs = remove_all keys (remove_entry key cs)

-- `ranked[self.limit..]`, the keys of the entries beyond the limit in the order of `compare_candidates`.
unfoldable pub beyond_limit : CandidateSink → List Bytes
unfolding sort_by
beyond_limit s = map (λ c. c.value) (drop s.limit (sort_by compare_candidates s.candidates))

unfoldable pub truncate : CandidateSink → CandidateSink
unfolding beyond_limit remove_all
truncate s =
    if leb (length s.candidates) s.limit
    then s
    else record s { candidates = remove_all (beyond_limit s) s.candidates }

-- The test at the end of `push`.
unfoldable pub truncate_if_full : CandidateSink → CandidateSink
unfolding truncate
truncate_if_full s = if leb (saturating_mul s.limit 2) (length s.candidates) then truncate s else s

-- The candidate and the entry of its key, by the order of their scores.
unfoldable pub merge_entry : CandidateSink → Candidate → Candidate → Ordering → CandidateSink
unfolding truncate_if_full replace_entry keep_entry
merge_entry s c current Ordering.gt =
    truncate_if_full
      (record s { candidates = replace_entry current c ∷ remove_entry c.value s.candidates })
merge_entry s c current _ = record s {
  candidates = keep_entry current c ∷ remove_entry c.value s.candidates;
}

-- The match on `self.candidates.take(..)`, with the entry that was found.
unfoldable pub store : CandidateSink → Candidate → Option Candidate → CandidateSink
unfolding truncate_if_full merge_entry
store s c none = truncate_if_full (record s { candidates = c ∷ s.candidates })
store s c (some current) = merge_entry s c current (compare_ℤ c.score current.score)

-- A candidate that asks for its place is stamped with the next number.
unfoldable pub stamp : CandidateSink → Candidate → CandidateSink × Candidate
stamp s c =
    if c.preserve_order
    then (
      record s { next_insertion_order = min (s.next_insertion_order + 1) u64_max },
      record c { insertion_order = s.next_insertion_order },
    )
    else (s, c)

-- A weaker tier is dropped; a stronger one clears the set.
unfoldable pub push_stamped : CandidateSink → Candidate → CandidateSink
unfolding store find_entry
push_stamped s c =
    let tier = candidate_set_tier c.match_class in
    if ltb tier s.best_tier
    then s
    else if ltb s.best_tier tier
    then store (record s { candidates = []; best_tier = tier }) c (find_entry c.value [])
    else store s c (find_entry c.value s.candidates)

unfoldable pub push : CandidateSink → Candidate → CandidateSink
unfolding stamp push_stamped
push s c = let (s', c') = stamp s c in push_stamped s' c'

abbrev pub same_class : MatchClass → MatchClass → Bool
same_class a b = sort_tier a == sort_tier b

-- `uniform_unpreserved_class.is_some()`
unfoldable pub is_uniform : List Candidate → Bool
is_uniform [] = false
is_uniform (first ∷ rest) =
    all (λ c. not c.preserve_order && same_class c.match_class first.match_class) (first ∷ rest)

unfoldable pub finish : CandidateSink → List Candidate
unfolding truncate is_uniform sort_by
finish s =
    let values = (truncate s).candidates in
    if is_uniform values
    then sort_by compare_ranked_candidates values
    else sort_by compare_candidates values
