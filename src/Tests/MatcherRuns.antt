-- ===== src/Tests/MatcherRuns.antt =====
-- A sink with two candidates of one value and one of another.
use Prim.Native.Nat.{max}
use bash_lume.Base.{
  ◌<◌, saturating_mul, ◌≡◌, refl, Bool, true, false, none, [], ◌∷◌, Bytes, arith, length,
}
use bash_lume.Base.Int.{pos}
use bash_lume.Matcher.Candidate.{
  Candidate, candidate_set_tier, MatchClass, CandidateKind, u64_max, compare_candidates,
}
use bash_lume.Matcher.Sink.{CandidateSink, push, finish}
use bash_lume.Matcher.Entries.{IsOrdered}
use bash_lume.Matcher.Invariant.{IsConsistent, push-IsConsistent}
use bash_lume.Matcher.Bounds.{push-IsWithin, push-best_tier}
use bash_lume.Matcher.Finish.{IsRanked, finish-IsOrdered, finish-IsRanked}

abbrev entry : Bytes → MatchClass → Bool → Candidate
entry value match_class preserve_order = record {
  display = value;
  value = value;
  description = none;
  source_mask = 1;
  kind = CandidateKind.file;
  append_space = true;
  score = pos 775;
  match_class = match_class;
  preserve_order = preserve_order;
  insertion_order = u64_max;
}

-- At its limit of one, a second candidate fills the sink.
abbrev small_sink : CandidateSink
small_sink = record {
  limit = 1;
  best_tier = 4;
  candidates = entry (b'a' ∷ b'b' ∷ []) MatchClass.prefix false ∷ [];
  next_insertion_order = 3;
}

abbrev full_sink : CandidateSink
full_sink = record {
  limit = 1;
  best_tier = 4;
  candidates =
      entry (b'a' ∷ b'b' ∷ []) MatchClass.prefix false
      ∷ entry (b'a' ∷ []) MatchClass.exact true
      ∷ [];
  next_insertion_order = 3;
}

small_sink-IsConsistent : IsConsistent small_sink
unfolding candidate_set_tier
small_sink-IsConsistent = ((tt, tt), (refl, tt), omega arith)

full_sink-IsConsistent : IsConsistent full_sink
unfolding candidate_set_tier
full_sink-IsConsistent = (((refl, tt), (tt, tt)), (refl, (refl, tt)), omega arith)

push-IsConsistent_example : IsConsistent (push small_sink (entry (b'a' ∷ []) MatchClass.exact true))
push-IsConsistent_example =
    push-IsConsistent small_sink (entry (b'a' ∷ []) MatchClass.exact true) small_sink-IsConsistent

finish-IsOrdered_example : IsOrdered compare_candidates (finish full_sink)
finish-IsOrdered_example = finish-IsOrdered full_sink

finish-IsRanked_example : IsRanked full_sink (finish full_sink)
finish-IsRanked_example = finish-IsRanked full_sink full_sink-IsConsistent

push-IsWithin_example :
    length (push small_sink (entry (b'a' ∷ []) MatchClass.exact true)).candidates
    < saturating_mul (push small_sink (entry (b'a' ∷ []) MatchClass.exact true)).limit 2
unfolding saturating_mul
push-IsWithin_example =
    push-IsWithin small_sink (entry (b'a' ∷ []) MatchClass.exact true) (omega arith) (omega arith)
      (omega arith)

push-best_tier_example :
    (push small_sink (entry (b'b' ∷ []) MatchClass.fuzzy false)).best_tier
    ≡ max small_sink.best_tier (candidate_set_tier MatchClass.fuzzy)
push-best_tier_example = push-best_tier small_sink (entry (b'b' ∷ []) MatchClass.fuzzy false)
