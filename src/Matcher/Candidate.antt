-- ===== src/Matcher/Candidate.antt =====
-- `MatchClass`, `CandidateKind`, `Candidate` and the comparisons of completion/matcher.rs.
use Prim.Native.Nat.{compare, Ordering}
use bash_lume.Base.{ℕ, Bool, true, false, Option, none, Bytes, length}
use bash_lume.Base.Int.{ℤ, pos, ◌+ℤ◌, compare_ℤ}
use bash_lume.Base.Order.{then_with, compare_bytes}

pub data MatchClass : Type 0 where
  exact prefix case_insensitive_prefix substring fuzzy : MatchClass

-- Exact matches and longer prefix matches share a tier.
unfoldable pub candidate_set_tier : MatchClass → ℕ
candidate_set_tier MatchClass.exact = 4
candidate_set_tier MatchClass.prefix = 4
candidate_set_tier MatchClass.case_insensitive_prefix = 3
candidate_set_tier MatchClass.substring = 2
candidate_set_tier MatchClass.fuzzy = 1

unfoldable pub sort_tier : MatchClass → ℕ
sort_tier MatchClass.exact = 5
sort_tier MatchClass.prefix = 4
sort_tier MatchClass.case_insensitive_prefix = 3
sort_tier MatchClass.substring = 2
sort_tier MatchClass.fuzzy = 1

pub data CandidateKind : Type 0 where
  alias function builtin keyword command option subcommand value directory executable file variable
        user group host service signal job :
      CandidateKind

unfoldable pub context_weight : CandidateKind → ℕ
context_weight CandidateKind.alias = 950
context_weight CandidateKind.function = 925
context_weight CandidateKind.builtin = 900
context_weight CandidateKind.keyword = 875
context_weight CandidateKind.command = 850
context_weight CandidateKind.option = 840
context_weight CandidateKind.subcommand = 835
context_weight CandidateKind.value = 825
context_weight CandidateKind.directory = 800
context_weight CandidateKind.executable = 790
context_weight CandidateKind.file = 775
context_weight CandidateKind.variable = 750
context_weight CandidateKind.user = 725
context_weight CandidateKind.group = 720
context_weight CandidateKind.host = 700
context_weight CandidateKind.service = 690
context_weight CandidateKind.signal = 680
context_weight CandidateKind.job = 670

-- `source_mask` is a u8, `insertion_order` a u64.
pub record Candidate : Type 0 where
  pub display : Bytes
  pub value : Bytes
  pub description : Option Bytes
  pub source_mask : ℕ
  pub kind : CandidateKind
  pub append_space : Bool
  pub score : ℤ
  pub match_class : MatchClass
  pub preserve_order : Bool
  pub insertion_order : ℕ

abbrev pub u64_max : ℕ
u64_max = 18446744073709551615

-- `Candidate::matched`, with the score of a sum that stays within `i64`; beyond it the checked sum panics.
unfoldable pub matched : Bytes → Bytes → CandidateKind → Bool → ℤ → MatchClass → ℤ → Candidate
matched display insertion kind append_space recency_bonus match_class match_score = record {
  display = display;
  value = insertion;
  description = none;
  source_mask = 0;
  kind = kind;
  append_space = append_space;
  score = match_score +ℤ pos (context_weight kind) +ℤ recency_bonus;
  match_class = match_class;
  preserve_order = false;
  insertion_order = u64_max;
}

unfoldable pub is_strong_prefix : Candidate → Bool
is_strong_prefix c = elim c.match_class [
  | MatchClass.exact ↦ true
  | MatchClass.prefix ↦ true
  | _ ↦ false
]

unfoldable pub compare_ranked_candidates : Candidate → Candidate → Ordering
compare_ranked_candidates left right = then_with (compare_ℤ right.score left.score) (
    then_with (compare (length left.display) (length right.display))
      (then_with (compare_bytes left.display right.display) (compare_bytes left.value right.value)))

-- The tie between two candidates of one class, by their `preserve_order` flags.
abbrev pub order_within_class : Bool → Bool → Candidate → Candidate → Ordering
order_within_class true true left right = compare left.insertion_order right.insertion_order
order_within_class true false left right = Ordering.lt
order_within_class false true left right = Ordering.gt
order_within_class false false left right = compare_ranked_candidates left right

unfoldable pub compare_candidates : Candidate → Candidate → Ordering
compare_candidates left right =
    then_with (compare (sort_tier right.match_class) (sort_tier left.match_class))
      (order_within_class left.preserve_order right.preserve_order left right)
