-- ===== src/Ir/Types.antt =====
-- The data of rules/ir.rs: the enumerations with their byte codes, predicates, candidates, rules, probes
-- and command programs. A Rust `String` is its bytes.
use bash_lume.Base.{ℕ, String, Bool, Option, List, Bytes, Result, ok, err, ◌==◌, if◌then◌else◌}

pub data IrError : Type 0 where
  truncated : IrError
  invalid : String → IrError
  invalid_enum : String → ℕ → IrError
  limit : String → IrError

pub data RuleCandidateKind : Type 0 where
  option subcommand value command directory file user group host service signal variable job :
      RuleCandidateKind

unfoldable pub kind_encode : RuleCandidateKind → ℕ
kind_encode RuleCandidateKind.option = 0
kind_encode RuleCandidateKind.subcommand = 1
kind_encode RuleCandidateKind.value = 2
kind_encode RuleCandidateKind.command = 3
kind_encode RuleCandidateKind.directory = 4
kind_encode RuleCandidateKind.file = 5
kind_encode RuleCandidateKind.user = 6
kind_encode RuleCandidateKind.group = 7
kind_encode RuleCandidateKind.host = 8
kind_encode RuleCandidateKind.service = 9
kind_encode RuleCandidateKind.signal = 10
kind_encode RuleCandidateKind.variable = 11
kind_encode RuleCandidateKind.job = 12

unfoldable pub kind_decode : ℕ → Result IrError RuleCandidateKind
kind_decode v =
    if v == 0
    then ok RuleCandidateKind.option
    else if v == 1
    then ok RuleCandidateKind.subcommand
    else if v == 2
    then ok RuleCandidateKind.value
    else if v == 3
    then ok RuleCandidateKind.command
    else if v == 4
    then ok RuleCandidateKind.directory
    else if v == 5
    then ok RuleCandidateKind.file
    else if v == 6
    then ok RuleCandidateKind.user
    else if v == 7
    then ok RuleCandidateKind.group
    else if v == 8
    then ok RuleCandidateKind.host
    else if v == 9
    then ok RuleCandidateKind.service
    else if v == 10
    then ok RuleCandidateKind.signal
    else if v == 11
    then ok RuleCandidateKind.variable
    else if v == 12
    then ok RuleCandidateKind.job
    else err (invalid_enum "candidate kind" v)

pub data AppendPolicy : Type 0 where
  space no_space slash : AppendPolicy

unfoldable pub append_encode : AppendPolicy → ℕ
append_encode AppendPolicy.space = 0
append_encode AppendPolicy.no_space = 1
append_encode AppendPolicy.slash = 2

unfoldable pub append_decode : ℕ → Result IrError AppendPolicy
append_decode v =
    if v == 0
    then ok AppendPolicy.space
    else if v == 1
    then ok AppendPolicy.no_space
    else if v == 2
    then ok AppendPolicy.slash
    else err (invalid_enum "append policy" v)

pub data PathCompletion : Type 0 where
  inherit suppress directories files : PathCompletion

unfoldable pub path_completion_encode : PathCompletion → ℕ
path_completion_encode PathCompletion.inherit = 0
path_completion_encode PathCompletion.suppress = 1
path_completion_encode PathCompletion.directories = 2
path_completion_encode PathCompletion.files = 3

unfoldable pub path_completion_decode : ℕ → Result IrError PathCompletion
path_completion_decode v =
    if v == 0
    then ok PathCompletion.inherit
    else if v == 1
    then ok PathCompletion.suppress
    else if v == 2
    then ok PathCompletion.directories
    else if v == 3
    then ok PathCompletion.files
    else err (invalid_enum "path completion" v)

-- `PathCompletion::merge`: the first of files, directories and suppress that either side holds
unfoldable pub merge : PathCompletion → PathCompletion → PathCompletion
merge PathCompletion.files other = PathCompletion.files
merge PathCompletion.directories PathCompletion.files = PathCompletion.files
merge PathCompletion.directories _ = PathCompletion.directories
merge PathCompletion.suppress PathCompletion.files = PathCompletion.files
merge PathCompletion.suppress PathCompletion.directories = PathCompletion.directories
merge PathCompletion.suppress _ = PathCompletion.suppress
merge PathCompletion.inherit PathCompletion.files = PathCompletion.files
merge PathCompletion.inherit PathCompletion.directories = PathCompletion.directories
merge PathCompletion.inherit PathCompletion.suppress = PathCompletion.suppress
merge PathCompletion.inherit PathCompletion.inherit = PathCompletion.inherit

pub data ProbeParser : Type 0 where
  lines words nul colon_first tab_first : ProbeParser

unfoldable pub parser_encode : ProbeParser → ℕ
parser_encode ProbeParser.lines = 0
parser_encode ProbeParser.words = 1
parser_encode ProbeParser.nul = 2
parser_encode ProbeParser.colon_first = 3
parser_encode ProbeParser.tab_first = 4

unfoldable pub parser_decode : ℕ → Result IrError ProbeParser
parser_decode v =
    if v == 0
    then ok ProbeParser.lines
    else if v == 1
    then ok ProbeParser.words
    else if v == 2
    then ok ProbeParser.nul
    else if v == 3
    then ok ProbeParser.colon_first
    else if v == 4
    then ok ProbeParser.tab_first
    else err (invalid_enum "probe parser" v)

pub data PredicateOp : Type 0 where
  op_true op_false op_not op_and op_or : PredicateOp
  current_word_equals : Bytes → PredicateOp
  current_word_starts_with : Bytes → PredicateOp
  previous_word_equals : Bytes → PredicateOp
  any_word_equals : Bytes → PredicateOp
  word_not_present : Bytes → PredicateOp
  word_index_equals : ℕ → PredicateOp
  word_index_at_least : ℕ → PredicateOp
  command_path_equals : List Bytes → PredicateOp
  environment_set : Bytes → PredicateOp
  environment_equals : Bytes → Bytes → PredicateOp

pub record CandidateTemplate : Type 0 where
  pub value : Bytes
  pub display : Bytes
  pub description : Option Bytes
  pub kind : RuleCandidateKind
  pub append : AppendPolicy
  pub preserve_order : Bool

pub record StaticRule : Type 0 where
  pub when : List PredicateOp
  pub path_completion : PathCompletion
  pub candidates : List CandidateTemplate

pub record ProbeSpec : Type 0 where
  pub id : Bytes
  pub when : List PredicateOp
  pub executable : Bytes
  pub arguments : List Bytes
  pub environment : List (Bytes × Bytes)
  pub parser : ProbeParser
  pub candidate_kind : RuleCandidateKind
  pub append : AppendPolicy
  pub timeout_ms : ℕ
  pub output_limit : ℕ
  pub cache_ttl_ms : ℕ
  pub description : Option Bytes

-- `ScriptModule` is the type of the script IR.
pub record CommandProgram (ScriptModule : Type 0) : Type 0 where
  pub canonical_name : Bytes
  pub registrations : List Bytes
  pub source_path : Bytes
  pub source_commit : Bytes
  pub license : Bytes
  pub static_rules : List StaticRule
  pub probes : List ProbeSpec
  pub scripts : List ScriptModule
