-- ===== src/Ir/Codes.antt =====
-- The byte codes of the enumerations of rules/ir.rs, and merged path completions.
use Prim.Native.Nat.{max}
use bash_lume.Base.{ℕ, arith, sym, ap, ◌∙◌, ◌==◌, if◌then◌else◌, ◌≡◌, refl, Bool, true, false, ok}
use bash_lume.Ir.Types.{
  RuleCandidateKind, kind_encode, kind_decode, AppendPolicy, append_encode, append_decode,
  PathCompletion, path_completion_encode, path_completion_decode, ProbeParser, parser_encode,
  parser_decode, merge,
}
use bash_lume.Ir.Encoder.{flag_byte}
use bash_lume.Ir.Decoder.{ordering_flag}

pub kind_decode-encode : (k : RuleCandidateKind) → kind_decode (kind_encode k) ≡ ok k
unfolding kind_decode kind_encode
kind_decode-encode RuleCandidateKind.option = refl
kind_decode-encode _ = refl

pub append_decode-encode : (a : AppendPolicy) → append_decode (append_encode a) ≡ ok a
unfolding append_decode append_encode
append_decode-encode AppendPolicy.space = refl
append_decode-encode _ = refl

pub path_completion_decode-encode :
    (c : PathCompletion) → path_completion_decode (path_completion_encode c) ≡ ok c
unfolding path_completion_decode path_completion_encode
path_completion_decode-encode PathCompletion.inherit = refl
path_completion_decode-encode _ = refl

pub parser_decode-encode : (p : ProbeParser) → parser_decode (parser_encode p) ≡ ok p
unfolding parser_decode parser_encode
parser_decode-encode ProbeParser.lines = refl
parser_decode-encode _ = refl

pub ordering_flag_byte : (b : Bool) → ordering_flag (flag_byte b) ≡ ok b
ordering_flag_byte true = refl
ordering_flag_byte false = refl

-- How strong a path completion is, `files` the strongest.
abbrev pub strength : PathCompletion → ℕ
strength PathCompletion.inherit = 0
strength PathCompletion.suppress = 1
strength PathCompletion.directories = 2
strength PathCompletion.files = 3

strength-merge : (a b : PathCompletion) → strength (merge a b) ≡ max (strength a) (strength b)
unfolding merge
strength-merge PathCompletion.files PathCompletion.files = refl
strength-merge PathCompletion.files _ = refl
strength-merge PathCompletion.directories PathCompletion.files = refl
strength-merge PathCompletion.directories _ = refl
strength-merge PathCompletion.suppress PathCompletion.files = refl
strength-merge PathCompletion.suppress _ = refl
strength-merge PathCompletion.inherit PathCompletion.files = refl
strength-merge PathCompletion.inherit _ = refl

abbrev with_strength : ℕ → PathCompletion
with_strength n =
    if n == 0
    then PathCompletion.inherit
    else if n == 1
    then PathCompletion.suppress
    else if n == 2
    then PathCompletion.directories
    else PathCompletion.files

with_strength-strength : (a : PathCompletion) → with_strength (strength a) ≡ a
with_strength-strength PathCompletion.inherit = refl
with_strength-strength PathCompletion.suppress = refl
with_strength-strength PathCompletion.directories = refl
with_strength-strength PathCompletion.files = refl

strength_injective : (a b : PathCompletion) → strength a ≡ strength b → a ≡ b
strength_injective a b h =
    sym (with_strength-strength a) ∙ ap with_strength h ∙ with_strength-strength b

-- Merging path completions is commutative, associative and idempotent, and `inherit` is its unit.
pub merge-commutes :
    (a b c : PathCompletion)
    → (merge a b ≡ merge b a)
      × (merge (merge a b) c ≡ merge a (merge b c))
      × (merge a a ≡ a)
      × (merge PathCompletion.inherit a ≡ a)
merge-commutes a b c = (
  strength_injective _ _ (omega (arith, strength-merge a b, strength-merge b a)),
  strength_injective _ _ (
      omega (
        arith,
        strength-merge (merge a b) c,
        strength-merge a b,
        strength-merge a (merge b c),
        strength-merge b c,
      )),
  strength_injective _ _ (omega (arith, strength-merge a a)),
  strength_injective _ _ (omega (arith, strength-merge PathCompletion.inherit a)),
)

-- Every candidate kind, append policy, path completion and probe parser is read back from its byte code.
pub codes_decode-encode :
    (k : RuleCandidateKind) (a : AppendPolicy) (c : PathCompletion) (p : ProbeParser)
    → (kind_decode (kind_encode k) ≡ ok k)
      × (append_decode (append_encode a) ≡ ok a)
      × (path_completion_decode (path_completion_encode c) ≡ ok c)
      × (parser_decode (parser_encode p) ≡ ok p)
codes_decode-encode k a c p = (
  kind_decode-encode k,
  append_decode-encode a,
  path_completion_decode-encode c,
  parser_decode-encode p,
)
