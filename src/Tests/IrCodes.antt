-- ===== src/Tests/IrCodes.antt =====
-- The codes of enumerations, and merged path completions.
use bash_lume.Base.{◌≡◌, ok}
use bash_lume.Ir.Types.{
  RuleCandidateKind, kind_encode, kind_decode, AppendPolicy, append_encode, append_decode,
  PathCompletion, path_completion_encode, path_completion_decode, ProbeParser, parser_encode,
  parser_decode, merge,
}
use bash_lume.Ir.Codes.{merge-commutes, codes_decode-encode}

merge-commutes_example :
    (merge PathCompletion.files PathCompletion.suppress
      ≡ merge PathCompletion.suppress PathCompletion.files)
    × (merge (merge PathCompletion.files PathCompletion.suppress) PathCompletion.directories
        ≡ merge PathCompletion.files (merge PathCompletion.suppress PathCompletion.directories))
    × (merge PathCompletion.files PathCompletion.files ≡ PathCompletion.files)
    × (merge PathCompletion.inherit PathCompletion.files ≡ PathCompletion.files)
merge-commutes_example =
    merge-commutes PathCompletion.files PathCompletion.suppress PathCompletion.directories

codes_decode-encode_example :
    (kind_decode (kind_encode RuleCandidateKind.value) ≡ ok RuleCandidateKind.value)
    × (append_decode (append_encode AppendPolicy.space) ≡ ok AppendPolicy.space)
    × (path_completion_decode (path_completion_encode PathCompletion.files)
        ≡ ok PathCompletion.files)
    × (parser_decode (parser_encode ProbeParser.nul) ≡ ok ProbeParser.nul)
codes_decode-encode_example =
    codes_decode-encode RuleCandidateKind.value AppendPolicy.space PathCompletion.files
      ProbeParser.nul
