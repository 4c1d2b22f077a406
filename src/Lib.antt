-- ===== src/Lib.antt =====
-- BashLume: a model of the completion core of the Bash line editor, with the theorems that make it correct.
--
-- The program's parts. Completion rules are compiled to command programs, which are validated and stored as
-- binary command blocks in rule packs (rules/ir.rs); a loaded program is run for the current words by the
-- rule VM (rules/vm.rs), which evaluates the predicates of a rule and gives its candidates. The words come
-- from the analysis of the command line (completion/context.rs), which also quotes what is inserted. Rules and
-- providers push their candidates into a bounded sink (completion/matcher.rs), which merges duplicates, keeps
-- the best class of matches and delivers them ranked.
--
-- Files and sources, with paths from the repository's root:
--   Ir, for src/rules/ir.rs: Types has the data types and the byte codes of the enumerations, Limits the
--     constants and the parameters. Validate and ValidateProgram are `CommandProgram::validate` and its
--     helpers. Encoder and EncodeProgram are `encode`, `encode_version` and `BoundedJsonBuffer`, as functions
--     from the buffer to the longer buffer or an error. Decoder and DecodeProgram are `decode` and
--     `decode_with_allocation_limit`: a `Decoder` record holds the position and both budgets, and a decoding
--     step takes it to a value and the next decoder, or to an error. JsonScan, JsonStrings, JsonTags and
--     Preflight are `ScriptJsonPreflight`, which the decoder runs over the JSON text of the scripts: the lexical
--     parts, the strings, the keys and discriminators, then the values with
--     `preflight_script_encoding_with_limit`. Its record has what is left of the text for the cursor. The other modules are proofs: Wire has the bytes of each part,
--     Writes, Encodes and Reads relate encoder and decoder to them, Budget and Accepts account for the string
--     budget, Bounded and Safety for what a decoding spends, ScanGrows, PreflightGrows and PreflightLimit for
--     what the preflight charges, ScanShrinks, ScanMoves, ScanPasses and PreflightTurns for its loops.
--   Vm, for src/rules/vm.rs: Predicates is `evaluate_predicates`, a step on a stack of Booleans for every
--     instruction, over the fields of the context that the predicates read; Safety relates it to the validator.
--   Matcher, for src/completion/matcher.rs: Candidate has the classes, kinds and comparisons, Score the
--     substring and fuzzy search, Match `match_score` and the constructors of `Candidate`, Sink the
--     `CandidateSink`. `push` is `stamp`, then `push_stamped`, which calls `store`, `merge_entry` and
--     `truncate_if_full` for the branches of the source's match. A hash set is the list of its entries.
--   Context, for src/completion/context.rs: Quoting is `dequote_prefix` and `quote_shell_word`, with the
--     `while let` loop as a recursion on the text that counts the characters that a turn consumed ahead. Words
--     is `command_position_before`, Segment `completion_words` and `typed_parent_and_leaf`, Lexer `lex_shell`,
--     WordBounds the start, quote and end of the current word, and Analysis the `CompletionContext` that `analyze`
--     makes of them, with `replacement_for` and `apply`. Lexer and WordBounds read the bytes of the line by index,
--     with the variables of each loop as a record.
--   Pack, for src/rules/format.rs: Types has the data and limits, Words the reads and writes of words, Index
--     `encode_index`, `parse_index` and the `IndexDecoder`, as functions from a decoder to a value and the next
--     decoder, or to an error. Mapping is `immutable_pack_mapping`, Header the fields of the header, Open
--     `verify_signature` and `open_bounded`, which is `open_mapping` after the mapping and `finish_open` from the
--     signature on. Load is `find_block`, with the binary search of the standard library, `load_block_bounded` and
--     `load_command`. Build is `PackBuilder::build`: `add_commands` is its loop and `assemble` what follows the
--     index; a `BTreeMap` is the list of its entries in order, a buffer the bytes it holds. The other modules are
--     proofs: Reads, IndexRoundTrip and IndexSafety for the index, NameOrder for the search by name, OpenSafety
--     and LoadSafety for what is accepted, Writes and Patches for buffers after writes, AssembleHeader,
--     AssembleSeal, AssembleParts, AssembleFields, AssembleReads, AssembleTrust and AssembleOpen for a pack that
--     is assembled and opened, BuildNames, BuildLookup, BuildInvariant and BuildStored for the loop over the
--     commands, RoundTrip and LoadBuilt for the whole.
--   Base has the shared lists, words, results, UTF-8 and comparisons; Tests has the theorems at concrete inputs.
--
-- Numbers. Lengths, positions and budgets are natural numbers with the source's saturating and checked
-- operations written out at 64 bits; scores are integers, as a sum beyond `i64` panics
-- in the source. Most loops recurse on their list.
-- The loops over a line (`lex_loop`, `scan_loop`, `comment_end`) are given as many turns as the position has
-- bytes before it, as a turn passes one at least. The loops over a JSON text are given one turn more than the
-- text has bytes left, and the depth of its values is bounded at 128 as in the source.
-- The binary search is given as many turns as there are names, as each halves the range.
--
-- Parameters. The script IR and serde_json's codec of it enter as the record `ScriptIr`, and the sizes of the
-- element types as `Sizes`. `JsonLaws` states what the round trip needs of them for a program's scripts: the
-- parser reads back what the serializer wrote, and the preflight passes that text for its own charge. The
-- mappings to lower case of `char` and `str`, which the tables of Unicode define, are the record `Casing`.
-- `sort_unstable_by` is an insertion sort: the source relies on the order only, and entries of one set differ.
--
-- What format.rs takes of SHA-256, zstd, Ed25519 and serde_json is the record `Codec`; `CodecLaws` states what the
-- round trips need of it: the lengths of a hash and of a signature, that a signature fits its own key and message,
-- and that what was compressed is unpacked again. A file is its metadata and the bytes that reading it yields.
--
-- Not modelled. The byte estimate of a program in src/rules/ir.rs; the expansion of templates and the static
-- rules in src/rules/vm.rs; the scripts, their parser and
-- interpreter, the byte estimate of an opened pack and the registrations of it that are patterns, the loader of packs,
-- the configuration, rendering and highlighting. The plugin, the
-- probe process and the providers are calls of Bash, Readline and the system.
pub mod Base
pub mod Ir
pub mod Vm
pub mod Pack
pub mod Matcher
pub mod Context
pub mod Tests
