-- ===== src/Pack/BuildInvariant.antt =====
-- What holds of the parts of a pack while `PackBuilder::build` of rules/format.rs adds its commands.
use mathlib.Core.Path.{subst}
use bash_lume.Base.{
  ℕ, suc, ◌+◌, ◌%◌, ◌≤◌, ◌<◌, ◌≡◌, refl, sym, ap, ◌∙◌, false, Option, none, some, List, [], ◌∷◌,
  ◌++◌, Bytes, Result, ok, err, arith, ltb, ltb→le, length, length-append, any, u32_end, All,
  All-append,
}
use bash_lume.Base.Outcome.{>>=-eq-ok, >>-eq-ok, reject->>-eq-ok, ok-injective}
use bash_lume.Ir.Types.{IrError, CommandProgram}
use bash_lume.Ir.Limits.{Sizes, ScriptIr, max_command_block_bytes, command_block_version}
use bash_lume.Ir.ValidateProgram.{validate}
use bash_lume.Ir.EncodeProgram as EncodeProgram
use bash_lume.Ir.RoundTrip.{encode_version-IsEncoded}
use bash_lume.Pack.Types.{NameEntry, BlockEntry, max_compressed_block_bytes}
use bash_lume.Pack.Index.{is_dangling}
use bash_lume.Pack.Codec.{Codec}
use bash_lume.Pack.Build.{insert_names, Parts, from_ir, compressed_or, add_command, add_commands}
use bash_lume.Pack.IndexRoundTrip.{IsPlaced}
use bash_lume.Pack.NameOrder.{IsChain}
use bash_lume.Pack.BuildNames.{IsOwn, IsOwn-weaken, IsText, insert_names-IsOwn}
use bash_lume.Pack.AssembleSeal.{CodecLaws}

-- The parts after a number of commands.
pub record IsBuilt (n : ℕ) (parts : Parts) : Type 0 where
  pub names : All (IsOwn n) parts.names
  pub chain : IsChain none parts.names
  pub count : length parts.blocks ≡ n
  pub placed : All (IsPlaced (length parts.chunks)) parts.blocks

IsPlaced-weaken :
    (n m : ℕ) (blocks : List BlockEntry) → n ≤ m → All (IsPlaced n) blocks → All (IsPlaced m) blocks
IsPlaced-weaken n m [] le p = tt
IsPlaced-weaken n m (block ∷ blocks) le (p, ps) = (
  record {
    compressed = p.compressed;
    uncompressed = p.uncompressed;
    inside = omega (arith, p.inside);
    hashed = p.hashed;
  },
  IsPlaced-weaken n m blocks le ps,
)

-- No name refers to a block that there is not.
pub none_dangling :
    (n : ℕ) (names : List NameEntry) (blocks : List BlockEntry)
    → length blocks ≡ n
    → All (IsOwn n) names
    → any (is_dangling blocks) names ≡ false
none_dangling n [] blocks e own = refl
none_dangling n (entry ∷ names) blocks e (o, own) =
    let later = none_dangling n names blocks e own in
    let small : entry.block_id < length blocks = omega (arith, o.1) in ground (arith, small, later)

module _ (C : Codec) (Z : Sizes) (S : ScriptIr) (L : CodecLaws C) where
  open C use {sha256, compress}
  open S use {ScriptModule}

  from_ir-eq-ok : {A : Type 0} (r : Result IrError A) (a : A) → from_ir C Z S r ≡ ok a → r ≡ ok a
  from_ir-eq-ok (err e) a h = cc
  from_ir-eq-ok (ok b) a h = ap ok (ok-injective h)

  compressed_or-eq-ok :
      (r : Option Bytes) (bytes : Bytes) → compressed_or C Z S r ≡ ok bytes → r ≡ some bytes
  compressed_or-eq-ok none bytes h = cc
  compressed_or-eq-ok (some b) bytes h = ap some (ok-injective h)

  -- The names of the registrations are texts.
  abbrev pub HasTexts : CommandProgram ScriptModule → Type 0
  HasTexts command = All IsText command.registrations

  -- The block of a command behind the parts before it.
  abbrev pub block_of : Parts → Bytes → Bytes → BlockEntry
  block_of parts encoded compressed = record {
    offset = length parts.chunks;
    compressed_length = length compressed % u32_end;
    uncompressed_length = length encoded % u32_end;
    hash = sha256 compressed;
  }

  -- What adding a command does to the parts.
  pub record IsAdded (level n : ℕ) (command : CommandProgram ScriptModule) (parts next : Parts)
      : Type 0 where
    pub encoded : Bytes
    pub compressed : Bytes
    pub valid : validate Z S command ≡ ok tt
    pub encodes : EncodeProgram.encode Z S command ≡ ok encoded
    pub compresses : compress level encoded ≡ some compressed
    pub short : length compressed ≤ max_compressed_block_bytes
    pub names : insert_names n command.registrations parts.names ≡ ok next.names
    pub chunks : next.chunks ≡ parts.chunks ++ compressed
    pub blocks : next.blocks ≡ parts.blocks ++ block_of parts encoded compressed ∷ []

  pub add_command-IsAdded :
      (level n : ℕ) (command : CommandProgram ScriptModule) (parts next : Parts)
      → add_command C Z S level n command parts ≡ ok next
      → IsAdded level n command parts next
  unfolding add_command
  add_command-IsAdded level n command parts next h =
      let (v, h₁) = >>-eq-ok (from_ir C Z S (validate Z S command)) _ h in
      let (names, i, h₂) = >>=-eq-ok (insert_names n command.registrations parts.names) _ h₁ in
      let (encoded, e, h₃) = >>=-eq-ok (from_ir C Z S (EncodeProgram.encode Z S command)) _ h₂ in
      let (compressed, c, h₄) = >>=-eq-ok (compressed_or C Z S (compress level encoded)) _ h₃ in
      let (short, h₅) =
        reject->>-eq-ok (ltb max_compressed_block_bytes (length compressed)) _ _ h₄ in
      subst (IsAdded level n command parts) (ok-injective h₅) (record {
        encoded = encoded;
        compressed = compressed;
        valid = from_ir-eq-ok (validate Z S command) tt v;
        encodes = from_ir-eq-ok (EncodeProgram.encode Z S command) encoded e;
        compresses = compressed_or-eq-ok (compress level encoded) compressed c;
        short = ltb→le (length compressed) max_compressed_block_bytes short;
        names = i;
        chunks = refl;
        blocks = refl;
      })

  pub encode-short :
      (command : CommandProgram ScriptModule) (encoded : Bytes)
      → EncodeProgram.encode Z S command ≡ ok encoded
      → length encoded ≤ max_command_block_bytes
  unfolding EncodeProgram.encode
  encode-short command encoded h =
      (encode_version-IsEncoded Z S command command_block_version encoded h).within

  -- Adding a command keeps what holds of the parts.
  pub add_command-IsBuilt :
      (level n : ℕ) (command : CommandProgram ScriptModule) (parts next : Parts)
      → HasTexts command
      → IsBuilt n parts
      → IsAdded level n command parts next
      → IsBuilt (suc n) next
  add_command-IsBuilt level n command parts next texts b a =
      let (own, chain) =
        insert_names-IsOwn n command.registrations parts.names next.names texts
          (IsOwn-weaken n (suc n) parts.names (omega arith) b.names) b.chain a.names in
      let size : length next.chunks ≡ length parts.chunks + length a.compressed =
        ap length a.chunks ∙ length-append parts.chunks a.compressed in
      let fits = encode-short command a.encoded a.encodes in
      let last : IsPlaced (length next.chunks) (block_of parts a.encoded a.compressed) = record {
        compressed = omega (arith, a.short);
        uncompressed = omega (arith, fits);
        inside = omega (arith, size, a.short);
        hashed = L.hash_length a.compressed;
      } in
      record {
        names = own;
        chain = chain;
        count =
            ap length a.blocks
            ∙ (length-append parts.blocks (block_of parts a.encoded a.compressed ∷ [])
                ∙ omega (arith, b.count));
        placed = subst (All (IsPlaced (length next.chunks))) (sym a.blocks) (
            All-append (IsPlaced (length next.chunks)) parts.blocks
              (block_of parts a.encoded a.compressed ∷ [])
              (IsPlaced-weaken (length parts.chunks) (length next.chunks) parts.blocks
                (omega (arith, size)) b.placed)
              (last, tt));
      }

  -- From no command on: the parts of the commands added one by one.
  pub add_commands-IsBuilt :
      (level n : ℕ) (commands : List (CommandProgram ScriptModule)) (parts next : Parts)
      → All HasTexts commands
      → IsBuilt n parts
      → add_commands C Z S level n commands parts ≡ ok next
      → IsBuilt (n + length commands) next
  unfolding add_commands
  add_commands-IsBuilt level n [] parts next texts b h =
      let e : n ≡ n + 0 = omega arith in
      subst (λ p. IsBuilt (n + 0) p) (ok-injective h) (subst (λ m. IsBuilt m parts) e b)
  add_commands-IsBuilt level n (command ∷ commands) parts next texts b h =
      let (middle, a, h₁) = >>=-eq-ok (add_command C Z S level n command parts) _ h in
      let later =
        add_commands-IsBuilt level (suc n) commands middle next texts.1
          (add_command-IsBuilt level n command parts middle texts.0 b
            (add_command-IsAdded level n command parts middle a))
          h₁ in
      let e : suc n + length commands ≡ n + length (command ∷ commands) = omega arith in
      subst (λ m. IsBuilt m next) e later
