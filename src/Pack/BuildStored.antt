-- ===== src/Pack/BuildStored.antt =====
-- The commands that `PackBuilder::build` of rules/format.rs has stored in the parts of a pack.
use mathlib.Core.Path.{subst}
use bash_lume.Base.{
  ℕ, zero, suc, ◌+◌, ◌%◌, ◌≤◌, ◌≡◌, refl, ap, ◌∙◌, some, List, [], ◌∷◌, ◌++◌, Bytes, ok, arith,
  length, length-append, take, drop-append_length, u32_end, All,
}
use bash_lume.Base.Outcome.{>>=-eq-ok, ok-injective}
use bash_lume.Ir.Types.{CommandProgram}
use bash_lume.Ir.Limits.{Sizes, ScriptIr}
use bash_lume.Ir.EncodeProgram as EncodeProgram
use bash_lume.Pack.Types.{BlockEntry}
use bash_lume.Pack.Words.{slice}
use bash_lume.Pack.Codec.{Codec}
use bash_lume.Pack.Load.{get_elem?}
use bash_lume.Pack.Build.{Parts, add_command, add_commands}
use bash_lume.Pack.NameOrder.{lookup_block}
use bash_lume.Pack.BuildNames.{some-eq}
use bash_lume.Pack.BuildLookup.{insert_names-kept, insert_names-added}
use bash_lume.Pack.BuildInvariant.{
  IsBuilt, HasTexts, block_of, IsAdded, add_command-IsAdded, add_command-IsBuilt, encode-short,
}
use bash_lume.Pack.AssembleSeal.{CodecLaws}

module _ {A : Type 0} where
  get_elem?-append :
      (xs ys : List A) (i : ℕ) (x : A) → get_elem? xs i ≡ some x → get_elem? (xs ++ ys) i ≡ some x
  get_elem?-append [] ys i x h = cc
  get_elem?-append (y ∷ xs) ys zero x h = h
  get_elem?-append (y ∷ xs) ys (suc i) x h = get_elem?-append xs ys i x h

  get_elem?-last : (xs : List A) (x : A) → get_elem? (xs ++ x ∷ []) (length xs) ≡ some x
  get_elem?-last [] x = refl
  get_elem?-last (y ∷ xs) x = get_elem?-last xs x

take-append : (n : ℕ) (xs ys : Bytes) → n ≤ length xs → take n (xs ++ ys) ≡ take n xs
take-append zero xs ys h = refl
take-append (suc n) [] ys h = ground arith
take-append (suc n) (x ∷ xs) ys h = ap (λ t. x ∷ t) (take-append n xs ys (omega arith))

slice-append : (o n : ℕ) (xs ys : Bytes) → o + n ≤ length xs → slice o n (xs ++ ys) ≡ slice o n xs
unfolding slice
slice-append zero n xs ys h = take-append n xs ys (omega arith)
slice-append (suc o) n [] ys h = ground arith
slice-append (suc o) n (x ∷ xs) ys h = slice-append o n xs ys (omega arith)

take-length : (xs : Bytes) → take (length xs) xs ≡ xs
take-length [] = refl
take-length (x ∷ xs) = ap (λ t. x ∷ t) (take-length xs)

slice-append_behind : (xs ys : Bytes) → slice (length xs) (length ys) (xs ++ ys) ≡ ys
unfolding slice
slice-append_behind xs ys = ap (take (length ys)) (drop-append_length xs ys) ∙ take-length ys

module _ (C : Codec) (Z : Sizes) (S : ScriptIr) (L : CodecLaws C) (level : ℕ) where
  open C use {sha256, compress}
  open S use {ScriptModule}

  -- The block of a number holds a command, and its registrations name the block.
  pub record IsStored (i : ℕ) (command : CommandProgram ScriptModule) (parts : Parts) : Type 0 where
    pub encoded : Bytes
    pub compressed : Bytes
    pub block : BlockEntry
    pub encodes : EncodeProgram.encode Z S command ≡ ok encoded
    pub compresses : compress level encoded ≡ some compressed
    pub found : get_elem? parts.blocks i ≡ some block
    pub compressed_length : block.compressed_length ≡ length compressed
    pub uncompressed_length : block.uncompressed_length ≡ length encoded
    pub hashed : block.hash ≡ sha256 compressed
    pub inside : block.offset + length compressed ≤ length parts.chunks
    pub chunk : slice block.offset (length compressed) parts.chunks ≡ compressed
    pub named :
        (j : ℕ) (r : Bytes)
        → get_elem? command.registrations j ≡ some r
        → lookup_block parts.names r ≡ some (i % u32_end)

  add_command-IsStored :
      (n : ℕ) (command : CommandProgram ScriptModule) (parts next : Parts)
      → IsBuilt n parts
      → IsAdded C Z S L level n command parts next
      → IsStored n command next
  add_command-IsStored n command parts next b a =
      let size : length next.chunks ≡ length parts.chunks + length a.compressed =
        ap length a.chunks ∙ length-append parts.chunks a.compressed in
      let fits = encode-short C Z S L command a.encoded a.encodes in
      record {
        encoded = a.encoded;
        compressed = a.compressed;
        block = block_of C Z S L parts a.encoded a.compressed;
        encodes = a.encodes;
        compresses = a.compresses;
        found =
            ap (λ bs. get_elem? bs n) a.blocks
            ∙ subst
                (λ m.
                  get_elem? (parts.blocks ++ block_of C Z S L parts a.encoded a.compressed ∷ []) m
                  ≡ some (block_of C Z S L parts a.encoded a.compressed))
                b.count
                (get_elem?-last parts.blocks (block_of C Z S L parts a.encoded a.compressed));
        compressed_length = omega (arith, a.short);
        uncompressed_length = omega (arith, fits);
        hashed = refl;
        inside = omega (arith, size);
        chunk =
            ap (slice (length parts.chunks) (length a.compressed)) a.chunks
            ∙ slice-append_behind parts.chunks a.compressed;
        named = λ j r g.
            insert_names-added n command.registrations parts.names next.names j r b.chain g a.names;
      }

  -- A stored command stays stored.
  IsStored-kept :
      (i n : ℕ) (stored command : CommandProgram ScriptModule) (parts next : Parts)
      → IsBuilt n parts
      → IsAdded C Z S L level n command parts next
      → IsStored i stored parts
      → IsStored i stored next
  IsStored-kept i n stored command parts next b a s =
      let size : length next.chunks ≡ length parts.chunks + length a.compressed =
        ap length a.chunks ∙ length-append parts.chunks a.compressed in
      record {
        encoded = s.encoded;
        compressed = s.compressed;
        block = s.block;
        encodes = s.encodes;
        compresses = s.compresses;
        found =
            ap (λ bs. get_elem? bs i) a.blocks
            ∙ get_elem?-append parts.blocks (block_of C Z S L parts a.encoded a.compressed ∷ []) i
                s.block s.found;
        compressed_length = s.compressed_length;
        uncompressed_length = s.uncompressed_length;
        hashed = s.hashed;
        inside = omega (arith, size, s.inside);
        chunk =
            ap (slice s.block.offset (length s.compressed)) a.chunks
            ∙ (slice-append s.block.offset (length s.compressed) parts.chunks a.compressed s.inside
                ∙ s.chunk);
        named = λ j r g.
            insert_names-kept n command.registrations parts.names next.names r (i % u32_end) b.chain
              (s.named j r g) a.names;
      }

  all_kept :
      (n : ℕ) (commands : List (CommandProgram ScriptModule)) (parts next : Parts) (i : ℕ)
      (stored : CommandProgram ScriptModule)
      → All (HasTexts C Z S L) commands
      → IsBuilt n parts
      → IsStored i stored parts
      → add_commands C Z S level n commands parts ≡ ok next
      → IsStored i stored next
  unfolding add_commands
  all_kept n [] parts next i stored texts b s h = subst (IsStored i stored) (ok-injective h) s
  all_kept n (command ∷ commands) parts next i stored texts b s h =
      let (middle, m, h₁) = >>=-eq-ok (add_command C Z S level n command parts) _ h in
      let a = add_command-IsAdded C Z S L level n command parts middle m in
      all_kept (suc n) commands middle next i stored texts.1
        (add_command-IsBuilt C Z S L level n command parts middle texts.0 b a)
        (IsStored-kept i n stored command parts middle b a s) h₁

  -- Every command that is added is stored in the end.
  pub add_commands-IsStored :
      (n : ℕ) (commands : List (CommandProgram ScriptModule)) (parts next : Parts) (i : ℕ)
      (stored : CommandProgram ScriptModule)
      → All (HasTexts C Z S L) commands
      → IsBuilt n parts
      → get_elem? commands i ≡ some stored
      → add_commands C Z S level n commands parts ≡ ok next
      → IsStored (n + i) stored next
  unfolding add_commands
  add_commands-IsStored n [] parts next i stored texts b g h = cc
  add_commands-IsStored n (command ∷ commands) parts next zero stored texts b g h =
      let (middle, m, h₁) = >>=-eq-ok (add_command C Z S level n command parts) _ h in
      let a = add_command-IsAdded C Z S L level n command parts middle m in
      let s =
        all_kept (suc n) commands middle next n command texts.1
          (add_command-IsBuilt C Z S L level n command parts middle texts.0 b a)
          (add_command-IsStored n command parts middle b a) h₁ in
      let e : n ≡ n + 0 = omega arith in
      subst (λ k. IsStored k stored next) e (subst (λ c. IsStored n c next) (some-eq g) s)
  add_commands-IsStored n (command ∷ commands) parts next (suc i) stored texts b g h =
      let (middle, m, h₁) = >>=-eq-ok (add_command C Z S level n command parts) _ h in
      let a = add_command-IsAdded C Z S L level n command parts middle m in
      let e : suc n + i ≡ n + suc i = omega arith in
      subst (λ k. IsStored k stored next) e
        (add_commands-IsStored (suc n) commands middle next i stored texts.1
          (add_command-IsBuilt C Z S L level n command parts middle texts.0 b a) g h₁)
