-- ===== src/Ir/Writes.antt =====
-- What an encoder appends to the buffer, one rule for each way to build an encoder.
use mathlib.Core.List.{append-nil, append_assoc}
use bash_lume.Base.{
  ℕ, ◌<◌, ◌++◌, ◌≡◌, refl, List, [], ◌∷◌, Bytes, Result, ok, arith, All, le16, le32, u32_end,
}
use bash_lume.Ir.Types.{IrError}
use bash_lume.Ir.Encoder.{
  Encode, ◌>>◌, ensure, extend, skip, encode_each, put_u8, put_u16, put_u32, put_count,
}
use bash_lume.Ir.Wire.{each}

-- `m` succeeds on every buffer and appends `w`.
pub record Writes (m : Encode) (w : Bytes) : Type 0 where
  pub run : (buffer : Bytes) → m buffer ≡ ok (buffer ++ w)

pub Writes-extend : (w : Bytes) → Writes (extend w) w
unfolding extend
Writes-extend w = record { run = λ buffer. refl }

pub Writes-skip : Writes skip []
unfolding skip
Writes-skip = record { run = λ buffer. rw append-nil }

pub Writes->> : {m k : Encode} {w v : Bytes} → Writes m w → Writes k v → Writes (m >> k) (w ++ v)
unfolding ◌>>◌
Writes->> {w} {v} hm hk = record {
  run = λ buffer. rw (hm.run buffer) (rw (hk.run (buffer ++ w)) (rw append_assoc));
}

-- The last step of a block, whose layout ends in `[]`.
pub Writes-last : {m : Encode} {w : Bytes} → Writes m w → Writes m (w ++ [])
Writes-last {m} {w} h = rw append-nil h

pub Writes-ensure :
    {r : Result IrError (Unit {0})} {k : Encode} {w : Bytes}
    → r ≡ ok tt
    → Writes k w
    → Writes (ensure r >> k) w
unfolding ◌>>◌ ensure
Writes-ensure e h = record { run = λ buffer. rw e (h.run buffer) }

pub Writes-u8 : (n : ℕ) → Writes (put_u8 n) (n ∷ [])
unfolding put_u8
Writes-u8 n = Writes-extend (n ∷ [])

pub Writes-u16 : (n : ℕ) → Writes (put_u16 n) (le16 n)
unfolding put_u16
Writes-u16 n = Writes-extend (le16 n)

pub Writes-u32 : (n : ℕ) → Writes (put_u32 n) (le32 n)
unfolding put_u32
Writes-u32 n = Writes-extend (le32 n)

pub Writes-count : (n : ℕ) → n < u32_end → Writes (put_count n) (le32 n)
unfolding put_count
Writes-count n h = Writes-ensure (ground arith) (Writes-u32 n)

-- A loop appends the layouts of its items in turn.
pub Writes-each {ℓ κ} :
    {A : Type ℓ} {P : A → Type κ} {item : A → Encode} {wire : A → Bytes}
    → ((x : A) → P x → Writes (item x) (wire x))
    → (xs : List A) → All P xs
    → Writes (encode_each item xs) (each wire xs)
unfolding encode_each each
Writes-each h [] ps = Writes-skip
Writes-each h (x ∷ xs) ps = Writes->> (h x ps.0) (Writes-each h xs ps.1)
