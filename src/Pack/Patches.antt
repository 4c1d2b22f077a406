-- ===== src/Pack/Patches.antt =====
-- Sequences of writes into a buffer, as `PackBuilder::build` of rules/format.rs makes them: what a range holds in the
-- end.
use bash_lume.Base.{
  Bool-cases, and-eq-true, leb→le, ℕ, ◌+◌, ◌≤◌, ◌≡◌, inl, inr, refl, sym, ap, ◌∙◌, ◌||◌, ◌&&◌,
  Option, none, some, List, [], ◌∷◌, ◌++◌, Bytes, arith, leb, ◌==◌, ==→eq, length, take, All,
  if◌then◌else◌,
}
use bash_lume.Pack.Words.{slice, copy_at}
use bash_lume.Pack.Header.{zeros}
use bash_lume.Pack.Writes.{
  slice-zeros, length-zeros, length-copy_at, slice-copy_at, slice-copy_at_before,
  slice-copy_at_after, take-copy_at_within,
}

-- The write of a value of a size at a place.
pub record Patch : Type 0 where
  pub place : ℕ
  pub size : ℕ
  pub value : Bytes

-- A buffer after writes, the last one first.
abbrev pub patched : List Patch → Bytes → Bytes
patched [] bytes = bytes
patched (patch ∷ patches) bytes = copy_at patch.place patch.value (patched patches bytes)

-- The value has its size, and lies within the bytes before a limit.
abbrev pub IsFit : ℕ → Patch → Type 0
IsFit limit patch = (length patch.value ≡ patch.size) × (patch.place + patch.size ≤ limit)

-- What the last write at a range leaves there, where no later write meets the range in part.
unfoldable pub written : ℕ → ℕ → List Patch → Option Bytes
written o n [] = some (zeros n)
written o n (patch ∷ patches) =
    let earlier = written o n patches in
    if patch.place == o && patch.size == n
    then some patch.value
    else if leb (o + n) patch.place || leb (patch.place + patch.size) o
    then earlier
    else none

pub length-patched :
    (limit : ℕ) (patches : List Patch) (bytes : Bytes)
    → All (IsFit limit) patches
    → limit ≤ length bytes
    → length (patched patches bytes) ≡ length bytes
length-patched limit [] bytes fit h = refl
length-patched limit (patch ∷ patches) bytes fit h =
    let before = length-patched limit patches bytes fit.1 h in
    let ((size, place), _) = fit in
    length-copy_at patch.place patch.value (patched patches bytes) (omega arith) ∙ before

some-eq : {v w : Bytes} → some v ≡ some w → v ≡ w
some-eq h = cc h

slice-patched-step :
    (limit : ℕ) (patch : Patch) (patches : List Patch) (o n : ℕ) (v : Bytes)
    → All (IsFit limit) (patch ∷ patches)
    → (written o n patches ≡ some v → slice o n (patched patches (zeros limit)) ≡ v)
    → written o n (patch ∷ patches) ≡ some v
    → slice o n (patched (patch ∷ patches) (zeros limit)) ≡ v
unfolding written
slice-patched-step limit patch patches o n v ((size, inside), fit) earlier h =
    let bytes = patched patches (zeros limit) in
    let full : length bytes ≡ limit =
      length-patched limit patches (zeros limit) fit (omega (arith, length-zeros limit))
      ∙ length-zeros limit in
    elim (Bool-cases (patch.place == o && patch.size == n)) [
      | inl here ↦
          let (a, b) = and-eq-true (patch.place == o) (patch.size == n) here in
          let wrote : some patch.value ≡ some v = rw here at h in
          let e = ==→eq patch.place o a in
          let f = ==→eq patch.size n b in
          ap (λ m. slice m n (copy_at patch.place patch.value bytes)) (sym e)
          ∙ (ap (λ m. slice patch.place m (copy_at patch.place patch.value bytes))
                (sym f ∙ sym size)
              ∙ (slice-copy_at patch.place patch.value bytes (omega arith) ∙ some-eq wrote))
      | inr elsewhere ↦ elim (Bool-cases (leb (o + n) patch.place)) [
        | inl before ↦
            slice-copy_at_before o n patch.place patch.value bytes (leb→le _ _ before) (omega arith)
            ∙ earlier (rw (elsewhere, before) at h)
        | inr late ↦ elim (Bool-cases (leb (patch.place + patch.size) o)) [
          | inl after ↦
              slice-copy_at_after o n patch.place patch.value bytes
                (omega (arith, leb→le _ _ after, size)) (omega arith)
              ∙ earlier (rw (elsewhere, late, after) at h)
          | inr met ↦ cc (rw (elsewhere, late, met) at h)
        ]
      ]
    ]

-- A range of a zeroed buffer after writes is what the last write there left.
pub slice-patched :
    (limit : ℕ) (patches : List Patch) (o n : ℕ) (v : Bytes)
    → All (IsFit limit) patches
    → o + n ≤ limit
    → written o n patches ≡ some v
    → slice o n (patched patches (zeros limit)) ≡ v
unfolding written
slice-patched limit [] o n v fit le h = slice-zeros o n limit le ∙ some-eq h
slice-patched limit (patch ∷ patches) o n v fit le h =
    slice-patched-step limit patch patches o n v fit (slice-patched limit patches o n v fit.1 le) h

-- Writes before a limit are made to the bytes before it.
pub take-patched :
    (limit : ℕ) (patches : List Patch) (bytes : Bytes)
    → All (IsFit limit) patches
    → limit ≤ length bytes
    → take limit (patched patches bytes) ≡ patched patches (take limit bytes)
take-patched limit [] bytes fit h = refl
take-patched limit (patch ∷ patches) bytes ((size, place), fit) h =
    let full = length-patched limit patches bytes fit h in
    take-copy_at_within limit patch.place patch.value (patched patches bytes) (omega arith)
      (omega arith)
    ∙ ap (copy_at patch.place patch.value) (take-patched limit patches bytes fit h)

-- They leave a range behind the limit alone.
pub slice-patched_behind :
    (limit : ℕ) (patches : List Patch) (bytes : Bytes) (o n : ℕ)
    → All (IsFit limit) patches
    → limit ≤ length bytes
    → limit ≤ o
    → slice o n (patched patches bytes) ≡ slice o n bytes
slice-patched_behind limit [] bytes o n fit h le = refl
slice-patched_behind limit (patch ∷ patches) bytes o n ((size, place), fit) h le =
    let full = length-patched limit patches bytes fit h in
    slice-copy_at_after o n patch.place patch.value (patched patches bytes) (omega arith)
      (omega arith)
    ∙ slice-patched_behind limit patches bytes o n fit h le

pub patched-append :
    (patches earlier : List Patch) (bytes : Bytes)
    → patched (patches ++ earlier) bytes ≡ patched patches (patched earlier bytes)
patched-append [] earlier bytes = refl
patched-append (patch ∷ patches) earlier bytes =
    ap (copy_at patch.place patch.value) (patched-append patches earlier bytes)
