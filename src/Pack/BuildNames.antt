-- ===== src/Pack/BuildNames.antt =====
-- The names of a pack that `PackBuilder::build` of rules/format.rs collects, in strict order.
use Prim.Native.Nat.{Ordering}
use mathlib.Core.Path.{subst}
use bash_lume.Base.{
  ℕ, suc, ◌%◌, ◌≤◌, ◌<◌, ◌≡◌, ◌⊎◌, inl, inr, refl, ap, ◌∙◌, true, false, Option, none, some, List,
  [], ◌∷◌, Bytes, ok, arith, u32_end, All,
}
use bash_lume.Base.Outcome.{>>=-eq-ok, ok-injective}
use bash_lume.Base.Order.{compare_bytes, compare_bytes-reverse, reverse_order}
use bash_lume.Base.Utf8.{valid_utf8}
use bash_lume.Pack.Types.{NameEntry}
use bash_lume.Pack.Index.{out_of_order}
use bash_lume.Pack.Build.{insert_name, inserted, insert_names}
use bash_lume.Pack.IndexRoundTrip.{IsListed}
use bash_lume.Pack.NameOrder.{IsChain}

pub some-eq : {A : Type 0} {a b : A} → some a ≡ some b → a ≡ b
some-eq h = cc h

later-shape :
    (first : NameEntry) (later : Option (List NameEntry)) (result : List NameEntry)
    → (elim later [ none ↦ none | some rest ↦ some (first ∷ rest) ]) ≡ some result
    → (rest : List NameEntry) × (later ≡ some rest) × (first ∷ rest ≡ result)
later-shape first none result h = cc
later-shape first (some rest) result h = (rest, refl, some-eq h)

pub insert_name-shape :
    (entry first : NameEntry) (names result : List NameEntry) (o : Ordering)
    → compare_bytes entry.name first.name ≡ o
    → insert_name entry (first ∷ names) ≡ some result
    → ((o ≡ Ordering.lt) × (entry ∷ first ∷ names ≡ result))
      ⊎ ((o ≡ Ordering.gt)
          × (rest : List NameEntry) × (insert_name entry names ≡ some rest)
          × (first ∷ rest ≡ result))
unfolding insert_name
insert_name-shape entry first names result Ordering.lt e h =
    inl (refl, some-eq (rw (insert_name, e) at h))
insert_name-shape entry first names result Ordering.eq e h = cc (rw (insert_name, e) at h)
insert_name-shape entry first names result Ordering.gt e h =
    let (rest, a, b) =
      later-shape first (insert_name entry names) result (rw (insert_name, e) at h) in
    inr (refl, rest, a, b)

pub in_order : (a b : Bytes) → compare_bytes a b ≡ Ordering.lt → out_of_order (some a) b ≡ false
in_order a b h = ground (arith, h)

-- Inserting a name keeps the strict order.
pub insert_name-IsChain :
    (previous : Option Bytes) (entry : NameEntry) (names result : List NameEntry)
    → IsChain previous names
    → out_of_order previous entry.name ≡ false
    → insert_name entry names ≡ some result
    → IsChain previous result
unfolding insert_name
insert_name-IsChain previous entry [] result c o h = subst (IsChain previous) (some-eq h) (o, tt)
insert_name-IsChain previous entry (first ∷ names) result c o h =
    elim (insert_name-shape entry first names result (compare_bytes entry.name first.name) refl h) [
      | inl (e, same) ↦ subst (IsChain previous) same (o, (in_order entry.name first.name e, c.1))
      | inr (e, rest, h₁, same) ↦
          let before : compare_bytes first.name entry.name ≡ Ordering.lt =
            compare_bytes-reverse entry.name first.name ∙ ap reverse_order e in
          subst (IsChain previous) same (
            c.0,
            insert_name-IsChain (some first.name) entry names rest c.1
                (in_order first.name entry.name before) h₁,
          )
    ]

insert_name-All :
    (P : NameEntry → Type 0) (entry : NameEntry) (names result : List NameEntry)
    → P entry
    → All P names
    → insert_name entry names ≡ some result
    → All P result
unfolding insert_name
insert_name-All P entry [] result p ps h = subst (All P) (some-eq h) (p, tt)
insert_name-All P entry (first ∷ names) result p ps h =
    elim (insert_name-shape entry first names result (compare_bytes entry.name first.name) refl h) [
      | inl (e, same) ↦ subst (All P) same (p, ps)
      | inr (e, rest, h₁, same) ↦
          subst (All P) same (ps.0, insert_name-All P entry names rest p ps.1 h₁)
    ]

-- A valid text, of a block before a number.
abbrev pub IsOwn : ℕ → NameEntry → Type 0
IsOwn n entry = (valid_utf8 entry.name ≡ true) × (entry.block_id < n)

pub IsOwn-weaken :
    (n m : ℕ) (names : List NameEntry) → n ≤ m → All (IsOwn n) names → All (IsOwn m) names
IsOwn-weaken n m [] le own = tt
IsOwn-weaken n m (entry ∷ names) le own =
    ((own.0.0, omega (arith, own.0.1)), IsOwn-weaken n m names le own.1)

pub inserted-eq-ok :
    (registration : Bytes) (found : Option (List NameEntry)) (names : List NameEntry)
    → inserted registration found ≡ ok names
    → found ≡ some names
inserted-eq-ok registration none names h = cc
inserted-eq-ok registration (some n) names h = ap some (ok-injective h)

abbrev pub IsText : Bytes → Type 0
IsText text = valid_utf8 text ≡ true

-- The registrations of a block, among the names of the blocks before it.
pub insert_names-IsOwn :
    (block_id : ℕ) (registrations : List Bytes) (names result : List NameEntry)
    → All IsText registrations
    → All (IsOwn (suc block_id)) names
    → IsChain none names
    → insert_names block_id registrations names ≡ ok result
    → All (IsOwn (suc block_id)) result × IsChain none result
unfolding insert_names
insert_names-IsOwn block_id [] names result texts own c h =
    subst (λ r. All (IsOwn (suc block_id)) r × IsChain none r) (ok-injective h) (own, c)
insert_names-IsOwn block_id (registration ∷ registrations) names result texts own c h =
    let entry : NameEntry = record { name = registration; block_id = block_id % u32_end } in
    let (later, i, h₁) = >>=-eq-ok (inserted registration (insert_name entry names)) _ h in
    let found = inserted-eq-ok registration (insert_name entry names) later i in
    insert_names-IsOwn block_id registrations later result texts.1
      (insert_name-All (IsOwn (suc block_id)) entry names later (texts.0, omega arith) own found)
      (insert_name-IsChain none entry names later c refl found) h₁

-- Names in order, of blocks that fit 32 bits, can be listed in an index.
pub IsChain-IsListed :
    (previous : Option Bytes) (n : ℕ) (names : List NameEntry)
    → n ≤ u32_end
    → All (IsOwn n) names
    → IsChain previous names
    → IsListed previous names
IsChain-IsListed previous n [] le own c = tt
IsChain-IsListed previous n (entry ∷ names) le own c =
    (own.0.0, c.0, omega (arith, own.0.1), IsChain-IsListed (some entry.name) n names le own.1 c.1)
