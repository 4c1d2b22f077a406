-- ===== src/Pack/BuildLookup.antt =====
-- The names that `PackBuilder::build` of rules/format.rs collects, looked up again.
use Prim.Native.Nat.{Ordering}
use mathlib.Core.Path.{subst}
use bash_lume.Base.{
  ℕ, zero, suc, ◌%◌, ◌≡◌, inl, inr, refl, ap, ◌∙◌, false, Option, none, some, List, [], ◌∷◌, Bytes,
  ok, u32_end, bytes_eq, bytes_eq_refl, bytes_eq→eq, Bool-cases,
}
use bash_lume.Base.Outcome.{>>=-eq-ok, ok-injective}
use bash_lume.Base.Order.{compare_bytes, compare_bytes-reverse, reverse_order}
use bash_lume.Pack.Types.{NameEntry}
use bash_lume.Pack.Load.{get_elem?, is_gt}
use bash_lume.Pack.Build.{insert_name, inserted, insert_names}
use bash_lume.Pack.NameOrder.{
  compare_bytes_trans, compare_bytes-bytes_eq, IsChain, lookup_block, text_lt-compare,
}
use bash_lume.Pack.BuildNames.{
  some-eq, insert_name-shape, insert_name-IsChain, in_order, inserted-eq-ok,
}

lt-differs : (a b : Bytes) → compare_bytes a b ≡ Ordering.lt → bytes_eq a b ≡ false
lt-differs a b h = elim (Bool-cases (bytes_eq a b)) [
  | inl same ↦ let e = compare_bytes-bytes_eq a b same in cc
  | inr other ↦ other
]

gt-differs : (a b : Bytes) → compare_bytes a b ≡ Ordering.gt → bytes_eq b a ≡ false
gt-differs a b h = lt-differs b a (compare_bytes-reverse a b ∙ ap reverse_order h)

-- What is found behind a name in the order comes after it.
lookup_after :
    (previous command : Bytes) (names : List NameEntry) (k : ℕ)
    → IsChain (some previous) names
    → lookup_block names command ≡ some k
    → compare_bytes previous command ≡ Ordering.lt
lookup_after previous command [] k c h = cc
lookup_after previous command (entry ∷ names) k c h =
    let before = text_lt-compare previous entry.name c.0 in
    elim (Bool-cases (bytes_eq entry.name command)) [
      | inl same ↦ rw (← bytes_eq→eq entry.name command same) before
      | inr other ↦
          compare_bytes_trans previous entry.name command before
            (ap is_gt (lookup_after entry.name command names k c.1 (rw other at h)))
    ]

insert_name-own :
    (entry : NameEntry) (names result : List NameEntry)
    → insert_name entry names ≡ some result
    → lookup_block result entry.name ≡ some entry.block_id
unfolding insert_name
insert_name-own entry [] result h =
    subst (λ r. lookup_block r entry.name ≡ some entry.block_id) (some-eq h)
      (rw (bytes_eq_refl entry.name) refl)
insert_name-own entry (first ∷ names) result h =
    elim (insert_name-shape entry first names result (compare_bytes entry.name first.name) refl h) [
      | inl (e, same) ↦
          subst (λ r. lookup_block r entry.name ≡ some entry.block_id) same
            (rw (bytes_eq_refl entry.name) refl)
      | inr (e, rest, h₁, same) ↦
          subst (λ r. lookup_block r entry.name ≡ some entry.block_id) same
            (rw (gt-differs entry.name first.name e) (insert_name-own entry names rest h₁))
    ]

-- A name that is found before an insertion is found after it.
insert_name-kept :
    (previous : Option Bytes) (entry : NameEntry) (names result : List NameEntry) (command : Bytes)
    (k : ℕ)
    → IsChain previous names
    → lookup_block names command ≡ some k
    → insert_name entry names ≡ some result
    → lookup_block result command ≡ some k
unfolding insert_name
insert_name-kept previous entry [] result command k c f h = cc
insert_name-kept previous entry (first ∷ names) result command k c f h =
    elim (insert_name-shape entry first names result (compare_bytes entry.name first.name) refl h) [
      | inl (e, same) ↦
          let after =
            lookup_after entry.name command (first ∷ names) k
              (in_order entry.name first.name e, c.1) f in
          subst (λ r. lookup_block r command ≡ some k) same
            (rw (lt-differs entry.name command after) f)
      | inr (e, rest, h₁, same) ↦
          subst (λ r. lookup_block r command ≡ some k) same
            (elim (Bool-cases (bytes_eq first.name command)) [
              | inl here ↦ rw here (rw here at f)
              | inr there ↦ rw there (
                  insert_name-kept (some first.name) entry names rest command k c.1 (rw there at f)
                    h₁)
            ])
    ]

pub insert_names-kept :
    (block_id : ℕ) (registrations : List Bytes) (names result : List NameEntry) (command : Bytes)
    (k : ℕ)
    → IsChain none names
    → lookup_block names command ≡ some k
    → insert_names block_id registrations names ≡ ok result
    → lookup_block result command ≡ some k
unfolding insert_names
insert_names-kept block_id [] names result command k c f h =
    subst (λ r. lookup_block r command ≡ some k) (ok-injective h) f
insert_names-kept block_id (registration ∷ registrations) names result command k c f h =
    let entry : NameEntry = record { name = registration; block_id = block_id % u32_end } in
    let (later, i, h₁) = >>=-eq-ok (inserted registration (insert_name entry names)) _ h in
    let found = inserted-eq-ok registration (insert_name entry names) later i in
    insert_names-kept block_id registrations later result command k
      (insert_name-IsChain none entry names later c refl found)
      (insert_name-kept none entry names later command k c f found) h₁

-- Each registration of a block is found, with the block.
pub insert_names-added :
    (block_id : ℕ) (registrations : List Bytes) (names result : List NameEntry) (j : ℕ) (r : Bytes)
    → IsChain none names
    → get_elem? registrations j ≡ some r
    → insert_names block_id registrations names ≡ ok result
    → lookup_block result r ≡ some (block_id % u32_end)
unfolding insert_names
insert_names-added block_id [] names result j r c g h = cc
insert_names-added block_id (registration ∷ registrations) names result zero r c g h =
    let entry : NameEntry = record { name = registration; block_id = block_id % u32_end } in
    let (later, i, h₁) = >>=-eq-ok (inserted registration (insert_name entry names)) _ h in
    let found = inserted-eq-ok registration (insert_name entry names) later i in
    let chain = insert_name-IsChain none entry names later c refl found in
    subst (λ t. lookup_block result t ≡ some (block_id % u32_end)) (some-eq g)
      (insert_names-kept block_id registrations later result registration (block_id % u32_end) chain
        (insert_name-own entry names later found) h₁)
insert_names-added block_id (registration ∷ registrations) names result (suc j) r c g h =
    let entry : NameEntry = record { name = registration; block_id = block_id % u32_end } in
    let (later, i, h₁) = >>=-eq-ok (inserted registration (insert_name entry names)) _ h in
    let found = inserted-eq-ok registration (insert_name entry names) later i in
    insert_names-added block_id registrations later result j r
      (insert_name-IsChain none entry names later c refl found) g h₁
