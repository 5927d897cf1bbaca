-- ===== src/Base/Maps.antt =====
-- A Go map with string keys as an association list. Go leaves the order of iteration open: the
-- theorems range over every list. A write puts the entry in front and drops the older one.
use Prim.Native.String.{String}
use mathlib.Core.Path.{◌≡◌, refl, sym, subst, ◌∙◌}
use mathlib.Core.Logic.{◌⊎◌, ◌≢◌, inl, inr}
use mathlib.Core.Bool.{true, false}
use mathlib.Core.Option.{Option, none, some}
use mathlib.Core.List.{List, [], ◌∷◌}
use native.Mathlib.Omega.{arith}
use dora_agent.Base.Tests.{if◌then◌else◌, str_eq, String_discrete}

abbrev pub Table : Type 0 → Type 0
Table V = List (String × V)

module _ {V : Type 0} where
  unfoldable pub lookup : String → Table V → Option V
  lookup k [] = none
  lookup k ((j, v) ∷ m) = if str_eq j k then some v else lookup k m

  unfoldable pub erase : String → Table V → Table V
  erase k [] = []
  erase k ((j, v) ∷ m) = let rest = erase k m in if str_eq j k then rest else (j, v) ∷ rest

  unfoldable pub insert : String → V → Table V → Table V
  unfolding erase
  insert k v m = (k, v) ∷ erase k m

  -- The entry (k, v) stands in the table.
  abbrev pub Has : Table V → String → V → Type 0
  Has [] k v = ⊥
  Has ((j, w) ∷ m) k v = ((j ≡ k) × (w ≡ v)) ⊎ Has m k v

  lookup-erase :
      (k j : String) (m : Table V)
      → lookup j (erase k m) ≡ (if str_eq k j then none else lookup j m)
  unfolding lookup erase
  lookup-erase k j [] = ground arith
  lookup-erase k j ((i, w) ∷ m) = ground (arith, lookup-erase k j m)

  -- What a read finds after a write.
  pub lookup-insert :
      (k j : String) (v : V) (m : Table V)
      → lookup j (insert k v m) ≡ (if str_eq k j then some v else lookup j m)
  unfolding lookup insert
  lookup-insert k j v m = ground (arith, lookup-erase k j m)

  pub lookup-insert_self : (k : String) (v : V) (m : Table V) → lookup k (insert k v m) ≡ some v
  lookup-insert_self k v m = ground (arith, lookup-insert k k v m)

  pub Has-of_lookup : (k : String) (v : V) (m : Table V) → lookup k m ≡ some v → Has m k v
  unfolding lookup
  Has-of_lookup k v [] h = cc
  Has-of_lookup k v ((j, w) ∷ m) h =
      elim (String_discrete j k)
          as (λ d.
            ((if (elim d [ yes _ ↦ true | no _ ↦ false ]) then some w else lookup k m) ≡ some v)
            → Has ((j, w) ∷ m) k v) [
              | yes e ↦ λ q. inl (e, cc)
              | no e ↦ λ q. inr (Has-of_lookup k v m q)
            ]
        h

  Has-of_erase : (k j : String) (w : V) (m : Table V) → Has (erase k m) j w → Has m j w × (k ≢ j)
  unfolding erase
  Has-of_erase k j w [] h = absurd h
  Has-of_erase k j w ((i, u) ∷ m) h =
      elim (String_discrete i k)
          as (λ d.
            Has
              (let rest = erase k m in
                if (elim d [ yes _ ↦ true | no _ ↦ false ]) then rest else (i, u) ∷ rest)
              j w
            → Has ((i, u) ∷ m) j w × (k ≢ j)) [
              | yes e ↦ λ q. let (a, b) = Has-of_erase k j w m q in (inr a, b)
              | no e ↦ elim [
                | inl (p, q) ↦ (inl (p, q), λ r. e (p ∙ sym r))
                | inr q ↦ let (a, b) = Has-of_erase k j w m q in (inr a, b)
              ]
            ]
        h

  -- An entry after a write is the one written, or an older one under another key.
  pub Has-of_insert :
      (k j : String) (v w : V) (m : Table V)
      → Has (insert k v m) j w
      → ((k ≡ j) × (v ≡ w)) ⊎ (Has m j w × (k ≢ j))
  unfolding insert
  Has-of_insert k j v w m (inl e) = inl e
  Has-of_insert k j v w m (inr h) = inr (Has-of_erase k j w m h)

  -- There is nothing to drop under a key that is not there.
  pub erase_fresh : (k : String) (m : Table V) → lookup k m ≡ none → erase k m ≡ m
  unfolding lookup erase
  erase_fresh k [] h = refl
  erase_fresh k ((j, w) ∷ m) h = elim (String_discrete j k) [
    | yes p ↦ ground arith
    | no p ↦ let rest : erase k m ≡ m = erase_fresh k m (ground arith) in ground arith
  ]

  -- An entry under another key stays.
  pub lookup-insert_kept :
      (k j : String) (v w : V) (m : Table V)
      → lookup k m ≡ none
      → lookup j m ≡ some w
      → lookup j (insert k v m) ≡ some w
  lookup-insert_kept k j v w m n h = elim (String_discrete k j) [
    | yes e ↦ let q = subst (λ i. lookup i m ≡ none) e n in cc (q, h)
    | no e ↦ ground (arith, lookup-insert k j v m)
  ]

  -- What is read after a write was written, or was there before.
  pub found_before :
      (k j : String) (v w : V) (m : Table V)
      → lookup j (insert k v m) ≡ some w
      → ((k ≡ j) × (v ≡ w)) ⊎ ((lookup j m ≡ some w) × (k ≢ j))
  found_before k j v w m h = elim (String_discrete k j) [
    | yes e ↦ inl (
      e,
      let q = lookup-insert_self k v m in cc (subst (λ i. lookup i (insert k v m) ≡ some v) e q, h),
    )
    | no e ↦ inr (ground (arith, lookup-insert k j v m), e)
  ]
