-- ===== src/SessionRuntime/Listing/Sorting.antt =====
-- The sort of ListRunnableSessions loses no session and adds none.
use dora_agent.Base.{
  Among, Bool, Bool-cases, List, String, String_discrete, Table, [], ap, arith, false,
  if◌then◌else◌, inl, inr, length, lookup, map, refl, some, suc, true, ℕ, ◌∙◌, ◌∷◌, ◌≡◌, ◌⊎◌,
}
use dora_agent.SessionRuntime.Store.Runnable.{insert_listed, listed_before, sort_listed}

abbrev pub names : Table ℕ → List String
names m = map (λ a. a.0) m

if-Among :
    (x : String) (b : Bool) (l m : Table ℕ)
    → Among x (names (if b then l else m))
    → Among x (names l) ⊎ Among x (names m)
if-Among x true l m h = inl h
if-Among x false l m h = inr h

insert_listed-Among :
    (x : String) (a : String × ℕ) (m : Table ℕ)
    → Among x (names (insert_listed a m))
    → (a.0 ≡ x) ⊎ Among x (names m)
unfolding insert_listed
insert_listed-Among x a [] h = h
insert_listed-Among x a (b ∷ m) h =
    elim (if-Among x (listed_before b a) (b ∷ insert_listed a m) (a ∷ b ∷ m) h) [
      | inl (inl e) ↦ inr (inl e)
      | inl (inr g) ↦ elim (insert_listed-Among x a m g) [ inl e ↦ inl e | inr old ↦ inr (inr old) ]
      | inr g ↦ g
    ]

Among-if :
    (x : String) (b : Bool) (l m : Table ℕ)
    → Among x (names l)
    → Among x (names m)
    → Among x (names (if b then l else m))
Among-if x true l m h g = h
Among-if x false l m h g = g

Among-insert_listed :
    (x : String) (a : String × ℕ) (m : Table ℕ)
    → (a.0 ≡ x) ⊎ Among x (names m)
    → Among x (names (insert_listed a m))
unfolding insert_listed
Among-insert_listed x a [] h = h
Among-insert_listed x a (b ∷ m) h =
    Among-if x (listed_before b a) (b ∷ insert_listed a m) (a ∷ b ∷ m)
      (elim h [
        | inl e ↦ inr (Among-insert_listed x a m (inl e))
        | inr (inl e) ↦ inl e
        | inr (inr g) ↦ inr (Among-insert_listed x a m (inr g))
      ])
      h

pub sort_listed-Among :
    (x : String) (m : Table ℕ) → Among x (names (sort_listed m)) → Among x (names m)
unfolding sort_listed
sort_listed-Among x [] h = h
sort_listed-Among x (a ∷ m) h = elim (insert_listed-Among x a (sort_listed m) h) [
  | inl e ↦ inl e
  | inr g ↦ inr (sort_listed-Among x m g)
]

pub Among-sort_listed :
    (x : String) (m : Table ℕ) → Among x (names m) → Among x (names (sort_listed m))
unfolding sort_listed
Among-sort_listed x [] h = h
Among-sort_listed x (a ∷ m) (inl e) = Among-insert_listed x a (sort_listed m) (inl e)
Among-sort_listed x (a ∷ m) (inr g) =
    Among-insert_listed x a (sort_listed m) (inr (Among-sort_listed x m g))

insert_listed-length :
    (a : String × ℕ) (m : Table ℕ) → length (names (insert_listed a m)) ≡ suc (length (names m))
unfolding insert_listed
insert_listed-length a [] = refl
insert_listed-length a (b ∷ m) =
    let rest = insert_listed-length a m in
    elim (Bool-cases (listed_before b a)) [ inl y ↦ rw y (ap suc rest) | inr n ↦ rw n refl ]

pub sort_listed-length : (m : Table ℕ) → length (names (sort_listed m)) ≡ length (names m)
unfolding sort_listed
sort_listed-length [] = refl
sort_listed-length (a ∷ m) = insert_listed-length a (sort_listed m) ∙ ap suc (sort_listed-length m)

-- A session is among the names of a map where the map has a value for it.
pub lookup-Among : (x : String) (v : ℕ) (m : Table ℕ) → lookup x m ≡ some v → Among x (names m)
unfolding lookup
lookup-Among x v [] h = cc
lookup-Among x v ((j, w) ∷ m) h = elim (String_discrete j x) [
  | yes e ↦ inl e
  | no n ↦ inr (lookup-Among x v m (ground arith))
]

pub Among-lookup : (x : String) (m : Table ℕ) → Among x (names m) → (v : ℕ) × (lookup x m ≡ some v)
unfolding lookup
Among-lookup x [] h = absurd h
Among-lookup x ((j, w) ∷ m) h = elim (String_discrete j x) [
  | yes e ↦ (w, ground arith)
  | no n ↦ elim h [
    | inl e ↦ absurd (n e)
    | inr g ↦ let (v, f) = Among-lookup x m g in (v, ground arith)
  ]
]
