-- ===== src/Approval/Primary.antt =====
-- A session has one pending primary review at most, in internal/aigc/approval/memory_store.go.
use dora_agent.Approval.Evolution.{ApprovalEvolves, ApprovalsTo, Keyed}
use dora_agent.Approval.Finality.{new_approval_store-Keyed, step-ApprovalsTo, step-Keyed}
use dora_agent.Approval.Models.{
  Approval, is_pending_approval, is_primary_review_approval, is_primary_type,
}
use dora_agent.Approval.State.{ApprovalStore, find_primary_review, new_approval_store}
use dora_agent.Approval.Steps.{ApprovalOp, approval_step, approval_steps}
use dora_agent.Base.{
  Bool-cases, Codec, List, String, Table, [], and_left, and_right, ap, found_before, inl, inr,
  insert, lookup, none, refl, some, str_eq, str_eq_refl, sym, trim_space, true, ℕ, ◌&&◌, ◌∙◌, ◌∷◌,
  ◌≡◌, ◌⊎◌,
}

OnePrimary : ApprovalStore → Type 0
OnePrimary s =
    (i j : String) (a b : Approval)
    → lookup i s.approvals ≡ some a
    → lookup j s.approvals ≡ some b
    → is_primary_review_approval a ≡ true
    → is_primary_review_approval b ≡ true
    → a.session_id ≡ b.session_id
    → i ≡ j

new_approval_store-OnePrimary : OnePrimary new_approval_store
unfolding OnePrimary new_approval_store lookup
new_approval_store-OnePrimary i j a b hi hj pa pb e = cc hi

no_primary_review :
    (m : Table Approval) (session i : String) (a : Approval)
    → find_primary_review session m ≡ none
    → lookup i m ≡ some a
    → a.session_id ≡ session
    → is_primary_review_approval a ≡ true
    → ⊥
unfolding find_primary_review lookup
no_primary_review [] session i a n h e p = cc h
no_primary_review ((k, b) ∷ m) session i a n h e p =
    let later = no_primary_review m session i a in
    elim (Bool-cases (str_eq b.session_id session && is_primary_review_approval b)) [
      | inl t ↦ let q : some b ≡ none = sym (rw t refl) ∙ n in cc q
      | inr f ↦
          let q : find_primary_review session m ≡ none = sym (rw f refl) ∙ n in
          elim (Bool-cases (str_eq k i)) [
            | inl t ↦
                let r : some b ≡ some a = sym (rw t refl) ∙ h in
                let same : b ≡ a = cc r in
                let there : (str_eq b.session_id session && is_primary_review_approval b) ≡ true =
                  rw (same, p, e, str_eq_refl session) refl in
                cc (there, f)
            | inr g ↦ later q (sym (rw g refl) ∙ h) e p
          ]
    ]

primary_before :
    (a x : Approval)
    → ApprovalEvolves a x
    → is_primary_review_approval x ≡ true
    → is_primary_review_approval a ≡ true
unfolding is_primary_review_approval
primary_before a x v h = elim (Bool-cases (is_pending_approval a.status)) [
  | inl p ↦
      let t = and_right _ _ h in
      let u : is_primary_type (trim_space a.artifact_type) ≡ true =
        ap (λ y. is_primary_type (trim_space y)) (sym v.same_type) ∙ t in
      rw (p, u) refl
  | inr n ↦
      let (e, _, _) = v.final n in
      let q = ap is_pending_approval e ∙ n in
      let l : is_pending_approval x.status ≡ true = and_left _ _ h in cc (l, q)
]

-- The approval that is written is new, with no primary review of its session there if it is one, or
-- developed from the one there.
Admitted : ApprovalStore → Approval → Type 0
Admitted s x =
    ((lookup x.id s.approvals ≡ none)
      × (is_primary_review_approval x ≡ true → find_primary_review x.session_id s.approvals ≡ none))
    ⊎ ((a : Approval) × (lookup x.id s.approvals ≡ some a) × ApprovalEvolves a x)

other_primary :
    (s : ApprovalStore) (x : Approval) (j : String) (b : Approval)
    → Admitted s x
    → OnePrimary s
    → lookup j s.approvals ≡ some b
    → is_primary_review_approval x ≡ true
    → is_primary_review_approval b ≡ true
    → x.session_id ≡ b.session_id
    → x.id ≡ j
unfolding OnePrimary Admitted
other_primary s x j b (inl (absent, np)) one h px pb e =
    absurd (no_primary_review s.approvals x.session_id j b (np px) h (sym e) pb)
other_primary s x j b (inr (a, f, v)) one h px pb e =
    one x.id j a b f h (primary_before a x v px) pb (sym v.same_session ∙ e)

written-OnePrimary :
    (x : Approval) (s s' : ApprovalStore)
    → Admitted s x
    → s'.approvals ≡ insert x.id x s.approvals
    → OnePrimary s
    → OnePrimary s'
unfolding OnePrimary
written-OnePrimary x s s' admitted e one i j a b hi hj pa pb same =
    let fi = found_before x.id i x a s.approvals (ap (lookup i) (sym e) ∙ hi) in
    let fj = found_before x.id j x b s.approvals (ap (lookup j) (sym e) ∙ hj) in
    elim fi [
      | inl (p, q) ↦ elim fj [
        | inl (p', q') ↦ sym p ∙ p'
        | inr (old, n) ↦
            sym p
            ∙ other_primary s x j b admitted one old (ap is_primary_review_approval q ∙ pa) pb
                (ap (λ y. y.session_id) q ∙ same)
      ]
      | inr (old, n) ↦ elim fj [
        | inl (p', q') ↦
            sym (
              other_primary s x i a admitted one old (ap is_primary_review_approval q' ∙ pb) pa
                (ap (λ y. y.session_id) q' ∙ sym same))
            ∙ p'
        | inr (old', n') ↦ one i j a b old old' pa pb same
      ]
    ]

approvals-OnePrimary : (s s' : ApprovalStore) → ApprovalsTo s s' → OnePrimary s → OnePrimary s'
unfolding OnePrimary Admitted
approvals-OnePrimary s s' (inl e) one =
    λ i j a b hi hj. one i j a b (ap (lookup i) (sym e) ∙ hi) (ap (lookup j) (sym e) ∙ hj)
approvals-OnePrimary s s' (inr (inl (x, absent, p, e))) one =
    written-OnePrimary x s s' (inl (absent, p)) e one
approvals-OnePrimary s s' (inr (inr (x, a, found, v, e))) one =
    written-OnePrimary x s s' (inr (a, found, v)) e one

steps-OnePrimary :
    (c : Codec) (ops : List (ℕ × ApprovalOp)) (s : ApprovalStore)
    → Keyed s
    → OnePrimary s
    → OnePrimary (approval_steps c ops s)
unfolding approval_steps
steps-OnePrimary c [] s keyed one = one
steps-OnePrimary c ((now, op) ∷ ops) s keyed one =
    steps-OnePrimary c ops (approval_step c now op s) (step-Keyed c now op s keyed)
      (approvals-OnePrimary s (approval_step c now op s) (step-ApprovalsTo c now op s keyed) one)

-- A session has one pending primary review at most: after any operations on a new store, two pending
-- approvals of a creation spec or storyboard revision in one session stand under one id.
pub one_primary_review :
    (c : Codec) (ops : List (ℕ × ApprovalOp)) (i j : String) (a b : Approval)
    → lookup i (approval_steps c ops new_approval_store).approvals ≡ some a
    → lookup j (approval_steps c ops new_approval_store).approvals ≡ some b
    → is_primary_review_approval a ≡ true
    → is_primary_review_approval b ≡ true
    → a.session_id ≡ b.session_id
    → i ≡ j
unfolding OnePrimary
one_primary_review c ops =
    steps-OnePrimary c ops new_approval_store new_approval_store-Keyed new_approval_store-OnePrimary
