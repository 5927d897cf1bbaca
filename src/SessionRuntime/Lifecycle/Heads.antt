-- ===== src/SessionRuntime/Lifecycle/Heads.antt =====
-- What the two scans of ClaimNext find: the started head of a session and its first candidate.
use dora_agent.Base.{
  Bool, Bool-cases, Has, Option, String, Table, [], arith, false, if◌then◌else◌, inl, inr, none,
  refl, some, str_eq, subst, sym, true, ℕ, ◌&&◌, ◌∙◌, ◌∷◌, ◌≡◌, ◌≢◌, ◌⊎◌,
}
use dora_agent.SessionRuntime.Models.Records.{InputRecord}
use dora_agent.SessionRuntime.Store.Claims.{
  earlier, first_candidate_from, goes_before, goes_before_best, is_candidate, is_started,
  started_head_from,
}

abbrev pub StartedIn : String → InputRecord → Type 0
StartedIn session_id r = (r.session_id ≡ session_id) × (is_started r ≡ true)

-- The result is the given head or a started input of the session.
pub started_head_from-found :
    (session_id : String) (head : Option InputRecord) (m : Table InputRecord) (r : InputRecord)
    → started_head_from session_id head m ≡ some r
    → (head ≡ some r) ⊎ ((k : String) × Has m k r × StartedIn session_id r)
unfolding started_head_from
started_head_from-found session_id head [] r h = inl h
started_head_from-found session_id head ((k, q) ∷ m) r h =
    elim (started_head_from-found session_id (if better then some q else head) m r h) [
      | inr (j, here, st) ↦ inr (j, inr here, st)
      | inl e ↦ elim (Bool-cases better) [
        | inl b ↦ inr (k, inl (refl, ground arith), ground arith)
        | inr b ↦ inl (ground arith)
      ]
    ]
  where
    better : Bool
    better = str_eq q.session_id session_id && is_started q && earlier head q

-- A head that is there is never lost.
started_head_from-some :
    (session_id : String) (head : InputRecord) (m : Table InputRecord)
    → started_head_from session_id (some head) m ≢ none
unfolding started_head_from
started_head_from-some session_id head [] h = cc
started_head_from-some session_id head ((k, q) ∷ m) h =
    elim (Bool-cases (str_eq q.session_id session_id && is_started q && earlier (some head) q)) [
      | inl b ↦ started_head_from-some session_id q m (rw b at h)
      | inr b ↦ started_head_from-some session_id head m (rw b at h)
    ]

-- With no head at the end, no input of the session is started.
pub started_head_from-none :
    (session_id : String) (m : Table InputRecord) (k : String) (r : InputRecord)
    → started_head_from session_id none m ≡ none
    → Has m k r
    → r.session_id ≡ session_id
    → is_started r ≡ false
unfolding started_head_from
started_head_from-none session_id [] k r h here same = absurd here
started_head_from-none session_id ((j, q) ∷ m) k r h here same =
    elim (Bool-cases (str_eq q.session_id session_id && is_started q && true)) [
      | inl b ↦ absurd (started_head_from-some session_id q m (rw b at h))
      | inr b ↦ elim here [
        | inl (p, e) ↦ ground arith
        | inr there ↦ started_head_from-none session_id m k r (rw b at h) there same
      ]
    ]

abbrev pub NotBefore : InputRecord → Option InputRecord → Type 0
NotBefore q none = ⊥
NotBefore q (some best) = goes_before q best ≡ false

goes_before_trans :
    (a b d : InputRecord) → goes_before a b ≡ true → goes_before b d ≡ true → goes_before a d ≡ true
unfolding goes_before
goes_before_trans a b d h g = ground arith

-- What does not go before the old best does not go before a better one.
NotBefore-better :
    (session_id : String) (now : ℕ) (q r : InputRecord) (best : Option InputRecord)
    → NotBefore q best
    → NotBefore q
        (if is_candidate session_id now r && goes_before_best r best then some r else best)
NotBefore-better session_id now q r none h = absurd h
NotBefore-better session_id now q r (some best) h =
    elim (Bool-cases (is_candidate session_id now r && goes_before r best)) [
      | inl b ↦ rw b (elim (Bool-cases (goes_before q r)) [
        | inl g ↦ cc (sym h ∙ goes_before_trans q r best g (ground arith))
        | inr g ↦ g
      ])
      | inr b ↦ rw b h
    ]

goes_before_irrefl : (r : InputRecord) → goes_before r r ≡ false
unfolding goes_before
goes_before_irrefl r = ground arith

NotBefore-self :
    (session_id : String) (now : ℕ) (r : InputRecord) (best : Option InputRecord)
    → is_candidate session_id now r ≡ true
    → NotBefore r
        (if is_candidate session_id now r && goes_before_best r best then some r else best)
NotBefore-self session_id now r none h = rw h (goes_before_irrefl r)
NotBefore-self session_id now r (some best) h = rw h (elim (Bool-cases (goes_before r best)) [
  | inl b ↦ rw b (goes_before_irrefl r)
  | inr b ↦ rw b b
])

first_candidate_from-keeps :
    (session_id : String) (now : ℕ) (best : Option InputRecord) (m : Table InputRecord)
    (q : InputRecord)
    → NotBefore q best
    → NotBefore q (first_candidate_from session_id now best m)
unfolding first_candidate_from
first_candidate_from-keeps session_id now best [] q h = h
first_candidate_from-keeps session_id now best ((k, r) ∷ m) q h =
    first_candidate_from-keeps session_id now
      (if is_candidate session_id now r && goes_before_best r best then some r else best) m q
      (NotBefore-better session_id now q r best h)

-- No candidate goes before the one that is found.
pub first_candidate_from-first :
    (session_id : String) (now : ℕ) (best : Option InputRecord) (m : Table InputRecord) (k : String)
    (q : InputRecord)
    → Has m k q
    → is_candidate session_id now q ≡ true
    → NotBefore q (first_candidate_from session_id now best m)
unfolding first_candidate_from
first_candidate_from-first session_id now best [] k q h c = absurd h
first_candidate_from-first session_id now best ((j, r) ∷ m) k q (inl (p, e)) c =
    first_candidate_from-keeps session_id now _ m q (
      subst
        (λ x.
          NotBefore x
            (if is_candidate session_id now r && goes_before_best r best then some r else best))
        e
        (NotBefore-self session_id now r best
          (subst (λ x. is_candidate session_id now x ≡ true) (sym e) c)))
first_candidate_from-first session_id now best ((j, r) ∷ m) k q (inr h) c =
    first_candidate_from-first session_id now
      (if is_candidate session_id now r && goes_before_best r best then some r else best) m k q h c

pub first_candidate_from-found :
    (session_id : String) (now : ℕ) (best : Option InputRecord) (m : Table InputRecord)
    (r : InputRecord)
    → first_candidate_from session_id now best m ≡ some r
    → (best ≡ some r) ⊎ ((k : String) × Has m k r × (is_candidate session_id now r ≡ true))
unfolding first_candidate_from
first_candidate_from-found session_id now best [] r h = inl h
first_candidate_from-found session_id now best ((k, q) ∷ m) r h =
    elim (first_candidate_from-found session_id now (if better then some q else best) m r h) [
      | inr (j, here, st) ↦ inr (j, inr here, st)
      | inl e ↦ elim (Bool-cases better) [
        | inl b ↦ inr (k, inl (refl, ground arith), ground arith)
        | inr b ↦ inl (ground arith)
      ]
    ]
  where
    better : Bool
    better = is_candidate session_id now q && goes_before_best q best
