-- ===== src/SessionRuntime/Continuation/Ledger.antt =====
-- The ledger of commands: a recorded command stays, up to its time and the writing of its JSON.
use dora_agent.Base.{
  >>=-eq-ok, Codec, List, Option, String, String_discrete, [], and_left, and_right, ap, arith,
  insert, lookup, lookup-insert, lookup-insert_self, nat_eq, none, ok, parsed_eq, refl, require,
  required, some, str_eq_sound, subst, sym, true, ℕ, ◌∙◌, ◌∷◌, ◌≡◌,
}
use dora_agent.SessionRuntime.Continuation.Chains.{AfterOk, bind-Ok, if-Ok}
use dora_agent.SessionRuntime.Models.Records.{CommandLedger, ContinuationClaim}
use dora_agent.SessionRuntime.Store.Commands.{
  apply_continuation, check_command, check_commands, finish_apply, fits_key, fits_row, ledger_key,
  normalize_command, same_command, timed, write_commands,
}
use dora_agent.SessionRuntime.Store.Continuations.{
  claim_identity, find_continuation, is_applied, validate_continuation_claim,
  validate_continuation_lease,
}
use dora_agent.SessionRuntime.Store.State.{Clock, Store, json_equal}

module _ (c : Codec) where
  -- What sameCommand compares.
  pub record SameCommand (x y : CommandLedger) : Type 0 where
    pub same_approval : y.approval_id ≡ x.approval_id
    pub same_version : y.decision_version ≡ x.decision_version
    pub same_kind : y.command_kind ≡ x.command_kind
    pub same_epoch : y.execution_epoch ≡ x.execution_epoch
    pub same_key : y.idempotency_key ≡ x.idempotency_key
    pub same_payload : c.parse y.command_payload ≡ c.parse x.command_payload
    pub same_result : c.parse y.result_payload ≡ c.parse x.result_payload

  pub SameCommand-refl : (x : CommandLedger) → SameCommand x x
  SameCommand-refl x = record {
    same_approval = refl;
    same_version = refl;
    same_kind = refl;
    same_epoch = refl;
    same_key = refl;
    same_payload = refl;
    same_result = refl;
  }

  parsed_eq_sound : (a b : Option String) → parsed_eq a b ≡ true → b ≡ a
  parsed_eq_sound (some a) (some b) h = ap some (sym (str_eq_sound a b h))
  parsed_eq_sound none b h = cc
  parsed_eq_sound (some a) none h = cc

  nat_eq_sound : (a b : ℕ) → nat_eq a b ≡ true → b ≡ a
  nat_eq_sound a b h = ground arith

  same_command_sound : (x y : CommandLedger) → same_command c x y ≡ true → SameCommand x y
  unfolding same_command json_equal
  same_command_sound x y h =
      let h6 = and_left _ _ h in
      let h5 = and_left _ _ h6 in
      let h4 = and_left _ _ h5 in
      let h3 = and_left _ _ h4 in
      let h2 = and_left _ _ h3 in
      record {
        same_approval = sym (str_eq_sound _ _ (and_left _ _ h2));
        same_version = nat_eq_sound _ _ (and_right _ _ h2);
        same_kind = sym (str_eq_sound _ _ (and_right _ _ h3));
        same_epoch = nat_eq_sound _ _ (and_right _ _ h4);
        same_key = sym (str_eq_sound _ _ (and_right _ _ h5));
        same_payload = parsed_eq_sound _ _ (and_right _ _ h6);
        same_result = parsed_eq_sound _ _ (and_right _ _ h);
      }

  pub SameCommand-trans :
      {x y z : CommandLedger} → SameCommand x y → SameCommand y z → SameCommand x z
  SameCommand-trans a b = record {
    same_approval = b.same_approval ∙ a.same_approval;
    same_version = b.same_version ∙ a.same_version;
    same_kind = b.same_kind ∙ a.same_kind;
    same_epoch = b.same_epoch ∙ a.same_epoch;
    same_key = b.same_key ∙ a.same_key;
    same_payload = b.same_payload ∙ a.same_payload;
    same_result = b.same_result ∙ a.same_result;
  }

  -- The commands of the list that stand under the key are the same as the recorded one.
  abbrev AllFit : String → CommandLedger → List CommandLedger → Type 0
  AllFit k e [] = Unit {0}
  AllFit k e (x ∷ xs) = (ledger_key x ≡ k → SameCommand e x) × AllFit k e xs

  fits_row_sound :
      (m : Option CommandLedger) (e x : CommandLedger)
      → m ≡ some e
      → fits_row c m x ≡ true
      → SameCommand e x
  fits_row_sound none e x h f = cc
  fits_row_sound (some y) e x h f =
      let eq : y ≡ e = cc h in subst (λ z. SameCommand z x) eq (same_command_sound y x f)

  check_commands-AllFit :
      (commands : List CommandLedger) (q : ContinuationClaim) (s : Store) (k : String)
      (e : CommandLedger) (xs : List CommandLedger)
      → lookup k s.commands ≡ some e
      → check_commands c commands q s ≡ ok xs
      → AllFit k e xs
  unfolding check_commands check_command
  check_commands-AllFit [] q s k e xs found h = let eq : [] ≡ xs = cc h in subst (AllFit k e) eq tt
  check_commands-AllFit (command ∷ commands) q s k e xs found h =
      let (x, a, h1) = >>=-eq-ok (check_command c command q s) _ h in
      let (rest, b, h2) = >>=-eq-ok (check_commands c commands q s) _ h1 in
      let (y, n, a1) = >>=-eq-ok (normalize_command c command q) _ a in
      let (u, f, a2) =
        >>=-eq-ok (require (fits_row c (lookup (ledger_key y) s.commands) y) _) _ a1 in
      let (u', f', a3) =
        >>=-eq-ok (require (fits_key c (lookup y.idempotency_key s.command_keys) (ledger_key y)) _)
          _ a2 in
      let same : y ≡ x = cc a3 in
      let all : x ∷ rest ≡ xs = cc h2 in
      subst (AllFit k e) all (
        subst (λ z. ledger_key z ≡ k → SameCommand e z) same
            (λ at.
              fits_row_sound (lookup (ledger_key y) s.commands) e y
                (subst (λ j. lookup j s.commands ≡ some e) (sym at) found) (required _ _ u f)),
        check_commands-AllFit commands q s k e rest found b,
      )

  write_commands-Same :
      (xs : List CommandLedger) (now : ℕ) (s : Store) (k : String) (e e' : CommandLedger)
      → AllFit k e xs
      → lookup k s.commands ≡ some e'
      → SameCommand e e'
      → (y : CommandLedger) × (lookup k (write_commands xs now s).commands ≡ some y)
        × SameCommand e y
  unfolding write_commands
  write_commands-Same [] now s k e e' fit h same = (e', h, same)
  write_commands-Same (x ∷ xs) now s k e e' (fit, rest) h same =
      elim (String_discrete (ledger_key x) k) [
        | yes p ↦
            write_commands-Same xs now _ k e (timed now x) rest
              (subst
                (λ j.
                  lookup j (insert (ledger_key x) (timed now x) s.commands) ≡ some (timed now x))
                p (lookup-insert_self (ledger_key x) (timed now x) s.commands))
              (SameCommand-trans (fit p) (timed-Same x now))
        | no p ↦
            write_commands-Same xs now _ k e e' rest
              (ground (arith, lookup-insert (ledger_key x) k (timed now x) s.commands)) same
      ]
    where
      timed-Same : (x : CommandLedger) (now : ℕ) → SameCommand x (timed now x)
      timed-Same x now = record {
        same_approval = refl;
        same_version = refl;
        same_kind = refl;
        same_epoch = refl;
        same_key = refl;
        same_payload = refl;
        same_result = refl;
      }

  -- Every command is still there, the same up to its time and the writing of its JSON.
  abbrev pub CommandsTo : Store → Store → Type 0
  CommandsTo s s' =
      (k : String) (e : CommandLedger)
      → lookup k s.commands ≡ some e
      → (y : CommandLedger) × (lookup k s'.commands ≡ some y) × SameCommand e y

  pub same_commands-To : (s s' : Store) → s'.commands ≡ s.commands → CommandsTo s s'
  same_commands-To s s' same k e h =
      (e, subst (λ m. lookup k m ≡ some e) (sym same) h, SameCommand-refl e)

  pub apply-CommandsTo :
      (q : ContinuationClaim) (commands : List CommandLedger) (t : Clock) (s : Store)
      → AfterOk (CommandsTo s) (apply_continuation c q commands t s)
  unfolding apply_continuation finish_apply
  apply-CommandsTo q commands t s = bind-Ok (CommandsTo s) (validate_continuation_claim q) _ λ u _.
      bind-Ok (CommandsTo s) (find_continuation (claim_identity q) s) _ λ r e.
        if-Ok (CommandsTo s) (is_applied r.status) _ _ (λ _. same_commands-To s s refl)
          λ n. bind-Ok (CommandsTo s) (validate_continuation_lease r q t.recheck) _ λ u' _.
            bind-Ok (CommandsTo s) (check_commands c commands q s) _ λ xs f. λ k x h.
              write_commands-Same xs t.now s k x x (check_commands-AllFit commands q s k x xs h f) h
                (SameCommand-refl x)
