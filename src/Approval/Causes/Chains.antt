-- ===== src/Approval/Causes/Chains.antt =====
-- Chains of checks in internal/aigc/approval/memory_store.go that end in one of the effects.
use dora_agent.Approval.Effects.{Effect, Quiet-refl, effect_quiet}
use dora_agent.Approval.Models.{ApprovalError}
use dora_agent.Approval.State.{ApprovalStore}
use dora_agent.Base.{
  Bool, Codec, Result, WhenOk, bind-WhenOk, false, if-WhenOk, if◌then◌else◌, ok, true, ◌>>=◌, ◌≡◌,
}

module _ (c : Codec) (s : ApprovalStore) where
  pub quiet-Effect : Effect c s s
  quiet-Effect = effect_quiet (Quiet-refl s)

  pub then-Effect :
      {A B : Type 0} (m : Result ApprovalError A) (f : A → Result ApprovalError (ApprovalStore × B))
      → ((a : A) → m ≡ ok a → WhenOk (λ (p : ApprovalStore × B). Effect c s p.0) (f a))
      → WhenOk (λ (p : ApprovalStore × B). Effect c s p.0) (m >>= f)
  then-Effect {A} {B} m f h = bind-WhenOk (λ (p : ApprovalStore × B). Effect c s p.0) m f h

  pub either-Effect :
      {B : Type 0} (b : Bool) (x y : Result ApprovalError (ApprovalStore × B))
      → (b ≡ true → WhenOk (λ (p : ApprovalStore × B). Effect c s p.0) x)
      → (b ≡ false → WhenOk (λ (p : ApprovalStore × B). Effect c s p.0) y)
      → WhenOk (λ (p : ApprovalStore × B). Effect c s p.0) (if b then x else y)
  either-Effect {B} b x y f g = if-WhenOk (λ (p : ApprovalStore × B). Effect c s p.0) b x y f g
