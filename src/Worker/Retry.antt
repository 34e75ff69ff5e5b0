-- ===== src/Worker/Retry.antt =====
-- `executeWithInterruptRetry`: when a call of the source is made again, in words of its own.
use data_table_viewer.Prelude.{
  ℕ, ◌+◌, Bool, true, false, not, ◌&&◌, ◌⊎◌, inl, inr, ◌≡◌, ◌≢◌, refl, arith, ◌==◌, if◌then◌else◌,
  if_intro, Bool-cases,
}
use data_table_viewer.Worker.{Moment}
use data_table_viewer.Worker.Calls.{execute_with_interrupt_retry}

module _ {X A : Type 0} (now : ℕ → Moment) (is_cancelled : A → Bool) (stale : ℕ → Bool) (cost : ℕ)
    (call : ℕ → X → A × X × ℕ) (clock : ℕ) (x : X) where
  -- What a call at the moment `clock` comes to: its own result, if it was not cancelled, or if the
  -- request is stale or somebody has interrupted it since it began; and else that of one more call.
  pub data Retried (res : A × X × ℕ) : Type 0 where
    settled : is_cancelled (call clock x).0 ≡ false → res ≡ call clock x → Retried res
    given_up :
        is_cancelled (call clock x).0 ≡ true
        → (stale (call clock x).2 ≡ true) ⊎ ((now (call clock x).2).sequence ≢ (now clock).sequence)
        → res ≡ ((call clock x).0, (call clock x).1, (call clock x).2 + cost)
        → Retried res
    again :
        is_cancelled (call clock x).0 ≡ true
        → stale (call clock x).2 ≡ false
        → (now (call clock x).2).sequence ≡ (now clock).sequence
        → res ≡ call ((call clock x).2 + cost) (call clock x).1
        → Retried res

  pub execute_with_interrupt_retry-Retried :
      Retried (execute_with_interrupt_retry now is_cancelled stale cost call clock x)
  unfolding execute_with_interrupt_retry
  execute_with_interrupt_retry-Retried =
      let (res, x', clock') = call clock x in
      let same = (now clock').sequence == (now clock).sequence in
      let second = call (clock' + cost) x' in
      let kept : A × X × ℕ = (res, x', clock' + cost) in
      if_intro Retried (is_cancelled res) (if not (stale clock') && same then second else kept)
        (call clock x)
        (λ c.
          if_intro Retried (not (stale clock') && same) second kept
            (λ e. again c (ground arith) (ground arith) refl)
            (λ e.
              given_up c
                (elim (Bool-cases (stale clock')) [
                  | inl s ↦ inl s
                  | inr s ↦ inr (λ q. ground arith)
                ])
                refl))
        (λ c. settled c refl)
