-- ===== src/Core/Status.antt =====
-- crates/rllm-core/src/request.rs, `RequestStatus`, and crates/rllm-core/src/sequence.rs.
use r_llm.Shared.{Bool, true, false, ◌≡◌, refl, ◌⊎◌, inl, inr, arith, if◌then◌else◌, subst, sym}

pub data RequestStatus : Type 0 where
  waiting running waiting_for_remote_kv preempted : RequestStatus
  finished_stopped finished_length finished_aborted finished_error : RequestStatus

unfoldable pub is_finished : RequestStatus → Bool
is_finished finished_stopped = true
is_finished finished_length = true
is_finished finished_aborted = true
is_finished finished_error = true
is_finished _ = false

unfoldable can_transition_to : RequestStatus → RequestStatus → Bool
can_transition_to waiting running = true
can_transition_to waiting finished_aborted = true
can_transition_to running running = true
can_transition_to running waiting = true
can_transition_to running preempted = true
can_transition_to running finished_stopped = true
can_transition_to running finished_length = true
can_transition_to running finished_aborted = true
can_transition_to running finished_error = true
can_transition_to preempted waiting = true
can_transition_to preempted finished_aborted = true
can_transition_to waiting_for_remote_kv running = true
can_transition_to waiting_for_remote_kv finished_aborted = true
can_transition_to _ _ = false

-- `CoreError::InvalidStatusTransition` carries both states.
pub data TransitionResult : Type 0 where
  ok : RequestStatus → TransitionResult
  invalid : RequestStatus → RequestStatus → TransitionResult

unfoldable pub transition : RequestStatus → RequestStatus → TransitionResult
unfolding can_transition_to
transition s next = if can_transition_to s next then ok next else invalid s next

-- The states that a request goes through, one accepted transition after another.
pub data History : RequestStatus → RequestStatus → Type 0 where
  stay : {s : RequestStatus} → History s s
  move : {s t u : RequestStatus} → History s t → transition t u ≡ ok u → History s u

finished-stuck : (s t : RequestStatus) → is_finished s ≡ true → transition s t ≡ ok t → ⊥
unfolding is_finished transition
finished-stuck finished_stopped t f e = ground arith
finished-stuck _ t f e = ground arith

-- A finished request has no further transition, and every request that is not finished can be
-- aborted.
pub transition-finished :
    (s : RequestStatus)
    → ((is_finished s ≡ true) × ((t : RequestStatus) → transition s t ≡ invalid s t))
      ⊎ ((is_finished s ≡ false) × (transition s finished_aborted ≡ ok finished_aborted))
unfolding is_finished transition
transition-finished waiting = inr (refl, refl)
transition-finished running = inr (refl, refl)
transition-finished waiting_for_remote_kv = inr (refl, refl)
transition-finished preempted = inr (refl, refl)
transition-finished finished_stopped = inl (refl, λ t. refl)
transition-finished finished_length = inl (refl, λ t. refl)
transition-finished finished_aborted = inl (refl, λ t. refl)
transition-finished finished_error = inl (refl, λ t. refl)

-- A history that starts in a finished state stays there.
reached_from_finished : (s t : RequestStatus) → is_finished s ≡ true → History s t → t ≡ s
reached_from_finished s t f stay = refl
reached_from_finished s u f (move {t = t} path step) = absurd (
    finished-stuck t u
      (subst (λ v. is_finished v ≡ true) (sym (reached_from_finished s t f path)) f) step)

running-or-abort :
    (t u : RequestStatus)
    → transition t u ≡ ok u
    → is_finished u ≡ true
    → (t ≡ running) ⊎ (u ≡ finished_aborted)
unfolding is_finished transition
running-or-abort t u e f = ground arith

-- No path leads into the state that waits for a remote cache: a request is there only from its start.
remote_only_start :
    (s t : RequestStatus) → History s t → t ≡ waiting_for_remote_kv → s ≡ waiting_for_remote_kv
unfolding transition
remote_only_start s t stay e = e
remote_only_start s u (move {t = t} path step) e = ground arith
