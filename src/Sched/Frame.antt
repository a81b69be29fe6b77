-- ===== src/Sched/Frame.antt =====
-- kernel/sched/thread.c: the first stack frame of a thread, as `thread_create` pushes it.
use gnuwindows.Base.{
  ℕ, ◌+◌, ◌*◌, ◌-◌, ◌%◌, ◌^◌, ◌≤◌, ◌≡◌, refl, ◌∙◌, List, [], ◌∷◌, arith, Memory, read64, write64,
  read64-write64, read64_same, write64_frame, length,
}
use gnuwindows.Sched.Threads.{push_all, first_frame}

-- The words that the pushes leave, from the lowest address up.
Frame : Memory → ℕ → List ℕ → Type 0
Frame mem sp [] = Unit {0}
Frame mem sp (v ∷ vs) = (read64 mem (sp - 8) ≡ v % 2 ^ 64) × Frame mem (sp - 8) vs

push_all_above :
    (sp : ℕ) (vs : List ℕ) (mem : Memory) (b : ℕ)
    → 8 * length vs ≤ sp
    → sp ≤ b
    → push_all sp vs mem b ≡ mem b
unfolding push_all
push_all_above sp [] mem b room h = refl
push_all_above sp (v ∷ vs) mem b room h =
    push_all_above (sp - 8) vs (write64 (sp - 8) v mem) b (omega arith) (omega arith)
    ∙ write64_frame (sp - 8) v mem b (omega arith)

push_all-Frame :
    (sp : ℕ) (vs : List ℕ) (mem : Memory) → 8 * length vs ≤ sp → Frame (push_all sp vs mem) sp vs
unfolding push_all Frame
push_all-Frame sp [] mem room = tt
push_all-Frame sp (v ∷ vs) mem room =
    let mem' = write64 (sp - 8) v mem in
    (
      read64_same mem' (push_all (sp - 8) vs mem') (sp - 8)
            (λ b lo hi. push_all_above (sp - 8) vs mem' b (omega arith) lo)
          ∙ read64-write64 (sp - 8) v mem,
      push_all-Frame (sp - 8) vs mem' (omega arith),
    )

pub frame_slots :
    (sp entry arg trampoline : ℕ) (mem : Memory)
    → 72 ≤ sp
    → (read64 (push_all sp (first_frame entry arg trampoline) mem) (sp - 72 + 48)
        ≡ trampoline % 2 ^ 64)
      × (read64 (push_all sp (first_frame entry arg trampoline) mem) (sp - 72 + 56) ≡ arg % 2 ^ 64)
      × (read64 (push_all sp (first_frame entry arg trampoline) mem) (sp - 72 + 64)
          ≡ entry % 2 ^ 64)
unfolding Frame
frame_slots sp entry arg trampoline mem h =
    let f = push_all-Frame sp (first_frame entry arg trampoline) mem (omega arith) in
    let a : sp - 72 + 48 ≡ sp - 8 - 8 - 8 = omega arith in
    let b : sp - 72 + 56 ≡ sp - 8 - 8 = omega arith in
    let c : sp - 72 + 64 ≡ sp - 8 = omega arith in (rw a f.1.1.0, rw b f.1.0, rw c f.0)
