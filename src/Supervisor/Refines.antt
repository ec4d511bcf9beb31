-- ===== src/Supervisor/Refines.antt =====
-- supervisor_note_task_death and supervisor_syscall_wait of kernel/core/supervisor.c keep the promises of the
-- mailbox.
use d_rpi_proto_os.Base.{
  ℕ, ◌<◌, ◌≡◌, ◌≢◌, refl, inl, inr, sym, ap, false, true, ◌==◌, leb, Bool-cases, arith, update_ne,
  update_self,
}
use d_rpi_proto_os.Config.{slot_none, minus_one, thread_count, thread_slot_idle, thread_slot_task_c}
use d_rpi_proto_os.State.{Kernel, Build, Thread, return_notify_block, is_stopped}
use d_rpi_proto_os.State.Effect.{Ensures, put_thread}
use d_rpi_proto_os.Thread.{thread_request_resched}
use d_rpi_proto_os.Thread.Current.{thread_current_user_slot_lem}
use d_rpi_proto_os.Task.{woken, save_frame}
use d_rpi_proto_os.Task.Wake.{thread_user_wake_with_x0_lem}
use d_rpi_proto_os.Task.Redirect.{redirected, thread_user_trap_redirect_lem}
use d_rpi_proto_os.Waits.Table.{at_supervisor}
use d_rpi_proto_os.Invariant.{Inv, ThreadOk}
use d_rpi_proto_os.Handling.{Trapped}
use d_rpi_proto_os.Supervisor.{notify, supervisor_note_task_death, supervisor_syscall_wait}
use d_rpi_proto_os.Supervisor.Mailbox.{Posted, Answered}

-- The watcher lives, and is in its place.
watcher_lives :
    (k : Kernel)
    → Inv k
    → k.blocked_supervisor_slot ≢ slot_none
    → (let s = k.blocked_supervisor_slot in
        (s < thread_slot_idle)
        × ThreadOk s (k.threads s)
        × (is_stopped (k.threads s).state ≡ false))
watcher_lives k h busy =
    let (lt, waits) = h.waits.recorded at_supervisor tt busy in
    (lt, h.threads_ok _ (omega arith), ground (arith, waits))

module _ (k : Kernel) (slot : ℕ) where
  -- Out of range.
  ignored-Posted : leb thread_count slot ≡ true → Posted k slot k
  ignored-Posted out = record {
    mailbox = rw out refl;
    told = rw out (refl, refl);
    elsewhere = refl;
    alert = λ a. a;
  }

  module _ (in_range : leb thread_count slot ≡ false) where
    named : (slot == slot_none) ≡ false
    named = ground (arith, in_range)

    -- Nobody watches, or the dead task did.
    unwatched-Posted :
        (k.blocked_supervisor_slot == slot_none) ≡ true
        → Posted k slot (record k { pending_death_slot = slot })
    unwatched-Posted free = record {
      mailbox = rw (in_range, free, named) refl;
      told = rw (in_range, free) (refl, refl);
      elsewhere = refl;
      alert = λ a. inr (rw free refl);
    }

    forgotten-Posted :
        (k.blocked_supervisor_slot == slot_none) ≡ false
        → (k.blocked_supervisor_slot == slot) ≡ true
        → Posted k slot
            (record k { pending_death_slot = slot; blocked_supervisor_slot = slot_none })
    forgotten-Posted busy own = record {
      mailbox = rw (in_range, busy, own, named) refl;
      told = rw (in_range, busy, own) (refl, refl);
      elsewhere = refl;
      alert = λ a. inr refl;
    }

    -- Somebody is told.
    told-Posted :
        (k.blocked_supervisor_slot == slot_none) ≡ false
        → (k.blocked_supervisor_slot == slot) ≡ false
        → (let s = k.blocked_supervisor_slot in
            Posted k slot (
              thread_request_resched (record (put_thread s (woken slot (k.threads s)) k) {
                blocked_supervisor_slot = slot_none;
              })))
    unfolding thread_request_resched
    told-Posted busy other = record {
      mailbox = rw (in_range, busy, other) refl;
      told =
          rw (in_range, busy, other)
            (
              update_self k.threads k.blocked_supervisor_slot _,
              (λ s' ne. update_ne k.threads k.blocked_supervisor_slot _ s' (λ e. ne (sym e))),
              refl,
            );
      elsewhere = refl;
      alert = λ a. inr refl;
    }

    noted-Posted : Inv k → Ensures (supervisor_note_task_death slot k) (λ _ k'. Posted k slot k')
    unfolding supervisor_note_task_death notify
    noted-Posted h =
        let turned : (slot == k.blocked_supervisor_slot) ≡ (k.blocked_supervisor_slot == slot) =
          ground arith in
        rw (in_range, turned)
          (elim (Bool-cases (k.blocked_supervisor_slot == slot_none)) [
            | inl free ↦
                let other : (k.blocked_supervisor_slot == slot) ≡ false = ground (arith, named) in
                rw (other, free) (unwatched-Posted free)
            | inr busy ↦ elim (Bool-cases (k.blocked_supervisor_slot == slot)) [
              | inl own ↦ rw own (forgotten-Posted busy own)
              | inr other ↦
                  let (lt, ok, live) = watcher_lives k h (ground (arith, busy)) in
                  rw (other, busy, thread_user_wake_with_x0_lem _ slot k lt ok live, Ensures)
                    (told-Posted busy other)
            ]
          ])

-- If the invariant holds, noting the death of any slot does not panic and does to the supervisor's
-- mailbox what the mailbox's own rules say: a slot out of range changes nothing; a waiting
-- supervisor that is itself the dead task is forgotten; one that waits otherwise is woken with the
-- slot as its result, and waits no more; and if none is left that waits, the slot is kept, in place
-- of one kept before. The other threads and all else but the request for a switch, which comes with
-- a wake-up, are as before. No supervisor waits while a death is kept, if none did before.
pub supervisor_note_task_death-Posted :
    (k : Kernel) (slot : ℕ)
    → Inv k
    → Ensures (supervisor_note_task_death slot k) (λ _ k'. Posted k slot k')
unfolding supervisor_note_task_death
supervisor_note_task_death-Posted k slot h = elim (Bool-cases (leb thread_count slot)) [
  | inl out ↦ rw out (ignored-Posted k slot out)
  | inr in_range ↦ noted-Posted k slot in_range h
]

module _ (b : Build) (k : Kernel) (c : ℕ) (t : Trapped k c) where
  -- Another task, or a second watcher.
  stranger-Answered : (c == thread_slot_task_c) ≡ false → Answered b k c minus_one k
  stranger-Answered other = record {
    mailbox = rw other refl;
    sees = rw other (refl, refl);
    alert = λ a. a;
  }

  second-Answered :
      (c == thread_slot_task_c) ≡ true
      → (k.pending_death_slot == slot_none) ≡ true
      → (k.blocked_supervisor_slot == slot_none) ≡ false
      → Answered b k c minus_one k
  second-Answered task_c no_news busy = record {
    mailbox = rw (task_c, no_news, busy) refl;
    sees = rw (task_c, no_news, busy) (refl, refl);
    alert = λ a. a;
  }

  fetched-Answered :
      (c == thread_slot_task_c) ≡ true
      → (k.pending_death_slot == slot_none) ≡ false
      → Answered b k c k.pending_death_slot (record k { pending_death_slot = slot_none })
  fetched-Answered task_c news = record {
    mailbox = rw (task_c, news) refl;
    sees = rw (task_c, news) (refl, refl, refl, refl);
    alert = λ a. inl refl;
  }

  watching : Kernel
  watching = redirected b return_notify_block c (record k { blocked_supervisor_slot = c })

  watching-Answered :
      (c == thread_slot_task_c) ≡ true
      → (k.pending_death_slot == slot_none) ≡ true
      → (k.blocked_supervisor_slot == slot_none) ≡ true
      → Answered b k c 0 watching
  unfolding watching save_frame
  watching-Answered task_c no_news free =
      let named : (c == slot_none) ≡ false = ground (arith, t.small) in
      record {
        mailbox = rw (task_c, no_news, free, named) refl;
        sees =
            rw (task_c, no_news, free)
              (
                ap (λ (t' : Thread). t'.user.return_reason) (update_self k.threads c _),
                refl,
                (λ s ne. update_ne k.threads c _ s (λ e. ne (sym e))),
                refl,
                refl,
              );
        alert = λ a. inl (rw no_news refl);
      }

  waited-Answered : Ensures (supervisor_syscall_wait b k) (λ r k'. Answered b k c r k')
  unfolding supervisor_syscall_wait watching
  waited-Answered =
      rw (thread_current_user_slot_lem k c t.current, Ensures, supervisor_syscall_wait)
        (elim (Bool-cases (c == thread_slot_task_c)) [
          | inr other ↦ rw other (stranger-Answered other)
          | inl task_c ↦ elim (Bool-cases (k.pending_death_slot == slot_none)) [
            | inr news ↦ rw (task_c, news) (fetched-Answered task_c news)
            | inl no_news ↦ elim (Bool-cases (k.blocked_supervisor_slot == slot_none)) [
              | inr busy ↦ rw (task_c, no_news, busy) (second-Answered task_c no_news busy)
              | inl free ↦
                  rw
                    (
                      task_c,
                      no_news,
                      free,
                      thread_user_trap_redirect_lem b return_notify_block
                          (record k { blocked_supervisor_slot = c }) c t.current
                          (t.sound.threads_ok c (ground (arith, t.small))) t.elr,
                      Ensures,
                    )
                    (watching-Answered task_c no_news free)
            ]
          ]
        ])

-- If user task c has trapped with a program counter in the sandbox, its wait for a death does not
-- panic and is answered as the supervisor's mailbox says: with -1 and no change if c is not task C,
-- or if no death is kept and a supervisor waits already; with the kept slot, which is then
-- forgotten, all else as before; and else c is recorded as the waiting supervisor and leaves for
-- the kernel with the reason that blocks it, the other threads, the endpoints and memory as before.
-- No supervisor waits while a death is kept, if none did before.
pub supervisor_syscall_wait-Answered :
    (b : Build) (k : Kernel) (c : ℕ)
    → Trapped k c
    → Ensures (supervisor_syscall_wait b k) (λ r k'. Answered b k c r k')
supervisor_syscall_wait-Answered b k c t = waited-Answered b k c t
