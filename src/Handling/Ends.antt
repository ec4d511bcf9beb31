-- ===== src/Handling/Ends.antt =====
-- The two ends of the handling: the task goes on, or its trap is redirected.
use d_rpi_proto_os.Base.{ℕ, ◌<◌, ◌≡◌, ◌≢◌, refl, Bool, false, arith, ap, ==_refl}
use d_rpi_proto_os.Config.{thread_slot_idle}
use d_rpi_proto_os.State.{Kernel, ReturnReason, Build, return_none}
use d_rpi_proto_os.State.Effect.{done}
use d_rpi_proto_os.Task.{thread_user_trap_redirect, save_frame}
use d_rpi_proto_os.Task.Redirect.{redirected, thread_user_trap_redirect_lem}
use d_rpi_proto_os.Waits.{waiting, is_waiting, is_block_reason}
use d_rpi_proto_os.Invariant.{ThreadOk, Sound-put_thread, Sound-ext}
use d_rpi_proto_os.Handling.{Trapped, Stage, goes_on, leaves, Handled}

-- Without a redirection the records and the tasks must agree again.
pub Stage-goes_on :
    {k : Kernel} {c : ℕ} {k' : Kernel} {w o : ℕ → Bool} (b : Build)
    → Trapped k c
    → Stage k c k' w o
    → ((s : ℕ) → s < thread_slot_idle → s ≢ c → w s ≡ o s)
    → w c ≡ false
    → Handled b k c k'
Stage-goes_on {k} {c} {k'} b t g agree own = record {
  sound = Sound-ext k' g.sound (λ s lt. ground (
    arith,
    agree s lt,
    g.others s lt,
    ap is_waiting g.thread,
    t.no_reason,
    t.task_runs,
    t.thread_running,
  ));
  current = g.current;
  outside = g.outside;
  asleep = g.asleep;
  kept = g.kept;
  way = goes_on g.thread g.frame;
}

-- A redirection, for a reason that blocks exactly if the records now hold the task for waiting.
module _ {k : Kernel} {c : ℕ} {k' : Kernel} {w o : ℕ → Bool} (b : Build) (t : Trapped k c)
    (g : Stage k c k' w o) (reason : ReturnReason) where
  redirected-ThreadOk :
      ThreadOk c (record (k'.threads c) { user = save_frame k'.frame reason (k'.threads c).user })
  unfolding save_frame
  redirected-ThreadOk =
      let ok = g.sound.threads_ok c (ground (arith, t.small)) in
      let at : k'.frame ≡ k.frame = g.frame in
      record {
        kind = ok.kind;
        slot = ok.slot;
        lr = ok.lr;
        sp = ok.sp;
        elr = λ _. rw at t.elr;
        entry = ok.entry;
        dead = ok.dead;
        idle_lives = ok.idle_lives;
      }

  redirected-waiting :
      w c ≡ is_block_reason reason
      → ((s : ℕ) → s < thread_slot_idle → s ≢ c → w s ≡ o s)
      → (s : ℕ) → s < thread_slot_idle
      → waiting (redirected b reason c k') s ≡ w s
  unfolding save_frame
  redirected-waiting own agree s lt =
      ground
        (arith, agree s lt, g.others s lt, g.thread, t.no_reason, t.task_runs, t.thread_running)

  pub Stage-leaves :
      reason ≢ return_none
      → w c ≡ is_block_reason reason
      → ((s : ℕ) → s < thread_slot_idle → s ≢ c → w s ≡ o s)
      → (thread_user_trap_redirect b reason k' ≡ done tt (redirected b reason c k'))
        × Handled b k c (redirected b reason c k')
  Stage-leaves some_reason own agree = (
    thread_user_trap_redirect_lem b reason k' c g.current
        (g.sound.threads_ok c (ground (arith, t.small))) (rw g.frame t.elr),
    record {
      sound =
          Sound-ext (redirected b reason c k') (Sound-put_thread k' c _ g.sound redirected-ThreadOk)
            (redirected-waiting own agree);
      current = rw (==_refl c) (record {
        current_eq = g.current.current_eq;
        task_eq = g.current.task_eq;
        kind = g.current.kind;
        slot = g.current.slot;
      });
      outside = g.outside;
      asleep = λ s lts nes. ground (arith, g.asleep s lts nes);
      kept = λ s nes. (ground (arith, (g.kept s nes).0), λ e. ground (arith, (g.kept s nes).1 e));
      way = leaves reason some_reason (rw (==_refl c) (cc (g.thread, g.frame))) refl refl;
    },
  )
