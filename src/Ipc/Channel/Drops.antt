-- ===== src/Ipc/Channel/Drops.antt =====
-- `ipc_handle_task_death` against the channels, endpoint by endpoint.
use d_rpi_proto_os.Base.{
  ℕ, zero, suc, ◌+◌, ◌≤◌, ◌<◌, ◌≡◌, ◌≢◌, refl, ap, sym, ◌∙◌, inl, inr, false, ◌&&◌, not, ◌==◌,
  arith, update_self, update_ne, Bool-cases,
}
use d_rpi_proto_os.Config.{thread_slot_idle, ep_count, slot_none, minus_one}
use d_rpi_proto_os.State.{Kernel, Thread, Endpoint, is_stopped}
use d_rpi_proto_os.State.Effect.{put_endpoint, put_thread, Ensures, Ensures->>=}
use d_rpi_proto_os.Thread.{thread_request_resched}
use d_rpi_proto_os.Task.{woken}
use d_rpi_proto_os.Task.Wake.{thread_user_wake_with_x0_lem}
use d_rpi_proto_os.Waits.{waiting}
use d_rpi_proto_os.Waits.Table.{at_caller}
use d_rpi_proto_os.Invariant.{Inv, ThreadOk}
use d_rpi_proto_os.Ipc.{
  endpoint_clear_pending, endpoint_clear_caller, drop_task, drop_task_from, ipc_handle_task_death,
}
use d_rpi_proto_os.Ipc.Death.{update_same}
use d_rpi_proto_os.Ipc.Channel.{drop}
use d_rpi_proto_os.Ipc.Channel.Meaning.{channel_of}
use mathlib.Core.Path.{subst}
use d_rpi_proto_os.Ipc.Channel.Loss.{
  Orphan, Dropped, up_to, no_receiver, no_caller, drop_owned, drop_kept, told_once,
}

module _ (k : Kernel) (c : ℕ) (inv : Inv k) (small : c < thread_slot_idle)
    (awake : waiting k c ≡ false) where
  module _ {k' : Kernel} (i : ℕ) (lt : i < ep_count) (d : Dropped k c i k') where
    here : k'.endpoints i ≡ k.endpoints i
    here = d.ahead i (omega arith)

    kept-Dropped :
        (((k.endpoints i).owner_slot == c)
            && not ((k.endpoints i).blocked_caller_slot == slot_none))
          ≡ false
        → Dropped k c (suc i) k'
    kept-Dropped kept = record {
      behind = up_to _ i d.behind (ap channel_of here ∙ drop_kept k c inv small awake i lt kept);
      ahead = λ j le. d.ahead j (omega arith);
      orphans = λ j s below o.
          up_to (λ j. Orphan k c j s → k'.threads s ≡ woken minus_one (k.threads s)) i
            (λ j. d.orphans j s) (λ (own, at, busy). ground (arith, kept, own, at, busy)) j below o;
      others = λ s none_of. d.others s (λ j below. none_of j (omega arith));
      same_mem = d.same_mem;
    }

    module _ (s : ℕ) (at : (k.endpoints i).blocked_caller_slot ≡ s)
        (own : (k.endpoints i).owner_slot ≡ c) (busy : s ≢ slot_none) where
      fresh : k'.threads s ≡ k.threads s
      fresh = d.others s (λ j below. told_once k c inv small awake i j s lt below at busy)

      abbrev told : Kernel
      told = thread_request_resched (
          put_endpoint i (endpoint_clear_pending (endpoint_clear_caller (k'.endpoints i)))
            (put_thread s (woken minus_one (k'.threads s)) k'))

      told-Dropped : Dropped k c (suc i) told
      unfolding thread_request_resched
      told-Dropped = record {
        behind =
            up_to (λ j. channel_of (told.endpoints j) ≡ drop c (channel_of (k.endpoints j))) i
              (λ j below.
                ap channel_of (update_ne k'.endpoints i _ j (omega arith)) ∙ d.behind j below)
              (ap channel_of (update_self k'.endpoints i _)
                ∙ ap (λ ep. channel_of (endpoint_clear_pending (endpoint_clear_caller ep))) here
                ∙ drop_owned k c inv small awake i lt (ground (arith, own))
                    (ground (arith, at, busy)));
        ahead = λ j le. update_ne k'.endpoints i _ j (omega arith) ∙ d.ahead j (omega arith);
        orphans = λ j s' below o.
            up_to (λ j. Orphan k c j s' → told.threads s' ≡ woken minus_one (k.threads s')) i
              (λ j below o.
                update_ne k'.threads s _ s'
                  (λ e. told_once k c inv small awake i j s' lt below (at ∙ e) o.2 o)
                ∙ d.orphans j s' below o)
              (λ o.
                subst (λ s'. told.threads s' ≡ woken minus_one (k.threads s')) (sym at ∙ o.1)
                  (update_self k'.threads s _ ∙ ap (woken minus_one) fresh))
              j below o;
        others = λ s' none_of.
            update_ne k'.threads s _ s'
              (λ e. none_of i (omega arith) (own, at ∙ e, λ n. busy (e ∙ n)))
            ∙ d.others s' (λ j below. none_of j (omega arith));
        same_mem = d.same_mem;
      }

    caller_lives :
        (k.endpoints i).blocked_caller_slot ≢ slot_none
        → let s = (k'.endpoints i).blocked_caller_slot in
          (s < thread_slot_idle)
          × ThreadOk s (k'.threads s)
          × (is_stopped (k'.threads s).state ≡ false)
    caller_lives busy =
        let s = (k.endpoints i).blocked_caller_slot in
        let (small_s, waits) = inv.waits.recorded (at_caller i) lt busy in
        let same = d.others s (λ j below. told_once k c inv small awake i j s lt below refl busy) in
        subst
          (λ s.
            (s < thread_slot_idle)
            × ThreadOk s (k'.threads s)
            × (is_stopped (k'.threads s).state ≡ false))
          (ap (λ (ep : Endpoint). ep.blocked_caller_slot) (sym here))
          (
            small_s,
            subst (ThreadOk s) (sym same) (inv.threads_ok s (omega arith)),
            ground (arith, waits, ap (λ (t : Thread). t.state) same),
          )

    drop_task-Dropped : Ensures (drop_task c i k') (λ _ after. Dropped k c (suc i) after)
    unfolding drop_task
    drop_task-Dropped =
        let unheard : ((k'.endpoints i).blocked_receiver_slot == c) ≡ false =
          ap (λ (ep : Endpoint). ep.blocked_receiver_slot == c) here
          ∙ no_receiver k c inv small awake i lt in
        let uncalled : ((k'.endpoints i).blocked_caller_slot == c) ≡ false =
          ap (λ (ep : Endpoint). ep.blocked_caller_slot == c) here
          ∙ no_caller k c inv small awake i lt in
        rw (unheard, update_same k'.endpoints i)
          (elim (Bool-cases (
            ((k'.endpoints i).owner_slot == c)
            && not ((k'.endpoints i).blocked_caller_slot == slot_none))) [
              | inl owned ↦
                  let at = ap (λ (ep : Endpoint). ep.blocked_caller_slot) here in
                  let owner = ap (λ (ep : Endpoint). ep.owner_slot) here in
                  let s = (k'.endpoints i).blocked_caller_slot in
                  let busy : s ≢ slot_none = ground arith in
                  let (small_s, ok, live) = caller_lives (λ n. busy (at ∙ n)) in
                  rw (owned, thread_user_wake_with_x0_lem s minus_one k' small_s ok live, Ensures)
                    (told-Dropped s (sym at) (ground (arith, owner, owned)) busy)
              | inr kept ↦ rw (kept, uncalled) (kept-Dropped (ground (arith, kept, here)))
            ])

  drop_task_from-Dropped :
      (n i : ℕ) {k' : Kernel}
      → Dropped k c i k'
      → i + n ≤ ep_count
      → Ensures (drop_task_from c n i k') (λ _ after. Dropped k c (i + n) after)
  unfolding drop_task_from
  drop_task_from-Dropped zero i {k'} d le = subst (λ m. Dropped k c m k') (omega arith) d
  drop_task_from-Dropped (suc n) i {k'} d le =
      Ensures->>= (λ _ after. Dropped k c (suc i) after) _ (drop_task c i)
        (λ _. drop_task_from c n (i + 1)) k' (drop_task-Dropped i (omega arith) d)
        (λ _ after d'.
          subst (λ m. Ensures (drop_task_from c n (i + 1) after) (λ _ last. Dropped k c m last))
            (omega arith)
            (drop_task_from-Dropped n (i + 1) (subst (λ m. Dropped k c m after) (omega arith) d')
              (omega arith)))

  -- If the invariant holds and user task c does not wait, the clean-up for the death of c does not
  -- panic and leaves each endpoint standing for the channel without c: where c is the owner and a
  -- caller waits, the call and its message are forgotten, and all else stays. Exactly the callers
  -- that wait for a reply of c are woken, with -1 as their result; the other threads and memory are
  -- as they were.
  pub ipc_handle_task_death-Dropped :
      Ensures (ipc_handle_task_death c k) (λ _ after. Dropped k c ep_count after)
  unfolding ipc_handle_task_death
  ipc_handle_task_death-Dropped =
      drop_task_from-Dropped ep_count 0
        (record {
          behind = λ j lt. absurd (omega arith);
          ahead = λ j le. refl;
          orphans = λ j s lt o. absurd (omega arith);
          others = λ s none_of. refl;
          same_mem = refl;
        })
        (omega arith)
