-- ===== src/Invariant.antt =====
-- What holds of the kernel's data between two system calls, thread by thread and endpoint by endpoint.
use d_rpi_proto_os.Base.{
  ℕ, ◌+◌, ◌≤◌, ◌<◌, ◌≡◌, ◌≢◌, ◌⊎◌, refl, Bool, true, false, arith, ◌==◌, if◌then◌else◌, update_all,
  eq_of_==,
}
use d_rpi_proto_os.Config.{
  thread_count, thread_slot_idle, el0_sandbox_base, el0_sandbox_end, ep_count, slot_none,
  ipc_msg_size,
}
use d_rpi_proto_os.State.{
  Kernel, Thread, Endpoint, ThreadKind, idle, user_task, is_stopped, is_dead,
}
use d_rpi_proto_os.State.Effect.{put_thread, put_endpoint}
use d_rpi_proto_os.Ipc.Range.{InSandbox}
use d_rpi_proto_os.Waits.{place_slot, waiter, waiting}
use d_rpi_proto_os.Waits.Table.{
  Place, at_caller, at_receiver, at_supervisor, write, Agree, Agree-ext,
}

abbrev pub kind_of : ℕ → ThreadKind
kind_of s = if s == thread_slot_idle then idle else user_task

-- A thread in its place: the kinds and slots that `thread_system_init` gives never change, the kernel
-- context can be switched to, a user task goes on and starts again inside the sandbox, and a task is dead exactly if
-- its thread has stopped.
pub record ThreadOk (s : ℕ) (t : Thread) : Type 0 where
  pub kind : t.kind ≡ kind_of s
  pub slot : t.slot ≡ s
  pub lr : t.ctx.lr ≢ 0
  pub sp : t.ctx.sp ≢ 0
  pub elr : s < thread_slot_idle → InSandbox t.user.ctx.elr
  pub entry : s < thread_slot_idle → InSandbox t.user.user_entry
  pub dead : s < thread_slot_idle → is_dead t.user.state ≡ is_stopped t.state
  pub idle_lives : s ≡ thread_slot_idle → is_stopped t.state ≡ false

-- All bytes of a buffer that the kernel will write to lie in the sandbox.
abbrev pub Writable : ℕ → ℕ → Type 0
Writable ptr cap = 0 < cap → (el0_sandbox_base ≤ ptr) × (ptr + cap ≤ el0_sandbox_end)

-- An endpoint in order: the kernel's array has room for its message, and nobody waits for a message
-- that is there.
pub record EndpointOk (ep : Endpoint) : Type 0 where
  pub owner : (ep.owner_slot < thread_slot_idle) ⊎ (ep.owner_slot ≡ slot_none)
  pub reply_buf : Writable ep.caller_reply_ptr ep.caller_reply_cap
  pub recv_buf : Writable ep.receiver_buf_ptr ep.receiver_buf_cap
  pub fits : ep.pending_len ≤ ipc_msg_size
  pub unheard : ep.has_pending ≡ true → ep.blocked_receiver_slot ≡ slot_none

-- The kernel's data are sound, and its records agree with the set `b` of waiting tasks.
pub record SoundParts (threads : ℕ → Thread) (endpoints : ℕ → Endpoint) (supervisor : ℕ)
    (b : ℕ → Bool) : Type 0 where
  pub threads_ok : (s : ℕ) → s < thread_count → ThreadOk s (threads s)
  pub endpoints_ok : (i : ℕ) → i < ep_count → EndpointOk (endpoints i)
  pub waits : Agree (place_slot endpoints supervisor) b

abbrev pub Sound : Kernel → (ℕ → Bool) → Type 0
Sound k b = SoundParts k.threads k.endpoints k.blocked_supervisor_slot b

-- The invariant: `b` is the set of the tasks that wait in `k`.
abbrev pub Inv : Kernel → Type 0
Inv k = Sound k (waiting k)

pub Sound-put_thread :
    (k : Kernel) {b : ℕ → Bool} (s : ℕ) (t : Thread)
    → Sound k b
    → ThreadOk s t
    → Sound (put_thread s t k) b
Sound-put_thread k s t h ok = record {
  threads_ok = update_all ThreadOk thread_count k.threads s t h.threads_ok ok;
  endpoints_ok = h.endpoints_ok;
  waits = h.waits;
}

-- A new endpoint, with the table of waiting tasks that goes with it.
pub Sound-put_endpoint :
    (k : Kernel) {b b' : ℕ → Bool} (i : ℕ) (ep : Endpoint) {w : Place → ℕ}
    → Sound k b
    → EndpointOk ep
    → Agree w b'
    → ((p : Place) → waiter (put_endpoint i ep k) p ≡ w p)
    → Sound (put_endpoint i ep k) b'
Sound-put_endpoint k i ep h ok a same = record {
  threads_ok = h.threads_ok;
  endpoints_ok = update_all (λ _. EndpointOk) ep_count k.endpoints i ep h.endpoints_ok ok;
  waits = Agree-ext a (λ p _. same p) (λ s lt. refl);
}

-- The set of waiting tasks may be exchanged for an equal one.
pub Sound-ext :
    (k : Kernel) {b b' : ℕ → Bool}
    → Sound k b
    → ((s : ℕ) → s < thread_slot_idle → b' s ≡ b s)
    → Sound k b'
Sound-ext k h same = record {
  threads_ok = h.threads_ok;
  endpoints_ok = h.endpoints_ok;
  waits = Agree-ext h.waits (λ p ok. refl) same;
}

-- The tables that differ from `waiter k` in endpoint `i`.
module _ (k : Kernel) (i : ℕ) (ep : Endpoint) where
  pub waiter_same :
      ep.blocked_caller_slot ≡ (k.endpoints i).blocked_caller_slot
      → ep.blocked_receiver_slot ≡ (k.endpoints i).blocked_receiver_slot
      → (p : Place) → waiter (put_endpoint i ep k) p ≡ waiter k p
  waiter_same c r (at_caller j) = ground (arith, eq_of_== i j)
  waiter_same c r (at_receiver j) = ground (arith, eq_of_== i j)
  waiter_same c r at_supervisor = refl

  pub waiter_caller :
      ep.blocked_receiver_slot ≡ (k.endpoints i).blocked_receiver_slot
      → (p : Place)
      → waiter (put_endpoint i ep k) p ≡ write (waiter k) (at_caller i) ep.blocked_caller_slot p
  waiter_caller r (at_caller j) = ground (arith, eq_of_== i j)
  waiter_caller r (at_receiver j) = ground (arith, eq_of_== i j)
  waiter_caller r at_supervisor = refl

  pub waiter_receiver :
      ep.blocked_caller_slot ≡ (k.endpoints i).blocked_caller_slot
      → (p : Place)
      → waiter (put_endpoint i ep k) p ≡ write (waiter k) (at_receiver i) ep.blocked_receiver_slot p
  waiter_receiver c (at_caller j) = ground (arith, eq_of_== i j)
  waiter_receiver c (at_receiver j) = ground (arith, eq_of_== i j)
  waiter_receiver c at_supervisor = refl

pub waiter_supervisor :
    (k : Kernel) (slot : ℕ) (p : Place)
    → waiter (record k { blocked_supervisor_slot = slot }) p ≡ write (waiter k) at_supervisor slot p
waiter_supervisor k slot (at_caller i) = refl
waiter_supervisor k slot (at_receiver i) = refl
waiter_supervisor k slot at_supervisor = refl
