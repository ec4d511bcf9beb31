-- ===== src/Ipc/Channel/Meaning.antt =====
-- What it means that the kernel's calls keep the channel's promises: the channel that an endpoint stands for,
-- and what a verdict and an effect are in the kernel's state.
use d_rpi_proto_os.Base.{
  ℕ, zero, suc, ◌+◌, ◌-◌, ◌≡◌, ◌≢◌, List, [], ◌∷◌, Option, some, none, true, ◌&&◌, ◌==◌,
  if◌then◌else◌, leb, ltb,
}
use d_rpi_proto_os.Config.{slot_none, minus_one}
use d_rpi_proto_os.State.{Kernel, Endpoint, Build, return_ipc_block}
use d_rpi_proto_os.State.Output.{bytes_from}
use d_rpi_proto_os.Task.{woken}
use d_rpi_proto_os.Ipc.Channel.{
  Receiver, Caller, Channel, Verdict, refused, blocked, returned, Effect, nothing, fetched, handed,
  Response, length,
}

-- The place in a list.
unfoldable pub nth : List ℕ → ℕ → ℕ
nth [] j = 0
nth (v ∷ vs) zero = v
nth (v ∷ vs) (suc j) = nth vs j

-- Memory `m'` is `m` with a text at an address.
abbrev pub Holds : (ℕ → ℕ) → (ℕ → ℕ) → ℕ → List ℕ → Type 0
Holds m' m ptr text =
    (a : ℕ) → m' a ≡ (if leb ptr a && ltb a (ptr + length text) then nth text (a - ptr) else m a)

-- The channel that an endpoint stands for: what is behind the length of a message, and what buffers
-- are noted for nobody, is forgotten.
abbrev pub message_of : Endpoint → Option (List ℕ)
message_of ep = if ep.has_pending then some (bytes_from ep.pending_msg 0 0 ep.pending_len) else none

abbrev pub caller_of : Endpoint → Option Caller
caller_of ep =
    if ep.blocked_caller_slot == slot_none
    then none
    else some (record {
      slot = ep.blocked_caller_slot;
      ptr = ep.caller_reply_ptr;
      cap = ep.caller_reply_cap;
      fixed = ep.caller_result_override;
    })

abbrev pub receiver_of : Endpoint → Option Receiver
receiver_of ep =
    if ep.blocked_receiver_slot == slot_none
    then none
    else some (record {
      slot = ep.blocked_receiver_slot;
      ptr = ep.receiver_buf_ptr;
      cap = ep.receiver_buf_cap;
    })

abbrev pub channel_of : Endpoint → Channel
channel_of ep = record {
  owner = ep.owner_slot;
  message = message_of ep;
  caller = caller_of ep;
  receiver = receiver_of ep;
}

-- The threads of all but the calling task, and but some other one, are as they were.
abbrev Alone : Kernel → Kernel → ℕ → Type 0
Alone k k' c = (s : ℕ) → s ≢ c → k'.threads s ≡ k.threads s

-- Task `c` sees the verdict behind its call, and the effect has happened.
abbrev pub Sees : Build → Kernel → ℕ → Verdict → ℕ → Kernel → Type 0
Sees b k c refused r k' = (r ≡ minus_one) × (k' ≡ k)
Sees b k c blocked r k' =
    ((k'.threads c).user.return_reason ≡ return_ipc_block)
    × (k'.frame.elr ≡ b.user_task_return_to_kernel)
Sees b k c (returned n) r k' = (r ≡ n) × (k'.threads c ≡ k.threads c) × (k'.frame ≡ k.frame)

abbrev pub Happens : Kernel → ℕ → Effect → Kernel → Type 0
Happens k c nothing k' = ((a : ℕ) → k'.mem a ≡ k.mem a) × Alone k k' c
Happens k c (fetched ptr text) k' = Holds k'.mem k.mem ptr text × Alone k k' c
Happens k c (handed s ptr text v) k' =
    Holds k'.mem k.mem ptr text
    × (k'.threads s ≡ woken v (k.threads s))
    × ((s' : ℕ) → s' ≢ c → s' ≢ s → k'.threads s' ≡ k.threads s')
    × (k'.resched_pending ≡ true)

-- The call of task `c` at endpoint `i` is answered as the channel promises.
pub record Meets (b : Build) (k : Kernel) (c i : ℕ) (p : Response) (r : ℕ) (k' : Kernel)
    : Type 0 where
  pub channel : channel_of (k'.endpoints i) ≡ p.channel
  pub others : (j : ℕ) → j ≢ i → k'.endpoints j ≡ k.endpoints j
  pub sees : Sees b k c p.verdict r k'
  pub happens : Happens k c p.effect k'
