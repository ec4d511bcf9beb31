-- ===== src/Ipc/Channel.antt =====
-- What an endpoint of kernel/core/ipc.c stands for, without its variables: a channel with an owner, at
-- most one message on its way, at most one caller and at most one receiver. What the calls and a death
-- make of a channel is said here; the modules below are about the code.
pub mod Meaning
pub mod Texts
pub mod Parts
pub mod Passing
pub mod Call
pub mod Receive
pub mod Reply
pub mod Refines
pub mod Loss
pub mod Drops
use d_rpi_proto_os.Base.{
  ℕ, zero, suc, ◌+◌, ◌-◌, ◌≡◌, ◌≢◌, List, [], ◌∷◌, Option, some, none, Bool, true, false, ◌&&◌,
  ◌||◌, not, ◌==◌, if◌then◌else◌, leb, ltb,
}
use d_rpi_proto_os.Config.{slot_none, minus_one}
use d_rpi_proto_os.State.{Kernel, Endpoint, Build, return_ipc_block}
use d_rpi_proto_os.State.Output.{bytes_from}
use d_rpi_proto_os.Task.{woken}

-- A task that waits for a message, with its buffer.
pub record Receiver : Type 0 where
  pub slot : ℕ
  pub ptr : ℕ
  pub cap : ℕ

-- A task that waits for the reply; a result other than 0 is fixed beforehand.
pub record Caller : Type 0 where
  pub slot : ℕ
  pub ptr : ℕ
  pub cap : ℕ
  pub fixed : ℕ

pub record Channel : Type 0 where
  pub owner : ℕ
  pub message : Option (List ℕ)
  pub caller : Option Caller
  pub receiver : Option Receiver

abbrev is_some : {A : Type 0} → Option A → Bool
is_some (some a) = true
is_some none = false

-- What the task that makes the call sees.
pub data Verdict : Type 0 where
  refused blocked : Verdict
  returned : ℕ → Verdict

-- What else happens: nothing; a text comes into the task's own buffer; or another task is woken with a
-- text in its buffer and a result.
pub data Effect : Type 0 where
  nothing : Effect
  fetched : ℕ → List ℕ → Effect
  handed : ℕ → ℕ → List ℕ → ℕ → Effect

pub record Response : Type 0 where
  pub channel : Channel
  pub verdict : Verdict
  pub effect : Effect

unfoldable pub length : List ℕ → ℕ
length [] = 0
length (v ∷ vs) = suc (length vs)

unfoldable pub take : ℕ → List ℕ → List ℕ
take zero vs = []
take (suc n) [] = []
take (suc n) (v ∷ vs) = v ∷ take n vs

abbrev pub refuse : Channel → Response
refuse ch = record { channel = ch; verdict = refused; effect = nothing }

abbrev pub pass : Channel → Option Receiver → List ℕ → Response
pass ch (some r) text =
    let got = take r.cap text in
    record {
      channel = record ch { receiver = none };
      verdict = blocked;
      effect = handed r.slot r.ptr got (length got);
    }
pass ch none text = record {
  channel = record ch { message = some text };
  verdict = blocked;
  effect = nothing;
}

abbrev pub can_call : Channel → Bool
can_call ch = not (ch.owner == slot_none) && not (is_some ch.message || is_some ch.caller)

-- A call with a text, by a caller.
abbrev pub call : Bool → Channel → Caller → List ℕ → Response
call sensible ch caller text =
    if sensible && can_call ch
    then pass (record ch { caller = some caller }) ch.receiver text
    else refuse ch

abbrev pub fetch : Channel → Option (List ℕ) → Option Receiver → Receiver → Response
fetch ch (some text) waiting r =
    let got = take r.cap text in
    record {
      channel = record ch { message = none };
      verdict = returned (length got);
      effect = fetched r.ptr got;
    }
fetch ch none (some other) r = refuse ch
fetch ch none none r = record {
  channel = record ch { receiver = some r };
  verdict = blocked;
  effect = nothing;
}

-- A receive, which only the owner may make.
abbrev pub receive : Bool → Channel → Receiver → Response
receive sensible ch r =
    if sensible && not (ch.owner == slot_none) && (ch.owner == r.slot)
    then fetch ch ch.message ch.receiver r
    else refuse ch

abbrev pub hand_back : Channel → Option Caller → List ℕ → Response
hand_back ch (some c) text =
    let got = take c.cap text in
    record {
      channel = record ch { caller = none };
      verdict = returned 0;
      effect = handed c.slot c.ptr got (if c.fixed == 0 then length got else c.fixed);
    }
hand_back ch none text = refuse ch

-- A reply of a task, with a text.
abbrev pub reply : Bool → Channel → ℕ → List ℕ → Response
reply sensible ch slot text =
    if sensible && not (ch.owner == slot_none) && (ch.owner == slot)
    then hand_back ch ch.caller text
    else refuse ch

-- A task dies: it waits no more, and a call that it would answer, or that it has made, is forgotten
-- together with the message.
abbrev pub without : ℕ → Option Receiver → Option Receiver
without slot (some r) = if r.slot == slot then none else some r
without slot none = none

abbrev pub drop_caller : ℕ → Channel → Option Caller → Channel
drop_caller slot ch (some c) =
    if (ch.owner == slot) || (c.slot == slot)
    then record ch { message = none; caller = none }
    else ch
drop_caller slot ch none = ch

abbrev pub drop : ℕ → Channel → Channel
drop slot ch = drop_caller slot (record ch { receiver = without slot ch.receiver }) ch.caller
