-- ===== src/Examples/Blank.antt =====
-- Data for tests: threads, endpoints and devices before their set-up, and hardware with a timer.
use d_rpi_proto_os.Base.{false, none, []}
use d_rpi_proto_os.State.{
  Thread, ThreadCtx, UserTaskCtx, Endpoint, stopped, idle, task_dead, return_none,
}
use d_rpi_proto_os.Devices.{Hardware, Devices}

abbrev pub zero_ctx : ThreadCtx
zero_ctx = record {
  x19 = 0;
  x20 = 0;
  x21 = 0;
  x22 = 0;
  x23 = 0;
  x24 = 0;
  x25 = 0;
  x26 = 0;
  x27 = 0;
  x28 = 0;
  x29 = 0;
  sp = 0;
  lr = 0;
}

abbrev pub zero_user_ctx : UserTaskCtx
zero_user_ctx = record { x = λ _. 0; sp_el0 = 0; elr = 0; spsr = 0 }

abbrev pub zero_thread : Thread
zero_thread = record {
  ctx = zero_ctx;
  state = stopped;
  kind = idle;
  quantum_left = 0;
  slot = 0;
  entry = 0;
  arg = 0;
  name = none;
  user = record {
    ctx = zero_user_ctx;
    state = task_dead;
    return_reason = return_none;
    user_entry = 0;
    user_sp = 0;
    ttbr0_future = 0;
    name = none;
    started = false;
  };
}

abbrev pub zero_endpoint : Endpoint
zero_endpoint = record {
  owner_slot = 0;
  has_pending = false;
  pending_len = 0;
  pending_msg = λ _. 0;
  blocked_caller_slot = 0;
  caller_reply_ptr = 0;
  caller_reply_cap = 0;
  caller_result_override = 0;
  blocked_receiver_slot = 0;
  receiver_buf_ptr = 0;
  receiver_buf_cap = 0;
}

-- Hardware whose interrupts are the timer's, and the devices before their set-up.
abbrev pub timer_hardware : Hardware
timer_hardware = record { mmio_read = λ _ _. 27; cntfrq_el0 = 62500000 }

abbrev pub quiet_devices : Devices
quiet_devices = record {
  ticks = 0;
  counter_freq = 0;
  tick_interval = 0;
  cntkctl_el1 = 0;
  cntv_tval_el0 = 0;
  cntv_ctl_el0 = 0;
  mmio_writes = [];
  irq_enabled = false;
}
