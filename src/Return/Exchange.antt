-- ===== src/Return/Exchange.antt =====
-- A thread at its scheduling point is exchanged for another one.
use d_rpi_proto_os.Base.{
  ℕ, ◌<◌, ◌≡◌, ◌≢◌, refl, Bool, true, false, some, inl, inr, arith, ◌==◌, ==_refl, Bool-cases,
  eq_of_==, ap, ◌∙◌,
}
use d_rpi_proto_os.Config.{thread_count}
use d_rpi_proto_os.State.{Kernel, Thread, Build, is_stopped, is_running, running}
use d_rpi_proto_os.Thread.{thread_is_selectable, demote, promote, save_ctx}
use d_rpi_proto_os.Thread.Switch.{exchanged}
use d_rpi_proto_os.Waits.{waiting, is_task_running}
use d_rpi_proto_os.Invariant.{Sound, Inv, Sound-put_thread, Sound-ext}
use d_rpi_proto_os.Handling.{Asleep}
use d_rpi_proto_os.Return.Alive.{Linked, Parked, Chosen}

-- Thread `c` is at its scheduling point: no other thread and no task runs.
pub record AtPoint (b : Build) (k : Kernel) (c : ℕ) : Type 0 where
  pub sound : Inv k
  pub current : k.current ≡ some c
  pub small : c < thread_count
  pub rests : is_task_running (k.threads c).user.state ≡ false
  pub asleep : (s : ℕ) → s < thread_count → s ≢ c → Asleep (k.threads s)
  pub parked : (s : ℕ) → s < thread_count → s ≢ c → Parked b s (k.threads s)

-- What a parked thread starts with is in its context and its reason.
pub Parked-ext :
    {b : Build} {s : ℕ} {t t' : Thread}
    → Parked b s t
    → t'.ctx ≡ t.ctx
    → t'.user.return_reason ≡ t.user.return_reason
    → Parked b s t'
Parked-ext p ctx reason = record {
  user_entry = rw ctx p.user_entry;
  user_arg = rw ctx p.user_arg;
  user_some = rw ctx p.user_some;
  user_reason = rw (ctx, reason) p.user_reason;
  idle_entry = rw ctx p.idle_entry;
}

Parked-called : {b : Build} {s : ℕ} {t : Thread} → t.ctx.lr ≢ b.thread_bootstrap → Parked b s t
Parked-called called = record {
  user_entry = λ fresh. elim (called fresh) [ ];
  user_arg = λ fresh. elim (called fresh) [ ];
  user_some = λ fresh. elim (called fresh) [ ];
  user_reason = λ fresh. elim (called fresh) [ ];
  idle_entry = λ fresh. elim (called fresh) [ ];
}

demote-Sound :
    (k : Kernel) (c : ℕ) {w : ℕ → Bool} → Sound k w → c < thread_count → Sound (demote (some c) k) w
unfolding demote
demote-Sound k c h lt = elim (Bool-cases (is_running (k.threads c).state)) [
  | inr e ↦ rw e h
  | inl e ↦
      let ok = h.threads_ok c lt in
      rw e (
        Sound-put_thread k c _ h (record {
          kind = ok.kind;
          slot = ok.slot;
          lr = ok.lr;
          sp = ok.sp;
          elr = ok.elr;
          entry = ok.entry;
          dead = λ small. ground (arith, ok.dead small);
          idle_lives = λ _. refl;
        }))
]

pub promote-Sound :
    (k : Kernel) (next : ℕ) {w : ℕ → Bool}
    → Sound k w
    → next < thread_count
    → is_stopped (k.threads next).state ≡ false
    → Sound (promote next k) w
unfolding promote
promote-Sound k next h lt live =
    let ok = h.threads_ok next lt in
    let s = Sound-put_thread k next _ h (record {
      kind = ok.kind;
      slot = ok.slot;
      lr = ok.lr;
      sp = ok.sp;
      elr = ok.elr;
      entry = ok.entry;
      dead = λ small. ok.dead small ∙ live;
      idle_lives = λ _. refl;
    }) in
    record { threads_ok = s.threads_ok; endpoints_ok = s.endpoints_ok; waits = s.waits }

save_ctx-Sound :
    (b : Build) (k : Kernel) (c : ℕ) {w : ℕ → Bool}
    → Linked b
    → Sound k w
    → c < thread_count
    → Sound (save_ctx b (some c) k) w
unfolding save_ctx
save_ctx-Sound b k c l h lt =
    let ok = h.threads_ok c lt in
    Sound-put_thread k c _ h (record {
      kind = ok.kind;
      slot = ok.slot;
      lr = l.live_lr k;
      sp = l.live_sp k;
      elr = ok.elr;
      entry = ok.entry;
      dead = ok.dead;
      idle_lives = ok.idle_lives;
    })

module _ {b : Build} {k : Kernel} {c : ℕ} (l : Linked b) (p : AtPoint b k c) (next : ℕ)
    (lt : next < thread_count) (ne : next ≢ c)
    (ready : thread_is_selectable (k.threads next) ≡ true) where
  next_live : is_stopped (k.threads next).state ≡ false
  unfolding thread_is_selectable
  next_live = ground arith

  demoted_live : is_stopped ((demote (some c) k).threads next).state ≡ false
  unfolding demote
  demoted_live = ground (arith, next_live)

  exchanged-Sound : Sound (exchanged b c next k) (waiting k)
  unfolding exchanged
  exchanged-Sound =
      save_ctx-Sound b _ c l
        (promote-Sound _ next (demote-Sound k c p.sound p.small) lt demoted_live) p.small

  exchanged-waiting : (s : ℕ) → waiting (exchanged b c next k) s ≡ waiting k s
  unfolding exchanged demote promote save_ctx
  exchanged-waiting s = ground (arith, next_live, eq_of_== c s, eq_of_== next s, ap k.threads)

  exchanged-ctx : (s : ℕ) → s ≢ c → ((exchanged b c next k).threads s).ctx ≡ (k.threads s).ctx
  unfolding exchanged demote promote save_ctx
  exchanged-ctx s other = ground (arith, eq_of_== next s, ap k.threads)

  exchanged-user : (s : ℕ) → ((exchanged b c next k).threads s).user ≡ (k.threads s).user
  unfolding exchanged demote promote save_ctx
  exchanged-user s = ground (arith, eq_of_== next s, eq_of_== c s, ap k.threads)

  exchanged-rests :
      (s : ℕ)
      → s < thread_count
      → s ≢ next
      → is_running ((exchanged b c next k).threads s).state ≡ false
  unfolding exchanged demote promote save_ctx
  exchanged-rests s s_lt s_ne = ground (arith, p.asleep s s_lt, eq_of_== c s, ap k.threads)

  rests : (s : ℕ) → s < thread_count → s ≢ next → is_task_running (k.threads s).user.state ≡ false
  rests s s_lt s_ne = elim (Bool-cases (s == c)) [
    | inl e ↦ rw (eq_of_== s c e) p.rests
    | inr e ↦ (p.asleep s s_lt (λ same. ground (arith, same, e))).1
  ]

  exchanged-called : ((exchanged b c next k).threads c).ctx.lr ≢ b.thread_bootstrap
  unfolding exchanged save_ctx
  exchanged-called = rw (==_refl c) (l.live_call _)

  others-Parked :
      (s : ℕ) → s < thread_count → s ≢ next → Parked b s ((exchanged b c next k).threads s)
  others-Parked s s_lt s_ne = elim (Bool-cases (s == c)) [
    | inl e ↦ rw (eq_of_== s c e) (Parked-called exchanged-called)
    | inr e ↦
        let other : s ≢ c = (λ same. ground (arith, same, e)) in
        Parked-ext (p.parked s s_lt other) (exchanged-ctx s other)
          (ap (λ u. u.return_reason) (exchanged-user s))
  ]

  pub exchanged-Chosen : Chosen b (exchanged b c next k) next
  unfolding exchanged demote promote save_ctx thread_is_selectable
  exchanged-Chosen =
      let ok = p.sound.threads_ok next lt in
      record {
        sound = Sound-ext (exchanged b c next k) exchanged-Sound (λ s _. exchanged-waiting s);
        current = refl;
        live = ground arith;
        ready = λ small. ground (arith, ok.kind);
        awake = λ small. exchanged-waiting next ∙ ground (arith, ok.kind, p.asleep next lt ne);
        rests = λ _. rw (exchanged-user next) (p.asleep next lt ne).1;
        asleep =
            λ s s_lt s_ne. (exchanged-rests s s_lt s_ne, rw (exchanged-user s) (rests s s_lt s_ne));
        parked = λ s s_lt s_ne. others-Parked s s_lt s_ne;
      }

  pub exchanged-Parked : Parked b next ((exchanged b c next k).threads next)
  exchanged-Parked =
      Parked-ext (p.parked next lt ne) (exchanged-ctx next ne)
        (ap (λ u. u.return_reason) (exchanged-user next))

  pub exchanged-running : ((exchanged b c next k).threads next).state ≡ running
  unfolding exchanged promote save_ctx
  exchanged-running = ground arith
