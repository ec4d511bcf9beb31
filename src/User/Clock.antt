-- ===== src/User/Clock.antt =====
-- Task A's clock: `tick_reached` across the wrap of the counter, and the rate of its messages.
use d_rpi_proto_os.Base.{
  ℕ, zero, suc, ◌+◌, ◌-◌, ◌*◌, ◌%◌, ◌^◌, ◌≤◌, ◌<◌, ◌≡◌, refl, ap, sym, ◌∙◌, inl, inr, List, [], ◌∷◌,
  ◌++◌, leb, Bool-cases, true, arith,
}
use d_rpi_proto_os.State.Effect.{codes}
use d_rpi_proto_os.User.Calls.{
  Answers, UserState, Request, svc, word, buffer, written, asked_text, bytes_of,
}
use d_rpi_proto_os.User.Emit.{char_at}
use d_rpi_proto_os.User.Tasks.{tick_reached, task_a_round, task_a_rounds, task_a_entry}
use mathlib.Core.List.{append-nil, append_assoc}

-- If two points of time are d and e ticks after the same one, with d and e below 2 ^ 63, then
-- tick_reached compares d and e, also when the counter has wrapped around in between.
pub tick_reached_lem :
    (base d e : ℕ)
    → d < 2 ^ 63
    → e < 2 ^ 63
    → tick_reached ((base + e) % 2 ^ 64) ((base + d) % 2 ^ 64) ≡ leb d e
unfolding tick_reached
tick_reached_lem base d e d_lt e_lt = ground arith

abbrev pub ticks_request : Request
ticks_request = svc 1 (word 0 ∷ word 0 ∷ [])

-- Every time that the kernel tells is at most the end.
abbrev pub Until : Answers → ℕ → Type 0
Until answers end = (rs : List Request) → (answers (ticks_request ∷ rs)).x0 ≤ end

-- The text of a number of messages.
unfoldable pub messages : ℕ → List ℕ
messages zero = []
messages (suc k) = messages k ++ codes "A\n"

-- Behind some messages: the tick of the next one, and the text.
record Paced (first end : ℕ) (before : List ℕ) (k next : ℕ) (s : UserState) : Type 0 where
  pub next_tick : next ≡ first + 200 * suc k
  pub in_time : 200 * k ≤ end - first
  pub said : written s.requests ≡ before ++ messages k

silent :
    (nr : ℕ) (a b : ℕ) (rs : List Request)
    → written (svc nr (word a ∷ word b ∷ []) ∷ rs) ≡ written rs
unfolding written asked_text
silent nr a b rs = append-nil (written rs)

one_message :
    (rs : List Request)
    → written (svc 2 (buffer (char_at (codes "A\n")) ∷ word 2 ∷ []) ∷ rs)
      ≡ written rs ++ codes "A\n"
unfolding written asked_text bytes_of char_at
one_message rs = refl

messages_step : (k : ℕ) → messages (suc k) ≡ messages k ++ codes "A\n"
unfolding messages
messages_step k = refl

messages_none : (before : List ℕ) → before ≡ before ++ messages 0
unfolding messages
messages_none before = sym (append-nil before)

reached-le :
    (now next end : ℕ)
    → now ≤ end
    → next ≤ end + 200
    → end + 200 < 2 ^ 63
    → tick_reached now next ≡ true
    → next ≤ now
unfolding tick_reached
reached-le now next end a b c h = ground arith

task_a_round-Paced :
    (answers : Answers) (first end : ℕ) (before : List ℕ) (k next : ℕ) (s : UserState)
    → Until answers end
    → first ≤ end
    → end + 200 < 2 ^ 63
    → Paced first end before k next s
    → (let after = task_a_round answers next s in
        (k' : ℕ) × Paced first end before k' after.0 after.1)
unfolding task_a_round
task_a_round-Paced answers first end before k next s until le lt paced =
    let now = (answers (ticks_request ∷ s.requests)).x0 in
    elim (Bool-cases (tick_reached now next)) [
      | inl e ↦ rw e (
          let past =
            reached-le now next end (until s.requests)
              (omega (arith, paced.next_tick, paced.in_time)) lt e in
          (
            suc k,
            record {
              next_tick = omega (arith, paced.next_tick, paced.in_time);
              in_time = omega (arith, paced.next_tick, past, until s.requests);
              said =
                  silent 0 0 0 _
                  ∙ one_message (ticks_request ∷ s.requests)
                  ∙ ap (λ t. t ++ codes "A\n") (silent 1 0 0 s.requests ∙ paced.said)
                  ∙ append_assoc before (messages k) (codes "A\n")
                  ∙ ap (λ t. before ++ t) (sym (messages_step k));
            },
          ))
      | inr e ↦ rw e (
          (
            k,
            record {
              next_tick = paced.next_tick;
              in_time = paced.in_time;
              said = silent 0 0 0 _ ∙ silent 1 0 0 _ ∙ paced.said;
            },
          ))
    ]

task_a_rounds-Paced :
    (answers : Answers) (first end : ℕ) (before : List ℕ) (rounds k next : ℕ) (s : UserState)
    → Until answers end
    → first ≤ end
    → end + 200 < 2 ^ 63
    → Paced first end before k next s
    → (let after = task_a_rounds answers rounds next s in
        (k' : ℕ) × Paced first end before k' after.0 after.1)
unfolding task_a_rounds
task_a_rounds-Paced answers first end before zero k next s until le lt paced = (k, paced)
task_a_rounds-Paced answers first end before (suc left) k next s until le lt paced =
    let (k', paced') = task_a_round-Paced answers first end before k next s until le lt paced in
    task_a_rounds-Paced answers first end before left k' _ _ until le lt paced'

-- If the kernel never tells a time after a last one, which is below 2 ^ 63 - 200, then after any
-- number of rounds task A has written its message some number of times and nothing else, at most
-- once for each 200 ticks from the time that it read first up to the last one; its next message is
-- due 200 ticks, times one more than the number of messages, after the time that it read first.
pub task_a_entry-Paced :
    (answers : Answers) (end rounds : ℕ) (s : UserState)
    → Until answers end
    → end + 200 < 2 ^ 63
    → (let first = (answers (ticks_request ∷ s.requests)).x0 in
        let after = task_a_entry answers rounds s in
        (k : ℕ) × (after.0 ≡ first + 200 * suc k)
        × (200 * k ≤ end - first)
        × (written after.1.requests ≡ written s.requests ++ messages k))
unfolding task_a_entry
task_a_entry-Paced answers end rounds s until lt =
    let first = (answers (ticks_request ∷ s.requests)).x0 in
    let (k, paced) =
      task_a_rounds-Paced answers first end (written s.requests) rounds 0 _ _ until
        (until s.requests) lt
        (record {
          next_tick = omega (arith, until s.requests);
          in_time = omega arith;
          said = silent 1 0 0 s.requests ∙ messages_none (written s.requests);
        }) in
    (k, paced.next_tick, paced.in_time, paced.said)
