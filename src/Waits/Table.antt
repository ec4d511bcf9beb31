-- ===== src/Waits/Table.antt =====
-- A table of waiting tasks by place, and the set of tasks that wait: the abstract view of the kernel's
-- records, with the two changes that the kernel makes.
use d_rpi_proto_os.Base.{
  ℕ, ◌<◌, ◌≡◌, ◌≢◌, ◌⊎◌, inl, inr, refl, ap, ◌∙◌, Bool, true, false, ◌==◌, if◌then◌else◌, arith,
  update, Bool-cases,
}
use d_rpi_proto_os.Config.{ep_count, slot_none, thread_slot_idle}

pub data Place : Type 0 where
  at_caller at_receiver : ℕ → Place
  at_supervisor : Place

abbrev pub IsPlace : Place → Type 0
IsPlace (at_caller i) = i < ep_count
IsPlace (at_receiver i) = i < ep_count
IsPlace at_supervisor = Unit {0}

abbrev pub same_place : Place → Place → Bool
same_place (at_caller i) (at_caller j) = i == j
same_place (at_receiver i) (at_receiver j) = i == j
same_place at_supervisor at_supervisor = true
same_place _ _ = false

pub same_place_eq : (p q : Place) → same_place p q ≡ true → p ≡ q
same_place_eq (at_caller i) (at_caller j) h = ground arith
same_place_eq (at_receiver i) (at_receiver j) h = ground arith
same_place_eq at_supervisor at_supervisor h = refl
same_place_eq (at_caller i) (at_receiver j) h = ground arith
same_place_eq (at_caller i) at_supervisor h = ground arith
same_place_eq (at_receiver i) (at_caller j) h = ground arith
same_place_eq (at_receiver i) at_supervisor h = ground arith
same_place_eq at_supervisor (at_caller j) h = ground arith
same_place_eq at_supervisor (at_receiver j) h = ground arith

pub same_place_refl : (p : Place) → same_place p p ≡ true
same_place_refl (at_caller i) = ground arith
same_place_refl (at_receiver i) = ground arith
same_place_refl at_supervisor = refl

-- A table gives each place the slot that it records, or `slot_none`.
abbrev pub write : (Place → ℕ) → Place → ℕ → Place → ℕ
write w p s q = if same_place p q then s else w q

pub record Agree (w : Place → ℕ) (b : ℕ → Bool) : Type 0 where
  pub recorded :
      (p : Place) → IsPlace p → w p ≢ slot_none → (w p < thread_slot_idle) × (b (w p) ≡ true)
  pub unique : (p q : Place) → IsPlace p → IsPlace q → w p ≢ slot_none → w p ≡ w q → p ≡ q
  pub complete : (s : ℕ) → s < thread_slot_idle → b s ≡ true → (p : Place) × IsPlace p × (w p ≡ s)

-- A task that does not wait is recorded nowhere.
pub not_recorded :
    {w : Place → ℕ} {b : ℕ → Bool}
    → Agree w b
    → (p : Place) (s : ℕ) → IsPlace p
    → s < thread_slot_idle
    → b s ≡ false
    → w p ≢ s
not_recorded a p s ok lt h e = let r = a.recorded p ok (ground arith) in ground arith

same_place_ne : (p q : Place) → same_place p q ≡ false → p ≢ q
same_place_ne p q h e = cc (h, ap (same_place p) e, same_place_refl p)

same_place_cases : (p q : Place) → ((same_place p q ≡ true) × (p ≡ q)) ⊎ (same_place p q ≡ false)
same_place_cases p q = elim (Bool-cases (same_place p q)) [
  | inl e ↦ inl (e, same_place_eq p q e)
  | inr e ↦ inr e
]

-- A task begins to wait at a free place.
module _ {w : Place → ℕ} {b : ℕ → Bool} (a : Agree w b) (p : Place) where
  park_unique :
      (s : ℕ)
      → s < thread_slot_idle
      → b s ≡ false
      → (q r : Place) → IsPlace q
      → IsPlace r
      → write w p s q ≢ slot_none
      → write w p s q ≡ write w p s r
      → q ≡ r
  park_unique s lt idle q r okq okr h e = ground (
    arith,
    same_place_cases p q,
    same_place_cases p r,
    not_recorded a q s okq lt idle,
    not_recorded a r s okr lt idle,
    a.unique q r okq okr,
  )

  park_complete :
      (s : ℕ)
      → IsPlace p
      → w p ≡ slot_none
      → (t : ℕ) → t < thread_slot_idle
      → update b s true t ≡ true
      → (q : Place) × IsPlace q × (write w p s q ≡ t)
  park_complete s ok free t lt h = elim (Bool-cases (s == t)) [
    | inl e ↦ (p, ok, ground (arith, same_place_refl p))
    | inr e ↦
        let (q, okq, at) = a.complete t lt (ground arith) in
        (q, okq, ground (arith, same_place_cases p q))
  ]

  pub Agree-park :
      (s : ℕ)
      → IsPlace p
      → w p ≡ slot_none
      → s < thread_slot_idle
      → b s ≡ false
      → Agree (write w p s) (update b s true)
  Agree-park s ok free lt idle = record {
    recorded = λ q okq h. ground (arith, a.recorded q okq);
    unique = park_unique s lt idle;
    complete = park_complete s ok free;
  }

  unpark_recorded :
      IsPlace p
      → w p ≢ slot_none
      → (q : Place) → IsPlace q
      → write w p slot_none q ≢ slot_none
      → (write w p slot_none q < thread_slot_idle)
        × (update b (w p) false (write w p slot_none q) ≡ true)
  unpark_recorded ok busy q okq h =
      ground (arith, same_place_ne p q, a.recorded q okq, a.unique p q ok okq busy)

  unpark_unique :
      (q r : Place)
      → IsPlace q
      → IsPlace r
      → write w p slot_none q ≢ slot_none
      → write w p slot_none q ≡ write w p slot_none r
      → q ≡ r
  unpark_unique q r okq okr h e = ground (arith, a.unique q r okq okr)

  unpark_complete :
      (t : ℕ)
      → t < thread_slot_idle
      → update b (w p) false t ≡ true
      → (q : Place) × IsPlace q × (write w p slot_none q ≡ t)
  unpark_complete t lt h =
      let (q, okq, at) = a.complete t lt (ground arith) in
      (q, okq, ground (arith, same_place_cases p q, ap w))

  -- The task at a place is woken.
  pub Agree-unpark :
      IsPlace p → w p ≢ slot_none → Agree (write w p slot_none) (update b (w p) false)
  Agree-unpark ok busy = record {
    recorded = unpark_recorded ok busy;
    unique = unpark_unique;
    complete = unpark_complete;
  }

-- The two views may be exchanged for equal ones.
pub Agree-ext :
    {w w' : Place → ℕ} {b b' : ℕ → Bool}
    → Agree w b
    → ((p : Place) → IsPlace p → w' p ≡ w p)
    → ((s : ℕ) → s < thread_slot_idle → b' s ≡ b s)
    → Agree w' b'
Agree-ext {w} {w'} {b} {b'} a same_w same_b = record {
  recorded = λ p ok h.
      let r = a.recorded p ok (ground (arith, same_w p ok)) in
      ground (arith, same_w p ok, same_b (w p));
  unique = λ p q okp okq h e.
      a.unique p q okp okq (ground (arith, same_w p okp))
        (ground (arith, same_w p okp, same_w q okq));
  complete = λ s lt h.
      let (p, ok, at) = a.complete s lt (ground (arith, same_b s lt)) in (p, ok, same_w p ok ∙ at);
}
