-- ===== src/Session/AuthQueue/Refine.antt =====
-- helper/session/main.go: the queue of the authentication responder against a log of all datagrams.
use electric_eel.Base.{
  ℕ, zero, suc, ◌+◌, ◌≤◌, ◌<◌, ◌≡◌, ◌⊎◌, inl, inr, refl, sym, ap, ◌∙◌, arith, none, some, List, [],
  ◌∷◌, ◌++◌, length, drop, length-append, length-drop,
}
use electric_eel.Session.AuthQueue.{
  Datagram, Queue, try_send, drop_oldest, enqueue_auth_datagram, Op, enqueue, take_one, step, steps,
}

-- The specification: everything that was ever put in, and how much of it is gone.
pub record Log : Type 0 where
  pub sent : List Datagram
  pub gone : ℕ

-- What an operation may do to the log: a datagram that is put in is the last of the log and not gone,
-- nothing that is gone comes back, and one that is taken makes one go, if there is one.
abbrev pub Allowed : Op → Log → Log → Type 0
Allowed (enqueue d before between) log log' =
    (log'.sent ≡ log.sent ++ d ∷ []) × (log.gone ≤ log'.gone) × (log'.gone ≤ length log.sent)
Allowed take_one log log' =
    (log'.sent ≡ log.sent) × (log.gone ≤ log'.gone) × (log'.gone ≤ length log.sent)

-- the queue is what is not gone, and it fits the channel
abbrev pub Refines : ℕ → Queue → Log → Type 0
Refines capacity q log =
    (q ≡ drop log.gone log.sent) × (log.gone ≤ length log.sent) × (length q ≤ capacity)

drop-append :
    {A : Type 0} (n : ℕ) (xs ys : List A) → n ≤ length xs → drop n (xs ++ ys) ≡ drop n xs ++ ys
drop-append zero xs ys h = refl
drop-append (suc n) [] ys h = absurd (omega (arith, h))
drop-append (suc n) (x ∷ xs) ys h = drop-append n xs ys (omega (arith, h))

drop-nil : {A : Type 0} (n : ℕ) → drop {A = A} n [] ≡ []
drop-nil zero = refl
drop-nil (suc n) = refl

drop-drop : {A : Type 0} (m n k : ℕ) (xs : List A) → n + m ≡ k → drop m (drop n xs) ≡ drop k xs
drop-drop m zero k xs e = ap (λ (j : ℕ). drop j xs) (omega (arith, e))
drop-drop m (suc n) zero xs e = absurd (omega (arith, e))
drop-drop m (suc n) (suc k) [] e = drop-nil m
drop-drop m (suc n) (suc k) (x ∷ xs) e = drop-drop m n k xs (omega (arith, e))

-- a number that is past the end stands for the end
drop-clip :
    {A : Type 0} (n : ℕ) (xs : List A)
    → (k : ℕ) × (drop n xs ≡ drop k xs) × (k ≤ length xs) × ((k ≡ n) ⊎ (k ≡ length xs))
drop-clip zero xs = (zero, refl, omega arith, inl refl)
drop-clip (suc n) [] = (zero, refl, omega arith, inr refl)
drop-clip (suc n) (x ∷ xs) =
    let (k, e, le, which) = drop-clip n xs in
    (suc k, e, omega (arith, le), elim which [ inl f ↦ inl (ap suc f) | inr f ↦ inr (ap suc f) ])

-- some of the queue goes
gone-Refines :
    (capacity n : ℕ) (q : Queue) (log : Log)
    → Refines capacity q log
    → (k : ℕ) × (drop n q ≡ drop k log.sent) × (log.gone ≤ k) × (k ≤ length log.sent)
gone-Refines capacity n q log h =
    let (k, e, le, which) = drop-clip (log.gone + n) log.sent in
    (
      k,
      ap (drop n) h.0 ∙ drop-drop n log.gone (log.gone + n) log.sent refl ∙ e,
      elim which [ inl f ↦ omega (arith, f) | inr f ↦ omega (arith, f, h.1) ],
      le,
    )

-- a datagram put behind what is left
sent-Refines :
    (capacity k : ℕ) (d : Datagram) (q : Queue) (log : Log)
    → q ≡ drop k log.sent
    → k ≤ length log.sent
    → length q < capacity
    → Refines capacity (q ++ d ∷ []) (record { sent = log.sent ++ d ∷ []; gone = k })
sent-Refines capacity k d q log e le room = (
  ap (λ (p : Queue). p ++ d ∷ []) e ∙ sym (drop-append k log.sent (d ∷ []) le),
  omega (arith, length-append log.sent (d ∷ []), le),
  omega (arith, length-append q (d ∷ []), room),
)

try_send-cases :
    (capacity : ℕ) (d : Datagram) (q : Queue)
    → ((try_send capacity d q ≡ some (q ++ d ∷ [])) × (length q < capacity))
      ⊎ ((try_send capacity d q ≡ none) × (capacity ≤ length q))
unfolding try_send
try_send-cases capacity d q = ground arith

drop_oldest-room :
    (capacity before between : ℕ) (q : Queue)
    → 1 ≤ capacity
    → length q ≤ capacity
    → length (drop between (drop 1 (drop before q))) < capacity
drop_oldest-room capacity before between q some_room fits = omega (
  arith,
  some_room,
  fits,
  length-drop between (drop 1 (drop before q)),
  length-drop 1 (drop before q),
  length-drop before q,
)

abbrev Simulates : ℕ → Op → Queue → Log → Type 0
Simulates capacity op q log =
    (log' : Log) × Allowed op log log' × Refines capacity (step capacity op q) log'

drop_oldest-lem :
    (capacity before between : ℕ) (d : Datagram) (q : Queue)
    → 1 ≤ capacity
    → length q ≤ capacity
    → drop_oldest capacity d before between q ≡ drop between (drop 1 (drop before q)) ++ d ∷ []
unfolding drop_oldest
drop_oldest-lem capacity before between d q some_room fits =
    elim (try_send-cases capacity d (drop between (drop 1 (drop before q)))) [
      | inl (e, _) ↦ rw e refl
      | inr (e, full) ↦
          absurd (omega (arith, full, drop_oldest-room capacity before between q some_room fits))
    ]

enqueue-Simulates :
    (capacity before between : ℕ) (d : Datagram) (q : Queue) (log : Log)
    → 1 ≤ capacity
    → Refines capacity q log
    → Simulates capacity (enqueue d before between) q log
unfolding step enqueue_auth_datagram
enqueue-Simulates capacity before between d q log some_room h = elim (try_send-cases capacity d q) [
  | inl (e, room) ↦ (
    record { sent = log.sent ++ d ∷ []; gone = log.gone },
    (refl, omega arith, h.1),
    rw e (sent-Refines capacity log.gone d q log h.0 h.1 room),
  )
  | inr (e, _) ↦
      let n = before + 1 + between in
      let (k, is, le, most) = gone-Refines capacity n q log h in
      let left = drop between (drop 1 (drop before q)) in
      let same : left ≡ drop k log.sent =
        drop-drop between 1 (1 + between) (drop before q) refl
        ∙ drop-drop (1 + between) before n q (omega arith)
        ∙ is in
      (
        record { sent = log.sent ++ d ∷ []; gone = k },
        (refl, le, most),
        rw (e, drop_oldest-lem capacity before between d q some_room h.2)
            (sent-Refines capacity k d left log same most
              (drop_oldest-room capacity before between q some_room h.2)),
      )
]

take-Simulates :
    (capacity : ℕ) (q : Queue) (log : Log)
    → Refines capacity q log
    → Simulates capacity take_one q log
unfolding step
take-Simulates capacity q log h =
    let (k, is, le, most) = gone-Refines capacity 1 q log h in
    (
      record { sent = log.sent; gone = k },
      (refl, le, most),
      (is, most, omega (arith, length-drop 1 q, h.2)),
    )

step-Simulates :
    (capacity : ℕ) (op : Op) (q : Queue) (log : Log)
    → 1 ≤ capacity
    → Refines capacity q log
    → Simulates capacity op q log
step-Simulates capacity (enqueue d before between) q log some_room h =
    enqueue-Simulates capacity before between d q log some_room h
step-Simulates capacity take_one q log some_room h = take-Simulates capacity q log h

-- a run of the specification
abbrev pub Runs : List Op → Log → Log → Type 0
Runs [] log log' = log ≡ log'
Runs (op ∷ ops) log log' = (next : Log) × Allowed op log next × Runs ops next log'

-- Every run of the queue, with a channel that holds one datagram at least and however the responder takes from it meanwhile, is a run of the specification, and at its end the queue
-- is what is not gone from the log and fits the channel: so each datagram that was put in is in the queue
-- right after that, they stay in order, and only the oldest go.
pub steps-Refines :
    (capacity : ℕ) (ops : List Op) (q : Queue) (log : Log)
    → 1 ≤ capacity
    → Refines capacity q log
    → (log' : Log) × Runs ops log log' × Refines capacity (steps capacity ops q) log'
steps-Refines capacity [] q log some_room h = (log, refl, h)
steps-Refines capacity (op ∷ ops) q log some_room h =
    let (next, allowed, refines) = step-Simulates capacity op q log some_room h in
    let (last, runs, end) =
      steps-Refines capacity ops (step capacity op q) next some_room refines in
    (last, (next, allowed, runs), end)
