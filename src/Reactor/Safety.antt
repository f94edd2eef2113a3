-- ===== src/Reactor/Safety.antt =====
-- cbits/curl_uv.c: contexts that libcurl knows are open, and each one is freed once.
use hcurl.Prelude.{
  ℕ, ◌+◌, ◌≤◌, ◌≡◌, ◌≢◌, refl, ap, ◌∙◌, ◌⊎◌, inl, inr, true, false, List, [], ◌∷◌, some, arith,
  ◌==◌, ==_iff, Bool-cases,
}
use hcurl.Agent.Ledger.{one}
use hcurl.Agent.Invariant.{IsValid}
use hcurl.Reactor.{Phase, absent, open_at, closing_at, Reactor, put, destroy_socket_context}

abbrev pub count : ℕ → List ℕ → ℕ
count c [] = 0
count c (d ∷ log) = one d c + count c log

-- 1 where there is a context; and where it is open.
abbrev pub live : Phase → ℕ
live absent = 0
live (open_at fd events) = 1
live (closing_at fd) = 1

abbrev pub opened : Phase → ℕ
opened absent = 0
opened (open_at fd events) = 1
opened (closing_at fd) = 0

-- The pointer that libcurl has for a socket leads to an open context of this socket.
abbrev pub Linked : (ℕ → ℕ) → (ℕ → Phase) → ℕ → Type 0
Linked assigned phase fd =
    (assigned fd ≡ 0) ⊎ ((events : ℕ) × (phase (assigned fd) ≡ open_at fd events))

pub record IsSafe (r : Reactor) : Type 0 where
  pub agent : IsValid r.agent
  pub linked : (fd : ℕ) → Linked r.assigned r.phase fd
  pub allocs : (c : ℕ) → count c r.allocated ≡ count c r.freed + live (r.phase c)
  pub closes : (c : ℕ) → count c r.closed + opened (r.phase c) ≤ count c r.allocated

-- A call by libcurl: nothing that is there goes away, for libuv frees a context later.
pub record Kept (r r' : Reactor) : Type 0 where
  pub safe : IsSafe r'
  pub stays : (c : ℕ) → live (r.phase c) ≤ live (r'.phase c)

pub stay : {r : Reactor} → IsSafe r → Kept r r
stay v = record { safe = v; stays = λ c. omega arith }

pub then_Kept : {a b c : Reactor} → Kept a b → Kept b c → Kept a c
then_Kept h k = record { safe = k.safe; stays = λ c. omega (arith, h.stays c, k.stays c) }

pub phase-cases :
    (p : Phase)
    → (p ≡ absent)
      ⊎ ((fd : ℕ) × (events : ℕ) × (p ≡ open_at fd events))
      ⊎ ((fd : ℕ) × (p ≡ closing_at fd))
phase-cases absent = inl refl
phase-cases (open_at fd events) = inr (inl (fd, events, refl))
phase-cases (closing_at fd) = inr (inr (fd, refl))

-- A phase that is written at a context to which no pointer of libcurl leads.
pub put-Linked :
    (c : ℕ) (p : Phase) (assigned : ℕ → ℕ) (phase : ℕ → Phase) (fd : ℕ)
    → (assigned fd ≡ c → c ≡ 0)
    → Linked assigned phase fd
    → Linked assigned (put c p phase) fd
put-Linked c p assigned phase fd unlinked (inl e) = inl e
put-Linked c p assigned phase fd unlinked (inr (events, e)) = elim (Bool-cases (assigned fd == c)) [
  | inl k ↦ let same = (==_iff (assigned fd) c).0 k in inl (same ∙ unlinked same)
  | inr k ↦ inr (events, rw k e)
]

close_phase-Kept :
    (c fd events : ℕ) {r : Reactor}
    → IsSafe r
    → r.phase c ≡ open_at fd events
    → ((fd : ℕ) → r.assigned fd ≡ c → c ≡ 0)
    → Kept r (record r { phase = put c (closing_at fd) r.phase; closed = c ∷ r.closed })
close_phase-Kept c fd events {r} v e unlinked = record {
  safe = record {
    agent = v.agent;
    linked = λ f. put-Linked c (closing_at fd) r.assigned r.phase f (unlinked f) (v.linked f);
    allocs = λ d. elim (Bool-cases (d == c)) [
      | inl k ↦
          let same : r.phase d ≡ open_at fd events = ap r.phase ((==_iff d c).0 k) ∙ e in
          rw k (omega (arith, v.allocs d, ap live same))
      | inr k ↦ rw k (v.allocs d)
    ];
    closes = λ d. elim (Bool-cases (d == c)) [
      | inl k ↦
          let same : r.phase d ≡ open_at fd events = ap r.phase ((==_iff d c).0 k) ∙ e in
          let self : (c == d) ≡ true = ground (arith, k) in
          rw (k, self) (omega (arith, v.closes d, ap opened same))
      | inr k ↦
          let other : (c == d) ≡ false = ground (arith, k) in
          rw (k, other) (omega (arith, v.closes d))
    ];
  };
  stays = λ d. elim (Bool-cases (d == c)) [
    | inl k ↦
        let same : r.phase d ≡ open_at fd events = ap r.phase ((==_iff d c).0 k) ∙ e in
        rw k (omega (arith, ap live same))
    | inr k ↦ rw k (omega arith)
  ];
}

-- `destroy_socket_context` of null, or of a context that is there and that libcurl does not know.
pub destroy-Kept :
    (c : ℕ) {r : Reactor}
    → IsSafe r
    → (c ≢ 0 → live (r.phase c) ≡ 1)
    → ((fd : ℕ) → r.assigned fd ≡ c → c ≡ 0)
    → (r' : Reactor) × (destroy_socket_context c r ≡ some r') × Kept r r'
unfolding destroy_socket_context
destroy-Kept c {r} v there unlinked = elim (Bool-cases (c == 0)) [
  | inl e ↦ (r, rw e refl, stay v)
  | inr e ↦ elim (phase-cases (r.phase c)) [
    | inl gone ↦ absurd (omega (arith, there (ground (arith, e)), ap live gone))
    | inr (inl (fd, events, k)) ↦ (
      record r { phase = put c (closing_at fd) r.phase; closed = c ∷ r.closed },
      rw (e, k) refl,
      close_phase-Kept c fd events v k unlinked,
    )
    | inr (inr (fd, k)) ↦ (r, rw (e, k) refl, stay v)
  ]
]
