-- ===== src/Reactor/Sockets.antt =====
-- cbits/curl_uv.c: what libcurl's calls of `curl_socket_function` do to the contexts.
use hcurl.Prelude.{
  ℕ, ◌+◌, ◌≤◌, ◌≡◌, ◌≢◌, refl, sym, ap, ◌∙◌, inl, inr, true, false, ◌∷◌, Option, some, arith, ◌==◌,
  ==_iff, Bool-cases, Option-cases,
}
use hcurl.Reactor.{absent, open_at, Reactor, put, SocketAnswers, new_socket_context, renew}
use hcurl.Reactor.Safety.{count, live, opened, Linked, IsSafe, Kept, stay, then_Kept, destroy-Kept}

-- `calloc` gives memory where no context is.
abbrev pub IsFresh : SocketAnswers → Reactor → Type 0
IsFresh answers r = (c : ℕ) → answers.context ≡ some c → (c ≢ 0) × (r.phase c ≡ absent)

module _ {r : Reactor} (v : IsSafe r) (c fd : ℕ) (present : c ≢ 0) (free : r.phase c ≡ absent) where
  pub unlinked : (f : ℕ) → r.assigned f ≡ c → c ≡ 0
  unlinked f e = elim (v.linked f) [ inl null ↦ sym e ∙ null | inr (events, k) ↦ cc (e, k, free) ]

  still_Linked : (f : ℕ) → Linked r.assigned (put c (open_at fd 0) r.phase) f
  still_Linked f = elim (v.linked f) [
    | inl null ↦ inl null
    | inr (events, k) ↦
        let other : (r.assigned f == c) ≡ false = elim (Bool-cases (r.assigned f == c)) [
          | inl e ↦ absurd (present (unlinked f ((==_iff (r.assigned f) c).0 e)))
          | inr e ↦ e
        ] in
        inr (events, rw other k)
  ]

  open_allocs :
      (d : ℕ) → count d (c ∷ r.allocated) ≡ count d r.freed + live (put c (open_at fd 0) r.phase d)
  open_allocs d = elim (Bool-cases (d == c)) [
    | inl k ↦
        let gone : r.phase d ≡ absent = ap r.phase ((==_iff d c).0 k) ∙ free in
        let self : (c == d) ≡ true = ground (arith, k) in
        rw (k, self) (omega (arith, v.allocs d, ap live gone))
    | inr k ↦
        let other : (c == d) ≡ false = ground (arith, k) in
        rw (k, other) (omega (arith, v.allocs d))
  ]

  open_closes :
      (d : ℕ)
      → count d r.closed + opened (put c (open_at fd 0) r.phase d) ≤ count d (c ∷ r.allocated)
  open_closes d = elim (Bool-cases (d == c)) [
    | inl k ↦
        let gone : r.phase d ≡ absent = ap r.phase ((==_iff d c).0 k) ∙ free in
        let self : (c == d) ≡ true = ground (arith, k) in
        rw (k, self) (omega (arith, v.closes d, ap opened gone))
    | inr k ↦
        let other : (c == d) ≡ false = ground (arith, k) in
        rw (k, other) (omega (arith, v.closes d))
  ]

  open_stays : (d : ℕ) → live (r.phase d) ≤ live (put c (open_at fd 0) r.phase d)
  open_stays d = elim (Bool-cases (d == c)) [
    | inl k ↦
        let gone : r.phase d ≡ absent = ap r.phase ((==_iff d c).0 k) ∙ free in
        rw k (omega (arith, ap live gone))
    | inr k ↦ rw k (omega arith)
  ]

  pub open-Kept :
      Kept r (record r { phase = put c (open_at fd 0) r.phase; allocated = c ∷ r.allocated })
  open-Kept = record {
    safe = record {
      agent = v.agent;
      linked = still_Linked;
      allocs = open_allocs;
      closes = open_closes;
    };
    stays = open_stays;
  }

  now_Linked : (f : ℕ) → Linked (put fd c r.assigned) (put c (open_at fd 0) r.phase) f
  now_Linked f = elim (Bool-cases (f == fd)) [
    | inl e ↦
        let self : (c == c) ≡ true = ground arith in
        let same : f ≡ fd = (==_iff f fd).0 e in
        rw e (inr (0, rw self (ap (λ k. open_at k 0) (sym same))))
    | inr e ↦ rw e (still_Linked f)
  ]

  pub assign-Kept : Kept r (record r {
    phase = put c (open_at fd 0) r.phase;
    assigned = put fd c r.assigned;
    allocated = c ∷ r.allocated;
  })
  assign-Kept = record {
    safe = record {
      agent = v.agent;
      linked = now_Linked;
      allocs = open_allocs;
      closes = open_closes;
    };
    stays = open_stays;
  }

-- A new context that libuv does not take is freed at once.
refuse-Kept :
    (c : ℕ) {r : Reactor}
    → IsSafe r
    → Kept r (record r { allocated = c ∷ r.allocated; freed = c ∷ r.freed })
refuse-Kept c v = record {
  safe = record {
    agent = v.agent;
    linked = v.linked;
    allocs = λ d. omega (arith, v.allocs d);
    closes = λ d. omega (arith, v.closes d);
  };
  stays = λ d. omega arith;
}

abbrev pub Renews : Reactor → Option (ℕ × Reactor) → Type 0
Renews r result = (k : ℕ × Reactor) × (result ≡ some k) × Kept r k.1

pub renew-Kept :
    (answers : SocketAnswers) (fd : ℕ) {r : Reactor}
    → IsSafe r
    → IsFresh answers r
    → Renews r (renew answers fd r)
unfolding renew new_socket_context
renew-Kept answers fd {r} v fresh = elim (Option-cases answers.context) [
  | inl e ↦ ((0, r), rw e refl, stay v)
  | inr (c, e) ↦
      let (present, free) = fresh c e in
      let not_null : (c == 0) ≡ false = ground (arith, present) in
      elim (Bool-cases answers.init_ok) [
        | inr left ↦ (
          (0, record r { allocated = c ∷ r.allocated; freed = c ∷ r.freed }),
          rw (e, left) refl,
          refuse-Kept c v,
        )
        | inl taken ↦ elim (Bool-cases answers.assign_ok) [
          | inl assigned ↦ (
            (
              c,
              record r {
                phase = put c (open_at fd 0) r.phase;
                assigned = put fd c r.assigned;
                allocated = c ∷ r.allocated;
              },
            ),
            rw (e, taken, not_null, assigned) refl,
            assign-Kept v c fd present free,
          )
          | inr refused ↦
              let h = open-Kept v c fd present free in
              let self : (c == c) ≡ true = ground arith in
              let (r', ran, k) =
                destroy-Kept c h.safe (λ n. rw self refl) (unlinked v c fd present free) in
              ((0, r'), rw (e, taken, ran, not_null, refused) refl, then_Kept h k)
        ]
      ]
]
