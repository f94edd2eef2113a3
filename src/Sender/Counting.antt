-- ===== src/Sender/Counting.antt =====
-- cbits/message_chan.c: the reference count of a sender.
use mathlib.Core.Path.{subst}
use hcurl.Prelude.{
  ℕ, ◌+◌, ◌-◌, ◌^◌, ◌<◌, ◌≤◌, ◌≡◌, refl, sym, ap, ◌∙◌, Bool, true, false, Option, none, some, arith,
  ◌==◌, if◌then◌else◌, if-elim, true-ne-false,
}
use hcurl.Sender.{Sender, retain, release}
use hcurl.Sender.Interleaving.{System, Step, Reachable}
use hcurl.Sender.References.{
  acquire, by_closer, Shared, inner, set_inner, drop_reference, Uses, Shares, of_context,
}

abbrev freed_at : ℕ → ℕ
freed_at references = if references == 0 then 1 else 0

-- The count is that of the references; it is 0 just if the sender was freed, which happens once.
pub record IsCounted (s : Shared) : Type 0 where
  pub counts : s.sender.references ≡ s.clients + of_context s.context
  pub room : s.sender.references < 2 ^ 64
  pub freed : s.frees ≡ freed_at s.sender.references
  pub used : s.inside + s.signalling ≤ s.clients
  pub protocol : Reachable (inner s)

-- What a successful retain does.
retain-true :
    (s : Sender)
    → s.references < 2 ^ 64
    → (retain s).0 ≡ true
    → (0 < s.references)
      × (s.references + 1 < 2 ^ 64)
      × ((retain s).1.references ≡ s.references + 1)
      × ((retain s).1.state ≡ s.state)
      × ((retain s).1.attached ≡ s.attached)
unfolding retain
retain-true s small e = ground arith

acquire-some :
    (s sender : Sender)
    → acquire (some s) ≡ some sender
    → ((retain s).0 ≡ true) × ((retain s).1 ≡ sender)
unfolding acquire
acquire-some s sender =
    if-elim
      (λ (r : Option Sender). r ≡ some sender → ((retain s).0 ≡ true) × ((retain s).1 ≡ sender))
      (retain s).0 (λ c e. (c, some_injective e)) (λ c e. none-ne-some e)
  where
    some_injective : {u v : Sender} → some u ≡ some v → u ≡ v
    some_injective e = ground (arith, e)

    none-ne-some : {P : Type 0} {v : Sender} → none ≡ some v → P
    none-ne-some e = cc

one_more : (n : ℕ) → 0 < n → freed_at n ≡ freed_at (n + 1)
one_more n h = ground arith

same_inner :
    (s : Shared) (r : Sender)
    → r.state ≡ s.sender.state
    → r.attached ≡ s.sender.attached
    → inner (record s { sender = r }) ≡ inner s
same_inner s r state attached = rw (state, attached) refl

-- One reference more.
retain-IsCounted :
    {s : Shared}
    → IsCounted s
    → (retain s.sender).0 ≡ true
    → IsCounted (record s { sender = (retain s.sender).1; clients = s.clients + 1 })
retain-IsCounted {s} v e =
    let (some_left, room, counted, state, attached) = retain-true s.sender v.room e in
    record {
      counts = omega (arith, v.counts, counted);
      room = omega (arith, room, counted);
      freed = v.freed ∙ one_more s.sender.references some_left ∙ ap freed_at (sym counted);
      used = omega (arith, v.used);
      protocol = subst Reachable (sym (same_inner s (retain s.sender).1 state attached)) v.protocol;
    }

release_lem :
    (s : Sender)
    → 0 < s.references
    → s.references < 2 ^ 64
    → ((release s).1.references ≡ s.references - 1)
      × (freed_at s.references + (if (release s).0 then 1 else 0) ≡ freed_at (s.references - 1))
unfolding release
release_lem s some_left room = (omega arith, ground arith)

release_keeps :
    (s : Sender) → ((release s).1.state ≡ s.state) × ((release s).1.attached ≡ s.attached)
unfolding release
release_keeps s = (refl, refl)

-- One reference less.
drop-IsCounted :
    {s : Shared} (clients : ℕ) (context : Bool)
    → IsCounted s
    → s.clients + of_context s.context ≡ clients + of_context context + 1
    → s.inside + s.signalling ≤ clients
    → IsCounted (record (drop_reference s) { clients = clients; context = context })
drop-IsCounted {s} clients context v one_less used =
    let (counted, freed) = release_lem s.sender (omega (arith, v.counts)) v.room in
    let (state, attached) = release_keeps s.sender in
    record {
      counts = omega (arith, v.counts, counted);
      room = omega (arith, v.room, counted);
      freed =
          ap (λ n. n + (if (release s.sender).0 then 1 else 0)) v.freed
          ∙ freed
          ∙ ap freed_at (sym counted);
      used = used;
      protocol =
          subst Reachable (sym (same_inner s (release s.sender).1 state attached)) v.protocol;
    }

-- A step of the protocol.
within-IsCounted :
    {s : Shared} (t : System)
    → IsCounted s
    → Step (inner s) t
    → t.inside + t.signalling ≤ s.clients
    → IsCounted (set_inner t s)
within-IsCounted t v st used = record {
  counts = v.counts;
  room = v.room;
  freed = v.freed;
  used = used;
  protocol = Reachable.then v.protocol st;
}

-- The closing thread is no producer.
closer_keeps :
    {s t : System} (st : Step s t)
    → by_closer st ≡ true
    → t.inside + t.signalling ≡ s.inside + s.signalling
closer_keeps (Step.enters w e) own = true-ne-false (sym own)
closer_keeps (Step.leaves pos) own = true-ne-false (sym own)
closer_keeps (Step.signals pos free) own = true-ne-false (sym own)
closer_keeps (Step.marks e) own = refl
closer_keeps (Step.checks e p some_in) own = refl
closer_keeps (Step.sleeps e p) own = refl
closer_keeps (Step.wakes e p) own = refl
closer_keeps (Step.finishes e p none_in) own = refl

Uses-IsCounted : {s t : Shared} → IsCounted s → Uses s t → IsCounted t
Uses-IsCounted {s} v (Uses.acquires sender e granted) =
    let (ok, same) = acquire-some s.sender sender granted in
    subst (λ k. IsCounted (record s { sender = k; clients = s.clients + 1 })) same
      (retain-IsCounted v ok)
Uses-IsCounted v (Uses.retains client ok) = retain-IsCounted v ok
Uses-IsCounted {s} v (Uses.releases outside) =
    drop-IsCounted (s.clients - 1) s.context v (omega arith) (omega arith)
Uses-IsCounted v (Uses.produces t st same used) = within-IsCounted t v st used
Uses-IsCounted v (Uses.closes t st own e) =
    within-IsCounted t v st (omega (arith, v.used, closer_keeps st own))
Uses-IsCounted {s} v (Uses.destroys e done) =
    drop-IsCounted s.clients false v (omega (arith, ap of_context e)) v.used

Shares-IsCounted : {s : Shared} → Shares s → IsCounted s
Shares-IsCounted Shares.start = record {
  counts = refl;
  room = omega arith;
  freed = refl;
  used = omega arith;
  protocol = Reachable.start;
}
Shares-IsCounted (Shares.then r u) = Uses-IsCounted (Shares-IsCounted r) u

-- In every such interleaving the count is that of the references, a producer that is inside or has to
-- signal has one, and the sender was freed just if there is none left, once.
sender-freed :
    {s : Shared}
    → Shares s
    → let left = s.clients + of_context s.context in
      (s.sender.references ≡ left)
      × (s.inside + s.signalling ≤ s.clients)
      × (s.frees ≡ (if left == 0 then 1 else 0))
sender-freed {s} r =
    let v = Shares-IsCounted r in (v.counts, v.used, v.freed ∙ ap freed_at v.counts)

producing :
    {s t : System} {n : ℕ} (st : Step s t)
    → by_closer st ≡ false
    → t.inside + t.signalling ≤ n
    → s.inside + s.signalling ≤ n
    → 0 < n
producing (Step.enters w e) own used used_before = omega (arith, used)
producing (Step.leaves pos) own used used_before = omega (arith, pos, used_before)
producing (Step.signals pos free) own used used_before = omega (arith, pos, used_before)
producing (Step.marks e) own used used_before = true-ne-false own
producing (Step.checks e p some_in) own used used_before = true-ne-false own
producing (Step.sleeps e p) own used used_before = true-ne-false own
producing (Step.wakes e p) own used used_before = true-ne-false own
producing (Step.finishes e p none_in) own used used_before = true-ne-false own

needed :
    {s t : Shared}
    → s.inside + s.signalling ≤ s.clients
    → Uses s t
    → 0 < s.clients + of_context s.context
needed used (Uses.acquires sender e granted) = omega (arith, ap of_context e)
needed used (Uses.retains client ok) = omega arith
needed used (Uses.releases outside) = omega arith
needed used (Uses.produces t st own fits) = omega (arith, producing st own fits used)
needed used (Uses.closes t st own e) = omega (arith, ap of_context e)
needed used (Uses.destroys e done) = omega (arith, ap of_context e)

-- In every interleaving of acquires, retains and releases, of producers, of the close and of the end
-- of the context, no step meets a sender that was freed, and the step that gives up the last
-- reference frees it, once.
pub Uses-live :
    {s t : Shared}
    → Shares s
    → Uses s t
    → (s.frees ≡ 0) × (t.frees ≡ (if t.clients + of_context t.context == 0 then 1 else 0))
Uses-live {s} {t} r u =
    let v = Shares-IsCounted r in
    let left = needed v.used u in
    let (counts, used, freed) = sender-freed (Shares.then r u) in
    (ground (arith, v.freed, v.counts, left), freed)
