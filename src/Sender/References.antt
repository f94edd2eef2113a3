-- ===== src/Sender/References.antt =====
-- cbits/message_chan.c: who keeps a sender alive. The agent's context has the first reference; the
-- clients, which are threads and streams, have one each; and a client keeps its own for as long as it
-- is between the beginning of `message_sender_enter` and the end of `message_sender_leave`.
use hcurl.Prelude.{ℕ, ◌+◌, ◌-◌, ◌<◌, ◌≤◌, ◌≡◌, Bool, true, false, Option, none, some, if◌then◌else◌}
use hcurl.Sender.{Sender, create, retain, release}
use hcurl.Sender.Interleaving.{Phase, testing, Closer, System, Step}

-- `message_sender_acquire`, with the sender of the handle's context; `none` is a null handle or a null
-- context, and a null result.
unfoldable pub acquire : Option Sender → Option Sender
unfolding retain
acquire none = none
acquire (some s) = let (ok, s') = retain s in if ok then some s' else none

-- A sender with those that refer to it: whether the context is still allocated, how many references
-- the clients have, and how often the sender was freed.
pub record Shared : Type 0 where
  pub sender : Sender
  pub closer : Closer
  pub phase : Phase
  pub inside : ℕ
  pub signalling : ℕ
  pub context : Bool
  pub clients : ℕ
  pub frees : ℕ

-- What the threads that use the sender see of it.
abbrev pub inner : Shared → System
inner s = record {
  state = s.sender.state;
  attached = s.sender.attached;
  closer = s.closer;
  phase = s.phase;
  inside = s.inside;
  signalling = s.signalling;
}

abbrev pub set_inner : System → Shared → Shared
set_inner t s = record s {
  sender = record s.sender { state = t.state; attached = t.attached };
  closer = t.closer;
  phase = t.phase;
  inside = t.inside;
  signalling = t.signalling;
}

-- `message_sender_release`, which frees the sender at the last reference.
abbrev pub drop_reference : Shared → Shared
drop_reference s =
    let (last, sender) = release s.sender in
    record s { sender = sender; frees = s.frees + (if last then 1 else 0) }

-- A client's release.
abbrev pub release_client : Shared → Shared
release_client s = record (drop_reference s) { clients = s.clients - 1 }

-- `destroy_message_context` of a context that is not null.
abbrev pub destroy_message_context : Shared → Shared
destroy_message_context s = record (drop_reference s) { context = false }

-- As `init_async_check_messages` leaves it.
abbrev pub shared : Shared
shared = record {
  sender = record create { attached = true };
  closer = Closer.idle;
  phase = testing;
  inside = 0;
  signalling = 0;
  context = true;
  clients = 0;
  frees = 0;
}

-- Whether a step is one of the closing thread.
abbrev pub by_closer : {s t : System} → Step s t → Bool
by_closer (Step.enters w e) = false
by_closer (Step.leaves pos) = false
by_closer (Step.signals pos free) = false
by_closer (Step.marks e) = true
by_closer (Step.checks e p some_in) = true
by_closer (Step.sleeps e p) = true
by_closer (Step.wakes e p) = true
by_closer (Step.finishes e p none_in) = true

-- What threads do. A handle leads to the sender while there is a context; who uses the sender has a
-- reference; and the agent closes it before it frees the context.
pub data Uses (s : Shared) : Shared → Type 0 where
  acquires :
      (sender : Sender)
      → s.context ≡ true
      → acquire (some s.sender) ≡ some sender
      → Uses s (record s { sender = sender; clients = s.clients + 1 })
  retains :
      0 < s.clients
      → (retain s.sender).0 ≡ true
      → Uses s (record s { sender = (retain s.sender).1; clients = s.clients + 1 })
  releases : s.inside + s.signalling < s.clients → Uses s (release_client s)
  produces :
      (t : System) (st : Step (inner s) t)
      → by_closer st ≡ false
      → t.inside + t.signalling ≤ s.clients
      → Uses s (set_inner t s)
  closes :
      (t : System) (st : Step (inner s) t)
      → by_closer st ≡ true
      → s.context ≡ true
      → Uses s (set_inner t s)
  destroys : s.context ≡ true → s.closer ≡ Closer.done → Uses s (destroy_message_context s)

pub data Shares : Shared → Type 0 where
  start : Shares shared
  then : {s t : Shared} → Shares s → Uses s t → Shares t

abbrev pub of_context : Bool → ℕ
of_context true = 1
of_context false = 0
