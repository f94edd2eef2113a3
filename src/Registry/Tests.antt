-- ===== src/Registry/Tests.antt =====
-- The registry at concrete calls.

use hcurl.Prelude.{ℕ, ◌+◌, ◌≡◌, refl, true, false, List, [], ◌∷◌, none, some, arith}
use hcurl.Registry.{
  Transfer, init, find, find_chain, insert, remove, make_room, resize, link, unlink, take_out, home,
  hash_transfer_id,
}
use hcurl.Registry.Client.{Op, put, drop_id, look, accepted, found, run, replay, run-init_refines}

abbrev transfer : ℕ → ℕ → Transfer
transfer address id = record {
  address = address;
  id = id;
  easy = address + 1;
  result = address + 2;
  metrics = 0;
  download_stream = 0;
  upload_stream = 0;
  active = false;
}

abbrev ops : List Op
ops =
    put true (transfer 100 7)
    ∷ put true (transfer 200 7)
    ∷ put true (transfer 300 8)
    ∷ look 8
    ∷ drop_id 7
    ∷ look 7
    ∷ []

program : Unit {0}
unfolding init find find_chain insert remove make_room resize link unlink take_out home run
    hash_transfer_id
program = tt

test_run :
    (run ops (init true).1).0
    ≡ accepted true
      ∷ accepted false
      ∷ accepted true
      ∷ found (some (transfer 300 8))
      ∷ found (some (transfer 100 7))
      ∷ found none
      ∷ []
unfolding program
test_run = refl

run-init_refines_example :
    ((run ops (init true).1).0 ≡ (replay ops (λ _. none)).0)
    × (find (run ops (init true).1).1 8 ≡ (replay ops (λ _. none)).1 8)
run-init_refines_example = run-init_refines ops 8 (omega arith)
