-- ===== src/Agent/Chunks.antt =====
-- cbits/message_chan.c: the calls that the agent makes come in whole groups, each the end of one
-- transfer or a call that concerns none.
use hcurl.Prelude.{ℕ, List, [], ◌∷◌, ◌++◌}
use hcurl.Sender.{Payload}
use hcurl.Registry.{Transfer}
use hcurl.Agent.{Effect, free_transfer, stop_loop, finish_effects}
use hcurl.Agent.Loop.{fail_effects}

-- One group.
pub data Whole : List Effect → Type 0 where
  finished : (t : Transfer) (code : ℕ) → Whole (finish_effects t code)
  failed : (p : Payload) (code : ℕ) → Whole (fail_effects p code)
  freed : (address : ℕ) → Whole (free_transfer address ∷ [])
  stopped : Whole (stop_loop ∷ [])

pub data Chunks : List Effect → Type 0 where
  none_yet : Chunks []
  more : {log effects : List Effect} → Chunks log → Whole effects → Chunks (log ++ effects)
