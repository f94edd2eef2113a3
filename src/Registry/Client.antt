-- ===== src/Registry/Client.antt =====
-- What the agent can observe of its registry over any sequence of calls.
use hcurl.Prelude.{
  ℕ, ◌+◌, ◌≤◌, ◌≡◌, refl, sym, ap, ◌∙◌, inl, inr, Bool, true, List, [], ◌∷◌, Option, none, some,
  arith, if◌then◌else◌, is_none, length, size_max,
}
use hcurl.Registry.{Transfer, Registry, init, find, insert, remove}
use hcurl.Registry.Buckets.{update}
use hcurl.Registry.Map.{Refines, init-Refines, find_lem, insert_lem, remove_lem}

-- A call; `insert` may find no memory for its resizing.
pub data Op : Type 0 where
  put : Bool → Transfer → Op
  drop_id : ℕ → Op
  look : ℕ → Op

pub data Answer : Type 0 where
  accepted : Bool → Answer
  found : Option Transfer → Answer

unfoldable pub run : List Op → Registry → List Answer × Registry
run [] r = ([], r)
run (put calloc_ok t ∷ ops) r =
    let (ok, r') = insert calloc_ok r t in
    let (answers, end) = run ops r' in (accepted ok ∷ answers, end)
run (drop_id id ∷ ops) r =
    let (t, r') = remove r id in let (answers, end) = run ops r' in (found t ∷ answers, end)
run (look id ∷ ops) r = let (answers, end) = run ops r in (found (find r id) ∷ answers, end)

-- The same calls, on a function.
pub replay : List Op → (ℕ → Option Transfer) → List Answer × (ℕ → Option Transfer)
replay [] g = ([], g)
replay (put calloc_ok t ∷ ops) g =
    let g' = if is_none (g t.id) then update g t.id (some t) else g in
    let (answers, end) = replay ops g' in (accepted (is_none (g t.id)) ∷ answers, end)
replay (drop_id id ∷ ops) g =
    let (answers, end) = replay ops (update g id none) in (found (g id) ∷ answers, end)
replay (look id ∷ ops) g = let (answers, end) = replay ops g in (found (g id) ∷ answers, end)

Refines-congr :
    {g g' : ℕ → Option Transfer} {w : (Transfer → ℕ) → ℕ} {r : Registry}
    → ((q : ℕ) → g q ≡ g' q)
    → Refines g w r
    → Refines g' w r
Refines-congr e v = record {
  some_buckets = v.some_buckets;
  fits = v.fits;
  holds = record {
    width = v.holds.width;
    placed = v.holds.placed;
    reads = λ q. v.holds.reads q ∙ e q;
    weighs = v.holds.weighs;
  };
  counted = v.counted;
}

without : (g : ℕ → Option Transfer) (id q : ℕ) → g id ≡ none → g q ≡ update g id none q
without g id q e = ground (arith, same_id g id q)
  where
    same_id : (g : ℕ → Option Transfer) (id q : ℕ) → q ≡ id → g q ≡ g id
    same_id g id q e = ap g e

-- The answers are the map's, and so is what is found at the end.
pub record Agrees (ops : List Op) (g : ℕ → Option Transfer) (r : Registry) : Type 0 where
  pub answers : (run ops r).0 ≡ (replay ops g).0
  pub weight : (Transfer → ℕ) → ℕ
  pub refines : Refines (replay ops g).1 weight (run ops r).1

pub run-Agrees :
    (ops : List Op) {g : ℕ → Option Transfer} {w : (Transfer → ℕ) → ℕ} {r : Registry}
    → Refines g w r
    → w (λ t. 1) + length ops ≤ size_max
    → Agrees ops g r
unfolding run replay
run-Agrees [] {w} v small = record { answers = refl; weight = w; refines = v }
run-Agrees (look id ∷ ops) v small =
    let later = run-Agrees ops v (omega arith) in
    record {
      answers = rw (find_lem id v, later.answers) refl;
      weight = later.weight;
      refines = later.refines;
    }
run-Agrees (put calloc_ok t ∷ ops) {g} {w} {r} v small =
    elim (insert_lem calloc_ok t v (omega arith)) [
      | inl (taken, ran) ↦
          let later = run-Agrees ops v (omega arith) in
          record {
            answers = rw (ran, taken, later.answers) refl;
            weight = later.weight;
            refines = rw (ran, taken) later.refines;
          }
      | inr (free, r', ran, v') ↦
          let later = run-Agrees ops v' (omega arith) in
          let fresh : is_none (g t.id) ≡ true = ap is_none free in
          record {
            answers = rw (ran, fresh, later.answers) refl;
            weight = later.weight;
            refines = rw (ran, fresh) later.refines;
          }
    ]
run-Agrees (drop_id id ∷ ops) {g} {w} {r} v small = elim (remove_lem id v) [
  | inl (absent, ran) ↦
      let later = run-Agrees ops (Refines-congr (λ q. without g id q absent) v) (omega arith) in
      record {
        answers =
            rw (ran, later.answers)
              (ap (λ o. found o ∷ (replay ops (update g id none)).0) (sym absent));
        weight = later.weight;
        refines = rw ran later.refines;
      }
  | inr (t, r', there, ran, v') ↦
      let later = run-Agrees ops v' (omega arith) in
      record {
        answers =
            rw (ran, later.answers)
              (ap (λ o. found o ∷ (replay ops (update g id none)).0) (sym there));
        weight = later.weight;
        refines = rw ran later.refines;
      }
]

-- A registry that `registry_init` made answers any sequence of `registry_insert`, `registry_remove`
-- and `registry_find`, of no more than `SIZE_MAX` calls, as the finite map that is empty at first; at the
-- end it finds what the map holds.
pub run-init_refines :
    (ops : List Op) (id : ℕ)
    → length ops ≤ size_max
    → ((run ops (init true).1).0 ≡ (replay ops (λ _. none)).0)
      × (find (run ops (init true).1).1 id ≡ (replay ops (λ _. none)).1 id)
run-init_refines ops id small =
    let a = run-Agrees ops init-Refines (omega arith) in (a.answers, find_lem id a.refines)
