-- ===== src/Agent/Marks.antt =====
-- cbits/message_chan.c: a write to a registered transfer, which leaves its identifier.
use mathlib.Core.Option
use hcurl.Prelude.{
  ℕ, zero, suc, ◌≡◌, refl, ap, ◌∙◌, inl, inr, List, [], ◌∷◌, Option, arith, length, get_or, concat,
}
use hcurl.Registry.{Transfer, Registry, find_chain, home}
use hcurl.Registry.Chains.{weigh, has, total, weigh-append}
use hcurl.Agent.Loop.{map_chain, map_buckets}
use hcurl.Agent.Table.{Keeps}

module _ (mark : Transfer → Transfer) where
  pub length-map : (bs : List (List Transfer)) → length (map_buckets mark bs) ≡ length bs
  length-map [] = refl
  length-map (b ∷ bs) = omega (arith, length-map bs)

  weigh-map :
      (f : Transfer → ℕ) (c : List Transfer)
      → weigh f (map_chain mark c) ≡ weigh (λ t. f (mark t)) c
  weigh-map f [] = refl
  weigh-map f (t ∷ c) = omega (arith, weigh-map f c)

  total-map :
      (f : Transfer → ℕ) (bs : List (List Transfer))
      → total f (map_buckets mark bs) ≡ total (λ t. f (mark t)) bs
  total-map f [] = refl
  total-map f (b ∷ bs) = omega (
    arith,
    weigh-append f (map_chain mark b) (concat (map_buckets mark bs)),
    weigh-append (λ t. f (mark t)) b (concat bs),
    weigh-map f b,
    total-map f bs,
  )

  get_or-map :
      (bs : List (List Transfer)) (i : ℕ)
      → get_or (map_buckets mark bs) i [] ≡ map_chain mark (get_or bs i [])
  get_or-map [] i = refl
  get_or-map (b ∷ bs) zero = refl
  get_or-map (b ∷ bs) (suc i) = get_or-map bs i

  module _ (same_id : (t : Transfer) → (mark t).id ≡ t.id) where
    find_chain-map :
        (id : ℕ) (c : List Transfer)
        → find_chain id (map_chain mark c) ≡ Option.map mark (find_chain id c)
    unfolding find_chain
    find_chain-map id [] = refl
    find_chain-map id (t ∷ c) = ground (arith, same_id t, find_chain-map id c)

    has-map : (id : ℕ) (c : List Transfer) → weigh (has id) (map_chain mark c) ≡ weigh (has id) c
    has-map id [] = refl
    has-map id (t ∷ c) = ground (arith, same_id t, has-map id c)

    pub mark-Keeps :
        {g : ℕ → Option Transfer} {w : (Transfer → ℕ) → ℕ} {r : Registry}
        → Keeps g w r
        → Keeps
            (λ q. Option.map mark (g q))
            (λ f. w (λ t. f (mark t)))
            (record r { buckets = map_buckets mark r.buckets })
    mark-Keeps {g} {w} {r} (inl v) = inl (record {
      some_buckets = v.some_buckets;
      fits = v.fits;
      holds = record {
        width = length-map r.buckets ∙ v.holds.width;
        placed = λ q i.
            rw (get_or-map r.buckets i, has-map q (get_or r.buckets i [])) (v.holds.placed q i);
        reads = λ q.
            ap (find_chain q) (get_or-map r.buckets (home q r.bucket_count))
            ∙ find_chain-map q (get_or r.buckets (home q r.bucket_count) [])
            ∙ ap (λ o. Option.map mark o) (v.holds.reads q);
        weighs = λ f. total-map f r.buckets ∙ v.holds.weighs (λ t. f (mark t));
      };
      counted = v.counted;
    })
    mark-Keeps {g} {w} {r} (inr (e, empty, light)) = inr (
      ap {A = Registry} (λ s. record s { buckets = map_buckets mark s.buckets }) e,
      λ q. ap (λ o. Option.map mark o) (empty q),
      λ f. light (λ t. f (mark t)),
    )
