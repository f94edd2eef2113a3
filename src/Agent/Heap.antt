-- ===== src/Agent/Heap.antt =====
-- cbits/message_chan.c: the transfers that the registry holds, as blocks of memory.
use hcurl.Prelude.{
  ℕ, zero, suc, ◌≤◌, ◌≡◌, refl, ap, ◌∙◌, inl, inr, true, false, List, [], ◌∷◌, ◌++◌, some, arith,
  ◌==◌, if◌then◌else◌, Bool-cases, get_or, concat,
}
use hcurl.Registry.{Transfer, find_chain}
use hcurl.Registry.Chains.{weigh, total, weigh-append, bucket-le-total}
use hcurl.Agent.{at_address}

-- 1 at the transfers at an address.
abbrev pub lies_at : ℕ → Transfer → ℕ
lies_at p t = if t.address == p then 1 else 0

-- What is found weighs no more than its chain.
pub find_chain-le :
    (f : Transfer → ℕ) (id : ℕ) (chain : List Transfer) {t : Transfer}
    → find_chain id chain ≡ some t
    → f t ≤ weigh f chain
unfolding find_chain
find_chain-le f id [] h = cc
find_chain-le f id (u ∷ chain) {t} h = elim (Bool-cases (u.id == id)) [
  | inl e ↦ let same : u ≡ t = ground (arith, e, h) in omega (arith, ap f same)
  | inr e ↦ omega (arith, find_chain-le f id chain {t = t} (ground (arith, e, h)))
]

pub at_address-append :
    (p : ℕ) (a b : List Transfer) → weigh (lies_at p) a ≡ 0 → at_address p (a ++ b) ≡ at_address p b
unfolding at_address
at_address-append p [] b h = refl
at_address-append p (t ∷ a) b h = ground (arith, at_address-append p a b)

at_address-first :
    (p : ℕ) (a b : List Transfer) {t : Transfer}
    → at_address p a ≡ some t
    → at_address p (a ++ b) ≡ some t
unfolding at_address
at_address-first p [] b h = cc
at_address-first p (u ∷ a) b {t} h = ground (arith, at_address-first p a b {t = t})

at_address-chain :
    (id : ℕ) (chain : List Transfer) {t : Transfer}
    → find_chain id chain ≡ some t
    → weigh (lies_at t.address) chain ≤ 1
    → at_address t.address chain ≡ some t
unfolding at_address find_chain
at_address-chain id [] h once = cc
at_address-chain id (u ∷ chain) {t} h once = elim (Bool-cases (u.id == id)) [
  | inl e ↦
      let same : u ≡ t = ground (arith, e, h) in
      let here : (u.address == t.address) ≡ true = ground (arith, ap (λ k. k.address) same) in
      rw here (ap some same)
  | inr e ↦
      let later : find_chain id chain ≡ some t = ground (arith, e, h) in
      let weight = find_chain-le (lies_at t.address) id chain later in
      let own : lies_at t.address t ≡ 1 = ground arith in
      let elsewhere : (u.address == t.address) ≡ false = ground arith in
      rw elsewhere (at_address-chain id chain later (ground arith))
]

-- A transfer that is found in its bucket lies at its address, if no two lie there.
pub at_address-bucket :
    (id i : ℕ) (bs : List (List Transfer)) {t : Transfer}
    → find_chain id (get_or bs i []) ≡ some t
    → total (lies_at t.address) bs ≤ 1
    → at_address t.address (concat bs) ≡ some t
unfolding find_chain
at_address-bucket id i [] h once = cc
at_address-bucket id zero (b ∷ bs) {t} h once =
    at_address-first t.address b (concat bs) (
      at_address-chain id b h (omega (arith, once, weigh-append (lies_at t.address) b (concat bs))))
at_address-bucket id (suc i) (b ∷ bs) {t} h once =
    let rest = rest-le id i bs (lies_at t.address) h in
    let own : lies_at t.address t ≡ 1 = ground arith in
    let sum = weigh-append (lies_at t.address) b (concat bs) in
    at_address-append t.address b (concat bs) (omega arith)
    ∙ at_address-bucket id i bs h (omega arith)
  where
    rest-le :
        (id i : ℕ) (bs : List (List Transfer)) (f : Transfer → ℕ) {t : Transfer}
        → find_chain id (get_or bs i []) ≡ some t
        → f t ≤ total f bs
    rest-le id i bs f h =
        omega (arith, find_chain-le f id (get_or bs i []) h, bucket-le-total f bs i)
