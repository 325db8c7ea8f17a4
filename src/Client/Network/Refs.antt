-- ===== src/Client/Network/Refs.antt =====
-- Whether the patch is there while a sink needs it.
use code_bridge.Base.{
  ap, ◌∙◌, Bool-cases, inl, inr, ap, length-append, ◌∙◌, ℕ, zero, suc, ◌+◌, ◌-◌, ◌≤◌, ◌<◌, ◌≡◌,
  refl, true, false, Option, none, some, List, [], ◌∷◌, ◌++◌, arith, length, nat_eq, nat_eq_iff,
  any, All,
}
use code_bridge.Client.Network.{Patch, Network, unpatched, attach, detach, is_empty, others, left}

pub data Call : Type 0 where
  attaches : Call
  detaches : ℕ → Call

abbrev pub perform : Call → Network → Network
perform attaches net = attach net
perform (detaches s) net = detach s net

abbrev pub perform_all : List Call → Network → Network
perform_all [] net = net
perform_all (c ∷ cs) net = perform_all cs (perform c net)

-- The sinks that are attached, given the number of those made before.
abbrev pub attached : ℕ → List Call → List ℕ → List ℕ
attached made [] xs = xs
attached made (attaches ∷ cs) xs = attached (suc made) cs (xs ++ made ∷ [])
attached made (detaches s ∷ cs) xs = attached made cs (others s xs)

-- Every sink is detached only while it is attached.
abbrev pub Proper : ℕ → List Call → List ℕ → Type 0
Proper made [] xs = Unit
Proper made (attaches ∷ cs) xs = Proper (suc made) cs (xs ++ made ∷ [])
Proper made (detaches s ∷ cs) xs = (any (nat_eq s) xs ≡ true) × Proper made cs (others s xs)

-- What the global state is for given sinks.
abbrev pub patch_for : List ℕ → Option Patch
patch_for [] = none
patch_for (x ∷ xs) = some (record { count = length (x ∷ xs); sinks = x ∷ xs })

-- Sinks in the order in which they were made, all before the given number.
abbrev Rising : ℕ → List ℕ → Type 0
Rising from [] = Unit
Rising from (x ∷ xs) = (from ≤ x) × Rising (suc x) xs

abbrev Below : ℕ → List ℕ → Type 0
Below made = All (λ k. k < made)

Rising-weaker : (m n : ℕ) (xs : List ℕ) → m ≤ n → Rising n xs → Rising m xs
Rising-weaker m n [] p h = tt
Rising-weaker m n (x ∷ xs) p (q, h) = (omega arith, h)

Rising-others : (m s : ℕ) (xs : List ℕ) → Rising m xs → Rising m (others s xs)
Rising-others m s [] h = tt
Rising-others m s (x ∷ xs) (q, h) =
    ground (arith, Rising-others (suc x) s xs h, Rising-weaker m (suc x) (others s xs))

Rising-snoc : (m n : ℕ) (xs : List ℕ) → m ≤ n → Rising m xs → Below n xs → Rising m (xs ++ n ∷ [])
Rising-snoc m n [] p h b = (p, tt)
Rising-snoc m n (x ∷ xs) p (q, h) (r, b) = (q, Rising-snoc (suc x) n xs r h b)

Below-snoc : (n : ℕ) (xs : List ℕ) → Below n xs → Below (suc n) (xs ++ n ∷ [])
Below-snoc n [] b = (omega arith, tt)
Below-snoc n (x ∷ xs) (p, b) = (omega arith, Below-snoc n xs b)

Below-others : (n s : ℕ) (xs : List ℕ) → Below n xs → Below n (others s xs)
Below-others n s [] b = tt
Below-others n s (x ∷ xs) (p, b) = ground (arith, Below-others n s xs b)

others_absent : (m s : ℕ) (xs : List ℕ) → Rising m xs → s < m → others s xs ≡ xs
others_absent m s [] h p = refl
others_absent m s (x ∷ xs) (q, h) p = ground (arith, nat_eq_iff x s, others_absent (suc x) s xs h)

length-others :
    (m s : ℕ) (xs : List ℕ)
    → Rising m xs
    → any (nat_eq s) xs ≡ true
    → length (others s xs) + 1 ≡ length xs
length-others m s [] h a = absurd (ground arith)
length-others m s (x ∷ xs) (q, h) a = ground (
  arith,
  nat_eq_iff x s,
  nat_eq_iff s x,
  length-others (suc x) s xs h,
  others_absent (suc x) s xs h,
)

left_patch : (ys : List ℕ) → left (record { count = length ys; sinks = ys }) ≡ patch_for ys
left_patch [] = refl
left_patch (y ∷ ys) = ground arith

attach-patch :
    (net : Network) (xs : List ℕ)
    → net.patch ≡ patch_for xs
    → (attach net).patch ≡ patch_for (xs ++ net.made ∷ [])
unfolding attach
attach-patch net [] h = ground arith
attach-patch net (x ∷ xs) h = ground (arith, length-append xs (net.made ∷ []))

attach-made : (net : Network) → (attach net).made ≡ suc net.made
unfolding attach
attach-made net = ground arith

detach-some :
    (s : ℕ) (net : Network) (p : Patch)
    → net.patch ≡ some p
    → (detach s net).patch ≡ left (record { count = p.count - 1; sinks = others s p.sinks })
unfolding detach
detach-some s net p h = ground arith

detach-patch :
    (s : ℕ) (net : Network) (xs : List ℕ)
    → net.patch ≡ patch_for xs
    → Rising 0 xs
    → any (nat_eq s) xs ≡ true
    → (detach s net).patch ≡ patch_for (others s xs)
unfolding detach
detach-patch s net [] h r a = absurd (ground arith)
detach-patch s net (x ∷ xs) h r a =
    detach-some s net _ h
    ∙ ap (λ c. left (record { count = c; sinks = others s (x ∷ xs) })) {x = length (x ∷ xs) - 1}
        {y = length (others s (x ∷ xs))} (omega (arith, length-others 0 s (x ∷ xs) r a))
    ∙ left_patch (others s (x ∷ xs))

detach-made : (s : ℕ) (net : Network) → (detach s net).made ≡ net.made
unfolding detach
detach-made s net = ground arith

follow :
    (cs : List Call) (net : Network) (made : ℕ) (xs : List ℕ)
    → net.made ≡ made
    → Rising 0 xs
    → Below made xs
    → net.patch ≡ patch_for xs
    → Proper made cs xs
    → (perform_all cs net).patch ≡ patch_for (attached made cs xs)
follow [] net made xs m r b h p = h
follow (attaches ∷ cs) net made xs m r b h p =
    follow cs (attach net) (suc made) (xs ++ made ∷ []) (attach-made net ∙ ap suc m)
      (Rising-snoc 0 made xs (omega arith) r b) (Below-snoc made xs b)
      (attach-patch net xs h ∙ ap (λ k. patch_for (xs ++ k ∷ [])) m) p
follow (detaches s ∷ cs) net made xs m r b h (a, p) =
    follow cs (detach s net) made (others s xs) (detach-made s net ∙ m) (Rising-others 0 s xs r)
      (Below-others made s xs b) (detach-patch s net xs h r a) p

-- While every sink is detached only when it is attached, the shared state is there exactly while
-- some sink is attached; it then holds the attached sinks in the order of their attachment, and
-- its count is their number.
pub patch_follows_sinks :
    (cs : List Call)
    → Proper 0 cs []
    → (perform_all cs unpatched).patch ≡ patch_for (attached 0 cs [])
patch_follows_sinks cs p = follow cs unpatched 0 [] refl tt tt refl p

abbrev pub repeated : ℕ → Call → List Call
repeated zero c = []
repeated (suc k) c = c ∷ repeated k c

others_same : (s : ℕ) (xs : List ℕ) → any (nat_eq s) xs ≡ false → others s xs ≡ xs
others_same s [] h = refl
others_same s (x ∷ xs) h = ground (arith, nat_eq_iff x s, nat_eq_iff s x, others_same s xs)

detach-none : (s : ℕ) (net : Network) → net.patch ≡ none → (detach s net).patch ≡ none
unfolding detach
detach-none s net h = ground arith

unpatched_stays :
    (s k : ℕ) (net : Network)
    → net.patch ≡ none
    → (perform_all (repeated k (detaches s)) net).patch ≡ none
unpatched_stays s zero net h = h
unpatched_stays s (suc k) net h = unpatched_stays s k (detach s net) (detach-none s net h)

-- Detaching a sink that is not attached counts all the same: as many such calls as the state
-- counts remove the patch, whatever sinks are still attached.
pub stale_detaches :
    (s k : ℕ) (net : Network) (p : Patch)
    → net.patch ≡ some p
    → p.count ≡ suc k
    → any (nat_eq s) p.sinks ≡ false
    → (perform_all (repeated (suc k) (detaches s)) net).patch ≡ none
stale_detaches s zero net p h c a = detach-some s net p h ∙ ground (arith, c)
stale_detaches s (suc k) net p h c a =
    let one = detach-some s net p h in
    let p' : Patch = record { count = p.count - 1; sinks = others s p.sinks } in
    let same = others_same s p.sinks a in
    elim (Bool-cases (is_empty (others s p.sinks))) [
      | inl e ↦ unpatched_stays s (suc k) (detach s net) (one ∙ ground (arith, e))
      | inr e ↦
          stale_detaches s k (detach s net) p' (one ∙ ground (arith, e, c)) (omega (arith, c))
            (ap (any (nat_eq s)) same ∙ a)
    ]
