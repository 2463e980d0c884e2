-- ===== src/Worker/Queue/Chain.antt =====
-- Segments of the doubly linked chain of a worker's queue, read from the last entry to the first, and
-- how they bear assignments to single links.
use nvme_virt.Prelude.{
  ℕ, ◌≡◌, ◌≢◌, refl, sym, ap, ◌∙◌, subst, List, [], ◌∷◌, ◌++◌, Option, some, get_elem?, set,
  get_elem?-set_self, get_elem?-set_ne, get_elem?_bound, arith, Bool-cases, ==_iff, ◌==◌, inl, inr,
  none,
}
use nvme_virt.Worker.State.{Work, set_next, set_prev}

abbrev pub All {ℓ} : (ℕ → Type ℓ) → List ℕ → Type ℓ
All P [] = Unit
All P (x ∷ xs) = P x × All P xs

abbrev pub Distinct : List ℕ → Type 0
Distinct [] = Unit
Distinct (x ∷ xs) = All (λ y. x ≢ y) xs × Distinct xs

-- the first entry, or what stands behind an empty segment
abbrev pub head_or : ℕ → List ℕ → ℕ
head_or d [] = d
head_or d (x ∷ xs) = x

abbrev pub last_or : ℕ → List ℕ → ℕ
last_or d [] = d
last_or d (x ∷ xs) = last_or x xs

-- The entries `xs`, each the `prev` of the one before: the first has the `next` `n`, and the last the
-- `prev` `p`.
abbrev pub Seg : List Work → ℕ → List ℕ → ℕ → Type 0
Seg wq n [] p = Unit
Seg wq n (x ∷ xs) p =
    ((w : Work) × (get_elem? wq x ≡ some w) × (w.next ≡ n) × (w.prev ≡ head_or p xs))
    × Seg wq x xs p

pub All-append {ℓ} : (P : ℕ → Type ℓ) (us vs : List ℕ) → All P (us ++ vs) → All P us × All P vs
All-append P [] vs h = (tt, h)
All-append P (a ∷ us) vs h = let r = All-append P us vs h.1 in ((h.0, r.0), r.1)

pub All-join {ℓ} : (P : ℕ → Type ℓ) (us vs : List ℕ) → All P us → All P vs → All P (us ++ vs)
All-join P [] vs h k = k
All-join P (a ∷ us) vs h k = (h.0, All-join P us vs h.1 k)

pub All-last {ℓ} : (P : ℕ → Type ℓ) (d : ℕ) (us : List ℕ) → P d → All P us → P (last_or d us)
All-last P d [] h k = h
All-last P d (a ∷ us) h k = All-last P a us k.0 k.1

-- the parts of a list without repetitions have nothing in common
pub Distinct-append :
    (us vs : List ℕ)
    → Distinct (us ++ vs)
    → Distinct us × Distinct vs × All (λ b. All (λ a. a ≢ b) us) vs
Distinct-append [] vs h = (tt, h, none_before vs)
  where
    none_before : (vs : List ℕ) → All (λ b. Unit {0}) vs
    none_before [] = tt
    none_before (b ∷ vs) = (tt, none_before vs)
Distinct-append (a ∷ us) vs h =
    let (d, e, apart) = Distinct-append us vs h.1 in
    let (in_as, in_bs) = All-append (λ y. a ≢ y) us vs h.0 in ((in_as, d), e, both vs in_bs apart)
  where
    both :
        (vs : List ℕ)
        → All (λ y. a ≢ y) vs
        → All (λ b. All (λ x. x ≢ b) us) vs
        → All (λ b. All (λ x. x ≢ b) (a ∷ us)) vs
    both [] h k = tt
    both (b ∷ vs) h k = ((h.0, k.0), both vs h.1 k.1)

pub Seg-append :
    (wq : List Work) (n p : ℕ) (us vs : List ℕ)
    → Seg wq n (us ++ vs) p
    → Seg wq n us (head_or p vs) × Seg wq (last_or n us) vs p
Seg-append wq n p [] vs s = (tt, s)
Seg-append wq n p (a ∷ us) vs ((w, at, e, f), s) =
    let (l, r) = Seg-append wq a p us vs s in (((w, at, e, f ∙ head-append us vs), l), r)
  where
    head-append : (us vs : List ℕ) → head_or p (us ++ vs) ≡ head_or (head_or p vs) us
    head-append [] vs = refl
    head-append (a ∷ us) vs = refl

pub Seg-join :
    (wq : List Work) (n p : ℕ) (us vs : List ℕ)
    → Seg wq n us (head_or p vs)
    → Seg wq (last_or n us) vs p
    → Seg wq n (us ++ vs) p
Seg-join wq n p [] vs s r = r
Seg-join wq n p (a ∷ us) vs ((w, at, e, f), s) r =
    ((w, at, e, f ∙ sym (head-append us vs)), Seg-join wq a p us vs s r)
  where
    head-append : (us vs : List ℕ) → head_or p (us ++ vs) ≡ head_or (head_or p vs) us
    head-append [] vs = refl
    head-append (a ∷ us) vs = refl

-- an assignment to another entry
pub Seg-frame :
    (wq : List Work) (n p i : ℕ) (v : Work) (xs : List ℕ)
    → All (λ x. x ≢ i) xs
    → Seg wq n xs p
    → Seg (set wq i v) n xs p
Seg-frame wq n p i v [] h s = tt
Seg-frame wq n p i v (x ∷ xs) h ((w, at, e, f), s) =
    ((w, get_elem?-set_ne wq i x v (λ q. h.0 (sym q)) ∙ at, e, f), Seg-frame wq x p i v xs h.1 s)

abbrev pub target_in : Option Work → ℕ
target_in none = 0
target_in (some w) = w.nsecs_target

abbrev pub target_of : List Work → ℕ → ℕ
target_of wq i = target_in (get_elem? wq i)

target_of-set :
    (wq : List Work) (i j : ℕ) (w v : Work)
    → get_elem? wq i ≡ some w
    → v.nsecs_target ≡ w.nsecs_target
    → target_of (set wq i v) j ≡ target_of wq j
target_of-set wq i j w v at e = elim (Bool-cases (j == i)) [
  | inl q ↦ rw ((==_iff j i).0 q, get_elem?-set_self wq i v (get_elem?_bound wq i at), at) e
  | inr q ↦ rw (get_elem?-set_ne wq i j v (ground (arith, q))) refl
]

-- `wq'` is `wq` with one entry assigned, and all times as before.
abbrev pub Assigned : List Work → ℕ → List Work → Type 0
Assigned wq i wq' = ((v : Work) × (wq' ≡ set wq i v)) × ((j : ℕ) → target_of wq' j ≡ target_of wq j)

pub Seg-Assigned :
    (wq : List Work) {wq' : List Work} (n p i : ℕ) (xs : List ℕ)
    → Assigned wq i wq'
    → All (λ x. x ≢ i) xs
    → Seg wq n xs p
    → Seg wq' n xs p
Seg-Assigned wq n p i xs ((v, is), t) h s =
    subst (λ q. Seg q n xs p) (sym is) (Seg-frame wq n p i v xs h s)

-- an assignment to the `next` of the first entry
pub Seg-set_next :
    (wq : List Work) (n n' p x : ℕ) (xs : List ℕ)
    → Distinct (x ∷ xs)
    → Seg wq n (x ∷ xs) p
    → (wq' : List Work) × (set_next wq x n' ≡ some wq') × Seg wq' n' (x ∷ xs) p × Assigned wq x wq'
unfolding set_next
Seg-set_next wq n n' p x xs d ((w, at, e, f), s) =
    let w' = record w { next = n' } in
    (
      set wq x w',
      rw at refl,
      (
        (w', get_elem?-set_self wq x w' (get_elem?_bound wq x at), refl, f),
        Seg-frame wq x p x w' xs (flip xs d.0) s,
      ),
      ((w', refl), λ j. target_of-set wq x j w w' at refl),
    )
  where
    flip : (xs : List ℕ) → All (λ y. x ≢ y) xs → All (λ y. y ≢ x) xs
    flip [] h = tt
    flip (y ∷ xs) h = ((λ q. h.0 (sym q)), flip xs h.1)

-- an assignment to the `prev` of the last entry
pub Seg-set_prev :
    (wq : List Work) (n p p' x : ℕ) (xs : List ℕ)
    → Distinct (x ∷ xs)
    → Seg wq n (x ∷ xs) p
    → (wq' : List Work) × (set_prev wq (last_or x xs) p' ≡ some wq')
      × Seg wq' n (x ∷ xs) p'
      × Assigned wq (last_or x xs) wq'
unfolding set_prev
Seg-set_prev wq n p p' x [] d ((w, at, e, f), s) =
    let w' = record w { prev = p' } in
    (
      set wq x w',
      rw at refl,
      ((w', get_elem?-set_self wq x w' (get_elem?_bound wq x at), e, refl), tt),
      ((w', refl), λ j. target_of-set wq x j w w' at refl),
    )
Seg-set_prev wq n p p' x (y ∷ ys) d ((w, at, e, f), s) =
    let (wq', ran, seg, ((v, is), t)) = Seg-set_prev wq x p p' y ys d.1 s in
    let apart : x ≢ last_or y ys = All-last (λ z. x ≢ z) y ys d.0.0 d.0.1 in
    (
      wq',
      ran,
      (
        (
          w,
          ap (λ q. get_elem? q x) is
              ∙ get_elem?-set_ne wq (last_or y ys) x v (λ q. apart (sym q))
              ∙ at,
          e,
          f,
        ),
        seg,
      ),
      ((v, is), t),
    )
