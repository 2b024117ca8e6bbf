-- ===== src/Shared/Lists.antt =====
-- Lists measured and indexed by native numbers, membership and distinctness by recursion.
use Prim.Native.Nat.{ℕ, zero, suc, ◌+◌, ◌-◌, ◌≤◌, min}
use mathlib.Core.Path.{◌≡◌, refl, sym, ap, ◌∙◌, subst}
use mathlib.Core.Bool.{Bool, true, false}
use mathlib.Core.Logic.{◌≢◌, ◌⊎◌, inl, inr}
use mathlib.Core.List.{List, [], ◌∷◌, ◌++◌}
use mathlib.Core.Option.{Option, none, some}
use native.Mathlib.Omega.{arith}
use native.Mathlib.Decide.{ℕ_discrete}
use r_llm.Shared.Tests.{◌==◌, if◌then◌else◌}

module _ {ℓ} {A : Type ℓ} where
  abbrev pub length : List A → ℕ
  length [] = 0
  length (x ∷ xs) = suc (length xs)

  abbrev pub get_elem? : List A → ℕ → Option A
  get_elem? [] i = none
  get_elem? (x ∷ xs) zero = some x
  get_elem? (x ∷ xs) (suc i) = get_elem? xs i

  abbrev pub take : ℕ → List A → List A
  take zero xs = []
  take (suc n) [] = []
  take (suc n) (x ∷ xs) = x ∷ take n xs

  abbrev pub drop : ℕ → List A → List A
  drop zero xs = xs
  drop (suc n) [] = []
  drop (suc n) (x ∷ xs) = drop n xs

  abbrev pub All {κ} : (A → Type κ) → List A → Type κ
  All P [] = Unit
  All P (x ∷ xs) = P x × All P xs

  abbrev pub is_empty : List A → Bool
  is_empty [] = true
  is_empty (x ∷ xs) = false

  pub length-append : (xs ys : List A) → length (xs ++ ys) ≡ length xs + length ys
  length-append [] ys = omega arith
  length-append (x ∷ xs) ys = omega (arith, length-append xs ys)

  pub length-take : (n : ℕ) (xs : List A) → length (take n xs) ≡ min n (length xs)
  length-take zero xs = omega arith
  length-take (suc n) [] = omega arith
  length-take (suc n) (x ∷ xs) = omega (arith, length-take n xs)

  pub length-drop : (n : ℕ) (xs : List A) → length (drop n xs) ≡ length xs - n
  length-drop zero xs = omega arith
  length-drop (suc n) [] = omega arith
  length-drop (suc n) (x ∷ xs) = omega (arith, length-drop n xs)

  pub take-append-drop : (n : ℕ) (xs : List A) → take n xs ++ drop n xs ≡ xs
  take-append-drop zero xs = refl
  take-append-drop (suc n) [] = refl
  take-append-drop (suc n) (x ∷ xs) = rw (take-append-drop n xs)

-- Membership and distinctness of numbers, by recursion.
abbrev pub In : ℕ → List ℕ → Type 0
In a [] = ⊥
In a (x ∷ xs) = (a ≡ x) ⊎ In a xs

abbrev pub NotIn : ℕ → List ℕ → Type 0
NotIn a [] = Unit {0}
NotIn a (x ∷ xs) = (a ≢ x) × NotIn a xs

abbrev pub Distinct : List ℕ → Type 0
Distinct [] = Unit {0}
Distinct (x ∷ xs) = NotIn x xs × Distinct xs

-- `retain(|x| *x != a)`, and `contains`.
unfoldable pub without : ℕ → List ℕ → List ℕ
without a [] = []
without a (x ∷ xs) = let rest = without a xs in if x == a then rest else x ∷ rest

pub In-append_left : (a : ℕ) (xs ys : List ℕ) → In a xs → In a (xs ++ ys)
In-append_left a [] ys h = absurd h
In-append_left a (x ∷ xs) ys (inl e) = inl e
In-append_left a (x ∷ xs) ys (inr h) = inr (In-append_left a xs ys h)

pub In-append_right : (a : ℕ) (xs ys : List ℕ) → In a ys → In a (xs ++ ys)
In-append_right a [] ys h = h
In-append_right a (x ∷ xs) ys h = inr (In-append_right a xs ys h)

-- A member of `xs ++ ys` is a member of one of them.
pub In-append : (a : ℕ) (xs ys : List ℕ) → In a (xs ++ ys) → In a xs ⊎ In a ys
In-append a [] ys h = inr h
In-append a (x ∷ xs) ys (inl e) = inl (inl e)
In-append a (x ∷ xs) ys (inr h) = elim (In-append a xs ys h) [ inl k ↦ inl (inr k) | inr k ↦ inr k ]

pub NotIn-append : (a : ℕ) (xs ys : List ℕ) → NotIn a (xs ++ ys) → NotIn a xs × NotIn a ys
NotIn-append a [] ys h = (tt, h)
NotIn-append a (x ∷ xs) ys (n, h) = let (l, r) = NotIn-append a xs ys h in ((n, l), r)

pub append-NotIn : (a : ℕ) (xs ys : List ℕ) → NotIn a xs → NotIn a ys → NotIn a (xs ++ ys)
append-NotIn a [] ys h k = k
append-NotIn a (x ∷ xs) ys (n, h) k = (n, append-NotIn a xs ys h k)

pub NotIn-In : (a b : ℕ) (xs : List ℕ) → NotIn a xs → In b xs → a ≢ b
NotIn-In a b [] n h = absurd h
NotIn-In a b (x ∷ xs) (n, m) (inl e) = λ q. n (q ∙ e)
NotIn-In a b (x ∷ xs) (n, m) (inr h) = NotIn-In a b xs m h

pub In-dec : (a : ℕ) (xs : List ℕ) → In a xs ⊎ NotIn a xs
In-dec a [] = inr tt
In-dec a (x ∷ xs) = elim (ℕ_discrete a x) [
  | yes e ↦ inl (inl e)
  | no n ↦ elim (In-dec a xs) [ inl h ↦ inl (inr h) | inr h ↦ inr (n, h) ]
]

-- A member splits the list.
pub In-split : (a : ℕ) (xs : List ℕ) → In a xs → (ys : List ℕ) × (zs : List ℕ) × (xs ≡ ys ++ a ∷ zs)
In-split a [] h = absurd h
In-split a (x ∷ xs) (inl e) = ([], xs, rw e)
In-split a (x ∷ xs) (inr h) = let (ys, zs, e) = In-split a xs h in (x ∷ ys, zs, ap (◌∷◌ x) e)

-- The parts of a list without repetitions, split at one of its members.
pub record IsSplit (ys : List ℕ) (x : ℕ) (zs : List ℕ) : Type 0 where
  pub left : Distinct ys
  pub right : Distinct zs
  pub not_left : NotIn x ys
  pub not_right : NotIn x zs
  pub apart : (i : ℕ) → In i zs → NotIn i ys
  pub apart_left : (i : ℕ) → In i ys → NotIn i zs
  pub joined : Distinct (ys ++ zs)

pub Distinct-IsSplit :
    (ys : List ℕ) (x : ℕ) (zs : List ℕ) → Distinct (ys ++ x ∷ zs) → IsSplit ys x zs
Distinct-IsSplit [] x zs (n, d) = record {
  left = tt;
  right = d;
  not_left = tt;
  not_right = n;
  apart = λ i h. tt;
  apart_left = λ i h. absurd h;
  joined = d;
}
Distinct-IsSplit (y ∷ ys) x zs (n, d) =
    let s = Distinct-IsSplit ys x zs d in
    let (ny, nxz) = NotIn-append y ys (x ∷ zs) n in
    record {
      left = (ny, s.left);
      right = s.right;
      not_left = (λ e. nxz.0 (sym e), s.not_left);
      not_right = s.not_right;
      apart = λ i h. (λ e. NotIn-In y i zs nxz.1 h (sym e), s.apart i h);
      apart_left = λ i h. elim h [
        | inl e ↦ subst (λ k. NotIn k zs) (sym e) nxz.1
        | inr k ↦ s.apart_left i k
      ];
      joined = (append-NotIn y ys zs ny nxz.1, s.joined);
    }

pub append-Distinct : (xs : List ℕ) (y : ℕ) → Distinct xs → NotIn y xs → Distinct (xs ++ y ∷ [])
append-Distinct [] y d n = (tt, tt)
append-Distinct (x ∷ xs) y (nx, d) (n, m) =
    (append-NotIn x xs (y ∷ []) nx ((λ e. n (sym e)), tt), append-Distinct xs y d m)

pub append-cons_assoc {ℓ} : {A : Type ℓ} (xs : List A) (y : A) → (xs ++ y ∷ []) ++ [] ≡ xs ++ y ∷ []
append-cons_assoc [] y = refl
append-cons_assoc (x ∷ xs) y = ap (◌∷◌ x) (append-cons_assoc xs y)

pub In-drop_middle :
    (i : ℕ) (ys : List ℕ) (x : ℕ) (zs : List ℕ) → i ≢ x → In i (ys ++ x ∷ zs) → In i (ys ++ zs)
In-drop_middle i [] x zs n (inl e) = absurd (n e)
In-drop_middle i [] x zs n (inr h) = h
In-drop_middle i (y ∷ ys) x zs n (inl e) = inl e
In-drop_middle i (y ∷ ys) x zs n (inr h) = inr (In-drop_middle i ys x zs n h)

pub In-add_middle :
    (i : ℕ) (ys : List ℕ) (x : ℕ) (zs : List ℕ) → In i (ys ++ zs) → In i (ys ++ x ∷ zs)
In-add_middle i [] x zs h = inr h
In-add_middle i (y ∷ ys) x zs (inl e) = inl e
In-add_middle i (y ∷ ys) x zs (inr h) = inr (In-add_middle i ys x zs h)

pub In-middle : (ys : List ℕ) (x : ℕ) (zs : List ℕ) → In x (ys ++ x ∷ zs)
In-middle [] x zs = inl refl
In-middle (y ∷ ys) x zs = inr (In-middle ys x zs)

In-kept :
    (a b x : ℕ) (xs rest : List ℕ) (t : Bool)
    → (x == a) ≡ t
    → In b (if t then rest else x ∷ rest)
    → (In b rest → (a ≢ b) × In b xs)
    → (a ≢ b) × In b (x ∷ xs)
In-kept a b x xs rest true e h ih = let k = ih h in (k.0, inr k.1)
In-kept a b x xs rest false e (inl q) ih = ((λ w. ground arith), inl q)
In-kept a b x xs rest false e (inr h) ih = let k = ih h in (k.0, inr k.1)

-- What `without` keeps is another element of the list.
pub In-without : (a b : ℕ) (xs : List ℕ) → In b (without a xs) → (a ≢ b) × In b xs
unfolding without
In-without a b [] h = absurd h
In-without a b (x ∷ xs) h = In-kept a b x xs (without a xs) (x == a) refl h (In-without a b xs)

-- A list is empty or has a last element.
pub List-cases {ℓ} :
    {A : Type ℓ} (xs : List A) → (xs ≡ []) ⊎ ((x : A) × (ys : List A) × (xs ≡ x ∷ ys))
List-cases [] = inl refl
List-cases (x ∷ xs) = inr (x, xs, refl)

pub snoc-cases {ℓ} :
    {A : Type ℓ} (xs : List A) → (xs ≡ []) ⊎ ((ys : List A) × (x : A) × (xs ≡ ys ++ x ∷ []))
snoc-cases [] = inl refl
snoc-cases (x ∷ xs) = elim (snoc-cases xs) [
  | inl e ↦ inr ([], x, ap (◌∷◌ x) e)
  | inr (ys, y, e) ↦ inr (x ∷ ys, y, ap (◌∷◌ x) e)
]

module _ {ℓ} {A : Type ℓ} where
  pub take-length-append : (xs ys : List A) → take (length xs) (xs ++ ys) ≡ xs
  take-length-append [] ys = refl
  take-length-append (x ∷ xs) ys = ap (◌∷◌ x) (take-length-append xs ys)

  pub drop-length-append : (xs ys : List A) → drop (length xs) (xs ++ ys) ≡ ys
  drop-length-append [] ys = refl
  drop-length-append (x ∷ xs) ys = drop-length-append xs ys

pub NotIn-without : (i a : ℕ) (xs : List ℕ) → NotIn i (without a xs) → (i ≡ a) ⊎ NotIn i xs
unfolding without
NotIn-without i a [] n = inr tt
NotIn-without i a (x ∷ xs) n = elim (ℕ_discrete i a) [
  | yes e ↦ inl e
  | no d ↦ ground (arith, NotIn-without i a xs, d)
]

pub length-without : (a : ℕ) (xs : List ℕ) → length (without a xs) ≤ length xs
unfolding without
length-without a [] = omega arith
length-without a (x ∷ xs) = ground (arith, length-without a xs)

pub without-NotIn : (i a : ℕ) (xs : List ℕ) → NotIn i xs → NotIn i (without a xs)
unfolding without
without-NotIn i a [] n = tt
without-NotIn i a (x ∷ xs) n = ground (arith, without-NotIn i a xs)

pub NotIn-without_self : (a : ℕ) (xs : List ℕ) → NotIn a (without a xs)
unfolding without
NotIn-without_self a [] = tt
NotIn-without_self a (x ∷ xs) = ground (arith, NotIn-without_self a xs)
